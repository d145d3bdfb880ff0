-- ===== src/Base/TaskQueue/Posts.antt =====
-- A post to the queue, and every step on one state.
use mathlib.Core.List.{map-append}
use lib_hh_old.Common.{
  ℕ, suc, ◌≤◌, ◌<◌, ◌^◌, ◌≡◌, refl, sym, ap, ◌∙◌, Bool, true, false, not, ◌&&◌, ◌||◌, Bool-cases,
  inl, inr, some, [], ◌∷◌, ◌++◌, map, arith, append-nil, append_assoc, lt→ltb,
}
use lib_hh_old.Common.Int.{ℤ, pos, pos_part, ◌+ℤ◌, ltb_ℤ}
use lib_hh_old.Base.TaskQueue.{
  PendingTask, IncomingTaskQueue, WorkQueue, Action, is_empty, calculate_delayed_runtime,
  schedule_work, post_pending_task, add_to_incoming_queue, reload, take_front, step, run,
}
use lib_hh_old.Base.TaskQueue.Steps.{
  IsAwake, IsTimely, tasks, Stepped, start-Stepped, destroy-Stepped, pop-Stepped, refill-Stepped,
}

timely-run_time :
    (now delay : ℤ)
    → pos_part (now +ℤ delay) < 2 ^ 63
    → (t : ℤ) × (calculate_delayed_runtime now delay ≡ some t)
unfolding calculate_delayed_runtime
timely-run_time now delay h = elim (Bool-cases (ltb_ℤ (pos 0) delay)) [
  | inl later ↦ (now +ℤ delay, rw (later, lt→ltb _ _ h) refl)
  | inr at_once ↦ (pos 0, rw at_once refl)
]

-- What a post that the queue takes does to it.
record Posted (task : ℕ) (q q' : IncomingTaskQueue) : Type 0 where
  pub awake : IsAwake q'
  pub alive : q'.has_message_loop ≡ true
  pub counted : q'.next_sequence_num ≤ suc q.next_sequence_num
  pub pushed :
      (t : PendingTask) × (t.task ≡ task) × (q'.incoming_queue ≡ q.incoming_queue ++ (t ∷ []))

module _ (t : PendingTask) (q : IncomingTaskQueue) (awake : IsAwake q)
    (alive : q.has_message_loop ≡ true) where
  abbrev last : PendingTask
  last = record t { sequence_num = q.next_sequence_num }

  abbrev pushed : IncomingTaskQueue
  pushed = record q {
    incoming_queue = q.incoming_queue ++ (record t { sequence_num = q.next_sequence_num } ∷ []);
    next_sequence_num = suc q.next_sequence_num;
  }

  abbrev wakes : Bool
  wakes =
      q.is_ready_for_scheduling
      && (q.always_schedule_work || (not q.message_loop_scheduled && is_empty q.incoming_queue))

  pushed-Posted : wakes ≡ false → Posted t.task q pushed
  pushed-Posted asleep = record {
    awake = λ ready there some_tasks. ground (arith, awake);
    alive = alive;
    counted = omega arith;
    pushed = (last, refl, refl);
  }

  schedule_work-Posted : Posted t.task q (schedule_work pushed)
  unfolding schedule_work
  schedule_work-Posted = record {
    awake = λ ready there some_tasks. rw alive refl;
    alive = rw alive refl;
    counted = rw alive (omega arith);
    pushed = (last, refl, rw alive refl);
  }

  post_pending_task-Posted :
      suc q.next_sequence_num < 2 ^ 31
      → (q' : IncomingTaskQueue) × (post_pending_task t q ≡ some (q', true)) × Posted t.task q q'
  unfolding post_pending_task
  post_pending_task-Posted room = elim (Bool-cases wakes) [
    | inl wake ↦
        (schedule_work pushed, rw (alive, lt→ltb _ _ room, wake) refl, schedule_work-Posted)
    | inr asleep ↦ (pushed, rw (alive, lt→ltb _ _ room, asleep) refl, pushed-Posted asleep)
  ]

tasks-push :
    (task : ℕ) (w : WorkQueue) (q' : IncomingTaskQueue)
    → Posted task w.incoming q'
    → tasks (record w { incoming = q' }) ≡ tasks w ++ (task ∷ [])
tasks-push task w q' posted =
    let (t, task_eq, last) = posted.pushed in
    let lists : w.taken ++ (w.work_queue ++ q'.incoming_queue)
        ≡ (w.taken ++ (w.work_queue ++ w.incoming.incoming_queue)) ++ (t ∷ []) =
      ap (λ l. w.taken ++ (w.work_queue ++ l)) last
      ∙ ap (λ l. w.taken ++ l) (sym (append_assoc w.work_queue w.incoming.incoming_queue (t ∷ [])))
      ∙ sym (append_assoc w.taken (w.work_queue ++ w.incoming.incoming_queue) (t ∷ [])) in
    ap (map (λ (t : PendingTask). t.task)) lists
    ∙ map-append (λ (t : PendingTask). t.task)
        (w.taken ++ (w.work_queue ++ w.incoming.incoming_queue)) (t ∷ [])
    ∙ ap (λ n. tasks w ++ (n ∷ [])) task_eq

abbrev pub Steps : Action → WorkQueue → Type 0
Steps a w = (w' : WorkQueue) × (step a w ≡ some w') × Stepped a w w'

post-Stepped :
    (task : ℕ) (delay now : ℤ) (w : WorkQueue)
    → IsAwake w.incoming
    → pos_part (now +ℤ delay) < 2 ^ 63
    → suc w.incoming.next_sequence_num < 2 ^ 31
    → Steps (Action.post task delay now) w
unfolding step add_to_incoming_queue
post-Stepped task delay now w awake timely room =
    let (time, timed) = timely-run_time now delay timely in
    let t : PendingTask = record { task = task; sequence_num = 0; delayed_run_time = time } in
    elim (Bool-cases w.incoming.has_message_loop) [
      | inl alive ↦
          let (q', run, posted) = post_pending_task-Posted t w.incoming awake alive room in
          (
            record w { incoming = q' },
            rw (timed, run) refl,
            record {
              awake = posted.awake;
              alive = posted.alive ∙ sym alive;
              counted = posted.counted;
              kept = rw alive (tasks-push task w q' posted);
            },
          )
      | inr gone ↦ (
        w,
        rw timed (unfold post_pending_task in rw gone refl),
        record {
          awake = awake;
          alive = refl;
          counted = omega arith;
          kept = rw gone (sym (append-nil (tasks w)));
        },
      )
    ]

pub step-Stepped :
    (a : Action) (w : WorkQueue)
    → IsAwake w.incoming
    → IsTimely a
    → suc w.incoming.next_sequence_num < 2 ^ 31
    → Steps a w
unfolding step
step-Stepped (Action.post task delay now) w awake timely room =
    post-Stepped task delay now w awake timely room
step-Stepped Action.refill w awake timely room = (reload w, refl, refill-Stepped w awake)
step-Stepped Action.pop w awake timely room = (take_front w, refl, pop-Stepped w awake)
step-Stepped Action.start w awake timely room = (_, refl, start-Stepped w awake)
step-Stepped Action.destroy w awake timely room = (_, refl, destroy-Stepped w awake)
