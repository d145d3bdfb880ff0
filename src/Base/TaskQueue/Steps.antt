-- ===== src/Base/TaskQueue/Steps.antt =====
-- The steps other than a post: which of them the queue and the loop take, and what they keep.
use lib_hh_old.Common.{
  ℕ, suc, ◌≤◌, ◌<◌, ◌^◌, ◌≡◌, refl, sym, ap, ◌∙◌, Bool, true, false, Bool-cases, inl, inr, List, [],
  ◌∷◌, ◌++◌, map, arith, append-nil, append_assoc,
}
use lib_hh_old.Common.Int.{pos_part, ◌+ℤ◌}
use lib_hh_old.Base.TaskQueue.{
  PendingTask, IncomingTaskQueue, WorkQueue, Action, is_empty, schedule_work, reload_work_queue,
  start_scheduling, will_destroy_current_message_loop, reload, take_front,
}

-- A loop that is ready and has posted tasks waiting has been woken since its last empty reload.
abbrev pub IsAwake : IncomingTaskQueue → Type 0
IsAwake q =
    q.is_ready_for_scheduling ≡ true
    → q.has_message_loop ≡ true
    → is_empty q.incoming_queue ≡ false
    → q.message_loop_scheduled ≡ true

-- A post whose time does not overflow.
abbrev pub IsTimely : Action → Type 0
IsTimely (Action.post task delay now) = pos_part (now +ℤ delay) < 2 ^ 63
IsTimely Action.refill = Unit {0}
IsTimely Action.pop = Unit {0}
IsTimely Action.start = Unit {0}
IsTimely Action.destroy = Unit {0}

-- Taken, reloaded and waiting, in this order.
abbrev pub tasks : WorkQueue → List ℕ
tasks w = map (λ (t : PendingTask). t.task) (w.taken ++ (w.work_queue ++ w.incoming.incoming_queue))

-- What an action adds to the accepted tasks, and whether the loop is still there after it.
abbrev pub added : Action → Bool → List ℕ
added (Action.post task delay now) true = task ∷ []
added a alive = []

abbrev pub stays : Action → Bool → Bool
stays Action.destroy alive = false
stays a alive = alive

pub record Stepped (a : Action) (w w' : WorkQueue) : Type 0 where
  pub awake : IsAwake w'.incoming
  pub alive : w'.incoming.has_message_loop ≡ stays a w.incoming.has_message_loop
  pub counted : w'.incoming.next_sequence_num ≤ suc w.incoming.next_sequence_num
  pub kept : tasks w' ≡ tasks w ++ added a w.incoming.has_message_loop

empty→nil : (xs : List PendingTask) → is_empty xs ≡ true → xs ≡ []
unfolding is_empty
empty→nil [] h = refl
empty→nil (x ∷ xs) h = ground arith

-- An action that adds nothing to the three lists.
unchanged :
    (w w' : WorkQueue)
    → w'.taken ++ (w'.work_queue ++ w'.incoming.incoming_queue)
      ≡ w.taken ++ (w.work_queue ++ w.incoming.incoming_queue)
    → tasks w' ≡ tasks w ++ []
unchanged w w' e = ap (map (λ (t : PendingTask). t.task)) e ∙ sym (append-nil (tasks w))

pub start-Stepped :
    (w : WorkQueue)
    → IsAwake w.incoming
    → Stepped Action.start w (record w { incoming = start_scheduling w.incoming })
unfolding start_scheduling schedule_work
start-Stepped w awake = record {
  awake = ground arith;
  alive = ground arith;
  counted = ground arith;
  kept =
      unchanged w (record w { incoming = start_scheduling w.incoming })
        (ap (λ q. w.taken ++ (w.work_queue ++ q)) (ground arith));
}

pub destroy-Stepped :
    (w : WorkQueue)
    → IsAwake w.incoming
    → Stepped Action.destroy w
        (record w { incoming = will_destroy_current_message_loop w.incoming })
unfolding will_destroy_current_message_loop
destroy-Stepped w awake = record {
  awake = λ ready alive some_tasks. ground arith;
  alive = refl;
  counted = omega arith;
  kept = unchanged w (record w { incoming = will_destroy_current_message_loop w.incoming }) refl;
}

pop-lists :
    (taken work rest : List PendingTask) (w : WorkQueue)
    → w.taken ≡ taken
    → w.work_queue ≡ work
    → (take_front w).taken ++ ((take_front w).work_queue ++ rest) ≡ taken ++ (work ++ rest)
unfolding take_front
pop-lists taken [] rest w e e' = rw (e', e) refl
pop-lists taken (t ∷ work) rest w e e' = rw (e', e) (append_assoc taken (t ∷ []) (work ++ rest))

pub pop-Stepped : (w : WorkQueue) → IsAwake w.incoming → Stepped Action.pop w (take_front w)
pop-Stepped w awake =
    let same = pop-incoming w in
    record {
      awake = rw same awake;
      alive = ap (λ (q : IncomingTaskQueue). q.has_message_loop) same;
      counted = omega (arith, ap (λ (q : IncomingTaskQueue). q.next_sequence_num) same);
      kept = unchanged w (take_front w) (
          ap
            (λ (q : IncomingTaskQueue).
              (take_front w).taken ++ ((take_front w).work_queue ++ q.incoming_queue))
            same
          ∙ pop-lists w.taken w.work_queue w.incoming.incoming_queue w refl refl);
    }
  where
    pop-incoming : (w : WorkQueue) → (take_front w).incoming ≡ w.incoming
    pop-incoming w = unfold take_front in ground arith

refill-lists :
    (w : WorkQueue)
    → (reload w).taken ++ ((reload w).work_queue ++ (reload w).incoming.incoming_queue)
      ≡ w.taken ++ (w.work_queue ++ w.incoming.incoming_queue)
unfolding reload reload_work_queue
refill-lists w = elim (Bool-cases (is_empty w.work_queue)) [
  | inr busy ↦ rw busy refl
  | inl idle ↦
      let nil = empty→nil w.work_queue idle in
      elim (Bool-cases (is_empty w.incoming.incoming_queue)) [
        | inl none_new ↦ rw (idle, none_new) refl
        | inr some_new ↦
            rw (idle, some_new)
              (ap (λ l. w.taken ++ (w.incoming.incoming_queue ++ l)) nil
                ∙ ap (λ l. w.taken ++ l) (append-nil w.incoming.incoming_queue)
                ∙ ap (λ l. w.taken ++ (l ++ w.incoming.incoming_queue)) (sym nil))
      ]
]

pub refill-Stepped : (w : WorkQueue) → IsAwake w.incoming → Stepped Action.refill w (reload w)
refill-Stepped w awake = record {
  awake = unfold reload reload_work_queue in ground arith;
  alive = unfold reload reload_work_queue in ground arith;
  counted = unfold reload reload_work_queue in ground arith;
  kept = unchanged w (reload w) (refill-lists w);
}
