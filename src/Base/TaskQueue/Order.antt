-- ===== src/Base/TaskQueue/Order.antt =====
-- Whole runs of posts, reloads and steps of the loop: which tasks it takes, and in which order.
use lib_hh_old.Common.{
  ℕ, ◌+◌, ◌<◌, ◌^◌, ◌≡◌, refl, sym, ap, ap₂, ◌∙◌, Bool, true, false, Bool-cases, ◌⊎◌, inl, inr,
  some, List, [], ◌∷◌, ◌++◌, arith, append-nil, append_assoc, if◌then◌else◌, length, All,
}
use lib_hh_old.Base.TaskQueue.{WorkQueue, new_work_queue, Action, run}
use lib_hh_old.Base.TaskQueue.Steps.{IsAwake, IsTimely, tasks, added, stays}
use lib_hh_old.Base.TaskQueue.Posts.{step-Stepped}

-- The tasks of the posts before the loop goes away.
unfoldable pub accepted : List Action → List ℕ
accepted [] = []
accepted (Action.post task delay now ∷ actions) = task ∷ accepted actions
accepted (Action.refill ∷ actions) = accepted actions
accepted (Action.pop ∷ actions) = accepted actions
accepted (Action.start ∷ actions) = accepted actions
accepted (Action.destroy ∷ actions) = []

added-accepted :
    (a : Action) (actions : List Action) (alive : Bool)
    → added a alive ++ (if stays a alive then accepted actions else [])
      ≡ (if alive then accepted (a ∷ actions) else [])
unfolding accepted
added-accepted (Action.post task delay now) actions true = refl
added-accepted (Action.post task delay now) actions false = refl
added-accepted Action.refill actions true = refl
added-accepted Action.refill actions false = refl
added-accepted Action.pop actions true = refl
added-accepted Action.pop actions false = refl
added-accepted Action.start actions true = refl
added-accepted Action.start actions false = refl
added-accepted Action.destroy actions true = refl
added-accepted Action.destroy actions false = refl

run-Kept :
    (actions : List Action) (w : WorkQueue)
    → IsAwake w.incoming
    → All IsTimely actions
    → w.incoming.next_sequence_num + length actions < 2 ^ 31
    → (w' : WorkQueue) × (run actions w ≡ some w')
      × IsAwake w'.incoming
      × (tasks w' ≡ tasks w ++ (if w.incoming.has_message_loop then accepted actions else []))
unfolding run
run-Kept [] w awake timely room = (w, refl, awake, nothing (Bool-cases w.incoming.has_message_loop))
  where
    nothing :
        (w.incoming.has_message_loop ≡ true) ⊎ (w.incoming.has_message_loop ≡ false)
        → tasks w ≡ tasks w ++ (if w.incoming.has_message_loop then accepted [] else [])
    nothing (inl e) = unfold accepted in rw e (sym (append-nil (tasks w)))
    nothing (inr e) = rw e (sym (append-nil (tasks w)))
run-Kept (a ∷ actions) w awake (timely, all_timely) room =
    let (w', one, stepped) = step-Stepped a w awake timely (omega arith) in
    let (w'', rest, awake', kept) =
      run-Kept actions w' stepped.awake all_timely (omega (arith, stepped.counted)) in
    (
      w'',
      rw one rest,
      awake',
      kept
          ∙ ap₂ (λ l alive. l ++ (if alive then accepted actions else [])) stepped.kept
              stepped.alive
          ∙ append_assoc (tasks w) (added a w.incoming.has_message_loop) _
          ∙ ap (λ l. tasks w ++ l) (added-accepted a actions w.incoming.has_message_loop),
    )

-- For fewer than 2^31 actions from a new queue and work queue, in any order, of which no post
-- overflows its time: the run does not fault; the tasks taken by the loop, in its work queue and
-- still incoming are together, in this order, exactly the tasks posted before the loop went away, in
-- the order of the posts; and a loop that is ready, still there and has incoming tasks is marked as
-- scheduled.
pub run-accepted :
    (actions : List Action)
    → All IsTimely actions
    → length actions < 2 ^ 31
    → (w : WorkQueue) × (run actions new_work_queue ≡ some w)
      × IsAwake w.incoming
      × (tasks w ≡ accepted actions)
run-accepted actions timely few =
    run-Kept actions new_work_queue (λ ready alive some_tasks. ground arith) timely (omega arith)
