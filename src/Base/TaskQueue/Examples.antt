-- ===== src/Base/TaskQueue/Examples.antt =====
-- Runs of the task queue, and its theorem at concrete inputs.
use lib_hh_old.Common.{◌≡◌, refl, arith, some, List, [], ◌∷◌, All}
use lib_hh_old.Common.Int.{pos, negsuc, ◌+ℤ◌}
use lib_hh_old.Base.TaskQueue.{WorkQueue, new_work_queue, Action, run}
use lib_hh_old.Base.TaskQueue.Steps.{IsAwake, IsTimely, tasks}
use lib_hh_old.Base.TaskQueue.Order.{accepted, run-accepted}

-- Two posts, one of them delayed, a reload, a third post before the first task is taken, and a post
-- after the loop has gone.
abbrev actions : List Action
actions =
    Action.start
    ∷ Action.post 7 (pos 0) (pos 1000)
    ∷ Action.post 8 (pos 50) (pos 1001)
    ∷ Action.refill
    ∷ Action.post 9 (negsuc 0) (pos 1002)
    ∷ Action.pop
    ∷ Action.destroy
    ∷ Action.post 10 (pos 0) (pos 1003)
    ∷ []

accepted-actions : accepted actions ≡ 7 ∷ 8 ∷ 9 ∷ []
unfolding accepted
accepted-actions = refl

actions-IsTimely : All IsTimely actions
unfolding ◌+ℤ◌
actions-IsTimely =
    (tt, (omega arith, (omega arith, (tt, (omega arith, (tt, (tt, (omega arith, tt))))))))

run-accepted_example :
    (w : WorkQueue) × (run actions new_work_queue ≡ some w)
    × IsAwake w.incoming
    × (tasks w ≡ accepted actions)
run-accepted_example = run-accepted actions actions-IsTimely (omega arith)
