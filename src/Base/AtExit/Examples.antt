-- ===== src/Base/AtExit/Examples.antt =====
-- The theorems on at-exit callbacks at concrete inputs.
use mathlib.Core.List.{reverse}
use lib_hh_old.Common.{ℕ, ◌≡◌, refl, some, none, List, [], ◌∷◌, ◌++◌, ◌==◌, if◌then◌else◌}
use lib_hh_old.Base.AtExit.{
  AtExitManagers, new_manager, register_tasks, process_callbacks_now, destroy_manager,
}
use lib_hh_old.Base.AtExit.Order.{destroy_manager-register_tasks, process_callbacks_now-again}

abbrev outer : AtExitManagers
outer = record { stacks = (9 ∷ []) ∷ []; ran = [] }

-- Task 5 registers task 6; the others register nothing.
abbrev registers : ℕ → List ℕ
registers task = if task == 5 then 6 ∷ [] else []

destroy_manager-register_tasks_example :
    destroy_manager registers 3 (register_tasks (1 ∷ 2 ∷ 3 ∷ []) (new_manager outer))
    ≡ some (record outer { ran = [] ++ reverse (1 ∷ 2 ∷ 3 ∷ []) })
destroy_manager-register_tasks_example =
    destroy_manager-register_tasks registers (1 ∷ 2 ∷ 3 ∷ []) outer (refl, (refl, (refl, tt)))

process_callbacks_now-again_example :
    process_callbacks_now registers 100 (record { stacks = (5 ∷ 1 ∷ []) ∷ []; ran = [] }) ≡ none
process_callbacks_now-again_example =
    process_callbacks_now-again registers 5 6 (1 ∷ []) [] refl 100 []
