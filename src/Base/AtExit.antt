-- ===== src/Base/AtExit.antt =====
-- libHH/base/at_exit.h and at_exit.cpp: the stack of `AtExitManager`s and of the tasks of each. A
-- task is the identity of its closure; what running it registers is a parameter, and a task does
-- nothing else to the managers. The loop of `ProcessCallbacksNow` runs on fuel, and `none` is no fuel
-- left.
pub mod Order
mod Examples
use lib_hh_old.Common.{ℕ, zero, suc, Option, some, none, List, [], ◌∷◌, ◌++◌, ◌>>=◌, length}

-- `g_top_manager` and, behind it, each `next_manager_`, as the stacks of the managers; the tasks that
-- have run, in order.
pub record AtExitManagers : Type 0 where
  pub stacks : List (List ℕ)
  pub ran : List ℕ

-- The constructors.
unfoldable pub new_manager : AtExitManagers → AtExitManagers
new_manager m = record m { stacks = [] ∷ m.stacks }

unfoldable pub push_task : ℕ → List (List ℕ) → List (List ℕ)
push_task task [] = []
push_task task (stack ∷ stacks) = (task ∷ stack) ∷ stacks

-- `RegisterTask`, and `RegisterCallback`, which binds its argument first.
unfoldable pub register_task : ℕ → AtExitManagers → AtExitManagers
register_task task m = record m { stacks = push_task task m.stacks }

-- Several registrations, one after the other.
unfoldable pub register_tasks : List ℕ → AtExitManagers → AtExitManagers
register_tasks [] m = m
register_tasks (task ∷ tasks) m = register_tasks tasks (register_task task m)

abbrev pub pop_task : AtExitManagers → AtExitManagers
pop_task m = elim m.stacks [
  | [] ↦ m
  | stack ∷ stacks ↦ elim stack [ [] ↦ m | task ∷ tasks ↦ record m { stacks = tasks ∷ stacks } ]
]

abbrev pub top_task : List (List ℕ) → Option ℕ
top_task [] = none
top_task ([] ∷ stacks) = none
top_task ((task ∷ stack) ∷ stacks) = some task

module _ (registers : ℕ → List ℕ) where
  -- `ProcessCallbacksNow`: the top is run, and then what is on top is popped.
  unfoldable pub process_callbacks_now : ℕ → AtExitManagers → Option AtExitManagers
  process_callbacks_now zero m = elim (top_task m.stacks) [ none ↦ some m | some task ↦ none ]
  process_callbacks_now (suc fuel) m = elim (top_task m.stacks) [
    | none ↦ some m
    | some task ↦
        process_callbacks_now fuel
          (pop_task (register_tasks (registers task) (record m { ran = m.ran ++ (task ∷ []) })))
  ]

  -- The destructor.
  unfoldable pub destroy_manager : ℕ → AtExitManagers → Option AtExitManagers
  destroy_manager fuel m = elim m.stacks [
    | [] ↦ some m
    | stack ∷ stacks ↦
        process_callbacks_now fuel m >>= λ done. some (record done { stacks = stacks })
  ]
