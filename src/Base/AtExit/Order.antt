-- ===== src/Base/AtExit/Order.antt =====
-- The order in which the callbacks run, and callbacks that register others.
use mathlib.Core.Path.{subst}
use mathlib.Core.List.{reverse, reverse-cons}
use lib_hh_old.Common.{
  ℕ, zero, suc, ◌≡◌, refl, sym, ap, ◌∙◌, some, none, List, [], ◌∷◌, ◌++◌, append-nil, append_assoc,
  length, length-append, All, ◌>>=◌, arith,
}
use lib_hh_old.Base.AtExit.{
  AtExitManagers, new_manager, push_task, register_task, register_tasks, process_callbacks_now,
  destroy_manager,
}

-- Where the task on top of the stack registers a single other one each time it runs,
-- ProcessCallbacksNow does not end: it uses up any fuel.
pub process_callbacks_now-again :
    (registers : ℕ → List ℕ) (task other : ℕ) (stack : List ℕ) (stacks : List (List ℕ))
    → registers task ≡ other ∷ []
    → (fuel : ℕ) (ran : List ℕ)
    → process_callbacks_now registers fuel (record { stacks = (task ∷ stack) ∷ stacks; ran = ran })
      ≡ none
unfolding process_callbacks_now register_tasks register_task push_task
process_callbacks_now-again registers task other stack stacks e zero ran = refl
process_callbacks_now-again registers task other stack stacks e (suc fuel) ran =
    rw e (process_callbacks_now-again registers task other stack stacks e fuel (ran ++ (task ∷ [])))

process_callbacks_now-All :
    (registers : ℕ → List ℕ) (stack : List ℕ) (stacks : List (List ℕ)) (ran : List ℕ)
    → All (λ task. registers task ≡ []) stack
    → process_callbacks_now registers (length stack) (record { stacks = stack ∷ stacks; ran = ran })
      ≡ some (record { stacks = [] ∷ stacks; ran = ran ++ stack })
unfolding process_callbacks_now register_tasks
process_callbacks_now-All registers [] stacks ran h =
    ap (λ l. some (record { stacks = [] ∷ stacks; ran = l })) (sym (append-nil ran))
process_callbacks_now-All registers (task ∷ stack) stacks ran (h, hs) = rw h (
    process_callbacks_now-All registers stack stacks (ran ++ (task ∷ [])) hs
    ∙ ap (λ l. some (record { stacks = [] ∷ stacks; ran = l }))
        (append_assoc ran (task ∷ []) stack))

-- Tasks that are registered one after the other lie on the stack in the reverse order.
register_tasks-push :
    (tasks stack : List ℕ) (stacks : List (List ℕ)) (ran : List ℕ)
    → register_tasks tasks (record { stacks = stack ∷ stacks; ran = ran })
      ≡ record { stacks = (reverse tasks ++ stack) ∷ stacks; ran = ran }
unfolding register_tasks register_task push_task
register_tasks-push [] stack stacks ran = refl
register_tasks-push (task ∷ tasks) stack stacks ran =
    register_tasks-push tasks (task ∷ stack) stacks ran
    ∙ ap (λ l. record { stacks = l ∷ stacks; ran = ran })
        (sym (
          ap (λ l. l ++ stack) (reverse-cons task tasks)
          ∙ append_assoc (reverse tasks) (task ∷ []) stack))

length-reverse : (tasks : List ℕ) → length (reverse tasks) ≡ length tasks
length-reverse [] = refl
length-reverse (task ∷ tasks) =
    ap length (reverse-cons task tasks)
    ∙ length-append (reverse tasks) (task ∷ [])
    ∙ omega (arith, length-reverse tasks)

All-append : (P : ℕ → Type 0) (xs ys : List ℕ) → All P xs → All P ys → All P (xs ++ ys)
All-append P [] ys hx hy = hy
All-append P (x ∷ xs) ys (h, hx) hy = (h, All-append P xs ys hx hy)

All-reverse : (P : ℕ → Type 0) (tasks : List ℕ) → All P tasks → All P (reverse tasks)
All-reverse P [] h = tt
All-reverse P (task ∷ tasks) (h, hs) =
    subst (All P) (sym (reverse-cons task tasks))
      (All-append P (reverse tasks) (task ∷ []) (All-reverse P tasks hs) (h, tt))

-- Tasks that are registered with a new manager and register nothing themselves are all run by its
-- destructor, each once and in the reverse order of their registration, and the managers behind it
-- are as before.
pub destroy_manager-register_tasks :
    (registers : ℕ → List ℕ) (tasks : List ℕ) (m : AtExitManagers)
    → All (λ task. registers task ≡ []) tasks
    → destroy_manager registers (length tasks) (register_tasks tasks (new_manager m))
      ≡ some (record m { ran = m.ran ++ reverse tasks })
unfolding destroy_manager new_manager
destroy_manager-register_tasks registers tasks m h =
    ap (destroy_manager registers (length tasks)) (register_tasks-push tasks [] m.stacks m.ran)
    ∙ ap (λ r. r >>= λ (done : AtExitManagers). some (record done { stacks = m.stacks })) all
  where
    stack_eq : reverse tasks ++ [] ≡ reverse tasks
    stack_eq = append-nil (reverse tasks)

    all :
        process_callbacks_now registers
          (length tasks)
          (record { stacks = (reverse tasks ++ []) ∷ m.stacks; ran = m.ran })
        ≡ some (record { stacks = [] ∷ m.stacks; ran = m.ran ++ reverse tasks })
    all =
        rw (stack_eq, sym (length-reverse tasks))
          (process_callbacks_now-All registers (reverse tasks) m.stacks m.ran
            (All-reverse (λ task. registers task ≡ []) tasks h))
