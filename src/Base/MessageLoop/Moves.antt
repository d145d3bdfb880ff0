-- ===== src/Base/MessageLoop/Moves.antt =====
-- The loop over the work queue: the delayed tasks move, and the first other one runs.
use lib_hh_old.Common.{
  ℕ, ◌≡◌, refl, ap, Bool, true, false, ◌⊎◌, inl, inr, Bool-cases, Option, some, List, [], ◌∷◌, ◌++◌,
  All, ◌>>=◌,
}
use lib_hh_old.Common.Int.{pos, eq_ℤ}
use lib_hh_old.Base.TaskQueue.{PendingTask}
use lib_hh_old.Base.MessageLoop.{
  MessageLoop, push, add_to_delayed_work_queue, schedule_delayed_work, run_task, work,
}

abbrev pub IsDelayed : PendingTask → Type 0
IsDelayed t = eq_ℤ t.delayed_run_time (pos 0) ≡ false

abbrev pub IsImmediate : PendingTask → Type 0
IsImmediate t = eq_ℤ t.delayed_run_time (pos 0) ≡ true

-- The delayed tasks, pushed one after the other.
unfoldable pub push_all : List PendingTask → List PendingTask → List PendingTask
push_all [] us = us
push_all (t ∷ ts) us = push_all ts (push t us)

pub push_all-append :
    (xs ys us : List PendingTask) → push_all (xs ++ ys) us ≡ push_all ys (push_all xs us)
unfolding push_all
push_all-append [] ys us = refl
push_all-append (x ∷ xs) ys us = push_all-append xs ys (push x us)

-- What waits for the loop.
abbrev pub pending : MessageLoop → List PendingTask
pending l = l.work_queue ++ l.incoming.incoming_queue

-- The loop once tasks have moved to the delayed ones, and others are left in its work queue.
pub record Moved (passed left : List PendingTask) (l l' : MessageLoop) : Type 0 where
  pub work_eq : l'.work_queue ≡ left
  pub incoming_eq : l'.incoming ≡ l.incoming
  pub delayed_eq : l'.delayed_work_queue ≡ push_all passed l.delayed_work_queue
  pub ran_eq : l'.ran ≡ l.ran
  pub nestable_eq : l'.nestable_tasks_allowed ≡ l.nestable_tasks_allowed
  pub keep_eq : l'.keep_running ≡ l.keep_running
  pub recent_eq : l'.recent_time ≡ l.recent_time

pub All-append :
    (P : PendingTask → Type 0) (xs ys : List PendingTask) → All P xs → All P ys → All P (xs ++ ys)
All-append P [] ys hx hy = hy
All-append P (x ∷ xs) ys (h, hx) hy = (h, All-append P xs ys hx hy)

module _ (closure : ℕ → MessageLoop → Option MessageLoop) where
  abbrev pub run_first : PendingTask → MessageLoop → Option (MessageLoop × Bool)
  run_first t l = run_task closure t l >>= λ l1. some (l1, true)

  abbrev pub WorkNothing : List PendingTask → MessageLoop → Option (MessageLoop × Bool) → Type 0
  WorkNothing ts l result =
      All IsDelayed ts × (l' : MessageLoop) × (result ≡ some (l', false)) × Moved ts [] l l'

  abbrev pub WorkFirst : List PendingTask → MessageLoop → Option (MessageLoop × Bool) → Type 0
  WorkFirst ts l result =
      (passed : List PendingTask) × (t : PendingTask) × (left : List PendingTask)
      × (l' : MessageLoop) × (ts ≡ passed ++ (t ∷ left))
      × All IsDelayed passed
      × IsImmediate t
      × (result ≡ run_first t l')
      × Moved passed left l l'

  passes : PendingTask → MessageLoop → MessageLoop
  passes t l = schedule_delayed_work (add_to_delayed_work_queue t l)

  pass-Moved :
      (t : PendingTask) (ts left : List PendingTask) (l l' : MessageLoop)
      → Moved ts left (passes t l) l'
      → Moved (t ∷ ts) left l l'
  unfolding push_all passes schedule_delayed_work add_to_delayed_work_queue
  pass-Moved t ts left l l' m = record {
    work_eq = m.work_eq;
    incoming_eq = m.incoming_eq;
    delayed_eq = m.delayed_eq;
    ran_eq = m.ran_eq;
    nestable_eq = m.nestable_eq;
    keep_eq = m.keep_eq;
    recent_eq = m.recent_eq;
  }

  pub work-cases :
      (ts : List PendingTask) (l : MessageLoop)
      → WorkNothing ts l (work closure ts l) ⊎ WorkFirst ts l (work closure ts l)
  unfolding work push_all passes
  work-cases [] l = inl (
    tt,
    record l { work_queue = [] },
    refl,
    record {
      work_eq = refl;
      incoming_eq = refl;
      delayed_eq = refl;
      ran_eq = refl;
      nestable_eq = refl;
      keep_eq = refl;
      recent_eq = refl;
    },
  )
  work-cases (t ∷ ts) l = elim (Bool-cases (eq_ℤ t.delayed_run_time (pos 0))) [
    | inl now ↦ inr (
      [],
      t,
      ts,
      record l { work_queue = ts },
      refl,
      tt,
      now,
      rw now refl,
      record {
        work_eq = refl;
        incoming_eq = refl;
        delayed_eq = refl;
        ran_eq = refl;
        nestable_eq = refl;
        keep_eq = refl;
        recent_eq = refl;
      },
    )
    | inr later ↦ elim (work-cases ts (passes t l)) [
      | inl (all, l', run, moved) ↦
          inl ((later, all), l', rw later run, pass-Moved t ts [] l l' moved)
      | inr (passed, u, left, l', split, all, immediate, run, moved) ↦ inr (
        t ∷ passed,
        u,
        left,
        l',
        ap (λ us. t ∷ us) split,
        (later, all),
        immediate,
        rw later run,
        pass-Moved t passed left l l' moved,
      )
    ]
  ]
