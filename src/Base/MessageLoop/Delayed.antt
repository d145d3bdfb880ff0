-- ===== src/Base/MessageLoop/Delayed.antt =====
-- `DoDelayedWork`: a delayed task is run once it is due, and the earliest one first.
use lib_hh_old.Common.{
  ℕ, ◌≡◌, refl, sym, Bool, true, false, ◌⊎◌, inl, inr, Bool-cases, Option, some, List, [], ◌∷◌, All,
  ◌>>=◌, arith,
}
use mathlib.Core.Path.{subst}
use lib_hh_old.Common.Int.{ℤ, pos, ltb_ℤ, ◌≤ℤ◌}
use lib_hh_old.Base.TaskQueue.{PendingTask}
use lib_hh_old.Base.MessageLoop.{
  MessageLoop, less, top_time, schedule_delayed_work, run_task, run_top, do_delayed_work,
}
use lib_hh_old.Base.MessageLoop.Queue.{IsSorted, less-time}
use lib_hh_old.Base.MessageLoop.Moves.{pending}

abbrev pub IsLater : ℤ → PendingTask → Type 0
IsLater now t = ltb_ℤ now t.delayed_run_time ≡ true

abbrev NotBefore : PendingTask → PendingTask → Type 0
NotBefore t u = t.delayed_run_time ≤ℤ u.delayed_run_time

earliest :
    (t : PendingTask) (ts : List PendingTask)
    → All (λ u. less t u ≡ false) ts
    → All (NotBefore t) ts
earliest t [] h = tt
earliest t (u ∷ us) (h, hs) = (less-time t u h, earliest t us hs)

later_than : (now a b : ℤ) → ltb_ℤ now a ≡ true → a ≤ℤ b → ltb_ℤ now b ≡ true
later_than now a b h le = ground arith

All-IsLater :
    (now : ℤ) (t : PendingTask) (us : List PendingTask)
    → IsLater now t
    → All (NotBefore t) us
    → All (IsLater now) us
All-IsLater now t [] h hs = tt
All-IsLater now t (u ∷ us) h (hu, hs) =
    (later_than now t.delayed_run_time u.delayed_run_time h hu, All-IsLater now t us h hs)

not_later : (now a : ℤ) → ltb_ℤ now a ≡ false → a ≤ℤ now
not_later now a h = ground arith

≤ℤ_trans : (a b c : ℤ) → a ≤ℤ b → b ≤ℤ c → a ≤ℤ c
≤ℤ_trans a b c h h' = omega arith

module _ (closure : ℕ → MessageLoop → Option MessageLoop) (now : ℤ) where
  -- No task is due: the loop waits until the earliest is, or until it is woken.
  abbrev pub Waits : List PendingTask → MessageLoop → Option (MessageLoop × Bool) → Type 0
  Waits us l result =
      All (IsLater now) us
      × (l' : MessageLoop) × (result ≡ some (l', false))
      × (l'.delayed_work_queue ≡ us)
      × (l'.delayed_work_time ≡ top_time us (pos 0))
      × (pending l' ≡ pending l)

  -- The earliest task is due, and runs.
  abbrev pub RunsEarliest : List PendingTask → MessageLoop → Option (MessageLoop × Bool) → Type 0
  RunsEarliest us l result =
      (t : PendingTask) × (ts : List PendingTask) × (l' : MessageLoop) × (us ≡ t ∷ ts)
      × (t.delayed_run_time ≤ℤ now)
      × All (NotBefore t) ts
      × (result ≡ (run_task closure t l' >>= λ l2. some (l2, true)))
      × (l'.delayed_work_queue ≡ ts)
      × (pending l' ≡ pending l)

  abbrev due_loop : List PendingTask → MessageLoop → MessageLoop
  due_loop us l = record l { delayed_work_queue = us; nestable_tasks_allowed = true }

  delayed-cases :
      (us : List PendingTask) (l : MessageLoop)
      → IsSorted us
      → l.recent_time ≤ℤ now
      → Waits us l (do_delayed_work closure now (due_loop us l))
        ⊎ RunsEarliest us l (do_delayed_work closure now (due_loop us l))
  unfolding do_delayed_work run_top schedule_delayed_work
  delayed-cases [] l sorted recent = inl (
    tt,
    record (due_loop [] l) { recent_time = pos 0; delayed_work_time = pos 0 },
    refl,
    refl,
    refl,
    refl,
  )
  delayed-cases (t ∷ ts) l (first, sorted) recent =
      let after = earliest t ts first in
      let seen_now : MessageLoop = record (due_loop (t ∷ ts) l) { recent_time = now } in
      elim (Bool-cases (ltb_ℤ l.recent_time t.delayed_run_time)) [
        | inl behind ↦ elim (Bool-cases (ltb_ℤ now t.delayed_run_time)) [
          | inl later ↦ inl (
            (later, All-IsLater now t ts later after),
            record seen_now { delayed_work_time = t.delayed_run_time },
            rw (behind, later) refl,
            refl,
            refl,
            refl,
          )
          | inr due ↦ inr (
            t,
            ts,
            schedule_delayed_work (record seen_now { delayed_work_queue = ts }),
            refl,
            not_later now t.delayed_run_time due,
            after,
            rw (behind, due) refl,
            refl,
            refl,
          )
        ]
        | inr seen ↦ inr (
          t,
          ts,
          schedule_delayed_work (due_loop ts l),
          refl,
          ≤ℤ_trans t.delayed_run_time l.recent_time now
              (not_later l.recent_time t.delayed_run_time seen) recent,
          after,
          rw seen refl,
          refl,
          refl,
        )
      ]

  -- DoDelayedWork on a loop that may run tasks, with its delayed tasks in order and a recent time
  -- that is not in the future: either all delayed tasks are later than now, none is run, and the
  -- pump is told the time of the earliest, or 0 where there is none; or the earliest is due, and it
  -- is run, with the others left as they were.
  pub do_delayed_work-due :
      (l : MessageLoop)
      → IsSorted l.delayed_work_queue
      → l.nestable_tasks_allowed ≡ true
      → l.recent_time ≤ℤ now
      → Waits l.delayed_work_queue l (do_delayed_work closure now l)
        ⊎ RunsEarliest l.delayed_work_queue l (do_delayed_work closure now l)
  do_delayed_work-due l sorted h recent =
      subst
        (λ b.
          let m : MessageLoop = record l { nestable_tasks_allowed = b } in
          Waits l.delayed_work_queue l (do_delayed_work closure now m)
          ⊎ RunsEarliest l.delayed_work_queue l (do_delayed_work closure now m))
        (sym h) (delayed-cases l.delayed_work_queue l sorted recent)
