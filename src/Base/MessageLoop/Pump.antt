-- ===== src/Base/MessageLoop/Pump.antt =====
-- An iteration of the default pump: it waits only where nothing is left to do.
use lib_hh_old.Common.{
  ℕ, ◌≡◌, ◌≢◌, refl, sym, ap, ◌∙◌, Bool, true, false, not, ◌||◌, ◌⊎◌, inl, inr, Bool-cases, Option,
  none, some, List, [], ◌∷◌, All, if◌then◌else◌, ◌>>=◌, arith,
}
use mathlib.Core.Path.{subst}
use lib_hh_old.Common.Int.{ℤ, pos, eq_ℤ, ltb_ℤ, ◌≤ℤ◌}
use lib_hh_old.Base.TaskQueue.{PendingTask}
use lib_hh_old.Base.MessageLoop.{
  MessageLoop, Next, again, stop, wait_forever, wait_for, push, top_time, delay_until, rest_until,
  do_idle_work, run_task, do_delayed_work, after_delayed_work, after_work, pump_step,
}
use lib_hh_old.Base.MessageLoop.Queue.{IsSorted, push-IsSorted, All-push}
use lib_hh_old.Base.MessageLoop.Moves.{IsDelayed, push_all, pending}
use lib_hh_old.Base.MessageLoop.Work.{do_work-Works}
use lib_hh_old.Base.MessageLoop.Delayed.{IsLater, do_delayed_work-due}

pub push_all-IsSorted : (ts us : List PendingTask) → IsSorted us → IsSorted (push_all ts us)
unfolding push_all
push_all-IsSorted [] us sorted = sorted
push_all-IsSorted (t ∷ ts) us sorted = push_all-IsSorted ts (push t us) (push-IsSorted t us sorted)

push_all-IsDelayed :
    (ts us : List PendingTask)
    → All IsDelayed ts
    → All IsDelayed us
    → All IsDelayed (push_all ts us)
unfolding push_all
push_all-IsDelayed [] us h h' = h'
push_all-IsDelayed (t ∷ ts) us (ht, h) h' =
    push_all-IsDelayed ts (push t us) h (All-push IsDelayed t us ht h')

-- Nothing is left to do now, and the pump wakes up in time for the earliest delayed task.
abbrev pub Rests : ℤ → ℤ → MessageLoop → Next → Type 0
Rests now now' l again = Unit {0}
Rests now now' l stop = Unit {0}
Rests now now' l wait_forever = (pending l ≡ []) × (l.delayed_work_queue ≡ [])
Rests now now' l (wait_for delay) =
    (pending l ≡ [])
    × All (IsLater now) l.delayed_work_queue
    × (delay ≡ delay_until (top_time l.delayed_work_queue (pos 0)) now')

-- `none` is a fault of a closure.
abbrev pub RestsRightly : ℤ → ℤ → Option (MessageLoop × Next) → Type 0
RestsRightly now now' none = Unit {0}
RestsRightly now now' (some (l, next)) = Rests now now' l next

module _ (now now' : ℤ) where
  if-RestsRightly :
      (b : Bool) (x y : Option (MessageLoop × Next))
      → (b ≡ true → RestsRightly now now' x)
      → (b ≡ false → RestsRightly now now' y)
      → RestsRightly now now' (if b then x else y)
  if-RestsRightly true x y hx hy = hx refl
  if-RestsRightly false x y hx hy = hy refl

  no_time :
      (us : List PendingTask)
      → All IsDelayed us
      → eq_ℤ (top_time us (pos 0)) (pos 0) ≡ true
      → us ≡ []
  no_time [] h e = refl
  no_time (t ∷ ts) (h, hs) e = absurd (ground arith)

  if-Rests :
      (b : Bool) (x y : MessageLoop × Next)
      → (b ≡ true → Rests now now' x.0 x.1)
      → (b ≡ false → Rests now now' y.0 y.1)
      → Rests now now' (if b then x else y).0 (if b then x else y).1
  if-Rests true x y hx hy = hx refl
  if-Rests false x y hx hy = hy refl

  rest_until-Rests :
      (us : List PendingTask) (l : MessageLoop)
      → All IsDelayed us
      → All (IsLater now) us
      → l.delayed_work_queue ≡ us
      → l.delayed_work_time ≡ top_time us (pos 0)
      → pending l ≡ []
      → Rests now now' (rest_until now' l).0 (rest_until now' l).1
  unfolding rest_until
  rest_until-Rests us l delayed later queue time nothing =
      if-Rests (eq_ℤ l.delayed_work_time (pos 0)) _ _
        (λ zero. (nothing, queue ∙ no_time us delayed (ap (λ t. eq_ℤ t (pos 0)) (sym time) ∙ zero)))
        (λ some_time.
          if-Rests (ltb_ℤ (pos 0) (delay_until l.delayed_work_time now')) _ _
            (λ soon. (
              nothing,
              subst (All (IsLater now)) (sym queue) later,
              ap (λ t. delay_until t now') (time ∙ ap (λ us. top_time us (pos 0)) (sym queue)),
            ))
            (λ over. tt))

module _ (closure : ℕ → MessageLoop → Option MessageLoop) (now now' : ℤ) where
  busy-Rests : (l : MessageLoop) → RestsRightly now now' (after_delayed_work closure now' l true)
  busy-Rests l =
      if-RestsRightly now now' (not l.keep_running) (some (l, stop)) (some (l, again)) (λ h. tt)
        (λ h. tt)

  delayed-Rests :
      (res : Option (MessageLoop × Bool))
      → RestsRightly now now' (res >>= λ r. after_delayed_work closure now' r.0 true)
  delayed-Rests none = tt
  delayed-Rests (some (l, did)) = busy-Rests l

  -- After a task has run, the pump does not wait.
  worked-Rests :
      (res : Option MessageLoop)
      → RestsRightly now now' (
          res >>= (λ l. some (l, true)) >>= λ (l1, did_work).
          if not l1.keep_running then some (l1, stop) else after_work closure now now' l1 did_work)
  worked-Rests none = tt
  worked-Rests (some l) =
      if-RestsRightly now now' (not l.keep_running) (some (l, stop))
        (after_work closure now now' l true) (λ h. tt)
        (λ h. delayed-Rests (do_delayed_work closure now l))

  delayed_ran-Rests :
      (res : Option MessageLoop)
      → RestsRightly now now' (
          res >>= (λ l. some (l, true)) >>= λ (l1, did).
          after_delayed_work closure now' l1 (false || did))
  delayed_ran-Rests none = tt
  delayed_ran-Rests (some l) = busy-Rests l

  idle-cases : (l : MessageLoop) → (do_idle_work l ≡ l) ⊎ ((do_idle_work l).keep_running ≡ false)
  unfolding do_idle_work
  idle-cases l = elim (Bool-cases l.quit_when_idle_received) [
    | inl quit ↦
        inr (ap (λ b. (if b then record l { keep_running = false } else l).keep_running) quit)
    | inr stay ↦ inl (ap (λ b. if b then record l { keep_running = false } else l) stay)
  ]

  idle-Rests :
      (us : List PendingTask) (l : MessageLoop)
      → All IsDelayed us
      → All (IsLater now) us
      → l.delayed_work_queue ≡ us
      → l.delayed_work_time ≡ top_time us (pos 0)
      → pending l ≡ []
      → RestsRightly now now' (after_delayed_work closure now' l false)
  idle-Rests us l delayed later queue time nothing =
      let idle : MessageLoop = do_idle_work l in
      if-RestsRightly now now' (not l.keep_running) (some (l, stop))
        (if not idle.keep_running then some (idle, stop) else some (rest_until now' idle)) (λ h. tt)
        (λ h.
          if-RestsRightly now now' (not idle.keep_running) (some (idle, stop))
            (some (rest_until now' idle)) (λ h'. tt)
            (λ kept. elim (idle-cases l) [
              | inl same ↦
                  subst (λ m. Rests now now' (rest_until now' m).0 (rest_until now' m).1) (sym same)
                    (rest_until-Rests now now' us l delayed later queue time nothing)
              | inr quits ↦ absurd (true-not-false (sym (ap not quits) ∙ kept))
            ]))
    where
      true-not-false : true ≢ false
      true-not-false e = ground arith

  -- An iteration of the default pump on a loop that may run tasks, with its delayed tasks in order
  -- and none of time 0, and a recent time that is not in the future, ends in a wait without an end
  -- only where no task is left at all, and in a wait with an end only where no task is pending, all
  -- delayed ones are later than now, and the end is the time of the earliest.
  pub pump_step-RestsRightly :
      (l : MessageLoop)
      → l.nestable_tasks_allowed ≡ true
      → IsSorted l.delayed_work_queue
      → All IsDelayed l.delayed_work_queue
      → l.recent_time ≤ℤ now
      → RestsRightly now now' (pump_step closure now now' l)
  unfolding pump_step
  pump_step-RestsRightly l allowed sorted delayed recent = elim (do_work-Works closure l allowed) [
    | inr (passed, t, left, l', split, all, immediate, run, r) ↦
        rw run (worked-Rests (run_task closure t l'))
    | inl (all, l', run, r) ↦
        let queue_sorted : IsSorted l'.delayed_work_queue =
          subst IsSorted (sym r.delayed_eq)
            (push_all-IsSorted (pending l) l.delayed_work_queue sorted) in
        let queue_delayed : All IsDelayed l'.delayed_work_queue =
          subst (All IsDelayed) (sym r.delayed_eq)
            (push_all-IsDelayed (pending l) l.delayed_work_queue all delayed) in
        rw run (
          if-RestsRightly now now' (not l'.keep_running) (some (l', stop))
            (after_work closure now now' l' false) (λ h. tt)
            (λ h.
              elim (do_delayed_work-due closure now l' queue_sorted (r.nestable_eq ∙ allowed)
                (subst (λ time. time ≤ℤ now) (sym r.recent_eq) recent)) [
                  | inl (later, l'', waits, queue, time, same) ↦ rw waits (
                      idle-Rests l'.delayed_work_queue l'' queue_delayed later queue time
                        (same ∙ r.pending_eq))
                  | inr (t, ts, l'', split, due, first, runs, queue, same) ↦
                      rw runs (delayed_ran-Rests (run_task closure t l''))
                ]))
  ]
