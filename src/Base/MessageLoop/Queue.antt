-- ===== src/Base/MessageLoop/Queue.antt =====
-- The order of the delayed tasks.
use lib_hh_old.Common.{◌≡◌, true, false, inl, inr, Bool-cases, List, [], ◌∷◌, All, arith}
use lib_hh_old.Common.Int.{◌≤ℤ◌}
use lib_hh_old.Base.TaskQueue.{PendingTask}
use lib_hh_old.Base.MessageLoop.{less, push}

-- No task comes after the ones behind it.
abbrev pub IsSorted : List PendingTask → Type 0
IsSorted [] = Unit {0}
IsSorted (t ∷ ts) = All (λ u. less t u ≡ false) ts × IsSorted ts

pub less-time : (t u : PendingTask) → less t u ≡ false → t.delayed_run_time ≤ℤ u.delayed_run_time
unfolding less
less-time t u h = ground arith

less-flips : (t u : PendingTask) → less u t ≡ true → less t u ≡ false
unfolding less
less-flips t u h = ground arith

less_trans : (t u v : PendingTask) → less t u ≡ false → less u v ≡ false → less t v ≡ false
unfolding less
less_trans t u v h h' = ground arith

All-trans :
    (t u : PendingTask) (vs : List PendingTask)
    → less t u ≡ false
    → All (λ v. less u v ≡ false) vs
    → All (λ v. less t v ≡ false) vs
All-trans t u [] h all = tt
All-trans t u (v ∷ vs) h (hv, all) = (less_trans t u v h hv, All-trans t u vs h all)

pub All-push :
    (P : PendingTask → Type 0) (t : PendingTask) (us : List PendingTask)
    → P t
    → All P us
    → All P (push t us)
unfolding push
All-push P t [] ht all = (ht, tt)
All-push P t (u ∷ us) ht (hu, all) = elim (Bool-cases (less u t)) [
  | inl before ↦ rw before (ht, (hu, all))
  | inr after ↦ rw after (hu, All-push P t us ht all)
]

pub push-IsSorted : (t : PendingTask) (us : List PendingTask) → IsSorted us → IsSorted (push t us)
unfolding push
push-IsSorted t [] sorted = (tt, tt)
push-IsSorted t (u ∷ us) (first, sorted) = elim (Bool-cases (less u t)) [
  | inl before ↦
      rw before
        ((less-flips t u before, All-trans t u us (less-flips t u before) first), (first, sorted))
  | inr after ↦
      rw after (All-push (λ v. less u v ≡ false) t us after first, push-IsSorted t us sorted)
]
