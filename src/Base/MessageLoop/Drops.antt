-- ===== src/Base/MessageLoop/Drops.antt =====
-- What deleting the tasks of a loop leaves, with those that their closures post as they are
-- destroyed.
use lib_hh_old.Common.{
  ℕ, suc, ◌<◌, ◌≤◌, ◌≡◌, refl, sym, ap, ◌∙◌, List, [], ◌∷◌, ◌++◌, append-nil, append_assoc,
  Bool-cases, inl, inr, All, arith,
}
use lib_hh_old.Common.Int.{pos, eq_ℤ}
use lib_hh_old.Base.TaskQueue.{PendingTask, IncomingTaskQueue}
use lib_hh_old.Base.MessageLoop.{
  MessageLoop, less, push, add_to_delayed_work_queue, drop_task, delete_work, delete_delayed,
  delete_pending_tasks,
}
use lib_hh_old.Base.MessageLoop.Moves.{All-append}

-- A rank for each task, and what is of a lower one.
abbrev pub Below : (ℕ → ℕ) → ℕ → List PendingTask → Type 0
Below rank n ts = All (λ t. rank t.task < n) ts

pub Below-mono :
    (rank : ℕ → ℕ) (m n : ℕ) (ts : List PendingTask) → m ≤ n → Below rank m ts → Below rank n ts
Below-mono rank m n [] le all = tt
Below-mono rank m n (t ∷ ts) le (h, all) = (omega arith, Below-mono rank m n ts le all)

pub Below-none : (rank : ℕ → ℕ) (ts : List PendingTask) → Below rank 0 ts → ts ≡ []
Below-none rank [] all = refl
Below-none rank (t ∷ ts) (h, all) = absurd (omega arith)

Below-push :
    (rank : ℕ → ℕ) (n : ℕ) (t : PendingTask) (ts : List PendingTask)
    → rank t.task < n
    → Below rank n ts
    → Below rank n (push t ts)
unfolding push
Below-push rank n t [] h all = (h, tt)
Below-push rank n t (u ∷ us) h (hu, all) = elim (Bool-cases (less u t)) [
  | inl e ↦ rw e (h, (hu, all))
  | inr e ↦ rw e (hu, Below-push rank n t us h all)
]

-- Where a closure is destroyed, only tasks of a lower rank are posted.
abbrev pub Descends : (ℕ → IncomingTaskQueue → IncomingTaskQueue) → (ℕ → ℕ) → Type 0
Descends destruction rank =
    (task : ℕ) (q : IncomingTaskQueue)
    → (posted : List PendingTask) × ((destruction task q).incoming_queue
        ≡ q.incoming_queue ++ posted)
      × Below rank (rank task) posted

-- What two loops have in common between which tasks were dropped: the tasks that ran, and the
-- incoming ones, behind which others were posted.
pub record Dropped (rank : ℕ → ℕ) (n : ℕ) (l l' : MessageLoop) : Type 0 where
  pub ran_eq : l'.ran ≡ l.ran
  pub posted : List PendingTask
  pub incoming_eq : l'.incoming.incoming_queue ≡ l.incoming.incoming_queue ++ posted
  pub below : Below rank n posted

-- No task in the loop's own queues.
abbrev pub IsIdle : MessageLoop → Type 0
IsIdle l = (l.work_queue ≡ []) × (l.delayed_work_queue ≡ [])

module _ (destruction : ℕ → IncomingTaskQueue → IncomingTaskQueue) (rank : ℕ → ℕ)
    (descends : Descends destruction rank) where
  drop_task-Dropped :
      (n : ℕ) (t : PendingTask) (l l' : MessageLoop)
      → rank t.task < suc n
      → Dropped rank n (drop_task destruction t l) l'
      → Dropped rank n l l'
  unfolding drop_task
  drop_task-Dropped n t l l' h d =
      let (posted, posts, lower) = descends t.task l.incoming in
      record {
        ran_eq = d.ran_eq;
        posted = posted ++ d.posted;
        incoming_eq =
            d.incoming_eq
            ∙ ap (λ is. is ++ d.posted) posts
            ∙ append_assoc l.incoming.incoming_queue posted d.posted;
        below =
            All-append (λ u. rank u.task < n) posted d.posted
              (Below-mono rank (rank t.task) n posted (omega arith) lower) d.below;
      }

  delete_work-Dropped :
      (n : ℕ) (ts : List PendingTask) (l : MessageLoop)
      → Below rank (suc n) ts
      → Below rank (suc n) l.delayed_work_queue
      → Dropped rank n l (delete_work destruction ts l)
        × ((delete_work destruction ts l).work_queue ≡ [])
        × Below rank (suc n) (delete_work destruction ts l).delayed_work_queue
  unfolding delete_work add_to_delayed_work_queue drop_task
  delete_work-Dropped n [] l all delayed = (
    record {
      ran_eq = refl;
      posted = [];
      incoming_eq = sym (append-nil l.incoming.incoming_queue);
      below = tt;
    },
    refl,
    delayed,
  )
  delete_work-Dropped n (t ∷ ts) l (h, all) delayed =
      elim (Bool-cases (eq_ℤ t.delayed_run_time (pos 0))) [
        | inl now ↦
            let (d, w, below) =
              delete_work-Dropped n ts (add_to_delayed_work_queue t l) all
                (Below-push rank (suc n) t l.delayed_work_queue h delayed) in
            rw now (
              record {
                ran_eq = d.ran_eq;
                posted = d.posted;
                incoming_eq = d.incoming_eq;
                below = d.below;
              },
              w,
              below,
            )
        | inr later ↦
            let (d, w, below) = delete_work-Dropped n ts (drop_task destruction t l) all delayed in
            rw later (drop_task-Dropped n t l _ h d, w, below)
      ]

  delete_delayed-Dropped :
      (n : ℕ) (ts : List PendingTask) (l : MessageLoop)
      → Below rank (suc n) ts
      → l.work_queue ≡ []
      → Dropped rank n l (delete_delayed destruction ts l)
        × IsIdle (delete_delayed destruction ts l)
  unfolding delete_delayed drop_task
  delete_delayed-Dropped n [] l all e = (
    record {
      ran_eq = refl;
      posted = [];
      incoming_eq = sym (append-nil l.incoming.incoming_queue);
      below = tt;
    },
    (e, refl),
  )
  delete_delayed-Dropped n (t ∷ ts) l (h, all) e =
      let (d, idle) = delete_delayed-Dropped n ts (drop_task destruction t l) all e in
      (drop_task-Dropped n t l _ h d, idle)

  pub delete_pending_tasks-Dropped :
      (n : ℕ) (l : MessageLoop)
      → Below rank (suc n) l.work_queue
      → Below rank (suc n) l.delayed_work_queue
      → Dropped rank n l (delete_pending_tasks destruction l).0
        × IsIdle (delete_pending_tasks destruction l).0
  unfolding delete_pending_tasks
  delete_pending_tasks-Dropped n l work delayed =
      let (d, w, below) = delete_work-Dropped n l.work_queue l work delayed in
      let l1 = delete_work destruction l.work_queue l in
      let (d', idle) = delete_delayed-Dropped n l1.delayed_work_queue l1 below w in
      (
        record {
          ran_eq = d'.ran_eq ∙ d.ran_eq;
          posted = d.posted ++ d'.posted;
          incoming_eq =
              d'.incoming_eq
              ∙ ap (λ is. is ++ d'.posted) d.incoming_eq
              ∙ append_assoc l.incoming.incoming_queue d.posted d'.posted;
          below = All-append (λ u. rank u.task < n) d.posted d'.posted d.below d'.below;
        },
        idle,
      )
