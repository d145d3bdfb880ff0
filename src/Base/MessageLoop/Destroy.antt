-- ===== src/Base/MessageLoop/Destroy.antt =====
-- The destructor of the loop, which drops the tasks that are left, and those that their closures post
-- as they are destroyed.
use lib_hh_old.Common.{
  ℕ, zero, suc, ◌<◌, ◌≤◌, ◌≡◌, refl, sym, ap, ◌∙◌, false, List, [], ◌∷◌, Bool-cases, inl, inr,
  arith,
}
use mathlib.Core.Path.{subst}
use lib_hh_old.Base.TaskQueue.{
  PendingTask, IncomingTaskQueue, reload_work_queue, is_empty, will_destroy_current_message_loop,
}
use lib_hh_old.Base.MessageLoop.{
  MessageLoop, reload, delete_work, delete_delayed, delete_pending_tasks, destroy_loop, destroy,
}
use lib_hh_old.Base.MessageLoop.Moves.{All-append}
use lib_hh_old.Base.MessageLoop.Drops.{
  Below, Below-mono, Below-none, Descends, Dropped, IsIdle, delete_pending_tasks-Dropped,
}

-- No task anywhere.
pub record Cleared (l l' : MessageLoop) : Type 0 where
  pub work_eq : l'.work_queue ≡ []
  pub delayed_eq : l'.delayed_work_queue ≡ []
  pub incoming_eq : l'.incoming.incoming_queue ≡ []
  pub ran_eq : l'.ran ≡ l.ran

-- Each task that is queued has a rank below the number.
pub record AllBelow (rank : ℕ → ℕ) (n : ℕ) (l : MessageLoop) : Type 0 where
  pub work_below : Below rank n l.work_queue
  pub delayed_below : Below rank n l.delayed_work_queue
  pub incoming_below : Below rank n l.incoming.incoming_queue

module _ (destruction : ℕ → IncomingTaskQueue → IncomingTaskQueue) (rank : ℕ → ℕ)
    (descends : Descends destruction rank) where
  -- What the loop holds once it has taken the incoming tasks.
  record Reloaded (n : ℕ) (l l' : MessageLoop) : Type 0 where
    ran_eq : l'.ran ≡ l.ran
    incoming_eq : l'.incoming.incoming_queue ≡ []
    delayed_eq : l'.delayed_work_queue ≡ []
    work_below : Below rank n l'.work_queue

  reload-Reloaded :
      (n : ℕ) (l : MessageLoop)
      → IsIdle l
      → Below rank n l.incoming.incoming_queue
      → Reloaded n l (reload l)
  unfolding reload reload_work_queue is_empty
  reload-Reloaded n l (e, d) =
      subst
        (λ ws.
          Below rank n l.incoming.incoming_queue
          → Reloaded n l (reload (record l { work_queue = ws })))
        (sym e) (taken l.incoming.incoming_queue)
    where
      taken :
          (is : List PendingTask)
          → Below rank n is
          → Reloaded n l (
              reload (record l {
                work_queue = [];
                incoming = record (l.incoming) { incoming_queue = is };
              }))
      taken [] all = record { ran_eq = refl; incoming_eq = refl; delayed_eq = d; work_below = tt }
      taken (t ∷ ts) all = record {
        ran_eq = refl;
        incoming_eq = refl;
        delayed_eq = d;
        work_below = all;
      }

  -- An iteration lowers the ranks.
  record Iterated (n : ℕ) (l l' : MessageLoop) : Type 0 where
    ran_eq : l'.ran ≡ l.ran
    idle : IsIdle l'
    incoming_below : Below rank n l'.incoming.incoming_queue

  Dropped-Below :
      (m n : ℕ) (l l' : MessageLoop)
      → n ≤ m
      → Below rank m l.incoming.incoming_queue
      → Dropped rank n l l'
      → Below rank m l'.incoming.incoming_queue
  Dropped-Below m n l l' le all d = subst (Below rank m) (sym d.incoming_eq) (
      All-append (λ u. rank u.task < m) l.incoming.incoming_queue d.posted all
        (Below-mono rank n m d.posted le d.below))

  first-Reloaded :
      (n : ℕ) (l : MessageLoop)
      → AllBelow rank (suc n) l
      → Reloaded (suc n) l (reload (delete_pending_tasks destruction l).0)
  first-Reloaded n l all =
      let (first, idle) =
        delete_pending_tasks-Dropped destruction rank descends n l all.work_below
          all.delayed_below in
      let l1 = (delete_pending_tasks destruction l).0 in
      let taken =
        reload-Reloaded (suc n) l1 idle
          (Dropped-Below (suc n) n l l1 (omega arith) all.incoming_below first) in
      record {
        ran_eq = taken.ran_eq ∙ first.ran_eq;
        incoming_eq = taken.incoming_eq;
        delayed_eq = taken.delayed_eq;
        work_below = taken.work_below;
      }

  iterate-Iterated :
      (n : ℕ) (l m : MessageLoop)
      → Reloaded (suc n) l m
      → Iterated n l (delete_pending_tasks destruction m).0
  iterate-Iterated n l m taken =
      let (second, rests) =
        delete_pending_tasks-Dropped destruction rank descends n m taken.work_below
          (subst (Below rank (suc n)) (sym taken.delayed_eq) tt) in
      record {
        ran_eq = second.ran_eq ∙ taken.ran_eq;
        idle = rests;
        incoming_below =
            Dropped-Below n n m (delete_pending_tasks destruction m).0 (omega arith)
              (subst (Below rank n) (sym taken.incoming_eq) tt) second;
      }

  delete_pending_tasks-nothing :
      (ws ds : List PendingTask) (l : MessageLoop)
      → let l0 : MessageLoop = record l { work_queue = ws; delayed_work_queue = ds } in
        (delete_pending_tasks destruction l0).1 ≡ false
        → (delete_pending_tasks destruction l0).0.incoming ≡ l.incoming
  unfolding delete_pending_tasks delete_work delete_delayed is_empty
  delete_pending_tasks-nothing [] [] l nothing = refl
  delete_pending_tasks-nothing [] (d ∷ ds) l nothing = absurd (cc nothing)
  delete_pending_tasks-nothing (w ∷ ws) ds l nothing = absurd (cc nothing)

  Iterated-Cleared :
      (n : ℕ) (l l' : MessageLoop)
      → Iterated n l l'
      → l'.incoming.incoming_queue ≡ []
      → Cleared l l'
  Iterated-Cleared n l l' i e = record {
    work_eq = i.idle.0;
    delayed_eq = i.idle.1;
    incoming_eq = e;
    ran_eq = i.ran_eq;
  }

  destroy_loop-Cleared :
      (n : ℕ) (l : MessageLoop) → AllBelow rank n l → Cleared l (destroy_loop destruction n l)
  unfolding destroy_loop
  destroy_loop-Cleared zero l all = record {
    work_eq = Below-none rank l.work_queue all.work_below;
    delayed_eq = Below-none rank l.delayed_work_queue all.delayed_below;
    incoming_eq = Below-none rank l.incoming.incoming_queue all.incoming_below;
    ran_eq = refl;
  }
  destroy_loop-Cleared (suc n) l all =
      let m = reload (delete_pending_tasks destruction l).0 in
      let taken = first-Reloaded n l all in
      let i = iterate-Iterated n l m taken in
      let l1 = (delete_pending_tasks destruction m).0 in
      elim (Bool-cases (delete_pending_tasks destruction m).1) [
        | inl did ↦
            let c = destroy_loop-Cleared n l1 (record {
              work_below = subst (Below rank n) (sym i.idle.0) tt;
              delayed_below = subst (Below rank n) (sym i.idle.1) tt;
              incoming_below = i.incoming_below;
            }) in
            rw did (record {
              work_eq = c.work_eq;
              delayed_eq = c.delayed_eq;
              incoming_eq = c.incoming_eq;
              ran_eq = c.ran_eq ∙ i.ran_eq;
            })
        | inr nothing ↦ rw nothing (
            Iterated-Cleared n l l1 i (
              ap (λ q. IncomingTaskQueue.incoming_queue q)
                (delete_pending_tasks-nothing m.work_queue m.delayed_work_queue m nothing)
              ∙ taken.incoming_eq))
      ]

  -- Where the closure of a task, as it is destroyed, posts only tasks of a lower rank, and each task
  -- in the work queue, delayed or incoming has a rank below a hundred: the destructor of a loop
  -- leaves no task in any of them, runs none, and lets the incoming queue know that the loop is
  -- gone; the hundred iterations that it allows itself are enough.
  pub destroy-Cleared :
      (l : MessageLoop)
      → AllBelow rank 100 l
      → Cleared l (destroy destruction l)
        × ((destroy destruction l).incoming.has_message_loop ≡ false)
  unfolding destroy will_destroy_current_message_loop
  destroy-Cleared l all =
      let c = destroy_loop-Cleared 100 l all in
      (
        record {
          work_eq = c.work_eq;
          delayed_eq = c.delayed_eq;
          incoming_eq = c.incoming_eq;
          ran_eq = c.ran_eq;
        },
        refl,
      )
