-- ===== src/Base/MessageLoop/Work.antt =====
-- `DoWork`: which task it runs, and what becomes of the tasks before it.
use lib_hh_old.Common.{
  ℕ, suc, ◌≡◌, refl, sym, ap, ap₂, ◌∙◌, Bool, true, false, ◌⊎◌, inl, inr, Option, none, some, List,
  [], ◌∷◌, ◌++◌, append-nil, append_assoc, All, if◌then◌else◌, ◌>>=◌,
}
use mathlib.Core.Path.{subst}
use lib_hh_old.Base.TaskQueue.{PendingTask, IncomingTaskQueue, reload_work_queue, is_empty}
use lib_hh_old.Base.MessageLoop.{MessageLoop, reload, run_task, work, is_done, work_loop, do_work}
use lib_hh_old.Base.MessageLoop.Moves.{
  IsDelayed, IsImmediate, push_all, push_all-append, pending, All-append, Moved, run_first,
  work-cases,
}

-- The same of a loop whose pending tasks are left, in its work queue or still incoming.
pub record Reached (passed left : List PendingTask) (l l' : MessageLoop) : Type 0 where
  pub pending_eq : pending l' ≡ left
  pub delayed_eq : l'.delayed_work_queue ≡ push_all passed l.delayed_work_queue
  pub ran_eq : l'.ran ≡ l.ran
  pub nestable_eq : l'.nestable_tasks_allowed ≡ l.nestable_tasks_allowed
  pub keep_eq : l'.keep_running ≡ l.keep_running
  pub recent_eq : l'.recent_time ≡ l.recent_time

module _ (closure : ℕ → MessageLoop → Option MessageLoop) where
  abbrev with_queues : List PendingTask → List PendingTask → MessageLoop → MessageLoop
  with_queues ws is l = record l {
    work_queue = ws;
    incoming = record (l.incoming) { incoming_queue = is };
  }

  -- With nothing waiting, an iteration is the last.
  idle-Reached :
      (fuel : ℕ) (l : MessageLoop)
      → l.work_queue ≡ []
      → l.incoming.incoming_queue ≡ []
      → (l' : MessageLoop) × (work_loop closure (suc fuel) l ≡ some (l', false))
        × Reached [] [] l l'
  unfolding work_loop reload reload_work_queue is_empty push_all
  idle-Reached fuel l e e' =
      subst (λ ws. Idle ws l.incoming.incoming_queue) (sym e) (subst (Idle []) (sym e') idle)
    where
      Idle : List PendingTask → List PendingTask → Type 0
      Idle ws is =
          (l' : MessageLoop) × (work_loop closure (suc fuel) (with_queues ws is l)
            ≡ some (l', false))
          × Reached [] [] (with_queues ws is l) l'

      idle : Idle [] []
      idle = (
        reload (with_queues [] [] l),
        refl,
        record {
          pending_eq = refl;
          delayed_eq = refl;
          ran_eq = refl;
          nestable_eq = refl;
          keep_eq = refl;
          recent_eq = refl;
        },
      )

  abbrev pub Nothing : List PendingTask → MessageLoop → Option (MessageLoop × Bool) → Type 0
  Nothing ts l result =
      All IsDelayed ts × (l' : MessageLoop) × (result ≡ some (l', false)) × Reached ts [] l l'

  abbrev pub First : List PendingTask → MessageLoop → Option (MessageLoop × Bool) → Type 0
  First ts l result =
      (passed : List PendingTask) × (t : PendingTask) × (left : List PendingTask)
      × (l' : MessageLoop) × (ts ≡ passed ++ (t ∷ left))
      × All IsDelayed passed
      × IsImmediate t
      × (result ≡ run_first closure t l')
      × Reached passed left l l'

  -- With tasks pending, either all are delayed and move, or the first that is not is run.
  abbrev pub Works : List PendingTask → MessageLoop → Option (MessageLoop × Bool) → Type 0
  Works ts l result = Nothing ts l result ⊎ First ts l result

  done-first :
      (m : Option MessageLoop) (rest : MessageLoop → Option (MessageLoop × Bool))
      → ((m >>= λ l. some (l, true)) >>= λ res. is_done res rest) ≡ (m >>= λ l. some (l, true))
  done-first none rest = refl
  done-first (some l) rest = refl

  pending-Moved :
      (ts : List PendingTask) (left : List PendingTask) (l l' : MessageLoop)
      → Moved ts left l l'
      → pending l' ≡ left ++ l.incoming.incoming_queue
  pending-Moved ts left l l' m =
      ap₂ (λ ws q. ws ++ IncomingTaskQueue.incoming_queue q) m.work_eq m.incoming_eq

  -- The work queue, and then what comes behind it.
  chain-Works :
      (ws : List PendingTask) (l : MessageLoop) (rest : MessageLoop → Option (MessageLoop × Bool))
      → ((l' : MessageLoop)
          → l'.work_queue ≡ []
          → l'.incoming ≡ l.incoming
          → Works l.incoming.incoming_queue l' (rest l'))
      → Works (ws ++ l.incoming.incoming_queue) l (work closure ws l >>= λ res. is_done res rest)
  chain-Works ws l rest next = elim (work-cases closure ws l) [
    | inl (all, l', run, moved) ↦ elim (next l' moved.work_eq moved.incoming_eq) [
      | inl (all', l'', run', reached) ↦ inl (
        All-append IsDelayed ws is all all',
        l'',
        rw run run',
        behind ws is [] l' l'' moved reached,
      )
      | inr (passed, t, left, l'', split, all', immediate, run', reached) ↦ inr (
        ws ++ passed,
        t,
        left,
        l'',
        ap (λ ts. ws ++ ts) split ∙ sym (append_assoc ws passed (t ∷ left)),
        All-append IsDelayed ws passed all all',
        immediate,
        rw run run',
        behind ws passed left l' l'' moved reached,
      )
    ]
    | inr (passed, t, left, l', split, all, immediate, run, moved) ↦ inr (
      passed,
      t,
      left ++ is,
      l',
      ap (λ ts. ts ++ is) split ∙ append_assoc passed (t ∷ left) is,
      all,
      immediate,
      rw run (done-first (run_task closure t l') rest),
      record {
        pending_eq = pending-Moved passed left l l' moved;
        delayed_eq = moved.delayed_eq;
        ran_eq = moved.ran_eq;
        nestable_eq = moved.nestable_eq;
        keep_eq = moved.keep_eq;
        recent_eq = moved.recent_eq;
      },
    )
  ]
    where
      is : List PendingTask
      is = l.incoming.incoming_queue

      behind :
          (ws passed left : List PendingTask) (l' l'' : MessageLoop)
          → Moved ws [] l l'
          → Reached passed left l' l''
          → Reached (ws ++ passed) left l l''
      behind ws passed left l' l'' m r = record {
        pending_eq = r.pending_eq;
        delayed_eq =
            r.delayed_eq
            ∙ ap (push_all passed) m.delayed_eq
            ∙ sym (push_all-append ws passed l.delayed_work_queue);
        ran_eq = r.ran_eq ∙ m.ran_eq;
        nestable_eq = r.nestable_eq ∙ m.nestable_eq;
        keep_eq = r.keep_eq ∙ m.keep_eq;
        recent_eq = r.recent_eq ∙ m.recent_eq;
      }

  -- The queues of the loop that it is reached from do not matter.
  requeued :
      (passed left ws is ws' is' : List PendingTask) (l l' : MessageLoop)
      → Reached passed left (with_queues ws is l) l'
      → Reached passed left (with_queues ws' is' l) l'
  requeued passed left ws is ws' is' l l' r = record {
    pending_eq = r.pending_eq;
    delayed_eq = r.delayed_eq;
    ran_eq = r.ran_eq;
    nestable_eq = r.nestable_eq;
    keep_eq = r.keep_eq;
    recent_eq = r.recent_eq;
  }

  requeued-Works :
      (ts ws is ws' is' : List PendingTask) (l : MessageLoop) (result : Option (MessageLoop × Bool))
      → Works ts (with_queues ws is l) result
      → Works ts (with_queues ws' is' l) result
  requeued-Works ts ws is ws' is' l result (inl (all, l', run, r)) =
      inl (all, l', run, requeued ts [] ws is ws' is' l l' r)
  requeued-Works ts ws is ws' is' l result (inr (passed, t, left, l', split, all, now, run, r)) =
      inr (passed, t, left, l', split, all, now, run, requeued passed left ws is ws' is' l l' r)

  -- A loop whose work queue is empty, over what is incoming.
  incoming-Works :
      (fuel : ℕ) (is : List PendingTask) (l : MessageLoop)
      → Works is (with_queues [] is l) (work_loop closure (suc (suc fuel)) (with_queues [] is l))
  unfolding work_loop reload reload_work_queue is_empty push_all
  incoming-Works fuel [] l =
      let (l', run, reached) = idle-Reached (suc fuel) (with_queues [] [] l) refl refl in
      inl (tt, l', run, reached)
  incoming-Works fuel (t ∷ ts) l =
      let result : Option (MessageLoop × Bool) =
        work closure (t ∷ ts) (with_queues (t ∷ ts) [] l) >>= λ res.
        is_done res (work_loop closure (suc fuel)) in
      requeued-Works (t ∷ ts) (t ∷ ts) [] [] (t ∷ ts) l result (
        subst (λ us. Works us (with_queues (t ∷ ts) [] l) result) (append-nil (t ∷ ts))
          (chain-Works (t ∷ ts) (with_queues (t ∷ ts) [] l) (work_loop closure (suc fuel))
            (λ l' e e'.
              let (l'', run, reached) =
                idle-Reached fuel l' e (ap (λ q. IncomingTaskQueue.incoming_queue q) e') in
              inl (tt, l'', run, reached))))

  emptied-Works :
      (l : MessageLoop)
      → l.work_queue ≡ []
      → Works l.incoming.incoming_queue l (work_loop closure 2 l)
  emptied-Works l e =
      let is : List PendingTask = l.incoming.incoming_queue in
      subst (λ ws. Works is (with_queues ws is l) (work_loop closure 2 (with_queues ws is l)))
        (sym e) (incoming-Works 0 is l)

  work_loop-Works :
      (ws : List PendingTask) (is : List PendingTask) (l : MessageLoop)
      → Works (ws ++ is) (with_queues ws is l) (work_loop closure 3 (with_queues ws is l))
  unfolding work_loop reload is_empty
  work_loop-Works [] is l = incoming-Works 1 is l
  work_loop-Works (t ∷ ts) is l =
      chain-Works (t ∷ ts) (with_queues (t ∷ ts) is l) (work_loop closure 2) (λ l' e e'.
        subst (λ us. Works us l' (work_loop closure 2 l'))
          (ap (λ q. IncomingTaskQueue.incoming_queue q) e') (emptied-Works l' e))

  -- DoWork on a loop that may run tasks always ends, whatever the closures do: of the tasks pending,
  -- which are those of its work queue and behind them the incoming ones, either all are delayed, and
  -- then all move to the delayed tasks, none is pending and the answer is false; or the first that
  -- is not delayed runs, with those before it moved to the delayed tasks and those behind it still
  -- pending in their order, and the answer is true unless its closure faults.
  pub do_work-Works :
      (l : MessageLoop) → l.nestable_tasks_allowed ≡ true → Works (pending l) l (do_work closure l)
  unfolding do_work
  do_work-Works l h =
      subst (Works (pending l) l)
        (sym (ap (λ allowed. if allowed then work_loop closure 3 l else some (l, false)) h))
        (work_loop-Works l.work_queue l.incoming.incoming_queue l)
