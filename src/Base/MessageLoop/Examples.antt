-- ===== src/Base/MessageLoop/Examples.antt =====
-- Runs of the message loop, and its theorems at concrete inputs.
use lib_hh_old.Common.{
  ℕ, zero, suc, ◌≡◌, refl, sym, arith, Bool, true, false, Option, none, some, [], ◌∷◌, ◌++◌,
  append-nil, ◌⊎◌,
}
use lib_hh_old.Common.Int.{pos}
use lib_hh_old.Base.TaskQueue.{
  PendingTask, IncomingTaskQueue, new_queue, is_empty, reload_work_queue,
}
use lib_hh_old.Base.MessageLoop.{
  MessageLoop, less, reload, do_idle_work, work_loop, do_work, do_delayed_work, pump_step,
  quit_when_idle, run_pump, run, run_until_idle, destroy,
}
use lib_hh_old.Base.MessageLoop.Moves.{pending}
use lib_hh_old.Base.MessageLoop.Work.{Works, do_work-Works}
use lib_hh_old.Base.MessageLoop.Delayed.{Waits, RunsEarliest, do_delayed_work-due}
use lib_hh_old.Base.MessageLoop.Pump.{RestsRightly, pump_step-RestsRightly}
use lib_hh_old.Base.MessageLoop.Drops.{Descends}
use lib_hh_old.Base.MessageLoop.Destroy.{Cleared, destroy-Cleared}

abbrev quiet : ℕ → MessageLoop → Option MessageLoop
quiet task l = some l

abbrev task_at : ℕ → ℕ → PendingTask
task_at n time = record { task = n; sequence_num = n; delayed_run_time = pos time }

-- A delayed task and another behind it, and two that are delayed already.
abbrev busy : MessageLoop
busy = record {
  incoming = new_queue;
  work_queue = task_at 3 900 ∷ task_at 4 0 ∷ [];
  delayed_work_queue = task_at 2 500 ∷ task_at 1 700 ∷ [];
  recent_time = pos 0;
  is_running = true;
  nestable_tasks_allowed = true;
  quit_when_idle_received = false;
  keep_running = true;
  delayed_work_time = pos 500;
  ran = [];
}

do_work-Works_example : Works quiet (pending busy) busy (do_work quiet busy)
do_work-Works_example = do_work-Works quiet busy refl

do_delayed_work-due_example :
    Waits quiet (pos 600) busy.delayed_work_queue busy (do_delayed_work quiet (pos 600) busy)
    ⊎ RunsEarliest quiet
        (pos 600)
        busy.delayed_work_queue
        busy
        (do_delayed_work quiet (pos 600) busy)
unfolding less
do_delayed_work-due_example =
    do_delayed_work-due quiet (pos 600) busy ((refl, tt), (tt, tt)) refl (omega arith)

-- The same loop once its work is done.
abbrev idle : MessageLoop
idle = record busy { work_queue = [] }

pump_step-RestsRightly_example :
    RestsRightly (pos 400) (pos 410) (pump_step quiet (pos 400) (pos 410) idle)
unfolding less
pump_step-RestsRightly_example =
    pump_step-RestsRightly quiet (pos 400) (pos 410) idle refl ((refl, tt), (tt, tt))
      (refl, (refl, tt)) (omega arith)

-- A closure that posts the task before its own as it is destroyed, down to the task 0.
abbrev posts_previous : ℕ → IncomingTaskQueue → IncomingTaskQueue
posts_previous zero q = q
posts_previous (suc task) q = record q {
  incoming_queue = q.incoming_queue ++ (task_at task 0 ∷ []);
}

posts_previous-Descends : Descends posts_previous (λ task. task)
posts_previous-Descends zero q = ([], sym (append-nil q.incoming_queue), tt)
posts_previous-Descends (suc task) q = (task_at task 0 ∷ [], refl, (omega arith, tt))

destroy-Cleared_example :
    Cleared busy (destroy posts_previous busy)
    × ((destroy posts_previous busy).incoming.has_message_loop ≡ false)
destroy-Cleared_example =
    destroy-Cleared posts_previous (λ task. task) posts_previous-Descends busy
      (record {
        work_below = (omega arith, (omega arith, tt));
        delayed_below = (omega arith, (omega arith, tt));
        incoming_below = tt;
      })

abbrev still_asked : Option (MessageLoop × Bool) → Bool
still_asked none = false
still_asked (some (l, ended)) = l.quit_when_idle_received

-- The request to quit when idle outlives the run that it was for.
request_left :
    still_asked
      (run_until_idle quiet ((pos 1, pos 1) ∷ []) (record idle { delayed_work_queue = [] }))
    ≡ true
unfolding run_until_idle run run_pump pump_step do_work work_loop reload reload_work_queue is_empty
    do_delayed_work do_idle_work quit_when_idle
request_left = refl
