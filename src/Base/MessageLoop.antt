-- ===== src/Base/MessageLoop.antt =====
-- libHH/base/message_loop/message_loop.cpp, libHH/base/pending_task.cpp and
-- libHH/base/message_loop/message_pump_default.cpp: the message loop over the default pump. What
-- the closure of a task does is a parameter, `now` is `TimeTicksNow` in a call, and
-- `std::priority_queue` is the list of its elements with the top first. `none` is a fault of a
-- closure.
pub mod Queue
pub mod Moves
pub mod Work
pub mod Delayed
pub mod Pump
pub mod Drops
pub mod Destroy
mod Examples
use lib_hh_old.Common.{
  ℕ, zero, suc, ◌+◌, Bool, true, false, not, ◌&&◌, ◌||◌, Option, some, none, List, [], ◌∷◌, ◌++◌,
  ltb, if◌then◌else◌, ◌>>=◌,
}
use lib_hh_old.Common.Int.{ℤ, pos, eq_ℤ, ltb_ℤ, neg_part, pos_part, sub_ℕ}
use lib_hh_old.Base.TaskQueue.{
  PendingTask, IncomingTaskQueue, is_empty, reload_work_queue, will_destroy_current_message_loop,
}

-- The loop, with `keep_running_` and `delayed_work_time_` of its pump, and the tasks that it ran.
pub record MessageLoop : Type 0 where
  pub incoming : IncomingTaskQueue
  pub work_queue : List PendingTask
  pub delayed_work_queue : List PendingTask
  pub recent_time : ℤ
  pub is_running : Bool
  pub nestable_tasks_allowed : Bool
  pub quit_when_idle_received : Bool
  pub keep_running : Bool
  pub delayed_work_time : ℤ
  pub ran : List PendingTask

-- `PendingTask::operator<`.
unfoldable pub less : PendingTask → PendingTask → Bool
less a b =
    if ltb_ℤ a.delayed_run_time b.delayed_run_time
    then false
    else if ltb_ℤ b.delayed_run_time a.delayed_run_time
    then true
    else ltb b.sequence_num a.sequence_num

-- `push` of the priority queue.
unfoldable pub push : PendingTask → List PendingTask → List PendingTask
push t [] = t ∷ []
push t (u ∷ us) =
    let rest : List PendingTask = push t us in if less u t then t ∷ u ∷ us else u ∷ rest

unfoldable pub add_to_delayed_work_queue : PendingTask → MessageLoop → MessageLoop
add_to_delayed_work_queue t l = record l { delayed_work_queue = push t l.delayed_work_queue }

-- The time of `delayed_work_queue_.top()`, where there is one.
abbrev pub top_time : List PendingTask → ℤ → ℤ
top_time [] time = time
top_time (t ∷ ts) time = t.delayed_run_time

-- `pump_->ScheduleDelayedWork(delayed_work_queue_.top().delayed_run_time)`.
unfoldable pub schedule_delayed_work : MessageLoop → MessageLoop
schedule_delayed_work l = record l {
  delayed_work_time = top_time l.delayed_work_queue l.delayed_work_time;
}

-- `MessageLoop::ReloadWorkQueue`.
unfoldable pub reload : MessageLoop → MessageLoop
reload l =
    let (q, work_queue) = reload_work_queue l.incoming l.work_queue in
    if is_empty l.work_queue then record l { incoming = q; work_queue = work_queue } else l

unfoldable pub quit_when_idle : MessageLoop → MessageLoop
quit_when_idle l = record l { quit_when_idle_received = true }

-- `QuitNow` on a loop with a pump.
unfoldable pub quit_now : MessageLoop → MessageLoop
quit_now l = if l.is_running then record l { keep_running = false } else l

-- `DoIdleWork`, which answers `false`.
unfoldable pub do_idle_work : MessageLoop → MessageLoop
do_idle_work l = if l.quit_when_idle_received then record l { keep_running = false } else l

-- What the destruction of a task's closure does to the queue of incoming tasks, by its task: an
-- object that the closure holds may post tasks as it goes.
module _ (destruction : ℕ → IncomingTaskQueue → IncomingTaskQueue) where
  unfoldable pub drop_task : PendingTask → MessageLoop → MessageLoop
  drop_task t l = record l { incoming = destruction t.task l.incoming }

  -- The first loop of `DeletePendingTasks`. `!time != 0` is `(!time) != 0`: it moves the tasks that
  -- are not delayed, and drops the others.
  unfoldable pub delete_work : List PendingTask → MessageLoop → MessageLoop
  delete_work [] l = record l { work_queue = [] }
  delete_work (t ∷ ts) l =
      if eq_ℤ t.delayed_run_time (pos 0)
      then delete_work ts (add_to_delayed_work_queue t l)
      else delete_work ts (drop_task t l)

  -- Its second loop.
  unfoldable pub delete_delayed : List PendingTask → MessageLoop → MessageLoop
  delete_delayed [] l = record l { delayed_work_queue = [] }
  delete_delayed (t ∷ ts) l = delete_delayed ts (drop_task t l)

  unfoldable pub delete_pending_tasks : MessageLoop → MessageLoop × Bool
  delete_pending_tasks l =
      let l1 = delete_work l.work_queue l in
      (
        delete_delayed l1.delayed_work_queue l1,
        not (is_empty l.work_queue) || not (is_empty l1.delayed_work_queue),
      )

  -- `~MessageLoop` on its queues, with the iterations that are left.
  unfoldable pub destroy_loop : ℕ → MessageLoop → MessageLoop
  destroy_loop zero l = l
  destroy_loop (suc n) l =
      let (l1, did_work) = delete_pending_tasks (reload (delete_pending_tasks l).0) in
      let rest : MessageLoop = destroy_loop n l1 in if did_work then rest else l1

  unfoldable pub destroy : MessageLoop → MessageLoop
  destroy l =
      let l1 = destroy_loop 100 l in
      record l1 { incoming = will_destroy_current_message_loop l1.incoming }

abbrev pub is_done :
    MessageLoop × Bool → (MessageLoop → Option (MessageLoop × Bool)) → Option (MessageLoop × Bool)
is_done (l, true) rest = some (l, true)
is_done (l, false) rest = rest l

-- How an iteration of the pump ends.
pub data Next : Type 0 where
  again stop wait_forever : Next
  wait_for : ℤ → Next

-- `delayed_work_time_ - TimeTicksNow`, with times far below 2^62.
abbrev pub delay_until : ℤ → ℤ → ℤ
delay_until time now = sub_ℕ (pos_part time + neg_part now) (pos_part now + neg_part time)

-- The end of an iteration in which nothing was done.
unfoldable pub rest_until : ℤ → MessageLoop → MessageLoop × Next
rest_until now l =
    let delay : ℤ = delay_until l.delayed_work_time now in
    if eq_ℤ l.delayed_work_time (pos 0)
    then (l, wait_forever)
    else if ltb_ℤ (pos 0) delay
    then (l, wait_for delay)
    else (record l { delayed_work_time = pos 0 }, again)

module _ (closure : ℕ → MessageLoop → Option MessageLoop) where
  -- `RunTask`, and `DeferOrRunPendingTask`, which answers `true`.
  unfoldable pub run_task : PendingTask → MessageLoop → Option MessageLoop
  run_task t l = do
    l1 ← closure t.task (record l { nestable_tasks_allowed = false; ran = l.ran ++ (t ∷ []) })
    some (record l1 { nestable_tasks_allowed = true })

  -- The inner loop of `DoWork`, over the work queue.
  unfoldable pub work : List PendingTask → MessageLoop → Option (MessageLoop × Bool)
  work [] l = some (record l { work_queue = [] }, false)
  work (t ∷ ts) l =
      if eq_ℤ t.delayed_run_time (pos 0)
      then (run_task t (record l { work_queue = ts }) >>= λ l1. some (l1, true))
      else work ts (schedule_delayed_work (add_to_delayed_work_queue t l))

  -- The outer loop, on fuel.
  unfoldable pub work_loop : ℕ → MessageLoop → Option (MessageLoop × Bool)
  work_loop zero l = none
  work_loop (suc fuel) l =
      let l1 = reload l in
      elim l1.work_queue [
        | [] ↦ some (l1, false)
        | t ∷ ts ↦ work (t ∷ ts) l1 >>= λ res. is_done res (work_loop fuel)
      ]

  unfoldable pub do_work : MessageLoop → Option (MessageLoop × Bool)
  do_work l = if l.nestable_tasks_allowed then work_loop 3 l else some (l, false)

  -- `DoDelayedWork(&delayed_work_time_)` once its top is due.
  unfoldable pub run_top :
      PendingTask → List PendingTask → MessageLoop → Option (MessageLoop × Bool)
  run_top t ts l =
      let l1 = schedule_delayed_work (record l { delayed_work_queue = ts }) in
      run_task t l1 >>= λ l2. some (l2, true)

  unfoldable pub do_delayed_work : ℤ → MessageLoop → Option (MessageLoop × Bool)
  do_delayed_work now l =
      if not l.nestable_tasks_allowed
      then some (record l { recent_time = pos 0; delayed_work_time = pos 0 }, false)
      else elim l.delayed_work_queue [
        | [] ↦ some (record l { recent_time = pos 0; delayed_work_time = pos 0 }, false)
        | t ∷ ts ↦
            if ltb_ℤ l.recent_time t.delayed_run_time
            then (if ltb_ℤ now t.delayed_run_time
                then some
                    (record l { recent_time = now; delayed_work_time = t.delayed_run_time }, false)
                else run_top t ts (record l { recent_time = now }))
            else run_top t ts l
      ]

  -- The rest of an iteration, behind `DoDelayedWork` and behind `DoWork`.
  abbrev pub after_delayed_work : ℤ → MessageLoop → Bool → Option (MessageLoop × Next)
  after_delayed_work now' l did_work =
      let idle = do_idle_work l in
      if not l.keep_running
      then some (l, stop)
      else if did_work
      then some (l, again)
      else if not idle.keep_running
      then some (idle, stop)
      else some (rest_until now' idle)

  abbrev pub after_work : ℤ → ℤ → MessageLoop → Bool → Option (MessageLoop × Next)
  after_work now now' l did_work = do
    (l1, did_delayed_work) ← do_delayed_work now l
    after_delayed_work now' l1 (did_work || did_delayed_work)

  -- An iteration of `MessagePumpDefault::Run`; the clock is read at most twice.
  unfoldable pub pump_step : ℤ → ℤ → MessageLoop → Option (MessageLoop × Next)
  pump_step now now' l = do
    (l1, did_work) ← do_work l
    if not l1.keep_running then some (l1, stop) else after_work now now' l1 did_work

  -- `MessagePumpDefault::Run`, for as many iterations as there are readings of the clock; `false`
  -- where it still runs.
  unfoldable pub run_pump : List (ℤ × ℤ) → MessageLoop → Option (MessageLoop × Bool)
  run_pump [] l = some (l, false)
  run_pump ((now, now') ∷ times) l = pump_step now now' l >>= λ (l1, next). elim next [
    | stop ↦ some (record l1 { keep_running = true }, true)
    | again ↦ run_pump times l1
    | wait_forever ↦ run_pump times l1
    | wait_for delay ↦ run_pump times l1
  ]

  -- `MessageLoop::Run` and `RunUntilIdle`.
  unfoldable pub run : List (ℤ × ℤ) → MessageLoop → Option (MessageLoop × Bool)
  run times l = do
    (l1, ended) ← run_pump times (record l { is_running = true })
    some (if ended then record l1 { is_running = false } else l1, ended)

  unfoldable pub run_until_idle : List (ℤ × ℤ) → MessageLoop → Option (MessageLoop × Bool)
  run_until_idle times l = run times (quit_when_idle l)
