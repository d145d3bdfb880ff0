-- ===== src/Base/TaskQueue.antt =====
-- libHH/base/message_loop/incoming_task_queue.h and incoming_task_queue.cpp, libHH/base/pending_task.h,
-- and the work queue of libHH/base/message_loop/message_loop.cpp. A task is the identity of its
-- closure. Posts from other threads hold `incoming_queue_lock_`, so a run of the threads is a
-- sequence of actions. `none` is the overflow of a signed integer. `ReloadWorkQueue` of the queue
-- answers a size that its only caller ignores, which is left out.
pub mod Steps
pub mod Posts
pub mod Order
mod Examples
use lib_hh_old.Common.{
  ℕ, suc, ◌+◌, ◌-◌, ◌^◌, Bool, true, false, not, ◌&&◌, ◌||◌, Option, some, none, List, [], ◌∷◌,
  ◌++◌, ltb, leb, ◌==◌, if◌then◌else◌, ◌>>=◌, length,
}
use lib_hh_old.Common.Int.{ℤ, pos, pos_part, ◌+ℤ◌, ltb_ℤ}

pub record PendingTask : Type 0 where
  pub task : ℕ
  pub sequence_num : ℕ
  pub delayed_run_time : ℤ

-- `message_loop_` is null or not, and `wakes` counts the calls of its `ScheduleWork`.
pub record IncomingTaskQueue : Type 0 where
  pub incoming_queue : List PendingTask
  pub has_message_loop : Bool
  pub next_sequence_num : ℕ
  pub message_loop_scheduled : Bool
  pub always_schedule_work : Bool
  pub is_ready_for_scheduling : Bool
  pub wakes : ℕ

abbrev pub new_queue : IncomingTaskQueue
new_queue = record {
  incoming_queue = [];
  has_message_loop = true;
  next_sequence_num = 0;
  message_loop_scheduled = false;
  always_schedule_work = false;
  is_ready_for_scheduling = false;
  wakes = 0;
}

unfoldable pub is_empty {ℓ} : {A : Type ℓ} → List A → Bool
is_empty [] = true
is_empty (x ∷ xs) = false

-- `TimeTicksNow + delay` for a positive delay, in 64 bits.
unfoldable pub calculate_delayed_runtime : ℤ → ℤ → Option ℤ
calculate_delayed_runtime now delay =
    if ltb_ℤ (pos 0) delay
    then (if ltb (pos_part (now +ℤ delay)) (2 ^ 63) then some (now +ℤ delay) else none)
    else some (pos 0)

unfoldable pub schedule_work : IncomingTaskQueue → IncomingTaskQueue
schedule_work q =
    if q.has_message_loop
    then record q { message_loop_scheduled = true; wakes = suc q.wakes }
    else q

unfoldable pub post_pending_task :
    PendingTask → IncomingTaskQueue → Option (IncomingTaskQueue × Bool)
post_pending_task t q =
    let was_empty : Bool = is_empty q.incoming_queue in
    let pushed : IncomingTaskQueue = record q {
      incoming_queue = q.incoming_queue ++ (record t { sequence_num = q.next_sequence_num } ∷ []);
      next_sequence_num = suc q.next_sequence_num;
    } in
    let wake : Bool =
      q.is_ready_for_scheduling
      && (q.always_schedule_work || (not q.message_loop_scheduled && was_empty)) in
    if not q.has_message_loop
    then some (q, false)
    else if ltb (suc q.next_sequence_num) (2 ^ 31)
    then some (if wake then schedule_work pushed else pushed, true)
    else none

unfoldable pub add_to_incoming_queue :
    ℕ → ℤ → ℤ → IncomingTaskQueue → Option (IncomingTaskQueue × Bool)
add_to_incoming_queue task delay now q = do
  run_time ← calculate_delayed_runtime now delay
  post_pending_task (record { task = task; sequence_num = 0; delayed_run_time = run_time }) q

-- `ReloadWorkQueue`, and the work queue that the tasks are swapped with.
unfoldable pub reload_work_queue :
    IncomingTaskQueue → List PendingTask → IncomingTaskQueue × List PendingTask
reload_work_queue q work_queue =
    if is_empty q.incoming_queue
    then (record q { message_loop_scheduled = false }, work_queue)
    else (record q { incoming_queue = work_queue }, q.incoming_queue)

unfoldable pub start_scheduling : IncomingTaskQueue → IncomingTaskQueue
start_scheduling q =
    let ready : IncomingTaskQueue = record q { is_ready_for_scheduling = true } in
    if is_empty q.incoming_queue then ready else schedule_work ready

unfoldable pub will_destroy_current_message_loop : IncomingTaskQueue → IncomingTaskQueue
will_destroy_current_message_loop q = record q { has_message_loop = false }

-- The loop's side: the tasks that it has taken from the front of its work queue, in order.
pub record WorkQueue : Type 0 where
  pub incoming : IncomingTaskQueue
  pub work_queue : List PendingTask
  pub taken : List PendingTask

abbrev pub new_work_queue : WorkQueue
new_work_queue = record { incoming = new_queue; work_queue = []; taken = [] }

-- `MessageLoop::ReloadWorkQueue`.
unfoldable pub reload : WorkQueue → WorkQueue
reload w =
    let (q, work_queue) = reload_work_queue w.incoming w.work_queue in
    if is_empty w.work_queue then record w { incoming = q; work_queue = work_queue } else w

-- `front` and `pop` of the inner loop of `DoWork`, which it enters on a queue that is not empty.
unfoldable pub take_front : WorkQueue → WorkQueue
take_front w = elim w.work_queue [
  | [] ↦ w
  | t ∷ ts ↦ record w { work_queue = ts; taken = w.taken ++ (t ∷ []) }
]

-- What the threads may do, one at a time: a post gives the task, the delay and the time of the call.
pub data Action : Type 0 where
  post : ℕ → ℤ → ℤ → Action
  refill pop start destroy : Action

unfoldable pub step : Action → WorkQueue → Option WorkQueue
step (Action.post task delay now) w = do
  (q, accepted) ← add_to_incoming_queue task delay now w.incoming
  some (record w { incoming = q })
step Action.refill w = some (reload w)
step Action.pop w = some (take_front w)
step Action.start w = some (record w { incoming = start_scheduling w.incoming })
step Action.destroy w = some (record w { incoming = will_destroy_current_message_loop w.incoming })

unfoldable pub run : List Action → WorkQueue → Option WorkQueue
run [] w = some w
run (a ∷ actions) w = step a w >>= run actions
