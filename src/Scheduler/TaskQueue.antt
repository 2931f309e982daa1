-- ===== src/Scheduler/TaskQueue.antt =====
-- scheduler/base/queue.go, type TaskQueue. A panic is `none`; `now` is what time.Now() gives.
use Prim.Native.String.{String}
use cubefs_blobstore.Base.{ℕ, Option, none, some}
use cubefs_blobstore.Base.Int.{ℤ}
use cubefs_blobstore.Base.Dict.{string_eq}
use cubefs_blobstore.Scheduler.Queue.{
  Queue, Error, new_queue, push, pop, get, requeue, remove, stats,
}

pub record TaskQueue (A : Type 0) : Type 0 where
  pub queue : Queue A
  pub retry_delay : ℤ

module _ {A : Type 0} where
  unfoldable pub new_task_queue : ℤ → TaskQueue A
  new_task_queue retry_delay = record { queue = new_queue 0; retry_delay = retry_delay }

  abbrev pub or_panic : TaskQueue A → Queue A × Option Error → Option (TaskQueue A)
  or_panic t (q, none) = some (record t { queue = q })
  or_panic t (q, some e) = none

  unfoldable pub push_task : TaskQueue A → String → A → Option (TaskQueue A)
  push_task t id task = or_panic t (push t.queue id task)

  unfoldable pub pop_task : TaskQueue A → ℕ → TaskQueue A × Option (String × A)
  pop_task t now = let (q, popped) = pop t.queue now in (record t { queue = q }, popped)

  unfoldable pub remove_task : TaskQueue A → String → TaskQueue A × Option Error
  remove_task t id = let (q, e) = remove t.queue id in (record t { queue = q }, e)

  unfoldable pub retry_task : TaskQueue A → String → ℕ → Option (TaskQueue A)
  retry_task t id now = or_panic t (requeue t.queue id t.retry_delay now)

  unfoldable pub query_task : TaskQueue A → String → Option A
  query_task t id = get t.queue id

  unfoldable pub stats_tasks : TaskQueue A → ℕ × ℕ
  stats_tasks t = stats t.queue
