-- ===== src/Scheduler/WorkerQueue.antt =====
-- scheduler/base/queue.go, type WorkerTaskQueue. A task is a pointer that the queue's message holds, so
-- `SetDest` is a write into the message. Times and durations are nanoseconds; `now` is what time.Now()
-- gives.
pub mod Laws
pub mod Reclaim
pub mod Held
pub mod Moved
mod Tests
use Prim.Native.String.{String}
use text.Mathlib.Text.{◌==◌ as str_eq}
use cubefs_blobstore.Base.{
  ℕ, zero, suc, ◌+◌, ◌*◌, Bool, true, false, ◌&&◌, ◌||◌, not, Option, none, some, List, [], ◌∷◌,
  ◌==◌, if◌then◌else◌, length,
}
use cubefs_blobstore.Base.Int.{ℤ, pos}
use cubefs_blobstore.Base.Dict.{Dict, lookup, insert, string_eq}
use cubefs_blobstore.Base.Refs.{update}
use cubefs_blobstore.Scheduler.Queue.{
  Queue, MsgEx, Error, unmatched_vuids, no_such_idc_queue, no_such_message_id, new_queue, push, pop,
  get, requeue, remove, stats,
}
use cubefs_blobstore.Scheduler.Task.{VunitLocation, WorkerTask, check_valid}

pub record WorkerTaskQueue (A : Type 0) : Type 0 where
  pub idc_queues : Dict String (Queue A)
  pub cancel_punish_duration : ℤ
  pub lease_expired : ℕ

-- proto.TaskLeaseExpiredS * time.Second
abbrev pub task_lease_expired : ℕ
task_lease_expired = 10 * 1000000000

pub data Completion (A : Type 0) : Type 0 where
  completed : A → Completion A
  refused : Error → Completion A
  panics : Completion A

unfoldable pub new_worker_task_queue : {A : Type 0} → ℤ → WorkerTaskQueue A
new_worker_task_queue punish = record {
  idc_queues = [];
  cancel_punish_duration = punish;
  lease_expired = task_lease_expired;
}

abbrev pub set_queue : {A : Type 0} → WorkerTaskQueue A → String → Queue A → WorkerTaskQueue A
set_queue w idc q = record w { idc_queues = insert idc q w.idc_queues }

-- The queue of an IDC, new on first use.
abbrev idc_queue_or_new : {A : Type 0} → WorkerTaskQueue A → Option (Queue A) → Queue A
idc_queue_or_new w none = new_queue w.lease_expired
idc_queue_or_new w (some q) = q

abbrev pushed_or_panic :
    {A : Type 0} → WorkerTaskQueue A → String → Queue A × Option Error → Option (WorkerTaskQueue A)
pushed_or_panic w idc (q, none) = some (set_queue w idc q)
pushed_or_panic w idc (q, some e) = none

-- `none` is the panic on a task id that the IDC's queue holds.
unfoldable pub add_prepared_task :
    {A : Type 0} → WorkerTaskQueue A → String → String → A → Option (WorkerTaskQueue A)
add_prepared_task w idc id task =
    pushed_or_panic w idc (push (idc_queue_or_new w (lookup idc w.idc_queues)) id task)

unfoldable pub acquire :
    {A : Type 0} → WorkerTaskQueue A → String → ℕ → WorkerTaskQueue A × Option (String × A)
acquire w idc now = elim (lookup idc w.idc_queues) [
  | none ↦ (w, none)
  | some q ↦ let (q', popped) = pop q now in (set_queue w idc q', popped)
]

abbrev requeued :
    {A : Type 0}
    → WorkerTaskQueue A
    → String
    → Queue A × Option Error
    → WorkerTaskQueue A × Option Error
requeued w idc (q, e) = (set_queue w idc q, e)

unfoldable pub cancel :
    {A : Type 0} ⦃W : WorkerTask A⦄
    → WorkerTaskQueue A
    → String
    → String
    → List VunitLocation
    → VunitLocation
    → ℕ
    → WorkerTaskQueue A × Option Error
cancel w idc id src dst now = elim (lookup idc w.idc_queues) [
  | none ↦ (w, some no_such_idc_queue)
  | some q ↦ elim (get q id) [
    | none ↦ (w, some no_such_message_id)
    | some task ↦ elim (check_valid task src dst) [
      | some e ↦ (w, some e)
      | none ↦ requeued w idc (requeue q id w.cancel_punish_duration now)
    ]
  ]
]

-- wtask.SetDest, through the pointer in the message.
write_msg : {A : Type 0} → Queue A → Option ℕ → Option (MsgEx A) → A → Queue A
write_msg q (some e) (some m) task = record q {
  cell = update q.cell e (some (record m { msg = task }));
}
write_msg q _ _ task = q

abbrev cell_of : {A : Type 0} → Queue A → Option ℕ → Option (MsgEx A)
cell_of q none = none
cell_of q (some e) = q.cell e

unfoldable pub set_dest :
    {A : Type 0} ⦃W : WorkerTask A⦄ → Queue A → String → A → VunitLocation → Queue A
unfolding write_msg
set_dest ⦃W⦄ q id task dest =
    write_msg q (lookup id q.msgs) (cell_of q (lookup id q.msgs)) (W.set_dest task dest)

-- The argument newDiskID is not read.
unfoldable pub reclaim :
    {A : Type 0} ⦃W : WorkerTask A⦄
    → WorkerTaskQueue A
    → String
    → String
    → List VunitLocation
    → VunitLocation
    → VunitLocation
    → ℕ
    → WorkerTaskQueue A × Option Error
reclaim w idc id src old_dest new_dest now = elim (lookup idc w.idc_queues) [
  | none ↦ (w, some no_such_idc_queue)
  | some q ↦ elim (get q id) [
    | none ↦ (w, some no_such_message_id)
    | some task ↦ elim (check_valid task src old_dest) [
      | some e ↦ (w, some e)
      | none ↦ requeued w idc (requeue (set_dest q id task new_dest) id (pos 0) now)
    ]
  ]
]

unfoldable pub renewal :
    {A : Type 0} → WorkerTaskQueue A → String → String → ℕ → WorkerTaskQueue A × Option Error
renewal w idc id now = elim (lookup idc w.idc_queues) [
  | none ↦ (w, some no_such_idc_queue)
  | some q ↦ requeued w idc (requeue q id (pos w.lease_expired) now)
]

abbrev removed_or_panic :
    {A : Type 0}
    → WorkerTaskQueue A
    → String
    → A
    → Queue A × Option Error
    → WorkerTaskQueue A × Completion A
removed_or_panic w idc task (q, none) = (set_queue w idc q, completed task)
removed_or_panic w idc task (q, some e) = (w, panics)

unfoldable pub complete :
    {A : Type 0} ⦃W : WorkerTask A⦄
    → WorkerTaskQueue A
    → String
    → String
    → List VunitLocation
    → VunitLocation
    → WorkerTaskQueue A × Completion A
complete w idc id src dst = elim (lookup idc w.idc_queues) [
  | none ↦ (w, refused no_such_idc_queue)
  | some q ↦ elim (get q id) [
    | none ↦ (w, refused no_such_message_id)
    | some task ↦ elim (check_valid task src dst) [
      | some e ↦ (w, refused e)
      | none ↦ removed_or_panic w idc task (remove q id)
    ]
  ]
]

unfoldable pub query : {A : Type 0} → WorkerTaskQueue A → String → String → Completion A
query w idc id = elim (lookup idc w.idc_queues) [
  | none ↦ refused no_such_idc_queue
  | some q ↦ elim (get q id) [ none ↦ refused no_such_message_id | some task ↦ completed task ]
]

add_stats : {A : Type 0} → Dict String (Queue A) → ℕ × ℕ
add_stats [] = (0, 0)
add_stats ((idc, q) ∷ rest) =
    let (todo, doing) = stats q in let sums = add_stats rest in (todo + sums.0, doing + sums.1)

unfoldable pub worker_stats_tasks : {A : Type 0} → WorkerTaskQueue A → ℕ × ℕ
unfolding add_stats
worker_stats_tasks w = add_stats w.idc_queues

unfoldable pub set_lease_expired : {A : Type 0} → WorkerTaskQueue A → ℕ → WorkerTaskQueue A
set_lease_expired w duration = record w { lease_expired = duration }
