-- ===== src/Scheduler/Migrate/Workers.antt =====
-- scheduler/migrate.go: what the workers call (AcquireTask, CancelTask, ReclaimTask, CompleteTask,
-- RenewalTask), and Load.
use Prim.Native.String.{String}
use cubefs_blobstore.Base.{ℕ, ◌+◌, Bool, not, Option, none, some, List, [], ◌∷◌, if◌then◌else◌}
use cubefs_blobstore.Scheduler.Queue.{Error}
use cubefs_blobstore.Scheduler.Task.{VunitLocation}
use cubefs_blobstore.Scheduler.MigrateTask.{
  MigrateTask, MigrateState, migrate_worker_task, inited, prepared, work_completed, finished,
  finished_in_advance, running, finished_task,
}
use cubefs_blobstore.Scheduler.TaskQueue.{TaskQueue, push_task, stats_tasks}
use cubefs_blobstore.Scheduler.WorkerQueue.{
  WorkerTaskQueue, Completion, completed, add_prepared_task, acquire, cancel, reclaim, complete,
  query, renewal, worker_stats_tasks,
}
use cubefs_blobstore.Scheduler.WorkerQueue as Worker
use cubefs_blobstore.Scheduler.Locker.{try_lock}
use cubefs_blobstore.Scheduler.Migrate.{MigrateMgr, add_migrating_vuid}
use cubefs_blobstore.Scheduler.Migrate.Table.{TaskTbl, update, find_all}
use cubefs_blobstore.Scheduler.Migrate.Prepare.{vol_of}

-- What a worker's call gives.
pub data Answer : Type 0 where
  done : Answer
  task_given : MigrateTask → Answer
  task_paused task_empty : Answer
  queue_error : Error → Answer
  table_error : Answer
  panicked : Answer

abbrev pub acquired :
    MigrateMgr → WorkerTaskQueue MigrateTask × Option (String × MigrateTask) → MigrateMgr × Answer
acquired mgr (w, none) = (record mgr { work_queue = w }, task_empty)
acquired mgr (w, some (id, task)) = (record mgr { work_queue = w }, task_given task)

-- The switch of the task type is an argument.
unfoldable pub acquire_task : MigrateMgr → Bool → String → ℕ → MigrateMgr × Answer
acquire_task mgr enabled idc now =
    if not enabled then (mgr, task_paused) else acquired mgr (acquire mgr.work_queue idc now)

abbrev pub with_error :
    MigrateMgr → WorkerTaskQueue MigrateTask × Option Error → MigrateMgr × Answer
with_error mgr (w, none) = (record mgr { work_queue = w }, done)
with_error mgr (w, some e) = (record mgr { work_queue = w }, queue_error e)

unfoldable pub cancel_task :
    MigrateMgr → String → String → List VunitLocation → VunitLocation → ℕ → MigrateMgr × Answer
cancel_task mgr idc id src dst now = with_error mgr (cancel mgr.work_queue idc id src dst now)

unfoldable pub renewal_task : MigrateMgr → Bool → String → String → ℕ → MigrateMgr × Answer
renewal_task mgr enabled idc id now =
    if not enabled then (mgr, task_paused) else with_error mgr (renewal mgr.work_queue idc id now)

-- A write to the table that is tried once: the table may be unreachable.
unfoldable pub try_update : Bool → TaskTbl → MigrateState → MigrateTask → Option TaskTbl
try_update reachable tbl old_state task = if reachable then update tbl old_state task else none

abbrev pub stored : MigrateMgr → Option TaskTbl → MigrateMgr × Answer
stored mgr none = (mgr, table_error)
stored mgr (some tbl) = (record mgr { task_tbl = tbl }, done)

abbrev pub store_queried : Bool → MigrateMgr → Completion MigrateTask → MigrateMgr × Answer
store_queried reachable mgr (completed task) =
    stored mgr (try_update reachable mgr.task_tbl prepared task)
store_queried reachable mgr (Worker.refused e) = (mgr, queue_error e)
store_queried reachable mgr Worker.panics = (mgr, panicked)

abbrev pub reclaimed :
    Bool
    → MigrateMgr
    → String
    → String
    → WorkerTaskQueue MigrateTask × Option Error
    → MigrateMgr × Answer
reclaimed reachable mgr idc id (w, some e) = (record mgr { work_queue = w }, queue_error e)
reclaimed reachable mgr idc id (w, none) =
    store_queried reachable (record mgr { work_queue = w }) (query w idc id)

unfoldable pub reclaim_task :
    Bool
    → MigrateMgr
    → String
    → String
    → List VunitLocation
    → VunitLocation
    → VunitLocation
    → ℕ
    → MigrateMgr × Answer
unfolding try_update
reclaim_task reachable mgr idc id src old_dst new_dst now =
    reclaimed reachable mgr idc id (reclaim mgr.work_queue idc id src old_dst new_dst now)

abbrev pub pushed : MigrateMgr → Option (TaskQueue MigrateTask) → MigrateMgr × Answer
pushed mgr none = (mgr, panicked)
pushed mgr (some q) = (record mgr { finish_queue = q }, done)

abbrev pub to_finish : MigrateMgr → String → MigrateTask → Option TaskTbl → MigrateMgr × Answer
to_finish mgr id task none = (mgr, table_error)
to_finish mgr id task (some tbl) =
    pushed (record mgr { task_tbl = tbl }) (push_task mgr.finish_queue id task)

abbrev pub completed_task : MigrateTask → MigrateTask
completed_task task = record task { state = work_completed }

abbrev pub taken_out :
    Bool
    → MigrateMgr
    → String
    → WorkerTaskQueue MigrateTask × Completion MigrateTask
    → MigrateMgr × Answer
taken_out reachable mgr id (w, completed task) =
    to_finish (record mgr { work_queue = w }) id (completed_task task)
      (try_update reachable mgr.task_tbl prepared (completed_task task))
taken_out reachable mgr id (w, Worker.refused e) = (record mgr { work_queue = w }, queue_error e)
taken_out reachable mgr id (w, Worker.panics) = (mgr, panicked)

unfoldable pub complete_task :
    Bool → MigrateMgr → String → String → List VunitLocation → VunitLocation → MigrateMgr × Answer
unfolding try_update
complete_task reachable mgr idc id src dst =
    taken_out reachable mgr id (complete mgr.work_queue idc id src dst)

-- The numbers of tasks that wait in, or are leased from, the three queues.
unfoldable pub stat_queue_task_cnt : MigrateMgr → ℕ × ℕ × ℕ
stat_queue_task_cnt mgr =
    let (todo, doing) = stats_tasks mgr.prepare_queue in
    let (todo', doing') = worker_stats_tasks mgr.work_queue in
    let (todo'', doing'') = stats_tasks mgr.finish_queue in
    (todo + doing, todo' + doing', todo'' + doing'')

-- The queue of a loaded task, by its state.
abbrev put_loaded : MigrateMgr → MigrateTask → Option MigrateMgr
put_loaded mgr task = elim task.state [
  | inited ↦ elim (push_task mgr.prepare_queue task.task_id task) [
    | none ↦ none
    | some q ↦ some (record mgr { prepare_queue = q })
  ]
  | prepared ↦ elim (add_prepared_task mgr.work_queue task.source_idc task.task_id task) [
    | none ↦ none
    | some w ↦ some (record mgr { work_queue = w })
  ]
  | work_completed ↦ elim (push_task mgr.finish_queue task.task_id task) [
    | none ↦ none
    | some q ↦ some (record mgr { finish_queue = q })
  ]
  | finished ↦ some mgr
  | finished_in_advance ↦ some mgr
]

abbrev lock_loaded : MigrateMgr → MigrateTask → Option MigrateMgr
lock_loaded mgr task =
    if running task
    then (let (locker, ok) = try_lock mgr.locker (vol_of task) in
        if ok then some (record mgr { locker = locker }) else none)
    else some mgr

abbrev mark_loaded : MigrateMgr → MigrateTask → MigrateMgr
mark_loaded mgr task =
    if not (finished_task task)
    then record mgr {
      migrating =
          add_migrating_vuid mgr.migrating task.source_disk_id task.source_vuid task.task_id;
    }
    else mgr

abbrev pub load_one : Option MigrateMgr → MigrateTask → Option MigrateMgr
load_one none task = none
load_one (some mgr) task = elim (lock_loaded mgr task) [
  | none ↦ none
  | some mgr' ↦ put_loaded (mark_loaded mgr' task) task
]

unfoldable pub load_all : Option MigrateMgr → List MigrateTask → Option MigrateMgr
load_all o [] = o
load_all o (task ∷ tasks) = load_all (load_one o task) tasks

-- `none` is a panic: two running tasks of a volume, or a task id that a queue holds.
unfoldable pub load : MigrateMgr → Option MigrateMgr
unfolding load_all
load mgr = load_all (some mgr) (find_all mgr.task_tbl)
