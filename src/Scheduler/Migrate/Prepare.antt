-- ===== src/Scheduler/Migrate/Prepare.antt =====
-- scheduler/migrate.go: AddTask, prepareTask and finishTaskInAdvance.
use Prim.Native.String.{String}
use cubefs_blobstore.Base.{
  ℕ, ◌+◌, Bool, ◌&&◌, not, Option, none, some, ◌==◌, if◌then◌else◌, get_elem?,
}
use cubefs_blobstore.Proto.Vuid.{vid, index}
use cubefs_blobstore.Scheduler.Task.{VunitLocation}
use cubefs_blobstore.Scheduler.MigrateTask.{
  MigrateTask, migrate_worker_task, inited, prepared, finished_in_advance,
}
use cubefs_blobstore.Scheduler.TaskQueue.{TaskQueue, push_task, pop_task, remove_task, retry_task}
use cubefs_blobstore.Scheduler.WorkerQueue.{WorkerTaskQueue, add_prepared_task}
use cubefs_blobstore.Scheduler.Locker.{try_lock, unlock}
use cubefs_blobstore.Scheduler.Migrate.{
  MigrateMgr, Failure, no_task_in_queue, vol_not_only_one_task, answered, Run, returned, panics,
  stuck, Answers, VolumeInfo, value, error, Alloc, granted, refused, same_disk, alloc_vunit_safe,
  add_migrating_vuid, code_lock_not_allow,
}
use cubefs_blobstore.Scheduler.Migrate.Table.{TaskTbl, update, insert_task}

abbrev pub vol_of : MigrateTask → ℕ
vol_of task = vid task.source_vuid

-- The write to the table is retried until it is done.
abbrev pub added : MigrateMgr → MigrateTask → Option TaskTbl → Option (TaskQueue MigrateTask) → Run
added mgr task none q = stuck
added mgr task (some tbl) none = panics
added mgr task (some tbl) (some q) =
    returned
      (record mgr {
        task_tbl = tbl;
        prepare_queue = q;
        migrating =
            add_migrating_vuid mgr.migrating task.source_disk_id task.source_vuid task.task_id;
      })
      none

unfoldable pub add_task : MigrateMgr → MigrateTask → Run
add_task mgr task =
    added mgr task (insert_task mgr.task_tbl task) (push_task mgr.prepare_queue task.task_id task)

abbrev pub requeued : MigrateMgr → Failure → Option (TaskQueue MigrateTask) → Run
requeued mgr e none = panics
requeued mgr e (some q) = returned (record mgr { prepare_queue = q }) (some e)

-- The deferred call after an error.
unfoldable pub retry_prepare : MigrateMgr → MigrateTask → ℕ → Failure → Run
retry_prepare mgr task later e = requeued mgr e (retry_task mgr.prepare_queue task.task_id later)

-- Both deferred calls, the later one first.
unfoldable pub fail_prepare : MigrateMgr → MigrateTask → ℕ → Failure → Run
unfolding retry_prepare
fail_prepare mgr task later e =
    retry_prepare (record mgr { locker = unlock mgr.locker (vol_of task) }) task later e

abbrev pub advanced : MigrateMgr → MigrateTask → Option TaskTbl → Run
advanced mgr task none = stuck
advanced mgr task (some tbl) =
    returned
      (record mgr {
        task_tbl = tbl;
        finished_count = mgr.finished_count + 1;
        prepare_queue = (remove_task mgr.prepare_queue task.task_id).0;
        locker = unlock mgr.locker (vol_of task);
      })
      none

abbrev pub in_advance : MigrateTask → String → MigrateTask
in_advance task reason = record task { state = finished_in_advance; finish_advance_reason = reason }

unfoldable pub finish_task_in_advance : MigrateMgr → MigrateTask → String → Run
finish_task_in_advance mgr task reason =
    advanced mgr (in_advance task reason) (update mgr.task_tbl inited (in_advance task reason))

abbrev pub sent :
    MigrateMgr → MigrateTask → Option TaskTbl → Option (WorkerTaskQueue MigrateTask) → Run
sent mgr task none w = stuck
sent mgr task (some tbl) none = panics
sent mgr task (some tbl) (some w) =
    returned
      (record mgr {
        task_tbl = tbl;
        work_queue = w;
        prepare_queue = (remove_task mgr.prepare_queue task.task_id).0;
      })
      none

abbrev pub prepared_task : MigrateTask → VolumeInfo → VunitLocation → MigrateTask
prepared_task task info unit = record task {
  code_mode = info.code_mode;
  sources = info.vunit_locations;
  destination = unit;
  state = prepared;
}

unfoldable pub send_to_work : MigrateMgr → MigrateTask → Run
send_to_work mgr task =
    sent mgr task (update mgr.task_tbl inited task)
      (add_prepared_task mgr.work_queue task.source_idc task.task_id task)

unfoldable pub prepare_granted : MigrateMgr → MigrateTask → VolumeInfo → ℕ → Alloc → Run
unfolding fail_prepare send_to_work
prepare_granted mgr task info later (refused code) = fail_prepare mgr task later (answered code)
prepare_granted mgr task info later same_disk = panics
prepare_granted mgr task info later (granted unit) = send_to_work mgr (prepared_task task info unit)

module _ (has_lock_fail_handler : Bool) (answers : Answers) (later : ℕ) where
  -- Only the managers that finish the task in advance set a handler.
  unfoldable pub prepare_current : MigrateMgr → MigrateTask → VolumeInfo → Run
  unfolding prepare_granted fail_prepare finish_task_in_advance
  prepare_current mgr task info = elim answers.lock_volume [
    | none ↦
        prepare_granted mgr task info later
          (alloc_vunit_safe answers.alloc_volume_unit task.sources)
    | some code ↦
        if (code == code_lock_not_allow) && has_lock_fail_handler
        then finish_task_in_advance mgr task "lock volume fail"
        else fail_prepare mgr task later (answered code)
  ]

  -- The source unit is no longer the volume's.
  unfoldable pub prepare_moved : MigrateMgr → MigrateTask → Run
  unfolding fail_prepare finish_task_in_advance
  prepare_moved mgr task = elim answers.unlock_volume [
    | some code ↦ fail_prepare mgr task later (answered code)
    | none ↦ finish_task_in_advance mgr task "volume has migrated"
  ]

  -- An index past the units of the volume panics.
  unfoldable pub prepare_unit : MigrateMgr → MigrateTask → VolumeInfo → Option VunitLocation → Run
  unfolding prepare_current prepare_moved
  prepare_unit mgr task info none = panics
  prepare_unit mgr task info (some unit) =
      if not (task.source_vuid == unit.vuid)
      then prepare_moved mgr task
      else prepare_current mgr task info

  unfoldable pub prepare_locked : MigrateMgr → MigrateTask → Run
  unfolding prepare_unit fail_prepare
  prepare_locked mgr task = elim answers.volume_info [
    | error code ↦ fail_prepare mgr task later (answered code)
    | value info ↦
        prepare_unit mgr task info (get_elem? info.vunit_locations (index task.source_vuid))
  ]

  unfoldable pub prepare_popped : MigrateMgr → Option (String × MigrateTask) → Run
  unfolding prepare_locked retry_prepare
  prepare_popped mgr none = returned mgr (some no_task_in_queue)
  prepare_popped mgr (some (id, task)) =
      let (locker, locked) = try_lock mgr.locker (vol_of task) in
      if locked
      then prepare_locked (record mgr { locker = locker }) task
      else retry_prepare mgr task later vol_not_only_one_task

  unfoldable pub prepare_task : MigrateMgr → ℕ → Run
  unfolding prepare_popped
  prepare_task mgr now =
      let (q, popped) = pop_task mgr.prepare_queue now in
      prepare_popped (record mgr { prepare_queue = q }) popped
