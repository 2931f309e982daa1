-- ===== src/Scheduler/Migrate/Finish.antt =====
-- scheduler/migrate.go: finishTask, with handleUpdateVolMappingFail and notifyTinkerUpdateVolMapping.
use Prim.Native.String.{String}
use cubefs_blobstore.Base.{
  ℕ, ◌+◌, ◌%◌, ◌^◌, Bool, true, false, ◌&&◌, ◌||◌, not, Option, none, some, List, [], ◌∷◌, ◌==◌,
  if◌then◌else◌,
}
use cubefs_blobstore.Scheduler.MigrateTask.{
  MigrateTask, migrate_worker_task, prepared, work_completed, finished,
}
use cubefs_blobstore.Scheduler.Task.{VunitLocation}
use cubefs_blobstore.Scheduler.TaskQueue.{TaskQueue, pop_task, remove_task, retry_task}
use cubefs_blobstore.Scheduler.WorkerQueue.{WorkerTaskQueue, add_prepared_task}
use cubefs_blobstore.Scheduler.Locker.{unlock}
use cubefs_blobstore.Scheduler.Migrate.{
  MigrateMgr, Failure, no_task_in_queue, notify_tinker_update_vol, answered, Run, returned, panics,
  stuck, Answers, Alloc, granted, refused, same_disk, alloc_vunit_safe, delete_migrating_vuid,
  code_disk_broken, code_vuid_not_found, code_old_vuid_not_match, code_new_vuid_not_match,
  code_stat_chunk_failed,
}
use cubefs_blobstore.Scheduler.Migrate.Table.{TaskTbl, update, same_state}
use cubefs_blobstore.Scheduler.Migrate.Prepare.{vol_of}

-- Every tinker has taken the new mapping.
unfoldable pub all_updated : (String → Bool) → List String → Bool
all_updated f [] = true
all_updated f (host ∷ hosts) = f host && all_updated f hosts

unfoldable pub notify_tinkers : Answers → Bool
unfolding all_updated
notify_tinkers answers = elim answers.tinker_hosts [
  | none ↦ false
  | some hosts ↦ all_updated answers.tinker_updates hosts
]

unfoldable pub should_alloc_and_redo : ℕ → Bool
should_alloc_and_redo code = code == code_new_vuid_not_match || code == code_stat_chunk_failed

abbrev pub requeued_finish : MigrateMgr → Failure → Option (TaskQueue MigrateTask) → Run
requeued_finish mgr e none = panics
requeued_finish mgr e (some q) = returned (record mgr { finish_queue = q }) (some e)

-- The deferred call after an error.
unfoldable pub retry_finish : MigrateMgr → MigrateTask → ℕ → Failure → Run
retry_finish mgr task later e =
    requeued_finish mgr e (retry_task mgr.finish_queue task.task_id later)

abbrev pub sent_back :
    MigrateMgr → MigrateTask → Option TaskTbl → Option (WorkerTaskQueue MigrateTask) → Run
sent_back mgr task none w = stuck
sent_back mgr task (some tbl) none = panics
sent_back mgr task (some tbl) (some w) =
    returned
      (record mgr {
        task_tbl = tbl;
        finish_queue = (remove_task mgr.finish_queue task.task_id).0;
        work_queue = w;
      })
      none

abbrev pub redone_task : MigrateTask → VunitLocation → MigrateTask
redone_task task unit = record task {
  destination = unit;
  state = prepared;
  worker_redo_cnt = (task.worker_redo_cnt + 1) % 2 ^ 8;
}

unfoldable pub redo : MigrateMgr → MigrateTask → Run
redo mgr task =
    sent_back mgr task (update mgr.task_tbl work_completed task)
      (add_prepared_task mgr.work_queue task.source_idc task.task_id task)

unfoldable pub redo_granted : MigrateMgr → MigrateTask → ℕ → Alloc → Run
unfolding redo retry_finish
redo_granted mgr task later (refused code) = retry_finish mgr task later (answered code)
redo_granted mgr task later same_disk = panics
redo_granted mgr task later (granted unit) = redo mgr (redone_task task unit)

abbrev pub closed : MigrateMgr → MigrateTask → Option TaskTbl → Run
closed mgr task none = stuck
closed mgr task (some tbl) =
    returned
      (record mgr {
        task_tbl = tbl;
        finish_queue = (remove_task mgr.finish_queue task.task_id).0;
        locker = unlock mgr.locker (vol_of task);
        migrating = delete_migrating_vuid mgr.migrating task.source_disk_id task.source_vuid;
        finished_count = mgr.finished_count + 1;
      })
      none

unfoldable pub close : MigrateMgr → MigrateTask → Run
close mgr task =
    closed mgr task (update mgr.task_tbl work_completed (record task { state = finished }))

module _ (answers : Answers) (later : ℕ) where
  unfoldable pub handle_update_vol_mapping_fail : MigrateMgr → MigrateTask → ℕ → Run
  unfolding redo_granted retry_finish should_alloc_and_redo
  handle_update_vol_mapping_fail mgr task code =
      if code == code_old_vuid_not_match
      then panics
      else if should_alloc_and_redo code
      then redo_granted mgr task later (alloc_vunit_safe answers.alloc_volume_unit task.sources)
      else retry_finish mgr task later (answered code)

  -- A unit that is gone, or a broken disk, is passed over; else the tinkers have to know of the new unit.
  abbrev pub release_ok : Option ℕ → Bool
  release_ok none = true
  release_ok (some code) =
      (code == code_vuid_not_found || code == code_disk_broken) || notify_tinkers answers

  unfoldable pub finish_unlock : MigrateMgr → MigrateTask → Run
  unfolding close retry_finish
  finish_unlock mgr task = elim answers.unlock_volume [
    | some code ↦ retry_finish mgr task later (answered code)
    | none ↦ close mgr task
  ]

  unfoldable pub finish_completed : MigrateMgr → MigrateTask → Run
  unfolding handle_update_vol_mapping_fail finish_unlock retry_finish notify_tinkers
  finish_completed mgr task = elim answers.update_volume [
    | some code ↦ handle_update_vol_mapping_fail mgr task code
    | none ↦
        if release_ok answers.release_volume_unit
        then finish_unlock mgr task
        else retry_finish mgr task later notify_tinker_update_vol
  ]

  abbrev pub recorded : MigrateMgr → MigrateTask → Option TaskTbl → Run
  recorded mgr task none = stuck
  recorded mgr task (some tbl) = finish_completed (record mgr { task_tbl = tbl }) task

  unfoldable pub finish_popped : MigrateMgr → Option (String × MigrateTask) → Run
  unfolding finish_completed
  finish_popped mgr none = returned mgr (some no_task_in_queue)
  finish_popped mgr (some (id, task)) =
      if not (same_state task.state work_completed)
      then panics
      else recorded mgr task (update mgr.task_tbl prepared task)

  unfoldable pub finish_task : MigrateMgr → ℕ → Run
  unfolding finish_popped
  finish_task mgr now =
      let (q, popped) = pop_task mgr.finish_queue now in
      finish_popped (record mgr { finish_queue = q }) popped
