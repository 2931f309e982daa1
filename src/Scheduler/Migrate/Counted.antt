-- ===== src/Scheduler/Migrate/Counted.antt =====
-- Which disks count as migrating in scheduler/migrate.go.
use Prim.Native.String.{String}
use cubefs_blobstore.Base.{
  ℕ, ◌≡◌, inl, inr, refl, sym, subst, Bool, true, Bool-cases, Option, none, some,
}
use cubefs_blobstore.Base.Dict.{nat_eq, string_eq, lookup-insert_self}
use cubefs_blobstore.Scheduler.Queue.{Queue, Error, requeue}
use cubefs_blobstore.Scheduler.TaskQueue.{TaskQueue, or_panic, retry_task}
use cubefs_blobstore.Scheduler.WorkerQueue.{WorkerTaskQueue}
use cubefs_blobstore.Scheduler.Locker.{try_lock}
use cubefs_blobstore.Scheduler.MigrateTask.{MigrateTask, migrate_worker_task}
use cubefs_blobstore.Scheduler.Migrate.{
  MigrateMgr, Failure, returned, Answers, DiskMigratingVuids, is_migrating_disk, add_migrating_vuid,
}
use cubefs_blobstore.Scheduler.Migrate.Table.{TaskTbl}
use cubefs_blobstore.Scheduler.Migrate.Prepare.{
  vol_of, added, add_task, requeued, retry_prepare, fail_prepare, advanced, in_advance,
  finish_task_in_advance, sent, send_to_work, prepare_locked, prepare_popped, prepare_task,
}
use cubefs_blobstore.Scheduler.Migrate.Rule.{prepare_locked_rule}
use cubefs_blobstore.Scheduler.Migrate.Invariant.{Ends}

module _ (mgr : MigrateMgr) where
  abbrev SameDisks : MigrateMgr → Type 0
  SameDisks m = m.migrating ≡ mgr.migrating

  requeued_disks :
      (mgr' : MigrateMgr) (e : Failure) (r : Queue MigrateTask × Option Error)
      → SameDisks mgr'
      → Ends SameDisks (requeued mgr' e (or_panic mgr'.prepare_queue r))
  requeued_disks mgr' e (q, none) h = h
  requeued_disks mgr' e (q, some x) h = tt

  retry_disks :
      (mgr' : MigrateMgr) (task : MigrateTask) (later : ℕ) (e : Failure)
      → SameDisks mgr'
      → Ends SameDisks (retry_prepare mgr' task later e)
  unfolding retry_prepare retry_task
  retry_disks mgr' task later e h =
      let q = mgr'.prepare_queue in
      requeued_disks mgr' e (requeue q.queue task.task_id q.retry_delay later) h

  advanced_disks :
      (mgr' : MigrateMgr) (task : MigrateTask) (tbl : Option TaskTbl)
      → SameDisks mgr'
      → Ends SameDisks (advanced mgr' task tbl)
  advanced_disks mgr' task none h = tt
  advanced_disks mgr' task (some tbl) h = h

  sent_disks :
      (mgr' : MigrateMgr) (task : MigrateTask) (tbl : Option TaskTbl)
      (w : Option (WorkerTaskQueue MigrateTask))
      → SameDisks mgr'
      → Ends SameDisks (sent mgr' task tbl w)
  sent_disks mgr' task none w h = tt
  sent_disks mgr' task (some tbl) none h = tt
  sent_disks mgr' task (some tbl) (some w) h = h

  locked_disks :
      (mgr' : MigrateMgr) (task : MigrateTask) (has_handler : Bool) (answers : Answers) (later : ℕ)
      → SameDisks mgr'
      → Ends SameDisks (prepare_locked has_handler answers later mgr' task)
  locked_disks mgr' task has_handler answers later h =
      prepare_locked_rule (Ends SameDisks) mgr' task tt
        (λ l e. unfold fail_prepare in retry_disks _ task l e h)
        (λ reason.
          unfold finish_task_in_advance in advanced_disks mgr' (in_advance task reason) _ h)
        (λ task' same. unfold send_to_work in sent_disks mgr' task' _ _ h) has_handler answers later

  popped_disks :
      (mgr' : MigrateMgr) (has_handler : Bool) (answers : Answers) (later : ℕ)
      (popped : Option (String × MigrateTask))
      → SameDisks mgr'
      → Ends SameDisks (prepare_popped has_handler answers later mgr' popped)
  unfolding prepare_popped
  popped_disks mgr' has_handler answers later none h = h
  popped_disks mgr' has_handler answers later (some (id, task)) h =
      elim (Bool-cases (try_lock mgr'.locker (vol_of task)).1) [
        | inl got ↦ rw got (locked_disks _ task has_handler answers later h)
        | inr lost ↦ rw lost (retry_disks mgr' task later _ h)
      ]

  prepare_task_disks :
      (has_handler : Bool) (answers : Answers) (later now : ℕ)
      → Ends SameDisks (prepare_task has_handler answers later mgr now)
  unfolding prepare_task
  prepare_task_disks has_handler answers later now = popped_disks _ has_handler answers later _ refl

module _ (task : MigrateTask) where
  abbrev Counts : MigrateMgr → Type 0
  Counts m = is_migrating_disk m.migrating task.source_disk_id ≡ true

  added-Counts :
      (mgr : MigrateMgr) (tbl : Option TaskTbl) (q : Option (TaskQueue MigrateTask))
      → Ends Counts (added mgr task tbl q)
  unfolding is_migrating_disk add_migrating_vuid
  added-Counts mgr none q = tt
  added-Counts mgr (some tbl) none = tt
  added-Counts mgr (some tbl) (some q) =
      rw (lookup-insert_self task.source_disk_id _ mgr.migrating) refl

  add_task-Counts : (mgr : MigrateMgr) → Ends Counts (add_task mgr task)
  unfolding add_task
  add_task-Counts mgr = added-Counts mgr _ _

  -- The disk of a task that has been added counts as migrating after prepareTask, whatever the other
  -- services answered: also when prepareTask has finished the task in advance, so that no queue holds it.
  pub disk_stays_migrating :
      (mgr mgr' mgr'' : MigrateMgr) (has_handler : Bool) (answers : Answers) (later now : ℕ)
      (e e' : Option Failure)
      → add_task mgr task ≡ returned mgr' e
      → prepare_task has_handler answers later mgr' now ≡ returned mgr'' e'
      → is_migrating_disk mgr''.migrating task.source_disk_id ≡ true
  disk_stays_migrating mgr mgr' mgr'' has_handler answers later now e e' added prepared =
      let counts : Counts mgr' = subst (Ends Counts) added (add_task-Counts mgr) in
      let same : mgr''.migrating ≡ mgr'.migrating =
        subst (Ends (SameDisks mgr')) prepared
          (prepare_task_disks mgr' has_handler answers later now) in
      subst (λ (d : DiskMigratingVuids). is_migrating_disk d task.source_disk_id ≡ true) (sym same)
        counts
