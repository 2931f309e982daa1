-- ===== src/Scheduler/Migrate/Invariant.antt =====
-- The invariant of scheduler/migrate.go: the queues are well formed, and each prepared task has its volume
-- to itself.
use cubefs_blobstore.Base.{ℕ, ◌≡◌, refl, sym, ap, subst, ◌∙◌, Option, none, some}
use cubefs_blobstore.Base.Dict.{nat_eq, string_eq}
use cubefs_blobstore.Scheduler.Queue.{Queue, Error, requeue, push}
use cubefs_blobstore.Scheduler.Queue.Invariant.{WellFormed}
use cubefs_blobstore.Scheduler.Queue.Held.{held, requeue_held, push_held}
use cubefs_blobstore.Scheduler.TaskQueue.{TaskQueue, or_panic, push_task, retry_task}
use cubefs_blobstore.Scheduler.WorkerQueue.{WorkerTaskQueue}
use cubefs_blobstore.Scheduler.WorkerQueue.Laws.{IsValid}
use cubefs_blobstore.Scheduler.WorkerQueue.Held.{held_at}
use cubefs_blobstore.Scheduler.MigrateTask.{MigrateTask, migrate_worker_task}
use cubefs_blobstore.Scheduler.Migrate.{MigrateMgr, Failure, Run, returned, panics, stuck}
use cubefs_blobstore.Scheduler.Migrate.Table.{TaskTbl, insert_task}
use cubefs_blobstore.Scheduler.Migrate.Prepare.{added, add_task, requeued, retry_prepare}
use cubefs_blobstore.Scheduler.Migrate.Places.{
  Place, at_worker, at_finish, task_in, Sound, descends-Sound,
}

pub record Inv (mgr : MigrateMgr) : Type 0 where
  pub prepare_wf : WellFormed mgr.prepare_queue.queue
  pub work_valid : IsValid mgr.work_queue
  pub finish_wf : WellFormed mgr.finish_queue.queue
  pub sound : Sound (task_in mgr) mgr.locker

-- What holds of the manager when the function returns.
abbrev pub Ends : (MigrateMgr → Type 0) → Run → Type 0
Ends P (returned mgr e) = P mgr
Ends P panics = Unit
Ends P stuck = Unit

-- The invariant reads only the queues and the lock: a change of the preparing queue or of the records.
pub reprepared :
    (mgr mgr' : MigrateMgr)
    → Inv mgr
    → WellFormed mgr'.prepare_queue.queue
    → mgr'.work_queue ≡ mgr.work_queue
    → mgr'.finish_queue ≡ mgr.finish_queue
    → Sound (task_in mgr) mgr'.locker
    → Inv mgr'
reprepared mgr mgr' i wf w f s = record {
  prepare_wf = wf;
  work_valid = subst IsValid (sym w) i.work_valid;
  finish_wf = subst (λ (q : TaskQueue MigrateTask). WellFormed q.queue) (sym f) i.finish_wf;
  sound =
      descends-Sound (task_in mgr) (task_in mgr') mgr'.locker mgr'.locker s
        (λ p t h. (t, sym (same p) ∙ h, refl, refl)) (λ p t h. s.locked p t (sym (same p) ∙ h));
}
  where
    same : (p : Place) → task_in mgr' p ≡ task_in mgr p
    same (at_worker idc id) = ap (λ (x : WorkerTaskQueue MigrateTask). held_at x idc id) w
    same (at_finish id) = ap (λ (x : TaskQueue MigrateTask). held x.queue id) f

module _ (mgr : MigrateMgr) (i : Inv mgr) where
  requeued-Inv :
      (e : Failure) (r : Queue MigrateTask × Option Error)
      → WellFormed r.0
      → Ends Inv (requeued mgr e (or_panic mgr.prepare_queue r))
  requeued-Inv e (q, none) wf = reprepared mgr _ i wf refl refl i.sound
  requeued-Inv e (q, some x) wf = tt

  pub retry_prepare-Inv :
      (task : MigrateTask) (later : ℕ) (e : Failure) → Ends Inv (retry_prepare mgr task later e)
  unfolding retry_prepare retry_task
  retry_prepare-Inv task later e =
      requeued-Inv e
        (requeue mgr.prepare_queue.queue task.task_id mgr.prepare_queue.retry_delay later)
        (requeue_held mgr.prepare_queue.queue task.task_id mgr.prepare_queue.retry_delay later
          i.prepare_wf).0

  pushed-Inv :
      (task : MigrateTask) (tbl : Option TaskTbl) (r : Queue MigrateTask × Option Error)
      → (r.1 ≡ none → WellFormed r.0)
      → Ends Inv (added mgr task tbl (or_panic mgr.prepare_queue r))
  pushed-Inv task none r wf = tt
  pushed-Inv task (some tbl) (q, none) wf = reprepared mgr _ i (wf refl) refl refl i.sound
  pushed-Inv task (some tbl) (q, some e) wf = tt

  pub add_task-Inv : (task : MigrateTask) → Ends Inv (add_task mgr task)
  unfolding add_task push_task
  add_task-Inv task =
      pushed-Inv task (insert_task mgr.task_tbl task)
        (push mgr.prepare_queue.queue task.task_id task)
        (λ ok. (push_held mgr.prepare_queue.queue task.task_id task i.prepare_wf ok).0)
