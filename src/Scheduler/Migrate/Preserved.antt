-- ===== src/Scheduler/Migrate/Preserved.antt =====
-- The ends of finishTask of scheduler/migrate.go keep the invariant: a retry, a task sent back to the
-- workers, and a task that is closed.
use Prim.Native.String.{String}
use cubefs_blobstore.Base.{
  ℕ, ◌≡◌, ◌≢◌, ◌⊎◌, inl, inr, refl, sym, ap, subst, ◌∙◌, Option, none, some,
}
use cubefs_blobstore.Base.Dict.{nat_eq, string_eq, eq_cases, lookup-delete_ne}
use cubefs_blobstore.Scheduler.Queue.{Queue, Error, requeue, remove}
use cubefs_blobstore.Scheduler.Queue.Invariant.{WellFormed}
use cubefs_blobstore.Scheduler.Queue.Held.{held, requeue_held, remove-held}
use cubefs_blobstore.Scheduler.TaskQueue.{or_panic, remove_task, retry_task}
use cubefs_blobstore.Scheduler.WorkerQueue.{WorkerTaskQueue}
use cubefs_blobstore.Scheduler.WorkerQueue.Held.{held_at, AddsTask}
use cubefs_blobstore.Scheduler.Locker.{VolTaskLocker, unlock}
use cubefs_blobstore.Scheduler.Locker.Exclusion.{IsLocked}
use cubefs_blobstore.Scheduler.MigrateTask.{MigrateTask, migrate_worker_task}
use cubefs_blobstore.Scheduler.Migrate.{MigrateMgr, Failure}
use cubefs_blobstore.Scheduler.Migrate.Table.{TaskTbl}
use cubefs_blobstore.Scheduler.Migrate.Prepare.{vol_of}
use cubefs_blobstore.Scheduler.Migrate.Finish.{requeued_finish, retry_finish, sent_back, closed}
use cubefs_blobstore.Scheduler.Migrate.Invariant.{Inv, Ends}
use cubefs_blobstore.Scheduler.Migrate.Places.{
  Place, id_of, at_worker, at_finish, task_in, descends-Sound, moves-Sound, worker-ne-finish,
}

-- An unlock leaves the other volumes locked.
pub unlock_ne : (l : VolTaskLocker) (v u : ℕ) → v ≢ u → IsLocked l u → IsLocked (unlock l v) u
unfolding unlock
unlock_ne l v u ne h q = h (sym (lookup-delete_ne v u l.task_map ne) ∙ q)

-- The finishing queue is put back with the same tasks.
pub refinished :
    (mgr : MigrateMgr) (q : Queue MigrateTask)
    → Inv mgr
    → WellFormed q
    → ((k : String) → held q k ≡ held mgr.finish_queue.queue k)
    → Inv (record mgr { finish_queue = record (mgr.finish_queue) { queue = q } })
refinished mgr q i wf same = record {
  prepare_wf = i.prepare_wf;
  work_valid = i.work_valid;
  finish_wf = wf;
  sound =
      descends-Sound (task_in mgr) (task_in mgr') mgr.locker mgr.locker i.sound
        (λ p t h. (t, sym (same_in p) ∙ h, refl, refl))
        (λ p t h. i.sound.locked p t (sym (same_in p) ∙ h));
}
  where
    mgr' : MigrateMgr
    mgr' = record mgr { finish_queue = record (mgr.finish_queue) { queue = q } }

    same_in : (p : Place) → task_in mgr' p ≡ task_in mgr p
    same_in (at_worker idc id) = refl
    same_in (at_finish id) = same id

module _ (mgr : MigrateMgr) (i : Inv mgr) where
  requeued_finish-Inv :
      (e : Failure) (r : Queue MigrateTask × Option Error)
      → WellFormed r.0
      → ((k : String) → held r.0 k ≡ held mgr.finish_queue.queue k)
      → Ends Inv (requeued_finish mgr e (or_panic mgr.finish_queue r))
  requeued_finish-Inv e (q, none) wf same = refinished mgr q i wf same
  requeued_finish-Inv e (q, some x) wf same = tt

  pub retry_finish-Inv :
      (task : MigrateTask) (later : ℕ) (e : Failure) → Ends Inv (retry_finish mgr task later e)
  unfolding retry_finish retry_task
  retry_finish-Inv task later e =
      let (wf, same) =
        requeue_held mgr.finish_queue.queue task.task_id mgr.finish_queue.retry_delay later
          i.finish_wf in
      requeued_finish-Inv e
        (requeue mgr.finish_queue.queue task.task_id mgr.finish_queue.retry_delay later) wf same

  -- A task that the finishing queue holds under its id.
  module _ (task : MigrateTask) (there : held mgr.finish_queue.queue task.task_id ≡ some task) where
    removed_queue : Queue MigrateTask
    removed_queue = (remove mgr.finish_queue.queue task.task_id).0

    elsewhere_finish :
        (k : String)
        → at_finish task.task_id ≢ at_finish k
        → held (remove mgr.finish_queue.queue task.task_id).0 k ≡ held mgr.finish_queue.queue k
    elsewhere_finish k ne =
        (remove-held mgr.finish_queue.queue task.task_id i.finish_wf).2 k (λ e. ne (ap at_finish e))

    pub sent_back-Inv :
        (task' : MigrateTask) (tbl : Option TaskTbl) (o : Option (WorkerTaskQueue MigrateTask))
        → task'.task_id ≡ task.task_id
        → vol_of task' ≡ vol_of task
        → ((w : WorkerTaskQueue MigrateTask)
            → o ≡ some w
            → AddsTask mgr.work_queue task'.source_idc task.task_id task' w)
        → Ends Inv (sent_back mgr (record task' { task_id = task.task_id }) tbl o)
    unfolding remove_task
    sent_back-Inv task' none o name same adds = tt
    sent_back-Inv task' (some tbl) none name same adds = tt
    sent_back-Inv task' (some tbl) (some w) name same adds =
        let (valid, absent, new, others) = adds w refl in
        let (wf, gone, kept) = remove-held mgr.finish_queue.queue task.task_id i.finish_wf in
        record {
          prepare_wf = i.prepare_wf;
          work_valid = valid;
          finish_wf = wf;
          sound =
              moves-Sound (task_in mgr) _ mgr.locker mgr.locker i.sound (at_finish task.task_id)
                (at_worker task'.source_idc task.task_id) task task' there gone new same name
                (elsewhere others) (λ v l. l);
        }
      where
        elsewhere :
            ((idc k : String)
              → (task'.source_idc ≢ idc) ⊎ (task.task_id ≢ k)
              → held_at w idc k ≡ held_at mgr.work_queue idc k)
            → (p : Place) → at_finish task.task_id ≢ p
            → at_worker task'.source_idc task.task_id ≢ p
            → task_in
                (record mgr {
                  work_queue = w;
                  finish_queue = (remove_task mgr.finish_queue task.task_id).0;
                })
                p
              ≡ task_in mgr p
        elsewhere others (at_finish k) ne ne' = elsewhere_finish k ne
        elsewhere others (at_worker idc k) ne ne' = elim (eq_cases task'.source_idc idc) [
          | inr d ↦ others idc k (inl d)
          | inl e ↦ others idc k (inr (λ e'. ne' (λ j. at_worker (e j) (e' j))))
        ]

    pub closed-Inv : (tbl : Option TaskTbl) → Ends Inv (closed mgr task tbl)
    unfolding remove_task
    closed-Inv none = tt
    closed-Inv (some tbl) =
        let (wf, gone, kept) = remove-held mgr.finish_queue.queue task.task_id i.finish_wf in
        record {
          prepare_wf = i.prepare_wf;
          work_valid = i.work_valid;
          finish_wf = wf;
          sound =
              descends-Sound (task_in mgr) (task_in after) mgr.locker
                (unlock mgr.locker (vol_of task)) i.sound (λ p t h. (t, (old p t h).0, refl, refl))
                still;
        }
      where
        after : MigrateMgr
        after = record mgr { finish_queue = (remove_task mgr.finish_queue task.task_id).0 }

        old :
            (p : Place) (t : MigrateTask)
            → task_in after p ≡ some t
            → (task_in mgr p ≡ some t) × (at_finish task.task_id ≢ p)
        old (at_worker idc k) t h = (h, λ e. worker-ne-finish idc k task.task_id (sym e))
        old (at_finish k) t h = elim (eq_cases task.task_id k) [
          | inl e ↦
              let (wf, gone, kept) = remove-held mgr.finish_queue.queue task.task_id i.finish_wf in
              absurd (
                no_task (
                  sym (
                    subst
                      (λ (j : String). held (remove mgr.finish_queue.queue task.task_id).0 j ≡ none)
                      e gone)
                  ∙ h))
          | inr ne ↦
              let apart : at_finish task.task_id ≢ at_finish k = λ e. ne (ap id_of e) in
              (sym (elsewhere_finish k apart) ∙ h, apart)
        ]
          where
            no_task : {x : MigrateTask} → none ≡ some x → ⊥
            no_task e = cc

        still :
            (p : Place) (t : MigrateTask)
            → task_in after p ≡ some t
            → IsLocked (unlock mgr.locker (vol_of task)) (vol_of t)
        still p t h =
            let (h', apart) = old p t h in
            unlock_ne mgr.locker (vol_of task) (vol_of t)
              (λ e. apart (i.sound.single (at_finish task.task_id) p task t there h' e))
              (i.sound.locked p t h')
