-- ===== src/Scheduler/Migrate/Finished.antt =====
-- finishTask of scheduler/migrate.go keeps the invariant, whatever the other services answer.
use Prim.Native.String.{String}
use cubefs_blobstore.Base.{
  ℕ, ◌≡◌, inl, inr, refl, sym, subst, ◌∙◌, not, Bool-cases, Option-cases, Option, none, some, ◌==◌,
}
use cubefs_blobstore.Base.Dict.{nat_eq, string_eq}
use cubefs_blobstore.Scheduler.Queue.{pop}
use cubefs_blobstore.Scheduler.Queue.Held.{held, pop-held}
use cubefs_blobstore.Scheduler.Task.{VunitLocation}
use cubefs_blobstore.Scheduler.TaskQueue.{pop_task}
use cubefs_blobstore.Scheduler.WorkerQueue.Held.{add_prepared_task_held}
use cubefs_blobstore.Scheduler.MigrateTask.{MigrateTask, migrate_worker_task, work_completed}
use cubefs_blobstore.Scheduler.Migrate.{
  MigrateMgr, Answers, Alloc, granted, refused, same_disk, code_old_vuid_not_match,
}
use cubefs_blobstore.Scheduler.Migrate.Table.{TaskTbl, same_state}
use cubefs_blobstore.Scheduler.Migrate.Finish.{
  redone_task, redo, redo_granted, close, should_alloc_and_redo, handle_update_vol_mapping_fail,
  release_ok, finish_unlock, finish_completed, recorded, finish_popped, finish_task,
}
use cubefs_blobstore.Scheduler.Migrate.Invariant.{Inv, Ends, reprepared}
use cubefs_blobstore.Scheduler.Migrate.Places.{at_finish}
use cubefs_blobstore.Scheduler.Migrate.Preserved.{
  refinished, retry_finish-Inv, sent_back-Inv, closed-Inv,
}

module _ (mgr : MigrateMgr) (i : Inv mgr) (task : MigrateTask)
    (there : held mgr.finish_queue.queue task.task_id ≡ some task) (answers : Answers)
    (later : ℕ) where
  redo-Inv : (unit : VunitLocation) → Ends Inv (redo mgr (redone_task task unit))
  unfolding redo
  redo-Inv unit = sent_back-Inv mgr i task there (redone_task task unit) _ _ refl refl (λ w e.
      add_prepared_task_held mgr.work_queue w task.source_idc task.task_id (redone_task task unit)
        i.work_valid e)

  redo_granted-Inv : (a : Alloc) → Ends Inv (redo_granted mgr task later a)
  unfolding redo_granted
  redo_granted-Inv (refused code) = retry_finish-Inv mgr i task later _
  redo_granted-Inv same_disk = tt
  redo_granted-Inv (granted unit) = redo-Inv unit

  update_fail-Inv :
      (code : ℕ) → Ends Inv (handle_update_vol_mapping_fail answers later mgr task code)
  unfolding handle_update_vol_mapping_fail
  update_fail-Inv code = elim (Bool-cases (code == code_old_vuid_not_match)) [
    | inl old ↦ rw old tt
    | inr other ↦ rw other (elim (Bool-cases (should_alloc_and_redo code)) [
      | inl again ↦ rw again (redo_granted-Inv _)
      | inr failed ↦ rw failed (retry_finish-Inv mgr i task later _)
    ])
  ]

  close-Inv : Ends Inv (close mgr task)
  unfolding close
  close-Inv = closed-Inv mgr i task there _

  finish_unlock-Inv : Ends Inv (finish_unlock answers later mgr task)
  unfolding finish_unlock
  finish_unlock-Inv = elim (Option-cases answers.unlock_volume) [
    | inl ok ↦ rw (ok, finish_unlock) close-Inv
    | inr (code, failed) ↦ rw (failed, finish_unlock) (retry_finish-Inv mgr i task later _)
  ]

  finish_completed-Inv : Ends Inv (finish_completed answers later mgr task)
  unfolding finish_completed
  finish_completed-Inv = elim (Option-cases answers.update_volume) [
    | inr (code, failed) ↦ rw (failed, finish_completed) (update_fail-Inv code)
    | inl ok ↦
        rw (ok, finish_completed)
          (elim (Bool-cases (release_ok answers later answers.release_volume_unit)) [
            | inl released ↦ rw released finish_unlock-Inv
            | inr failed ↦ rw failed (retry_finish-Inv mgr i task later _)
          ])
  ]

module _ (answers : Answers) (later : ℕ) (mgr : MigrateMgr) (i : Inv mgr) where
  recorded-Inv :
      (task : MigrateTask) (tbl : Option TaskTbl)
      → held mgr.finish_queue.queue task.task_id ≡ some task
      → Ends Inv (recorded answers later mgr task tbl)
  recorded-Inv task none there = tt
  recorded-Inv task (some tbl) there =
      finish_completed-Inv (record mgr { task_tbl = tbl })
        (reprepared mgr _ i i.prepare_wf refl refl i.sound) task there answers later

  finish_popped-Inv :
      (popped : Option (String × MigrateTask))
      → ((id : String) (task : MigrateTask)
          → popped ≡ some (id, task)
          → held mgr.finish_queue.queue id ≡ some task)
      → Ends Inv (finish_popped answers later mgr popped)
  unfolding finish_popped
  finish_popped-Inv none given = i
  finish_popped-Inv (some (id, task)) given =
      let named = i.sound.named (at_finish id) task (given id task refl) in
      let there =
        subst (λ (k : String). held mgr.finish_queue.queue k ≡ some task) (sym named)
          (given id task refl) in
      elim (Bool-cases (not (same_state task.state work_completed))) [
        | inl wrong ↦ rw wrong tt
        | inr right ↦ rw right (recorded-Inv task _ there)
      ]

pub finish_task-Inv :
    (answers : Answers) (later : ℕ) (mgr : MigrateMgr) (now : ℕ)
    → Inv mgr
    → Ends Inv (finish_task answers later mgr now)
unfolding finish_task pop_task
finish_task-Inv answers later mgr now i =
    let ((wf, same), given) = pop-held mgr.finish_queue.queue now i.finish_wf in
    finish_popped-Inv answers later
      (record mgr { finish_queue = (pop_task mgr.finish_queue now).0 })
      (refinished mgr (pop mgr.finish_queue.queue now).0 i wf same)
      (pop mgr.finish_queue.queue now).1 (λ id task e. same id ∙ given id task e)
