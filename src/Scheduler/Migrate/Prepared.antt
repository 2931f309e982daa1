-- ===== src/Scheduler/Migrate/Prepared.antt =====
-- prepareTask of scheduler/migrate.go keeps the invariant, whatever the other services answer.
use Prim.Native.String.{String}
use cubefs_blobstore.Base.{
  ℕ, ◌≡◌, ◌≢◌, ◌⊎◌, inl, inr, refl, sym, ap, subst, ◌∙◌, Bool, Option-cases, Option, none, some,
}
use cubefs_blobstore.Base.Dict.{
  lookup, insert, nat_eq, string_eq, eq_cases, lookup-insert_self, lookup-insert_ne,
  lookup-delete_ne,
}
use cubefs_blobstore.Scheduler.Queue.{pop}
use cubefs_blobstore.Scheduler.Queue.Held.{pop-held, remove-held}
use cubefs_blobstore.Scheduler.TaskQueue.{pop_task, remove_task}
use cubefs_blobstore.Scheduler.WorkerQueue.{WorkerTaskQueue}
use cubefs_blobstore.Scheduler.WorkerQueue.Held.{held_at, AddsTask, add_prepared_task_held}
use cubefs_blobstore.Scheduler.Locker.{try_lock, unlock}
use cubefs_blobstore.Scheduler.Locker.Exclusion.{IsLocked}
use cubefs_blobstore.Scheduler.MigrateTask.{MigrateTask, migrate_worker_task}
use cubefs_blobstore.Scheduler.Migrate.{MigrateMgr, Failure, Answers}
use cubefs_blobstore.Scheduler.Migrate.Table.{TaskTbl}
use cubefs_blobstore.Scheduler.Migrate.Prepare.{
  vol_of, fail_prepare, advanced, in_advance, finish_task_in_advance, sent, send_to_work,
  prepare_popped, prepare_task,
}
use cubefs_blobstore.Scheduler.Migrate.Rule.{prepare_locked_rule}
use cubefs_blobstore.Scheduler.Migrate.Invariant.{Inv, Ends, reprepared, retry_prepare-Inv}
use cubefs_blobstore.Scheduler.Migrate.Places.{
  Place, at_worker, at_finish, task_in, Sound, descends-Sound, adds-Sound,
}

-- A manager that has just locked the volume of a task, which was free.
module _ (mgr : MigrateMgr) (i : Inv mgr) (task : MigrateTask)
    (free : lookup (vol_of task) mgr.locker.task_map ≡ none) where
  abbrev pub locked_mgr : MigrateMgr
  locked_mgr = record mgr {
    locker = record { task_map = insert (vol_of task) 0 mgr.locker.task_map };
  }

  other_volume : (v : ℕ) → IsLocked mgr.locker v → vol_of task ≢ v
  other_volume v l e = l (ap (λ (x : ℕ). lookup x mgr.locker.task_map) (sym e) ∙ free)

  pub stays_locked : (v : ℕ) → IsLocked mgr.locker v → IsLocked locked_mgr.locker v
  stays_locked v l q =
      l (sym (lookup-insert_ne (vol_of task) v 0 mgr.locker.task_map (other_volume v l)) ∙ q)

  pub now_locked : IsLocked locked_mgr.locker (vol_of task)
  now_locked q =
      let there = lookup-insert_self (vol_of task) 0 mgr.locker.task_map in
      let clash : ◌≡◌ {A = Option ℕ} (some 0) none = sym there ∙ q in cc

  unlocked_again :
      (v : ℕ) → IsLocked mgr.locker v → IsLocked (unlock locked_mgr.locker (vol_of task)) v
  unfolding unlock
  unlocked_again v l q =
      stays_locked v l
        (sym (lookup-delete_ne (vol_of task) v locked_mgr.locker.task_map (other_volume v l)) ∙ q)

  relocked-Sound : Sound (task_in mgr) (unlock locked_mgr.locker (vol_of task))
  relocked-Sound =
      descends-Sound (task_in mgr) (task_in mgr) mgr.locker _ i.sound (λ p t h. (t, h, refl, refl))
        (λ p t h. unlocked_again (vol_of t) (i.sound.locked p t h))

  fail_prepare-Inv : (later : ℕ) (e : Failure) → Ends Inv (fail_prepare locked_mgr task later e)
  unfolding fail_prepare
  fail_prepare-Inv later e =
      retry_prepare-Inv (record mgr { locker = unlock locked_mgr.locker (vol_of task) })
        (reprepared mgr _ i i.prepare_wf refl refl relocked-Sound) task later e

  advanced-Inv :
      (task' : MigrateTask) (tbl : Option TaskTbl)
      → vol_of task' ≡ vol_of task
      → Ends Inv (advanced locked_mgr task' tbl)
  unfolding remove_task
  advanced-Inv task' none same = tt
  advanced-Inv task' (some tbl) same =
      reprepared mgr _ i (remove-held mgr.prepare_queue.queue task'.task_id i.prepare_wf).0 refl
        refl
        (subst (λ (v : ℕ). Sound (task_in mgr) (unlock locked_mgr.locker v)) (sym same)
          relocked-Sound)

  finish_task_in_advance-Inv :
      (reason : String) → Ends Inv (finish_task_in_advance locked_mgr task reason)
  unfolding finish_task_in_advance
  finish_task_in_advance-Inv reason = advanced-Inv (in_advance task reason) _ refl

  sent-Inv :
      (task' : MigrateTask) (tbl : Option TaskTbl) (o : Option (WorkerTaskQueue MigrateTask))
      → vol_of task' ≡ vol_of task
      → ((w : WorkerTaskQueue MigrateTask)
          → o ≡ some w
          → AddsTask mgr.work_queue task'.source_idc task'.task_id task' w)
      → Ends Inv (sent locked_mgr task' tbl o)
  unfolding remove_task
  sent-Inv task' none o same adds = tt
  sent-Inv task' (some tbl) none same adds = tt
  sent-Inv task' (some tbl) (some w) same adds =
      let (valid, absent, there, others) = adds w refl in
      record {
        prepare_wf = (remove-held mgr.prepare_queue.queue task'.task_id i.prepare_wf).0;
        work_valid = valid;
        finish_wf = i.finish_wf;
        sound =
            adds-Sound (task_in mgr) _ mgr.locker locked_mgr.locker i.sound
              (at_worker task'.source_idc task'.task_id) task'
              (ap (λ (v : ℕ). lookup v mgr.locker.task_map) same ∙ free) there refl
              (elsewhere others) (subst (IsLocked locked_mgr.locker) (sym same) now_locked)
              stays_locked;
      }
    where
      elsewhere :
          ((idc k : String)
            → (task'.source_idc ≢ idc) ⊎ (task'.task_id ≢ k)
            → held_at w idc k ≡ held_at mgr.work_queue idc k)
          → (p : Place) → at_worker task'.source_idc task'.task_id ≢ p
          → task_in (record mgr { work_queue = w }) p ≡ task_in mgr p
      elsewhere others (at_finish id) ne = refl
      elsewhere others (at_worker idc k) ne = elim (eq_cases task'.source_idc idc) [
        | inr d ↦ others idc k (inl d)
        | inl e ↦ others idc k (inr (λ e'. ne (λ j. at_worker (e j) (e' j))))
      ]

  send_to_work-Inv :
      (task' : MigrateTask) → vol_of task' ≡ vol_of task → Ends Inv (send_to_work locked_mgr task')
  unfolding send_to_work
  send_to_work-Inv task' same = sent-Inv task' _ _ same (λ w e.
      add_prepared_task_held mgr.work_queue w task'.source_idc task'.task_id task' i.work_valid e)

module _ (has_handler : Bool) (answers : Answers) (later : ℕ) (mgr : MigrateMgr) (i : Inv mgr) where
  prepare_popped-Inv :
      (popped : Option (String × MigrateTask))
      → Ends Inv (prepare_popped has_handler answers later mgr popped)
  unfolding prepare_popped try_lock
  prepare_popped-Inv none = i
  prepare_popped-Inv (some (id, task)) =
      elim (Option-cases (lookup (vol_of task) mgr.locker.task_map)) [
        | inl free ↦ rw free (
            prepare_locked_rule (Ends Inv) (locked_mgr mgr i task free) task tt
              (fail_prepare-Inv mgr i task free) (finish_task_in_advance-Inv mgr i task free)
              (send_to_work-Inv mgr i task free) has_handler answers later)
        | inr (e, held_by) ↦ rw held_by (retry_prepare-Inv mgr i task later _)
      ]

pub prepare_task-Inv :
    (has_handler : Bool) (answers : Answers) (later : ℕ) (mgr : MigrateMgr) (now : ℕ)
    → Inv mgr
    → Ends Inv (prepare_task has_handler answers later mgr now)
unfolding prepare_task pop_task
prepare_task-Inv has_handler answers later mgr now i =
    let (same, given) = pop-held mgr.prepare_queue.queue now i.prepare_wf in
    prepare_popped-Inv has_handler answers later
      (record mgr { prepare_queue = (pop_task mgr.prepare_queue now).0 })
      (reprepared mgr _ i same.0 refl refl i.sound) (pop mgr.prepare_queue.queue now).1
