-- ===== src/Scheduler/Migrate/Rule.antt =====
-- What prepareTask of scheduler/migrate.go does with a task whose volume it has locked ends in one of four
-- ways: an error, a task that is finished in advance, one that is sent to the workers, or a panic.
use Prim.Native.String.{String}
use cubefs_blobstore.Base.{
  ℕ, ◌≡◌, inl, inr, refl, Bool, true, false, not, Bool-cases, Option-cases, Option, none, some,
  ◌==◌, if◌then◌else◌,
}
use cubefs_blobstore.Base.Dict.{nat_eq, string_eq}
use cubefs_blobstore.Scheduler.Task.{VunitLocation}
use cubefs_blobstore.Scheduler.MigrateTask.{MigrateTask, migrate_worker_task}
use cubefs_blobstore.Scheduler.Migrate.{
  MigrateMgr, Failure, Run, panics, Answers, VolumeInfo, value, error, Alloc, granted, refused,
  same_disk, Reply,
}
use cubefs_blobstore.Scheduler.Migrate.Prepare.{
  vol_of, fail_prepare, finish_task_in_advance, send_to_work, prepared_task, prepare_granted,
  prepare_current, prepare_moved, prepare_unit, prepare_locked,
}

module _ (P : Run → Type 0) (mgr : MigrateMgr) (task : MigrateTask) (on_panic : P panics)
    (on_error : (later : ℕ) (e : Failure) → P (fail_prepare mgr task later e))
    (on_advance : (reason : String) → P (finish_task_in_advance mgr task reason))
    (on_send : (task' : MigrateTask) → vol_of task' ≡ vol_of task → P (send_to_work mgr task'))
    (has_handler : Bool) (answers : Answers) (later : ℕ) where
  granted_rule : (info : VolumeInfo) (a : Alloc) → P (prepare_granted mgr task info later a)
  unfolding prepare_granted
  granted_rule info (refused code) = on_error later _
  granted_rule info same_disk = on_panic
  granted_rule info (granted unit) = on_send (prepared_task task info unit) refl

  in_advance_if :
      (b : Bool) (e : Failure)
      → P (
          if b
          then finish_task_in_advance mgr task "lock volume fail"
          else fail_prepare mgr task later e)
  in_advance_if true e = on_advance "lock volume fail"
  in_advance_if false e = on_error later e

  current_rule : (info : VolumeInfo) → P (prepare_current has_handler answers later mgr task info)
  unfolding prepare_current
  current_rule info = elim (Option-cases answers.lock_volume) [
    | inl ok ↦ rw (ok, prepare_current) (granted_rule info _)
    | inr (code, failed) ↦ rw (failed, prepare_current) (in_advance_if _ _)
  ]

  moved_rule : P (prepare_moved has_handler answers later mgr task)
  unfolding prepare_moved
  moved_rule = elim (Option-cases answers.unlock_volume) [
    | inl ok ↦ rw (ok, prepare_moved) (on_advance "volume has migrated")
    | inr (code, failed) ↦ rw (failed, prepare_moved) (on_error later _)
  ]

  unit_rule :
      (info : VolumeInfo) (o : Option VunitLocation)
      → P (prepare_unit has_handler answers later mgr task info o)
  unfolding prepare_unit
  unit_rule info none = on_panic
  unit_rule info (some unit) = elim (Bool-cases (not (task.source_vuid == unit.vuid))) [
    | inl moved ↦ rw moved moved_rule
    | inr current ↦ rw current (current_rule info)
  ]

  reply_rule :
      (r : Reply VolumeInfo)
      → answers.volume_info ≡ r
      → P (prepare_locked has_handler answers later mgr task)
  unfolding prepare_locked
  reply_rule (error code) e = rw (e, prepare_locked) (on_error later _)
  reply_rule (value info) e = rw (e, prepare_locked) (unit_rule info _)

  pub prepare_locked_rule : P (prepare_locked has_handler answers later mgr task)
  prepare_locked_rule = reply_rule answers.volume_info refl
