-- ===== src/Scheduler/Migrate/Tests.antt =====
-- The theorems on scheduler/migrate.go at a manager with one task.
use cubefs_blobstore.Base.{◌≡◌, ◌≢◌, refl, true, false, none, some, [], ◌∷◌}
use cubefs_blobstore.Base.Int.{pos}
use cubefs_blobstore.Base.Dict.{lookup, insert, delete, string_eq, nat_eq}
use cubefs_blobstore.Proto.Vuid.{vid, index}
use cubefs_blobstore.Scheduler.Queue.{
  new_queue, push, pop, remove, deref, find_expired, renew_at, lease_at,
}
use cubefs_blobstore.Scheduler.Task.{
  VunitLocation, check_valid, vunit_slice_equal, units_match, location_eq,
}
use cubefs_blobstore.Scheduler.TaskQueue.{new_task_queue, push_task, pop_task, remove_task}
use cubefs_blobstore.Scheduler.WorkerQueue.{new_worker_task_queue, add_prepared_task}
use cubefs_blobstore.Scheduler.Locker.{new_vol_task_locker, try_lock, unlock}
use cubefs_blobstore.Scheduler.Locker.Exclusion.{IsLocked}
use cubefs_blobstore.Scheduler.MigrateTask.{MigrateTask, migrate_worker_task, inited, prepared}
use cubefs_blobstore.Scheduler.Migrate.{
  MigrateMgr, Run, returned, panics, stuck, Answers, value, error, is_migrating_disk,
  add_migrating_vuid, alloc_vunit_safe, on_same_disk,
}
use cubefs_blobstore.Scheduler.Migrate.Table.{insert_task, update, same_state, state_code}
use cubefs_blobstore.Scheduler.Migrate.Prepare.{
  vol_of, add_task, prepare_task, prepare_popped, prepare_locked, prepare_unit, prepare_current,
  prepare_moved, prepare_granted, send_to_work, finish_task_in_advance,
}
use cubefs_blobstore.Scheduler.Migrate.Workers.{table_error, complete_task}
use cubefs_blobstore.Scheduler.Migrate.Places.{Place, at_worker, task_in}
use cubefs_blobstore.Scheduler.Migrate.Exclusive.{
  new_migrate_mgr, Reach, here, next, adds, prepares, volume_to_itself, Reach-Inv, fresh-Inv,
}
use cubefs_blobstore.Scheduler.Migrate.Failed.{Unchanged, OnError, prepare_task-Unchanged}
use cubefs_blobstore.Scheduler.Migrate.Lost.{complete_task_lost}
use cubefs_blobstore.Scheduler.Migrate.Counted.{disk_stays_migrating}

-- Unit 0 of volume 1, at epoch 1.
abbrev source : VunitLocation
source = record { vuid = 4294967297; host = "h1"; disk_id = 10 }

abbrev target : VunitLocation
target = record { vuid = 4294967298; host = "h2"; disk_id = 20 }

abbrev task : MigrateTask
task = record {
  task_id = "t";
  state = inited;
  worker_redo_cnt = 0;
  source_idc = "z0";
  source_disk_id = 10;
  source_vuid = 4294967297;
  sources = [];
  code_mode = 1;
  destination = source;
  finish_advance_reason = "";
}

abbrev answers : Answers
answers = record {
  volume_info = value (record { code_mode = 1; vunit_locations = source ∷ [] });
  lock_volume = none;
  unlock_volume = none;
  alloc_volume_unit = value target;
  update_volume = none;
  release_volume_unit = none;
  tinker_hosts = some [];
  tinker_updates = λ host. true;
}

abbrev state_of : MigrateMgr → Run → MigrateMgr
state_of d (returned mgr e) = mgr
state_of d panics = d
state_of d stuck = d

abbrev empty : MigrateMgr
empty = new_migrate_mgr [] new_vol_task_locker (pos 60) (pos 60) (pos 60)

abbrev with_task : MigrateMgr
with_task = state_of empty (add_task empty task)

abbrev at_work : MigrateMgr
at_work = state_of with_task (prepare_task true answers 0 with_task 5)

abbrev given : MigrateTask
given = record task { sources = source ∷ []; destination = target; state = prepared }

added_history : Reach empty with_task
unfolding new_migrate_mgr new_task_queue new_worker_task_queue new_queue add_task insert_task
    push_task push lookup insert add_migrating_vuid
added_history = next here (adds task none refl)

prepared_history : Reach empty at_work
unfolding new_migrate_mgr new_task_queue new_worker_task_queue new_queue add_task insert_task
    push_task push lookup insert delete add_migrating_vuid prepare_task pop_task pop find_expired
    renew_at lease_at prepare_popped try_lock prepare_locked prepare_unit prepare_current
    prepare_moved prepare_granted send_to_work alloc_vunit_safe on_same_disk update same_state
    state_code add_prepared_task remove_task remove deref vid index
prepared_history = next (next here (adds task none refl)) (prepares true answers 5 0 none refl)

given-at_work : task_in at_work (at_worker "z0" "t") ≡ some given
unfolding new_migrate_mgr new_task_queue new_worker_task_queue new_queue add_task insert_task
    push_task push lookup insert delete add_migrating_vuid prepare_task pop_task pop find_expired
    renew_at lease_at prepare_popped try_lock prepare_locked prepare_unit prepare_current
    prepare_moved prepare_granted send_to_work alloc_vunit_safe on_same_disk update same_state
    state_code add_prepared_task remove_task remove deref vid index
given-at_work = refl

volume_to_itself_example :
    IsLocked at_work.locker (vol_of given)
    × (vol_of given ≡ vol_of given → at_worker "z0" "t" ≡ at_worker "z0" "t")
volume_to_itself_example =
    volume_to_itself [] new_vol_task_locker (pos 60) (pos 60) (pos 60) prepared_history
      (at_worker "z0" "t") (at_worker "z0" "t") given given given-at_work given-at_work

-- The cluster manager is not reached.
abbrev no_answer : Answers
no_answer = record answers { volume_info = error 500 }

prepare_task-Unchanged_example :
    OnError (Unchanged with_task) (prepare_task true no_answer 0 with_task 5)
prepare_task-Unchanged_example =
    prepare_task-Unchanged true no_answer 0 with_task 5
      (Reach-Inv (fresh-Inv [] new_vol_task_locker (pos 60) (pos 60) (pos 60))
        added_history).prepare_wf

fits : check_valid given (source ∷ []) target ≡ none
unfolding check_valid vunit_slice_equal units_match location_eq
fits = refl

complete_task_lost_example :
    ((complete_task false at_work "z0" "t" (source ∷ []) target).1 ≡ table_error)
    × ((p : Place) (t' : MigrateTask)
        → task_in (complete_task false at_work "z0" "t" (source ∷ []) target).0 p ≡ some t'
        → vol_of t' ≢ vol_of given)
    × ((complete_task false at_work "z0" "t" (source ∷ []) target).0.prepare_queue
        ≡ at_work.prepare_queue)
    × IsLocked (complete_task false at_work "z0" "t" (source ∷ []) target).0.locker (vol_of given)
complete_task_lost_example =
    complete_task_lost at_work
      (Reach-Inv (fresh-Inv [] new_vol_task_locker (pos 60) (pos 60) (pos 60)) prepared_history)
      "z0" "t" (source ∷ []) target given given-at_work fits

-- The source unit has moved, so that the task is finished in advance.
abbrev moved_away : Answers
moved_away = record answers {
  volume_info = value (record { code_mode = 1; vunit_locations = target ∷ [] });
}

abbrev in_advance : MigrateMgr
in_advance = state_of with_task (prepare_task true moved_away 0 with_task 5)

disk_stays_migrating_example : is_migrating_disk in_advance.migrating 10 ≡ true
unfolding new_migrate_mgr new_task_queue new_worker_task_queue new_queue add_task insert_task
    push_task push lookup insert delete add_migrating_vuid prepare_task pop_task pop find_expired
    renew_at lease_at prepare_popped try_lock prepare_locked prepare_unit prepare_current
    prepare_moved prepare_granted send_to_work alloc_vunit_safe on_same_disk update same_state
    state_code add_prepared_task remove_task remove deref vid index finish_task_in_advance unlock
disk_stays_migrating_example =
    disk_stays_migrating task empty with_task in_advance true moved_away 0 5 none none refl refl
