-- ===== src/Scheduler/Migrate.antt =====
-- scheduler/migrate.go: a migration waits to be prepared, is worked on by a worker, and is finished; a
-- queue for each. Each function of the manager is one step; the other services' answers to it are its
-- argument, and `now` and `later` are what time.Now() gives.
pub mod Table
pub mod Prepare
pub mod Finish
pub mod Workers
pub mod Places
pub mod Invariant
pub mod Rule
pub mod Prepared
pub mod Preserved
pub mod Finished
pub mod Worked
pub mod Loaded
pub mod Exclusive
pub mod Failed
pub mod Lost
pub mod Counted
mod Tests
use Prim.Native.String.{String}
use cubefs_blobstore.Base.{
  ℕ, ◌+◌, Bool, true, false, ◌&&◌, not, Option, none, some, List, [], ◌∷◌, ◌==◌, if◌then◌else◌,
}
use cubefs_blobstore.Base.Dict.{Dict, Eq, lookup, insert, delete, nat_eq, string_eq}
use cubefs_blobstore.Base.Int.{ℤ}
use cubefs_blobstore.Proto.Vuid.{index}
use cubefs_blobstore.Scheduler.Task.{VunitLocation}
use cubefs_blobstore.Scheduler.MigrateTask.{MigrateTask, migrate_worker_task}
use cubefs_blobstore.Scheduler.TaskQueue.{TaskQueue, new_task_queue}
use cubefs_blobstore.Scheduler.WorkerQueue.{WorkerTaskQueue, new_worker_task_queue}
use cubefs_blobstore.Scheduler.Locker.{VolTaskLocker}
use cubefs_blobstore.Scheduler.Migrate.Table.{TaskTbl}

-- diskMigratingVuids: by disk, the units that move away from it, each with its task.
abbrev pub DiskMigratingVuids : Type 0
DiskMigratingVuids = Dict ℕ (Dict ℕ String)

abbrev pub units_of : Option (Dict ℕ String) → Dict ℕ String
units_of none = []
units_of (some units) = units

unfoldable pub add_migrating_vuid : DiskMigratingVuids → ℕ → ℕ → String → DiskMigratingVuids
add_migrating_vuid m disk_id vuid task_id =
    insert disk_id (insert vuid task_id (units_of (lookup disk_id m))) m

abbrev pub put_units : DiskMigratingVuids → ℕ → Dict ℕ String → DiskMigratingVuids
put_units m disk_id [] = delete disk_id m
put_units m disk_id (u ∷ units) = insert disk_id (u ∷ units) m

unfoldable pub delete_migrating_vuid : DiskMigratingVuids → ℕ → ℕ → DiskMigratingVuids
delete_migrating_vuid m disk_id vuid =
    put_units m disk_id (delete vuid (units_of (lookup disk_id m)))

abbrev pub is_some {ℓ} : {A : Type ℓ} → Option A → Bool
is_some none = false
is_some (some a) = true

unfoldable pub is_migrating_disk : DiskMigratingVuids → ℕ → Bool
is_migrating_disk m disk_id = is_some (lookup disk_id m)

-- The manager with what its functions read and write: the locker of all managers, and the table.
pub record MigrateMgr : Type 0 where
  pub migrating : DiskMigratingVuids
  pub task_tbl : TaskTbl
  pub prepare_queue : TaskQueue MigrateTask
  pub work_queue : WorkerTaskQueue MigrateTask
  pub finish_queue : TaskQueue MigrateTask
  pub locker : VolTaskLocker
  pub finished_count : ℕ

pub data Failure : Type 0 where
  no_task_in_queue vol_not_only_one_task notify_tinker_update_vol table_failed : Failure
  answered : ℕ → Failure

-- How a function ends: it returns, the process panics, or it retries a write to the table for ever.
pub data Run : Type 0 where
  returned : MigrateMgr → Option Failure → Run
  panics : Run
  stuck : Run

-- What a client call gives: a value, or the status code of an error.
pub data Reply (A : Type 0) : Type 0 where
  value : A → Reply A
  error : ℕ → Reply A

pub record VolumeInfo : Type 0 where
  pub code_mode : ℕ
  pub vunit_locations : List VunitLocation

-- The answers of the cluster manager and of the tinkers; for a call with no value, the code of the error
-- if there is one.
pub record Answers : Type 0 where
  pub volume_info : Reply VolumeInfo
  pub lock_volume : Option ℕ
  pub unlock_volume : Option ℕ
  pub alloc_volume_unit : Reply VunitLocation
  pub update_volume : Option ℕ
  pub release_volume_unit : Option ℕ
  pub tinker_hosts : Option (List String)
  pub tinker_updates : String → Bool

abbrev pub code_disk_broken : ℕ
code_disk_broken = 613

abbrev pub code_vuid_not_found : ℕ
code_vuid_not_found = 621

abbrev pub code_lock_not_allow : ℕ
code_lock_not_allow = 902

abbrev pub code_old_vuid_not_match : ℕ
code_old_vuid_not_match = 918

abbrev pub code_new_vuid_not_match : ℕ
code_new_vuid_not_match = 919

abbrev pub code_stat_chunk_failed : ℕ
code_stat_chunk_failed = 927

pub data Alloc : Type 0 where
  granted : VunitLocation → Alloc
  refused : ℕ → Alloc
  same_disk : Alloc

-- The safety check: no other unit of the volume is on the disk of the new one.
unfoldable pub on_same_disk : VunitLocation → List VunitLocation → Bool
on_same_disk unit [] = false
on_same_disk unit (repl ∷ replicas) =
    let rest = on_same_disk unit replicas in
    if index repl.vuid == index unit.vuid
    then rest
    else if repl.disk_id == unit.disk_id
    then true
    else rest

unfoldable pub alloc_vunit_safe : Reply VunitLocation → List VunitLocation → Alloc
alloc_vunit_safe (error code) replicas = refused code
alloc_vunit_safe (value unit) replicas =
    if on_same_disk unit replicas then same_disk else granted unit
