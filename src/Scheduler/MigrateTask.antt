-- ===== src/Scheduler/MigrateTask.antt =====
-- common/proto/scheduler_types.go: the task that moves a unit of a volume to another disk.
use Prim.Native.String.{String}
use cubefs_blobstore.Base.{ℕ, Bool, true, false, refl, List}
use cubefs_blobstore.Scheduler.Task.{VunitLocation, WorkerTask}

-- MigrateSate
pub data MigrateState : Type 0 where
  inited prepared work_completed finished finished_in_advance : MigrateState

-- The times and the flag of direct download are only stored and shown.
pub record MigrateTask : Type 0 where
  pub task_id : String
  pub state : MigrateState
  pub worker_redo_cnt : ℕ
  pub source_idc : String
  pub source_disk_id : ℕ
  pub source_vuid : ℕ
  pub sources : List VunitLocation
  pub code_mode : ℕ
  pub destination : VunitLocation
  pub finish_advance_reason : String

-- GetSrc, GetDest and SetDest.
instance abbrev pub migrate_worker_task : WorkerTask MigrateTask
migrate_worker_task = record {
  get_src = λ t. t.sources;
  get_dest = λ t. t.destination;
  set_dest = λ t dest. record t { destination = dest };
  get_dest-set_dest = λ t dest. refl;
}

abbrev pub is_running : MigrateState → Bool
is_running prepared = true
is_running work_completed = true
is_running _ = false

abbrev pub is_finished : MigrateState → Bool
is_finished finished = true
is_finished finished_in_advance = true
is_finished _ = false

unfoldable pub running : MigrateTask → Bool
running t = is_running t.state

unfoldable pub finished_task : MigrateTask → Bool
finished_task t = is_finished t.state
