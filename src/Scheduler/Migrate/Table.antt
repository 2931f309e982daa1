-- ===== src/Scheduler/Migrate/Table.antt =====
-- scheduler/db/migrate_task_tbl.go: the documents of the table by task id, each with its delete mark.
use Prim.Native.String.{String}
use cubefs_blobstore.Base.{
  Bool, false, ◌||◌, Option, none, some, List, [], ◌∷◌, if◌then◌else◌, ◌==◌, ℕ,
}
use cubefs_blobstore.Base.Dict.{Dict, lookup, insert, string_eq}
use cubefs_blobstore.Scheduler.MigrateTask.{
  MigrateTask, MigrateState, inited, prepared, work_completed, finished, finished_in_advance,
}

abbrev pub TaskTbl : Type 0
TaskTbl = Dict String (MigrateTask × Bool)

-- The numbers of the states.
unfoldable pub state_code : MigrateState → ℕ
state_code inited = 1
state_code prepared = 2
state_code work_completed = 3
state_code finished = 4
state_code finished_in_advance = 5

unfoldable pub same_state : MigrateState → MigrateState → Bool
unfolding state_code
same_state a b = state_code a == state_code b

-- FindOneAndReplace of the document that has the id and one of the two states; the new document has no
-- delete mark. `none` is an error: there is no such document.
abbrev replaced :
    TaskTbl → MigrateState → MigrateTask → Option (MigrateTask × Bool) → Option TaskTbl
replaced tbl old_state task none = none
replaced tbl old_state task (some (doc, marked)) =
    if same_state doc.state old_state || same_state doc.state task.state
    then some (insert task.task_id (task, false) tbl)
    else none

unfoldable pub update : TaskTbl → MigrateState → MigrateTask → Option TaskTbl
unfolding same_state
update tbl old_state task = replaced tbl old_state task (lookup task.task_id tbl)

abbrev inserted : TaskTbl → MigrateTask → Option (MigrateTask × Bool) → Option TaskTbl
inserted tbl task none = some (insert task.task_id (task, false) tbl)
inserted tbl task (some doc) = none

-- `none` is the error on a duplicate key.
unfoldable pub insert_task : TaskTbl → MigrateTask → Option TaskTbl
insert_task tbl task = inserted tbl task (lookup task.task_id tbl)

unfoldable pub mark_delete_by_disk_id : TaskTbl → ℕ → TaskTbl
mark_delete_by_disk_id [] disk_id = []
mark_delete_by_disk_id ((id, (doc, marked)) ∷ tbl) disk_id =
    (id, (doc, marked || (doc.source_disk_id == disk_id))) ∷ mark_delete_by_disk_id tbl disk_id

abbrev has_state : MigrateState → List MigrateState → Bool
has_state s [] = false
has_state s (t ∷ states) = same_state s t || has_state s states

unfoldable pub mark_delete_by_states : TaskTbl → List MigrateState → TaskTbl
unfolding same_state
mark_delete_by_states [] states = []
mark_delete_by_states ((id, (doc, marked)) ∷ tbl) states =
    (id, (doc, marked || has_state doc.state states)) ∷ mark_delete_by_states tbl states

-- The documents without a delete mark.
unfoldable pub find_all : TaskTbl → List MigrateTask
find_all [] = []
find_all ((id, (doc, marked)) ∷ tbl) = if marked then find_all tbl else doc ∷ find_all tbl
