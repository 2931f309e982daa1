-- ===== src/Scheduler/Locker.antt =====
-- scheduler/vol_task_locker.go: one task at a time works on a volume. The entries of the map have no
-- value; here it is 0. The mutex makes each method one step.
pub mod Exclusion
use cubefs_blobstore.Base.{ℕ, Bool, true, false, Option, none, some, List, [], ◌∷◌}
use cubefs_blobstore.Base.Dict.{Dict, lookup, insert, delete, nat_eq}

pub record VolTaskLocker : Type 0 where
  pub task_map : Dict ℕ ℕ

abbrev pub new_vol_task_locker : VolTaskLocker
new_vol_task_locker = record { task_map = [] }

abbrev pub lock_if : VolTaskLocker → ℕ → Option ℕ → VolTaskLocker × Bool
lock_if m vid none = (record { task_map = insert vid 0 m.task_map }, true)
lock_if m vid (some e) = (m, false)

-- `false` is ErrVidTaskConflict.
unfoldable pub try_lock : VolTaskLocker → ℕ → VolTaskLocker × Bool
try_lock m vid = lock_if m vid (lookup vid m.task_map)

unfoldable pub unlock : VolTaskLocker → ℕ → VolTaskLocker
unlock m vid = record { task_map = delete vid m.task_map }
