-- ===== src/Scheduler/Migrate/Exclusive.antt =====
-- Histories of a migration manager of scheduler/migrate.go: its own functions, whatever the other services
-- answer, and what the other managers do to the lock on volumes, where they unlock no volume that is in use
-- here.
use Prim.Native.String.{String}
use cubefs_blobstore.Base.{
  ℕ, ◌≡◌, ◌≢◌, inl, inr, refl, sym, ap, subst, ◌∙◌, Bool, Option, none, some, List, [],
}
use cubefs_blobstore.Base.Dict.{lookup, nat_eq, string_eq, eq_cases, lookup-insert_ne}
use cubefs_blobstore.Base.Int.{ℤ}
use cubefs_blobstore.Scheduler.Queue.{new_queue, deref}
use cubefs_blobstore.Scheduler.Queue.Invariant.{new_queue-WellFormed}
use cubefs_blobstore.Scheduler.Task.{VunitLocation}
use cubefs_blobstore.Scheduler.TaskQueue.{new_task_queue}
use cubefs_blobstore.Scheduler.WorkerQueue.{new_worker_task_queue}
use cubefs_blobstore.Scheduler.Locker.{VolTaskLocker, lock_if, try_lock, unlock}
use cubefs_blobstore.Scheduler.Locker.Exclusion.{IsLocked}
use cubefs_blobstore.Scheduler.MigrateTask.{MigrateTask, migrate_worker_task}
use cubefs_blobstore.Scheduler.Migrate.{MigrateMgr, Failure, Run, returned, Answers}
use cubefs_blobstore.Scheduler.Migrate.Table.{TaskTbl}
use cubefs_blobstore.Scheduler.Migrate.Prepare.{vol_of, add_task, prepare_task}
use cubefs_blobstore.Scheduler.Migrate.Finish.{finish_task}
use cubefs_blobstore.Scheduler.Migrate.Workers.{
  acquire_task, cancel_task, renewal_task, reclaim_task, complete_task, load,
}
use cubefs_blobstore.Scheduler.Migrate.Places.{Place, at_worker, at_finish, task_in, descends-Sound}
use cubefs_blobstore.Scheduler.Migrate.Invariant.{Inv, Ends, reprepared, add_task-Inv}
use cubefs_blobstore.Scheduler.Migrate.Prepared.{prepare_task-Inv}
use cubefs_blobstore.Scheduler.Migrate.Preserved.{unlock_ne}
use cubefs_blobstore.Scheduler.Migrate.Finished.{finish_task-Inv}
use cubefs_blobstore.Scheduler.Migrate.Loaded.{load-Inv}
use cubefs_blobstore.Scheduler.Migrate.Worked.{
  acquire_task-Inv, cancel_task-Inv, renewal_task-Inv, reclaim_task-Inv, complete_task-Inv,
}

-- A manager as NewMigrateMgr makes it, over a table and the lock of all managers.
unfoldable pub new_migrate_mgr : TaskTbl → VolTaskLocker → ℤ → ℤ → ℤ → MigrateMgr
new_migrate_mgr tbl locker prepare_delay cancel_punish finish_delay = record {
  migrating = [];
  task_tbl = tbl;
  prepare_queue = new_task_queue prepare_delay;
  work_queue = new_worker_task_queue cancel_punish;
  finish_queue = new_task_queue finish_delay;
  locker = locker;
  finished_count = 0;
}

-- A function that panics, or does not return, is no step. The other managers lock any volume. `other_unlocks`
-- assumes that they unlock no volume of a task that is with the workers or waits to be finished here.
pub data Step (mgr : MigrateMgr) : MigrateMgr → Type 0 where
  loads : {mgr' : MigrateMgr} → load mgr ≡ some mgr' → Step mgr mgr'
  adds :
      {mgr' : MigrateMgr} (task : MigrateTask) (e : Option Failure)
      → add_task mgr task ≡ returned mgr' e
      → Step mgr mgr'
  prepares :
      {mgr' : MigrateMgr} (has_handler : Bool) (answers : Answers) (now later : ℕ)
      (e : Option Failure)
      → prepare_task has_handler answers later mgr now ≡ returned mgr' e
      → Step mgr mgr'
  finishes :
      {mgr' : MigrateMgr} (answers : Answers) (now later : ℕ) (e : Option Failure)
      → finish_task answers later mgr now ≡ returned mgr' e
      → Step mgr mgr'
  acquires :
      (enabled : Bool) (idc : String) (now : ℕ) → Step mgr (acquire_task mgr enabled idc now).0
  cancels :
      (idc id : String) (src : List VunitLocation) (dst : VunitLocation) (now : ℕ)
      → Step mgr (cancel_task mgr idc id src dst now).0
  renews :
      (enabled : Bool) (idc id : String) (now : ℕ)
      → Step mgr (renewal_task mgr enabled idc id now).0
  reclaims :
      (reachable : Bool) (idc id : String) (src : List VunitLocation)
      (old_dst new_dst : VunitLocation) (now : ℕ)
      → Step mgr (reclaim_task reachable mgr idc id src old_dst new_dst now).0
  completes :
      (reachable : Bool) (idc id : String) (src : List VunitLocation) (dst : VunitLocation)
      → Step mgr (complete_task reachable mgr idc id src dst).0
  other_locks : (v : ℕ) → Step mgr (record mgr { locker = (try_lock mgr.locker v).0 })
  other_unlocks :
      (v : ℕ)
      → ((p : Place) (t : MigrateTask) → task_in mgr p ≡ some t → v ≢ vol_of t)
      → Step mgr (record mgr { locker = unlock mgr.locker v })

pub data Reach (mgr : MigrateMgr) : MigrateMgr → Type 0 where
  here : Reach mgr mgr
  next : {mgr' mgr'' : MigrateMgr} → Reach mgr mgr' → Step mgr' mgr'' → Reach mgr mgr''

relocked-Inv :
    (mgr : MigrateMgr) (l : VolTaskLocker)
    → Inv mgr
    → ((p : Place) (t : MigrateTask) → task_in mgr p ≡ some t → IsLocked l (vol_of t))
    → Inv (record mgr { locker = l })
relocked-Inv mgr l i still = reprepared mgr _ i i.prepare_wf refl refl (
    descends-Sound (task_in mgr) (task_in mgr) mgr.locker l i.sound (λ p t h. (t, h, refl, refl))
      still)

lock_if-keeps :
    (l : VolTaskLocker) (v u : ℕ) (o : Option ℕ)
    → lookup v l.task_map ≡ o
    → IsLocked l u
    → IsLocked (lock_if l v o).0 u
lock_if-keeps l v u (some e) h locked = locked
lock_if-keeps l v u none h locked = elim (eq_cases v u) [
  | inl e ↦ λ q. absurd (locked (ap (λ (x : ℕ). lookup x l.task_map) (sym e) ∙ h))
  | inr ne ↦ λ q. locked (sym (lookup-insert_ne v u 0 l.task_map ne) ∙ q)
]

try_lock-keeps : (l : VolTaskLocker) (v u : ℕ) → IsLocked l u → IsLocked (try_lock l v).0 u
unfolding try_lock
try_lock-keeps l v u h = lock_if-keeps l v u (lookup v l.task_map) refl h

ended :
    (r : Run) (mgr : MigrateMgr) (e : Option Failure) → Ends Inv r → r ≡ returned mgr e → Inv mgr
ended r mgr e i h = subst (Ends Inv) h i

Step-Inv : {mgr mgr' : MigrateMgr} → Inv mgr → Step mgr mgr' → Inv mgr'
Step-Inv i (loads h) = load-Inv i h
Step-Inv {mgr} i (adds {mgr'} task e h) = ended _ mgr' e (add_task-Inv mgr i task) h
Step-Inv {mgr} i (prepares {mgr'} has_handler answers now later e h) =
    ended _ mgr' e (prepare_task-Inv has_handler answers later mgr now i) h
Step-Inv {mgr} i (finishes {mgr'} answers now later e h) =
    ended _ mgr' e (finish_task-Inv answers later mgr now i) h
Step-Inv {mgr} i (acquires enabled idc now) = acquire_task-Inv mgr i enabled idc now
Step-Inv {mgr} i (cancels idc id src dst now) = cancel_task-Inv mgr i idc id src dst now
Step-Inv {mgr} i (renews enabled idc id now) = renewal_task-Inv mgr i enabled idc id now
Step-Inv {mgr} i (reclaims reachable idc id src old_dst new_dst now) =
    reclaim_task-Inv mgr i reachable idc id src old_dst new_dst now
Step-Inv {mgr} i (completes reachable idc id src dst) =
    complete_task-Inv mgr i reachable idc id src dst
Step-Inv {mgr} i (other_locks v) =
    relocked-Inv mgr _ i (λ p t h. try_lock-keeps mgr.locker v (vol_of t) (i.sound.locked p t h))
Step-Inv {mgr} i (other_unlocks v others) =
    relocked-Inv mgr _ i
      (λ p t h. unlock_ne mgr.locker v (vol_of t) (others p t h) (i.sound.locked p t h))

pub Reach-Inv : {mgr mgr' : MigrateMgr} → Inv mgr → Reach mgr mgr' → Inv mgr'
Reach-Inv i here = i
Reach-Inv i (next r s) = Step-Inv (Reach-Inv i r) s

module _ (tbl : TaskTbl) (locker : VolTaskLocker)
    (prepare_delay cancel_punish finish_delay : ℤ) where
  abbrev pub fresh : MigrateMgr
  fresh = new_migrate_mgr tbl locker prepare_delay cancel_punish finish_delay

  nowhere : (p : Place) → task_in fresh p ≡ none
  unfolding new_migrate_mgr new_task_queue new_worker_task_queue new_queue lookup deref
  nowhere (at_worker idc id) = refl
  nowhere (at_finish id) = refl

  not_there : (p : Place) (t : MigrateTask) → task_in fresh p ≡ some t → ⊥
  not_there p t h = let clash : none ≡ some t = sym (nowhere p) ∙ h in cc

  pub fresh-Inv : Inv fresh
  unfolding new_migrate_mgr new_task_queue new_worker_task_queue lookup
  fresh-Inv = record {
    prepare_wf = new_queue-WellFormed 0;
    work_valid = record { queues = λ idc q h. absurd (cc) };
    finish_wf = new_queue-WellFormed 0;
    sound = record {
      named = λ p t h. absurd (not_there p t h);
      locked = λ p t h. absurd (not_there p t h);
      single = λ p p' t t' h h' e. absurd (not_there p t h);
    };
  }

  -- In any history of a new manager, of its own functions, Load among them, whatever the other services
  -- answer, and of other managers that lock any volume and unlock none of a task that is with the workers or
  -- waits to be finished here: such a task has its volume locked, and no other such task is of that volume.
  pub volume_to_itself :
      {mgr : MigrateMgr}
      → Reach fresh mgr
      → (p p' : Place) (t t' : MigrateTask) → task_in mgr p ≡ some t
      → task_in mgr p' ≡ some t'
      → IsLocked mgr.locker (vol_of t) × (vol_of t ≡ vol_of t' → p ≡ p')
  volume_to_itself r p p' t t' h h' =
      let i = Reach-Inv fresh-Inv r in (i.sound.locked p t h, i.sound.single p p' t t' h h')
