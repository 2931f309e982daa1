-- ===== src/Scheduler/Migrate/Loaded.antt =====
-- Load of scheduler/migrate.go keeps the invariant: a running task that it brings back has its volume to
-- itself, or Load panics.
use Prim.Native.String.{String}
use cubefs_blobstore.Base.{
  ◌≡◌, ◌≢◌, ◌⊎◌, inl, inr, refl, ap, subst, Option-cases, Option, none, some, List, [], ◌∷◌,
}
use cubefs_blobstore.Base.Dict.{lookup, nat_eq, string_eq, eq_cases}
use cubefs_blobstore.Scheduler.Queue.{Queue, Error, push}
use cubefs_blobstore.Scheduler.Queue.Invariant.{WellFormed}
use cubefs_blobstore.Scheduler.Queue.Held.{Adds, push_held}
use cubefs_blobstore.Scheduler.TaskQueue.{or_panic, push_task}
use cubefs_blobstore.Scheduler.WorkerQueue.{WorkerTaskQueue}
use cubefs_blobstore.Scheduler.WorkerQueue.Held.{held_at, AddsTask, add_prepared_task_held}
use cubefs_blobstore.Scheduler.Locker.{try_lock}
use cubefs_blobstore.Scheduler.MigrateTask.{
  MigrateTask, MigrateState, migrate_worker_task, inited, prepared, work_completed, finished,
  finished_in_advance, running, finished_task,
}
use cubefs_blobstore.Scheduler.Migrate.{MigrateMgr, add_migrating_vuid}
use cubefs_blobstore.Scheduler.Migrate.Table.{find_all}
use cubefs_blobstore.Scheduler.Migrate.Prepare.{vol_of}
use cubefs_blobstore.Scheduler.Migrate.Workers.{load_one, load_all, load}
use cubefs_blobstore.Scheduler.Migrate.Invariant.{Inv, reprepared}
use cubefs_blobstore.Scheduler.Migrate.Places.{Place, at_worker, at_finish, task_in, adds-Sound}
use cubefs_blobstore.Scheduler.Migrate.Prepared.{locked_mgr, stays_locked, now_locked}

-- What holds of the manager if Load does not panic.
abbrev Loads : Option MigrateMgr → Type 0
Loads none = Unit
Loads (some mgr) = Inv mgr

module _ (mgr : MigrateMgr) (i : Inv mgr) (task : MigrateTask) where
  -- Load also marks the unit of the task as migrating.
  abbrev marked : MigrateMgr
  marked = record mgr {
    migrating = add_migrating_vuid mgr.migrating task.source_disk_id task.source_vuid task.task_id;
  }

  waits-Inv :
      (r : Queue MigrateTask × Option Error)
      → (r.1 ≡ none → WellFormed r.0)
      → Loads (elim (or_panic mgr.prepare_queue r) [
        | none ↦ none
        | some q ↦ some (record marked { prepare_queue = q })
      ])
  waits-Inv (q, none) wf = reprepared mgr _ i (wf refl) refl refl i.sound
  waits-Inv (q, some e) wf = tt

  module _ (free : lookup (vol_of task) mgr.locker.task_map ≡ none) where
    abbrev locked : MigrateMgr
    locked = record (locked_mgr mgr i task free) { migrating = marked.migrating }

    works-Inv :
        (o : Option (WorkerTaskQueue MigrateTask))
        → ((w : WorkerTaskQueue MigrateTask)
            → o ≡ some w
            → AddsTask mgr.work_queue task.source_idc task.task_id task w)
        → Loads (elim o [ none ↦ none | some w ↦ some (record locked { work_queue = w }) ])
    works-Inv none adds = tt
    works-Inv (some w) adds =
        let (valid, absent, there, others) = adds w refl in
        record {
          prepare_wf = i.prepare_wf;
          work_valid = valid;
          finish_wf = i.finish_wf;
          sound =
              adds-Sound (task_in mgr) _ mgr.locker locked.locker i.sound
                (at_worker task.source_idc task.task_id) task free there refl (elsewhere others)
                (now_locked mgr i task free) (stays_locked mgr i task free);
        }
      where
        elsewhere :
            ((idc k : String)
              → (task.source_idc ≢ idc) ⊎ (task.task_id ≢ k)
              → held_at w idc k ≡ held_at mgr.work_queue idc k)
            → (p : Place) → at_worker task.source_idc task.task_id ≢ p
            → task_in (record mgr { work_queue = w }) p ≡ task_in mgr p
        elsewhere others (at_finish id) ne = refl
        elsewhere others (at_worker idc k) ne = elim (eq_cases task.source_idc idc) [
          | inr d ↦ others idc k (inl d)
          | inl e ↦ others idc k (inr (λ e'. ne (λ j. at_worker (e j) (e' j))))
        ]

    finishes-Inv :
        (r : Queue MigrateTask × Option Error)
        → (r.1 ≡ none → Adds mgr.finish_queue.queue task.task_id task r.0)
        → Loads (elim (or_panic mgr.finish_queue r) [
          | none ↦ none
          | some q ↦ some (record locked { finish_queue = q })
        ])
    finishes-Inv (q, some e) adds = tt
    finishes-Inv (q, none) adds =
        let (wf, absent, there, others) = adds refl in
        record {
          prepare_wf = i.prepare_wf;
          work_valid = i.work_valid;
          finish_wf = wf;
          sound =
              adds-Sound (task_in mgr) _ mgr.locker locked.locker i.sound (at_finish task.task_id)
                task free there refl (elsewhere others) (now_locked mgr i task free)
                (stays_locked mgr i task free);
        }
      where
        after : MigrateMgr
        after = record mgr { finish_queue = record (mgr.finish_queue) { queue = q } }

        elsewhere :
            ((k : String)
              → task.task_id ≢ k
              → ◌≡◌ {A = Option MigrateTask}
                  (task_in after (at_finish k))
                  (task_in mgr (at_finish k)))
            → (p : Place) → at_finish task.task_id ≢ p
            → task_in after p ≡ task_in mgr p
        elsewhere others (at_worker idc k) ne = refl
        elsewhere others (at_finish k) ne = others k (λ e. ne (ap at_finish e))

module _ (mgr : MigrateMgr) (i : Inv mgr) (task : MigrateTask) where
  abbrev in_state : MigrateState → MigrateTask
  in_state s = record task { state = s }

  in_state-Inv : (s : MigrateState) → Loads (load_one (some mgr) (in_state s))
  unfolding running finished_task push_task try_lock
  in_state-Inv inited =
      waits-Inv mgr i (in_state inited)
        (push mgr.prepare_queue.queue task.task_id (in_state inited))
        (λ ok. (push_held mgr.prepare_queue.queue task.task_id (in_state inited) i.prepare_wf ok).0)
  in_state-Inv prepared = elim (Option-cases (lookup (vol_of task) mgr.locker.task_map)) [
    | inl free ↦
        rw (Loads, free)
          (works-Inv mgr i (in_state prepared) free _ (λ w e.
            add_prepared_task_held mgr.work_queue w task.source_idc task.task_id (in_state prepared)
              i.work_valid e))
    | inr (e, held_by) ↦ rw (Loads, held_by) tt
  ]
  in_state-Inv work_completed = elim (Option-cases (lookup (vol_of task) mgr.locker.task_map)) [
    | inl free ↦
        rw (Loads, free)
          (finishes-Inv mgr i (in_state work_completed) free
            (push mgr.finish_queue.queue task.task_id (in_state work_completed))
            (push_held mgr.finish_queue.queue task.task_id (in_state work_completed) i.finish_wf))
    | inr (e, held_by) ↦ rw (Loads, held_by) tt
  ]
  in_state-Inv finished = i
  in_state-Inv finished_in_advance = i

load_one-Inv : (o : Option MigrateMgr) (task : MigrateTask) → Loads o → Loads (load_one o task)
load_one-Inv none task h = tt
load_one-Inv (some mgr) task i = in_state-Inv mgr i task task.state

load_all-Inv :
    (o : Option MigrateMgr) (tasks : List MigrateTask) → Loads o → Loads (load_all o tasks)
unfolding load_all
load_all-Inv o [] h = h
load_all-Inv o (task ∷ tasks) h = load_all-Inv (load_one o task) tasks (load_one-Inv o task h)

pub load-Inv : {mgr mgr' : MigrateMgr} → Inv mgr → load mgr ≡ some mgr' → Inv mgr'
unfolding load
load-Inv {mgr} {mgr'} i h = subst Loads h (load_all-Inv (some mgr) (find_all mgr.task_tbl) i)
