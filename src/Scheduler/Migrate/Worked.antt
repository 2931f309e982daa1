-- ===== src/Scheduler/Migrate/Worked.antt =====
-- The calls of the workers of scheduler/migrate.go keep the invariant.
use Prim.Native.String.{String}
use cubefs_blobstore.Base.{
  ℕ, ◌≡◌, ◌≢◌, inl, inr, refl, sym, ap, subst, ◌∙◌, Bool, true, false, Option, none, some, List,
  some_inj,
}
use cubefs_blobstore.Base.Dict.{string_eq, eq_cases}
use cubefs_blobstore.Scheduler.Queue.{Queue, Error, push}
use cubefs_blobstore.Scheduler.Queue.Held.{Adds, push_held}
use cubefs_blobstore.Scheduler.Task.{VunitLocation}
use cubefs_blobstore.Scheduler.TaskQueue.{or_panic, push_task}
use cubefs_blobstore.Scheduler.WorkerQueue.{
  WorkerTaskQueue, Completion, completed, acquire, cancel, reclaim, renewal, complete, query,
}
use cubefs_blobstore.Scheduler.WorkerQueue as Worker
use cubefs_blobstore.Scheduler.WorkerQueue.Held.{
  held_at, SameTasks, TakesTask, acquire_held, renewal_held, cancel_held, complete_held,
  refused_held,
}
use cubefs_blobstore.Scheduler.WorkerQueue.Moved.{Redirected, RedirectsTasks, reclaim_redirects}
use cubefs_blobstore.Scheduler.Locker.Exclusion.{IsLocked}
use cubefs_blobstore.Scheduler.MigrateTask.{MigrateTask, migrate_worker_task}
use cubefs_blobstore.Scheduler.Migrate.{MigrateMgr}
use cubefs_blobstore.Scheduler.Migrate.Table.{TaskTbl}
use cubefs_blobstore.Scheduler.Migrate.Prepare.{vol_of}
use cubefs_blobstore.Scheduler.Migrate.Workers.{
  acquired, with_error, stored, store_queried, reclaimed, pushed, to_finish, taken_out,
  completed_task, acquire_task, cancel_task, renewal_task, reclaim_task, complete_task,
}
use cubefs_blobstore.Scheduler.Migrate.Invariant.{Inv, reprepared}
use cubefs_blobstore.Scheduler.Migrate.Places.{
  Place, at_worker, at_finish, task_in, descends-Sound, moves-Sound, Place-cases,
}

module _ (mgr : MigrateMgr) (i : Inv mgr) where
  -- The work queue is put back with the same tasks, or some of them with another destination.
  redirected-Inv :
      (dest : VunitLocation) (w : WorkerTaskQueue MigrateTask)
      → RedirectsTasks dest mgr.work_queue w
      → Inv (record mgr { work_queue = w })
  redirected-Inv dest w (valid, each) = record {
    prepare_wf = i.prepare_wf;
    work_valid = valid;
    finish_wf = i.finish_wf;
    sound =
        descends-Sound (task_in mgr) (task_in after) mgr.locker mgr.locker i.sound from (λ p t h.
          let (t', h', v, n) = from p t h in
          subst (λ (x : ℕ). IsLocked mgr.locker x) (sym v) (i.sound.locked p t' h'));
  }
    where
      after : MigrateMgr
      after = record mgr { work_queue = w }

      descended :
          (t : MigrateTask) (before now : Option MigrateTask)
          → Redirected dest before now
          → now ≡ some t
          → (t' : MigrateTask) × (before ≡ some t')
            × (vol_of t ≡ vol_of t')
            × (t.task_id ≡ t'.task_id)
      descended t before now (inl same) h = (t, sym same ∙ h, refl, refl)
      descended t before now (inr (a, b, n)) h =
          let e : record a { destination = dest } ≡ t = some_inj _ t (sym n ∙ h) in
          (a, b, sym (ap vol_of e), sym (ap (λ (x : MigrateTask). x.task_id) e))

      from :
          (p : Place) (t : MigrateTask)
          → task_in after p ≡ some t
          → (t' : MigrateTask) × (task_in mgr p ≡ some t')
            × (vol_of t ≡ vol_of t')
            × (t.task_id ≡ t'.task_id)
      from (at_worker idc id) t h = descended t _ _ (each idc id) h
      from (at_finish id) t h = (t, h, refl, refl)

  same-Inv :
      (w : WorkerTaskQueue MigrateTask)
      → SameTasks mgr.work_queue w
      → Inv (record mgr { work_queue = w })
  same-Inv w (valid, same) =
      redirected-Inv (record { vuid = 0; host = ""; disk_id = 0 }) w
        (valid, λ idc id. inl (same idc id))

  acquired-Inv :
      (r : WorkerTaskQueue MigrateTask × Option (String × MigrateTask))
      → SameTasks mgr.work_queue r.0
      → Inv (acquired mgr r).0
  acquired-Inv (w, none) s = same-Inv w s
  acquired-Inv (w, some (id, task)) s = same-Inv w s

  pub acquire_task-Inv :
      (enabled : Bool) (idc : String) (now : ℕ) → Inv (acquire_task mgr enabled idc now).0
  unfolding acquire_task
  acquire_task-Inv false idc now = i
  acquire_task-Inv true idc now = acquired-Inv _ (acquire_held mgr.work_queue idc now i.work_valid)

  with_error-Inv :
      (r : WorkerTaskQueue MigrateTask × Option Error)
      → SameTasks mgr.work_queue r.0
      → Inv (with_error mgr r).0
  with_error-Inv (w, none) s = same-Inv w s
  with_error-Inv (w, some e) s = same-Inv w s

  pub cancel_task-Inv :
      (idc id : String) (src : List VunitLocation) (dst : VunitLocation) (now : ℕ)
      → Inv (cancel_task mgr idc id src dst now).0
  unfolding cancel_task
  cancel_task-Inv idc id src dst now =
      with_error-Inv _ (cancel_held mgr.work_queue idc id src dst now i.work_valid)

  pub renewal_task-Inv :
      (enabled : Bool) (idc id : String) (now : ℕ) → Inv (renewal_task mgr enabled idc id now).0
  unfolding renewal_task
  renewal_task-Inv false idc id now = i
  renewal_task-Inv true idc id now =
      with_error-Inv _ (renewal_held mgr.work_queue idc id now i.work_valid)

-- A write to the table changes nothing that the invariant reads.
stored-Inv : (mgr : MigrateMgr) → Inv mgr → (tbl : Option TaskTbl) → Inv (stored mgr tbl).0
stored-Inv mgr i none = i
stored-Inv mgr i (some tbl) = reprepared mgr _ i i.prepare_wf refl refl i.sound

store_queried-Inv :
    (mgr : MigrateMgr) (reachable : Bool) (c : Completion MigrateTask)
    → Inv mgr
    → Inv (store_queried reachable mgr c).0
store_queried-Inv mgr reachable (completed task) i = stored-Inv mgr i _
store_queried-Inv mgr reachable (Worker.refused e) i = i
store_queried-Inv mgr reachable Worker.panics i = i

module _ (mgr : MigrateMgr) (i : Inv mgr) (reachable : Bool) where
  reclaimed-Inv :
      (idc id : String) (dest : VunitLocation) (r : WorkerTaskQueue MigrateTask × Option Error)
      → RedirectsTasks dest mgr.work_queue r.0
      → Inv (reclaimed reachable mgr idc id r).0
  reclaimed-Inv idc id dest (w, some e) s = redirected-Inv mgr i dest w s
  reclaimed-Inv idc id dest (w, none) s =
      store_queried-Inv (record mgr { work_queue = w }) reachable (query w idc id)
        (redirected-Inv mgr i dest w s)

  pub reclaim_task-Inv :
      (idc id : String) (src : List VunitLocation) (old_dst new_dst : VunitLocation) (now : ℕ)
      → Inv (reclaim_task reachable mgr idc id src old_dst new_dst now).0
  unfolding reclaim_task
  reclaim_task-Inv idc id src old_dst new_dst now =
      reclaimed-Inv idc id new_dst _
        (reclaim_redirects mgr.work_queue idc id src old_dst new_dst now i.work_valid)

-- A task that a completion has taken out of the work queue.
module _ (mgr : MigrateMgr) (i : Inv mgr) (idc id : String) (task : MigrateTask)
    (w : WorkerTaskQueue MigrateTask) (takes : TakesTask mgr.work_queue idc id task w) where
  elsewhere_worker :
      (j k : String) → at_worker idc id ≢ at_worker j k → held_at w j k ≡ held_at mgr.work_queue j k
  elsewhere_worker j k ne = elim (eq_cases idc j) [
    | inr d ↦ takes.3 j k (inl d)
    | inl e ↦ takes.3 j k (inr (λ e'. ne (λ x. at_worker (e x) (e' x))))
  ]

  dropped-Inv : Inv (record mgr { work_queue = w })
  dropped-Inv = record {
    prepare_wf = i.prepare_wf;
    work_valid = takes.0;
    finish_wf = i.finish_wf;
    sound =
        descends-Sound (task_in mgr) (task_in after) mgr.locker mgr.locker i.sound
          (λ p t h. (t, old p t h, refl, refl)) (λ p t h. i.sound.locked p t (old p t h));
  }
    where
      after : MigrateMgr
      after = record mgr { work_queue = w }

      gone : (t : MigrateTask) → held_at w idc id ≡ some t → ⊥
      gone t h = let clash : none ≡ some t = sym (takes.2) ∙ h in cc

      old : (p : Place) (t : MigrateTask) → task_in after p ≡ some t → task_in mgr p ≡ some t
      old (at_finish k) t h = h
      old (at_worker j k) t h = elim (Place-cases (at_worker idc id) (at_worker j k)) [
        | inl e ↦ absurd (gone t (ap (task_in after) e ∙ h))
        | inr ne ↦ sym (elsewhere_worker j k ne) ∙ h
      ]

  arrived-Inv :
      (tbl : TaskTbl) (q : Queue MigrateTask)
      → Adds mgr.finish_queue.queue id (completed_task task) q
      → Inv (record mgr {
        work_queue = w;
        task_tbl = tbl;
        finish_queue = record (mgr.finish_queue) { queue = q };
      })
  arrived-Inv tbl q (wf, absent, there, others) = record {
    prepare_wf = i.prepare_wf;
    work_valid = takes.0;
    finish_wf = wf;
    sound =
        moves-Sound (task_in mgr) (task_in after) mgr.locker mgr.locker i.sound (at_worker idc id)
          (at_finish id) task (completed_task task) takes.1 takes.2 there refl
          (i.sound.named (at_worker idc id) task takes.1) elsewhere (λ v l. l);
  }
    where
      after : MigrateMgr
      after = record mgr {
        work_queue = w;
        task_tbl = tbl;
        finish_queue = record (mgr.finish_queue) { queue = q };
      }

      elsewhere :
          (p : Place) → at_worker idc id ≢ p → at_finish id ≢ p → task_in after p ≡ task_in mgr p
      elsewhere (at_worker j k) ne ne' = elsewhere_worker j k ne
      elsewhere (at_finish k) ne ne' = others k (λ e. ne' (ap at_finish e))

  pushed_finish-Inv :
      (tbl : TaskTbl) (r : Queue MigrateTask × Option Error)
      → (r.1 ≡ none → Adds mgr.finish_queue.queue id (completed_task task) r.0)
      → Inv (pushed (record mgr { work_queue = w; task_tbl = tbl }) (or_panic mgr.finish_queue r)).0
  pushed_finish-Inv tbl (q, none) adds = arrived-Inv tbl q (adds refl)
  pushed_finish-Inv tbl (q, some e) adds =
      reprepared (record mgr { work_queue = w }) _ dropped-Inv i.prepare_wf refl refl
        dropped-Inv.sound

  to_finish-Inv :
      (tbl : Option TaskTbl)
      → Inv (to_finish (record mgr { work_queue = w }) id (completed_task task) tbl).0
  unfolding push_task
  to_finish-Inv none = dropped-Inv
  to_finish-Inv (some tbl) =
      pushed_finish-Inv tbl (push mgr.finish_queue.queue id (completed_task task))
        (push_held mgr.finish_queue.queue id (completed_task task) i.finish_wf)

module _ (mgr : MigrateMgr) (i : Inv mgr) (reachable : Bool) where
  taken_out-Inv :
      (idc id : String) (r : WorkerTaskQueue MigrateTask × Completion MigrateTask)
      → ((task : MigrateTask) → r.1 ≡ completed task → TakesTask mgr.work_queue idc id task r.0)
      → ((x : Error) → r.1 ≡ Worker.refused x → SameTasks mgr.work_queue r.0)
      → Inv (taken_out reachable mgr id r).0
  taken_out-Inv idc id (w, completed task) takes keeps =
      to_finish-Inv mgr i idc id task w (takes task refl) _
  taken_out-Inv idc id (w, Worker.refused e) takes keeps = same-Inv mgr i w (keeps e refl)
  taken_out-Inv idc id (w, Worker.panics) takes keeps = i

  pub complete_task-Inv :
      (idc id : String) (src : List VunitLocation) (dst : VunitLocation)
      → Inv (complete_task reachable mgr idc id src dst).0
  unfolding complete_task
  complete_task-Inv idc id src dst =
      taken_out-Inv idc id (complete mgr.work_queue idc id src dst)
        (λ task e. complete_held mgr.work_queue idc id src dst task i.work_valid e)
        (λ x e. refused_held mgr.work_queue idc id src dst x i.work_valid e)
