-- ===== src/Scheduler/Migrate/Lost.antt =====
-- A completion of scheduler/migrate.go whose write to the table fails.
use Prim.Native.String.{String}
use cubefs_blobstore.Base.{
  ◌≡◌, ◌≢◌, inl, inr, refl, sym, ap, subst, ◌∙◌, false, none, some, some_inj, List,
}
use cubefs_blobstore.Base.Dict.{string_eq, eq_cases}
use cubefs_blobstore.Scheduler.Queue.Held.{msg_of}
use cubefs_blobstore.Scheduler.Task.{VunitLocation, check_valid}
use cubefs_blobstore.Scheduler.WorkerQueue.{
  WorkerTaskQueue, Completion, completed, refused, panics, complete,
}
use cubefs_blobstore.Scheduler.WorkerQueue.Laws.{
  task_at_absent, CompleteSpec, complete-CompleteSpec,
}
use cubefs_blobstore.Scheduler.WorkerQueue.Held.{held_at, TakesTask, complete_held}
use cubefs_blobstore.Scheduler.Locker.Exclusion.{IsLocked}
use cubefs_blobstore.Scheduler.MigrateTask.{MigrateTask, migrate_worker_task}
use cubefs_blobstore.Scheduler.Migrate.{MigrateMgr}
use cubefs_blobstore.Scheduler.Migrate.Prepare.{vol_of}
use cubefs_blobstore.Scheduler.Migrate.Workers.{
  Answer, table_error, taken_out, try_update, complete_task,
}
use cubefs_blobstore.Scheduler.Migrate.Invariant.{Inv}
use cubefs_blobstore.Scheduler.Migrate.Places.{Place, at_worker, at_finish, task_in, Place-cases}

-- A report that fits the task completes it.
fits_completes :
    (w : WorkerTaskQueue MigrateTask) (idc id : String) (src : List VunitLocation)
    (dst : VunitLocation) (t : MigrateTask)
    {r : WorkerTaskQueue MigrateTask × Completion MigrateTask}
    → CompleteSpec w idc id src dst r
    → held_at w idc id ≡ some t
    → check_valid t src dst ≡ none
    → r.1 ≡ completed t
fits_completes w idc id src dst t (CompleteSpec.no_queue h) there fits =
    absurd (cc (task_at_absent w idc id h))
fits_completes w idc id src dst t (CompleteSpec.no_task q h h') there fits = absurd (cc)
fits_completes w idc id src dst t (CompleteSpec.unmatched m e h bad) there fits =
    let same : m.msg ≡ t = some_inj m.msg t (sym (ap msg_of h) ∙ there) in
    let clash : some e ≡ none =
      sym bad ∙ (ap (λ (x : MigrateTask). check_valid x src dst) same ∙ fits) in
    absurd (cc)
fits_completes w idc id src dst t (CompleteSpec.completes w' m h ok v gone others) there fits =
    ap completed (some_inj m.msg t (sym (ap msg_of h) ∙ there))

unstored :
    (mgr : MigrateMgr) (id : String) (t : MigrateTask)
    (r : WorkerTaskQueue MigrateTask × Completion MigrateTask)
    → r.1 ≡ completed t
    → taken_out false mgr id r ≡ (record mgr { work_queue = r.0 }, table_error)
unfolding try_update
unstored mgr id t (w, completed task) e = refl
unstored mgr id t (w, refused x) e = absurd (cc)
unstored mgr id t (w, panics) e = absurd (cc)

module _ (mgr : MigrateMgr) (i : Inv mgr) (idc id : String) (src : List VunitLocation)
    (dst : VunitLocation) (t : MigrateTask) (there : task_in mgr (at_worker idc id) ≡ some t)
    (fits : check_valid t src dst ≡ none) where
  abbrev pub after : MigrateMgr
  after = (complete_task false mgr idc id src dst).0

  takes : TakesTask mgr.work_queue idc id t (complete mgr.work_queue idc id src dst).0
  takes = complete_held mgr.work_queue idc id src dst t i.work_valid (
      fits_completes mgr.work_queue idc id src dst t
        (complete-CompleteSpec mgr.work_queue idc id src dst i.work_valid) there fits)

  dropped_from :
      complete_task false mgr idc id src dst
      ≡ (record mgr { work_queue = (complete mgr.work_queue idc id src dst).0 }, table_error)
  unfolding complete_task
  dropped_from = unstored mgr id t (complete mgr.work_queue idc id src dst) (
      fits_completes mgr.work_queue idc id src dst t
        (complete-CompleteSpec mgr.work_queue idc id src dst i.work_valid) there fits)

  abbrev taken : MigrateMgr
  taken = record mgr { work_queue = (complete mgr.work_queue idc id src dst).0 }

  others_apart : (p : Place) (t' : MigrateTask) → task_in taken p ≡ some t' → vol_of t' ≢ vol_of t
  others_apart p t' h v = elim (Place-cases (at_worker idc id) p) [
    | inl e ↦ let clash : none ≡ some t' = sym (takes.2) ∙ (ap (task_in taken) e ∙ h) in absurd (cc)
    | inr ne ↦ ne (i.sound.single (at_worker idc id) p t t' there (was p ne h) (sym v))
  ]
    where
      was : (q : Place) → at_worker idc id ≢ q → task_in taken q ≡ some t' → task_in mgr q ≡ some t'
      was (at_finish k) ne h' = h'
      was (at_worker j k) ne h' = sym (elsewhere j k ne) ∙ h'
        where
          elsewhere :
              (j k : String)
              → at_worker idc id ≢ at_worker j k
              → task_in taken (at_worker j k) ≡ task_in mgr (at_worker j k)
          elsewhere j k ne = elim (eq_cases idc j) [
            | inr d ↦ takes.3 j k (inl d)
            | inl e ↦ takes.3 j k (inr (λ e'. ne (λ x. at_worker (e x) (e' x))))
          ]

  -- A worker's report that fits its task, when the write to the table fails, takes the task out of the
  -- work queue and leads it nowhere: the worker gets an error, no task of its volume is with the workers or
  -- waits to be finished, none is put back to be prepared, and the volume stays locked.
  pub complete_task_lost :
      ((complete_task false mgr idc id src dst).1 ≡ table_error)
      × ((p : Place) (t' : MigrateTask) → task_in after p ≡ some t' → vol_of t' ≢ vol_of t)
      × (after.prepare_queue ≡ mgr.prepare_queue)
      × IsLocked after.locker (vol_of t)
  complete_task_lost =
      subst
        (λ (r : MigrateMgr × Answer).
          (r.1 ≡ table_error)
          × ((p : Place) (t' : MigrateTask) → task_in r.0 p ≡ some t' → vol_of t' ≢ vol_of t)
          × (r.0.prepare_queue ≡ mgr.prepare_queue)
          × IsLocked r.0.locker (vol_of t))
        (sym dropped_from) (refl, others_apart, refl, i.sound.locked (at_worker idc id) t there)
