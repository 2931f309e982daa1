-- ===== src/Scheduler/Migrate/Failed.antt =====
-- An error of prepareTask of scheduler/migrate.go leaves everything as it was.
use Prim.Native.String.{String}
use cubefs_blobstore.Base.{
  ℕ, ◌≡◌, inl, inr, refl, sym, subst, ◌∙◌, Bool, Option-cases, Option, none, some,
}
use cubefs_blobstore.Base.Dict.{
  lookup, insert, delete, lookup-delete_self, nat_eq, string_eq, eq_cases, lookup-insert_ne,
  lookup-delete_ne,
}
use cubefs_blobstore.Scheduler.Queue.{Queue, Error, pop, requeue}
use cubefs_blobstore.Scheduler.Queue.Invariant.{WellFormed}
use cubefs_blobstore.Scheduler.Queue.Held.{held, pop-held, requeue_held}
use cubefs_blobstore.Scheduler.TaskQueue.{or_panic, pop_task, retry_task}
use cubefs_blobstore.Scheduler.WorkerQueue.{WorkerTaskQueue, add_prepared_task}
use cubefs_blobstore.Scheduler.Locker.{VolTaskLocker, try_lock, unlock}
use cubefs_blobstore.Scheduler.MigrateTask.{MigrateTask, migrate_worker_task, inited}
use cubefs_blobstore.Scheduler.Migrate.{MigrateMgr, Failure, Run, returned, panics, stuck, Answers}
use cubefs_blobstore.Scheduler.Migrate.Table.{TaskTbl, update}
use cubefs_blobstore.Scheduler.Migrate.Prepare.{
  vol_of, requeued, retry_prepare, fail_prepare, advanced, in_advance, finish_task_in_advance, sent,
  send_to_work, prepare_popped, prepare_task,
}
use cubefs_blobstore.Scheduler.Migrate.Rule.{prepare_locked_rule}

-- The same but for the leases of the tasks that wait to be prepared.
pub record Unchanged (mgr mgr' : MigrateMgr) : Type 0 where
  pub prepare_wf : WellFormed mgr'.prepare_queue.queue
  pub prepare_tasks :
      (k : String) → held mgr'.prepare_queue.queue k ≡ held mgr.prepare_queue.queue k
  pub work_same : mgr'.work_queue ≡ mgr.work_queue
  pub finish_same : mgr'.finish_queue ≡ mgr.finish_queue
  pub table_same : mgr'.task_tbl ≡ mgr.task_tbl
  pub migrating_same : mgr'.migrating ≡ mgr.migrating
  pub count_same : mgr'.finished_count ≡ mgr.finished_count
  pub locks_same : (v : ℕ) → lookup v mgr'.locker.task_map ≡ lookup v mgr.locker.task_map

-- What holds of the manager when the function returns an error.
abbrev pub OnError : (MigrateMgr → Type 0) → Run → Type 0
OnError P (returned mgr none) = Unit
OnError P (returned mgr (some e)) = P mgr
OnError P panics = Unit
OnError P stuck = Unit

-- `mgr'` has popped a task since `mgr`, and has changed nothing else but the lock.
module _ (mgr mgr' : MigrateMgr) (u : Unchanged mgr mgr') where
  requeued-Unchanged :
      (l : VolTaskLocker) (e : Failure) (r : Queue MigrateTask × Option Error)
      → ((v : ℕ) → lookup v l.task_map ≡ lookup v mgr.locker.task_map)
      → WellFormed r.0
      → ((k : String) → held r.0 k ≡ held mgr'.prepare_queue.queue k)
      → OnError
          (Unchanged mgr)
          (requeued (record mgr' { locker = l }) e (or_panic mgr'.prepare_queue r))
  requeued-Unchanged l e (q, some x) locks wf same = tt
  requeued-Unchanged l e (q, none) locks wf same = record {
    prepare_wf = wf;
    prepare_tasks = λ k. same k ∙ u.prepare_tasks k;
    work_same = u.work_same;
    finish_same = u.finish_same;
    table_same = u.table_same;
    migrating_same = u.migrating_same;
    count_same = u.count_same;
    locks_same = locks;
  }

  retry_prepare-Unchanged :
      (l : VolTaskLocker) (task : MigrateTask) (later : ℕ) (e : Failure)
      → ((v : ℕ) → lookup v l.task_map ≡ lookup v mgr.locker.task_map)
      → OnError (Unchanged mgr) (retry_prepare (record mgr' { locker = l }) task later e)
  unfolding retry_prepare retry_task
  retry_prepare-Unchanged l task later e locks =
      let q = mgr'.prepare_queue in
      let (wf, same) = requeue_held q.queue task.task_id q.retry_delay later u.prepare_wf in
      requeued-Unchanged l e (requeue q.queue task.task_id q.retry_delay later) locks wf same

  module _ (task : MigrateTask) (free : lookup (vol_of task) mgr'.locker.task_map ≡ none) where
    abbrev locked_mgr : MigrateMgr
    locked_mgr = record mgr' {
      locker = record { task_map = insert (vol_of task) 0 mgr'.locker.task_map };
    }

    -- An unlock undoes the lock of a free volume.
    unlock-lock :
        (v : ℕ)
        → lookup v (unlock locked_mgr.locker (vol_of task)).task_map ≡ lookup v mgr.locker.task_map
    unfolding unlock
    unlock-lock v = elim (eq_cases (vol_of task) v) [
      | inl e ↦
          subst
            (λ (x : ℕ).
              lookup x (delete (vol_of task) (locked_mgr.locker).task_map)
              ≡ lookup x mgr.locker.task_map)
            e
            (lookup-delete_self (vol_of task) (locked_mgr.locker).task_map
              ∙ (sym free ∙ u.locks_same (vol_of task)))
      | inr ne ↦
          lookup-delete_ne (vol_of task) v (locked_mgr.locker).task_map ne
          ∙ (lookup-insert_ne (vol_of task) v 0 mgr'.locker.task_map ne ∙ u.locks_same v)
    ]

    fail_prepare-Unchanged :
        (later : ℕ) (e : Failure) → OnError (Unchanged mgr) (fail_prepare locked_mgr task later e)
    unfolding fail_prepare
    fail_prepare-Unchanged later e =
        retry_prepare-Unchanged (unlock locked_mgr.locker (vol_of task)) task later e unlock-lock

    -- These end without an error.
    finish_task_in_advance-Unchanged :
        (reason : String) → OnError (Unchanged mgr) (finish_task_in_advance locked_mgr task reason)
    unfolding finish_task_in_advance
    finish_task_in_advance-Unchanged reason = no_error (update mgr'.task_tbl inited _)
      where
        no_error :
            (tbl : Option TaskTbl)
            → OnError (Unchanged mgr) (advanced locked_mgr (in_advance task reason) tbl)
        no_error none = tt
        no_error (some tbl) = tt

    send_to_work-Unchanged :
        (task' : MigrateTask) → OnError (Unchanged mgr) (send_to_work locked_mgr task')
    unfolding send_to_work
    send_to_work-Unchanged task' =
        no_error (update mgr'.task_tbl inited task')
          (add_prepared_task mgr'.work_queue task'.source_idc task'.task_id task')
      where
        no_error :
            (tbl : Option TaskTbl) (w : Option (WorkerTaskQueue MigrateTask))
            → OnError (Unchanged mgr) (sent locked_mgr task' tbl w)
        no_error none w = tt
        no_error (some tbl) none = tt
        no_error (some tbl) (some w) = tt

  prepare_popped-Unchanged :
      (has_handler : Bool) (answers : Answers) (later : ℕ) (popped : Option (String × MigrateTask))
      → OnError (Unchanged mgr) (prepare_popped has_handler answers later mgr' popped)
  unfolding prepare_popped try_lock
  prepare_popped-Unchanged has_handler answers later none = u
  prepare_popped-Unchanged has_handler answers later (some (id, task)) =
      elim (Option-cases (lookup (vol_of task) mgr'.locker.task_map)) [
        | inl free ↦ rw free (
            prepare_locked_rule (OnError (Unchanged mgr)) (locked_mgr task free) task tt
              (fail_prepare-Unchanged task free) (finish_task_in_advance-Unchanged task free)
              (λ task' same. send_to_work-Unchanged task free task') has_handler answers later)
        | inr (e, held_by) ↦
            rw held_by (retry_prepare-Unchanged mgr'.locker task later _ u.locks_same)
      ]

-- When prepareTask returns an error, whatever the other services answered, every task is where it was, the
-- same volumes are locked, and the table and the counters are as they were: only leases change.
pub prepare_task-Unchanged :
    (has_handler : Bool) (answers : Answers) (later : ℕ) (mgr : MigrateMgr) (now : ℕ)
    → WellFormed mgr.prepare_queue.queue
    → OnError (Unchanged mgr) (prepare_task has_handler answers later mgr now)
unfolding prepare_task pop_task
prepare_task-Unchanged has_handler answers later mgr now wf =
    let ((wf', same), given) = pop-held mgr.prepare_queue.queue now wf in
    prepare_popped-Unchanged mgr (record mgr { prepare_queue = (pop_task mgr.prepare_queue now).0 })
      (record {
        prepare_wf = wf';
        prepare_tasks = same;
        work_same = refl;
        finish_same = refl;
        table_same = refl;
        migrating_same = refl;
        count_same = refl;
        locks_same = λ v. refl;
      })
      has_handler answers later (pop mgr.prepare_queue.queue now).1
