-- ===== src/Scheduler/WorkerQueue/Tests.antt =====
-- The theorems on the worker queue of scheduler/base/queue.go at a queue with one leased task.
use cubefs_blobstore.Base.{ℕ, ◌+◌, ◌≡◌, ◌≢◌, refl, ap, none, some, List, [], ◌∷◌, arith}
use cubefs_blobstore.Base.Int.{pos}
use cubefs_blobstore.Base.Dict.{lookup, insert, string_eq}
use cubefs_blobstore.Scheduler.Queue.{
  MsgEx, doing, unmatched_vuids, deref, new_queue, push, pop, find_expired, renew_at, lease_at,
}
use cubefs_blobstore.Scheduler.Queue.Traces.{
  Call, pushes, pops, step, run, run-new_queue-WellFormed,
}
use cubefs_blobstore.Scheduler.Queue.Refinement.{delayed}
use cubefs_blobstore.Scheduler.Task.{
  VunitLocation, check_valid, vunit_slice_equal, units_match, location_eq,
}
use cubefs_blobstore.Scheduler.MigrateTask.{MigrateTask, migrate_worker_task, prepared}
use cubefs_blobstore.Scheduler.WorkerQueue.{
  WorkerTaskQueue, new_worker_task_queue, set_queue, complete, reclaim, refused,
}
use cubefs_blobstore.Scheduler.WorkerQueue.Laws.{
  IsValid, CompleteSpec, task_at, set_queue-IsValid, complete-CompleteSpec,
}
use cubefs_blobstore.Scheduler.WorkerQueue.Reclaim.{
  with_dest, reclaim_moves, reclaim-complete_stale,
}

abbrev source : VunitLocation
source = record { vuid = 1; host = "h1"; disk_id = 1 }

abbrev old_dest : VunitLocation
old_dest = record { vuid = 2; host = "h2"; disk_id = 2 }

abbrev new_dest : VunitLocation
new_dest = record { vuid = 3; host = "h3"; disk_id = 3 }

abbrev task : MigrateTask
task = record {
  task_id = "t";
  state = prepared;
  worker_redo_cnt = 0;
  source_idc = "z0";
  source_disk_id = 1;
  source_vuid = 1;
  sources = source ∷ [];
  code_mode = 1;
  destination = old_dest;
  finish_advance_reason = "";
}

abbrev calls : List (Call MigrateTask)
calls = pushes "t" task ∷ pops 5 ∷ []

abbrev leased : MsgEx MigrateTask
leased = record { id = "t"; state = doing; deadline = 105; msg = task }

abbrev one_task : WorkerTaskQueue MigrateTask
one_task = set_queue (new_worker_task_queue (pos 20)) "z0" (run (new_queue 100) calls)

one_task-IsValid : IsValid one_task
unfolding new_worker_task_queue lookup
one_task-IsValid =
    set_queue-IsValid (new_worker_task_queue (pos 20)) "z0" (run (new_queue 100) calls)
      (record { queues = λ idc q h. absurd (ground arith) }) (run-new_queue-WellFormed 100 calls)

complete-CompleteSpec_example :
    CompleteSpec one_task "z0" "t"
      (source ∷ [])
      old_dest
      (complete one_task "z0" "t" (source ∷ []) old_dest)
complete-CompleteSpec_example =
    complete-CompleteSpec one_task "z0" "t" (source ∷ []) old_dest one_task-IsValid

reclaim_moves_example :
    ((reclaim one_task "z0" "t" (source ∷ []) old_dest new_dest 50).1 ≡ none)
    × IsValid (reclaim one_task "z0" "t" (source ∷ []) old_dest new_dest 50).0
    × (task_at (reclaim one_task "z0" "t" (source ∷ []) old_dest new_dest 50).0 "z0" "t"
        ≡ some (delayed (50 + 0) doing (with_dest leased new_dest)))
unfolding run step new_worker_task_queue new_queue push pop find_expired renew_at lease_at lookup
    insert check_valid vunit_slice_equal units_match location_eq deref
reclaim_moves_example =
    reclaim_moves one_task "z0" "t" (source ∷ []) old_dest new_dest 50 leased one_task-IsValid refl
      refl

reclaim-complete_stale_example :
    let after = (reclaim one_task "z0" "t" (source ∷ []) old_dest new_dest 50).0 in
    complete after "z0" "t" (source ∷ []) old_dest ≡ (after, refused unmatched_vuids)
unfolding run step new_worker_task_queue new_queue push pop find_expired renew_at lease_at lookup
    insert check_valid vunit_slice_equal units_match location_eq deref
reclaim-complete_stale_example =
    reclaim-complete_stale one_task "z0" "t" (source ∷ []) old_dest new_dest 50 leased
      one_task-IsValid refl refl (source ∷ []) moved
  where
    moved : new_dest ≢ old_dest
    moved e = let p : ◌≡◌ {A = ℕ} 3 2 = ap (λ (d : VunitLocation). d.vuid) e in omega arith
