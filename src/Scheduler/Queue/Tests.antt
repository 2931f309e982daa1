-- ===== src/Scheduler/Queue/Tests.antt =====
-- Runs of the queue of scheduler/base/queue.go, and its theorems at concrete queues.
use Prim.Native.String.{String}
use cubefs_blobstore.Base.{ℕ, ◌+◌, ◌≡◌, ◌≢◌, ◌⊎◌, refl, none, some, List, [], ◌∷◌, In, arith}
use cubefs_blobstore.Base.Int.{pos, negsuc, pos_part}
use cubefs_blobstore.Base.Dict.{string_eq, ne_of_beq, lookup, insert}
use cubefs_blobstore.Scheduler.Queue.{
  MsgEx, todo, deref, no_such_message_id, existing_message_id, new_queue, push, pop, find_expired,
  renew_at, lease_at, requeue, remove,
}
use cubefs_blobstore.Scheduler.Queue.Invariant.{WellFormed}
use cubefs_blobstore.Scheduler.Queue.View.{view, put}
use cubefs_blobstore.Scheduler.Queue.Refinement.{PopSpec, pop-PopSpec, delayed}
use cubefs_blobstore.Scheduler.Queue.Updates.{push-refines, requeue-refines, remove-refines}
use cubefs_blobstore.Scheduler.Queue.Order.{ids, pop_order}
use cubefs_blobstore.Scheduler.Queue.Traces.{
  Call, pushes, pops, requeues, removes, step, run, popped, run-new_queue-WellFormed,
  lease_exclusive,
}

abbrev two_pushed : List (Call ℕ)
two_pushed = pushes "a" 1 ∷ pushes "b" 2 ∷ []

abbrev busy : List (Call ℕ)
busy = pushes "a" 1 ∷ pushes "b" 2 ∷ pops 5 ∷ pops 6 ∷ requeues "a" (negsuc 3) 50 ∷ pops 51 ∷ []

runs_in_order : popped (new_queue 100) busy ≡ "a" ∷ "b" ∷ "a" ∷ []
unfolding popped new_queue push pop requeue find_expired renew_at lease_at lookup insert
runs_in_order = refl

run-new_queue-WellFormed_example : WellFormed (run (new_queue 100) busy)
run-new_queue-WellFormed_example = run-new_queue-WellFormed 100 busy

pop-PopSpec_example : let q = run (new_queue {A = ℕ} 100) two_pushed in PopSpec q 5 (pop q 5)
pop-PopSpec_example =
    pop-PopSpec (run (new_queue 100) two_pushed) 5 (run-new_queue-WellFormed 100 two_pushed)

lease_exclusive_example :
    let q = run (new_queue {A = ℕ} 100) two_pushed in
    ¬ In "a" (popped (pop q 5).0 (pops 50 ∷ removes "b" ∷ pops 105 ∷ []))
unfolding run step new_queue push pop find_expired renew_at lease_at lookup insert
lease_exclusive_example =
    lease_exclusive (run (new_queue 100) two_pushed) 5 "a" 1 (pops 50 ∷ removes "b" ∷ pops 105 ∷ [])
      (run-new_queue-WellFormed 100 two_pushed) refl (omega arith, (b_ne_a, (omega arith, tt)))
  where
    b_ne_a : ◌≢◌ {A = String} "b" "a"
    b_ne_a = ne_of_beq "b" "a" refl

push-refines_example :
    let q = run (new_queue {A = ℕ} 100) two_pushed in
    ((view q "a" ≢ none) × (push q "a" 9 ≡ (q, some existing_message_id)))
    ⊎ ((view q "a" ≡ none)
        × ((push q "a" 9).1 ≡ none)
        × WellFormed (push q "a" 9).0
        × (view (push q "a" 9).0 "b"
            ≡ put
                (view q)
                "a"
                (some (record { id = "a"; state = todo; deadline = 0; msg = 9 }))
                "b"))
push-refines_example =
    push-refines (run (new_queue 100) two_pushed) "a" 9 "b"
      (run-new_queue-WellFormed 100 two_pushed)

requeue-refines_example :
    let q = run (new_queue {A = ℕ} 100) (pushes "a" 1 ∷ pops 5 ∷ []) in
    ((view q "a" ≡ none) × (requeue q "a" (pos 10) 20 ≡ (q, some no_such_message_id)))
    ⊎ ((m : MsgEx ℕ) × (view q "a" ≡ some m)
        × ((requeue q "a" (pos 10) 20).1 ≡ none)
        × WellFormed (requeue q "a" (pos 10) 20).0
        × (view (requeue q "a" (pos 10) 20).0 "a"
            ≡ put (view q) "a" (some (delayed (20 + pos_part (pos 10)) m.state m)) "a"))
requeue-refines_example =
    requeue-refines (run (new_queue 100) (pushes "a" 1 ∷ pops 5 ∷ [])) "a" (pos 10) 20 "a"
      (run-new_queue-WellFormed 100 (pushes "a" 1 ∷ pops 5 ∷ []))

remove-refines_example :
    let q = run (new_queue {A = ℕ} 100) two_pushed in
    ((view q "a" ≡ none) × (remove q "a" ≡ (q, some no_such_message_id)))
    ⊎ ((view q "a" ≢ none)
        × ((remove q "a").1 ≡ none)
        × WellFormed (remove q "a").0
        × (view (remove q "a").0 "b" ≡ put (view q) "a" none "b"))
remove-refines_example =
    remove-refines (run (new_queue 100) two_pushed) "a" "b"
      (run-new_queue-WellFormed 100 two_pushed)

pop_order_example :
    popped (push (run (new_queue {A = ℕ} 100) two_pushed) "c" 3).0 (pops 5 ∷ pops 5 ∷ pops 5 ∷ [])
    ≡ "a" ∷ "b" ∷ "c" ∷ []
unfolding run step new_queue push find_expired deref ids lookup insert
pop_order_example =
    pop_order (run (new_queue 100) two_pushed) 5 "c" 3 (run-new_queue-WellFormed 100 two_pushed)
      refl refl
