-- ===== src/Scheduler/WorkerQueue/Held.antt =====
-- The tasks that the worker queue of scheduler/base/queue.go holds, by IDC and id, whatever their leases.
use Prim.Native.String.{String}
use cubefs_blobstore.Base.{
  ℕ, ◌≡◌, ◌≢◌, ◌⊎◌, inl, inr, refl, sym, ap, subst, ◌∙◌, some_inj, Option, none, some, List,
  Option-cases,
}
use cubefs_blobstore.Base.Dict.{lookup, string_eq, eq_cases}
use cubefs_blobstore.Base.Int.{pos}
use cubefs_blobstore.Scheduler.Queue.{Queue, Error, deref, new_queue, push, pop, get, requeue}
use cubefs_blobstore.Scheduler.Queue.Invariant.{WellFormed, new_queue-WellFormed}
use cubefs_blobstore.Scheduler.Queue.Held.{
  msg_of, held, Same, Adds, pop-held, requeue_held, push_held,
}
use cubefs_blobstore.Scheduler.Task.{VunitLocation, WorkerTask, check_valid}
use cubefs_blobstore.Scheduler.WorkerQueue.{
  WorkerTaskQueue, set_queue, add_prepared_task, acquire, cancel, renewal, complete, Completion,
  completed, refused, panics, pushed_or_panic,
}
use cubefs_blobstore.Scheduler.WorkerQueue.Laws.{
  IsValid, task_at, task_at_found, task_at_absent, set_queue-IsValid, task_at-set_queue,
  task_at-set_queue_ne, CompleteSpec, complete-CompleteSpec,
}

module _ {A : Type 0} where
  abbrev pub held_at : WorkerTaskQueue A → String → String → Option A
  held_at w idc id = msg_of (task_at w idc id)

  -- The same tasks under the same names.
  abbrev pub SameTasks : WorkerTaskQueue A → WorkerTaskQueue A → Type 0
  SameTasks w w' = IsValid w' × ((idc id : String) → held_at w' idc id ≡ held_at w idc id)

  same_refl : (w : WorkerTaskQueue A) → IsValid w → SameTasks w w
  same_refl w v = (v, λ idc id. refl)

  -- A queue is put back that holds the same tasks.
  put_back :
      (w : WorkerTaskQueue A) (idc : String) (q q' : Queue A)
      → IsValid w
      → lookup idc w.idc_queues ≡ some q
      → Same q q'
      → SameTasks w (set_queue w idc q')
  put_back w idc q q' v found (w', same) = (
    set_queue-IsValid w idc q' v w',
    λ i id. elim (eq_cases idc i) [
      | inl p ↦
          subst (λ (j : String). held_at (set_queue w idc q') j id ≡ held_at w j id) p
            (ap msg_of (task_at-set_queue w idc q' id)
              ∙ (same id ∙ sym (ap msg_of (task_at_found w idc id q found))))
      | inr ne ↦ ap msg_of (task_at-set_queue_ne w idc q' i id ne)
    ],
  )

  pub acquire_held :
      (w : WorkerTaskQueue A) (idc : String) (now : ℕ)
      → IsValid w
      → SameTasks w (acquire w idc now).0
  unfolding acquire
  acquire_held w idc now v = elim (Option-cases (lookup idc w.idc_queues)) [
    | inl absent ↦ rw (absent, acquire) (same_refl w v)
    | inr (q, found) ↦
        rw (found, acquire)
          (put_back w idc q (pop q now).0 v found (pop-held q now (v.queues idc q found)).0)
  ]

  pub renewal_held :
      (w : WorkerTaskQueue A) (idc id : String) (now : ℕ)
      → IsValid w
      → SameTasks w (renewal w idc id now).0
  unfolding renewal
  renewal_held w idc id now v = elim (Option-cases (lookup idc w.idc_queues)) [
    | inl absent ↦ rw (absent, renewal) (same_refl w v)
    | inr (q, found) ↦
        rw (found, renewal)
          (put_back w idc q (requeue q id (pos w.lease_expired) now).0 v found
            (requeue_held q id (pos w.lease_expired) now (v.queues idc q found)))
  ]

  pub cancel_held :
      ⦃W : WorkerTask A⦄ (w : WorkerTaskQueue A) (idc id : String) (src : List VunitLocation)
      (dst : VunitLocation) (now : ℕ)
      → IsValid w
      → SameTasks w (cancel w idc id src dst now).0
  unfolding cancel
  cancel_held w idc id src dst now v = elim (Option-cases (lookup idc w.idc_queues)) [
    | inl absent ↦ rw (absent, cancel) (same_refl w v)
    | inr (q, found) ↦
        rw (found, cancel)
          (elim (Option-cases (get q id)) [
            | inl none_there ↦ rw none_there (same_refl w v)
            | inr (task, there) ↦ rw there (elim (Option-cases (check_valid task src dst)) [
              | inl ok ↦ rw ok (
                  put_back w idc q (requeue q id w.cancel_punish_duration now).0 v found
                    (requeue_held q id w.cancel_punish_duration now (v.queues idc q found)))
              | inr (e, bad) ↦ rw bad (same_refl w v)
            ])
          ])
  ]

  -- A task is added under a name that held none.
  abbrev pub AddsTask : WorkerTaskQueue A → String → String → A → WorkerTaskQueue A → Type 0
  AddsTask w idc id a w' =
      IsValid w'
      × (held_at w idc id ≡ none)
      × (held_at w' idc id ≡ some a)
      × ((i k : String) → (idc ≢ i) ⊎ (id ≢ k) → held_at w' i k ≡ held_at w i k)

  put_added :
      (w : WorkerTaskQueue A) (idc id : String) (a : A) (q q' : Queue A)
      → IsValid w
      → ((k : String) → held q k ≡ held_at w idc k)
      → Adds q id a q'
      → AddsTask w idc id a (set_queue w idc q')
  put_added w idc id a q q' v before (w', absent, there, others) = (
    set_queue-IsValid w idc q' v w',
    sym (before id) ∙ absent,
    ap msg_of (task_at-set_queue w idc q' id) ∙ there,
    λ i k ne. other i k ne,
  )
    where
      other :
          (i k : String) → (idc ≢ i) ⊎ (id ≢ k) → held_at (set_queue w idc q') i k ≡ held_at w i k
      other i k (inl ne) = ap msg_of (task_at-set_queue_ne w idc q' i k ne)
      other i k (inr ne) = elim (eq_cases idc i) [
        | inl p ↦
            subst (λ (j : String). held_at (set_queue w idc q') j k ≡ held_at w j k) p
              (ap msg_of (task_at-set_queue w idc q' k) ∙ (others k ne ∙ before k))
        | inr ne' ↦ ap msg_of (task_at-set_queue_ne w idc q' i k ne')
      ]

  pushed_inv :
      (w w' : WorkerTaskQueue A) (idc : String) (r : Queue A × Option Error)
      → pushed_or_panic w idc r ≡ some w'
      → (r.1 ≡ none) × (set_queue w idc r.0 ≡ w')
  pushed_inv w w' idc (q, none) h = (refl, some_inj _ _ h)
  pushed_inv w w' idc (q, some e) h = absurd (cc)

  pushed_added :
      (w w' : WorkerTaskQueue A) (idc id : String) (a : A) (q : Queue A)
      → IsValid w
      → WellFormed q
      → ((k : String) → held q k ≡ held_at w idc k)
      → pushed_or_panic w idc (push q id a) ≡ some w'
      → AddsTask w idc id a w'
  pushed_added w w' idc id a q v wf before h =
      let (ok, result) = pushed_inv w w' idc (push q id a) h in
      subst (AddsTask w idc id a) result
        (put_added w idc id a q (push q id a).0 v before (push_held q id a wf ok))

  held-new_queue : (timeout : ℕ) (k : String) → held (new_queue {A = A} timeout) k ≡ none
  unfolding new_queue lookup deref
  held-new_queue timeout k = refl

  pub add_prepared_task_held :
      (w w' : WorkerTaskQueue A) (idc id : String) (a : A)
      → IsValid w
      → add_prepared_task w idc id a ≡ some w'
      → AddsTask w idc id a w'
  unfolding add_prepared_task
  add_prepared_task_held w w' idc id a v h = elim (Option-cases (lookup idc w.idc_queues)) [
    | inl absent ↦
        pushed_added w w' idc id a (new_queue w.lease_expired) v
          (new_queue-WellFormed w.lease_expired)
          (λ k. held-new_queue w.lease_expired k ∙ sym (ap msg_of (task_at_absent w idc k absent)))
          (rw absent at h)
    | inr (q, found) ↦
        pushed_added w w' idc id a q v (v.queues idc q found)
          (λ k. sym (ap msg_of (task_at_found w idc k q found))) (rw found at h)
  ]

  -- A task is taken out, and nothing else changes.
  abbrev pub TakesTask : WorkerTaskQueue A → String → String → A → WorkerTaskQueue A → Type 0
  TakesTask w idc id a w' =
      IsValid w'
      × (held_at w idc id ≡ some a)
      × (held_at w' idc id ≡ none)
      × ((i k : String) → (idc ≢ i) ⊎ (id ≢ k) → held_at w' i k ≡ held_at w i k)

  completed_takes :
      ⦃W : WorkerTask A⦄ (w : WorkerTaskQueue A) (idc id : String) (src : List VunitLocation)
      (dst : VunitLocation) {r : WorkerTaskQueue A × Completion A} (a : A)
      → CompleteSpec w idc id src dst r
      → r.1 ≡ completed a
      → TakesTask w idc id a r.0
  completed_takes w idc id src dst a (CompleteSpec.no_queue h) e = absurd (cc)
  completed_takes w idc id src dst a (CompleteSpec.no_task q h h') e = absurd (cc)
  completed_takes w idc id src dst a (CompleteSpec.unmatched m e' h bad) e = absurd (cc)
  completed_takes w idc id src dst a (CompleteSpec.completes w' m there fits v' gone others) e = (
    v',
    ap msg_of there ∙ ap some (completed_inj m.msg a e),
    ap msg_of gone,
    λ i k ne. ap msg_of (others i k ne),
  )
    where
      completed_inj : (x y : A) → completed x ≡ completed y → x ≡ y
      completed_inj x y p =
          ap (λ (c : Completion A). elim c [ completed z ↦ z | refused z ↦ x | panics ↦ x ]) p

  -- A completion that succeeds takes the task out.
  pub complete_held :
      ⦃W : WorkerTask A⦄ (w : WorkerTaskQueue A) (idc id : String) (src : List VunitLocation)
      (dst : VunitLocation) (a : A)
      → IsValid w
      → (complete w idc id src dst).1 ≡ completed a
      → TakesTask w idc id a (complete w idc id src dst).0
  complete_held w idc id src dst a v e =
      completed_takes w idc id src dst a (complete-CompleteSpec w idc id src dst v) e

  refused_keeps :
      ⦃W : WorkerTask A⦄ (w : WorkerTaskQueue A) (idc id : String) (src : List VunitLocation)
      (dst : VunitLocation) {r : WorkerTaskQueue A × Completion A} (x : Error)
      → IsValid w
      → CompleteSpec w idc id src dst r
      → r.1 ≡ refused x
      → SameTasks w r.0
  refused_keeps w idc id src dst x v (CompleteSpec.no_queue h) e = same_refl w v
  refused_keeps w idc id src dst x v (CompleteSpec.no_task q h h') e = same_refl w v
  refused_keeps w idc id src dst x v (CompleteSpec.unmatched m e' h bad) e = same_refl w v
  refused_keeps w idc id src dst x v (CompleteSpec.completes w' m there fits v' gone others) e =
      absurd (cc)

  -- A completion that is refused leaves every task.
  pub refused_held :
      ⦃W : WorkerTask A⦄ (w : WorkerTaskQueue A) (idc id : String) (src : List VunitLocation)
      (dst : VunitLocation) (x : Error)
      → IsValid w
      → (complete w idc id src dst).1 ≡ refused x
      → SameTasks w (complete w idc id src dst).0
  refused_held w idc id src dst x v e =
      refused_keeps w idc id src dst x v (complete-CompleteSpec w idc id src dst v) e
