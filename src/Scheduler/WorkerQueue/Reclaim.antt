-- ===== src/Scheduler/WorkerQueue/Reclaim.antt =====
-- `Reclaim` of scheduler/base/queue.go: a task moves to a new destination and becomes available at once.
use Prim.Native.String.{String}
use cubefs_blobstore.Base.{
  ℕ, ◌+◌, ◌≡◌, ◌≢◌, inl, inr, refl, sym, ap, ◌∙◌, Option, none, some, List, Option-cases,
}
use cubefs_blobstore.Base.Int.{pos}
use cubefs_blobstore.Base.Dict.{lookup, string_eq}
use cubefs_blobstore.Scheduler.Queue.{
  Queue, MsgEx, MsgState, todo, doing, Error, unmatched_vuids, requeue,
}
use cubefs_blobstore.Scheduler.Queue.Invariant.{WellFormed, set_cell, set_cell-WellFormed}
use cubefs_blobstore.Scheduler.Queue.View.{
  view, put, put-put, put_cong, put_self, view-some, view-set_cell,
}
use cubefs_blobstore.Scheduler.Queue.Refinement.{delayed}
use cubefs_blobstore.Scheduler.Queue.Updates.{requeue-refines}
use cubefs_blobstore.Scheduler.Task.{VunitLocation, WorkerTask, check_valid}
use cubefs_blobstore.Scheduler.Task.Laws.{check_valid_iff}
use cubefs_blobstore.Scheduler.WorkerQueue.{
  WorkerTaskQueue, set_dest, write_msg, reclaim, complete, Completion, refused, requeued,
}
use cubefs_blobstore.Scheduler.WorkerQueue.Laws.{
  IsValid, task_at, task_at_found, task_at_absent, get-view-some, set_queue-IsValid,
  task_at-set_queue, CompleteSpec, no_queue, no_task, unmatched, completes, complete-CompleteSpec,
}

-- The task with another destination.
abbrev pub with_dest : {A : Type 0} ⦃W : WorkerTask A⦄ → MsgEx A → VunitLocation → MsgEx A
with_dest ⦃W⦄ m dest = record m { msg = W.set_dest m.msg dest }

module _ {A : Type 0} ⦃W : WorkerTask A⦄ (q : Queue A) (id : String) (m : MsgEx A)
    (dest : VunitLocation) (wf : WellFormed q) (there : view q id ≡ some m) where
  set_dest_lem :
      (e : ℕ)
      → lookup id q.msgs ≡ some e
      → q.cell e ≡ some m
      → set_dest q id m.msg dest ≡ set_cell q e (with_dest m dest)
  unfolding set_dest
  set_dest_lem e found c = rw (found, c, write_msg)

  set_dest-WellFormed : WellFormed (set_dest q id m.msg dest)
  set_dest-WellFormed =
      let (e, found, c, id_m, in_m) = view-some q wf id m there in
      rw (set_dest_lem e found c) (set_cell-WellFormed q e m (with_dest m dest) refl refl c wf)

  view-set_dest :
      (k : String) → view (set_dest q id m.msg dest) k ≡ put (view q) id (some (with_dest m dest)) k
  view-set_dest k =
      let (e, found, c, id_m, in_m) = view-some q wf id m there in
      rw (set_dest_lem e found c) (view-set_cell q wf id e (with_dest m dest) k found)

  -- The queue after the requeue that ends a reclaim.
  pub requeued_view :
      (now : ℕ) (k : String)
      → ((requeue (set_dest q id m.msg dest) id (pos 0) now).1 ≡ none)
        × WellFormed (requeue (set_dest q id m.msg dest) id (pos 0) now).0
        × (view (requeue (set_dest q id m.msg dest) id (pos 0) now).0 k
            ≡ put (view q) id (some (delayed (now + 0) m.state (with_dest m dest))) k)
  requeued_view now k =
      let moved : view (set_dest q id m.msg dest) id ≡ some (with_dest m dest) =
        view-set_dest id ∙ put_self (view q) id _ in
      elim (requeue-refines (set_dest q id m.msg dest) id (pos 0) now k set_dest-WellFormed) [
        | inl (absent, same) ↦ absurd (cc)
        | inr (n, found, no_error, wf', after) ↦
            let same : n ≡ with_dest m dest = cc in
            (
              no_error,
              wf',
              after
                  ∙ (ap
                        (λ (z : MsgEx A).
                          put (view (set_dest q id m.msg dest)) id
                            (some (delayed (now + 0) z.state z)) k)
                        same
                      ∙ settled),
            )
      ]
    where
      settled :
          put
            (view (set_dest q id m.msg dest))
            id
            (some (delayed (now + 0) m.state (with_dest m dest)))
            k
          ≡ put (view q) id (some (delayed (now + 0) m.state (with_dest m dest))) k
      settled =
          put_cong (view (set_dest q id m.msg dest)) (put (view q) id (some (with_dest m dest))) id
            k (some (delayed (now + 0) m.state (with_dest m dest))) (view-set_dest k)
          ∙ put-put (view q) id k (some (with_dest m dest))
              (some (delayed (now + 0) m.state (with_dest m dest)))

module _ {A : Type 0} ⦃W : WorkerTask A⦄ (w : WorkerTaskQueue A) (idc id : String)
    (src : List VunitLocation) (old_dest new_dest : VunitLocation) (now : ℕ) (m : MsgEx A)
    (v : IsValid w) (there : task_at w idc id ≡ some m)
    (ok : check_valid m.msg src old_dest ≡ none) where
  abbrev reclaimed : WorkerTaskQueue A × Option Error
  reclaimed = reclaim w idc id src old_dest new_dest now

  reclaim_lem :
      (q : Queue A)
      → lookup idc w.idc_queues ≡ some q
      → reclaimed ≡ requeued w idc (requeue (set_dest q id m.msg new_dest) id (pos 0) now)
  unfolding reclaim
  reclaim_lem q found =
      let here : view q id ≡ some m = sym (task_at_found w idc id q found) ∙ there in
      rw (found, reclaim) (rw (get-view-some q id m here) (rw ok))

  -- A reclaim whose report matches the task succeeds: the task has the new destination, is available from
  -- now on if it was leased, and stays waiting if it waited; the queue stays valid.
  pub reclaim_moves :
      (reclaimed.1 ≡ none)
      × IsValid reclaimed.0
      × (task_at reclaimed.0 idc id ≡ some (delayed (now + 0) m.state (with_dest m new_dest)))
  reclaim_moves = elim (Option-cases (lookup idc w.idc_queues)) [
    | inl absent ↦ absurd (cc (task_at_absent w idc id absent))
    | inr (q, found) ↦
        let here : view q id ≡ some m = sym (task_at_found w idc id q found) ∙ there in
        let (no_error, wf', after) =
          requeued_view q id m new_dest (v.queues idc q found) here now id in
        rw (reclaim_lem q found) (
          no_error,
          set_queue-IsValid w idc _ v wf',
          task_at-set_queue w idc _ id ∙ (after ∙ put_self (view q) id _),
        )
  ]

  -- After a reclaim that moved a task to another destination, the worker that lost it cannot complete it:
  -- its report, with the old destination, is refused as unmatched and changes nothing.
  pub reclaim-complete_stale :
      (src' : List VunitLocation)
      → new_dest ≢ old_dest
      → complete reclaimed.0 idc id src' old_dest ≡ (reclaimed.0, refused unmatched_vuids)
  reclaim-complete_stale src' p =
      let (no_error, v', after) = reclaim_moves in
      stale reclaimed.0 (delayed (now + 0) m.state (with_dest m new_dest)) (delayed_dest m.state)
        after (complete-CompleteSpec reclaimed.0 idc id src' old_dest v')
    where
      delayed_dest :
          (s : MsgState) → W.get_dest (delayed (now + 0) s (with_dest m new_dest)).msg ≡ new_dest
      delayed_dest todo = W.get_dest-set_dest m.msg new_dest
      delayed_dest doing = W.get_dest-set_dest m.msg new_dest

      stale :
          (w' : WorkerTaskQueue A) (n : MsgEx A) {r : WorkerTaskQueue A × Completion A}
          → W.get_dest n.msg ≡ new_dest
          → task_at w' idc id ≡ some n
          → CompleteSpec w' idc id src' old_dest r
          → r ≡ (w', refused unmatched_vuids)
      stale w' n d t (no_queue h) = absurd (cc (task_at_absent w' idc id h))
      stale w' n d t (no_task q h h') = absurd (cc)
      stale w' n d t (unmatched n' e h bad) = elim ((check_valid_iff n'.msg src' old_dest).1) [
        | inl fits ↦ absurd (cc)
        | inr misfit ↦ let same : e ≡ unmatched_vuids = cc in ap (λ x. (w', refused x)) same
      ]
      stale w' n d t (completes w'' n' h fits v'' gone others) =
          let same : n' ≡ n = cc in
          let kept = ((check_valid_iff n'.msg src' old_dest).0.0 fits).1 in
          absurd (p (sym d ∙ (ap (λ (z : MsgEx A). W.get_dest z.msg) (sym same) ∙ kept)))
