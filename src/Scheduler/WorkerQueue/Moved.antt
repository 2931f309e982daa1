-- ===== src/Scheduler/WorkerQueue/Moved.antt =====
-- What a reclaim of scheduler/base/queue.go leaves of the tasks that the worker queue holds.
use Prim.Native.String.{String}
use cubefs_blobstore.Base.{
  ℕ, ◌+◌, ◌≡◌, ◌⊎◌, inl, inr, refl, sym, ap, subst, ◌∙◌, Option, some, List, Option-cases,
}
use cubefs_blobstore.Base.Dict.{lookup, string_eq, eq_cases}
use cubefs_blobstore.Base.Int.{pos}
use cubefs_blobstore.Scheduler.Queue.{Queue, MsgEx, MsgState, todo, doing, requeue}
use cubefs_blobstore.Scheduler.Queue.View.{view, put, put_self, put_ne}
use cubefs_blobstore.Scheduler.Queue.Refinement.{delayed}
use cubefs_blobstore.Scheduler.Queue.Held.{msg_of}
use cubefs_blobstore.Scheduler.Task.{VunitLocation, WorkerTask, check_valid}
use cubefs_blobstore.Scheduler.WorkerQueue.{WorkerTaskQueue, set_queue, set_dest, reclaim}
use cubefs_blobstore.Scheduler.WorkerQueue.Laws.{
  IsValid, task_at_found, get-view-none, get-view-some, set_queue-IsValid, task_at-set_queue,
  task_at-set_queue_ne,
}
use cubefs_blobstore.Scheduler.WorkerQueue.Reclaim.{with_dest, requeued_view}
use cubefs_blobstore.Scheduler.WorkerQueue.Held.{held_at}

module _ {A : Type 0} ⦃W : WorkerTask A⦄ where
  -- A task stays as it is, or gets another destination.
  abbrev pub Redirected : VunitLocation → Option A → Option A → Type 0
  Redirected dest before after =
      (after ≡ before) ⊎ ((a : A) × (before ≡ some a) × (after ≡ some (W.set_dest a dest)))

  abbrev pub RedirectsTasks : VunitLocation → WorkerTaskQueue A → WorkerTaskQueue A → Type 0
  RedirectsTasks dest w w' =
      IsValid w' × ((i k : String) → Redirected dest (held_at w i k) (held_at w' i k))

  unchanged : (dest : VunitLocation) (w : WorkerTaskQueue A) → IsValid w → RedirectsTasks dest w w
  unchanged dest w v = (v, λ i k. inl refl)

  delayed-with_dest :
      (d : ℕ) (s : MsgState) (m : MsgEx A) (dest : VunitLocation)
      → (delayed d s (with_dest m dest)).msg ≡ W.set_dest m.msg dest
  delayed-with_dest d todo m dest = refl
  delayed-with_dest d doing m dest = refl

  module _ (w : WorkerTaskQueue A) (idc id : String) (dest : VunitLocation) (now : ℕ) (q : Queue A)
      (m : MsgEx A) (v : IsValid w) (found : lookup idc w.idc_queues ≡ some q)
      (there : view q id ≡ some m) where
    abbrev redirected_queue : Queue A
    redirected_queue = (requeue (set_dest q id m.msg dest) id (pos 0) now).0

    own_queue :
        (k : String) → Redirected dest (msg_of (view q k)) (msg_of (view redirected_queue k))
    own_queue k =
        let (no_error, wf, after) = requeued_view q id m dest (v.queues idc q found) there now k in
        elim (eq_cases id k) [
          | inl p ↦ inr (
            m.msg,
            subst (λ (j : String). msg_of (view q j) ≡ some m.msg) p (ap msg_of there),
            ap msg_of after
                ∙ (subst
                      (λ (j : String).
                        msg_of
                          (put (view q) id (some (delayed (now + 0) m.state (with_dest m dest))) j)
                        ≡ some (delayed (now + 0) m.state (with_dest m dest)).msg)
                      p (ap msg_of (put_self (view q) id _))
                    ∙ ap some (delayed-with_dest (now + 0) m.state m dest)),
          )
          | inr ne ↦ inl (ap msg_of (after ∙ put_ne (view q) id k _ ne))
        ]

    reclaim_found : RedirectsTasks dest w (set_queue w idc redirected_queue)
    reclaim_found = (
      set_queue-IsValid w idc redirected_queue v
          (requeued_view q id m dest (v.queues idc q found) there now id).1,
      λ i k. elim (eq_cases idc i) [
        | inl p ↦
            subst
              (λ (j : String).
                Redirected dest (held_at w j k) (held_at (set_queue w idc redirected_queue) j k))
              p
              (subst
                (λ (o : Option A).
                  Redirected dest o (held_at (set_queue w idc redirected_queue) idc k))
                (sym (ap msg_of (task_at_found w idc k q found)))
                (subst (λ (o : Option A). Redirected dest (msg_of (view q k)) o)
                  (sym (ap msg_of (task_at-set_queue w idc redirected_queue k))) (own_queue k)))
        | inr ne ↦ inl (ap msg_of (task_at-set_queue_ne w idc redirected_queue i k ne))
      ],
    )

  -- A reclaim moves no task and keeps every one, with its destination or the new one.
  pub reclaim_redirects :
      (w : WorkerTaskQueue A) (idc id : String) (src : List VunitLocation)
      (old_dest new_dest : VunitLocation) (now : ℕ)
      → IsValid w
      → RedirectsTasks new_dest w (reclaim w idc id src old_dest new_dest now).0
  unfolding reclaim
  reclaim_redirects w idc id src old_dest new_dest now v =
      elim (Option-cases (lookup idc w.idc_queues)) [
        | inl absent ↦ rw (absent, reclaim) (unchanged new_dest w v)
        | inr (q, found) ↦
            rw (found, reclaim)
              (elim (Option-cases (view q id)) [
                | inl absent ↦ rw (get-view-none q id absent) (unchanged new_dest w v)
                | inr (m, there) ↦
                    rw (get-view-some q id m there)
                      (elim (Option-cases (check_valid m.msg src old_dest)) [
                        | inl ok ↦ rw ok (reclaim_found w idc id new_dest now q m v found there)
                        | inr (e, bad) ↦ rw bad (unchanged new_dest w v)
                      ])
              ])
      ]
