-- ===== src/Scheduler/WorkerQueue/Laws.antt =====
-- The worker queue of scheduler/base/queue.go as a map from IDC and task id to the task.
use Prim.Native.String.{String}
use cubefs_blobstore.Base.{
  ◌≡◌, ◌≢◌, ◌⊎◌, inl, inr, refl, sym, ap, subst, ◌∙◌, Option, none, some, List, Option-cases,
}
use cubefs_blobstore.Base.Dict.{
  lookup, insert, string_eq, eq_cases, lookup-insert_self, lookup-insert_ne,
}
use cubefs_blobstore.Scheduler.Queue.{
  Queue, MsgEx, Error, no_such_message_id, no_such_idc_queue, get, remove,
}
use cubefs_blobstore.Scheduler.Queue.Invariant.{WellFormed}
use cubefs_blobstore.Scheduler.Queue.View.{view, put_self, put_ne}
use cubefs_blobstore.Scheduler.Queue.Updates.{remove-refines}
use cubefs_blobstore.Scheduler.Task.{VunitLocation, WorkerTask, check_valid}
use cubefs_blobstore.Scheduler.WorkerQueue.{
  WorkerTaskQueue, set_queue, complete, Completion, completed, refused, removed_or_panic,
}

-- Every IDC's queue is well formed.
pub record IsValid {A : Type 0} (w : WorkerTaskQueue A) : Type 0 where
  pub queues : (idc : String) (q : Queue A) → lookup idc w.idc_queues ≡ some q → WellFormed q

abbrev view_of_queue : {A : Type 0} → Option (Queue A) → String → Option (MsgEx A)
view_of_queue none id = none
view_of_queue (some q) id = view q id

-- The message of a task, by IDC and id.
abbrev pub task_at : {A : Type 0} → WorkerTaskQueue A → String → String → Option (MsgEx A)
task_at w idc id = view_of_queue (lookup idc w.idc_queues) id

pub get-view-none : {A : Type 0} → (q : Queue A) (id : String) → view q id ≡ none → get q id ≡ none
unfolding get
get-view-none q id h = rw (h, get)

pub get-view-some :
    {A : Type 0}
    → (q : Queue A) (id : String) (m : MsgEx A) → view q id ≡ some m
    → get q id ≡ some m.msg
unfolding get
get-view-some q id m h = rw (h, get)

pub task_at_found :
    {A : Type 0}
    → (w : WorkerTaskQueue A) (idc id : String) (q : Queue A) → lookup idc w.idc_queues ≡ some q
    → task_at w idc id ≡ view q id
task_at_found w idc id q h = rw h

pub task_at_absent :
    {A : Type 0}
    → (w : WorkerTaskQueue A) (idc id : String) → lookup idc w.idc_queues ≡ none
    → task_at w idc id ≡ none
task_at_absent w idc id h = rw h

-- A queue that is put back.
module _ {A : Type 0} (w : WorkerTaskQueue A) (idc : String) (q : Queue A) where
  pub set_queue-IsValid : IsValid w → WellFormed q → IsValid (set_queue w idc q)
  set_queue-IsValid v wf = record {
    queues = λ i q' h. elim (eq_cases idc i) [
      | inl p ↦
          let same : q ≡ q' = cc (
            lookup-insert_self idc q w.idc_queues,
            ap (λ j. lookup j (insert idc q w.idc_queues)) p,
          ) in
          subst WellFormed same wf
      | inr p ↦ v.queues i q' (sym (lookup-insert_ne idc i q w.idc_queues p) ∙ h)
    ];
  }

  pub task_at-set_queue : (id : String) → task_at (set_queue w idc q) idc id ≡ view q id
  task_at-set_queue id =
      task_at_found (set_queue w idc q) idc id q (lookup-insert_self idc q w.idc_queues)

  pub task_at-set_queue_ne :
      (i id : String) → idc ≢ i → task_at (set_queue w idc q) i id ≡ task_at w i id
  task_at-set_queue_ne i id p = rw (lookup-insert_ne idc i q w.idc_queues p)

-- What `Complete` does, by its four cases.
pub data CompleteSpec {A : Type 0} ⦃W : WorkerTask A⦄ (w : WorkerTaskQueue A) (idc id : String)
    (src : List VunitLocation) (dst : VunitLocation)
    : WorkerTaskQueue A × Completion A → Type 0 where
  no_queue :
      lookup idc w.idc_queues ≡ none → CompleteSpec w idc id src dst (w, refused no_such_idc_queue)
  no_task :
      (q : Queue A)
      → lookup idc w.idc_queues ≡ some q
      → task_at w idc id ≡ none
      → CompleteSpec w idc id src dst (w, refused no_such_message_id)
  unmatched :
      (m : MsgEx A) (e : Error)
      → task_at w idc id ≡ some m
      → check_valid m.msg src dst ≡ some e
      → CompleteSpec w idc id src dst (w, refused e)
  completes :
      (w' : WorkerTaskQueue A) (m : MsgEx A)
      → task_at w idc id ≡ some m
      → check_valid m.msg src dst ≡ none
      → IsValid w'
      → task_at w' idc id ≡ none
      → ((i k : String) → (idc ≢ i) ⊎ (id ≢ k) → task_at w' i k ≡ task_at w i k)
      → CompleteSpec w idc id src dst (w', completed m.msg)

module _ {A : Type 0} ⦃W : WorkerTask A⦄ (w : WorkerTaskQueue A) (idc id : String)
    (src : List VunitLocation) (dst : VunitLocation) (v : IsValid w) where
  complete_matched :
      (q : Queue A) (m : MsgEx A)
      → lookup idc w.idc_queues ≡ some q
      → view q id ≡ some m
      → check_valid m.msg src dst ≡ none
      → CompleteSpec w idc id src dst (removed_or_panic w idc m.msg (remove q id))
  complete_matched q m found there ok = elim (remove-refines q id id wf) [
    | inl (absent, same) ↦ absurd (cc)
    | inr (present, no_error, wf', gone) ↦
        subst
          (λ o. CompleteSpec w idc id src dst (removed_or_panic w idc m.msg ((remove q id).0, o)))
          (sym no_error)
          (completes (set_queue w idc (remove q id).0) m (task_at_found w idc id q found ∙ there) ok
            (set_queue-IsValid w idc (remove q id).0 v wf')
            (task_at-set_queue w idc (remove q id).0 id ∙ (gone ∙ put_self (view q) id none))
            others)
  ]
    where
      wf : WellFormed q
      wf = v.queues idc q found

      same_idc : (k : String) → id ≢ k → view (remove q id).0 k ≡ view q k
      same_idc k p = elim (remove-refines q id k wf) [
        | inl (absent, same) ↦ rw same refl
        | inr (present, no_error, wf', stays) ↦ stays ∙ put_ne (view q) id k none p
      ]

      others :
          (i k : String)
          → (idc ≢ i) ⊎ (id ≢ k)
          → task_at (set_queue w idc (remove q id).0) i k ≡ task_at w i k
      others i k (inl p) = task_at-set_queue_ne w idc (remove q id).0 i k p
      others i k (inr p) = elim (eq_cases idc i) [
        | inl r ↦
            subst (λ j. task_at (set_queue w idc (remove q id).0) j k ≡ task_at w j k) r
              (task_at-set_queue w idc (remove q id).0 k
                ∙ (same_idc k p ∙ sym (task_at_found w idc k q found)))
        | inr r ↦ task_at-set_queue_ne w idc (remove q id).0 i k r
      ]

  -- `Complete` of a valid queue returns a task exactly when the queue holds it and the report matches its
  -- units and destination: then the queue holds it no more, keeps every other task, and stays valid. In
  -- any other case it is refused with the error of that case and changes nothing; it never panics.
  pub complete-CompleteSpec : CompleteSpec w idc id src dst (complete w idc id src dst)
  unfolding complete
  complete-CompleteSpec = elim (Option-cases (lookup idc w.idc_queues)) [
    | inl absent ↦ rw (absent, complete) (no_queue absent)
    | inr (q, found) ↦
        rw (found, complete)
          (elim (Option-cases (view q id)) [
            | inl absent ↦
                rw (get-view-none q id absent)
                  (no_task q found (task_at_found w idc id q found ∙ absent))
            | inr (m, there) ↦
                rw (get-view-some q id m there) (elim (Option-cases (check_valid m.msg src dst)) [
                  | inl ok ↦ rw ok (complete_matched q m found there ok)
                  | inr (e, bad) ↦
                      rw bad (unmatched m e (task_at_found w idc id q found ∙ there) bad)
                ])
          ])
  ]
