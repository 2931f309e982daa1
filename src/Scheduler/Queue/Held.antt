-- ===== src/Scheduler/Queue/Held.antt =====
-- The tasks that the queue of scheduler/base/queue.go holds, whatever their leases: Pop and Requeue leave
-- them alone, Push adds one and Remove takes one out.
use Prim.Native.String.{String}
use cubefs_blobstore.Base.{
  ℕ, ◌≡◌, ◌≢◌, inl, inr, refl, sym, ap, subst, ◌∙◌, ◌+◌, some_inj, Option, none, some,
}
use cubefs_blobstore.Base.Dict.{string_eq, eq_cases}
use cubefs_blobstore.Base.Int.{ℤ, pos_part}
use cubefs_blobstore.Scheduler.Queue.{
  Queue, MsgEx, MsgState, todo, doing, Error, push, pop, requeue, remove,
}
use cubefs_blobstore.Scheduler.Queue.Invariant.{WellFormed}
use cubefs_blobstore.Scheduler.Queue.View.{view, put, put_self, put_ne}
use cubefs_blobstore.Scheduler.Queue.Refinement.{delayed, lease, PopSpec, pop-PopSpec}
use cubefs_blobstore.Scheduler.Queue.Updates.{push-refines, requeue-refines, remove-refines}

module _ {A : Type 0} where
  abbrev pub msg_of : Option (MsgEx A) → Option A
  msg_of none = none
  msg_of (some m) = some m.msg

  -- The task that a queue holds under an id.
  abbrev pub held : Queue A → String → Option A
  held q id = msg_of (view q id)

  -- A queue in which each message stands under the name of its task.
  abbrev pub Same : Queue A → Queue A → Type 0
  Same q q' = WellFormed q' × ((k : String) → held q' k ≡ held q k)

  held-put :
      (q : Queue A) (id : String) (m n : MsgEx A) (k : String)
      → view q id ≡ some m
      → n.msg ≡ m.msg
      → msg_of (put (view q) id (some n) k) ≡ held q k
  held-put q id m n k there same = elim (eq_cases id k) [
    | inl p ↦
        subst (λ (j : String). msg_of (put (view q) id (some n) j) ≡ held q j) p
          (ap msg_of (put_self (view q) id (some n)) ∙ (ap some same ∙ sym (ap msg_of there)))
    | inr p ↦ ap msg_of (put_ne (view q) id k (some n) p)
  ]

  delayed-msg : (d : ℕ) (s : MsgState) (m : MsgEx A) → (delayed d s m).msg ≡ m.msg
  delayed-msg d todo m = refl
  delayed-msg d doing m = refl

  popped_held :
      (q : Queue A) (now : ℕ) (r : Queue A × Option (String × A))
      → WellFormed q
      → PopSpec q now r
      → Same q r.0 × ((id : String) (a : A) → r.1 ≡ some (id, a) → held q id ≡ some a)
  popped_held q now r w (PopSpec.idle nothing) = ((w, λ k. refl), λ id a h. absurd (cc))
  popped_held q now r w (PopSpec.leases q' m there ready w' kept after) = (
    (w', λ k. ap msg_of (after k) ∙ held-put q m.id m (lease (now + q.msg_timeout) m) k there refl),
    λ id a h.
        let pair = some_inj (m.id, m.msg) (id, a) h in
        subst (λ (j : String). held q j ≡ some a) (ap (λ (x : String × A). x.0) pair)
          (ap msg_of there ∙ ap (λ (x : String × A). some x.1) pair),
  )

  -- Pop moves no task, and hands out one that the queue holds.
  pub pop-held :
      (q : Queue A) (now : ℕ)
      → WellFormed q
      → Same q (pop q now).0
        × ((id : String) (a : A) → (pop q now).1 ≡ some (id, a) → held q id ≡ some a)
  pop-held q now w = popped_held q now (pop q now) w (pop-PopSpec q now w)

  -- Requeue moves no task.
  pub requeue_held :
      (q : Queue A) (id : String) (delay : ℤ) (now : ℕ)
      → WellFormed q
      → Same q (requeue q id delay now).0
  requeue_held q id delay now w = (
    elim (requeue-refines q id delay now id w) [
      | inl (absent, same) ↦
          subst WellFormed (sym (ap (λ (r : Queue A × Option Error). r.0) same)) w
      | inr (m, there, no_error, w', after) ↦ w'
    ],
    λ k. elim (requeue-refines q id delay now k w) [
      | inl (absent, same) ↦ ap (λ (r : Queue A × Option Error). held r.0 k) same
      | inr (m, there, no_error, w', after) ↦
          ap msg_of after
          ∙ held-put q id m (delayed (now + pos_part delay) m.state m) k there
              (delayed-msg (now + pos_part delay) m.state m)
    ],
  )

  -- Remove takes out what stands under the id, and nothing else.
  pub remove-held :
      (q : Queue A) (id : String)
      → WellFormed q
      → WellFormed (remove q id).0
        × (held (remove q id).0 id ≡ none)
        × ((k : String) → id ≢ k → held (remove q id).0 k ≡ held q k)
  remove-held q id w = (
    elim (remove-refines q id id w) [
      | inl (absent, same) ↦
          subst WellFormed (sym (ap (λ (r : Queue A × Option Error). r.0) same)) w
      | inr (present, no_error, w', after) ↦ w'
    ],
    elim (remove-refines q id id w) [
      | inl (absent, same) ↦
          ap (λ (r : Queue A × Option Error). held r.0 id) same ∙ ap msg_of absent
      | inr (present, no_error, w', after) ↦ ap msg_of (after ∙ put_self (view q) id none)
    ],
    λ k ne. elim (remove-refines q id k w) [
      | inl (absent, same) ↦ ap (λ (r : Queue A × Option Error). held r.0 k) same
      | inr (present, no_error, w', after) ↦ ap msg_of (after ∙ put_ne (view q) id k none ne)
    ],
  )

  -- What a push that succeeds does: a new task under an id that held none.
  abbrev pub Adds : Queue A → String → A → Queue A → Type 0
  Adds q id a q' =
      WellFormed q'
      × (held q id ≡ none)
      × (held q' id ≡ some a)
      × ((k : String) → id ≢ k → held q' k ≡ held q k)

  pub push_held :
      (q : Queue A) (id : String) (a : A)
      → WellFormed q
      → (push q id a).1 ≡ none
      → Adds q id a (push q id a).0
  push_held q id a w ok = (
    elim (push-refines q id a id w) [
      | inl (present, same) ↦ absurd (cc (ap (λ (r : Queue A × Option Error). r.1) same))
      | inr (absent, no_error, w', after) ↦ w'
    ],
    elim (push-refines q id a id w) [
      | inl (present, same) ↦ absurd (cc (ap (λ (r : Queue A × Option Error). r.1) same))
      | inr (absent, no_error, w', after) ↦ ap msg_of absent
    ],
    elim (push-refines q id a id w) [
      | inl (present, same) ↦ absurd (cc (ap (λ (r : Queue A × Option Error). r.1) same))
      | inr (absent, no_error, w', after) ↦ ap msg_of (after ∙ put_self (view q) id _)
    ],
    λ k ne. elim (push-refines q id a k w) [
      | inl (present, same) ↦ absurd (cc (ap (λ (r : Queue A × Option Error). r.1) same))
      | inr (absent, no_error, w', after) ↦ ap msg_of (after ∙ put_ne (view q) id k _ ne)
    ],
  )
