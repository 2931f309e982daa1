-- ===== src/Scheduler/Queue/Traces.antt =====
-- Histories of the queue of scheduler/base/queue.go: any sequence of calls on it.
use Prim.Native.String.{String}
use cubefs_blobstore.Base.{
  ℕ, ◌+◌, ◌≤◌, ◌≡◌, ◌≢◌, inl, inr, refl, sym, ap, subst, ◌∙◌, Option, none, some, List, [], ◌∷◌, In,
  All, arith,
}
use cubefs_blobstore.Base.Int.{ℤ}
use cubefs_blobstore.Base.Dict.{string_eq}
use cubefs_blobstore.Scheduler.Queue.{Queue, MsgEx, doing, new_queue, push, pop, requeue, remove}
use cubefs_blobstore.Scheduler.Queue.Invariant.{WellFormed, new_queue-WellFormed}
use cubefs_blobstore.Scheduler.Queue.View.{view, put_self, put_ne}
use cubefs_blobstore.Scheduler.Queue.Refinement.{lease, PopSpec, idle, leases, pop-PopSpec}
use cubefs_blobstore.Scheduler.Queue.Updates.{push-refines, requeue-refines, remove-refines}

pub data Call (A : Type 0) : Type 0 where
  pushes : String → A → Call A
  pops : ℕ → Call A
  requeues : String → ℤ → ℕ → Call A
  removes : String → Call A

module _ {A : Type 0} where
  -- The queue after a call, whether it failed or not.
  unfoldable pub step : Queue A → Call A → Queue A
  step q (pushes id msg) = (push q id msg).0
  step q (pops now) = (pop q now).0
  step q (requeues id delay now) = (requeue q id delay now).0
  step q (removes id) = (remove q id).0

  unfoldable pub run : Queue A → List (Call A) → Queue A
  run q [] = q
  run q (c ∷ cs) = run (step q c) cs

  -- The id that a call handed out, if any, in front of a list.
  abbrev pub handed : Option (String × A) → List String → List String
  handed none ids = ids
  handed (some (id, msg)) ids = id ∷ ids

  -- The ids that the pops of a history hand out, in order.
  unfoldable pub popped : Queue A → List (Call A) → List String
  unfolding step
  popped q [] = []
  popped q (pushes id msg ∷ cs) = popped (step q (pushes id msg)) cs
  popped q (pops now ∷ cs) = handed (pop q now).1 (popped (step q (pops now)) cs)
  popped q (requeues id delay now ∷ cs) = popped (step q (requeues id delay now)) cs
  popped q (removes id ∷ cs) = popped (step q (removes id)) cs

  PopSpec-WellFormed :
      (q : Queue A) (now : ℕ) {r : Queue A × Option (String × A)}
      → WellFormed q
      → PopSpec q now r
      → WellFormed r.0
  PopSpec-WellFormed q now w (idle h) = w
  PopSpec-WellFormed q now w (leases q' m v a w' t h) = w'

  pub step-WellFormed : (q : Queue A) (c : Call A) → WellFormed q → WellFormed (step q c)
  unfolding step
  step-WellFormed q (pushes id msg) w = elim (push-refines q id msg id w) [
    | inl (there, same) ↦ rw (same, step) w
    | inr (absent, ok, w', v) ↦ w'
  ]
  step-WellFormed q (pops now) w = PopSpec-WellFormed q now w (pop-PopSpec q now w)
  step-WellFormed q (requeues id delay now) w = elim (requeue-refines q id delay now id w) [
    | inl (absent, same) ↦ rw (same, step) w
    | inr (m, there, ok, w', v) ↦ w'
  ]
  step-WellFormed q (removes id) w = elim (remove-refines q id id w) [
    | inl (absent, same) ↦ rw (same, step) w
    | inr (there, ok, w', v) ↦ w'
  ]

  run-WellFormed : (q : Queue A) (cs : List (Call A)) → WellFormed q → WellFormed (run q cs)
  unfolding run
  run-WellFormed q [] w = w
  run-WellFormed q (c ∷ cs) w = run-WellFormed (step q c) cs (step-WellFormed q c w)

  -- After any history of a new queue the index and the two lists agree: every id of the index leads to
  -- one element with that id, which stands once, in the list that its state names; and every element of
  -- a list has that list's state and is the one that the index has for its id.
  pub run-new_queue-WellFormed :
      (timeout : ℕ) (cs : List (Call A)) → WellFormed (run (new_queue timeout) cs)
  run-new_queue-WellFormed timeout cs = run-WellFormed _ cs (new_queue-WellFormed timeout)

  -- A call that does not touch the lease of `id` before the deadline.
  abbrev pub Undisturbed : String → ℕ → Call A → Type 0
  Undisturbed id deadline (pushes j msg) = Unit
  Undisturbed id deadline (pops now) = now ≤ deadline
  Undisturbed id deadline (requeues j delay now) = j ≢ id
  Undisturbed id deadline (removes j) = j ≢ id

  -- A leased message that stands in the queue.
  abbrev IsLeased : Queue A → String → MsgEx A → Type 0
  IsLeased q id m = (view q id ≡ some m) × (m.state ≡ doing)

  pop_spares :
      (q : Queue A) (now : ℕ) (id : String) (m : MsgEx A) {r : Queue A × Option (String × A)}
      → IsLeased q id m
      → now ≤ m.deadline
      → PopSpec q now r
      → IsLeased r.0 id m × ((ids : List String) → (¬ In id ids) → ¬ In id (handed r.1 ids))
  pop_spares q now id m l d (idle h) = (l, λ ids n. n)
  pop_spares q now id m l d (leases q' n there available w' t h) =
      let other : n.id ≢ id = λ p. unavailable p in
      (
        (h id ∙ (put_ne (view q) n.id id _ other ∙ l.0), l.1),
        λ ids away i. elim i [ inl p ↦ other p | inr r ↦ away r ],
      )
    where
      unavailable : n.id ≡ id → ⊥
      unavailable p =
          let same : n ≡ m = cc (ap (view q) p) in
          let n_doing : n.state ≡ doing = ap (λ (z : MsgEx A). z.state) same ∙ l.1 in
          let n_deadline : n.deadline ≡ m.deadline = ap (λ (z : MsgEx A). z.deadline) same in
          ground arith

  spares :
      (q : Queue A) (id : String) (m : MsgEx A) (cs : List (Call A))
      → WellFormed q
      → IsLeased q id m
      → All (Undisturbed id m.deadline) cs
      → ¬ In id (popped q cs)
  unfolding popped step
  spares q id m [] w l u = λ h. h
  spares q id m (pushes j msg ∷ cs) w l u =
      spares (push q j msg).0 id m cs (step-WellFormed q (pushes j msg) w)
        (elim (push-refines q j msg id w) [
          | inl (there, same) ↦ rw same l
          | inr (absent, ok, w', v) ↦
              (v ∙ (put_ne (view q) j id _ (λ p. cc (ap (view q) p)) ∙ l.0), l.1)
        ])
        u.1
  spares q id m (pops now ∷ cs) w l u =
      let (still, quiet) = pop_spares q now id m l u.0 (pop-PopSpec q now w) in
      quiet _ (spares (pop q now).0 id m cs (step-WellFormed q (pops now) w) still u.1)
  spares q id m (requeues j delay now ∷ cs) w l u =
      spares (requeue q j delay now).0 id m cs (step-WellFormed q (requeues j delay now) w)
        (elim (requeue-refines q j delay now id w) [
          | inl (absent, same) ↦ rw same l
          | inr (n, there, ok, w', v) ↦ (v ∙ (put_ne (view q) j id _ u.0 ∙ l.0), l.1)
        ])
        u.1
  spares q id m (removes j ∷ cs) w l u =
      spares (remove q j).0 id m cs (step-WellFormed q (removes j) w)
        (elim (remove-refines q j id w) [
          | inl (absent, same) ↦ rw same l
          | inr (there, ok, w', v) ↦ (v ∙ (put_ne (view q) j id _ u.0 ∙ l.0), l.1)
        ])
        u.1

  popped-IsLeased :
      (q : Queue A) (now : ℕ) (id : String) (msg : A) {r : Queue A × Option (String × A)}
      → PopSpec q now r
      → r.1 ≡ some (id, msg)
      → (m : MsgEx A) × IsLeased r.0 id m × (m.deadline ≡ now + q.msg_timeout)
  popped-IsLeased q now id msg (idle h) e = absurd (cc)
  popped-IsLeased q now id msg (leases q' n there available w' t h) e =
      let same : n.id ≡ id = ground arith in
      (
        lease (now + q.msg_timeout) n,
        (
          subst (λ j. view q' j ≡ some (lease (now + q.msg_timeout) n)) same
              (h n.id ∙ put_self (view q) n.id _),
          refl,
        ),
        refl,
      )

  -- A message that `Pop` has handed out of a well-formed queue is handed out to nobody else while its
  -- lease lasts: in any history of calls up to the deadline, the timeout after the pop, in which nobody
  -- requeues or removes that id, no pop returns it.
  pub lease_exclusive :
      (q : Queue A) (now : ℕ) (id : String) (msg : A) (cs : List (Call A))
      → WellFormed q
      → (pop q now).1 ≡ some (id, msg)
      → All (Undisturbed id (now + q.msg_timeout)) cs
      → ¬ In id (popped (pop q now).0 cs)
  lease_exclusive q now id msg cs w e u =
      let (m, leased_now, until) = popped-IsLeased q now id msg (pop-PopSpec q now w) e in
      spares (pop q now).0 id m cs (PopSpec-WellFormed q now w (pop-PopSpec q now w)) leased_now
        (subst (λ d. All (Undisturbed id d) cs) (sym until) u)
