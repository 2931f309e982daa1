-- ===== src/Scheduler/Queue/Refinement.antt =====
-- Each method of scheduler/base/queue.go refines an operation on the abstract map of messages, and
-- keeps the queue well formed.
use Prim.Native.String.{String}
use cubefs_blobstore.Base.{
  ℕ, ◌+◌, ◌≤◌, ◌<◌, ◌≡◌, ◌⊎◌, inl, inr, refl, sym, ap, subst, ◌∙◌, true, Option, none, some, List,
  [], ◌∷◌, ltb→lt, In, Option-cases, Bool-cases, arith,
}
use cubefs_blobstore.Base.Dict.{lookup, string_eq}
use cubefs_blobstore.Scheduler.Queue.{
  Queue, MsgEx, MsgState, todo, doing, find_expired, has_expired, pop, pop_expired, pop_todo,
  pop_front, renew_at, lease_at,
}
use cubefs_blobstore.Scheduler.Queue.Invariant.{
  list_of, WellFormed, set_deadline, set_deadline-WellFormed,
}
use cubefs_blobstore.Scheduler.Queue.Moves.{leased, leased-WellFormed}
use cubefs_blobstore.Scheduler.Queue.View.{
  view, put, view-some, view_of, view-set_deadline, view-leased,
}

module _ {A : Type 0} where
  -- A message that `Pop` may hand out: it waits, or its lease has run out.
  abbrev pub IsAvailable : ℕ → MsgEx A → Type 0
  IsAvailable now m = (m.state ≡ todo) ⊎ ((m.state ≡ doing) × (m.deadline < now))

  abbrev pub lease : ℕ → MsgEx A → MsgEx A
  lease deadline m = record m { state = doing; deadline = deadline }

  -- The state after a requeue.
  abbrev pub delayed : ℕ → MsgState → MsgEx A → MsgEx A
  delayed deadline todo m = m
  delayed deadline doing m = record m { deadline = deadline }

  expired_msg :
      (now : ℕ) (o : Option (MsgEx A))
      → has_expired now o ≡ true
      → (m : MsgEx A) × (o ≡ some m) × (m.deadline < now)
  expired_msg now none h = absurd (cc)
  expired_msg now (some m) h = (m, refl, ltb→lt _ _ h)

  find_expired-some :
      (cell : ℕ → Option (MsgEx A)) (now : ℕ) (xs : List ℕ) (e : ℕ)
      → find_expired cell now xs ≡ some e
      → In e xs × (m : MsgEx A) × (cell e ≡ some m) × (m.deadline < now)
  unfolding find_expired
  find_expired-some cell now [] e h = cc
  find_expired-some cell now (x ∷ xs) e h = elim (Bool-cases (has_expired now (cell x))) [
    | inl hit ↦
        let this : x ≡ e = ground arith in
        let (m, c, late) = expired_msg now (cell x) hit in
        (inl this, m, sym (ap cell this) ∙ c, late)
    | inr miss ↦
        let (i, m, c, d) = find_expired-some cell now xs e (ground arith) in (inr i, m, c, d)
  ]

  find_expired-none :
      (cell : ℕ → Option (MsgEx A)) (now : ℕ) (xs : List ℕ) (e : ℕ) (m : MsgEx A)
      → find_expired cell now xs ≡ none
      → In e xs
      → cell e ≡ some m
      → now ≤ m.deadline
  unfolding find_expired
  find_expired-none cell now [] e m h i c = absurd i
  find_expired-none cell now (x ∷ xs) e m h (inl p) c = ground arith
  find_expired-none cell now (x ∷ xs) e m h (inr i) c =
      find_expired-none cell now xs e m (ground arith) i c

  -- What `Pop` does to the abstract map: nothing, if no message is available; or one available message
  -- is handed out and leased for the timeout, and every other one stays.
  pub data PopSpec (q : Queue A) (now : ℕ) : Queue A × Option (String × A) → Type 0 where
    idle :
        ((k : String) (m : MsgEx A) → view q k ≡ some m → ¬ IsAvailable now m)
        → PopSpec q now (q, none)
    leases :
        (q' : Queue A) (m : MsgEx A)
        → view q m.id ≡ some m
        → IsAvailable now m
        → WellFormed q'
        → q'.msg_timeout ≡ q.msg_timeout
        → ((k : String) → view q' k ≡ put (view q) m.id (some (lease (now + q.msg_timeout) m)) k)
        → PopSpec q now (q', some (m.id, m.msg))

  module _ (q : Queue A) (now : ℕ) (w : WellFormed q) where
    pop_renews :
        (e : ℕ)
        → find_expired q.cell now q.doing_list ≡ some e
        → PopSpec q now (pop_expired q now e (q.cell e))
    unfolding pop_expired renew_at
    pop_renews e h =
        let (i, m, c, late) = find_expired-some q.cell now q.doing_list e h in
        let (n, cell_n, state_n, back, below) = w.listed doing e i in
        let same : n ≡ m = cc in
        let state_m : m.state ≡ doing = ap (λ (z : MsgEx A). z.state) (sym same) ∙ state_n in
        let found : lookup m.id q.msgs ≡ some e =
          ap (λ (z : MsgEx A). lookup z.id q.msgs) (sym same) ∙ back in
        let d = now + q.msg_timeout in
        let leased_eq : record m { deadline = d } ≡ lease d m = ground arith in
        rw (c, pop_expired)
          (leases (set_deadline q e m d) m (view_of q m.id e found ∙ c) (inr (state_m, late))
            (set_deadline-WellFormed q e m d c w) refl
            (λ k.
              view-set_deadline q w m.id e m d k found
              ∙ ap (λ (z : MsgEx A). put (view q) m.id (some z) k) leased_eq))

    pop_leases :
        (xs : List ℕ)
        → q.todo_list ≡ xs
        → find_expired q.cell now q.doing_list ≡ none
        → PopSpec q now (pop_todo q now xs)
    unfolding pop_todo lease_at
    pop_leases [] none_left not_late = idle nothing
      where
        nothing : (k : String) (m : MsgEx A) → view q k ≡ some m → ¬ IsAvailable now m
        nothing k m h (inl waits) =
            let (e, found, c, id_m, in_m) = view-some q w k m h in
            subst (λ l. In e l) none_left (subst (λ s. In e (list_of q s)) waits in_m)
        nothing k m h (inr (leased_out, late)) =
            let (e, found, c, id_m, in_m) = view-some q w k m h in
            let bound =
              find_expired-none q.cell now q.doing_list e m not_late
                (subst (λ s. In e (list_of q s)) leased_out in_m) c in
            omega arith
    pop_leases (e ∷ rest) front not_late =
        let e-In : In e (list_of q todo) = subst (λ l. In e l) (sym front) (inl refl) in
        let (m, c, state_m, back, below) = w.listed todo e e-In in
        rw (c, pop_front)
          (leases (leased q now e rest m w front c) m (view_of q m.id e back ∙ c) (inl state_m)
            (leased-WellFormed q now e rest m w front c) refl
            (view-leased q w now e rest m front c))

    -- `Pop` of a well-formed queue hands out an available message if there is one, leased for the
    -- queue's timeout from now, changes no other message and keeps the queue well formed; it returns
    -- nothing only if no message is available, and then changes nothing.
    pub pop-PopSpec : PopSpec q now (pop q now)
    unfolding pop
    pop-PopSpec = elim (Option-cases (find_expired q.cell now q.doing_list)) [
      | inl not_late ↦ rw (not_late, pop) (pop_leases q.todo_list refl not_late)
      | inr (e, late) ↦ rw (late, pop) (pop_renews e late)
    ]
