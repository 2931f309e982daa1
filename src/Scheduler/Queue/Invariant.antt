-- ===== src/Scheduler/Queue/Invariant.antt =====
-- The index and the two lists of scheduler/base/queue.go agree, and every method keeps that.
use Prim.Native.String.{String}
use cubefs_blobstore.Base.{
  ℕ, ◌+◌, ◌<◌, ◌≡◌, ◌≢◌, ◌⊎◌, inl, inr, refl, sym, ap, subst, ◌∙◌, none, some, List, [], ◌∷◌, ◌++◌,
  In, In-append, In-append_left, In-append_right, Option-cases, arith,
}
use cubefs_blobstore.Base.Dict.{
  nat_eq, lookup, insert, string_eq, eq_cases, lookup-insert_self, lookup-insert_ne,
}
use cubefs_blobstore.Base.Refs.{update, update_self, update_ne, Distinct, append-Distinct}
use cubefs_blobstore.Scheduler.Queue.{Queue, MsgEx, MsgState, todo, doing, new_queue, push}

abbrev pub pick : MsgState → List ℕ → List ℕ → List ℕ
pick todo xs ys = xs
pick doing xs ys = ys

module _ {A : Type 0} where
  abbrev pub list_of : Queue A → MsgState → List ℕ
  list_of q s = pick s q.todo_list q.doing_list

  -- An id in the index has an element with that id, in the list that its state names.
  abbrev pub Indexed : Queue A → String → ℕ → Type 0
  Indexed q k e = (m : MsgEx A) × (q.cell e ≡ some m) × (m.id ≡ k) × In e (list_of q m.state)

  -- An element of a list has that list's state, and the index leads back to it.
  abbrev pub Listed : Queue A → MsgState → ℕ → Type 0
  Listed q s e =
      (m : MsgEx A) × (q.cell e ≡ some m)
      × (m.state ≡ s)
      × (lookup m.id q.msgs ≡ some e)
      × (e < q.fresh)

  pub record WellFormed (q : Queue A) : Type 0 where
    pub indexed : (k : String) (e : ℕ) → lookup k q.msgs ≡ some e → Indexed q k e
    pub listed : (s : MsgState) (e : ℕ) → In e (list_of q s) → Listed q s e
    pub distinct : (s : MsgState) → Distinct (list_of q s)

  pub new_queue-WellFormed : (timeout : ℕ) → WellFormed (new_queue {A = A} timeout)
  unfolding new_queue lookup
  new_queue-WellFormed timeout = record {
    indexed = λ k e h. cc;
    listed = elim [ todo ↦ λ e h. absurd h | doing ↦ λ e h. absurd h ];
    distinct = elim [ todo ↦ tt | doing ↦ tt ];
  }

  -- A message is changed in place.
  abbrev pub set_cell : Queue A → ℕ → MsgEx A → Queue A
  set_cell q e n = record q { cell = update q.cell e (some n) }

  -- A new deadline, the one change that a renewal or a requeue makes.
  abbrev pub set_deadline : Queue A → ℕ → MsgEx A → ℕ → Queue A
  set_deadline q e m d = set_cell q e (record m { deadline = d })

  module _ (q : Queue A) (e : ℕ) (m m' : MsgEx A) (same_id : m'.id ≡ m.id)
      (same_state : m'.state ≡ m.state) (c : q.cell e ≡ some m) where
    -- The cell that an element shows after the change has the id and the state of the old one.
    touched :
        (x : ℕ) (n : MsgEx A)
        → q.cell x ≡ some n
        → (n' : MsgEx A) × ((set_cell q e m').cell x ≡ some n')
          × (n'.id ≡ n.id)
          × (n'.state ≡ n.state)
    touched x n h = elim (eq_cases e x) [
      | inl p ↦
          let same : m ≡ n = cc in
          (
            m',
            subst (λ y. (set_cell q e m').cell y ≡ some m') p (update_self q.cell e (some m')),
            same_id ∙ ap (λ (z : MsgEx A). z.id) same,
            same_state ∙ ap (λ (z : MsgEx A). z.state) same,
          )
      | inr p ↦ (n, update_ne q.cell e x _ p ∙ h, refl, refl)
    ]

    pub set_cell-WellFormed : WellFormed q → WellFormed (set_cell q e m')
    set_cell-WellFormed w = record {
      indexed = λ k x h.
          let (n, cell_n, id_n, in_n) = w.indexed k x h in
          let (n', cell', id', state') = touched x n cell_n in
          (n', cell', id' ∙ id_n, subst (λ s. In x (list_of q s)) (sym state') in_n);
      listed = λ s x h.
          let (n, cell_n, state_n, back, below) = w.listed s x h in
          let (n', cell', id', state') = touched x n cell_n in
          (n', cell', state' ∙ state_n, rw id' back, below);
      distinct = w.distinct;
    }

  pub set_deadline-WellFormed :
      (q : Queue A) (e : ℕ) (m : MsgEx A) (d : ℕ)
      → q.cell e ≡ some m
      → WellFormed q
      → WellFormed (set_deadline q e m d)
  set_deadline-WellFormed q e m d c w =
      set_cell-WellFormed q e m (record m { deadline = d }) refl refl c w

  -- The cells of listed elements do not see a write to a fresh element.
  module _ (q : Queue A) (w : WellFormed q) where
    pub listed_lt : (s : MsgState) (e : ℕ) → In e (list_of q s) → e < q.fresh
    listed_lt s e h = (w.listed s e h).4

    pub indexed_lt : (k : String) (e : ℕ) → lookup k q.msgs ≡ some e → e < q.fresh
    indexed_lt k e h = let (n, cell_n, id_n, in_n) = w.indexed k e h in listed_lt n.state e in_n

    pub fresh_not_listed : (s : MsgState) → ¬ In q.fresh (list_of q s)
    fresh_not_listed s h = let below = listed_lt s q.fresh h in omega arith

    -- An element belongs to one list.
    pub one_list : (s t : MsgState) (e : ℕ) → In e (list_of q s) → In e (list_of q t) → s ≡ t
    one_list s t e h k =
        let (n, cell_n, state_n, back, below) = w.listed s e h in
        let (n', cell_n', state_n', back', below') = w.listed t e k in cc

  -- `Push` of an id that is not in the index.
  module _ (q : Queue A) (id : String) (msg : A) (w : WellFormed q) where
    abbrev pub new_msg : MsgEx A
    new_msg = record { id = id; state = todo; deadline = 0; msg = msg }

    abbrev pub pushed : Queue A
    pushed = record q {
      todo_list = q.todo_list ++ q.fresh ∷ [];
      cell = update q.cell q.fresh (some new_msg);
      msgs = insert id q.fresh q.msgs;
      fresh = q.fresh + 1;
    }

    pub old_cell : (e : ℕ) → e < q.fresh → pushed.cell e ≡ q.cell e
    old_cell e h = update_ne q.cell q.fresh e (some new_msg) (omega arith)

    still-In : (s : MsgState) (e : ℕ) → In e (list_of q s) → In e (list_of pushed s)
    still-In todo e h = In-append_left e q.todo_list _ h
    still-In doing e h = h

    pushed-In :
        (s : MsgState) (e : ℕ)
        → In e (list_of pushed s)
        → In e (list_of q s) ⊎ ((e ≡ q.fresh) × (s ≡ todo))
    pushed-In todo e h = elim (In-append e q.todo_list (q.fresh ∷ []) h) [
      | inl l ↦ inl l
      | inr (inl p) ↦ inr (sym p, refl)
      | inr (inr r) ↦ absurd r
    ]
    pushed-In doing e h = inl h

    pub pushed-WellFormed : lookup id q.msgs ≡ none → WellFormed pushed
    pushed-WellFormed absent = record {
      indexed = λ k e h. index_after k e h (eq_cases id k);
      listed = λ s e h. list_after s e (pushed-In s e h);
      distinct = distinct_after;
    }
      where
        index_after :
            (k : String) (e : ℕ)
            → lookup k pushed.msgs ≡ some e
            → (id ≡ k) ⊎ (id ≢ k)
            → Indexed pushed k e
        index_after k e h (inl p) =
            let e_fresh : q.fresh ≡ e = cc (lookup-insert_self id q.fresh q.msgs) in
            (
              new_msg,
              subst (λ x. pushed.cell x ≡ some new_msg) e_fresh (update_self q.cell q.fresh _),
              p,
              In-append_right e q.todo_list _ (inl e_fresh),
            )
        index_after k e h (inr p) =
            let old = sym (lookup-insert_ne id k q.fresh q.msgs p) ∙ h in
            let (n, cell_n, id_n, in_n) = w.indexed k e old in
            (n, old_cell e (indexed_lt q w k e old) ∙ cell_n, id_n, still-In n.state e in_n)

        list_after :
            (s : MsgState) (e : ℕ)
            → In e (list_of q s) ⊎ ((e ≡ q.fresh) × (s ≡ todo))
            → Listed pushed s e
        list_after s e (inl h) =
            let (n, cell_n, state_n, back, below) = w.listed s e h in
            let other : id ≢ n.id = λ p. cc (ap (λ k. lookup k q.msgs) p) in
            (
              n,
              old_cell e below ∙ cell_n,
              state_n,
              lookup-insert_ne id n.id q.fresh q.msgs other ∙ back,
              omega arith,
            )
        list_after s e (inr (p, r)) = (
          new_msg,
          subst (λ x. pushed.cell x ≡ some new_msg) (sym p) (update_self q.cell q.fresh _),
          sym r,
          lookup-insert_self id q.fresh q.msgs ∙ ap some (sym p),
          omega arith,
        )

        distinct_after : (s : MsgState) → Distinct (list_of pushed s)
        distinct_after todo =
            append-Distinct q.fresh q.todo_list (w.distinct todo) (fresh_not_listed q w todo)
        distinct_after doing = w.distinct doing

  pub push-WellFormed :
      (q : Queue A) (id : String) (msg : A) → WellFormed q → WellFormed (push q id msg).0
  unfolding push
  push-WellFormed q id msg w = elim (Option-cases (lookup id q.msgs)) [
    | inl absent ↦ rw (absent, push) (pushed-WellFormed q id msg w absent)
    | inr (e, present) ↦ rw (present, push) w
  ]
