-- ===== src/Scheduler/Queue/Moves.antt =====
-- `Pop`, `Requeue` and `Remove` of scheduler/base/queue.go keep the index and the lists in agreement.
use Prim.Native.String.{String}
use cubefs_blobstore.Base.{
  ℕ, ◌+◌, ◌<◌, ◌≡◌, ◌≢◌, ◌⊎◌, inl, inr, refl, sym, ap, subst, ◌∙◌, some, List, ◌∷◌, In, arith,
}
use cubefs_blobstore.Base.Dict.{
  nat_eq, lookup, insert, delete, string_eq, eq_cases, lookup-insert_self, lookup-insert_ne,
  lookup-delete_self, lookup-delete_ne,
}
use cubefs_blobstore.Base.Refs.{
  update, update_self, update_ne, unlink, Distinct, In-unlink, unlink-In, unlink-Distinct,
}
use cubefs_blobstore.Scheduler.Queue.{Queue, MsgEx, MsgState, todo, doing}
use cubefs_blobstore.Scheduler.Queue.Invariant.{
  pick, list_of, Indexed, Listed, WellFormed, indexed_lt, fresh_not_listed, one_list,
}

module _ {A : Type 0} where
  -- The front message of `todo` is leased.
  module _ (q : Queue A) (now e : ℕ) (rest : List ℕ) (m : MsgEx A) (w : WellFormed q)
      (front : q.todo_list ≡ e ∷ rest) (c : q.cell e ≡ some m) where
    abbrev pub leased_msg : MsgEx A
    leased_msg = record m { state = doing; deadline = now + q.msg_timeout }

    abbrev pub leased : Queue A
    leased = record q {
      todo_list = rest;
      doing_list = q.fresh ∷ q.doing_list;
      cell = update q.cell q.fresh (some leased_msg);
      msgs = insert m.id q.fresh q.msgs;
      fresh = q.fresh + 1;
    }

    e-In : In e (list_of q todo)
    e-In = subst (λ l. In e l) (sym front) (inl refl)

    pub m_indexed : lookup m.id q.msgs ≡ some e
    m_indexed =
        let (n, cell_n, state_n, back, below) = w.listed todo e e-In in
        let same : m ≡ n = cc in ap (λ (z : MsgEx A). lookup z.id q.msgs) same ∙ back

    front-Distinct : Distinct (e ∷ rest)
    front-Distinct = subst Distinct front (w.distinct todo)

    rest-In : (x : ℕ) → In x rest → In x (list_of q todo)
    rest-In x h = subst (λ l. In x l) (sym front) (inr h)

    leased_old_cell : (x : ℕ) → x < q.fresh → leased.cell x ≡ q.cell x
    leased_old_cell x h = update_ne q.cell q.fresh x (some leased_msg) (omega arith)

    -- An old message other than the leased one stays where it was.
    stays : (s : MsgState) (x : ℕ) → x ≢ e → In x (list_of q s) → In x (list_of leased s)
    stays todo x n h = elim (subst (λ l. In x l) front h) [ inl p ↦ absurd (n (sym p)) | inr r ↦ r ]
    stays doing x n h = inr h

    old-Listed : (s : MsgState) (x : ℕ) → x ≢ e → Listed q s x → Listed leased s x
    old-Listed s x h (n, cell_n, state_n, back, below) =
        let other : m.id ≢ n.id = λ p. h (
          let z : some x ≡ some e = sym back ∙ (ap (λ k. lookup k q.msgs) (sym p) ∙ m_indexed) in
          cc) in
        (
          n,
          leased_old_cell x below ∙ cell_n,
          state_n,
          lookup-insert_ne m.id n.id q.fresh q.msgs other ∙ back,
          omega arith,
        )

    pub leased-WellFormed : WellFormed leased
    leased-WellFormed = record {
      indexed = λ k x h. index_after k x h (eq_cases m.id k);
      listed = list_after;
      distinct = elim [
        | todo ↦ front-Distinct.1
        | doing ↦ (fresh_not_listed q w doing, w.distinct doing)
      ];
    }
      where
        index_after :
            (k : String) (x : ℕ)
            → lookup k leased.msgs ≡ some x
            → (m.id ≡ k) ⊎ (m.id ≢ k)
            → Indexed leased k x
        index_after k x h (inl p) =
            let x_fresh : q.fresh ≡ x = cc (lookup-insert_self m.id q.fresh q.msgs) in
            (
              leased_msg,
              subst (λ y. leased.cell y ≡ some leased_msg) x_fresh (update_self q.cell q.fresh _),
              p,
              inl x_fresh,
            )
        index_after k x h (inr p) =
            let old = sym (lookup-insert_ne m.id k q.fresh q.msgs p) ∙ h in
            let (n, cell_n, id_n, in_n) = w.indexed k x old in
            let x_other : x ≢ e =
              λ r. p (let same : m ≡ n = cc in ap (λ (z : MsgEx A). z.id) same ∙ id_n) in
            (
              n,
              leased_old_cell x (indexed_lt q w k x old) ∙ cell_n,
              id_n,
              stays n.state x x_other in_n,
            )

        list_after : (s : MsgState) (x : ℕ) → In x (list_of leased s) → Listed leased s x
        list_after todo x h =
            old-Listed todo x (λ p. front-Distinct.0 (subst (λ y. In y rest) p h))
              (w.listed todo x (rest-In x h))
        list_after doing x (inl p) = (
          leased_msg,
          subst (λ y. leased.cell y ≡ some leased_msg) p (update_self q.cell q.fresh _),
          refl,
          lookup-insert_self m.id q.fresh q.msgs ∙ ap some p,
          omega arith,
        )
        list_after doing x (inr h) =
            old-Listed doing x
              (λ p. cc (one_list q w doing todo x h (subst (λ y. In y q.todo_list) (sym p) e-In)))
              (w.listed doing x h)

  -- The element of an id leaves its list, and the id the index.
  module _ (q : Queue A) (id : String) (e : ℕ) (m : MsgEx A) (w : WellFormed q)
      (found : lookup id q.msgs ≡ some e) (c : q.cell e ≡ some m) where
    abbrev pub removed : MsgState → Queue A
    removed s = record q {
      todo_list = pick s (unlink e q.todo_list) q.todo_list;
      doing_list = pick s q.doing_list (unlink e q.doing_list);
      msgs = delete id q.msgs;
    }

    pub m_found : (m.id ≡ id) × In e (list_of q m.state)
    m_found =
        let (n, cell_n, id_n, in_n) = w.indexed id e found in
        let same : m ≡ n = cc in
        (
          ap (λ (z : MsgEx A). z.id) same ∙ id_n,
          subst (λ (z : MsgEx A). In e (list_of q z.state)) (sym same) in_n,
        )

    In-before :
        (s t : MsgState) (x : ℕ)
        → In e (list_of q s)
        → In x (list_of (removed s) t)
        → In x (list_of q t) × (x ≢ e)
    In-before todo todo x i h = In-unlink e x q.todo_list h
    In-before doing doing x i h = In-unlink e x q.doing_list h
    In-before todo doing x i h =
        (h, λ p. cc (one_list q w doing todo x h (subst (λ y. In y q.todo_list) (sym p) i)))
    In-before doing todo x i h =
        (h, λ p. cc (one_list q w todo doing x h (subst (λ y. In y q.doing_list) (sym p) i)))

    In-after : (s t : MsgState) (x : ℕ) → In x (list_of q t) → x ≢ e → In x (list_of (removed s) t)
    In-after todo todo x h n = unlink-In e x q.todo_list h n
    In-after doing doing x h n = unlink-In e x q.doing_list h n
    In-after todo doing x h n = h
    In-after doing todo x h n = h

    removed-Distinct : (s t : MsgState) → Distinct (list_of (removed s) t)
    removed-Distinct todo todo = unlink-Distinct e q.todo_list (w.distinct todo)
    removed-Distinct doing doing = unlink-Distinct e q.doing_list (w.distinct doing)
    removed-Distinct todo doing = w.distinct doing
    removed-Distinct doing todo = w.distinct todo

    pub removed-WellFormed : WellFormed (removed m.state)
    removed-WellFormed = record {
      indexed = λ k x h. index_after k x h (eq_cases id k);
      listed = list_after;
      distinct = removed-Distinct m.state;
    }
      where
        index_after :
            (k : String) (x : ℕ)
            → lookup k (delete id q.msgs) ≡ some x
            → (id ≡ k) ⊎ (id ≢ k)
            → Indexed (removed m.state) k x
        index_after k x h (inl p) = absurd (
            let gone = lookup-delete_self id q.msgs in cc (ap (λ j. lookup j (delete id q.msgs)) p))
        index_after k x h (inr p) =
            let old = sym (lookup-delete_ne id k q.msgs p) ∙ h in
            let (n, cell_n, id_n, in_n) = w.indexed k x old in
            let other : x ≢ e = λ r.
              p (
                let same : m ≡ n = cc in
                sym m_found.0 ∙ (ap (λ (z : MsgEx A). z.id) same ∙ id_n)) in
            (n, cell_n, id_n, In-after m.state n.state x in_n other)

        list_after :
            (s : MsgState) (x : ℕ)
            → In x (list_of (removed m.state) s)
            → Listed (removed m.state) s x
        list_after s x h =
            let (old, other) = In-before m.state s x m_found.1 h in
            let (n, cell_n, state_n, back, below) = w.listed s x old in
            let kept : id ≢ n.id = λ p. other (
              let z : some x ≡ some e = sym back ∙ (ap (λ k. lookup k q.msgs) (sym p) ∙ found) in
              cc) in
            (n, cell_n, state_n, lookup-delete_ne id n.id q.msgs kept ∙ back, below)
