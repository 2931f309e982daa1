-- ===== src/Scheduler/Queue/View.antt =====
-- The abstract view of the queue of scheduler/base/queue.go: a map from message ids to messages. Each
-- method is an update of that map.
use Prim.Native.String.{String}
use text.Mathlib.Text.{◌==◌ as str_eq}
use cubefs_blobstore.Base.{
  ℕ, ◌≡◌, ◌≢◌, inl, inr, sym, ap, subst, ◌∙◌, Option, none, some, List, ◌∷◌, if◌then◌else◌, In,
  Option-cases, Bool-cases, arith,
}
use cubefs_blobstore.Base.Dict.{
  nat_eq, lookup, insert, string_eq, eq_cases, beq_refl, beq_ne, lookup-insert_self,
  lookup-insert_ne, lookup-delete_self, lookup-delete_ne,
}
use cubefs_blobstore.Base.Refs.{update, update_self, update_ne}
use cubefs_blobstore.Scheduler.Queue.{Queue, MsgEx, MsgState, deref}
use cubefs_blobstore.Scheduler.Queue.Invariant.{
  list_of, WellFormed, set_cell, set_deadline, pushed, new_msg, indexed_lt,
}
use cubefs_blobstore.Scheduler.Queue.Moves.{leased, leased_msg, removed}

module _ {A : Type 0} where
  -- What the queue holds under an id.
  abbrev pub view : Queue A → String → Option (MsgEx A)
  view q k = deref q (lookup k q.msgs)

  -- The map with one entry replaced.
  abbrev pub put :
      (String → Option (MsgEx A)) → String → Option (MsgEx A) → String → Option (MsgEx A)
  put v id o k = if str_eq id k then o else v k

  pub put_self :
      (v : String → Option (MsgEx A)) (id : String) (o : Option (MsgEx A)) → put v id o id ≡ o
  put_self v id o = rw (beq_refl id)

  pub put_ne :
      (v : String → Option (MsgEx A)) (id k : String) (o : Option (MsgEx A))
      → id ≢ k
      → put v id o k ≡ v k
  put_ne v id k o h = rw (beq_ne id k h)

  pub put-put :
      (v : String → Option (MsgEx A)) (id k : String) (a b : Option (MsgEx A))
      → put (put v id a) id b k ≡ put v id b k
  put-put v id k a b = elim (Bool-cases (str_eq id k)) [ inl p ↦ rw p | inr p ↦ rw p ]

  pub put_cong :
      (v v' : String → Option (MsgEx A)) (id k : String) (o : Option (MsgEx A))
      → v k ≡ v' k
      → put v id o k ≡ put v' id o k
  put_cong v v' id k o h = rw h

  pub view_of : (q : Queue A) (k : String) (e : ℕ) → lookup k q.msgs ≡ some e → view q k ≡ q.cell e
  unfolding deref
  view_of q k e h = rw h

  pub view-none : (q : Queue A) (k : String) → lookup k q.msgs ≡ none → view q k ≡ none
  unfolding deref
  view-none q k h = rw h

  module _ (q : Queue A) (w : WellFormed q) where
    -- What stands under an id is a message of that id, in the list of its state.
    pub view-some :
        (k : String) (m : MsgEx A)
        → view q k ≡ some m
        → (e : ℕ) × (lookup k q.msgs ≡ some e)
          × (q.cell e ≡ some m)
          × (m.id ≡ k)
          × In e (list_of q m.state)
    view-some k m h = elim (Option-cases (lookup k q.msgs)) [
      | inl absent ↦ absurd (cc (view-none q k absent))
      | inr (e, found) ↦
          let (n, cell_n, id_n, in_n) = w.indexed k e found in
          let same : n ≡ m = cc (view_of q k e found) in
          (
            e,
            found,
            cell_n ∙ ap some same,
            ap (λ (z : MsgEx A). z.id) (sym same) ∙ id_n,
            subst (λ (z : MsgEx A). In e (list_of q z.state)) same in_n,
          )
    ]

    pub absent_of_view : (k : String) → view q k ≡ none → lookup k q.msgs ≡ none
    absent_of_view k h = elim (Option-cases (lookup k q.msgs)) [
      | inl absent ↦ absent
      | inr (e, found) ↦
          let (n, cell_n, id_n, in_n) = w.indexed k e found in absurd (cc (view_of q k e found))
    ]

    -- Two ids lead to two elements.
    pub index_injective :
        (id k : String) (e : ℕ) → lookup id q.msgs ≡ some e → lookup k q.msgs ≡ some e → id ≡ k
    index_injective id k e h h' =
        let (n, cell_n, id_n, in_n) = w.indexed id e h in
        let (n', cell_n', id_n', in_n') = w.indexed k e h' in
        let same : n ≡ n' = cc in sym id_n ∙ (ap (λ (z : MsgEx A). z.id) same ∙ id_n')

    pub view-set_cell :
        (id : String) (e : ℕ) (new : MsgEx A) (k : String)
        → lookup id q.msgs ≡ some e
        → view (set_cell q e new) k ≡ put (view q) id (some new) k
    view-set_cell id e new k h = elim (eq_cases id k) [
      | inl p ↦
          subst (λ j. view (set_cell q e new) j ≡ put (view q) id (some new) j) p
            (view_of (set_cell q e new) id e h
              ∙ (update_self q.cell e (some new) ∙ sym (put_self (view q) id (some new))))
      | inr p ↦ elim (Option-cases (lookup k q.msgs)) [
        | inl absent ↦
            view-none (set_cell q e new) k absent
            ∙ (sym (view-none q k absent) ∙ sym (put_ne (view q) id k (some new) p))
        | inr (x, found) ↦
            let other : e ≢ x = λ r. p (index_injective id k x (h ∙ ap some r) found) in
            view_of (set_cell q e new) k x found
            ∙ (update_ne q.cell e x (some new) other
                ∙ (sym (view_of q k x found) ∙ sym (put_ne (view q) id k (some new) p)))
      ]
    ]

    pub view-set_deadline :
        (id : String) (e : ℕ) (m : MsgEx A) (d : ℕ) (k : String)
        → lookup id q.msgs ≡ some e
        → view (set_deadline q e m d) k ≡ put (view q) id (some (record m { deadline = d })) k
    view-set_deadline id e m d k h = view-set_cell id e (record m { deadline = d }) k h

    -- A message in a fresh element, which the index leads to.
    abbrev pub stored : String → MsgEx A → Queue A
    stored id n = record q {
      cell = update q.cell q.fresh (some n);
      msgs = insert id q.fresh q.msgs;
    }

    pub view-stored :
        (id : String) (n : MsgEx A) (k : String) → view (stored id n) k ≡ put (view q) id (some n) k
    view-stored id n k = elim (eq_cases id k) [
      | inl p ↦
          subst (λ j. view (stored id n) j ≡ put (view q) id (some n) j) p
            (view_of (stored id n) id q.fresh (lookup-insert_self id q.fresh q.msgs)
              ∙ (update_self q.cell q.fresh (some n) ∙ sym (put_self (view q) id (some n))))
      | inr p ↦
          let same_index = lookup-insert_ne id k q.fresh q.msgs p in
          elim (Option-cases (lookup k q.msgs)) [
            | inl absent ↦
                view-none (stored id n) k (same_index ∙ absent)
                ∙ (sym (view-none q k absent) ∙ sym (put_ne (view q) id k (some n) p))
            | inr (x, found) ↦
                let below = indexed_lt q w k x found in
                view_of (stored id n) k x (same_index ∙ found)
                ∙ (update_ne q.cell q.fresh x (some n) (omega arith)
                    ∙ (sym (view_of q k x found) ∙ sym (put_ne (view q) id k (some n) p)))
          ]
    ]

    pub view-pushed :
        (id : String) (msg : A) (k : String)
        → view (pushed q id msg w) k ≡ put (view q) id (some (new_msg q id msg w)) k
    unfolding deref
    view-pushed id msg k = view-stored id (new_msg q id msg w) k

    pub view-leased :
        (now e : ℕ) (rest : List ℕ) (m : MsgEx A) (front : q.todo_list ≡ e ∷ rest)
        (c : q.cell e ≡ some m) (k : String)
        → view (leased q now e rest m w front c) k
          ≡ put (view q) m.id (some (leased_msg q now e rest m w front c)) k
    unfolding deref
    view-leased now e rest m front c k = view-stored m.id (leased_msg q now e rest m w front c) k

    pub view-removed :
        (id : String) (e : ℕ) (m : MsgEx A) (found : lookup id q.msgs ≡ some e)
        (c : q.cell e ≡ some m) (s : MsgState) (k : String)
        → view (removed q id e m w found c s) k ≡ put (view q) id none k
    view-removed id e m found c s k = elim (eq_cases id k) [
      | inl p ↦
          subst (λ j. view after j ≡ put (view q) id none j) p
            (view-none after id (lookup-delete_self id q.msgs) ∙ sym (put_self (view q) id none))
      | inr p ↦
          let same_index = lookup-delete_ne id k q.msgs p in
          elim (Option-cases (lookup k q.msgs)) [
            | inl absent ↦
                view-none after k (same_index ∙ absent)
                ∙ (sym (view-none q k absent) ∙ sym (put_ne (view q) id k none p))
            | inr (x, there) ↦
                view_of after k x (same_index ∙ there)
                ∙ (sym (view_of q k x there) ∙ sym (put_ne (view q) id k none p))
          ]
    ]
      where
        after : Queue A
        after = removed q id e m w found c s
