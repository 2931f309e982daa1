-- ===== src/Scheduler/Queue/Updates.antt =====
-- `Push`, `Requeue`, `Remove` and `Get` of scheduler/base/queue.go as operations on the abstract map of
-- messages.
use Prim.Native.String.{String}
use cubefs_blobstore.Base.{
  ℕ, ◌+◌, ◌≡◌, ◌≢◌, ◌⊎◌, inl, inr, refl, sym, subst, ◌∙◌, none, some, Option-cases,
}
use cubefs_blobstore.Base.Int.{ℤ, pos_part}
use cubefs_blobstore.Base.Dict.{lookup, string_eq, eq_cases}
use cubefs_blobstore.Scheduler.Queue.{
  Queue, MsgEx, MsgState, todo, doing, no_such_message_id, existing_message_id, push, requeue,
  requeue_elem, requeue_msg, remove, remove_elem, unlink_msg,
}
use cubefs_blobstore.Scheduler.Queue.Invariant.{
  WellFormed, set_deadline-WellFormed, pushed, pushed-WellFormed,
}
use cubefs_blobstore.Scheduler.Queue.Moves.{removed, removed-WellFormed}
use cubefs_blobstore.Scheduler.Queue.View.{
  view, put, put_self, put_ne, view_of, view-none, view-set_deadline, view-pushed, view-removed,
}
use cubefs_blobstore.Scheduler.Queue.Refinement.{delayed}

module _ {A : Type 0} (q : Queue A) (id : String) where
  pub push_absent :
      (msg : A) (w : WellFormed q)
      → lookup id q.msgs ≡ none
      → push q id msg ≡ (pushed q id msg w, none)
  unfolding push
  push_absent msg w h = rw (h, push)

  push_present :
      (msg : A) (e : ℕ) → lookup id q.msgs ≡ some e → push q id msg ≡ (q, some existing_message_id)
  unfolding push
  push_present msg e h = rw (h, push)

  -- `Push` of an id that the queue holds fails and changes nothing. Of any other id it adds the message,
  -- waiting, changes no other, and keeps the queue well formed.
  pub push-refines :
      (msg : A) (k : String)
      → WellFormed q
      → ((view q id ≢ none) × (push q id msg ≡ (q, some existing_message_id)))
        ⊎ ((view q id ≡ none)
            × ((push q id msg).1 ≡ none)
            × WellFormed (push q id msg).0
            × (view (push q id msg).0 k
                ≡ put
                    (view q)
                    id
                    (some (record { id = id; state = todo; deadline = 0; msg = msg }))
                    k))
  push-refines msg k w = elim (Option-cases (lookup id q.msgs)) [
    | inl absent ↦ inr (
      view-none q id absent,
      rw (push_absent msg w absent),
      rw (push_absent msg w absent) (pushed-WellFormed q id msg w absent),
      rw (push_absent msg w absent) (view-pushed q w id msg k),
    )
    | inr (e, found) ↦
        let (n, cell_n, id_n, in_n) = w.indexed id e found in
        inl (λ h. cc (view_of q id e found), push_present msg e found)
  ]

  requeue_absent :
      (delay : ℤ) (now : ℕ)
      → lookup id q.msgs ≡ none
      → requeue q id delay now ≡ (q, some no_such_message_id)
  unfolding requeue
  requeue_absent delay now h = rw (h, requeue)

  requeue_present :
      (delay : ℤ) (now e : ℕ) (m : MsgEx A)
      → lookup id q.msgs ≡ some e
      → q.cell e ≡ some m
      → requeue q id delay now ≡ (requeue_msg q (now + pos_part delay) e m.state m, none)
  unfolding requeue
  requeue_present delay now e m h c = rw (h, requeue, c, requeue_elem)

  requeue_msg-WellFormed :
      (d e : ℕ) (s : MsgState) (m : MsgEx A)
      → WellFormed q
      → q.cell e ≡ some m
      → WellFormed (requeue_msg q d e s m)
  unfolding requeue_msg
  requeue_msg-WellFormed d e todo m w c = w
  requeue_msg-WellFormed d e doing m w c = set_deadline-WellFormed q e m d c w

  view-requeue_msg :
      (d e : ℕ) (s : MsgState) (m : MsgEx A) (k : String)
      → WellFormed q
      → lookup id q.msgs ≡ some e
      → q.cell e ≡ some m
      → view (requeue_msg q d e s m) k ≡ put (view q) id (some (delayed d s m)) k
  unfolding requeue_msg
  view-requeue_msg d e todo m k w h c = elim (eq_cases id k) [
    | inl p ↦
        subst (λ j. view q j ≡ put (view q) id (some m) j) p
          (view_of q id e h ∙ (c ∙ sym (put_self (view q) id (some m))))
    | inr p ↦ sym (put_ne (view q) id k (some m) p)
  ]
  view-requeue_msg d e doing m k w h c = view-set_deadline q w id e m d k h

  -- `Requeue` of an id that the queue does not hold fails and changes nothing. A waiting message it
  -- leaves alone; a leased one becomes available once the delay, at least 0, is over. No other message
  -- changes, and the queue stays well formed.
  pub requeue-refines :
      (delay : ℤ) (now : ℕ) (k : String)
      → WellFormed q
      → ((view q id ≡ none) × (requeue q id delay now ≡ (q, some no_such_message_id)))
        ⊎ ((m : MsgEx A) × (view q id ≡ some m)
            × ((requeue q id delay now).1 ≡ none)
            × WellFormed (requeue q id delay now).0
            × (view (requeue q id delay now).0 k
                ≡ put (view q) id (some (delayed (now + pos_part delay) m.state m)) k))
  requeue-refines delay now k w = elim (Option-cases (lookup id q.msgs)) [
    | inl absent ↦ inl (view-none q id absent, requeue_absent delay now absent)
    | inr (e, found) ↦
        let (m, c, id_m, in_m) = w.indexed id e found in
        let d = now + pos_part delay in
        let step = requeue_present delay now e m found c in
        inr (
          m,
          view_of q id e found ∙ c,
          rw step,
          rw step (requeue_msg-WellFormed d e m.state m w c),
          rw step (view-requeue_msg d e m.state m k w found c),
        )
  ]

  remove_absent : lookup id q.msgs ≡ none → remove q id ≡ (q, some no_such_message_id)
  unfolding remove
  remove_absent h = rw (h, remove)

  unlink_msg_lem :
      (e : ℕ) (m : MsgEx A) (w : WellFormed q) (h : lookup id q.msgs ≡ some e)
      (c : q.cell e ≡ some m) (s : MsgState)
      → unlink_msg q id e s ≡ removed q id e m w h c s
  unfolding unlink_msg
  unlink_msg_lem e m w h c todo = refl
  unlink_msg_lem e m w h c doing = refl

  remove_present :
      (e : ℕ) (m : MsgEx A) (w : WellFormed q) (h : lookup id q.msgs ≡ some e)
      (c : q.cell e ≡ some m)
      → remove q id ≡ (removed q id e m w h c m.state, none)
  unfolding remove
  remove_present e m w h c = rw (h, remove, c, remove_elem, unlink_msg_lem e m w h c m.state)

  -- `Remove` of an id that the queue does not hold fails and changes nothing. Of an id that it holds it
  -- takes the message out, changes no other, and keeps the queue well formed.
  pub remove-refines :
      (k : String)
      → WellFormed q
      → ((view q id ≡ none) × (remove q id ≡ (q, some no_such_message_id)))
        ⊎ ((view q id ≢ none)
            × ((remove q id).1 ≡ none)
            × WellFormed (remove q id).0
            × (view (remove q id).0 k ≡ put (view q) id none k))
  remove-refines k w = elim (Option-cases (lookup id q.msgs)) [
    | inl absent ↦ inl (view-none q id absent, remove_absent absent)
    | inr (e, found) ↦
        let (m, c, id_m, in_m) = w.indexed id e found in
        let step = remove_present e m w found c in
        inr (
          λ h. cc (view_of q id e found),
          rw step,
          rw step (removed-WellFormed q id e m w found c),
          rw step (view-removed q w id e m found c m.state k),
        )
  ]
