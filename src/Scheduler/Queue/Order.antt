-- ===== src/Scheduler/Queue/Order.antt =====
-- The queue of scheduler/base/queue.go hands waiting messages out in the order in which they came.
use Prim.Native.String.{String}
use cubefs_blobstore.Base.{
  ℕ, ◌+◌, ◌≤◌, ◌≡◌, inl, inr, refl, sym, ap, subst, ◌∙◌, false, Option, none, some, List, [], ◌∷◌,
  ◌++◌, if◌then◌else◌, In, length, length-append, replicate, arith,
}
use cubefs_blobstore.Base.Dict.{string_eq}
use cubefs_blobstore.Base.Refs.{update_self, update_ne}
use cubefs_blobstore.Scheduler.Queue.{
  Queue, MsgEx, MsgState, todo, doing, has_expired, find_expired, push, pop, pop_todo, pop_front,
  lease_at,
}
use cubefs_blobstore.Scheduler.Queue.Invariant.{
  list_of, WellFormed, pushed, new_msg, pushed-WellFormed, listed_lt, old_cell,
}
use cubefs_blobstore.Scheduler.Queue.Moves.{leased, leased_msg, leased-WellFormed}
use cubefs_blobstore.Scheduler.Queue.View.{view, absent_of_view}
use cubefs_blobstore.Scheduler.Queue.Traces.{Call, pops, step, popped, handed}
use cubefs_blobstore.Scheduler.Queue.Updates.{push_absent}

module _ {A : Type 0} where
  abbrev add_id : Option (MsgEx A) → List String → List String
  add_id none l = l
  add_id (some m) l = m.id ∷ l

  -- The ids of the elements of a list.
  unfoldable pub ids : (ℕ → Option (MsgEx A)) → List ℕ → List String
  ids cell [] = []
  ids cell (x ∷ xs) = add_id (cell x) (ids cell xs)

  -- The waiting messages, oldest first.
  abbrev pub waiting : Queue A → List String
  waiting q = ids q.cell q.todo_list

  -- No lease has run out.
  abbrev pub NothingLate : Queue A → ℕ → Type 0
  NothingLate q now = find_expired q.cell now q.doing_list ≡ none

  ids_cong :
      (f g : ℕ → Option (MsgEx A)) (xs : List ℕ)
      → ((x : ℕ) → In x xs → f x ≡ g x)
      → ids f xs ≡ ids g xs
  unfolding ids
  ids_cong f g [] h = refl
  ids_cong f g (x ∷ xs) h =
      let this = h x (inl refl) in
      let rest = ids_cong f g xs (λ y i. h y (inr i)) in λ i. add_id (this i) (rest i)

  find_expired_cong :
      (f g : ℕ → Option (MsgEx A)) (now : ℕ) (xs : List ℕ)
      → ((x : ℕ) → In x xs → f x ≡ g x)
      → find_expired f now xs ≡ find_expired g now xs
  unfolding find_expired
  find_expired_cong f g now [] h = refl
  find_expired_cong f g now (x ∷ xs) h =
      let this = h x (inl refl) in
      let rest = find_expired_cong f g now xs (λ y i. h y (inr i)) in
      λ i. if has_expired now (this i) then some x else rest i

  find_expired_cons :
      (f : ℕ → Option (MsgEx A)) (now x : ℕ) (xs : List ℕ) (m : MsgEx A)
      → f x ≡ some m
      → now ≤ m.deadline
      → find_expired f now (x ∷ xs) ≡ find_expired f now xs
  unfolding find_expired
  find_expired_cons f now x xs m c h =
      let timely : has_expired now (f x) ≡ false = ground arith in
      λ i. if timely i then some x else find_expired f now xs

  popped_pops :
      (q : Queue A) (now : ℕ) (cs : List (Call A))
      → popped q (pops now ∷ cs) ≡ handed (pop q now).1 (popped (pop q now).0 cs)
  unfolding popped step
  popped_pops q now cs = refl

  ids-append :
      (f : ℕ → Option (MsgEx A)) (xs : List ℕ) (x : ℕ) (m : MsgEx A)
      → f x ≡ some m
      → ids f (xs ++ x ∷ []) ≡ ids f xs ++ m.id ∷ []
  unfolding ids
  ids-append f [] x m h = rw h
  ids-append f (y ∷ ys) x m h = ground (arith, ids-append f ys x m h)

  module _ (q : Queue A) (now e : ℕ) (rest : List ℕ) (m : MsgEx A) (w : WellFormed q)
      (front : q.todo_list ≡ e ∷ rest) (c : q.cell e ≡ some m) where
    unchanged :
        (s : MsgState) (x : ℕ)
        → In x (list_of q s)
        → (leased q now e rest m w front c).cell x ≡ q.cell x
    unchanged s x h = let below = listed_lt q w s x h in update_ne q.cell q.fresh x _ (omega arith)

    leased-NothingLate : NothingLate q now → NothingLate (leased q now e rest m w front c) now
    leased-NothingLate h =
        let q' = leased q now e rest m w front c in
        find_expired_cons q'.cell now q.fresh q.doing_list (leased_msg q now e rest m w front c)
          (update_self q.cell q.fresh _) (omega arith)
        ∙ (find_expired_cong q'.cell q.cell now q.doing_list (unchanged doing) ∙ h)

    pop-leased :
        NothingLate q now → pop q now ≡ (leased q now e rest m w front c, some (m.id, m.msg))
    unfolding pop lease_at
    pop-leased h = rw (h, pop) (rw (front, pop_todo) (rw (c, pop_front)))

    waiting_after : ids q.cell (e ∷ rest) ≡ m.id ∷ waiting (leased q now e rest m w front c)
    unfolding ids
    waiting_after =
        let same =
          ids_cong (leased q now e rest m w front c).cell q.cell rest
            (λ x i. unchanged todo x (subst (λ l. In x l) (sym front) (inr i))) in
        λ i. add_id (c i) (sym same i)

  pops_in_order :
      (xs : List ℕ) (q : Queue A) (now : ℕ)
      → WellFormed q
      → NothingLate q now
      → q.todo_list ≡ xs
      → popped q (replicate (length xs) (pops now)) ≡ ids q.cell xs
  pops_in_order [] q now w h e = unfold ids popped in refl
  pops_in_order (x ∷ xs) q now w h e =
      let (m, c, state_m, back, below) = w.listed todo x (subst (λ l. In x l) (sym e) (inl refl)) in
      let q' = leased q now x xs m w e c in
      let rest =
        pops_in_order xs q' now (leased-WellFormed q now x xs m w e c)
          (leased-NothingLate q now x xs m w e c h) refl in
      popped_pops q now (replicate (length xs) (pops now))
      ∙ (ap
            (λ (r : Queue A × Option (String × A)).
              handed r.1 (popped r.0 (replicate (length xs) (pops now))))
            (pop-leased q now x xs m w e c h)
          ∙ (ap (λ l. m.id ∷ l) rest ∙ sym (waiting_after q now x xs m w e c)))

  -- A message pushed to a well-formed queue with no late lease is handed out after all that waited
  -- before it, which come in their order: as many pops as there are then waiting messages, at one time,
  -- return the ids that waited, oldest first, and the new one last.
  pub pop_order :
      (q : Queue A) (now : ℕ) (id : String) (msg : A)
      → WellFormed q
      → NothingLate q now
      → view q id ≡ none
      → popped (push q id msg).0 (replicate (length q.todo_list + 1) (pops now))
        ≡ waiting q ++ id ∷ []
  pop_order q now id msg w h absent =
      let q' = pushed q id msg w in
      let no_id = absent_of_view q w id absent in
      let old = λ (s : MsgState) (x : ℕ) (i : In x (list_of q s)).
        old_cell q id msg w x (listed_lt q w s x i) in
      let late : NothingLate q' now =
        find_expired_cong q'.cell q.cell now q.doing_list (old doing) ∙ h in
      let count : length q'.todo_list ≡ length q.todo_list + 1 =
        length-append q.todo_list (q.fresh ∷ []) in
      rw (push_absent q id msg w no_id) (
        subst (λ n. popped q' (replicate n (pops now)) ≡ waiting q ++ id ∷ []) count
          (pops_in_order q'.todo_list q' now (pushed-WellFormed q id msg w no_id) late refl
            ∙ (ids-append q'.cell q.todo_list q.fresh (new_msg q id msg w)
                  (update_self q.cell q.fresh _)
                ∙ ap (λ l. l ++ id ∷ []) (ids_cong q'.cell q.cell q.todo_list (old todo)))))
