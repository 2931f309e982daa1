-- ===== src/Clustermgr/Idle/Invariant.antt =====
-- The map and the two lists of idleVolumes (clustermgr/volumemgr/alloc.go) agree after every operation.
use cubefs_blobstore.Base.{
  ℕ, ◌<◌, ◌≡◌, ◌≢◌, ◌⊎◌, inl, inr, refl, sym, ap, subst, ◌∙◌, none, some, List, In, Option-cases,
  arith,
}
use cubefs_blobstore.Base.Dict.{
  Dict, lookup, insert, delete, nat_eq, eq_cases, lookup-insert, lookup-delete, lookup-insert_self,
  lookup-insert_ne, lookup-delete_self, lookup-delete_ne,
}
use cubefs_blobstore.Base.Refs.{
  update, update_self, update_ne, Distinct, In-unlink, unlink-In, unlink-Distinct,
}
use cubefs_blobstore.Clustermgr.Idle.{
  Head, allocatable, not_allocatable, IdleItem, IdleVolumes, new_idle_volumes, unlink_item,
  remove_old, push_front, take_out,
}

abbrev pub list_of : IdleVolumes → Head → List ℕ
list_of i allocatable = i.allocatable_list
list_of i not_allocatable = i.not_allocatable_list

pub record WellFormed (i : IdleVolumes) : Type 0 where
  pub listed :
      (h : Head) (e : ℕ)
      → In e (list_of i h)
      → lookup (i.value e) i.m ≡ some (record { head = h; element = e })
  pub mapped :
      (v : ℕ) (t : IdleItem)
      → lookup v i.m ≡ some t
      → In t.element (list_of i t.head) × (i.value t.element ≡ v)
  pub below : (h : Head) (e : ℕ) → In e (list_of i h) → e < i.fresh
  pub distinct : (h : Head) → Distinct (list_of i h)

nothing_listed : (h : Head) (e : ℕ) → ¬ In e (list_of new_idle_volumes h)
nothing_listed allocatable e h = h
nothing_listed not_allocatable e h = h

pub new_idle_volumes-WellFormed : WellFormed new_idle_volumes
unfolding lookup
new_idle_volumes-WellFormed = record {
  listed = λ h e l. absurd (nothing_listed h e l);
  mapped = λ v t h. absurd (ground arith);
  below = λ h e l. absurd (nothing_listed h e l);
  distinct = λ h. elim h as (λ k. Distinct (list_of new_idle_volumes k)) [
    | allocatable ↦ tt
    | not_allocatable ↦ tt
  ];
}

list_of-unlink_item :
    (i : IdleVolumes) (h k : Head) (e x : ℕ)
    → In x (list_of (unlink_item i h e) k)
    → In x (list_of i k) × ((x ≢ e) ⊎ (h ≢ k))
list_of-unlink_item i allocatable allocatable e x l =
    let r = In-unlink e x i.allocatable_list l in (r.0, inl r.1)
list_of-unlink_item i allocatable not_allocatable e x l = (l, inr (λ p. cc))
list_of-unlink_item i not_allocatable allocatable e x l = (l, inr (λ p. cc))
list_of-unlink_item i not_allocatable not_allocatable e x l =
    let r = In-unlink e x i.not_allocatable_list l in (r.0, inl r.1)

unlink_item-list_of :
    (i : IdleVolumes) (h k : Head) (e x : ℕ)
    → In x (list_of i k)
    → x ≢ e
    → In x (list_of (unlink_item i h e) k)
unlink_item-list_of i allocatable allocatable e x l n = unlink-In e x i.allocatable_list l n
unlink_item-list_of i allocatable not_allocatable e x l n = l
unlink_item-list_of i not_allocatable allocatable e x l n = l
unlink_item-list_of i not_allocatable not_allocatable e x l n =
    unlink-In e x i.not_allocatable_list l n

unlink_item-Distinct :
    (i : IdleVolumes) (h k : Head) (e : ℕ)
    → Distinct (list_of i k)
    → Distinct (list_of (unlink_item i h e) k)
unlink_item-Distinct i allocatable allocatable e d = unlink-Distinct e i.allocatable_list d
unlink_item-Distinct i allocatable not_allocatable e d = d
unlink_item-Distinct i not_allocatable allocatable e d = d
unlink_item-Distinct i not_allocatable not_allocatable e d =
    unlink-Distinct e i.not_allocatable_list d

list_of-push_front :
    (i : IdleVolumes) (h k : Head) (v x : ℕ)
    → In x (list_of (push_front i h v) k)
    → In x (list_of i k) ⊎ ((i.fresh ≡ x) × (h ≡ k))
list_of-push_front i allocatable allocatable v x (inl p) = inr (p, refl)
list_of-push_front i allocatable allocatable v x (inr l) = inl l
list_of-push_front i allocatable not_allocatable v x l = inl l
list_of-push_front i not_allocatable allocatable v x l = inl l
list_of-push_front i not_allocatable not_allocatable v x (inl p) = inr (p, refl)
list_of-push_front i not_allocatable not_allocatable v x (inr l) = inl l

push_front-list_of :
    (i : IdleVolumes) (h k : Head) (v x : ℕ)
    → In x (list_of i k)
    → In x (list_of (push_front i h v) k)
push_front-list_of i allocatable allocatable v x l = inr l
push_front-list_of i allocatable not_allocatable v x l = l
push_front-list_of i not_allocatable allocatable v x l = l
push_front-list_of i not_allocatable not_allocatable v x l = inr l

push_front-fresh_In :
    (i : IdleVolumes) (h : Head) (v : ℕ) → In i.fresh (list_of (push_front i h v) h)
push_front-fresh_In i allocatable v = inl refl
push_front-fresh_In i not_allocatable v = inl refl

push_front-Distinct :
    (i : IdleVolumes) (h k : Head) (v : ℕ)
    → (¬ In i.fresh (list_of i k))
    → Distinct (list_of i k)
    → Distinct (list_of (push_front i h v) k)
push_front-Distinct i allocatable allocatable v n d = (n, d)
push_front-Distinct i allocatable not_allocatable v n d = d
push_front-Distinct i not_allocatable allocatable v n d = d
push_front-Distinct i not_allocatable not_allocatable v n d = (n, d)

pub take_out-WellFormed :
    (i : IdleVolumes) (vid : ℕ) (t : IdleItem)
    → lookup vid i.m ≡ some t
    → WellFormed i
    → WellFormed (take_out i vid t)
take_out-WellFormed i vid t found w = record {
  listed = λ h e l.
      let (old, other) = list_of-unlink_item i t.head h t.element e l in
      let item = w.listed h e old in
      let away : vid ≢ i.value e = λ p.
        let same : t ≡ record { head = h; element = e } = cc in
        elim other [
          | inl n ↦ n (sym (ap (λ (z : IdleItem). z.element) same))
          | inr n ↦ n (ap (λ (z : IdleItem). z.head) same)
        ] in
      lookup-delete_ne vid (i.value e) i.m away ∙ item;
  mapped = λ v t' h. elim (eq_cases vid v) [
    | inl p ↦ absurd (cc (lookup-delete_self vid i.m))
    | inr p ↦
        let (l, val) = w.mapped v t' (sym (lookup-delete_ne vid v i.m p) ∙ h) in
        let (l', val') = w.mapped vid t found in
        (
          unlink_item-list_of i t.head t'.head t.element t'.element l
              (λ q. p (sym val' ∙ (ap i.value (sym q) ∙ val))),
          val,
        )
  ];
  below = λ h e l. w.below h e (list_of-unlink_item i t.head h t.element e l).0;
  distinct = λ h. unlink_item-Distinct i t.head h t.element (w.distinct h);
}

-- A volume that the map does not have goes to the front of a list.
pub push_front-WellFormed :
    (i : IdleVolumes) (h : Head) (vid : ℕ)
    → lookup vid i.m ≡ none
    → WellFormed i
    → WellFormed (push_front i h vid)
push_front-WellFormed i h vid absent w = record {
  listed = λ k e l. elim (list_of-push_front i h k vid e l) [
    | inl old ↦
        let under = w.below k e old in
        let val = update_ne i.value i.fresh e vid (omega arith) in
        let item = w.listed k e old in
        let away : vid ≢ i.value e = λ p. cc in
        ap (λ v. lookup v (push_front i h vid).m) val
        ∙ (lookup-insert_ne vid (i.value e) _ i.m away ∙ item)
    | inr (p, q) ↦
        ap (λ v. lookup v (push_front i h vid).m)
          (ap (update i.value i.fresh vid) (sym p) ∙ update_self i.value i.fresh vid)
        ∙ (lookup-insert_self vid _ i.m ∙ λ j. some (record { head = q j; element = p j }))
  ];
  mapped = λ v t e. elim (eq_cases vid v) [
    | inl p ↦
        let same : record { head = h; element = i.fresh } ≡ t =
          cc (lookup-insert_self vid (record { head = h; element = i.fresh }) i.m) in
        subst
          (λ (z : IdleItem).
            In z.element (list_of (push_front i h vid) z.head)
            × (update i.value i.fresh vid z.element ≡ v))
          same (push_front-fresh_In i h vid, update_self i.value i.fresh vid ∙ p)
    | inr p ↦
        let (l, val) = w.mapped v t (sym (lookup-insert_ne vid v _ i.m p) ∙ e) in
        let under = w.below t.head t.element l in
        (
          push_front-list_of i h t.head vid t.element l,
          update_ne i.value i.fresh t.element vid (omega arith) ∙ val,
        )
  ];
  below = λ k e l. elim (list_of-push_front i h k vid e l) [
    | inl old ↦ let under = w.below k e old in omega arith
    | inr (p, q) ↦ omega arith
  ];
  distinct = λ k.
      push_front-Distinct i h k vid (λ l. let under = w.below k i.fresh l in omega arith)
        (w.distinct k);
}

-- The map counts by what is looked up in it.
WellFormed-map :
    (i : IdleVolumes) (m' : Dict ℕ IdleItem)
    → ((v : ℕ) → lookup v m' ≡ lookup v i.m)
    → WellFormed i
    → WellFormed (record i { m = m' })
WellFormed-map i m' same w = record {
  listed = λ h e l. same (i.value e) ∙ w.listed h e l;
  mapped = λ v t h. w.mapped v t (sym (same v) ∙ h);
  below = w.below;
  distinct = w.distinct;
}

insert-delete :
    (vid v : ℕ) (x : IdleItem) (m : Dict ℕ IdleItem)
    → lookup v (insert vid x m) ≡ lookup v (insert vid x (delete vid m))
insert-delete vid v x m =
    ground
      (arith, lookup-insert vid v x m, lookup-insert vid v x (delete vid m), lookup-delete vid v m)

pub add-WellFormed :
    (i : IdleVolumes) (h : Head) (vid : ℕ)
    → WellFormed i
    → WellFormed (push_front (remove_old i (lookup vid i.m)) h vid)
add-WellFormed i h vid w = elim (Option-cases (lookup vid i.m)) [
  | inl absent ↦
      subst (λ o. WellFormed (push_front (remove_old i o) h vid)) (sym absent)
        (push_front-WellFormed i h vid absent w)
  | inr (t, found) ↦
      subst (λ o. WellFormed (push_front (remove_old i o) h vid)) (sym found)
        (WellFormed-map (push_front (take_out i vid t) h vid)
          (insert vid (record { head = h; element = i.fresh }) i.m)
          (λ v. insert-delete vid v (record { head = h; element = i.fresh }) i.m)
          (push_front-WellFormed (take_out i vid t) h vid (lookup-delete_self vid i.m)
            (take_out-WellFormed i vid t found w)))
]
