-- ===== src/Clustermgr/Idle/Laws.antt =====
-- The idle volumes of clustermgr/volumemgr/alloc.go as a map from volume id to list, and what is handed out
-- of them.
use cubefs_blobstore.Base.{
  ℕ, ◌≡◌, ◌↔◌, inl, inr, refl, sym, ap, subst, ◌∙◌, Option, none, some, List, [], ◌∷◌, map, In,
  Option-cases, if◌then◌else◌, ◌==◌, arith,
}
use cubefs_blobstore.Base.Dict.{lookup, nat_eq, lookup-insert, lookup-delete}
use cubefs_blobstore.Base.Refs.{Distinct}
use cubefs_blobstore.Clustermgr.Idle.{
  Head, allocatable, not_allocatable, IdleItem, IdleVolumes, remove_old, push_front, get_all_idles,
  add_allocatable, add_not_allocatable, delete_idle,
}
use cubefs_blobstore.Clustermgr.Idle.Invariant.{
  list_of, WellFormed, take_out-WellFormed, add-WellFormed,
}

abbrev head_of : Option IdleItem → Option Head
head_of none = none
head_of (some t) = some t.head

-- The list in which a volume stands, if any.
abbrev pub place : IdleVolumes → ℕ → Option Head
place i v = head_of (lookup v i.m)

pub data IdleCall : Type 0 where
  adds_allocatable : ℕ → IdleCall
  adds_not_allocatable : ℕ → IdleCall
  deletes : ℕ → IdleCall

unfoldable pub idle_step : IdleVolumes → IdleCall → IdleVolumes
idle_step i (adds_allocatable v) = add_allocatable i v
idle_step i (adds_not_allocatable v) = add_not_allocatable i v
idle_step i (deletes v) = delete_idle i v

-- What a call does to the place of a volume.
abbrev pub place_after : IdleCall → (ℕ → Option Head) → ℕ → Option Head
place_after (adds_allocatable v) p x = if v == x then some allocatable else p x
place_after (adds_not_allocatable v) p x = if v == x then some not_allocatable else p x
place_after (deletes v) p x = if v == x then none else p x

push_place :
    (i : IdleVolumes) (h : Head) (v x : ℕ)
    → place (push_front (remove_old i (lookup v i.m)) h v) x
      ≡ (if v == x then some h else place i x)
push_place i h v x = elim (Option-cases (lookup v i.m)) [
  | inl absent ↦
      subst
        (λ o. place (push_front (remove_old i o) h v) x ≡ (if v == x then some h else place i x))
        (sym absent)
        (ground (arith, lookup-insert v x (record { head = h; element = i.fresh }) i.m))
  | inr (t, found) ↦
      subst
        (λ o. place (push_front (remove_old i o) h v) x ≡ (if v == x then some h else place i x))
        (sym found) (ground (arith, lookup-insert v x (record { head = h; element = i.fresh }) i.m))
]

-- Each operation on the idle volumes moves its volume as the map of places says, to the one list, to the
-- other, or out, leaves every other volume where it is, and keeps the map and the lists in agreement.
pub idle_step-refines :
    (i : IdleVolumes) (c : IdleCall) (x : ℕ)
    → WellFormed i
    → WellFormed (idle_step i c) × (place (idle_step i c) x ≡ place_after c (place i) x)
unfolding idle_step add_allocatable add_not_allocatable delete_idle
idle_step-refines i (adds_allocatable v) x w =
    (add-WellFormed i allocatable v w, push_place i allocatable v x)
idle_step-refines i (adds_not_allocatable v) x w =
    (add-WellFormed i not_allocatable v w, push_place i not_allocatable v x)
idle_step-refines i (deletes v) x w = elim (Option-cases (lookup v i.m)) [
  | inl absent ↦ rw (absent, delete_idle) (w, ground arith)
  | inr (t, found) ↦
      rw (found, delete_idle)
        (take_out-WellFormed i v t found w, ground (arith, lookup-delete v x i.m))
]

In-map : (f : ℕ → ℕ) (v : ℕ) (xs : List ℕ) → In v (map f xs) → (e : ℕ) × In e xs × (f e ≡ v)
In-map f v [] h = absurd h
In-map f v (x ∷ xs) (inl p) = (x, inl refl, p)
In-map f v (x ∷ xs) (inr h) = let (e, l, p) = In-map f v xs h in (e, inr l, p)

map-In : (f : ℕ → ℕ) (e : ℕ) (xs : List ℕ) → In e xs → In (f e) (map f xs)
map-In f e [] h = absurd h
map-In f e (x ∷ xs) (inl p) = inl (ap f p)
map-In f e (x ∷ xs) (inr h) = inr (map-In f e xs h)

map-Distinct :
    (f : ℕ → ℕ) (xs : List ℕ)
    → ((a b : ℕ) → In a xs → In b xs → f a ≡ f b → a ≡ b)
    → Distinct xs
    → Distinct (map f xs)
map-Distinct f [] inj d = tt
map-Distinct f (x ∷ xs) inj d = (
  λ h.
      let (e, l, p) = In-map f (f x) xs h in
      d.0 (subst (λ z. In z xs) (inj e x (inr l) (inl refl) p) l),
  map-Distinct f xs (λ a b l k. inj a b (inr l) (inr k)) d.1,
)

-- The list of all idle volumes holds each volume that stands in the allocatable list, once, and no other.
pub get_all_idles-allocatable :
    (i : IdleVolumes)
    → WellFormed i
    → Distinct (get_all_idles i)
      × ((v : ℕ) → In v (get_all_idles i) ↔ (place i v ≡ some allocatable))
unfolding get_all_idles
get_all_idles-allocatable i w = (
  map-Distinct i.value i.allocatable_list
      (λ a b l k p.
        let x = w.listed allocatable a l in
        let y = w.listed allocatable b k in
        let same : some (record { head = allocatable; element = a })
            ≡ some (record { head = allocatable; element = b }) =
          sym x ∙ (ap (λ v. lookup v i.m) p ∙ y) in
        ap (λ (o : Option IdleItem). elim o [ none ↦ a | some t ↦ t.element ]) same)
      (w.distinct allocatable),
  λ v. (
    λ h.
        let (e, l, p) = In-map i.value v i.allocatable_list h in
        rw (sym p, w.listed allocatable e l) refl,
    λ h. elim (Option-cases (lookup v i.m)) [
      | inl absent ↦ absurd (cc)
      | inr (t, found) ↦
          let (l, p) = w.mapped v t found in
          let head : t.head ≡ allocatable = cc in
          subst (λ z. In z (map i.value i.allocatable_list)) p
            (map-In i.value t.element i.allocatable_list
              (subst (λ k. In t.element (list_of i k)) head l))
    ],
  ),
)
