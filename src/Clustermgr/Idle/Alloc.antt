-- ===== src/Clustermgr/Idle/Alloc.antt =====
-- What allocFromOptions of clustermgr/volumemgr/alloc.go hands out.
use cubefs_blobstore.Base.{
  ℕ, suc, ◌+◌, ◌<◌, ◌≤◌, ◌≡◌, ◌≢◌, ◌⊎◌, inl, inr, refl, sym, ap, subst, ◌∙◌, none, some, List, [],
  ◌∷◌, In, length, Option-cases, if◌then◌else◌, leb, ◌==◌, Bool-cases, arith,
}
use cubefs_blobstore.Base.Dict.{lookup, nat_eq, eq_cases, lookup-delete}
use cubefs_blobstore.Base.Refs.{Distinct}
use cubefs_blobstore.Clustermgr.Idle.{
  IdleItem, IdleVolumes, take_out, alloc_loop, alloc_from_options,
}
use cubefs_blobstore.Clustermgr.Idle.Invariant.{WellFormed, take_out-WellFormed}
use cubefs_blobstore.Clustermgr.Idle.Laws.{place}

-- What the loop leaves and returns, with `taken` ids handed out before.
pub record AllocSpec (i : IdleVolumes) (options : List ℕ) (count taken : ℕ)
    (r : IdleVolumes × List ℕ) : Type 0 where
  pub well_formed : WellFormed r.0
  pub distinct : Distinct r.1
  pub offered : (v : ℕ) → In v r.1 → In v options × (place i v ≢ none)
  pub gone : (v : ℕ) → In v r.1 → place r.0 v ≡ none
  pub others : (v : ℕ) → (¬ In v r.1) → place r.0 v ≡ place i v
  pub at_most : (length r.1 ≡ 0) ⊎ ((taken + length r.1 ≤ count) ⊎ (length r.1 ≡ 1))
  pub some_given : (v : ℕ) → In v options → place i v ≢ none → 0 < length r.1
  pub exhausts : taken + length r.1 < count → (v : ℕ) → In v options → place i v ≢ none → In v r.1

place-take_out :
    (i : IdleVolumes) (vid x : ℕ) (t : IdleItem)
    → place (take_out i vid t) x ≡ (if vid == x then none else place i x)
place-take_out i vid x t = ground (arith, lookup-delete vid x i.m)

module _ (i : IdleVolumes) (vid : ℕ) (t : IdleItem) (found : lookup vid i.m ≡ some t)
    (w : WellFormed i) (vids : List ℕ) (count taken : ℕ) where
  present : place i vid ≢ none
  present h = cc

  alloc_last : count ≤ suc taken → AllocSpec i (vid ∷ vids) count taken (take_out i vid t, vid ∷ [])
  alloc_last full = record {
    well_formed = take_out-WellFormed i vid t found w;
    distinct = (λ h. h, tt);
    offered =
        λ v h. elim h [ inl p ↦ (inl p, λ q. present (ap (place i) p ∙ q)) | inr h ↦ absurd h ];
    gone = λ v h. elim h [ inl p ↦ ground (arith, place-take_out i vid v t) | inr h ↦ absurd h ];
    others = λ v n. let away : vid ≢ v = λ p. n (inl p) in ground (arith, place-take_out i vid v t);
    at_most = inr (inr refl);
    some_given = λ v o n. omega arith;
    exhausts = λ h. absurd (omega arith);
  }

  alloc_next :
      {r : IdleVolumes × List ℕ}
      → suc taken < count
      → AllocSpec (take_out i vid t) vids count (suc taken) r
      → AllocSpec i (vid ∷ vids) count taken (r.0, vid ∷ r.1)
  alloc_next {r} more s = record {
    well_formed = s.well_formed;
    distinct = (λ h. (s.offered vid h).1 vid_gone, s.distinct);
    offered = λ v h. elim h [
      | inl p ↦ (inl p, λ q. present (ap (place i) p ∙ q))
      | inr h ↦
          let (o, n) = s.offered v h in (inr o, λ q. n (ground (arith, place-take_out i vid v t)))
    ];
    gone = λ v h. elim h [
      | inl p ↦
          subst (λ z. place r.0 z ≡ none) p
            (s.others vid (λ h'. (s.offered vid h').1 vid_gone) ∙ vid_gone)
      | inr h ↦ s.gone v h
    ];
    others = λ v n.
        let away : vid ≢ v = λ p. n (inl p) in
        s.others v (λ h. n (inr h)) ∙ ground (arith, place-take_out i vid v t);
    at_most = elim (s.at_most) [
      | inl z ↦ inr (inr (ap suc z))
      | inr (inl z) ↦ inr (inl (omega (arith, z)))
      | inr (inr z) ↦ inr (inl (omega (arith, z)))
    ];
    some_given = λ v o n. omega arith;
    exhausts = λ h v o n. elim o [
      | inl p ↦ inl p
      | inr o' ↦ elim (eq_cases vid v) [
        | inl p ↦ inl p
        | inr p ↦
            inr (s.exhausts (omega arith) v o' (λ q. n (ground (arith, place-take_out i vid v t))))
      ]
    ];
  }
    where
      vid_gone : place (take_out i vid t) vid ≡ none
      vid_gone = ground (arith, place-take_out i vid vid t)

alloc_loop-AllocSpec :
    (i : IdleVolumes) (vids : List ℕ) (count taken : ℕ)
    → WellFormed i
    → AllocSpec i vids count taken (alloc_loop i vids count taken)
unfolding alloc_loop
alloc_loop-AllocSpec i [] count taken w = record {
  well_formed = w;
  distinct = tt;
  offered = λ v h. absurd h;
  gone = λ v h. absurd h;
  others = λ v n. refl;
  at_most = inl refl;
  some_given = λ v o n. absurd o;
  exhausts = λ h v o n. o;
}
alloc_loop-AllocSpec i (vid ∷ vids) count taken w = elim (Option-cases (lookup vid i.m)) [
  | inl absent ↦
      let s = alloc_loop-AllocSpec i vids count taken w in
      rw (absent, alloc_loop)
        (record {
          well_formed = s.well_formed;
          distinct = s.distinct;
          offered = λ v h. let (o, n) = s.offered v h in (inr o, n);
          gone = s.gone;
          others = s.others;
          at_most = s.at_most;
          some_given = λ v o n. elim o [
            | inl p ↦ absurd (n (ap (place i) (sym p) ∙ ground arith))
            | inr o' ↦ s.some_given v o' n
          ];
          exhausts = λ h v o n. elim o [
            | inl p ↦ absurd (n (ap (place i) (sym p) ∙ ground arith))
            | inr o' ↦ s.exhausts h v o' n
          ];
        })
  | inr (t, found) ↦
      rw (found, alloc_loop)
        (elim (Bool-cases (leb count (suc taken))) [
          | inl full ↦ rw full (alloc_last i vid t found w vids count taken (ground arith))
          | inr more ↦ rw more (
              alloc_next i vid t found w vids count taken (ground arith) (
                alloc_loop-AllocSpec (take_out i vid t) vids count (suc taken)
                  (take_out-WellFormed i vid t found w)))
        ])
]

-- Of the offered ids allocFromOptions hands out such as are idle, each once: all of them if they are fewer
-- than asked for, else as many as asked for, and one, if there is one, if none is asked for. What it hands
-- out is idle no more, everything else stays where it was, and the map and the lists agree.
pub alloc_from_options-AllocSpec :
    (i : IdleVolumes) (options : List ℕ) (count : ℕ)
    → WellFormed i
    → AllocSpec i options count 0 (alloc_from_options i options count)
unfolding alloc_from_options
alloc_from_options-AllocSpec i options count w = alloc_loop-AllocSpec i options count 0 w

-- Two allocations in a row, of any options, hand out no volume twice.
pub alloc_from_options-disjoint :
    (i : IdleVolumes) (options options' : List ℕ) (count count' v : ℕ)
    → WellFormed i
    → In v (alloc_from_options i options count).1
    → ¬ In v (alloc_from_options (alloc_from_options i options count).0 options' count').1
alloc_from_options-disjoint i options options' count count' v w first second =
    let s = alloc_from_options-AllocSpec i options count w in
    let s' =
      alloc_from_options-AllocSpec (alloc_from_options i options count).0 options' count'
        s.well_formed in
    (s'.offered v second).1 (s.gone v first)
