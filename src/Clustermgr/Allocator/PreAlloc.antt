-- ===== src/Clustermgr/Allocator/PreAlloc.antt =====
-- PreAlloc of clustermgr/volumemgr/alloc.go: when it ends, and what it hands out.
use cubefs_blobstore.Base.{
  ℕ, zero, suc, ◌+◌, ◌≤◌, ◌≡◌, inl, inr, refl, sym, ap, subst, ◌∙◌, true, false, Option, none, some,
  List, [], ◌∷◌, In, In-append, All, Bool-cases, Option-cases, ◌>>=◌, arith,
}
use cubefs_blobstore.Base.Int.{ℤ, pos, negsuc, leb_int, decr}
use cubefs_blobstore.Base.Refs.{Distinct}
use cubefs_blobstore.Clustermgr.Volume.{Volume, can_insert, can_alloc}
use cubefs_blobstore.Clustermgr.Idle.{
  IdleVolumes, not_allocatable, get_all_idles, add_not_allocatable, alloc_from_options,
}
use cubefs_blobstore.Clustermgr.Idle.Invariant.{WellFormed, add-WellFormed}
use cubefs_blobstore.Clustermgr.Idle.Laws.{place}
use cubefs_blobstore.Clustermgr.Idle.Alloc.{alloc_from_options-AllocSpec}
use cubefs_blobstore.Clustermgr.Allocator.{
  VolumeAllocator, Limits, selects, retires, pass, relax, passes, pre_alloc_idles,
  is_enable_disk_load,
}
use cubefs_blobstore.Clustermgr.Allocator.Termination.{
  IsIdle, rounds, passes-IsIdle, passes-stuck, leb_int_trans,
}

module _ (a : VolumeAllocator) (vols : ℕ → Volume) (lowest : ℤ) where
  -- A volume can be allocated in one pass.
  abbrev CanAlloc : ℕ → Type 0
  CanAlloc v = can_alloc (vols v) a.freeze_threshold lowest ≡ true

  selects-CanAlloc :
      (l : Limits) (v : ℕ)
      → leb_int lowest l.score ≡ true
      → selects a vols lowest l v ≡ true
      → CanAlloc v
  unfolding can_alloc
  selects-CanAlloc l v low h =
      ground (arith, leb_int_trans lowest l.score (vols v).vol_info_base.health_score low)

  -- What a pass selects may be allocated, and the idle volumes stay well formed.
  pass_sound :
      (l : Limits) (i : IdleVolumes) (vs : List ℕ)
      → leb_int lowest l.score ≡ true
      → WellFormed i
      → WellFormed (pass a vols lowest l i vs).0
        × ((v : ℕ) → In v (pass a vols lowest l i vs).1 → CanAlloc v)
  unfolding pass add_not_allocatable
  pass_sound l i [] low w = (w, λ v h. absurd h)
  pass_sound l i (x ∷ vs) low w = elim (Bool-cases (selects a vols lowest l x)) [
    | inl picked ↦
        let rest = pass_sound l i vs low w in
        rw picked (
          rest.0,
          λ v h. elim h [
            | inl p ↦ subst CanAlloc p (selects-CanAlloc l x low picked)
            | inr m ↦ rest.1 v m
          ],
        )
    | inr left ↦ elim (Bool-cases (retires a vols lowest x)) [
      | inl out ↦
          rw (left, out)
            (pass_sound l (add_not_allocatable i x) vs low (add-WellFormed i not_allocatable x w))
      | inr stays ↦ rw (left, stays) (pass_sound l i vs low w)
    ]
  ]

module _ (a : VolumeAllocator) (lowest : ℤ) where
  decr_above : (s l : ℤ) → leb_int s l ≡ false → leb_int l (decr s) ≡ true
  decr_above (pos zero) (pos l) h = absurd (ground arith)
  decr_above (pos (suc s)) (pos l) h = ground arith
  decr_above (pos zero) (negsuc l) h = ground arith
  decr_above (pos (suc s)) (negsuc l) h = refl
  decr_above (negsuc s) (pos l) h = absurd (ground arith)
  decr_above (negsuc s) (negsuc l) h = ground arith

  relax_above :
      (l : Limits) → leb_int lowest l.score ≡ true → leb_int lowest (relax a lowest l).score ≡ true
  unfolding relax
  relax_above l low = ground (arith, decr_above l.score lowest)

module _ (a : VolumeAllocator) (vols : ℕ → ℕ → Volume) (lowest : ℤ) where
  abbrev pub first_limits : Limits
  first_limits = record { score = pos 0; load = 0; enabled = is_enable_disk_load a }

  -- PreAlloc ends when every pass finds every volume of the allocatable list idle: one pass for each step of
  -- the limits and two more are enough.
  pub pre_alloc_idles-ends :
      (fuel : ℕ) (i : IdleVolumes) (count : ℕ)
      → ((k : ℕ) → All (IsIdle a (vols k) lowest) (get_all_idles i))
      → rounds a lowest first_limits + 2 ≤ fuel
      → (r : IdleVolumes × List ℕ × ℕ) × (pre_alloc_idles a vols lowest fuel i count ≡ some r)
  unfolding pre_alloc_idles
  pre_alloc_idles-ends fuel i count idle enough =
      let (r, e) =
        passes-IsIdle a vols lowest fuel 0 first_limits i (get_all_idles i) [] idle enough in
      (
        _,
        ap
            (λ (o : Option (IdleVolumes × List ℕ × ℕ)). o >>= λ r'.
              let (i', vids) = alloc_from_options r'.0 r'.1 count in some (i', vids, r'.2))
            e,
      )

  -- PreAlloc does not end while a volume of the list that it reads is not idle: if no pass finds it idle, no
  -- number of passes is enough.
  pub pre_alloc_idles-stuck :
      (fuel : ℕ) (i : IdleVolumes) (count v : ℕ)
      → In v (get_all_idles i)
      → ((k : ℕ) → can_insert (vols k v) ≡ false)
      → pre_alloc_idles a vols lowest fuel i count ≡ none
  unfolding pre_alloc_idles
  pre_alloc_idles-stuck fuel i count v m busy =
      ap
        (λ (o : Option (IdleVolumes × List ℕ × ℕ)).
          o >>= λ r'. let (i', vids) = alloc_from_options r'.0 r'.1 count in some (i', vids, r'.2))
        (passes-stuck a vols lowest fuel 0 first_limits i v (get_all_idles i) [] busy m)

  -- Some pass finds that the volume can be allocated.
  abbrev pub Allocatable : ℕ → Type 0
  Allocatable v = (k : ℕ) × (can_alloc (vols k v) a.freeze_threshold lowest ≡ true)

  passes_sound :
      (fuel k : ℕ) (l : Limits) (i : IdleVolumes) (vs selected : List ℕ)
      (r : IdleVolumes × List ℕ × ℕ)
      → leb_int lowest l.score ≡ true
      → WellFormed i
      → ((v : ℕ) → In v selected → Allocatable v)
      → passes a vols lowest fuel k l i vs selected ≡ some r
      → WellFormed r.0 × ((v : ℕ) → In v r.1 → Allocatable v)
  unfolding passes
  passes_sound zero k l i vs selected r low w good e = absurd (cc)
  passes_sound (suc fuel) k l i [] selected r low w good e =
      let same : (i, selected, l.load) ≡ r = cc in
      subst
        (λ (z : IdleVolumes × List ℕ × ℕ). WellFormed z.0 × ((v : ℕ) → In v z.1 → Allocatable v))
        same (w, good)
  passes_sound (suc fuel) k l i (x ∷ vs) selected r low w good e =
      let (w', found) = pass_sound a (vols k) lowest l i (x ∷ vs) low w in
      passes_sound fuel (suc k) (relax a lowest l) _ _ _ r (relax_above a lowest l low) w'
        (λ v h. elim (In-append v selected (pass a (vols k) lowest l i (x ∷ vs)).1 h) [
          | inl m ↦ good v m
          | inr m ↦ (k, found v m)
        ])
        e

  abbrev finish : ℕ → Option (IdleVolumes × List ℕ × ℕ) → Option (IdleVolumes × List ℕ × ℕ)
  finish count o =
      o >>= λ r'. let (i', vids) = alloc_from_options r'.0 r'.1 count in some (i', vids, r'.2)

  -- When the score threshold of the mode is not above the healthiest score, PreAlloc hands out such volumes
  -- only as one of its passes finds idle, with more free space than the freeze threshold, and at or above the
  -- score threshold. It hands out each once and takes it out of the idle volumes, whose map and lists still
  -- agree.
  pub pre_alloc_idles_sound :
      (fuel : ℕ) (i : IdleVolumes) (count : ℕ) (r : IdleVolumes × List ℕ × ℕ)
      → leb_int lowest (pos 0) ≡ true
      → WellFormed i
      → pre_alloc_idles a vols lowest fuel i count ≡ some r
      → WellFormed r.0 × Distinct r.1 × ((v : ℕ) → In v r.1 → Allocatable v × (place r.0 v ≡ none))
  unfolding pre_alloc_idles
  pre_alloc_idles_sound fuel i count r low w e =
      elim (Option-cases (passes a vols lowest fuel 0 first_limits i (get_all_idles i) [])) [
        | inl out ↦ absurd (none_some out)
        | inr (q, found) ↦
            let (w', good) =
              passes_sound fuel 0 first_limits i (get_all_idles i) [] q low w (λ v h. absurd h)
                found in
            let s = alloc_from_options-AllocSpec q.0 q.1 count w' in
            let same : (
              (alloc_from_options q.0 q.1 count).0,
              (alloc_from_options q.0 q.1 count).1,
              q.2,
            )
                ≡ r =
              result q found in
            subst
              (λ (z : IdleVolumes × List ℕ × ℕ).
                WellFormed z.0
                × Distinct z.1
                × ((v : ℕ) → In v z.1 → Allocatable v × (place z.0 v ≡ none)))
              same (s.well_formed, s.distinct, λ v h. (good v (s.offered v h).0, s.gone v h))
      ]
    where
      none_some : passes a vols lowest fuel 0 first_limits i (get_all_idles i) [] ≡ none → ⊥
      none_some out =
          let p : ◌≡◌ {A = Option (IdleVolumes × List ℕ × ℕ)} none (some r) =
            ap (finish count) (sym out) ∙ e in
          cc

      result :
          (q : IdleVolumes × List ℕ × ℕ)
          → passes a vols lowest fuel 0 first_limits i (get_all_idles i) [] ≡ some q
          → ((alloc_from_options q.0 q.1 count).0, (alloc_from_options q.0 q.1 count).1, q.2) ≡ r
      result q found =
          let p : finish count (some q) ≡ some r = ap (finish count) (sym found) ∙ e in
          ap (λ (o : Option (IdleVolumes × List ℕ × ℕ)). elim o [ none ↦ r | some z ↦ z ]) p
