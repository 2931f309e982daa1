-- ===== src/Clustermgr/Allocator/Termination.antt =====
-- When PreAlloc of clustermgr/volumemgr/alloc.go comes to an end.
use cubefs_blobstore.Base.{
  ℕ, zero, suc, ◌+◌, ◌-◌, ◌≤◌, ◌≡◌, ◌⊎◌, inl, inr, refl, ap, ◌∙◌, Bool, true, false, none, some,
  List, [], ◌∷◌, In, All, ltb, Bool-cases, arith,
}
use cubefs_blobstore.Base.Int.{ℤ, pos, negsuc, leb_int, decr}
use cubefs_blobstore.Clustermgr.Volume.{Volume, can_insert, can_alloc}
use cubefs_blobstore.Clustermgr.Idle.{IdleVolumes, add_not_allocatable}
use cubefs_blobstore.Clustermgr.Allocator.{
  VolumeAllocator, Limits, selects, retires, pass, relax, passes,
}

pub leb_int_trans : (x y z : ℤ) → leb_int x y ≡ true → leb_int y z ≡ true → leb_int x z ≡ true
leb_int_trans (pos x) (pos y) (pos z) h k = ground arith
leb_int_trans (pos x) (pos y) (negsuc z) h k = absurd (ground arith)
leb_int_trans (pos x) (negsuc y) z h k = absurd (ground arith)
leb_int_trans (negsuc x) (pos y) (pos z) h k = refl
leb_int_trans (negsuc x) (pos y) (negsuc z) h k = absurd (ground arith)
leb_int_trans (negsuc x) (negsuc y) (pos z) h k = refl
leb_int_trans (negsuc x) (negsuc y) (negsuc z) h k = ground arith

module _ (a : VolumeAllocator) (lowest : ℤ) where
  -- How many times the limits can still be relaxed.
  abbrev score_gap : ℤ → ℤ → ℕ
  score_gap (pos s) (pos l) = s - l
  score_gap (pos s) (negsuc l) = s + suc l
  score_gap (negsuc s) (pos l) = 0
  score_gap (negsuc s) (negsuc l) = l - s

  abbrev load_gap : Bool → ℕ → ℕ → ℕ
  load_gap true load most = suc (most - load)
  load_gap false load most = 0

  abbrev pub rounds : Limits → ℕ
  rounds l = load_gap l.enabled l.load a.allocatable_disk_load_threshold + score_gap l.score lowest

  score_gap_pos : (s l : ℤ) → leb_int s l ≡ false → score_gap (decr s) l + 1 ≡ score_gap s l
  score_gap_pos (pos zero) (pos l) h = absurd (ground arith)
  score_gap_pos (pos (suc s)) (pos l) h = ground arith
  score_gap_pos (pos zero) (negsuc l) h = ground arith
  score_gap_pos (pos (suc s)) (negsuc l) h = ground arith
  score_gap_pos (negsuc s) (pos l) h = absurd (ground arith)
  score_gap_pos (negsuc s) (negsuc l) h = ground arith

  -- Either the limits come closer to the last ones or they are the last ones.
  relax_cases :
      (l : Limits)
      → (rounds (relax a lowest l) + 1 ≡ rounds l)
        ⊎ ((l.enabled ≡ false) × (leb_int l.score lowest ≡ true))
  unfolding relax
  relax_cases l = elim (Bool-cases l.enabled) [
    | inl on ↦ elim (Bool-cases (ltb l.load a.allocatable_disk_load_threshold)) [
      | inl more ↦ inl (ground arith)
      | inr full ↦ inl (ground arith)
    ]
    | inr off ↦ elim (Bool-cases (leb_int l.score lowest)) [
      | inl last ↦ inr (off, last)
      | inr above ↦ inl (ground (arith, score_gap_pos l.score lowest above))
    ]
  ]

module _ (a : VolumeAllocator) (vols : ℕ → Volume) (lowest : ℤ) where
  abbrev pub IsIdle : ℕ → Type 0
  IsIdle v = can_insert (vols v) ≡ true

  -- At the last limits an idle volume is selected or retired.
  last_limits :
      (l : Limits) (v : ℕ)
      → l.enabled ≡ false
      → leb_int l.score lowest ≡ true
      → IsIdle v
      → selects a vols lowest l v ≡ false
      → retires a vols lowest v ≡ true
  unfolding can_alloc
  last_limits l v off last idle h =
      ground (arith, leb_int_trans l.score lowest (vols v).vol_info_base.health_score last)

  -- What a pass leaves for the next one is of what it was given.
  pass-All :
      (P : ℕ → Type 0) (l : Limits) (i : IdleVolumes) (vs : List ℕ)
      → All P vs
      → All P (pass a vols lowest l i vs).2
  unfolding pass
  pass-All P l i [] h = tt
  pass-All P l i (v ∷ vs) h = elim (Bool-cases (selects a vols lowest l v)) [
    | inl picked ↦ rw picked (pass-All P l i vs h.1)
    | inr left ↦ elim (Bool-cases (retires a vols lowest v)) [
      | inl out ↦ rw (left, out) (pass-All P l (add_not_allocatable i v) vs h.1)
      | inr stays ↦ rw (left, stays) (h.0, pass-All P l i vs h.1)
    ]
  ]

  pass-last :
      (l : Limits) (i : IdleVolumes) (vs : List ℕ)
      → l.enabled ≡ false
      → leb_int l.score lowest ≡ true
      → All IsIdle vs
      → (pass a vols lowest l i vs).2 ≡ []
  unfolding pass
  pass-last l i [] off last h = refl
  pass-last l i (v ∷ vs) off last h = elim (Bool-cases (selects a vols lowest l v)) [
    | inl picked ↦ rw picked (pass-last l i vs off last h.1)
    | inr left ↦
        let out = last_limits l v off last h.0 left in
        rw (left, out) (pass-last l (add_not_allocatable i v) vs off last h.1)
  ]

  pass-stuck :
      (l : Limits) (i : IdleVolumes) (v : ℕ) (vs : List ℕ)
      → can_insert (vols v) ≡ false
      → In v vs
      → In v (pass a vols lowest l i vs).2
  unfolding pass can_alloc
  pass-stuck l i v [] h m = absurd m
  pass-stuck l i v (x ∷ vs) h (inl p) =
      let busy : can_insert (vols x) ≡ false = ap (λ z. can_insert (vols z)) p ∙ h in
      let unpicked : selects a vols lowest l x ≡ false = ground arith in
      let kept : retires a vols lowest x ≡ false = ground arith in rw (unpicked, kept) (inl p)
  pass-stuck l i v (x ∷ vs) h (inr m) = elim (Bool-cases (selects a vols lowest l x)) [
    | inl picked ↦ rw picked (pass-stuck l i v vs h m)
    | inr left ↦ elim (Bool-cases (retires a vols lowest x)) [
      | inl out ↦ rw (left, out) (pass-stuck l (add_not_allocatable i x) v vs h m)
      | inr stays ↦ rw (left, stays) (inr (pass-stuck l i v vs h m))
    ]
  ]

module _ (a : VolumeAllocator) (vols : ℕ → ℕ → Volume) (lowest : ℤ) where
  finished :
      (n k : ℕ) (l : Limits) (i : IdleVolumes) (found : List ℕ)
      → 1 ≤ n
      → (r : IdleVolumes × List ℕ × ℕ) × (passes a vols lowest n k l i [] found ≡ some r)
  unfolding passes
  finished zero k l i found h = absurd (omega arith)
  finished (suc n) k l i found h = (_, refl)

  pub passes-IsIdle :
      (fuel k : ℕ) (l : Limits) (i : IdleVolumes) (vs selected : List ℕ)
      → ((j : ℕ) → All (IsIdle a (vols j) lowest) vs)
      → rounds a lowest l + 2 ≤ fuel
      → (r : IdleVolumes × List ℕ × ℕ) × (passes a vols lowest fuel k l i vs selected ≡ some r)
  unfolding passes
  passes-IsIdle zero k l i vs selected h enough = absurd (omega arith)
  passes-IsIdle (suc fuel) k l i [] selected h enough = (_, refl)
  passes-IsIdle (suc fuel) k l i (v ∷ vs) selected h enough = elim (relax_cases a lowest l) [
    | inl closer ↦
        passes-IsIdle fuel (suc k) (relax a lowest l) (pass a (vols k) lowest l i (v ∷ vs)).0
          (pass a (vols k) lowest l i (v ∷ vs)).2 _
          (λ j. pass-All a (vols k) lowest (IsIdle a (vols j) lowest) l i (v ∷ vs) (h j))
          (omega (arith, closer))
    | inr (off, last) ↦
        rw (pass-last a (vols k) lowest l i (v ∷ vs) off last (h k))
          (finished fuel _ _ _ _ (omega (arith, enough)))
  ]

  pub passes-stuck :
      (fuel k : ℕ) (l : Limits) (i : IdleVolumes) (v : ℕ) (vs selected : List ℕ)
      → ((j : ℕ) → can_insert (vols j v) ≡ false)
      → In v vs
      → passes a vols lowest fuel k l i vs selected ≡ none
  unfolding passes
  passes-stuck zero k l i v vs selected h m = refl
  passes-stuck (suc fuel) k l i v [] selected h m = absurd m
  passes-stuck (suc fuel) k l i v (x ∷ vs) selected h m =
      passes-stuck fuel (suc k) (relax a lowest l) _ v _ _ h
        (pass-stuck a (vols k) lowest l i v (x ∷ vs) (h k) m)
