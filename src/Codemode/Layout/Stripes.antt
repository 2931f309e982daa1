-- ===== src/Codemode/Layout/Stripes.antt =====
-- What GetECLayoutByAZ and LocalStripe of common/codemode/codemode.go return for a valid tactic.
use cubefs_blobstore.Base.{
  ℕ, zero, suc, ◌+◌, ◌-◌, ◌*◌, ◌/◌, ◌<◌, ◌≡◌, ◌≢◌, ◌↔◌, refl, ap, ◌∙◌, true, false, ◌==◌, some,
  List, map, div?_pos, get_elem?, get_elem?-map, length, length-append, length-map, In, arith,
}
use cubefs_blobstore.Base.Int.{pos}
use cubefs_blobstore.Codemode.{Tactic, is_valid}
use cubefs_blobstore.Codemode.Layout.{
  range, az_stripe, get_ec_layout_by_az, local_stripe, local_stripe_in_az, quot?,
}
use cubefs_blobstore.Codemode.Layout.Laws.{
  Divides, is_valid-Divides, az_of, total, stripe, n_az, m_az, l_az, layout_lem, In-stripe,
  pos_of-mul,
}

length-range : (s k : ℕ) → length (range s k) ≡ k
length-range s zero = refl
length-range s (suc k) = ap suc (length-range (s + 1) k)

get_elem?-range : (s k j : ℕ) → j < k → get_elem? (range s k) j ≡ some (s + j)
get_elem?-range s zero j h = absurd (omega arith)
get_elem?-range s (suc k) zero h = ap some (omega arith)
get_elem?-range s (suc k) (suc j) h = ground (arith, get_elem?-range (s + 1) k j)

quot-lt : (a d y : ℕ) → y < a * d → y / d < a
quot-lt a d y h = grind arith

==_ne : (a b : ℕ) → a ≢ b → (a == b) ≡ false
==_ne a b h = ground arith

quot?_pos : (i d : ℕ) → 0 < d → quot? (pos i) d ≡ some (pos (i / d))
unfolding quot?
quot?_pos i zero h = absurd (omega arith)
quot?_pos i (suc d) h = refl

module _ (t : Tactic) (h : Divides t) where
  stripe_at_az :
      (j : ℕ)
      → j < t.az_count
      → get_elem? (map (stripe t h) (range 0 t.az_count)) j ≡ some (stripe t h j)
  stripe_at_az j hj =
      let same : 0 + j ≡ j = omega arith in
      get_elem?-map (stripe t h) (range 0 t.az_count) j j
        (ground (arith, get_elem?-range 0 t.az_count j))

  length-stripe : (j : ℕ) → length (stripe t h j) ≡ n_az t h + m_az t h + l_az t h
  unfolding az_stripe
  length-stripe j = simp (length-append, length-map, length-range) (omega arith)

  az_of-lt : (x : ℕ) → x < total t → az_of t x < t.az_count
  az_of-lt x hx = ground (
    arith,
    quot-lt t.az_count (n_az t h) x,
    quot-lt t.az_count (m_az t h) (x - t.n),
    quot-lt t.az_count (l_az t h) (x - t.n - t.m),
    h,
  )

  -- The stripe of an AZ, by its index.
  local_stripe_in_az_lem :
      (j : ℕ)
      → t.l ≢ 0
      → j < t.az_count
      → local_stripe_in_az t (pos j) ≡ some (stripe t h j, n_az t h + m_az t h, l_az t h)
  unfolding local_stripe_in_az
  local_stripe_in_az_lem j hl hj = rw (
    ==_ne t.l 0 hl,
    div?_pos t.n t.az_count h.some_az,
    div?_pos t.m t.az_count h.some_az,
    div?_pos t.l t.az_count h.some_az,
    stripe_at_az j hj,
  )

  local_parity_pos : t.l ≢ 0 → 0 < l_az t h
  local_parity_pos hl = pos_of-mul t.az_count (l_az t h) 0 (omega (arith, h))

  local_stripe_lem :
      (x : ℕ)
      → t.l ≢ 0
      → x < total t
      → local_stripe t (pos x) ≡ local_stripe_in_az t (pos (az_of t x))
  unfolding local_stripe
  local_stripe_lem x hl hx =
      rw
        (
          ==_ne t.l 0 hl,
          div?_pos t.n t.az_count h.some_az,
          div?_pos t.m t.az_count h.some_az,
          div?_pos t.l t.az_count h.some_az,
        )
        (ground (
          arith,
          quot?_pos x (n_az t h),
          quot?_pos (x - t.n) (m_az t h),
          quot?_pos (x - t.n - t.m) (l_az t h),
          local_parity_pos hl,
          h,
        ))

-- For a valid tactic the layout exists and has one stripe for each AZ; the stripes have the same
-- length, together as many places as there are shards; and the stripe of the AZ j holds the shard x
-- exactly when x is a shard that the position formula puts in j. So each shard is in one stripe.
pub get_ec_layout_by_az-partition :
    (t : Tactic) (j x : ℕ)
    → is_valid t ≡ true
    → j < t.az_count
    → (stripes : List (List ℕ)) × (s : List ℕ) × (get_ec_layout_by_az t ≡ some stripes)
      × (length stripes ≡ t.az_count)
      × (get_elem? stripes j ≡ some s)
      × (t.az_count * length s ≡ total t)
      × (In x s ↔ ((x < total t) × (az_of t x ≡ j)))
get_ec_layout_by_az-partition t j x v hj =
    let h = is_valid-Divides t v in
    (
      map (stripe t h) (range 0 t.az_count),
      stripe t h j,
      layout_lem t h,
      length-map (stripe t h) (range 0 t.az_count) ∙ length-range 0 t.az_count,
      stripe_at_az t h j hj,
      omega (arith, ap (λ (z : ℕ). t.az_count * z) (length-stripe t h j), h),
      In-stripe t h j x hj,
    )

-- For a valid tactic with local parity, every shard x has a local stripe: the one that holds exactly
-- the shards of the AZ of x, with the counts of its data and global parity shards and of its local
-- parity shards.
pub local_stripe-same_az :
    (t : Tactic) (x y : ℕ)
    → is_valid t ≡ true
    → t.l ≢ 0
    → x < total t
    → (s : List ℕ) × (local_stripe t (pos x)
        ≡ some (s, t.n / t.az_count + t.m / t.az_count, t.l / t.az_count))
      × (length s ≡ t.n / t.az_count + t.m / t.az_count + t.l / t.az_count)
      × (In y s ↔ ((y < total t) × (az_of t y ≡ az_of t x)))
local_stripe-same_az t x y v hl hx =
    let h = is_valid-Divides t v in
    let az = az_of-lt t h x hx in
    (
      stripe t h (az_of t x),
      local_stripe_lem t h x hl hx ∙ local_stripe_in_az_lem t h (az_of t x) hl az,
      length-stripe t h (az_of t x),
      In-stripe t h (az_of t x) y az,
    )
