-- ===== src/Codemode/Layout/Laws.antt =====
-- The layout of common/codemode/codemode.go is a partition of the shards over the AZs.
use cubefs_blobstore.Base.{
  ℕ, zero, suc, ◌+◌, ◌-◌, ◌*◌, ◌/◌, ◌%◌, ◌≤◌, ◌<◌, ◌≡◌, ◌≢◌, ◌↔◌, ◌⊎◌, inl, inr, true, some, List,
  ◌++◌, map, ltb, if◌then◌else◌, div?_pos, In, In-append, In-append_left, In-append_right, arith,
}
use cubefs_blobstore.Codemode.{Tactic, is_valid}
use cubefs_blobstore.Codemode.Layout.{range, az_stripe, get_ec_layout_by_az}

In-offsets : (b s k x : ℕ) → In x (map (λ i. b + i) (range s k)) ↔ ((b + s ≤ x) × (x < b + s + k))
In-offsets b s zero x = (λ h. absurd h, λ h. absurd (omega arith))
In-offsets b s (suc k) x = ground (arith, In-offsets b (s + 1) k x)

abbrev InBlock : ℕ → ℕ → ℕ → Type 0
InBlock x base k = (base ≤ x) × (x < base + k)

In-block : (b k x : ℕ) → In x (map (λ i. b + i) (range 0 k)) ↔ InBlock x b k
In-block b k x = (
  λ p. let q = (In-offsets b 0 k x).0 p in omega arith,
  λ p. (In-offsets b 0 k x).1 (omega arith),
)

-- The x's in the q-th block of d numbers.
block_iff : (q d x : ℕ) → 0 < d → ((q * d ≤ x) × (x < q * d + d)) ↔ (x / d ≡ q)
block_iff q d x h = (λ p. grind arith, λ p. grind arith)

block-lt : (q a d x : ℕ) → q < a → x < q * d + d → x < a * d
block-lt q a d x h p = grind arith

pub pos_of-mul : (a d y : ℕ) → y < a * d → 0 < d
pos_of-mul a zero y h = absurd (omega arith)
pos_of-mul a (suc d) y h = omega arith

-- The block of an index below `a` ends by a * d, and every x below a * d lies in one.
offset_block_iff :
    (a q d c x : ℕ)
    → q < a
    → InBlock x (c + q * d) d ↔ ((c ≤ x) × (x < c + a * d) × ((x - c) / d ≡ q))
offset_block_iff a q d c x h = (forth, back)
  where
    forth : InBlock x (c + q * d) d → (c ≤ x) × (x < c + a * d) × ((x - c) / d ≡ q)
    forth p =
        let y : InBlock (x - c) (q * d) d = omega arith in
        let below = block-lt q a d (x - c) h y.1 in
        (omega arith, omega arith, (block_iff q d (x - c) (omega arith)).0 y)

    back : (c ≤ x) × (x < c + a * d) × ((x - c) / d ≡ q) → InBlock x (c + q * d) d
    back p =
        let y = (block_iff q d (x - c) (pos_of-mul a d (x - c) (omega arith))).1 p.2 in omega arith

exact_div : (a b : ℕ) → b ≢ 0 → a % b ≡ 0 → a ≡ b * (a / b)
exact_div a b h e = grind arith

-- The AZ of the shard x, from its place in the data, the global parity or the local parity.
abbrev pub az_of : Tactic → ℕ → ℕ
az_of t x =
    if ltb x t.n
    then x / (t.n / t.az_count)
    else if ltb x (t.n + t.m)
    then (x - t.n) / (t.m / t.az_count)
    else (x - t.n - t.m) / (t.l / t.az_count)

abbrev pub total : Tactic → ℕ
total t = t.n + t.m + t.l

pub record Divides (t : Tactic) : Type 0 where
  pub some_az : t.az_count ≢ 0
  pub data_pos : 0 < t.n / t.az_count
  pub parity_pos : 0 < t.m / t.az_count
  pub n_exact : t.n ≡ t.az_count * (t.n / t.az_count)
  pub m_exact : t.m ≡ t.az_count * (t.m / t.az_count)
  pub l_exact : t.l ≡ t.az_count * (t.l / t.az_count)

quot_pos : (a b : ℕ) → 0 < a → a ≡ b * (a / b) → 0 < a / b
quot_pos a b h e = grind arith

pub is_valid-Divides : (t : Tactic) → is_valid t ≡ true → Divides t
unfolding is_valid
is_valid-Divides t v =
    let az : t.az_count ≢ 0 = ground arith in
    let n_rest : t.n % t.az_count ≡ 0 = ground arith in
    let m_rest : t.m % t.az_count ≡ 0 = ground arith in
    let l_rest : t.l % t.az_count ≡ 0 = ground arith in
    let n_exact = exact_div t.n t.az_count az n_rest in
    let m_exact = exact_div t.m t.az_count az m_rest in
    record {
      some_az = az;
      data_pos = quot_pos t.n t.az_count (ground arith) n_exact;
      parity_pos = quot_pos t.m t.az_count (ground arith) m_exact;
      n_exact = n_exact;
      m_exact = m_exact;
      l_exact = exact_div t.l t.az_count az l_rest;
    }

module _ (t : Tactic) (h : Divides t) where
  abbrev pub stripe : ℕ → List ℕ
  stripe = az_stripe t (t.n / t.az_count) (t.m / t.az_count) (t.l / t.az_count)

  pub layout_lem : get_ec_layout_by_az t ≡ some (map stripe (range 0 t.az_count))
  unfolding get_ec_layout_by_az
  layout_lem = rw (
    div?_pos t.n t.az_count h.some_az,
    div?_pos t.m t.az_count h.some_az,
    div?_pos t.l t.az_count h.some_az,
  )

  abbrev pub n_az : ℕ
  n_az = t.n / t.az_count

  abbrev pub m_az : ℕ
  m_az = t.m / t.az_count

  abbrev pub l_az : ℕ
  l_az = t.l / t.az_count

  In-stripe_parts :
      (j x : ℕ)
      → In x (stripe j) ↔ (
          InBlock x (j * n_az) n_az
          ⊎ (InBlock x (t.n + j * m_az) m_az ⊎ InBlock x (t.n + t.m + j * l_az) l_az))
  unfolding az_stripe
  In-stripe_parts j x = (
    λ p. elim (In-append x data_part (parity_part ++ local_part) p) [
      | inl q ↦ inl ((In-block (j * n_az) n_az x).0 q)
      | inr r ↦ elim (In-append x parity_part local_part r) [
        | inl q ↦ inr (inl ((In-block (t.n + j * m_az) m_az x).0 q))
        | inr q ↦ inr (inr ((In-block (t.n + t.m + j * l_az) l_az x).0 q))
      ]
    ],
    λ p. elim p [
      | inl q ↦ In-append_left x data_part _ ((In-block (j * n_az) n_az x).1 q)
      | inr (inl q) ↦
          In-append_right x data_part _
            (In-append_left x parity_part _ ((In-block (t.n + j * m_az) m_az x).1 q))
      | inr (inr q) ↦
          In-append_right x data_part _
            (In-append_right x parity_part _ ((In-block (t.n + t.m + j * l_az) l_az x).1 q))
    ],
  )
    where
      data_part : List ℕ
      data_part = map (λ i. j * n_az + i) (range 0 n_az)

      parity_part : List ℕ
      parity_part = map (λ i. t.n + j * m_az + i) (range 0 m_az)

      local_part : List ℕ
      local_part = map (λ i. t.n + t.m + j * l_az + i) (range 0 l_az)

  pub In-stripe : (j x : ℕ) → j < t.az_count → In x (stripe j) ↔ ((x < total t) × (az_of t x ≡ j))
  In-stripe j x hj =
      let data_iff = offset_block_iff t.az_count j n_az 0 x hj in
      let parity_iff = offset_block_iff t.az_count j m_az t.n x hj in
      let local_iff = offset_block_iff t.az_count j l_az (t.n + t.m) x hj in
      let n_exact = h.n_exact in
      let m_exact = h.m_exact in let l_exact = h.l_exact in ground (arith, In-stripe_parts j x)
