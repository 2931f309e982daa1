-- ===== src/Access/Ranges/Blobs.antt =====
-- Spread of api/access/proto.go: the blobs of a location are the pieces of its file.
use native.Mathlib.Nat.{mod-eq_of_lt, mul-le-mul_right, add-mul-mod_self_right}
use cubefs_blobstore.Base.{
  ℕ, zero, suc, ◌+◌, ◌*◌, ◌-◌, ◌%◌, ◌^◌, ◌<◌, ◌≤◌, ◌≡◌, refl, sym, ap, subst, ◌∙◌, List, [], ◌∷◌,
  ◌++◌, ◌==◌, ltb, ltb→lt, lt→ltb, ==_iff, if◌then◌else◌, Bool, Bool-cases, true, false, inl, inr,
  All, arith, none, some, length, get_elem?,
}
use cubefs_blobstore.Access.Location.{
  SliceInfo, Location, Blob, spread_slice, spread_slices, set_last_size, spread,
}
use cubefs_blobstore.Access.Ranges.{min_u64}
use cubefs_blobstore.Access.Ranges.Flat.{StartsFit}
use cubefs_blobstore.Access.Ranges.Laws.{AllFrom}

abbrev HasSize : ℕ → Blob → Type 0
HasSize n b = b.size ≡ n

All-append : (P : Blob → Type 0) (xs ys : List Blob) → All P xs → All P ys → All P (xs ++ ys)
All-append P [] ys h k = k
All-append P (x ∷ xs) ys (h, hs) k = (h, All-append P xs ys hs k)

spread_slice-size :
    (n from left : ℕ) (slice : SliceInfo) → All (HasSize n) (spread_slice n from left slice)
unfolding spread_slice
spread_slice-size n from zero slice = tt
spread_slice-size n from (suc left) slice = (refl, spread_slice-size n (from + 1) left slice)

spread_slices-size : (n : ℕ) (slices : List SliceInfo) → All (HasSize n) (spread_slices n slices)
unfolding spread_slices
spread_slices-size n [] = tt
spread_slices-size n (slice ∷ slices) =
    All-append (HasSize n) (spread_slice n 0 slice.count slice) (spread_slices n slices)
      (spread_slice-size n 0 slice.count slice) (spread_slices-size n slices)

-- The k-th blob of a list of blobs of `n` bytes whose last is cut to `last`.
get_elem?-set_last_size :
    (l : List Blob) (n last k : ℕ) (b : Blob)
    → All (HasSize n) l
    → get_elem? l k ≡ some b
    → (c : Blob) × (get_elem? (set_last_size last l) k ≡ some c)
      × (c.vid ≡ b.vid)
      × (c.bid ≡ b.bid)
      × (c.size ≡ (if suc k == length l then last else n))
unfolding set_last_size
get_elem?-set_last_size [] n last k b a h = absurd (cc)
get_elem?-set_last_size (x ∷ []) n last zero b a h =
    (record x { size = last }, refl, ground arith, ground arith, refl)
get_elem?-set_last_size (x ∷ []) n last (suc k) b a h = absurd (cc)
get_elem?-set_last_size (x ∷ y ∷ l) n last zero b (a, as') h =
    (x, refl, ground arith, ground arith, ground arith)
get_elem?-set_last_size (x ∷ y ∷ l) n last (suc k) b (a, as') h =
    let (c, found, v, i, s) = get_elem?-set_last_size (y ∷ l) n last k b as' h in
    (c, found, v, i, ground arith)

get_elem?-lt : (l : List Blob) (k : ℕ) (b : Blob) → get_elem? l k ≡ some b → k < length l
get_elem?-lt [] k b h = absurd (cc)
get_elem?-lt (x ∷ l) zero b h = omega arith
get_elem?-lt (x ∷ l) (suc k) b h = omega (arith, get_elem?-lt l k b h)

All-get_elem? :
    (P : Blob → Type 0) (l : List Blob) (k : ℕ) (b : Blob) → All P l → get_elem? l k ≡ some b → P b
All-get_elem? P [] k b a h = absurd (cc)
All-get_elem? P (x ∷ l) zero b (a, as') h = subst P (ap (λ o. elim o [ none ↦ x | some y ↦ y ]) h) a
All-get_elem? P (x ∷ l) (suc k) b (a, as') h = All-get_elem? P l k b as' h

-- A location that has as many blobs as its size needs.
pub record IsWhole (loc : Location) : Type 0 where
  pub size_fits : loc.size < 2 ^ 64
  pub some_size : 0 < loc.blob_size
  pub blob_size_fits : loc.blob_size < 2 ^ 32
  pub starts_fit : All StartsFit loc.blobs
  pub covers : loc.size ≤ length (spread_slices loc.blob_size loc.blobs) * loc.blob_size
  pub tight :
      length (spread_slices loc.blob_size loc.blobs) * loc.blob_size < loc.size + loc.blob_size

-- The k-th blob that Spread gives has the ids of `b` and the size of the k-th piece of the file.
abbrev pub SpreadAs : Location → ℕ → Blob → Type 0
SpreadAs loc k b =
    (c : Blob) × (get_elem? (spread loc) k ≡ some c)
    × (c.vid ≡ b.vid)
    × (c.bid ≡ b.bid)
    × (c.size ≡ min_u64 (loc.size - k * loc.blob_size) loc.blob_size)

AllFrom-get :
    (Q : ℕ → Blob → Type 0) (i : ℕ) (l : List Blob)
    → ((k : ℕ) (b : Blob) → get_elem? l k ≡ some b → Q (i + k) b)
    → AllFrom Q i l
AllFrom-get Q i [] h = tt
AllFrom-get Q i (b ∷ l) h = (
  subst (λ (n : ℕ). Q n b) (omega arith) (h 0 b refl),
  AllFrom-get Q (i + 1) l (λ k c e. subst (λ (n : ℕ). Q n c) (omega arith) (h (suc k) c e)),
)

-- Pieces of `n` bytes that cover a file, the last of them not empty.
remainder_lem :
    (size n m : ℕ)
    → 0 < n
    → m * n < size
    → size ≤ m * n + n
    → (if ltb 0 (size % n) then size % n else n) ≡ size - m * n
remainder_lem size n m pos low high =
    let t = size - m * n in
    let split : size ≡ t + m * n = omega arith in
    let reduced : size % n ≡ t % n = ap (λ (x : ℕ). x % n) split ∙ add-mul-mod_self_right t m n in
    elim (Bool-cases (ltb t n)) [
      | inl part ↦ let small : t % n ≡ t = mod-eq_of_lt (ltb→lt t n part) in ground arith
      | inr whole ↦
          let full : t ≡ n = ground arith in
          let none_left : n % n ≡ 0 = grind arith in
          let gone : size % n ≡ 0 = reduced ∙ (ap (λ (x : ℕ). x % n) full ∙ none_left) in
          ground arith
    ]

-- The size of the k-th of `m` pieces of `n` bytes that cover a file.
piece_size :
    (size n m k : ℕ)
    → 0 < n
    → size ≤ m * n
    → m * n < size + n
    → k < m
    → (if suc k == m then (if ltb 0 (size % n) then size % n else n) else n)
      ≡ min_u64 (size - k * n) n
unfolding min_u64
piece_size size n m k pos covers tight h = elim (Bool-cases (suc k == m)) [
  | inl last ↦
      let at_end = ap (λ (x : ℕ). x * n) ((==_iff (suc k) m).0 last) in
      let low : k * n < size = grind arith in
      let high : size ≤ k * n + n = grind arith in
      rw (last, remainder_lem size n k pos low high) (ground arith)
  | inr inner ↦
      let more : (k + 2) * n ≤ m * n = mul-le-mul_right n (ground arith) in
      let room : k * n + n ≤ size = grind arith in rw inner (ground arith)
]

either_same : (b : Bool) (n : ℕ) → (if b then n else n) ≡ n
either_same true n = refl
either_same false n = refl

-- Spread cuts the last blob, and only that one, to what is left of the file.
spread-at :
    (loc : Location) (w : IsWhole loc) (k : ℕ) (b : Blob)
    → get_elem? (spread_slices loc.blob_size loc.blobs) k ≡ some b
    → SpreadAs loc k b
unfolding spread
spread-at loc w k b h =
    let blobs = spread_slices loc.blob_size loc.blobs in
    let m = length blobs in
    let n = loc.blob_size in
    let sized = spread_slices-size n loc.blobs in
    let expected =
      piece_size loc.size n m k w.some_size w.covers w.tight (get_elem?-lt blobs k b h) in
    let some_size : ltb 0 n ≡ true = lt→ltb 0 n w.some_size in
    elim (Bool-cases (ltb 0 (loc.size % n))) [
      | inl part ↦
          let small : loc.size % n % 2 ^ 32 ≡ loc.size % n =
            mod-eq_of_lt (grind (arith, w.blob_size_fits, w.some_size)) in
          let (c, found, v, i, s) = get_elem?-set_last_size blobs n (loc.size % n) k b sized h in
          rw (some_size, part, small) (c, found, v, i, s ∙ rw part at expected)
      | inr even ↦
          rw (some_size, even)
            (
              b,
              h,
              refl,
              refl,
              All-get_elem? (HasSize n) blobs k b sized h
                  ∙ (sym (either_same (suc k == m) n) ∙ rw even at expected),
            )
    ]

pub spread-SpreadAs :
    (loc : Location)
    → IsWhole loc
    → AllFrom (SpreadAs loc) 0 (spread_slices loc.blob_size loc.blobs)
spread-SpreadAs loc w =
    AllFrom-get (SpreadAs loc) 0 (spread_slices loc.blob_size loc.blobs)
      (λ k b h. subst (λ (n : ℕ). SpreadAs loc n b) (omega arith) (spread-at loc w k b h))
