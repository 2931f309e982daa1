-- ===== src/Codemode/Layout.antt =====
-- common/codemode/codemode.go: which shard stands in which AZ. `none` is the panic of a division by
-- zero.
pub mod Laws
pub mod Stripes
use cubefs_blobstore.Base.{
  ℕ, zero, suc, ◌+◌, ◌-◌, ◌*◌, ◌/◌, ◌<◌, ◌≡◌, Bool, true, false, Option, none, some, List, [], ◌∷◌,
  ◌++◌, map, ltb, ◌==◌, if◌then◌else◌, ◌>>=◌, div?, get_elem?,
}
use cubefs_blobstore.Base.Int.{ℤ, pos, negsuc, quot_ℕ}
use cubefs_blobstore.Codemode.{Tactic}

-- from, from + 1, …, k numbers.
abbrev pub range : ℕ → ℕ → List ℕ
range from zero = []
range from (suc k) = from ∷ range (from + 1) k

-- The loop body of GetECLayoutByAZ: the stripe of the AZ `idx`.
unfoldable pub az_stripe : Tactic → ℕ → ℕ → ℕ → ℕ → List ℕ
az_stripe t n m l idx =
    map (λ i. idx * n + i) (range 0 n)
    ++ (map (λ i. t.n + idx * m + i) (range 0 m) ++ map (λ i. t.n + t.m + idx * l + i) (range 0 l))

unfoldable pub get_ec_layout_by_az : Tactic → Option (List (List ℕ))
unfolding az_stripe
get_ec_layout_by_az t = do
  n ← div? t.n t.az_count
  m ← div? t.m t.az_count
  l ← div? t.l t.az_count
  some (map (az_stripe t n m l) (range 0 t.az_count))

unfoldable pub global_stripe : Tactic → List ℕ × ℕ × ℕ
global_stripe t = (range 0 (t.n + t.m), t.n, t.m)

-- With no local parity the three results are Go's zero values.
unfoldable pub all_local_stripe : Tactic → Option (List (List ℕ) × ℕ × ℕ)
unfolding get_ec_layout_by_az
all_local_stripe t = if t.l == 0 then some ([], 0, 0) else (do
  n ← div? t.n t.az_count
  m ← div? t.m t.az_count
  l ← div? t.l t.az_count
  stripes ← get_ec_layout_by_az t
  some (stripes, n + m, l))

-- `azStripes[azIndex]`, with the test on the index before it; a negative index has no stripe.
stripe_at : List (List ℕ) → ℤ → Option (List ℕ)
stripe_at stripes (pos i) = get_elem? stripes i
stripe_at stripes (negsuc i) = none

-- The nil stripe of an index out of range.
abbrev stripe_or_nil : Option (List ℕ) → ℕ → ℕ → List ℕ × ℕ × ℕ
stripe_or_nil none n m = ([], 0, 0)
stripe_or_nil (some stripe) n m = (stripe, n, m)

unfoldable pub local_stripe_in_az : Tactic → ℤ → Option (List ℕ × ℕ × ℕ)
unfolding get_ec_layout_by_az stripe_at
local_stripe_in_az t az_index = if t.l == 0 then some ([], 0, 0) else (do
  n ← div? t.n t.az_count
  m ← div? t.m t.az_count
  l ← div? t.l t.az_count
  stripes ← get_ec_layout_by_az t
  some (stripe_or_nil (stripe_at stripes az_index) (n + m) l))

-- `index / n` on the code's ints.
quot? : ℤ → ℕ → Option ℤ
quot? i zero = none
quot? i (suc d) = some (quot_ℕ i (suc d))

-- A negative index is below N, so that `index / n` is taken.
unfoldable pub local_stripe : Tactic → ℤ → Option (List ℕ × ℕ × ℕ)
unfolding quot?
local_stripe t (negsuc k) = if t.l == 0 then some ([], 0, 0) else (do
  n ← div? t.n t.az_count
  m ← div? t.m t.az_count
  l ← div? t.l t.az_count
  quot? (negsuc k) n >>= local_stripe_in_az t)
local_stripe t (pos i) = if t.l == 0 then some ([], 0, 0) else (do
  n ← div? t.n t.az_count
  m ← div? t.m t.az_count
  l ← div? t.l t.az_count
  if ltb i t.n
      then quot? (pos i) n >>= local_stripe_in_az t
      else if ltb i (t.n + t.m)
      then quot? (pos (i - t.n)) m >>= local_stripe_in_az t
      else if ltb i (t.n + t.m + t.l)
      then quot? (pos (i - t.n - t.m)) l >>= local_stripe_in_az t
      else some ([], 0, 0))
