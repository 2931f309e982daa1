-- ===== src/Codemode/Tests.antt =====
-- Runs of common/codemode/codemode.go, and its theorems at concrete modes.
use cubefs_blobstore.Base.{
  ℕ, ◌+◌, ◌*◌, ◌/◌, ◌<◌, ◌≡◌, ◌↔◌, refl, true, some, List, [], ◌∷◌, get_elem?, length, In, All,
  arith,
}
use cubefs_blobstore.Base.Int.{pos, negsuc}
use cubefs_blobstore.Codemode.{Tactic, ec4p4l2, row, tactic, is_valid, init_check, init_pairs}
use cubefs_blobstore.Codemode.Quorum.{IsSound, tactic-IsSound}
use cubefs_blobstore.Codemode.Layout.{get_ec_layout_by_az, local_stripe, local_stripe_in_az}
use cubefs_blobstore.Codemode.Layout.Laws.{az_of, total}
use cubefs_blobstore.Codemode.Layout.Stripes.{get_ec_layout_by_az-partition, local_stripe-same_az}

abbrev two_az : Tactic
two_az = row 6 10 2 2 14 2048

-- The example in the source's comment.
stripe_of_comment :
    local_stripe two_az (pos 16) ≡ some (0 ∷ 1 ∷ 2 ∷ 6 ∷ 7 ∷ 8 ∷ 9 ∷ 10 ∷ 16 ∷ [], 8, 1)
unfolding local_stripe local_stripe_in_az
stripe_of_comment = refl

-- A negative index whose quotient is truncated to 0 gets the first stripe.
negative_index : local_stripe two_az (negsuc 1) ≡ local_stripe two_az (pos 0)
unfolding local_stripe local_stripe_in_az
negative_index = refl

-- The assertions of `init` pass.
init_passes : All (λ p. init_check p ≡ some true) init_pairs
unfolding init_check init_pairs
init_passes = (refl, (refl, (refl, (refl, (refl, (refl, (refl, tt)))))))

tactic-IsSound_example : IsSound ec4p4l2 (row 4 4 2 2 6 2048)
unfolding tactic
tactic-IsSound_example = tactic-IsSound ec4p4l2 (row 4 4 2 2 6 2048) refl

get_ec_layout_by_az-partition_example :
    (stripes : List (List ℕ)) × (s : List ℕ) × (get_ec_layout_by_az two_az ≡ some stripes)
    × (length stripes ≡ 2)
    × (get_elem? stripes 1 ≡ some s)
    × (2 * length s ≡ total two_az)
    × (In 17 s ↔ ((17 < total two_az) × (az_of two_az 17 ≡ 1)))
unfolding is_valid
get_ec_layout_by_az-partition_example = get_ec_layout_by_az-partition two_az 1 17 refl (omega arith)

local_stripe-same_az_example :
    (s : List ℕ) × (local_stripe two_az (pos 16) ≡ some (s, 6 / 2 + 10 / 2, 2 / 2))
    × (length s ≡ 6 / 2 + 10 / 2 + 2 / 2)
    × (In 3 s ↔ ((3 < total two_az) × (az_of two_az 3 ≡ az_of two_az 16)))
unfolding is_valid
local_stripe-same_az_example =
    local_stripe-same_az two_az 16 3 refl (λ e. absurd (omega arith)) (omega arith)
