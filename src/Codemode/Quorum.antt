-- ===== src/Codemode/Quorum.antt =====
-- The put quorums of common/codemode/codemode.go, over the whole table of tactics.
use cubefs_blobstore.Base.{ℕ, ◌+◌, ◌-◌, ◌/◌, ◌≤◌, ◌<◌, ◌≡◌, ◌≢◌, ◌↔◌, refl, true, some, arith}
use cubefs_blobstore.Base.Dict.{nat_eq}
use cubefs_blobstore.Base.Tables.{AllEntries, lookup-AllEntries}
use cubefs_blobstore.Codemode.{Tactic, tactic, is_valid, const_code_mode_tactic, ec4p4l2}

-- Of the shards that a put must have written, those outside any one AZ still decode the blob.
abbrev pub SurvivesAz : Tactic → Type 0
SurvivesAz t = t.n ≤ t.put_quorum - (t.n + t.m) / t.az_count

abbrev pub IsSound : ℕ → Tactic → Type 0
IsSound c t =
    (is_valid t ≡ true)
    × (t.n < t.put_quorum)
    × (t.put_quorum ≤ t.n + t.m)
    × (SurvivesAz t ↔ ((1 < t.az_count) × (c ≢ ec4p4l2)))

table-IsSound : AllEntries IsSound const_code_mode_tactic
unfolding const_code_mode_tactic is_valid
table-IsSound = (
  (refl, omega arith, omega arith, (ground arith, ground arith)),
  (
    (refl, omega arith, omega arith, (ground arith, ground arith)),
    (
      (refl, omega arith, omega arith, (ground arith, ground arith)),
      (
        (refl, omega arith, omega arith, (ground arith, ground arith)),
        (
          (refl, omega arith, omega arith, (ground arith, ground arith)),
          (
            (refl, omega arith, omega arith, (ground arith, ground arith)),
            (
              (refl, omega arith, omega arith, (ground arith, ground arith)),
              (
                (refl, omega arith, omega arith, (ground arith, ground arith)),
                (
                  (refl, omega arith, omega arith, (ground arith, ground arith)),
                  (
                    (refl, omega arith, omega arith, (ground arith, ground arith)),
                    (
                      (refl, omega arith, omega arith, (ground arith, ground arith)),
                      (
                        (refl, omega arith, omega arith, (ground arith, ground arith)),
                        ((refl, omega arith, omega arith, (ground arith, ground arith)), tt),
                      ),
                    ),
                  ),
                ),
              ),
            ),
          ),
        ),
      ),
    ),
  ),
)

-- Every mode of the table has a valid tactic, whose put quorum is above the number of data shards
-- and at most that of the global shards. The modes over more than one AZ other than EC4P4L2, and no
-- others, keep enough of the written shards to decode when any one AZ is down.
pub tactic-IsSound : (c : ℕ) (t : Tactic) → tactic c ≡ some t → IsSound c t
unfolding tactic
tactic-IsSound c t h = lookup-AllEntries IsSound c t const_code_mode_tactic h table-IsSound
