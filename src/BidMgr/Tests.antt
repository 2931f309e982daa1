-- ===== src/BidMgr/Tests.antt =====
-- The allocator of allocator/bidmgr.go with two ranges of ten ids.
use cubefs_blobstore.Base.{ℕ, ◌≡◌, refl, none, some, [], ◌∷◌, inl, inr, arith}
use cubefs_blobstore.BidMgr.{AllocableBids, BidMgr, ranges, alloc, first_answer}
use cubefs_blobstore.BidMgr.Unique.{IsValid}
use cubefs_blobstore.BidMgr.Histories.{allocs, refills, GivenIn, bids_unique}
use cubefs_blobstore.BidMgr.Amounts.{AmountSpec, alloc-AmountSpec}

abbrev scope : ℕ → ℕ → AllocableBids
scope min max = record { min_bid = min; max_bid = max }

abbrev mgr : BidMgr
mgr = record { current = some (scope 8 10); backup = some (scope 11 20); bid_alloc_nums = 10 }

across :
    (alloc mgr 5).1
    ≡ ranges (record { start_bid = 8; end_bid = 10 } ∷ record { start_bid = 11; end_bid = 12 } ∷ [])
unfolding alloc
across = refl

mgr-IsValid : IsValid mgr 20
mgr-IsValid = (
  (omega arith, omega arith, omega arith),
  ((omega arith, omega arith, omega arith), omega arith, omega arith),
  λ x l. elim l [ inl i ↦ omega (arith, i) | inr i ↦ omega (arith, i) ],
)

bids_unique_example :
    ¬ GivenIn
      (alloc mgr 5).0
      (allocs 8 ∷ refills (none ∷ some (scope 21 30) ∷ []) ∷ allocs 3 ∷ [])
      9
unfolding alloc first_answer
bids_unique_example =
    bids_unique mgr 20 5 9 (allocs 8 ∷ refills (none ∷ some (scope 21 30) ∷ []) ∷ allocs 3 ∷ [])
      mgr-IsValid (omega arith) (inl (omega arith, omega arith))
      (
        omega arith,
        ((omega arith, omega arith, omega arith), omega arith, omega arith, (omega arith, tt)),
      )

alloc-AmountSpec_example : AmountSpec mgr 5 (alloc mgr 5)
alloc-AmountSpec_example =
    alloc-AmountSpec mgr 5 (omega arith) (
      (omega arith, omega arith, omega arith),
      (omega arith, omega arith, omega arith),
      omega arith,
    )
