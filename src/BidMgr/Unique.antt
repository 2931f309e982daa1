-- ===== src/BidMgr/Unique.antt =====
-- The allocator of allocator/bidmgr.go gives no blob id out twice.
use cubefs_blobstore.Base.{
  ℕ, ◌+◌, ◌-◌, ◌%◌, ◌^◌, ◌≤◌, ◌<◌, ◌≡◌, ◌⊎◌, inl, inr, Option, none, some, List, [], ◌∷◌, arith,
}
use cubefs_blobstore.BidMgr.{
  BidRange, AllocableBids, BidMgr, BidAnswer, ranges, illegal_arguments, alloc_bid_from_cm, add_sub,
  advanced, from_both,
}

-- An id of a range that is left.
abbrev pub Within : AllocableBids → ℕ → Type 0
Within s x = (s.min_bid ≤ x) × (x ≤ s.max_bid)

abbrev pub LeftIn : Option AllocableBids → ℕ → Type 0
LeftIn none x = ⊥
LeftIn (some s) x = Within s x

abbrev pub Left : BidMgr → ℕ → Type 0
Left m x = LeftIn m.current x ⊎ LeftIn m.backup x

abbrev pub GivenBy : List BidRange → ℕ → Type 0
GivenBy [] x = ⊥
GivenBy (r ∷ rs) x = ((r.start_bid ≤ x) × (x ≤ r.end_bid)) ⊎ GivenBy rs x

abbrev pub Given : BidAnswer → ℕ → Type 0
Given (ranges rs) x = GivenBy rs x
Given illegal_arguments x = ⊥
Given alloc_bid_from_cm x = ⊥

-- A range that is not used up, with room below 2^64 for one allocation more.
abbrev pub IsScope : ℕ → AllocableBids → Type 0
IsScope nums s = (1 ≤ s.min_bid) × (s.min_bid ≤ s.max_bid) × (s.max_bid + nums < 2 ^ 64)

abbrev pub CurrentValid : ℕ → Option AllocableBids → Type 0
CurrentValid nums none = Unit
CurrentValid nums (some c) = IsScope nums c

-- The backup has at least as many ids as one allocation may take, and lies above the current range.
abbrev pub BackupValid : ℕ → Option AllocableBids → Option AllocableBids → Type 0
BackupValid nums current none = Unit
BackupValid nums none (some b) = ⊥
BackupValid nums (some c) (some b) =
    IsScope nums b × (nums ≤ b.max_bid - b.min_bid + 1) × (c.max_bid < b.min_bid)

-- The ids left are at most `top`.
abbrev pub IsValid : BidMgr → ℕ → Type 0
IsValid m top =
    CurrentValid m.bid_alloc_nums m.current
    × BackupValid m.bid_alloc_nums m.current m.backup
    × ((x : ℕ) → Left m x → x ≤ top)

-- What a successful allocation does: the ids given were left and are not left any more, and no id is left
-- that was not.
pub record GivesOut (m m' : BidMgr) (a : BidAnswer) : Type 0 where
  pub was_left : (x : ℕ) → Given a x → Left m x
  pub used_up : (x : ℕ) → Given a x → ¬ Left m' x
  pub only_less : (x : ℕ) → Left m' x → Left m x

module _ (nums count : ℕ) (c : AllocableBids) (pos : 1 ≤ count) (most : count ≤ nums)
    (s : IsScope nums c) where
  -- The sums of the code do not wrap around here.

  pub fits_lem : add_sub count c.min_bid 1 ≡ c.min_bid + count - 1
  fits_lem = omega arith

  pub size_lem :
      c.min_bid + count - 1 ≤ c.max_bid
      → add_sub c.max_bid 1 ((c.min_bid + count) % 2 ^ 64) ≡ c.max_bid + 1 - (c.min_bid + count)
  size_lem h = omega arith

-- What an allocation leaves behind and gives out, with the numbers of the backup's part.
abbrev pub Fine : BidMgr → BidMgr → BidAnswer → Type 0
Fine m m' a =
    GivesOut m m' a
    × CurrentValid m'.bid_alloc_nums m'.current
    × BackupValid m'.bid_alloc_nums m'.current m'.backup

module _ (nums count : ℕ) (c : AllocableBids) (pos : 1 ≤ count) (most : count ≤ nums)
    (s : IsScope nums c) where
  abbrev holding : Option AllocableBids → BidMgr
  holding backup = record { current = some c; backup = backup; bid_alloc_nums = nums }

  abbrev first_range : List BidRange
  first_range = record { start_bid = c.min_bid; end_bid = add_sub c.min_bid count 1 } ∷ []

  pub part_used :
      (backup : Option AllocableBids)
      → BackupValid nums (some c) backup
      → c.min_bid + count - 1 < c.max_bid
      → Fine
          (holding backup)
          (record { current = some (advanced c count); backup = backup; bid_alloc_nums = nums })
          (ranges first_range)
  part_used none b h = (
    record {
      was_left = λ x g. elim g [ inl i ↦ inl (i.0, omega (arith, i)) | inr i ↦ absurd i ];
      used_up = λ x g l. elim g [
        | inl i ↦ elim l [ inl j ↦ omega (arith, i, j) | inr j ↦ j ]
        | inr i ↦ i
      ];
      only_less = λ x l. elim l [ inl j ↦ inl (omega (arith, j), j.1) | inr j ↦ absurd j ];
    },
    (omega (arith, s), omega (arith, s), s.2),
    tt,
  )
  part_used (some b') b h = (
    record {
      was_left = λ x g. elim g [ inl i ↦ inl (i.0, omega (arith, i)) | inr i ↦ absurd i ];
      used_up = λ x g l. elim g [
        | inl i ↦ elim l [ inl j ↦ omega (arith, i, j) | inr j ↦ omega (arith, i, j, b) ]
        | inr i ↦ i
      ];
      only_less = λ x l. elim l [ inl j ↦ inl (omega (arith, j), j.1) | inr j ↦ inr j ];
    },
    (omega (arith, s), omega (arith, s), s.2),
    (b.0, b.1, b.2),
  )

  pub all_used :
      (backup : Option AllocableBids)
      → BackupValid nums (some c) backup
      → c.min_bid + count - 1 ≡ c.max_bid
      → Fine
          (holding backup)
          (record { current = backup; backup = none; bid_alloc_nums = nums })
          (ranges first_range)
  all_used none b h = (
    record {
      was_left = λ x g. elim g [ inl i ↦ inl (i.0, omega (arith, i)) | inr i ↦ absurd i ];
      used_up = λ x g l. elim l [ inl j ↦ j | inr j ↦ j ];
      only_less = λ x l. elim l [ inl j ↦ absurd j | inr j ↦ absurd j ];
    },
    tt,
    tt,
  )
  all_used (some b') b h = (
    record {
      was_left = λ x g. elim g [ inl i ↦ inl (i.0, omega (arith, i)) | inr i ↦ absurd i ];
      used_up = λ x g l. elim g [
        | inl i ↦ elim l [ inl j ↦ omega (arith, i, j, b) | inr j ↦ j ]
        | inr i ↦ i
      ];
      only_less = λ x l. elim l [ inl j ↦ inr j | inr j ↦ absurd j ];
    },
    b.0,
    tt,
  )

  pub both_used :
      (b' : AllocableBids)
      → BackupValid nums (some c) (some b')
      → c.max_bid < c.min_bid + count - 1
      → Fine
          (holding (some b'))
          (from_both (holding (some b')) c (some b') count).0
          (from_both (holding (some b')) c (some b') count).1
  both_used b' b h = (
    record {
      was_left = λ x g. elim g [
        | inl i ↦ inl i
        | inr (inl i) ↦ inr (i.0, omega (arith, i, b))
        | inr (inr i) ↦ absurd i
      ];
      used_up = λ x g l. elim l [
        | inl j ↦ elim g [
          | inl i ↦ omega (arith, i, j, b)
          | inr (inl i) ↦ omega (arith, i, j, b)
          | inr (inr i) ↦ i
        ]
        | inr j ↦ j
      ];
      only_less = λ x l. elim l [ inl j ↦ inr (omega (arith, j, b), j.1) | inr j ↦ absurd j ];
    },
    (omega (arith, b), omega (arith, b), b.0.2),
    tt,
  )
