-- ===== src/BidMgr/Amounts.antt =====
-- How many ids an allocation of allocator/bidmgr.go gives out, and when it is refused.
use cubefs_blobstore.Base.{
  ℕ, ◌+◌, ◌-◌, ◌≤◌, ◌<◌, ◌≡◌, ◌≢◌, ◌==◌, ◌⊎◌, inl, inr, refl, Option, none, some, List, [], ◌∷◌,
  leb, ltb, ==_iff, Bool-cases, arith,
}
use cubefs_blobstore.BidMgr.{
  BidRange, AllocableBids, BidMgr, BidAnswer, ranges, illegal_arguments, alloc_bid_from_cm, add_sub,
  advanced, from_current, from_both, alloc_from, alloc,
}
use cubefs_blobstore.BidMgr.Unique.{IsScope, Within, LeftIn, Left, GivenBy, fits_lem}

abbrev pub total : List BidRange → ℕ
total [] = 0
total (r ∷ rs) = r.end_bid + 1 - r.start_bid + total rs

-- How many ids are left.
abbrev pub size : Option AllocableBids → ℕ
size none = 0
size (some s) = s.max_bid + 1 - s.min_bid

-- The ranges are not used up, and the backup, of whatever size, lies above the current one.
abbrev pub IsAbove : ℕ → Option AllocableBids → Option AllocableBids → Type 0
IsAbove nums (some c) (some b) = IsScope nums c × IsScope nums b × (c.max_bid < b.min_bid)
IsAbove nums (some c) none = IsScope nums c
IsAbove nums none backup = Unit

-- The answers of an allocation, by what is left.
pub data AmountSpec (m : BidMgr) (count : ℕ) : BidMgr × BidAnswer → Type 0 where
  too_many : m.bid_alloc_nums < count → AmountSpec m count (m, illegal_arguments)
  too_few :
      count ≤ m.bid_alloc_nums
      → (m.current ≡ none) ⊎ ((m.backup ≡ none) × (size m.current < count))
      → AmountSpec m count (m, alloc_bid_from_cm)
  gives :
      (m' : BidMgr) (rs : List BidRange)
      → count ≤ m.bid_alloc_nums
      → count ≤ size m.current + size m.backup
      → total rs ≡ count
      → ((x : ℕ) → GivenBy rs x → Left m x)
      → size m'.current + size m'.backup + count ≡ size m.current + size m.backup
      → AmountSpec m count (m', ranges rs)
  overruns :
      (m' : BidMgr) (rs : List BidRange) (x : ℕ)
      → count ≤ m.bid_alloc_nums
      → m.backup ≢ none
      → size m.current + size m.backup < count
      → total rs ≡ count
      → GivenBy rs x
      → (¬ Left m x)
      → AmountSpec m count (m', ranges rs)

module _ (nums count : ℕ) (c : AllocableBids) (pos : 1 ≤ count) (most : count ≤ nums) where
  within :
      (backup : Option AllocableBids)
      → IsScope nums c
      → c.min_bid + count - 1 ≤ c.max_bid
      → (x : ℕ)
      → GivenBy (record { start_bid = c.min_bid; end_bid = add_sub c.min_bid count 1 } ∷ []) x
      → Within c x ⊎ LeftIn backup x
  within backup s fits x (inl (low, high)) = inl (low, omega (arith, s))
  within backup s fits x (inr h) = absurd h

  current-AmountSpec :
      (backup : Option AllocableBids)
      → IsScope nums c
      → c.min_bid + count - 1 ≤ c.max_bid
      → let m : BidMgr = record { current = some c; backup = backup; bid_alloc_nums = nums } in
        AmountSpec m count (from_current m c count)
  current-AmountSpec backup s fits =
      let c' = advanced c count in
      elim (Bool-cases (add_sub c'.max_bid 1 c'.min_bid == 0)) [
        | inl used ↦ rw used (
            gives _ _ most (omega arith) (omega (arith, s)) (within backup s fits) (
              omega (
                arith,
                s,
                (==_iff (add_sub (advanced c count).max_bid 1 (advanced c count).min_bid) 0).0 used,
              )))
        | inr left ↦ rw left (
            gives _ _ most (omega arith) (omega (arith, s)) (within backup s fits)
              (omega (arith, s)))
      ]

  both-AmountSpec :
      (backup : Option AllocableBids)
      → IsAbove nums (some c) backup
      → c.max_bid < c.min_bid + count - 1
      → let m : BidMgr = record { current = some c; backup = backup; bid_alloc_nums = nums } in
        AmountSpec m count (from_both m c backup count)
  both-AmountSpec none s beyond = too_few most (inr (refl, omega (arith, s)))
  both-AmountSpec (some b) (s, t, above) beyond =
      let remain = count - (c.max_bid + 1 - c.min_bid) in
      let last : add_sub b.min_bid (add_sub count 0 (add_sub c.max_bid 1 c.min_bid)) 1
          ≡ b.min_bid + remain - 1 =
        omega (arith, s, t) in
      elim (Bool-cases (leb count (size (some c) + size (some b)))) [
        | inl enough ↦
            let le : count ≤ size (some c) + size (some b) = ground arith in
            gives _ _ most le (omega (arith, s, t)) (λ x h. both_within x h le)
              (omega (arith, s, t))
        | inr short ↦
            let lt : size (some c) + size (some b) < count = ground arith in
            overruns _ _ (b.max_bid + 1) most (λ e. cc) lt (omega (arith, s, t))
              (inr (inl (omega (arith, t), omega (arith, s, t))))
              (λ l. elim l [ inl i ↦ omega (arith, i, above, t) | inr i ↦ omega (arith, i) ])
      ]
    where
      both_within :
          (x : ℕ)
          → GivenBy
              (record { start_bid = c.min_bid; end_bid = c.max_bid }
                ∷ record {
                  start_bid = b.min_bid;
                  end_bid = add_sub b.min_bid (add_sub count 0 (add_sub c.max_bid 1 c.min_bid)) 1;
                }
                ∷ [])
              x
          → count ≤ size (some c) + size (some b)
          → Within c x ⊎ Within b x
      both_within x (inl i) le = inl i
      both_within x (inr (inl (low, high))) le = inr (low, omega (arith, s, t))
      both_within x (inr (inr h)) le = absurd h

alloc_from-AmountSpec :
    (current backup : Option AllocableBids) (nums count : ℕ)
    → 1 ≤ count
    → count ≤ nums
    → IsAbove nums current backup
    → let m : BidMgr = record { current = current; backup = backup; bid_alloc_nums = nums } in
      AmountSpec m count (alloc_from m current count)
alloc_from-AmountSpec none backup nums count pos most v = too_few most (inl refl)
alloc_from-AmountSpec (some c) backup nums count pos most v =
    let s = scope_of backup v in
    elim (Bool-cases (leb (add_sub count c.min_bid 1) c.max_bid)) [
      | inl fits ↦ rw fits (
          current-AmountSpec nums count c pos most backup s
            (ground (arith, fits_lem nums count c pos most s)))
      | inr beyond ↦ rw beyond (
          both-AmountSpec nums count c pos most backup v
            (ground (arith, fits_lem nums count c pos most s)))
    ]
  where
    scope_of : (backup : Option AllocableBids) → IsAbove nums (some c) backup → IsScope nums c
    scope_of none s = s
    scope_of (some b) (s, t, above) = s

-- The current range, if there is one, is not used up, and the backup, if there is one, is not used up
-- either, of whatever size, and lies above it; both leave room for one allocation below 2^64. An allocation
-- of at least one id is refused, and changes nothing, if it asks for more than the configured number, if
-- there is no current range, or if the current range has fewer ids left and there is no backup. Otherwise
-- it gives as many ids as it asks for. If the two ranges have as many left, all that it gives were left in
-- them, and so many fewer are left after it. If they have not, it is not refused: it gives an id that was
-- in neither.
pub alloc-AmountSpec :
    (m : BidMgr) (count : ℕ)
    → 1 ≤ count
    → IsAbove m.bid_alloc_nums m.current m.backup
    → AmountSpec m count (alloc m count)
unfolding alloc
alloc-AmountSpec m count pos v = elim (Bool-cases (ltb m.bid_alloc_nums count)) [
  | inl more ↦ rw more (too_many (ground arith))
  | inr fine ↦
      rw fine (alloc_from-AmountSpec m.current m.backup m.bid_alloc_nums count pos (ground arith) v)
]
