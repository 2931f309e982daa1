-- ===== src/BidMgr.antt =====
-- allocator/bidmgr.go: the ranges of blob ids that an allocator holds and gives out. Ids and counts are
-- uint64: sums and differences are taken modulo 2^64. The mutex makes each method one step; the signal to
-- allocate a backup is not modelled, `alloc_bid` may run at any time.
pub mod Unique
pub mod Histories
pub mod Amounts
mod Tests
use cubefs_blobstore.Base.{
  ℕ, zero, suc, ◌+◌, ◌-◌, ◌%◌, ◌^◌, Bool, Option, none, some, List, [], ◌∷◌, leb, ltb, ◌==◌,
  if◌then◌else◌,
}

abbrev pub default_bid_alloc_nums : ℕ
default_bid_alloc_nums = 10000

pub record BidRange : Type 0 where
  pub start_bid : ℕ
  pub end_bid : ℕ

pub record AllocableBids : Type 0 where
  pub min_bid : ℕ
  pub max_bid : ℕ

pub record BidMgr : Type 0 where
  pub current : Option AllocableBids
  pub backup : Option AllocableBids
  pub bid_alloc_nums : ℕ

unfoldable pub conf_check : ℕ → ℕ
conf_check nums = if ltb nums default_bid_alloc_nums then default_bid_alloc_nums else nums

-- The answers of the cluster manager, tried until one is a range, at most three times; `none` is an error.
unfoldable pub first_answer : ℕ → List (Option AllocableBids) → Option AllocableBids
first_answer zero answers = none
first_answer (suc tries) [] = none
first_answer (suc tries) (none ∷ answers) = first_answer tries answers
first_answer (suc tries) (some scope ∷ answers) = some scope

-- The new range is the backup if there is a current one.
abbrev pub add_scope : BidMgr → Option AllocableBids → AllocableBids → BidMgr
add_scope m none scope = record m { current = some scope; backup = none }
add_scope m (some c) scope = record m { backup = some scope }

abbrev pub add_answer : BidMgr → Option AllocableBids → BidMgr
add_answer m none = m
add_answer m (some scope) = add_scope m m.current scope

unfoldable pub alloc_bid : BidMgr → List (Option AllocableBids) → BidMgr
unfolding first_answer
alloc_bid m answers = add_answer m (first_answer 3 answers)

pub data BidAnswer : Type 0 where
  ranges : List BidRange → BidAnswer
  illegal_arguments : BidAnswer
  alloc_bid_from_cm : BidAnswer

-- a + b - c in uint64
abbrev pub add_sub : ℕ → ℕ → ℕ → ℕ
add_sub a b c = (a + b + (2 ^ 64 - c)) % 2 ^ 64

abbrev pub advanced : AllocableBids → ℕ → AllocableBids
advanced s count = record s { min_bid = (s.min_bid + count) % 2 ^ 64 }

-- The whole of the count from the current range, which gives way to the backup when it is used up.
abbrev pub from_current : BidMgr → AllocableBids → ℕ → BidMgr × BidAnswer
from_current m c count =
    let c' = advanced c count in
    (
      if add_sub c'.max_bid 1 c'.min_bid == 0
          then record m { current = m.backup; backup = none }
          else record m { current = some c' },
      ranges (record { start_bid = c.min_bid; end_bid = add_sub c.min_bid count 1 } ∷ []),
    )

-- The rest of the current range, and what is missing from the backup.
abbrev pub from_both : BidMgr → AllocableBids → Option AllocableBids → ℕ → BidMgr × BidAnswer
from_both m c none count = (m, alloc_bid_from_cm)
from_both m c (some b) count =
    let remain = add_sub count 0 (add_sub c.max_bid 1 c.min_bid) in
    (
      record m { current = some (advanced b remain); backup = none },
      ranges (
          record { start_bid = c.min_bid; end_bid = c.max_bid }
          ∷ record { start_bid = b.min_bid; end_bid = add_sub b.min_bid remain 1 }
          ∷ []),
    )

abbrev pub alloc_from : BidMgr → Option AllocableBids → ℕ → BidMgr × BidAnswer
alloc_from m none count = (m, alloc_bid_from_cm)
alloc_from m (some c) count =
    if leb (add_sub count c.min_bid 1) c.max_bid
    then from_current m c count
    else from_both m c m.backup count

unfoldable pub alloc : BidMgr → ℕ → BidMgr × BidAnswer
alloc m count =
    if ltb m.bid_alloc_nums count then (m, illegal_arguments) else alloc_from m m.current count
