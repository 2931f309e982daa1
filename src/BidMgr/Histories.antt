-- ===== src/BidMgr/Histories.antt =====
-- Histories of the allocator of allocator/bidmgr.go: any sequence of allocations and refills.
use cubefs_blobstore.Base.{
  ℕ, ◌+◌, ◌-◌, ◌%◌, ◌^◌, ◌≤◌, ◌<◌, ◌≡◌, ◌⊎◌, inl, inr, refl, sym, ap, subst, Option, none, some,
  List, [], ◌∷◌, leb, ltb, ◌==◌, Bool-cases, Option-cases, arith,
}
use cubefs_blobstore.BidMgr.{
  AllocableBids, BidMgr, BidAnswer, illegal_arguments, alloc_bid_from_cm, add_sub, from_both,
  alloc_from, alloc, first_answer, add_scope, add_answer, alloc_bid,
}
use cubefs_blobstore.BidMgr.Unique.{
  Left, Given, IsScope, CurrentValid, BackupValid, IsValid, Fine, part_used, all_used, both_used,
  fits_lem, size_lem,
}

module _ (m : BidMgr)
    (v : CurrentValid m.bid_alloc_nums m.current
      × BackupValid m.bid_alloc_nums m.current m.backup) where
  nothing-Given : (a : BidAnswer) → ((x : ℕ) → ¬ Given a x) → Fine m m a
  nothing-Given a nil = (
    record { was_left = λ x g. absurd (nil x g); used_up = λ x g l. nil x g; only_less = λ x l. l },
    v.0,
    v.1,
  )

alloc_from-Fine :
    (current backup : Option AllocableBids) (nums count : ℕ)
    → 1 ≤ count
    → count ≤ nums
    → CurrentValid nums current × BackupValid nums current backup
    → let m : BidMgr = record { current = current; backup = backup; bid_alloc_nums = nums } in
      Fine m (alloc_from m current count).0 (alloc_from m current count).1
alloc_from-Fine none backup nums count pos most v =
    nothing-Given (record { current = none; backup = backup; bid_alloc_nums = nums }) v
      alloc_bid_from_cm (λ x g. g)
alloc_from-Fine (some c) backup nums count pos most (s, b) =
    elim (Bool-cases (leb (add_sub count c.min_bid 1) c.max_bid)) [
      | inl fits ↦
          let end : c.min_bid + count - 1 ≤ c.max_bid =
            ground (arith, fits_lem nums count c pos most s) in
          rw fits (elim (Bool-cases (add_sub c.max_bid 1 ((c.min_bid + count) % 2 ^ 64) == 0)) [
            | inl empty ↦ rw empty (
                all_used nums count c pos most s backup b
                  (ground (arith, size_lem nums count c pos most s end)))
            | inr more ↦ rw more (
                part_used nums count c pos most s backup b
                  (ground (arith, size_lem nums count c pos most s end)))
          ])
      | inr beyond ↦
          let end : c.max_bid < c.min_bid + count - 1 =
            ground (arith, fits_lem nums count c pos most s) in
          rw beyond (missing backup b end)
    ]
  where
    missing :
        (backup : Option AllocableBids)
        → BackupValid nums (some c) backup
        → c.max_bid < c.min_bid + count - 1
        → let m : BidMgr = record { current = some c; backup = backup; bid_alloc_nums = nums } in
          Fine m (from_both m c backup count).0 (from_both m c backup count).1
    missing none b end =
        nothing-Given (record { current = some c; backup = none; bid_alloc_nums = nums }) (s, b)
          alloc_bid_from_cm (λ x g. g)
    missing (some b') b end = both_used nums count c pos most s b' b end

alloc-Fine :
    (m : BidMgr) (count : ℕ)
    → 1 ≤ count
    → CurrentValid m.bid_alloc_nums m.current × BackupValid m.bid_alloc_nums m.current m.backup
    → Fine m (alloc m count).0 (alloc m count).1
unfolding alloc
alloc-Fine m count pos v = elim (Bool-cases (ltb m.bid_alloc_nums count)) [
  | inl too_many ↦ rw too_many (nothing-Given m v illegal_arguments (λ x g. g))
  | inr fine ↦
      rw fine (alloc_from-Fine m.current m.backup m.bid_alloc_nums count pos (ground arith) v)
]

pub data BidCall : Type 0 where
  allocs : ℕ → BidCall
  refills : List (Option AllocableBids) → BidCall

-- The ids that the allocations of a history give out.
abbrev pub GivenIn : BidMgr → List BidCall → ℕ → Type 0
GivenIn m [] x = ⊥
GivenIn m (allocs count ∷ cs) x = Given (alloc m count).1 x ⊎ GivenIn (alloc m count).0 cs x
GivenIn m (refills answers ∷ cs) x = GivenIn (alloc_bid m answers) cs x

-- Allocations are of at least one id. The cluster manager's ranges are as large as asked for, lie below
-- 2^64 with room for one allocation, and each lies above all before it.
abbrev pub Rising : ℕ → ℕ → List BidCall → Type 0
Rising nums top [] = Unit
Rising nums top (allocs count ∷ cs) = (1 ≤ count) × Rising nums top cs
Rising nums top (refills answers ∷ cs) = elim (first_answer 3 answers) [
  | none ↦ Rising nums top cs
  | some s ↦
      IsScope nums s
      × (nums ≤ s.max_bid - s.min_bid + 1)
      × (top < s.min_bid)
      × Rising nums s.max_bid cs
]

alloc_nums : (m : BidMgr) (count : ℕ) → (alloc m count).0.bid_alloc_nums ≡ m.bid_alloc_nums
unfolding alloc
alloc_nums m count = elim (Bool-cases (ltb m.bid_alloc_nums count)) [
  | inl too_many ↦ rw too_many refl
  | inr fine ↦ rw fine (from m.current m.backup)
]
  where
    from :
        (current backup : Option AllocableBids)
        → (alloc_from
            (record { current = current; backup = backup; bid_alloc_nums = m.bid_alloc_nums })
            current
            count).0.bid_alloc_nums
          ≡ m.bid_alloc_nums
    from none backup = refl
    from (some c) none = ground arith
    from (some c) (some b) = ground arith

alloc-IsValid :
    (m : BidMgr) (top count : ℕ) → 1 ≤ count → IsValid m top → IsValid (alloc m count).0 top
alloc-IsValid m top count pos v =
    let (g, c, b) = alloc-Fine m count pos (v.0, v.1) in (c, b, λ x l. v.2 x (g.only_less x l))

add_scope-IsValid :
    (nums top : ℕ) (current backup : Option AllocableBids) (s : AllocableBids)
    → IsScope nums s
    → nums ≤ s.max_bid - s.min_bid + 1
    → top < s.min_bid
    → let m : BidMgr = record { current = current; backup = backup; bid_alloc_nums = nums } in
      IsValid m top
      → IsValid (add_scope m current s) s.max_bid
        × ((x : ℕ) → x ≤ top → Left (add_scope m current s) x → Left m x)
add_scope-IsValid nums top none backup s i large above v = (
  (i, tt, λ x l. elim l [ inl j ↦ j.1 | inr j ↦ absurd j ]),
  λ x low l. elim l [ inl j ↦ absurd (omega (arith, j)) | inr j ↦ absurd j ],
)
add_scope-IsValid nums top (some c) backup s i large above v =
    let cur = v.0 in
    let under : c.max_bid ≤ top = v.2 c.max_bid (inl (cur.1, omega arith)) in
    (
      (cur, (i, large, omega arith), λ x l. elim l [ inl j ↦ omega (arith, j, i) | inr j ↦ j.1 ]),
      λ x low l. elim l [ inl j ↦ inl j | inr j ↦ absurd (omega (arith, j)) ],
    )

never :
    (m : BidMgr) (top : ℕ) (cs : List BidCall) (x : ℕ)
    → IsValid m top
    → Rising m.bid_alloc_nums top cs
    → x ≤ top
    → (¬ Left m x)
    → ¬ GivenIn m cs x
never m top [] x v r low gone = λ g. g
never m top (allocs count ∷ cs) x v r low gone = λ g.
    let (f, c, b) = alloc-Fine m count r.0 (v.0, v.1) in
    elim g [
      | inl here ↦ gone (f.was_left x here)
      | inr later ↦
          never (alloc m count).0 top cs x (alloc-IsValid m top count r.0 v)
            (subst (λ n. Rising n top cs) (sym (alloc_nums m count)) r.1) low
            (λ l. gone (f.only_less x l)) later
    ]
never m top (refills answers ∷ cs) x v r low gone = elim (Option-cases (first_answer 3 answers)) [
  | inl nothing ↦
      let same : alloc_bid m answers ≡ m = unfold alloc_bid in ap (add_answer m) nothing in
      subst (λ n. ¬ GivenIn n cs x) (sym same)
        (never m top cs x v (subst (λ o. Next o) nothing r) low gone)
  | inr (s, given) ↦
      let same : alloc_bid m answers ≡ add_scope m m.current s =
        unfold alloc_bid in ap (add_answer m) given in
      let (i, large, above, rest) = subst (λ o. Next o) given r in
      let (v', less) =
        add_scope-IsValid m.bid_alloc_nums top m.current m.backup s i large above v in
      subst (λ n. ¬ GivenIn n cs x) (sym same)
        (never (add_scope m m.current s) s.max_bid cs x v'
          (subst (λ n. Rising n s.max_bid cs) (sym (scope_nums m.current s)) rest)
          (omega (arith, i)) (λ l. gone (less x low l)))
]
  where
    Next : Option AllocableBids → Type 0
    Next o = elim o [
      | none ↦ Rising m.bid_alloc_nums top cs
      | some s ↦
          IsScope m.bid_alloc_nums s
          × (m.bid_alloc_nums ≤ s.max_bid - s.min_bid + 1)
          × (top < s.min_bid)
          × Rising m.bid_alloc_nums s.max_bid cs
    ]

    scope_nums :
        (o : Option AllocableBids) (s : AllocableBids)
        → (add_scope m o s).bid_alloc_nums ≡ m.bid_alloc_nums
    scope_nums none s = refl
    scope_nums (some c) s = refl

-- An id that an allocation has given out is given out by no later allocation, whatever refills come in
-- between, as long as the ranges of the cluster manager are as large as asked for, each lie above all
-- before them, and stay below 2^64 with room for one allocation, and allocations are of at least one id.
pub bids_unique :
    (m : BidMgr) (top count x : ℕ) (cs : List BidCall)
    → IsValid m top
    → 1 ≤ count
    → Given (alloc m count).1 x
    → Rising m.bid_alloc_nums top cs
    → ¬ GivenIn (alloc m count).0 cs x
bids_unique m top count x cs v pos given rising =
    let (f, c, b) = alloc-Fine m count pos (v.0, v.1) in
    never (alloc m count).0 top cs x (alloc-IsValid m top count pos v)
      (subst (λ n. Rising n top cs) (sym (alloc_nums m count)) rising) (v.2 x (f.was_left x given))
      (f.used_up x given)
