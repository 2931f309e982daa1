-- ===== src/Clustermgr/ScopeMgr/Ranges.antt =====
-- The ranges that clustermgr/scopemgr/scopemgr.go gives out do not meet, on one node and after a restart.
use Prim.Native.String.{String}
use cubefs_blobstore.Base.{
  ℕ, zero, suc, ◌+◌, ◌%◌, ◌^◌, ◌≤◌, ◌<◌, ◌≡◌, ◌≢◌, ◌⊎◌, inl, inr, refl, sym, ap, ◌∙◌, Bool, true,
  false, List, [], ◌∷◌, ltb, if◌then◌else◌, Bool-cases, arith,
}
use cubefs_blobstore.Base.Int.{ℤ, pos, negsuc}
use cubefs_blobstore.Base.Dict.{
  Dict, lookup, insert, string_eq, eq_cases, lookup-insert_self, lookup-insert_ne,
}
use cubefs_blobstore.Clustermgr.ScopeMgr.{
  ScopeMgr, value_of, ScopeAnswer, invalid_count, propose_failed, scope, clip, raised, proposed,
  alloc_scope, TableAnswer, read_fails, write_fails, works, put_current, apply_commit, load_data,
}

abbrev pub item : ScopeMgr → String → ℕ
item s name = value_of (lookup name s.scope_items)

abbrev pub stored : ScopeMgr → String → ℕ
stored s name = value_of (lookup name s.tbl)

-- A range of the answer, between two bounds: it starts above the one and ends at the other.
abbrev pub IsRange : ScopeAnswer → ℕ → ℕ → Type 0
IsRange invalid_count low high = Unit
IsRange propose_failed low high = Unit
IsRange (scope base new) low high = (base ≡ low + 1) × (new ≡ high) × (base ≤ new)

value_of-insert :
    (k j : String) (v : ℕ) (m : Dict String ℕ)
    → (value_of (lookup j (insert k v m)) ≡ value_of (lookup j m))
      ⊎ ((k ≡ j) × (value_of (lookup j (insert k v m)) ≡ v))
value_of-insert k j v m = elim (eq_cases k j) [
  | inl p ↦
      inr (p, ap value_of (ap (λ x. lookup x (insert k v m)) (sym p) ∙ lookup-insert_self k v m))
  | inr n ↦ inl (ap value_of (lookup-insert_ne k j v m n))
]

-- An allocation gives out the numbers after the name's current one up to its new one, which is the current
-- one of the name from then on, also if the proposal fails; no other name changes. The sum stays below
-- 2^64.
pub alloc_scope-IsRange :
    (s : ScopeMgr) (name : String) (count : ℤ) (ok : Bool) (j : String)
    → item s name + 1000000 < 2 ^ 64
    → let r = alloc_scope s name count ok in
      IsRange r.1 (item s name) (item r.0 name)
      × (item s j ≤ item r.0 j)
      × (name ≢ j → item r.0 j ≡ item s j)
unfolding alloc_scope
alloc_scope-IsRange s name (negsuc n) ok j room = (tt, omega arith, λ p. refl)
alloc_scope-IsRange s name (pos zero) ok j room = (tt, omega arith, λ p. refl)
alloc_scope-IsRange s name (pos (suc n)) ok j room = (
  range ok (ap value_of (lookup-insert_self name new s.scope_items)),
  elim (value_of-insert name j new s.scope_items) [
    | inl same ↦ omega (arith, same)
    | inr (p, e) ↦
        let here : item s j ≡ item s name = ap (item s) (sym p) in ground (arith, e, here, sum)
  ],
  λ p. ap value_of (lookup-insert_ne name j new s.scope_items p),
)
  where
    new : ℕ
    new = (item s name + clip (suc n)) % 2 ^ 64

    sum : new ≡ item s name + clip (suc n)
    sum = ground arith

    range :
        (b : Bool) {h : ℕ}
        → h ≡ new
        → IsRange (proposed s name (clip (suc n)) new b).1 (item s name) h
    range true e = (ground (arith, sum), sym e, ground (arith, sum))
    range false e = tt

raised-item :
    (s : ScopeMgr) (name : String) (current : ℕ) (j : String)
    → let s' = if ltb (item s name) current then raised s name current else s in
      (item s j ≤ item s' j) × (current ≤ item s' name) × (s'.tbl ≡ s.tbl)
raised-item s name current j = elim (Bool-cases (ltb (item s name) current)) [
  | inl more ↦ rw more (
    elim (value_of-insert name j current s.scope_items) [
      | inl same ↦ omega (arith, same)
      | inr (p, e) ↦
          let here : item s j ≡ item s name = ap (item s) (sym p) in ground (arith, e, here)
    ],
    (let e = ap value_of (lookup-insert_self name current s.scope_items) in omega (arith, e)),
    refl,
  )
  | inr less ↦ rw less (omega arith, ground arith, refl)
]

put_current_lem :
    (s : ScopeMgr) (name : String) (current : ℕ) (answer : TableAnswer) (j : String)
    → let r = put_current s name current answer in
      (r.0.scope_items ≡ s.scope_items)
      × (stored s j ≤ stored r.0 j)
      × (r.1 ≡ true → current ≤ stored r.0 name)
put_current_lem s name current read_fails j = (refl, omega arith, λ p. absurd (ground arith))
put_current_lem s name current write_fails j = (refl, omega arith, λ p. ground arith)
put_current_lem s name current works j = elim (Bool-cases (ltb current (stored s name))) [
  | inl old ↦ rw old (refl, omega arith, λ p. ground arith)
  | inr new ↦ rw new (
    refl,
    elim (value_of-insert name j current s.tbl) [
      | inl same ↦ omega (arith, same)
      | inr (p, e) ↦
          let here : stored s j ≡ stored s name = ap (stored s) (sym p) in ground (arith, e, here)
    ],
    λ p. let e = ap value_of (lookup-insert_self name current s.tbl) in omega (arith, e),
  )
]

-- Applying a commit lowers no name's current number and no stored one. The committed number is reached by
-- the current one, and also by the stored one when there is no error: so after a restart, which reads the
-- table, the current number of the name is at least the committed one.
pub apply_commit_raises :
    (s : ScopeMgr) (name : String) (current : ℕ) (answer : TableAnswer) (j : String)
    → let r = apply_commit s name current answer in
      (item s j ≤ item r.0 j)
      × (stored s j ≤ stored r.0 j)
      × (current ≤ item r.0 name)
      × (r.1 ≡ true → current ≤ item (load_data r.0) name)
unfolding apply_commit load_data
apply_commit_raises s name current answer j =
    let s' : ScopeMgr = if ltb (item s name) current then raised s name current else s in
    let (up, reach, tbl) = raised-item s name current j in
    let (items, st, ok) = put_current_lem s' name current answer j in
    let same : item (put_current s' name current answer).0 j ≡ item s' j =
      ap (λ m. value_of (lookup j m)) items in
    let same' : item (put_current s' name current answer).0 name ≡ item s' name =
      ap (λ m. value_of (lookup name m)) items in
    let base : stored s' j ≡ stored s j = ap (λ m. value_of (lookup j m)) tbl in
    (omega (arith, up, same), omega (arith, st, base), omega (arith, reach, same'), ok)

pub data ScopeCall : Type 0 where
  allocs : String → ℤ → Bool → ScopeCall
  commits : String → ℕ → TableAnswer → ScopeCall

-- A number of a range that is given out.
abbrev pub InAnswer : ScopeAnswer → ℕ → Type 0
InAnswer invalid_count x = ⊥
InAnswer propose_failed x = ⊥
InAnswer (scope base new) x = (base ≤ x) × (x ≤ new)

-- A history gives the number out under the name.
abbrev pub GivenIn : ScopeMgr → List ScopeCall → String → ℕ → Type 0
GivenIn s [] name x = ⊥
GivenIn s (allocs n count ok ∷ cs) name x =
    ((n ≡ name) × InAnswer (alloc_scope s n count ok).1 x)
    ⊎ GivenIn (alloc_scope s n count ok).0 cs name x
GivenIn s (commits n current answer ∷ cs) name x =
    GivenIn (apply_commit s n current answer).0 cs name x

-- No name's number comes near 2^64.
abbrev pub HasRoom : ScopeMgr → List ScopeCall → Type 0
HasRoom s [] = Unit
HasRoom s (allocs n count ok ∷ cs) =
    (item s n + 1000000 < 2 ^ 64) × HasRoom (alloc_scope s n count ok).0 cs
HasRoom s (commits n current answer ∷ cs) = HasRoom (apply_commit s n current answer).0 cs

in_range :
    (a : ScopeAnswer) (low high x : ℕ) → IsRange a low high → InAnswer a x → (low < x) × (x ≤ high)
in_range invalid_count low high x r i = absurd i
in_range propose_failed low high x r i = absurd i
in_range (scope base new) low high x (b, n, le) i = (omega (arith, b, i), omega (arith, n, i))

never :
    (s : ScopeMgr) (cs : List ScopeCall) (name : String) (x : ℕ)
    → HasRoom s cs
    → x ≤ item s name
    → ¬ GivenIn s cs name x
never s [] name x room low = λ g. g
never s (allocs n count ok ∷ cs) name x room low = λ g.
    let (range, up, others) = alloc_scope-IsRange s n count ok name room.0 in
    elim g [
      | inl (p, i) ↦
          let here : item s n ≡ item s name = ap (item s) p in
          let (above, le) = in_range (alloc_scope s n count ok).1 _ _ x range i in
          omega (arith, here, above, low)
      | inr later ↦
          never (alloc_scope s n count ok).0 cs name x room.1 (omega (arith, up, low)) later
    ]
never s (commits n current answer ∷ cs) name x room low =
    let (up, st, reach, restart) = apply_commit_raises s n current answer name in
    never (apply_commit s n current answer).0 cs name x room (omega (arith, up, low))

-- A number that an allocation has given out under a name is given out under it by no later allocation, in
-- any history of allocations and commits, whatever raft and the table answer, while the numbers stay below
-- 2^64 with room for one allocation.
pub scopes_unique :
    (s : ScopeMgr) (name : String) (count : ℤ) (ok : Bool) (x : ℕ) (cs : List ScopeCall)
    → HasRoom s (allocs name count ok ∷ cs)
    → InAnswer (alloc_scope s name count ok).1 x
    → ¬ GivenIn (alloc_scope s name count ok).0 cs name x
scopes_unique s name count ok x cs room given =
    let (range, up, others) = alloc_scope-IsRange s name count ok name room.0 in
    never (alloc_scope s name count ok).0 cs name x room.1 (in_range _ _ _ x range given).1
