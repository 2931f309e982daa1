-- ===== src/Clustermgr/ScopeMgr.antt =====
-- clustermgr/scopemgr/scopemgr.go: ranges of numbers by name. Numbers are uint64, a count is an int. The
-- answer of the raft proposal and those of the table are arguments; a missing key of the map or of the
-- table reads as 0.
pub mod Ranges
mod Tests
use Prim.Native.String.{String}
use cubefs_blobstore.Base.{
  ℕ, zero, suc, ◌+◌, ◌-◌, ◌%◌, ◌^◌, Bool, true, false, Option, none, some, List, [], ◌∷◌, leb, ltb,
  ◌==◌, if◌then◌else◌,
}
use cubefs_blobstore.Base.Int.{ℤ, pos, negsuc}
use cubefs_blobstore.Base.Dict.{Dict, lookup, insert, string_eq}

abbrev pub max_count : ℕ
max_count = 1000000

pub record ScopeMgr : Type 0 where
  pub scope_items : Dict String ℕ
  pub tbl : Dict String ℕ

abbrev pub value_of : Option ℕ → ℕ
value_of none = 0
value_of (some n) = n

unfoldable pub get_current : ScopeMgr → String → ℕ
get_current s name = value_of (lookup name s.scope_items)

pub data ScopeAnswer : Type 0 where
  invalid_count : ScopeAnswer
  propose_failed : ScopeAnswer
  scope : ℕ → ℕ → ScopeAnswer

abbrev pub clip : ℕ → ℕ
clip count = if ltb max_count count then max_count else count

abbrev pub raised : ScopeMgr → String → ℕ → ScopeMgr
raised s name new = record s { scope_items = insert name new s.scope_items }

-- base = new - count + 1
abbrev pub proposed : ScopeMgr → String → ℕ → ℕ → Bool → ScopeMgr × ScopeAnswer
proposed s name count new ok = (
  raised s name new,
  if ok then scope ((new + (2 ^ 64 - count) + 1) % 2 ^ 64) new else propose_failed,
)

-- `ok` says whether the proposal succeeds.
abbrev pub alloc_positive : ScopeMgr → String → ℕ → Bool → ScopeMgr × ScopeAnswer
alloc_positive s name count ok =
    proposed s name (clip count) ((value_of (lookup name s.scope_items) + clip count) % 2 ^ 64) ok

unfoldable pub alloc_scope : ScopeMgr → String → ℤ → Bool → ScopeMgr × ScopeAnswer
alloc_scope s name (negsuc n) ok = (s, invalid_count)
alloc_scope s name (pos zero) ok = (s, invalid_count)
alloc_scope s name (pos (suc n)) ok = alloc_positive s name (suc n) ok

-- What the table does: it fails to read, it reads and fails to write, or it does both.
pub data TableAnswer : Type 0 where
  read_fails : TableAnswer
  write_fails : TableAnswer
  works : TableAnswer

abbrev pub put_current : ScopeMgr → String → ℕ → TableAnswer → ScopeMgr × Bool
put_current s name current read_fails = (s, false)
put_current s name current write_fails =
    (s, if ltb current (value_of (lookup name s.tbl)) then true else false)
put_current s name current works = (
  if ltb current (value_of (lookup name s.tbl))
      then s
      else record s { tbl = insert name current s.tbl },
  true,
)

-- applyCommit; the Boolean says that there is no error.
unfoldable pub apply_commit : ScopeMgr → String → ℕ → TableAnswer → ScopeMgr × Bool
apply_commit s name current answer =
    put_current
      (if ltb (value_of (lookup name s.scope_items)) current then raised s name current else s) name
      current answer

-- LoadData: the map is what the table holds.
unfoldable pub load_data : ScopeMgr → ScopeMgr
load_data s = record s { scope_items = s.tbl }
