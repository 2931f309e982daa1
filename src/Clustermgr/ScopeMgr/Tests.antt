-- ===== src/Clustermgr/ScopeMgr/Tests.antt =====
-- The ranges of clustermgr/scopemgr/scopemgr.go with one name.
use cubefs_blobstore.Base.{◌≤◌, ◌≡◌, [], ◌∷◌, true, arith}
use cubefs_blobstore.Base.Int.{pos}
use cubefs_blobstore.Base.Dict.{lookup, insert, string_eq}
use cubefs_blobstore.Clustermgr.ScopeMgr.{ScopeMgr, alloc_scope, apply_commit, load_data, works}
use cubefs_blobstore.Clustermgr.ScopeMgr.Ranges.{
  item, stored, apply_commit_raises, allocs, commits, GivenIn, scopes_unique,
}

abbrev mgr : ScopeMgr
mgr = record { scope_items = ("bid", 100) ∷ []; tbl = ("bid", 100) ∷ [] }

apply_commit_raises_example :
    let r = apply_commit mgr "bid" 110 works in
    (item mgr "bid" ≤ item r.0 "bid")
    × (stored mgr "bid" ≤ stored r.0 "bid")
    × (110 ≤ item r.0 "bid")
    × (r.1 ≡ true → 110 ≤ item (load_data r.0) "bid")
apply_commit_raises_example = apply_commit_raises mgr "bid" 110 works "bid"

scopes_unique_example :
    ¬ GivenIn
      (alloc_scope mgr "bid" (pos 10) true).0
      (commits "bid" 110 works ∷ allocs "bid" (pos 5) true ∷ [])
      "bid"
      105
unfolding alloc_scope apply_commit lookup insert
scopes_unique_example =
    scopes_unique mgr "bid" (pos 10) true 105
      (commits "bid" 110 works ∷ allocs "bid" (pos 5) true ∷ []) (omega arith, (omega arith, tt))
      (omega arith, omega arith)
