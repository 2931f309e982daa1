-- ===== src/Clustermgr/Sharded.antt =====
-- clustermgr/volumemgr/proto.go, type shardedVolumes: the volumes by id, spread over `num` maps. The
-- entries are pointers: an operation that changes a volume writes it back under its id.
use cubefs_blobstore.Base.{ℕ, ◌%◌, ◌≡◌, ◌≢◌, inl, inr, sym, ap, ◌∙◌, Option, none, some, []}
use cubefs_blobstore.Base.Dict.{
  Dict, lookup, insert, nat_eq, eq_cases, lookup-insert_self, lookup-insert_ne,
}
use cubefs_blobstore.Base.Refs.{update, update_self, update_ne}
use cubefs_blobstore.Clustermgr.Volume.{Volume}

pub record ShardedVolumes : Type 0 where
  pub num : ℕ
  pub m : ℕ → Dict ℕ Volume

abbrev pub new_sharded_volumes : ℕ → ShardedVolumes
new_sharded_volumes num = record { num = num; m = λ idx. [] }

unfoldable pub get_vol : ShardedVolumes → ℕ → Option Volume
get_vol s vid = lookup vid (s.m (vid % s.num))

-- A write through the pointer of a volume.
unfoldable pub write_vol : ShardedVolumes → Volume → ShardedVolumes
write_vol s v = record s { m = update s.m (v.vid % s.num) (insert v.vid v (s.m (v.vid % s.num))) }

unfoldable pub put_vol : ShardedVolumes → Volume → ShardedVolumes
unfolding get_vol write_vol
put_vol s v = elim (get_vol s v.vid) [ none ↦ write_vol s v | some old ↦ s ]

pub get_vol-write_vol : (s : ShardedVolumes) (v : Volume) → get_vol (write_vol s v) v.vid ≡ some v
unfolding get_vol write_vol
get_vol-write_vol s v =
    ap (lookup v.vid) (update_self s.m (v.vid % s.num) _)
    ∙ lookup-insert_self v.vid v (s.m (v.vid % s.num))

pub get_vol-write_vol_ne :
    (s : ShardedVolumes) (v : Volume) (x : ℕ) → v.vid ≢ x → get_vol (write_vol s v) x ≡ get_vol s x
unfolding get_vol write_vol
get_vol-write_vol_ne s v x n = elim (eq_cases (v.vid % s.num) (x % s.num)) [
  | inl p ↦
      ap (λ j. lookup x (update s.m (v.vid % s.num) (insert v.vid v (s.m (v.vid % s.num))) j))
        (sym p)
      ∙ (ap (lookup x) (update_self s.m (v.vid % s.num) _)
          ∙ (lookup-insert_ne v.vid x v _ n ∙ ap (λ j. lookup x (s.m j)) p))
  | inr p ↦ ap (lookup x) (update_ne s.m (v.vid % s.num) (x % s.num) _ p)
]
