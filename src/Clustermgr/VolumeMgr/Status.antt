-- ===== src/Clustermgr/VolumeMgr/Status.antt =====
-- The volumes that clustermgr/volumemgr/volumemgr.go keeps, after an allocation, an expiry and a retention.
use Prim.Native.String.{String}
use cubefs_blobstore.Base.{
  ℕ, ◌≡◌, ◌≢◌, inl, inr, refl, sym, ap, subst, ◌∙◌, true, false, Option, none, some, ◌>>=◌,
  Option-cases, Bool-cases, bind_some, some_inj,
}
use cubefs_blobstore.Base.Int.{ℤ}
use cubefs_blobstore.Base.Dict.{insert, nat_eq, eq_cases}
use cubefs_blobstore.Clustermgr.Token.{encode_token}
use cubefs_blobstore.Clustermgr.Volume.{
  Volume, Token, to_record, to_volume_info, to_token_record, can_alloc, get_score_threshold,
  status_active,
}
use cubefs_blobstore.Clustermgr.Allocator.{notify_status}
use cubefs_blobstore.Clustermgr.Sharded.{
  ShardedVolumes, get_vol, write_vol, get_vol-write_vol, get_vol-write_vol_ne,
}
use cubefs_blobstore.Clustermgr.VolumeMgr.{
  VolumeMgr, VolumeTable, VolumeError, volume_not_exist, with_status, set_status, put_volume_record,
  AllocResult, alloc_result, with_token, token_for, grant, grant_if, apply_alloc_volume,
}

-- Every volume stands under its own id.
abbrev pub IsKeyed : ShardedVolumes → Type 0
IsKeyed s = (vid : ℕ) (vol : Volume) → get_vol s vid ≡ some vol → vol.vid ≡ vid

pub write_vol-IsKeyed : (s : ShardedVolumes) (v : Volume) → IsKeyed s → IsKeyed (write_vol s v)
write_vol-IsKeyed s v k vid vol h = elim (eq_cases v.vid vid) [
  | inl p ↦
      let same : v ≡ vol =
        some_inj v vol (sym (get_vol-write_vol s v) ∙ (ap (get_vol (write_vol s v)) p ∙ h)) in
      sym (ap (λ (z : Volume). z.vid) same) ∙ p
  | inr n ↦ k vid vol (sym (get_vol-write_vol_ne s v vid n) ∙ h)
]

pub set_status_all :
    (m m' : VolumeMgr) (vol : Volume) (status : ℕ)
    → set_status m vol status ≡ some m'
    → (m'.all ≡ write_vol m.all (with_status vol status)) × (m'.volume_tbl ≡ m.volume_tbl)
unfolding set_status
set_status_all m m' vol status h =
    let (a, e, f) = bind_some (notify_status m.allocator (with_status vol status) status) _ m' h in
    let same = some_inj _ m' f in
    (sym (ap (λ (z : VolumeMgr). z.all) same), sym (ap (λ (z : VolumeMgr). z.volume_tbl) same))

put_volume_record_all :
    (m : VolumeMgr) (vol : Volume) (db : Option VolumeError)
    → (put_volume_record m (to_record vol) db).0.all ≡ m.all
put_volume_record_all m vol none = refl
put_volume_record_all m vol (some e) = refl

-- What the write of the volume and its token leads to: the answer names both, and the table holds both; or
-- it fails, nothing is returned, and the table is as it was.
abbrev pub Written : VolumeMgr → Volume → Token → Option VolumeError → AllocResult → Type 0
Written m vol t none r =
    (r.err ≡ none)
    × (r.ret
        ≡ some (record {
          volume_info = to_volume_info vol;
          token = t.token_id;
          expire_time = t.expire_time;
        }))
    × (r.mgr.volume_tbl.volumes ≡ insert vol.vid (to_record vol) m.volume_tbl.volumes)
    × (r.mgr.volume_tbl.tokens ≡ insert vol.vid (to_token_record t) m.volume_tbl.tokens)
    × (r.mgr.volume_tbl.units ≡ m.volume_tbl.units)
Written m vol t (some e) r = (r.err ≡ some e) × (r.ret ≡ none) × (r.mgr.volume_tbl ≡ m.volume_tbl)

-- What an allocation does to the volumes, by its cases.
pub data AllocSpec (m : VolumeMgr) (vid : ℕ) (host : String) (expire_time : ℕ)
    (db : Option VolumeError) : AllocResult → Type 0 where
  no_volume :
      get_vol m.all vid ≡ none
      → AllocSpec m vid host expire_time db
          (record { mgr = m; ret = none; err = some volume_not_exist })
  refuses :
      (vol : Volume) (threshold : ℤ)
      → get_vol m.all vid ≡ some vol
      → get_score_threshold vol ≡ some threshold
      → can_alloc vol m.freeze_threshold threshold ≡ false
      → AllocSpec m vid host expire_time db (record { mgr = m; ret = none; err = none })
  hands_out :
      (r : AllocResult) (vol : Volume) (threshold : ℤ) (t : Token)
      → get_vol m.all vid ≡ some vol
      → get_score_threshold vol ≡ some threshold
      → can_alloc vol m.freeze_threshold threshold ≡ true
      → t ≡ token_for vid host expire_time
      → get_vol r.mgr.all vid ≡ some (with_status (with_token vol t) status_active)
      → ((x : ℕ) → x ≢ vid → get_vol r.mgr.all x ≡ get_vol m.all x)
      → IsKeyed r.mgr.all
      → Written m (with_status (with_token vol t) status_active) t db r
      → AllocSpec m vid host expire_time db r

alloc_result-Written :
    (m m' : VolumeMgr) (vol : Volume) (t : Token) (db : Option VolumeError)
    → m'.volume_tbl ≡ m.volume_tbl
    → t.vid ≡ vol.vid
    → Written m vol t db (alloc_result m' vol t.token_id t.expire_time db)
unfolding to_record to_token_record
alloc_result-Written m m' vol t (some e) same own = (refl, refl, same)
alloc_result-Written m m' vol t none same own = (
  refl,
  refl,
  ap (λ (z : VolumeTable). insert vol.vid (to_record vol) z.volumes) same,
  ap (λ (z : VolumeTable). insert vol.vid (to_token_record (record t { vid = vol.vid })) z.tokens)
        same
      ∙ ap (λ (v : ℕ). insert vol.vid (to_token_record (record t { vid = v })) m.volume_tbl.tokens)
          (sym own),
  ap (λ (z : VolumeTable). z.units) same,
)

module _ (m : VolumeMgr) (vid : ℕ) (host : String) (expire_time : ℕ) (db : Option VolumeError)
    (k : IsKeyed m.all) where
  granted :
      (vol : Volume) (threshold : ℤ) (r : AllocResult)
      → get_vol m.all vid ≡ some vol
      → get_score_threshold vol ≡ some threshold
      → can_alloc vol m.freeze_threshold threshold ≡ true
      → grant m vol host expire_time db ≡ some r
      → AllocSpec m vid host expire_time db r
  granted vol threshold r found t can e =
      let held = with_token vol (token_for vol.vid host expire_time) in
      let after = with_status held status_active in
      let own : vol.vid ≡ vid = k vid vol found in
      let (m', ok, f) = bind_some (set_status m held status_active) _ r e in
      let all' = (set_status_all m m' held status_active ok).0 in
      let same = some_inj _ r f in
      let all_r : r.mgr.all ≡ write_vol m.all after =
        sym (ap (λ (z : AllocResult). z.mgr.all) same) ∙ (result_all m' _ db ∙ all') in
      hands_out r vol threshold _ found t can (ap (λ v. token_for v host expire_time) own)
        (ap (λ s. get_vol s vid) all_r
          ∙ (ap (get_vol (write_vol m.all after)) (sym own) ∙ get_vol-write_vol m.all after))
        (λ x n.
          ap (λ s. get_vol s x) all_r ∙ get_vol-write_vol_ne m.all after x (λ p. n (sym p ∙ own)))
        (subst IsKeyed (sym all_r) (write_vol-IsKeyed m.all after k))
        (subst (Written m after (token_for vol.vid host expire_time) db) same (
          alloc_result-Written m m' after (token_for vol.vid host expire_time) db
            (set_status_all m m' held status_active ok).1 refl))
    where
      result_all :
          (m' : VolumeMgr) (v : Volume) (d : Option VolumeError)
          → (alloc_result m' v (encode_token host vol.vid) expire_time d).mgr.all ≡ m'.all
      result_all m' v none = refl
      result_all m' v (some x) = refl

  apply_alloc_volume_found :
      (vol : Volume)
      → get_vol m.all vid ≡ some vol
      → apply_alloc_volume m vid host expire_time db
        ≡ (get_score_threshold vol >>= grant_if m vol host expire_time db)
  unfolding apply_alloc_volume
  apply_alloc_volume_found vol found = rw (found, apply_alloc_volume) refl

  grant_if_cannot :
      (vol : Volume) (threshold : ℤ)
      → can_alloc vol m.freeze_threshold threshold ≡ false
      → grant_if m vol host expire_time db threshold
        ≡ some (record { mgr = m; ret = none; err = none })
  grant_if_cannot vol threshold h = rw h refl

  grant_if_can :
      (vol : Volume) (threshold : ℤ)
      → can_alloc vol m.freeze_threshold threshold ≡ true
      → grant_if m vol host expire_time db threshold ≡ grant m vol host expire_time db
  grant_if_can vol threshold h = rw h refl

  -- The volumes stand under their own ids. An allocation that does not end the process takes the volume only
  -- if it is idle, has more free space than the freeze threshold and reaches the score threshold of its
  -- mode: then the volume is active in memory, with a token for the host until the given time, and every
  -- other volume is as it was. If the write to the table succeeds, the volume and the token are in the
  -- table, and are returned with the token's time. If it fails, its error is returned and nothing else, and
  -- the table is as it was, but the volume stays active in memory. A volume that cannot be allocated is
  -- left, with no error, and an unknown one is an error: then nothing is returned and nothing changes.
  pub apply_alloc_volume-AllocSpec :
      (r : AllocResult)
      → apply_alloc_volume m vid host expire_time db ≡ some r
      → AllocSpec m vid host expire_time db r
  unfolding apply_alloc_volume
  apply_alloc_volume-AllocSpec r e = elim (Option-cases (get_vol m.all vid)) [
    | inl absent ↦
        let unknown : apply_alloc_volume m vid host expire_time db
            ≡ some (record { mgr = m; ret = none; err = some volume_not_exist }) =
          rw (absent, apply_alloc_volume) refl in
        subst (AllocSpec m vid host expire_time db) (some_inj _ r (sym unknown ∙ e))
          (no_volume absent)
    | inr (vol, found) ↦
        let (threshold, t, f) =
          bind_some (get_score_threshold vol) _ r (sym (apply_alloc_volume_found vol found) ∙ e) in
        elim (Bool-cases (can_alloc vol m.freeze_threshold threshold)) [
          | inl can ↦ granted vol threshold r found t can (sym (grant_if_can vol threshold can) ∙ f)
          | inr cannot ↦
              subst (AllocSpec m vid host expire_time db)
                (some_inj _ r (sym (grant_if_cannot vol threshold cannot) ∙ f))
                (refuses vol threshold found t cannot)
        ]
  ]
