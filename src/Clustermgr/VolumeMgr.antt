-- ===== src/Clustermgr/VolumeMgr.antt =====
-- clustermgr/volumemgr/volumemgr.go: the volume manager's state, the status statistics of volume_stat.go,
-- and the operations on volumes that raft applies. A database write is given its result: `none`, and the
-- table (clustermgr/persistence/volumedb/volumetbl.go) holds what was put, or an error, and it holds what
-- it held. The outer `none` is a panic or the exit after a failed callback. The signals on channels and the
-- metrics are not modelled.
pub mod Status
pub mod Stat
pub mod Lease
pub mod Spared
pub mod Histories
mod Tests
use Prim.Native.String.{String}
use cubefs_blobstore.Base.{
  ℕ, ◌+◌, Bool, true, false, not, Option, none, some, List, [], ◌∷◌, leb, ltb, ◌==◌, if◌then◌else◌,
  ◌>>=◌,
}
use cubefs_blobstore.Base.Int.{ℤ}
use cubefs_blobstore.Base.Dict.{Dict, lookup, insert, delete, nat_eq, string_eq}
use cubefs_blobstore.Clustermgr.Token.{encode_token, decode_token}
use cubefs_blobstore.Clustermgr.Volume.{
  Volume, VolumeUnit, VolumeInfoBase, VolumeInfo, Token, VolumeRecord, VolumeUnitRecord,
  TokenRecord, to_record, to_token_record, to_volume_info, is_valid_status, get_status, can_alloc,
  can_lock, can_unlock, is_expired, get_score_threshold, status_idle, status_active, status_lock,
  status_unlocking,
}
use cubefs_blobstore.Clustermgr.Allocator.{
  VolumeAllocator, notify_status, volume_free_health_callback,
}
use cubefs_blobstore.Clustermgr.Sharded.{ShardedVolumes, get_vol, write_vol}

pub data VolumeError : Type 0 where
  volume_not_exist : VolumeError
  volume_unit_not_exist : VolumeError
  invalid_token : VolumeError
  old_vuid_not_match : VolumeError
  new_vuid_not_match : VolumeError
  new_disk_id_not_match : VolumeError
  volume_not_alloc : VolumeError
  repeat_update_unit : VolumeError
  cm_disk_not_found : VolumeError
  stat_chunk_failed : VolumeError
  -- An error of the database or of the disk manager.
  other : ℕ → VolumeError

pub record VolumeTable : Type 0 where
  pub volumes : Dict ℕ VolumeRecord
  pub units : Dict ℕ VolumeUnitRecord
  pub tokens : Dict ℕ TokenRecord

-- The ids of the volumes of each status.
pub record VolumeStatusStat : Type 0 where
  pub stats : ℕ → Dict ℕ ℕ

abbrev pub volume_state_exist : ℕ
volume_state_exist = 1

unfoldable pub add_stat : VolumeStatusStat → Volume → ℕ → VolumeStatusStat
add_stat v vol status = if not (is_valid_status status) then v else record {
  stats = λ st.
      if is_valid_status st
      then (if st == status
          then insert vol.vid volume_state_exist (v.stats st)
          else delete vol.vid (v.stats st))
      else v.stats st;
}

-- The fields that the operations below and those of Units use. The modes with their tactics are the
-- allocator's.
pub record VolumeMgr : Type 0 where
  pub all : ShardedVolumes
  pub allocator : VolumeAllocator
  pub status_stat : VolumeStatusStat
  pub volume_tbl : VolumeTable
  pub pending_entries : Dict String ℕ
  pub dirty : Dict ℕ ℕ
  pub freeze_threshold : ℕ

-- The state after an operation and its error, if any.
abbrev pub Outcome : Type 0
Outcome = Option (VolumeMgr × Option VolumeError)

abbrev pub write_volume : VolumeMgr → Volume → VolumeMgr
write_volume m vol = record m { all = write_vol m.all vol }

abbrev pub with_base : Volume → VolumeInfoBase → Volume
with_base vol base = record vol { vol_info_base = base }

abbrev pub with_status : Volume → ℕ → Volume
with_status vol status = with_base vol (record (vol.vol_info_base) { status = status })

abbrev pub with_free : Volume → ℕ → Volume
with_free vol free = with_base vol (record (vol.vol_info_base) { free = free })

abbrev pub with_health : Volume → ℤ → Volume
with_health vol score = with_base vol (record (vol.vol_info_base) { health_score = score })

-- setStatus: the volume has the status when the statistics and the callbacks read it.
unfoldable pub set_status : VolumeMgr → Volume → ℕ → Option VolumeMgr
set_status m vol status =
    let vol' = with_status vol status in
    notify_status m.allocator vol' status >>= λ a. some (record m {
      all = write_vol m.all vol';
      status_stat = add_stat m.status_stat vol' status;
      allocator = a;
    })

unfoldable pub set_free : VolumeMgr → Volume → ℕ → Option VolumeMgr
set_free m vol free =
    let vol' = with_free vol free in
    volume_free_health_callback m.allocator vol' >>= λ a.
    some (record m { all = write_vol m.all vol'; allocator = a })

unfoldable pub set_health_score : VolumeMgr → Volume → ℤ → Option VolumeMgr
set_health_score m vol score =
    let vol' = with_health vol score in
    volume_free_health_callback m.allocator vol' >>= λ a.
    some (record m { all = write_vol m.all vol'; allocator = a })

-- PutVolumeRecord, PutToken and PutVolumeAndToken with the result of the write.
abbrev pub put_volume_record :
    VolumeMgr → VolumeRecord → Option VolumeError → VolumeMgr × Option VolumeError
put_volume_record m r (some e) = (m, some e)
put_volume_record m r none = (
  record m { volume_tbl = record (m.volume_tbl) { volumes = insert r.vid r m.volume_tbl.volumes } },
  none,
)

abbrev pub put_token :
    VolumeMgr → ℕ → TokenRecord → Option VolumeError → VolumeMgr × Option VolumeError
put_token m vid r (some e) = (m, some e)
put_token m vid r none = (
  record m { volume_tbl = record (m.volume_tbl) { tokens = insert vid r m.volume_tbl.tokens } },
  none,
)

abbrev pub put_volume_and_token : VolumeMgr → VolumeRecord → TokenRecord → VolumeMgr
put_volume_and_token m r t = record m {
  volume_tbl = record (m.volume_tbl) {
    volumes = insert r.vid r m.volume_tbl.volumes;
    tokens = insert t.vid t m.volume_tbl.tokens;
  };
}

pub record AllocVolumeInfo : Type 0 where
  pub volume_info : VolumeInfo
  pub token : String
  pub expire_time : ℕ

-- A `ret` of `none` is the zero value.
pub record AllocResult : Type 0 where
  pub mgr : VolumeMgr
  pub ret : Option AllocVolumeInfo
  pub err : Option VolumeError

abbrev pub alloc_result : VolumeMgr → Volume → String → ℕ → Option VolumeError → AllocResult
alloc_result m vol token_id expire_time (some e) = record { mgr = m; ret = none; err = some e }
alloc_result m vol token_id expire_time none = record {
  mgr =
      put_volume_and_token m (to_record vol) (
        to_token_record (record { vid = vol.vid; token_id = token_id; expire_time = expire_time }));
  ret =
      some
        (record { volume_info = to_volume_info vol; token = token_id; expire_time = expire_time });
  err = none;
}

abbrev pub with_token : Volume → Token → Volume
with_token vol t = record vol { token = some t }

-- The new token for a host.
abbrev pub token_for : ℕ → String → ℕ → Token
token_for vid host expire_time = record {
  vid = vid;
  token_id = encode_token host vid;
  expire_time = expire_time;
}

abbrev pub grant : VolumeMgr → Volume → String → ℕ → Option VolumeError → Option AllocResult
grant m vol host expire_time db =
    let held = with_token vol (token_for vol.vid host expire_time) in
    set_status m held status_active >>= λ m'.
    some
      (alloc_result m' (with_status held status_active) (encode_token host vol.vid) expire_time db)

abbrev pub grant_if : VolumeMgr → Volume → String → ℕ → Option VolumeError → ℤ → Option AllocResult
grant_if m vol host expire_time db threshold =
    if not (can_alloc vol m.freeze_threshold threshold)
    then some (record { mgr = m; ret = none; err = none })
    else grant m vol host expire_time db

unfoldable pub apply_alloc_volume :
    VolumeMgr → ℕ → String → ℕ → Option VolumeError → Option AllocResult
apply_alloc_volume m vid host expire_time db = elim (get_vol m.all vid) [
  | none ↦ some (record { mgr = m; ret = none; err = some volume_not_exist })
  | some vol ↦ get_score_threshold vol >>= grant_if m vol host expire_time db
]

-- What the loop over the ids does after one of them.
abbrev pub continue_if : VolumeMgr × Option VolumeError → (VolumeMgr → Outcome) → Outcome
continue_if (m, some e) rest = some (m, some e)
continue_if (m, none) rest = rest m

abbrev pub expire_one : VolumeMgr → Volume → Option VolumeError → (VolumeMgr → Outcome) → Outcome
expire_one m vol db rest = set_status m vol status_idle >>= λ m'.
    continue_if (put_volume_record m' (to_record (with_status vol status_idle)) db) rest

abbrev pub expire_if :
    VolumeMgr → Volume → Option VolumeError → (VolumeMgr → Outcome) → Bool → Outcome
expire_if m vol db rest expired = if not expired then some (m, none) else expire_one m vol db rest

-- An idle or unexpired volume ends the loop with success.
unfoldable pub apply_expire_volume : VolumeMgr → List ℕ → ℕ → (ℕ → Option VolumeError) → Outcome
apply_expire_volume m [] now db = some (m, none)
apply_expire_volume m (vid ∷ vids) now db = elim (get_vol m.all vid) [
  | none ↦ some (m, some volume_not_exist)
  | some vol ↦
      if get_status vol == status_idle
      then some (m, none)
      else (is_expired vol now
          >>= expire_if m vol (db vid) (λ m'. apply_expire_volume m' vids now db))
]

pub record RetainVolume : Type 0 where
  pub token : String
  pub expire_time : ℕ

abbrev pub retain_held :
    VolumeMgr
    → ℕ
    → Volume
    → RetainVolume
    → Option VolumeError
    → (VolumeMgr → Outcome)
    → Option Token
    → Outcome
retain_held m vid vol r db rest none = some (m, some volume_not_alloc)
retain_held m vid vol r db rest (some t) =
    continue_if
      (put_token m vid (record { vid = vid; token_id = r.token; expire_time = r.expire_time }) db)
      (λ m'. rest (write_volume m' (with_token vol (record t { expire_time = r.expire_time }))))

unfoldable pub apply_retain_volume :
    VolumeMgr → List RetainVolume → (ℕ → Option VolumeError) → Outcome
apply_retain_volume m [] db = some (m, none)
apply_retain_volume m (r ∷ rs) db = elim (decode_token r.token) [
  | none ↦ some (m, some invalid_token)
  | some held ↦ elim (get_vol m.all held.1) [
    | none ↦ some (m, some volume_not_exist)
    | some vol ↦
        retain_held m held.1 vol r (db held.1) (λ m'. apply_retain_volume m' rs db) vol.token
  ]
]

unfoldable pub apply_admin_update_volume : VolumeMgr → VolumeInfoBase → Option VolumeError → Outcome
apply_admin_update_volume m info db = elim (get_vol m.all info.vid) [
  | none ↦ some (m, some volume_not_exist)
  | some vol ↦
      let sized =
        with_base vol (record (vol.vol_info_base) { used = info.used; total = info.total }) in
      let freed = with_free sized info.free in
      let moved = with_status freed info.status in
      set_free m sized info.free >>= λ m₁. set_status m₁ freed info.status >>= λ m₂.
      set_health_score m₂ moved info.health_score >>= λ m₃.
      some (put_volume_record m₃ (to_record (with_health moved info.health_score)) db)
]
