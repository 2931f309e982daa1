-- ===== src/Clustermgr/Volume.antt =====
-- clustermgr/volumemgr/proto.go: the volume, its units and its token, and their database records
-- (clustermgr/persistence/volumedb/volumetbl.go). Times are nanoseconds, not negative; `now` is what
-- time.Now() gives. Locks are not modelled: an operation that holds the volume's lock is one step.
use Prim.Native.String.{String}
use cubefs_blobstore.Base.{
  ℕ, Bool, true, false, ◌&&◌, not, Option, some, List, [], ◌∷◌, map, ltb, leb, ◌==◌, if◌then◌else◌,
  ◌>>=◌,
}
use cubefs_blobstore.Base.Int.{ℤ, diff, leb_int}
use cubefs_blobstore.Codemode.{tactic, get_shard_num}
use cubefs_blobstore.Proto.Vuid.{encode_vuid, is_valid as is_valid_vuid}

-- proto.VolumeStatus, a uint8; the valid ones are 1 to 4.
abbrev pub status_idle : ℕ
status_idle = 1

abbrev pub status_active : ℕ
status_active = 2

abbrev pub status_lock : ℕ
status_lock = 3

abbrev pub status_unlocking : ℕ
status_unlocking = 4

abbrev pub status_max : ℕ
status_max = 5

unfoldable pub is_valid_status : ℕ → Bool
is_valid_status status = ltb 0 status && ltb status status_max

abbrev pub invalid_vid : ℕ
invalid_vid = 0

pub record VolumeUnitInfo : Type 0 where
  pub vuid : ℕ
  pub disk_id : ℕ
  pub total : ℕ
  pub free : ℕ
  pub used : ℕ
  pub compacting : Bool
  pub host : String

pub record VolumeUnit : Type 0 where
  pub vuid_prefix : ℕ
  pub epoch : ℕ
  pub next_epoch : ℕ
  pub vu_info : VolumeUnitInfo

pub record VolumeInfoBase : Type 0 where
  pub vid : ℕ
  pub code_mode : ℕ
  pub status : ℕ
  pub health_score : ℤ
  pub total : ℕ
  pub free : ℕ
  pub used : ℕ
  pub create_by_node_id : ℕ

pub record Token : Type 0 where
  pub vid : ℕ
  pub token_id : String
  pub expire_time : ℕ

pub record Volume : Type 0 where
  pub vid : ℕ
  pub v_units : List VolumeUnit
  pub vol_info_base : VolumeInfoBase
  pub token : Option Token
  pub smallest_vu_idx : ℕ

pub record VolumeRecord : Type 0 where
  pub vid : ℕ
  pub vuid_prefixs : List ℕ
  pub code_mode : ℕ
  pub health_score : ℤ
  pub status : ℕ
  pub total : ℕ
  pub free : ℕ
  pub used : ℕ
  pub create_by_node_id : ℕ

pub record VolumeUnitRecord : Type 0 where
  pub vuid_prefix : ℕ
  pub epoch : ℕ
  pub next_epoch : ℕ
  pub disk_id : ℕ
  pub free : ℕ
  pub total : ℕ
  pub used : ℕ
  pub compacting : Bool

pub record TokenRecord : Type 0 where
  pub vid : ℕ
  pub token_id : String
  pub expire_time : ℕ

-- cm.Unit and cm.VolumeInfo
pub record UnitInfo : Type 0 where
  pub vuid : ℕ
  pub disk_id : ℕ
  pub host : String

pub record VolumeInfo : Type 0 where
  pub base : VolumeInfoBase
  pub units : List UnitInfo

unfoldable pub to_record : Volume → VolumeRecord
to_record vol = record {
  vid = vol.vid;
  vuid_prefixs = map (λ (u : VolumeUnit). u.vuid_prefix) vol.v_units;
  code_mode = vol.vol_info_base.code_mode;
  health_score = vol.vol_info_base.health_score;
  status = vol.vol_info_base.status;
  total = vol.vol_info_base.total;
  free = vol.vol_info_base.free;
  used = vol.vol_info_base.used;
  create_by_node_id = vol.vol_info_base.create_by_node_id;
}

abbrev unit_info : VolumeUnit → UnitInfo
unit_info u = record { vuid = u.vu_info.vuid; disk_id = u.vu_info.disk_id; host = u.vu_info.host }

unfoldable pub to_volume_info : Volume → VolumeInfo
to_volume_info vol = record { base = vol.vol_info_base; units = map unit_info vol.v_units }

unfoldable pub to_volume_unit_record : VolumeUnit → VolumeUnitRecord
to_volume_unit_record u = record {
  vuid_prefix = u.vuid_prefix;
  epoch = u.epoch;
  next_epoch = u.next_epoch;
  disk_id = u.vu_info.disk_id;
  free = u.vu_info.free;
  total = u.vu_info.total;
  used = u.vu_info.used;
  compacting = u.vu_info.compacting;
}

unfoldable pub to_token_record : Token → TokenRecord
to_token_record t = record { vid = t.vid; token_id = t.token_id; expire_time = t.expire_time }

-- The status of the result is the zero of its type, and so is the host of a unit.
unfoldable pub volume_record_to_volume_info_base : VolumeRecord → VolumeInfoBase
volume_record_to_volume_info_base r = record {
  vid = r.vid;
  code_mode = r.code_mode;
  status = 0;
  health_score = r.health_score;
  total = r.total;
  free = r.free;
  used = r.used;
  create_by_node_id = r.create_by_node_id;
}

unfoldable pub volume_unit_record_to_volume_unit : VolumeUnitRecord → VolumeUnit
volume_unit_record_to_volume_unit r = record {
  vuid_prefix = r.vuid_prefix;
  epoch = r.epoch;
  next_epoch = r.next_epoch;
  vu_info = record {
    vuid = encode_vuid r.vuid_prefix r.epoch;
    disk_id = r.disk_id;
    total = r.total;
    free = r.free;
    used = r.used;
    compacting = r.compacting;
    host = "";
  };
}

unfoldable pub token_record_to_token : TokenRecord → Token
token_record_to_token r = record { vid = r.vid; token_id = r.token_id; expire_time = r.expire_time }

abbrev pub get_status : Volume → ℕ
get_status vol = vol.vol_info_base.status

unfoldable pub can_insert : Volume → Bool
can_insert vol = vol.vol_info_base.status == status_idle

unfoldable pub can_alloc : Volume → ℕ → ℤ → Bool
unfolding can_insert
can_alloc vol freeze_threshold score_threshold =
    if can_insert vol
      && (ltb freeze_threshold vol.vol_info_base.free
          && leb_int score_threshold vol.vol_info_base.health_score)
    then true
    else false

-- `none` is the panic on a volume without a token.
abbrev token_lives : Volume → ℕ → Option Bool
token_lives vol now = vol.token >>= λ t. some (leb now t.expire_time)

unfoldable pub can_retain : Volume → ℕ → ℤ → ℕ → Option Bool
can_retain vol freeze_threshold retain_threshold now =
    if ltb freeze_threshold vol.vol_info_base.free
      && leb_int retain_threshold vol.vol_info_base.health_score
    then (token_lives vol now >>= λ lives. some (lives && get_status vol == status_active))
    else some false

unfoldable pub can_lock : Volume → Bool
can_lock vol = get_status vol == status_idle

unfoldable pub can_unlock : Volume → Bool
can_unlock vol = get_status vol == status_lock

unfoldable pub is_expired : Volume → ℕ → Option Bool
is_expired vol now =
    if get_status vol == status_active
    then (vol.token >>= λ t. some (ltb t.expire_time now))
    else some false

unfoldable pub is_valid_unit : VolumeUnit → Bool
is_valid_unit u =
    is_valid_vuid u.vu_info.vuid
    && (is_valid_vuid (encode_vuid u.vuid_prefix u.epoch) && leb u.epoch u.next_epoch)

unfoldable pub all_units_valid : List VolumeUnit → Bool
unfolding is_valid_unit
all_units_valid [] = true
all_units_valid (u ∷ us) =
    let rest = all_units_valid us in if not (is_valid_unit u) then false else rest

unfoldable pub is_valid_volume : Volume → Bool
unfolding all_units_valid
is_valid_volume vol = if vol.vid == invalid_vid then false else all_units_valid vol.v_units

-- `none` is the panic on a mode that the table does not have.
unfoldable pub get_score_threshold : Volume → Option ℤ
get_score_threshold vol = tactic vol.vol_info_base.code_mode >>= λ t.
    get_shard_num vol.vol_info_base.code_mode >>= λ shards. some (diff t.put_quorum shards)
