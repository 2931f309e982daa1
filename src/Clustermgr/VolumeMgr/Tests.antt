-- ===== src/Clustermgr/VolumeMgr/Tests.antt =====
-- The volume manager of clustermgr/volumemgr/volumemgr.go with one idle volume.
use cubefs_blobstore.Base.{ℕ, refl, none, some, Option, List, [], ◌∷◌, In, arith}
use cubefs_blobstore.Base.Int.{pos}
use cubefs_blobstore.Base.Dict.{lookup, insert, nat_eq, string_eq}
use cubefs_blobstore.Codemode.{tactic, const_code_mode_tactic, get_shard_num}
use cubefs_blobstore.Clustermgr.Token.{
  encode_token, decode_token, split, format_uint, digits_before, parse_uint32, parse_from,
}
use cubefs_blobstore.Clustermgr.Volume.{
  Volume, can_insert, can_alloc, get_score_threshold, is_expired, is_valid_status, status_idle,
}
use cubefs_blobstore.Clustermgr.Idle.{new_idle_volumes, add_allocatable}
use cubefs_blobstore.Clustermgr.Allocator.{
  notify_status, volume_status_active_callback, volume_status_idle_callback,
}
use cubefs_blobstore.Clustermgr.Sharded.{new_sharded_volumes, get_vol, write_vol}
use cubefs_blobstore.Clustermgr.VolumeMgr.{
  VolumeMgr, AllocResult, set_status, apply_alloc_volume, apply_expire_volume, apply_retain_volume,
}
use cubefs_blobstore.Clustermgr.VolumeMgr.Status.{
  IsKeyed, write_vol-IsKeyed, AllocSpec, apply_alloc_volume-AllocSpec,
}
use cubefs_blobstore.Clustermgr.VolumeMgr.Stat.{StatAgrees, set_status-StatAgrees}
use cubefs_blobstore.Clustermgr.VolumeMgr.Histories.{
  VolumeCall, allocs, expires, retains, handed_out, volume_lease,
}

abbrev volume : Volume
volume = record {
  vid = 7;
  v_units = [];
  vol_info_base = record {
    vid = 7;
    code_mode = 2;
    status = status_idle;
    health_score = pos 0;
    total = 100;
    free = 50;
    used = 50;
    create_by_node_id = 0;
  };
  token = none;
  smallest_vu_idx = 0;
}

abbrev mgr : VolumeMgr
mgr = record {
  all = write_vol (new_sharded_volumes 4) volume;
  allocator = record {
    idles = (2, add_allocatable new_idle_volumes 7) ∷ [];
    actives = record { allocator_vols = []; disk_load = λ d. pos 0 };
    allocatable_disk_load_threshold = 10;
    freeze_threshold = 10;
    code_modes = [];
  };
  status_stat = record { stats = λ st. [] };
  volume_tbl = record { volumes = []; units = []; tokens = [] };
  pending_entries = [];
  dirty = [];
  freeze_threshold = 10;
}

mgr-IsKeyed : IsKeyed mgr.all
unfolding get_vol lookup
mgr-IsKeyed = write_vol-IsKeyed (new_sharded_volumes 4) volume (λ vid vol h. absurd (ground arith))

abbrev result_or : Option AllocResult → AllocResult
result_or none = record { mgr = mgr; ret = none; err = none }
result_or (some r) = r

abbrev granted : AllocResult
granted = result_or (apply_alloc_volume mgr 7 "h" 100 none)

apply_alloc_volume-AllocSpec_example : AllocSpec mgr 7 "h" 100 none granted
unfolding apply_alloc_volume get_vol write_vol lookup insert get_score_threshold tactic
    const_code_mode_tactic get_shard_num can_alloc can_insert set_status notify_status
    volume_status_active_callback encode_token format_uint digits_before decode_token split
    parse_uint32 parse_from add_allocatable
apply_alloc_volume-AllocSpec_example =
    apply_alloc_volume-AllocSpec mgr 7 "h" 100 none mgr-IsKeyed granted refl

abbrev calls : List VolumeCall
calls =
    allocs 7 "g" 50 none
    ∷ expires (7 ∷ []) 100 (λ v. none)
    ∷ retains (record { token = "h;7"; expire_time = 200 } ∷ []) (λ v. none)
    ∷ allocs 7 "g" 300 none
    ∷ []

abbrev nothing : List ℕ
nothing = []

volume_lease_example : ¬ In 7 nothing
unfolding apply_alloc_volume get_vol write_vol lookup insert get_score_threshold tactic
    const_code_mode_tactic get_shard_num can_alloc can_insert set_status notify_status
    volume_status_active_callback encode_token format_uint digits_before decode_token split
    parse_uint32 parse_from add_allocatable handed_out apply_expire_volume apply_retain_volume
    is_expired
volume_lease_example =
    volume_lease mgr 7 "h" 100 none granted calls nothing mgr-IsKeyed refl (λ p. cc)
      (tt, (omega arith, ((omega arith, tt), (tt, tt)))) refl

-- The manager before it has the volume.
abbrev without : VolumeMgr
without = record mgr { all = new_sharded_volumes 4 }

without-StatAgrees : StatAgrees without
unfolding get_vol lookup
without-StatAgrees vid st vol found ok = absurd (ground arith)

abbrev mgr_or : Option VolumeMgr → VolumeMgr
mgr_or none = without
mgr_or (some m) = m

set_status-StatAgrees_example : StatAgrees (mgr_or (set_status without volume status_idle))
unfolding set_status notify_status volume_status_idle_callback lookup insert add_allocatable
    is_valid_status
set_status-StatAgrees_example =
    set_status-StatAgrees without (mgr_or (set_status without volume status_idle)) volume
      status_idle refl without-StatAgrees refl
