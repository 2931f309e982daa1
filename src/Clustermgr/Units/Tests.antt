-- ===== src/Clustermgr/Units/Tests.antt =====
-- The volume units of clustermgr/volumemgr/volumeunit.go with one unit at its first epoch.
use cubefs_blobstore.Base.{ℕ, ◌+◌, ◌*◌, ◌^◌, refl, none, some, Option, [], ◌∷◌, true, false, arith}
use cubefs_blobstore.Base.Int.{pos}
use cubefs_blobstore.Base.Dict.{lookup, insert, nat_eq, string_eq}
use cubefs_blobstore.Proto.Vuid.{vid, index, epoch, vuid_prefix}
use cubefs_blobstore.Clustermgr.Volume.{Volume, VolumeUnit, status_idle}
use cubefs_blobstore.Clustermgr.Sharded.{new_sharded_volumes, get_vol, write_vol}
use cubefs_blobstore.Clustermgr.VolumeMgr.{VolumeMgr, VolumeError}
use cubefs_blobstore.Clustermgr.VolumeMgr.Status.{IsKeyed, write_vol-IsKeyed}
use cubefs_blobstore.Clustermgr.Units.{
  DiskMgr, answers, StatChunk, UpdateVolumeArgs, AllocVolumeUnitCtx, apply_alloc_volume_unit,
}
use cubefs_blobstore.Clustermgr.Units.Epochs.{RaiseSpec, apply_alloc_volume_unit-RaiseSpec}

-- Volume 7, unit 0.
abbrev prefix : ℕ
prefix = 7 * 2 ^ 32

abbrev volume_unit : ℕ → VolumeUnit
volume_unit next = record {
  vuid_prefix = prefix;
  epoch = 1;
  next_epoch = next;
  vu_info = record {
    vuid = prefix + 1;
    disk_id = 3;
    total = 100;
    free = 50;
    used = 50;
    compacting = false;
    host = "h";
  };
}

abbrev disks : DiskMgr
disks = record {
  get_disk_info = λ d. answers (record { disk_id = d; host = "h" });
  is_disk_writable = λ d. answers true;
}

abbrev chunks : StatChunk
chunks = λ host disk vuid. answers (some disk)

abbrev update_args : UpdateVolumeArgs
update_args = record { new_vuid = prefix + 2; new_disk_id = 5; old_vuid = prefix + 1 }

abbrev volume : Volume
volume = record {
  vid = 7;
  v_units = volume_unit 1 ∷ [];
  vol_info_base = record {
    vid = 7;
    code_mode = 2;
    status = status_idle;
    health_score = pos 0;
    total = 100;
    free = 50;
    used = 50;
    create_by_node_id = 0;
  };
  token = none;
  smallest_vu_idx = 0;
}

abbrev mgr : VolumeMgr
mgr = record {
  all = write_vol (new_sharded_volumes 4) volume;
  allocator = record {
    idles = [];
    actives = record { allocator_vols = []; disk_load = λ d. pos 0 };
    allocatable_disk_load_threshold = 10;
    freeze_threshold = 10;
    code_modes = [];
  };
  status_stat = record { stats = λ st. [] };
  volume_tbl = record { volumes = []; units = []; tokens = [] };
  pending_entries = ("k", 0) ∷ [];
  dirty = [];
  freeze_threshold = 10;
}

mgr-IsKeyed : IsKeyed mgr.all
unfolding get_vol lookup
mgr-IsKeyed = write_vol-IsKeyed (new_sharded_volumes 4) volume (λ vid vol h. absurd (ground arith))

abbrev alloc_args : AllocVolumeUnitCtx
alloc_args = record { vuid = prefix + 1; next_epoch = 2; pending_vuid_key = "k" }

abbrev outcome_or : Option (VolumeMgr × Option VolumeError) → VolumeMgr × Option VolumeError
outcome_or none = (mgr, none)
outcome_or (some r) = r

apply_alloc_volume_unit-RaiseSpec_example :
    RaiseSpec mgr alloc_args none (outcome_or (apply_alloc_volume_unit mgr alloc_args none))
unfolding apply_alloc_volume_unit get_vol write_vol lookup insert vid index vuid_prefix epoch
apply_alloc_volume_unit-RaiseSpec_example =
    apply_alloc_volume_unit-RaiseSpec mgr alloc_args none mgr-IsKeyed _ refl
