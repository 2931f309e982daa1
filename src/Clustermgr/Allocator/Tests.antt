-- ===== src/Clustermgr/Allocator/Tests.antt =====
-- The volume allocator of clustermgr/volumemgr/alloc.go with one volume.
use cubefs_blobstore.Base.{ℕ, ◌≡◌, refl, none, some, List, [], ◌∷◌, In, inl, false, arith}
use cubefs_blobstore.Base.Int.{pos, negsuc, incr}
use cubefs_blobstore.Base.Dict.{lookup, insert, nat_eq, string_eq}
use cubefs_blobstore.Base.Refs.{Distinct}
use cubefs_blobstore.Clustermgr.Volume.{
  Volume, VolumeUnit, can_insert, can_alloc, status_idle, status_active,
}
use cubefs_blobstore.Clustermgr.Idle.{
  IdleVolumes, new_idle_volumes, get_all_idles, add_allocatable, alloc_from_options, alloc_loop,
}
use cubefs_blobstore.Clustermgr.Idle.Invariant.{WellFormed, new_idle_volumes-WellFormed}
use cubefs_blobstore.Clustermgr.Idle.Laws.{place, idle_step, adds_allocatable, idle_step-refines}
use cubefs_blobstore.Clustermgr.Allocator.{
  VolumeAllocator, new_volume_allocator, no_disk_load_threshold, is_enable_disk_load, pass, relax,
  passes, pre_alloc_idles, insert_allocated_volumes, remove_allocated_volumes, volume_map,
}
use cubefs_blobstore.Clustermgr.Allocator.Load.{units_on, iterate, remove-insert_allocated_volumes}
use cubefs_blobstore.Clustermgr.Allocator.PreAlloc.{
  Allocatable, pre_alloc_idles-ends, pre_alloc_idles-stuck, pre_alloc_idles_sound,
}

abbrev unit_on : ℕ → VolumeUnit
unit_on disk = record {
  vuid_prefix = 0;
  epoch = 1;
  next_epoch = 1;
  vu_info = record {
    vuid = 1;
    disk_id = disk;
    total = 100;
    free = 50;
    used = 50;
    compacting = false;
    host = "h";
  };
}

abbrev volume : ℕ → Volume
volume status = record {
  vid = 7;
  v_units = unit_on 3 ∷ unit_on 4 ∷ unit_on 3 ∷ [];
  vol_info_base = record {
    vid = 7;
    code_mode = 2;
    status = status;
    health_score = pos 0;
    total = 100;
    free = 50;
    used = 50;
    create_by_node_id = 0;
  };
  token = none;
  smallest_vu_idx = 0;
}

abbrev allocator : VolumeAllocator
allocator = new_volume_allocator no_disk_load_threshold 10 []

abbrev idles : IdleVolumes
idles = idle_step new_idle_volumes (adds_allocatable 7)

idles-WellFormed : WellFormed idles
idles-WellFormed =
    (idle_step-refines new_idle_volumes (adds_allocatable 7) 7 new_idle_volumes-WellFormed).0

pre_alloc_idles-ends_example :
    (r : IdleVolumes × List ℕ × ℕ) × (pre_alloc_idles allocator
        (λ k v. volume status_idle)
        (negsuc 0)
        3
        idles
        1
      ≡ some r)
unfolding new_volume_allocator is_enable_disk_load get_all_idles idle_step add_allocatable lookup
    insert can_insert
pre_alloc_idles-ends_example =
    pre_alloc_idles-ends allocator (λ k v. volume status_idle) (negsuc 0) 3 idles 1
      (λ k. (refl, tt)) (omega arith)

pre_alloc_idles-stuck_example :
    pre_alloc_idles allocator (λ k v. volume status_active) (negsuc 0) 1000 idles 1 ≡ none
unfolding get_all_idles idle_step add_allocatable lookup insert can_insert
pre_alloc_idles-stuck_example =
    pre_alloc_idles-stuck allocator (λ k v. volume status_active) (negsuc 0) 1000 idles 1 7
      (inl refl) (λ k. refl)

abbrev outcome : IdleVolumes × List ℕ × ℕ
outcome = ((alloc_from_options idles (7 ∷ []) 1).0, 7 ∷ [], 0)

pre_alloc_idles_sound_example :
    WellFormed outcome.0
    × Distinct outcome.1
    × ((v : ℕ)
        → In v outcome.1
        → Allocatable allocator (λ k x. volume status_idle) (negsuc 0) v
          × (place outcome.0 v ≡ none))
unfolding pre_alloc_idles passes pass relax new_volume_allocator is_enable_disk_load get_all_idles
    idle_step add_allocatable lookup insert can_insert can_alloc alloc_from_options alloc_loop
pre_alloc_idles_sound_example =
    pre_alloc_idles_sound allocator (λ k v. volume status_idle) (negsuc 0) 3 idles 1 outcome refl
      idles-WellFormed refl

remove-insert_allocated_volumes_example :
    let after =
      remove_allocated_volumes
        (insert_allocated_volumes allocator.actives (volume status_active) "h")
        (volume status_idle)
        "h" in
    ((insert_allocated_volumes allocator.actives (volume status_active) "h").disk_load 3
      ≡ iterate (units_on 3 (volume status_active).v_units) incr (allocator.actives.disk_load 3))
    × (after.disk_load 3 ≡ allocator.actives.disk_load 3)
    × (lookup 7 (volume_map (lookup "h" after.allocator_vols)) ≡ none)
remove-insert_allocated_volumes_example =
    remove-insert_allocated_volumes allocator.actives (volume status_active) (volume status_idle)
      "h" 3 refl refl
