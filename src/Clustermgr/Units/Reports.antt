-- ===== src/Clustermgr/Units/Reports.antt =====
-- clustermgr/volumemgr/volumeunit.go: chunk reports and compaction, with applyAdminUpdateVolumeUnit of
-- volumemgr.go.
use cubefs_blobstore.Base.{
  ℕ, ◌*◌, ◌%◌, ◌^◌, Bool, not, Option, none, some, List, [], ◌∷◌, length, get_elem?, leb, ltb, ◌==◌,
  if◌then◌else◌, ◌>>=◌,
}
use cubefs_blobstore.Base.Dict.{insert, nat_eq, string_eq}
use cubefs_blobstore.Proto.Vuid.{encode_vuid, vid, index, vuid_prefix, is_valid_epoch}
use cubefs_blobstore.Clustermgr.Volume.{Volume, VolumeUnit}
use cubefs_blobstore.Clustermgr.Allocator.{conf_tactic}
use cubefs_blobstore.Clustermgr.Sharded.{get_vol}
use cubefs_blobstore.Clustermgr.VolumeMgr.{
  VolumeMgr, VolumeError, volume_not_exist, volume_unit_not_exist, Outcome, write_volume, set_free,
  continue_if, with_base,
}
use cubefs_blobstore.Clustermgr.Units.{
  DiskMgr, with_unit, refresh_health, store_unit, fails, answers,
}

pub record ChunkInfo : Type 0 where
  pub vuid : ℕ
  pub total : ℕ
  pub free : ℕ
  pub used : ℕ

abbrev pub reported_unit : VolumeUnit → ChunkInfo → VolumeUnit
reported_unit u c = record u {
  vu_info = record (u.vu_info) { free = c.free; used = c.used; total = c.total };
}

-- The volume's sizes from a unit, in uint64 arithmetic.
abbrev pub sized_by : Volume → ℕ → VolumeUnit → Volume
sized_by vol n u = with_base vol (record (vol.vol_info_base) {
  used = u.vu_info.used * n % 2 ^ 64;
  total = u.vu_info.total * n % 2 ^ 64;
})

abbrev pub report_unit : VolumeMgr → Volume → ℕ → VolumeUnit → Option VolumeMgr
report_unit m vol i u =
    let n = (conf_tactic m.allocator vol.vol_info_base.code_mode).n in
    let free = u.vu_info.free * n % 2 ^ 64 in
    if ltb free vol.vol_info_base.free
    then set_free m (record (sized_by vol n u) { smallest_vu_idx = i }) free
    else (get_elem? vol.v_units vol.smallest_vu_idx >>= λ smallest.
        set_free m (sized_by vol n smallest) (smallest.vu_info.free * n % 2 ^ 64))

abbrev pub report_chunk : VolumeMgr → Volume → ChunkInfo → VolumeUnit → Option VolumeMgr
report_chunk m vol c u =
    if not (u.vu_info.vuid == c.vuid)
    then some m
    else (report_unit m (with_unit vol (index c.vuid) (reported_unit u c)) (index c.vuid)
          (reported_unit u c)
        >>= λ m'. some (record m' { dirty = insert vol.vid vol.vid m'.dirty }))

unfoldable pub apply_chunk_report : VolumeMgr → List ChunkInfo → Option VolumeMgr
apply_chunk_report m [] = some m
apply_chunk_report m (c ∷ cs) = elim (get_vol m.all (vid c.vuid)) [
  | none ↦ apply_chunk_report m cs
  | some vol ↦ get_elem? vol.v_units (index c.vuid) >>= λ u.
      report_chunk m vol c u >>= λ m'. apply_chunk_report m' cs
]

abbrev compact_unit :
    DiskMgr → VolumeMgr → Volume → VolumeUnit → ℕ → Bool → Option VolumeError → Outcome
compact_unit d m vol u vuid compacting db =
    let same = if compacting then u.vu_info.compacting else not u.vu_info.compacting in
    if not (u.vuid_prefix == vuid_prefix vuid)
    then some (m, some volume_unit_not_exist)
    else (if same
        then some (m, none)
        else continue_if
            (store_unit m vol (index vuid) (vuid_prefix vuid)
              (record u { vu_info = record (u.vu_info) { compacting = compacting } }) db)
            (λ m'. refresh_health d m' (vid vuid)))

-- The length is cut to a uint8 before the index is compared with it.
unfoldable pub apply_chunk_set_compact :
    DiskMgr → VolumeMgr → ℕ → Bool → Option VolumeError → Outcome
apply_chunk_set_compact d m vuid compacting db = elim (get_vol m.all (vid vuid)) [
  | none ↦ some (m, some volume_not_exist)
  | some vol ↦
      if leb (length vol.v_units % 2 ^ 8) (index vuid)
      then some (m, some volume_unit_not_exist)
      else (get_elem? vol.v_units (index vuid) >>= λ u. compact_unit d m vol u vuid compacting db)
]

pub record AdminUpdateUnitArgs : Type 0 where
  pub vuid : ℕ
  pub epoch : ℕ
  pub next_epoch : ℕ
  pub disk_id : ℕ
  pub compacting : Bool

abbrev pub with_epochs : VolumeUnit → ℕ → ℕ → VolumeUnit
with_epochs u e next =
    let u' : VolumeUnit =
      if is_valid_epoch e
      then record u {
        epoch = e;
        vu_info = record (u.vu_info) { vuid = encode_vuid u.vuid_prefix e };
      }
      else u in
    if is_valid_epoch next then record u' { next_epoch = next } else u'

abbrev admin_unit :
    DiskMgr
    → VolumeMgr
    → Volume
    → VolumeUnit
    → AdminUpdateUnitArgs
    → Option VolumeError
    → VolumeMgr × Option VolumeError
admin_unit d m vol u args db =
    let u' = with_epochs u args.epoch args.next_epoch in
    elim (d.get_disk_info args.disk_id) [
      | fails e ↦ (write_volume m (with_unit vol (index args.vuid) u'), some e)
      | answers disk ↦
          store_unit m vol (index args.vuid) (vuid_prefix args.vuid)
            (record u' {
              vu_info = record (u'.vu_info) {
                disk_id = disk.disk_id;
                host = disk.host;
                compacting = args.compacting;
              };
            })
            db
    ]

-- The lock that an error of the disk manager leaves held is not modelled.
unfoldable pub apply_admin_update_volume_unit :
    DiskMgr → VolumeMgr → AdminUpdateUnitArgs → Option VolumeError → Outcome
apply_admin_update_volume_unit d m args db = elim (get_vol m.all (vid args.vuid)) [
  | none ↦ some (m, some volume_not_exist)
  | some vol ↦
      if leb (length vol.v_units) (index args.vuid)
      then some (m, some volume_unit_not_exist)
      else (get_elem? vol.v_units (index args.vuid) >>= λ u. some (admin_unit d m vol u args db))
]
