-- ===== src/Clustermgr/Units.antt =====
-- clustermgr/volumemgr/volumeunit.go: the moves of volume units, with refreshHealth of volumemgr.go. The disk manager and the blobnodes answer by given functions.
-- An index past the units is a panic, `none`, where the code does not test it.
pub mod Epochs
pub mod Reports
mod Tests
use Prim.Native.String.{String}
use text.Mathlib.Text.{◌==◌ as str_eq}
use cubefs_blobstore.Base.{
  ℕ, zero, suc, ◌+◌, ◌*◌, ◌%◌, ◌^◌, Bool, true, false, ◌&&◌, ◌||◌, not, Option, none, some, List,
  [], ◌∷◌, length, get_elem?, leb, ltb, ◌==◌, if◌then◌else◌, ◌>>=◌,
}
use cubefs_blobstore.Base.Int.{ℤ, neg_ℕ}
use cubefs_blobstore.Base.Dict.{Dict, lookup, insert, nat_eq, string_eq}
use cubefs_blobstore.Proto.Vuid.{encode_vuid, vid, index, epoch, vuid_prefix, is_valid_epoch}
use cubefs_blobstore.Clustermgr.Volume.{
  Volume, VolumeUnit, VolumeUnitInfo, VolumeInfoBase, VolumeUnitRecord, to_volume_unit_record,
}
use cubefs_blobstore.Clustermgr.Allocator.{conf_tactic}
use cubefs_blobstore.Clustermgr.Sharded.{get_vol}
use cubefs_blobstore.Clustermgr.VolumeMgr.{
  VolumeMgr, VolumeTable, VolumeError, volume_not_exist, volume_unit_not_exist, old_vuid_not_match,
  new_vuid_not_match, new_disk_id_not_match, repeat_update_unit, cm_disk_not_found,
  stat_chunk_failed, Outcome, write_volume, set_free, set_health_score, continue_if, with_base,
}

-- What the disk manager says of a disk: an error, or the disk.
pub record DiskInfo : Type 0 where
  pub disk_id : ℕ
  pub host : String

pub data Answer (A : Type 0) : Type 0 where
  fails : VolumeError → Answer A
  answers : A → Answer A

pub record DiskMgr : Type 0 where
  pub get_disk_info : ℕ → Answer DiskInfo
  pub is_disk_writable : ℕ → Answer Bool

abbrev pub set_elem : List VolumeUnit → ℕ → VolumeUnit → List VolumeUnit
set_elem [] i u = []
set_elem (x ∷ xs) zero u = u ∷ xs
set_elem (x ∷ xs) (suc i) u = x ∷ set_elem xs i u

abbrev pub with_unit : Volume → ℕ → VolumeUnit → Volume
with_unit vol i u = record vol { v_units = set_elem vol.v_units i u }

-- PutVolumeUnit and UpdateVolumeUnit, with the result of the write.
abbrev pub put_volume_unit :
    VolumeMgr → ℕ → VolumeUnitRecord → Option VolumeError → VolumeMgr × Option VolumeError
put_volume_unit m prefix r (some e) = (m, some e)
put_volume_unit m prefix r none = (
  record m { volume_tbl = record (m.volume_tbl) { units = insert prefix r m.volume_tbl.units } },
  none,
)

-- How many units count as bad: those that are compacting, and those on a disk that is not writable.
unfoldable pub bad_count : DiskMgr → List VolumeUnit → Answer ℕ
bad_count d [] = answers 0
bad_count d (u ∷ us) =
    let rest = bad_count d us in
    let more : Answer ℕ = elim rest [ fails e ↦ fails e | answers n ↦ answers (suc n) ] in
    if u.vu_info.compacting then more else elim (d.is_disk_writable u.vu_info.disk_id) [
      | fails e ↦ fails e
      | answers writable ↦ if writable then rest else more
    ]

unfoldable pub refresh_health : DiskMgr → VolumeMgr → ℕ → Outcome
unfolding bad_count
refresh_health d m v = elim (get_vol m.all v) [
  | none ↦ some (m, some volume_not_exist)
  | some vol ↦ elim (bad_count d vol.v_units) [
    | fails e ↦ some (m, some e)
    | answers n ↦ set_health_score m vol (neg_ℕ n) >>= λ m'. some (m', none)
  ]
]

pub record UpdateVolumeArgs : Type 0 where
  pub new_vuid : ℕ
  pub new_disk_id : ℕ
  pub old_vuid : ℕ

-- The disk of the chunk that a blobnode reports; `none` is a nil answer.
abbrev pub StatChunk : Type 0
StatChunk = String → ℕ → ℕ → Answer (Option ℕ)

abbrev pub check_chunk : UpdateVolumeArgs → Answer (Option ℕ) → Option VolumeError
check_chunk args (fails e) = some stat_chunk_failed
check_chunk args (answers none) = some new_disk_id_not_match
check_chunk args (answers (some disk)) =
    if not (disk == args.new_disk_id) then some new_disk_id_not_match else none

abbrev pub check_disk : StatChunk → UpdateVolumeArgs → Answer DiskInfo → Option VolumeError
check_disk stat args (fails e) = some cm_disk_not_found
check_disk stat args (answers disk) =
    check_chunk args (stat disk.host args.new_disk_id args.new_vuid)

unfoldable pub pre_update_unit :
    DiskMgr → StatChunk → VolumeUnit → UpdateVolumeArgs → Option VolumeError
pre_update_unit d stat u args =
    let current = encode_vuid u.vuid_prefix u.epoch in
    if (not (current == args.old_vuid) && not (current == args.new_vuid))
      || ltb u.next_epoch (epoch args.old_vuid)
    then some old_vuid_not_match
    else (if not (encode_vuid u.vuid_prefix u.next_epoch == args.new_vuid)
        then some new_vuid_not_match
        else (if current == args.new_vuid
            then some repeat_update_unit
            else check_disk stat args (d.get_disk_info args.new_disk_id)))

unfoldable pub pre_update_volume_unit :
    DiskMgr → StatChunk → VolumeMgr → UpdateVolumeArgs → Option (Option VolumeError)
unfolding pre_update_unit
pre_update_volume_unit d stat m args = elim (get_vol m.all (vid args.old_vuid)) [
  | none ↦ some (some volume_not_exist)
  | some vol ↦
      get_elem? vol.v_units (index args.old_vuid) >>= λ u. some (pre_update_unit d stat u args)
]

-- The unit at its new epoch on its new disk.
abbrev pub moved_unit : VolumeUnit → ℕ → ℕ → String → VolumeUnit
moved_unit u new_vuid new_disk_id host = record u {
  epoch = epoch new_vuid;
  vu_info = record (u.vu_info) {
    disk_id = new_disk_id;
    host = host;
    compacting = false;
    vuid = new_vuid;
  };
}

abbrev pub store_unit :
    VolumeMgr → Volume → ℕ → ℕ → VolumeUnit → Option VolumeError → VolumeMgr × Option VolumeError
store_unit m vol i prefix u db =
    put_volume_unit (write_volume m (with_unit vol i u)) prefix (to_volume_unit_record u) db

abbrev pub update_unit :
    DiskMgr → VolumeMgr → Volume → VolumeUnit → ℕ → ℕ → Option VolumeError → Outcome
update_unit d m vol u new_vuid new_disk_id db =
    if u.vu_info.vuid == new_vuid
    then some (m, none)
    else (if ltb (epoch new_vuid) u.next_epoch
        then some (m, none)
        else elim (d.get_disk_info new_disk_id) [
          | fails e ↦ some (m, some e)
          | answers disk ↦
              continue_if
                (store_unit m vol (index new_vuid) u.vuid_prefix
                  (moved_unit u new_vuid new_disk_id disk.host) db)
                (λ m'. refresh_health d m' vol.vid)
        ])

unfoldable pub apply_update_volume_unit : DiskMgr → VolumeMgr → ℕ → ℕ → Option VolumeError → Outcome
apply_update_volume_unit d m new_vuid new_disk_id db = elim (get_vol m.all (vid new_vuid)) [
  | none ↦ some (m, some volume_not_exist)
  | some vol ↦
      if ltb (length vol.v_units) (index new_vuid)
      then some (m, some new_vuid_not_match)
      else (get_elem? vol.v_units (index new_vuid) >>= λ u.
          update_unit d m vol u new_vuid new_disk_id db)
]

pub record AllocVolumeUnitCtx : Type 0 where
  pub vuid : ℕ
  pub next_epoch : ℕ
  pub pending_vuid_key : String

-- The pending entry gets the new id if it is there.
abbrev pub set_entry : VolumeMgr → String → ℕ → Option ℕ → VolumeMgr
set_entry m key new_vuid none = m
set_entry m key new_vuid (some old) = record m {
  pending_entries = insert key new_vuid m.pending_entries;
}

abbrev pub set_pending : VolumeMgr → String → ℕ → VolumeMgr
set_pending m key new_vuid = set_entry m key new_vuid (lookup key m.pending_entries)

abbrev pub raise_epoch :
    VolumeMgr → Volume → VolumeUnit → AllocVolumeUnitCtx → Option VolumeError → Outcome
raise_epoch m vol u args db =
    if leb args.next_epoch u.next_epoch
    then some (m, none)
    else continue_if
        (store_unit m vol (index args.vuid) (vuid_prefix args.vuid)
          (record u { next_epoch = args.next_epoch }) db)
        (λ m'. some (
          set_pending m' args.pending_vuid_key
              (encode_vuid (vuid_prefix args.vuid) args.next_epoch),
          none,
        ))

unfoldable pub apply_alloc_volume_unit :
    VolumeMgr → AllocVolumeUnitCtx → Option VolumeError → Outcome
apply_alloc_volume_unit m args db = elim (get_vol m.all (vid args.vuid)) [
  | none ↦ some (m, some volume_not_exist)
  | some vol ↦ get_elem? vol.v_units (index args.vuid) >>= λ u. raise_epoch m vol u args db
]
