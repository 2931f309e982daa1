-- ===== src/Clustermgr/Units/Epochs.antt =====
-- The epochs of a volume unit in clustermgr/volumemgr/volumeunit.go: a unit moves to another disk by a new
-- epoch, which is prepared (AllocVolumeUnit), checked (PreUpdateVolumeUnit) and installed
-- (applyUpdateVolumeUnit).
use Prim.Native.String.{String}
use cubefs_blobstore.Base.{
  ℕ, zero, suc, ◌≤◌, ◌<◌, ◌≡◌, ◌≢◌, inl, inr, refl, sym, ap, subst, ◌∙◌, Option, none, some, List,
  [], ◌∷◌, get_elem?, leb, ◌==◌, if◌then◌else◌, ◌>>=◌, Option-cases, Bool-cases, some_inj,
  bind_some, arith,
}
use cubefs_blobstore.Base.Dict.{lookup, nat_eq, string_eq}
use cubefs_blobstore.Proto.Vuid.{encode_vuid, vid, index, vuid_prefix}
use cubefs_blobstore.Clustermgr.Volume.{Volume, VolumeUnit}
use cubefs_blobstore.Clustermgr.Sharded.{get_vol, write_vol, get_vol-write_vol}
use cubefs_blobstore.Clustermgr.VolumeMgr.{
  VolumeMgr, VolumeError, volume_not_exist, Outcome, continue_if,
}
use cubefs_blobstore.Clustermgr.VolumeMgr.Status.{IsKeyed}
use cubefs_blobstore.Clustermgr.Units.{
  DiskMgr, DiskInfo, Answer, fails, answers, set_elem, with_unit, store_unit, UpdateVolumeArgs,
  StatChunk, pre_update_unit, check_chunk, check_disk, AllocVolumeUnitCtx, set_entry, set_pending,
  raise_epoch, apply_alloc_volume_unit,
}

-- A unit of a volume of the manager.
abbrev unit_of : Option Volume → ℕ → Option VolumeUnit
unit_of none i = none
unit_of (some vol) i = get_elem? vol.v_units i

abbrev pub unit_at : VolumeMgr → ℕ → ℕ → Option VolumeUnit
unit_at m v i = unit_of (get_vol m.all v) i

pub get_elem?-set_elem :
    (us : List VolumeUnit) (i j : ℕ) (u old : VolumeUnit)
    → get_elem? us i ≡ some old
    → get_elem? (set_elem us i u) j ≡ (if i == j then some u else get_elem? us j)
get_elem?-set_elem [] i j u old h = absurd (ground arith)
get_elem?-set_elem (x ∷ us) zero zero u old h = refl
get_elem?-set_elem (x ∷ us) zero (suc j) u old h = ground arith
get_elem?-set_elem (x ∷ us) (suc i) zero u old h = ground arith
get_elem?-set_elem (x ∷ us) (suc i) (suc j) u old h =
    ground (arith, get_elem?-set_elem us i j u old h)

store_unit_all :
    (m : VolumeMgr) (vol : Volume) (i prefix : ℕ) (u : VolumeUnit) (db : Option VolumeError)
    → (store_unit m vol i prefix u db).0.all ≡ write_vol m.all (with_unit vol i u)
store_unit_all m vol i prefix u none = refl
store_unit_all m vol i prefix u (some e) = refl

check_chunk_ok :
    (args : UpdateVolumeArgs) (a : Answer (Option ℕ))
    → check_chunk args a ≡ none
    → a ≡ answers (some args.new_disk_id)
check_chunk_ok args (fails e) h = absurd (ground arith)
check_chunk_ok args (answers none) h = absurd (ground arith)
check_chunk_ok args (answers (some disk)) h =
    let same : disk ≡ args.new_disk_id = ground arith in ap (λ x. answers (some x)) same

check_disk_ok :
    (stat : StatChunk) (args : UpdateVolumeArgs) (a : Answer DiskInfo)
    → check_disk stat args a ≡ none
    → (disk : DiskInfo) × (a ≡ answers disk)
      × (stat disk.host args.new_disk_id args.new_vuid ≡ answers (some args.new_disk_id))
check_disk_ok stat args (fails e) h = absurd (ground arith)
check_disk_ok stat args (answers disk) h = (disk, refl, check_chunk_ok args _ h)

-- PreUpdateVolumeUnit lets an update through only if the old id is the unit's current one, the new id is
-- that of the epoch prepared for the unit and is another, and the blobnode of the new disk has reported the
-- new chunk on it.
pub pre_update_unit_ok :
    (d : DiskMgr) (stat : StatChunk) (u : VolumeUnit) (args : UpdateVolumeArgs)
    → pre_update_unit d stat u args ≡ none
    → (encode_vuid u.vuid_prefix u.epoch ≡ args.old_vuid)
      × (encode_vuid u.vuid_prefix u.next_epoch ≡ args.new_vuid)
      × (args.old_vuid ≢ args.new_vuid)
      × ((disk : DiskInfo) × (d.get_disk_info args.new_disk_id ≡ answers disk)
          × (stat disk.host args.new_disk_id args.new_vuid ≡ answers (some args.new_disk_id)))
unfolding pre_update_unit
pre_update_unit_ok d stat u args h =
    let checked : check_disk stat args (d.get_disk_info args.new_disk_id) ≡ none = ground arith in
    let old : encode_vuid u.vuid_prefix u.epoch ≡ args.old_vuid = ground arith in
    let new : encode_vuid u.vuid_prefix u.next_epoch ≡ args.new_vuid = ground arith in
    let other : args.old_vuid ≢ args.new_vuid = ground arith in
    (old, new, other, check_disk_ok stat args (d.get_disk_info args.new_disk_id) checked)

-- What the preparation of a new epoch does, by its cases.
pub data RaiseSpec (m : VolumeMgr) (args : AllocVolumeUnitCtx) (db : Option VolumeError)
    : VolumeMgr × Option VolumeError → Type 0 where
  no_volume : get_vol m.all (vid args.vuid) ≡ none → RaiseSpec m args db (m, some volume_not_exist)
  late :
      (u : VolumeUnit)
      → unit_at m (vid args.vuid) (index args.vuid) ≡ some u
      → args.next_epoch ≤ u.next_epoch
      → RaiseSpec m args db (m, none)
  raises :
      (r : VolumeMgr × Option VolumeError) (u : VolumeUnit)
      → unit_at m (vid args.vuid) (index args.vuid) ≡ some u
      → u.next_epoch < args.next_epoch
      → ((j : ℕ)
          → unit_at r.0 (vid args.vuid) j ≡ (
              if index args.vuid == j
              then some (record u { next_epoch = args.next_epoch })
              else unit_at m (vid args.vuid) j))
      → r.1 ≡ db
      → RaiseSpec m args db r

set_entry_all :
    (m : VolumeMgr) (key : String) (v : ℕ) (o : Option ℕ) → (set_entry m key v o).all ≡ m.all
set_entry_all m key v none = refl
set_entry_all m key v (some old) = refl

store_unit_err :
    (m : VolumeMgr) (vol : Volume) (i prefix : ℕ) (u : VolumeUnit) (db : Option VolumeError)
    → (store_unit m vol i prefix u db).1 ≡ db
store_unit_err m vol i prefix u none = refl
store_unit_err m vol i prefix u (some e) = refl

module _ (m : VolumeMgr) (args : AllocVolumeUnitCtx) (db : Option VolumeError)
    (k : IsKeyed m.all) where
  raise_err :
      (s : VolumeMgr × Option VolumeError) (r : VolumeMgr × Option VolumeError)
      → continue_if s (λ m'. some (
        set_pending m' args.pending_vuid_key (encode_vuid (vuid_prefix args.vuid) args.next_epoch),
        none,
      ))
        ≡ some r
      → r.1 ≡ s.1
  raise_err (m', some e) r h =
      ap (λ (z : VolumeMgr × Option VolumeError). z.1) (sym (some_inj _ r h))
  raise_err (m', none) r h = ap (λ (z : VolumeMgr × Option VolumeError). z.1) (sym (some_inj _ r h))

  raise_all :
      (vol : Volume) (u : VolumeUnit) (s : VolumeMgr × Option VolumeError)
      (r : VolumeMgr × Option VolumeError)
      → continue_if s (λ m'. some (
        set_pending m' args.pending_vuid_key (encode_vuid (vuid_prefix args.vuid) args.next_epoch),
        none,
      ))
        ≡ some r
      → r.0.all ≡ s.0.all
  raise_all vol u (m', some e) r h =
      ap (λ (z : VolumeMgr × Option VolumeError). z.0.all) (sym (some_inj _ r h))
  raise_all vol u (m', none) r h =
      ap (λ (z : VolumeMgr × Option VolumeError). z.0.all) (sym (some_inj _ r h))
      ∙ set_entry_all m' _ _ (lookup args.pending_vuid_key m'.pending_entries)

  raise_epoch-RaiseSpec :
      (vol : Volume) (u : VolumeUnit) (r : VolumeMgr × Option VolumeError)
      → get_vol m.all (vid args.vuid) ≡ some vol
      → get_elem? vol.v_units (index args.vuid) ≡ some u
      → raise_epoch m vol u args db ≡ some r
      → RaiseSpec m args db r
  raise_epoch-RaiseSpec vol u r found there h =
      elim (Bool-cases (leb args.next_epoch u.next_epoch)) [
        | inl is_late ↦
            let same : (m, none) ≡ r =
              some_inj _ r (sym (ap (λ b. if b then some (m, none) else raised) is_late) ∙ h) in
            subst (RaiseSpec m args db) same (late u here (ground arith))
        | inr early ↦
            let moved : raised ≡ some r =
              sym (ap (λ b. if b then some (m, none) else raised) early) ∙ h in
            let all' = raise_all vol u _ r moved ∙ store_unit_all m vol (index args.vuid) _ u' db in
            let own : vol.vid ≡ vid args.vuid = k (vid args.vuid) vol found in
            let vol_after : get_vol r.0.all (vid args.vuid)
                ≡ some (with_unit vol (index args.vuid) u') =
              ap (λ s. get_vol s (vid args.vuid)) all'
              ∙ (ap (get_vol (write_vol m.all (with_unit vol (index args.vuid) u'))) (sym own)
                  ∙ get_vol-write_vol m.all (with_unit vol (index args.vuid) u')) in
            raises r u here (ground arith)
              (λ j.
                ap (λ o. unit_of o j) vol_after
                ∙ (get_elem?-set_elem vol.v_units (index args.vuid) j u' u there
                    ∙ ap (λ (o : Option VolumeUnit). if index args.vuid == j then some u' else o)
                        (sym (ap (λ o. unit_of o j) found))))
              (raise_err _ r moved ∙ store_unit_err m vol (index args.vuid) _ u' db)
      ]
    where
      u' : VolumeUnit
      u' = record u { next_epoch = args.next_epoch }

      raised : Outcome
      raised = continue_if (store_unit m vol (index args.vuid) (vuid_prefix args.vuid) u' db) (λ m'.
          some (
            set_pending m' args.pending_vuid_key
                (encode_vuid (vuid_prefix args.vuid) args.next_epoch),
            none,
          ))

      here : unit_at m (vid args.vuid) (index args.vuid) ≡ some u
      here = ap (λ o. unit_of o (index args.vuid)) found ∙ there

  -- The volumes stand under their own ids, and preparing an epoch does not end the process. For an unknown
  -- volume it is an error and changes nothing. If the epoch is not above the one prepared before, nothing
  -- changes, with no error. Else it is the unit's prepared epoch, no other unit of the volume changes, and
  -- the error is that of the write to the table.
  pub apply_alloc_volume_unit-RaiseSpec :
      (r : VolumeMgr × Option VolumeError)
      → apply_alloc_volume_unit m args db ≡ some r
      → RaiseSpec m args db r
  unfolding apply_alloc_volume_unit
  apply_alloc_volume_unit-RaiseSpec r h = elim (Option-cases (get_vol m.all (vid args.vuid))) [
    | inl absent ↦
        let unknown : apply_alloc_volume_unit m args db ≡ some (m, some volume_not_exist) =
          rw (absent, apply_alloc_volume_unit) refl in
        subst (RaiseSpec m args db) (some_inj _ r (sym unknown ∙ h)) (no_volume absent)
    | inr (vol, found) ↦
        let opened : apply_alloc_volume_unit m args db
            ≡ (get_elem? vol.v_units (index args.vuid) >>= λ u. raise_epoch m vol u args db) =
          rw (found, apply_alloc_volume_unit) refl in
        let (u, there, e) =
          bind_some (get_elem? vol.v_units (index args.vuid)) _ r (sym opened ∙ h) in
        raise_epoch-RaiseSpec vol u r found there e
  ]
