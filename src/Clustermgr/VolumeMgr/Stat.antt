-- ===== src/Clustermgr/VolumeMgr/Stat.antt =====
-- clustermgr/volumemgr/volume_stat.go: the volumes by status agree with the status of each volume.
use cubefs_blobstore.Base.{
  ℕ, ◌≡◌, ◌≢◌, ◌↔◌, inl, inr, sym, ap, subst, ◌∙◌, true, none, some, ◌==◌, if◌then◌else◌, bind_some,
  some_inj, arith,
}
use cubefs_blobstore.Base.Dict.{lookup, nat_eq, eq_cases, lookup-insert, lookup-delete}
use cubefs_blobstore.Clustermgr.Volume.{Volume, get_status, is_valid_status}
use cubefs_blobstore.Clustermgr.Allocator.{notify_status}
use cubefs_blobstore.Clustermgr.Sharded.{
  get_vol, write_vol, get_vol-write_vol, get_vol-write_vol_ne,
}
use cubefs_blobstore.Clustermgr.VolumeMgr.{
  VolumeMgr, VolumeStatusStat, add_stat, set_status, with_status,
}
use cubefs_blobstore.Clustermgr.VolumeMgr.Status.{set_status_all}

abbrev pub Counted : VolumeStatusStat → ℕ → ℕ → Type 0
Counted s st vid = lookup vid (s.stats st) ≢ none

-- A volume is counted under its own status and under no other valid one.
abbrev pub StatAgrees : VolumeMgr → Type 0
StatAgrees m =
    (vid st : ℕ) (vol : Volume)
    → get_vol m.all vid ≡ some vol
    → is_valid_status st ≡ true
    → Counted m.status_stat st vid ↔ (get_status vol ≡ st)

pub lookup-add_stat :
    (s : VolumeStatusStat) (vol : Volume) (status st vid : ℕ)
    → is_valid_status status ≡ true
    → is_valid_status st ≡ true
    → lookup vid ((add_stat s vol status).stats st) ≡ (
        if vol.vid == vid then (if st == status then some 1 else none) else lookup vid (s.stats st))
unfolding add_stat
lookup-add_stat s vol status st vid ok ok' =
    ground (arith, lookup-insert vol.vid vid 1 (s.stats st), lookup-delete vol.vid vid (s.stats st))

set_status_stat :
    (m m' : VolumeMgr) (vol : Volume) (status : ℕ)
    → set_status m vol status ≡ some m'
    → m'.status_stat ≡ add_stat m.status_stat (with_status vol status) status
unfolding set_status
set_status_stat m m' vol status h =
    let (a, e, f) = bind_some (notify_status m.allocator (with_status vol status) status) _ m' h in
    sym (ap (λ (z : VolumeMgr). z.status_stat) (some_inj _ m' f))

-- Setting a valid status keeps the statistics in agreement with the volumes: each volume is counted under
-- its own status and under no other.
pub set_status-StatAgrees :
    (m m' : VolumeMgr) (vol : Volume) (status : ℕ)
    → is_valid_status status ≡ true
    → StatAgrees m
    → set_status m vol status ≡ some m'
    → StatAgrees m'
set_status-StatAgrees m m' vol status valid agrees h vid st v found ok =
    let all' = (set_status_all m m' vol status h).0 in
    let count : lookup vid (m'.status_stat.stats st) ≡ (
        if vol.vid == vid
        then (if st == status then some 1 else none)
        else lookup vid (m.status_stat.stats st)) =
      ap (λ (z : VolumeStatusStat). lookup vid (z.stats st)) (set_status_stat m m' vol status h)
      ∙ lookup-add_stat m.status_stat (with_status vol status) status st vid valid ok in
    elim (eq_cases vol.vid vid) [
      | inl p ↦
          let same : with_status vol status ≡ v = some_inj _ v (
            sym (get_vol-write_vol m.all (with_status vol status))
            ∙ (ap (get_vol (write_vol m.all (with_status vol status))) p
                ∙ (ap (λ s. get_vol s vid) (sym all') ∙ found))) in
          let status_v : status ≡ get_status v = ap get_status same in
          ground (arith, count, status_v, p)
      | inr n ↦
          let before : get_vol m.all vid ≡ some v =
            sym (get_vol-write_vol_ne m.all (with_status vol status) vid n)
            ∙ (ap (λ s. get_vol s vid) (sym all') ∙ found) in
          let old = agrees vid st v before ok in
          let count' : lookup vid (m'.status_stat.stats st) ≡ lookup vid (m.status_stat.stats st) =
            ground (arith, count, n) in
          subst (λ o. (o ≢ none) ↔ (get_status v ≡ st)) (sym count') old
    ]
