-- ===== src/Clustermgr/Allocator.antt =====
-- clustermgr/volumemgr/alloc.go: the volume allocator, with its idle volumes by code mode, the active
-- volumes by host and the load of the disks. A volume is a pointer to the volume manager's one object of
-- its id: the maps hold the id. `none` is a panic or the exit that a failed callback ends in.
pub mod Load
pub mod Termination
pub mod PreAlloc
mod Tests
use Prim.Native.String.{String}
use cubefs_blobstore.Base.{
  ℕ, zero, suc, ◌+◌, ◌-◌, Bool, true, false, ◌&&◌, ◌||◌, not, Option, none, some, List, [], ◌∷◌,
  ◌++◌, ltb, leb, ◌==◌, if◌then◌else◌, ◌>>=◌,
}
use cubefs_blobstore.Base.Int.{ℤ, pos, diff, leb_int, incr, decr}
use cubefs_blobstore.Base.Dict.{Dict, lookup, insert, delete, nat_eq, string_eq}
use cubefs_blobstore.Base.Refs.{update}
use cubefs_blobstore.Codemode.{Tactic}
use cubefs_blobstore.Clustermgr.Token.{decode_token}
use cubefs_blobstore.Clustermgr.Volume.{
  Volume, VolumeUnit, VolumeUnitInfo, VolumeInfoBase, Token, can_insert, can_alloc, is_expired,
  status_idle, status_active, status_lock,
}
use cubefs_blobstore.Clustermgr.Idle.{
  IdleVolumes, new_idle_volumes, get_all_idles, add_allocatable, add_not_allocatable, delete_idle,
  alloc_from_options, stat_allocatable_num,
}

-- int(^uint(0) >> 1)
abbrev pub no_disk_load_threshold : ℕ
no_disk_load_threshold = 9223372036854775807

-- The size ratio, a float, is not read here.
pub record CodeModeConf : Type 0 where
  pub mode : ℕ
  pub tactic : Tactic
  pub enable : Bool

pub record ActiveVolumes : Type 0 where
  pub allocator_vols : Dict String (Dict ℕ ℕ)
  pub disk_load : ℕ → ℤ

pub record VolumeAllocator : Type 0 where
  pub idles : Dict ℕ IdleVolumes
  pub actives : ActiveVolumes
  pub allocatable_disk_load_threshold : ℕ
  pub freeze_threshold : ℕ
  pub code_modes : Dict ℕ CodeModeConf

new_idles : Dict ℕ CodeModeConf → Dict ℕ IdleVolumes
new_idles [] = []
new_idles ((mode, conf) ∷ confs) = insert conf.mode new_idle_volumes (new_idles confs)

unfoldable pub new_volume_allocator : ℕ → ℕ → Dict ℕ CodeModeConf → VolumeAllocator
unfolding new_idles
new_volume_allocator disk_load_threshold freeze_threshold code_modes = record {
  idles = new_idles code_modes;
  actives = record { allocator_vols = []; disk_load = λ d. pos 0 };
  allocatable_disk_load_threshold = disk_load_threshold;
  freeze_threshold = freeze_threshold;
  code_modes = code_modes;
}

-- The entry of a mode that the map does not have is the zero value.
unfoldable pub conf_tactic : VolumeAllocator → ℕ → Tactic
conf_tactic a mode = elim (lookup mode a.code_modes) [
  | none ↦ record {
    n = 0;
    m = 0;
    l = 0;
    az_count = 0;
    put_quorum = 0;
    get_quorum = 0;
    min_shard_size = 0;
  }
  | some conf ↦ conf.tactic
]

unfoldable pub conf_shard_num : VolumeAllocator → ℕ → ℕ
conf_shard_num a mode = let t = conf_tactic a mode in t.n + t.m + t.l

unfoldable pub allocatable_score_threshold : VolumeAllocator → ℕ → ℤ
allocatable_score_threshold a mode = diff (conf_tactic a mode).put_quorum (conf_shard_num a mode)

unfoldable pub is_enable_disk_load : VolumeAllocator → Bool
is_enable_disk_load a = not (a.allocatable_disk_load_threshold == no_disk_load_threshold)

abbrev pub disk_of : VolumeUnit → ℕ
disk_of u = u.vu_info.disk_id

unfoldable pub load_units : (ℕ → ℤ) → List VolumeUnit → ℕ → ℤ
load_units load [] = load
load_units load (u ∷ us) = load_units (update load (disk_of u) (incr (load (disk_of u)))) us

unfoldable pub unload_units : (ℕ → ℤ) → List VolumeUnit → ℕ → ℤ
unload_units load [] = load
unload_units load (u ∷ us) = unload_units (update load (disk_of u) (decr (load (disk_of u)))) us

abbrev pub volume_map : Option (Dict ℕ ℕ) → Dict ℕ ℕ
volume_map none = []
volume_map (some vols) = vols

unfoldable pub insert_allocated_volumes : ActiveVolumes → Volume → String → ActiveVolumes
insert_allocated_volumes a v host = record {
  allocator_vols =
      insert host (insert v.vid v.vid (volume_map (lookup host a.allocator_vols))) a.allocator_vols;
  disk_load = load_units a.disk_load v.v_units;
}

-- The load without the units of a volume that the host's map has.
abbrev pub unload_held : (ℕ → ℤ) → List VolumeUnit → Option ℕ → ℕ → ℤ
unload_held load us none = load
unload_held load us (some v) = unload_units load us

abbrev pub remove_from : ActiveVolumes → Volume → String → Option (Dict ℕ ℕ) → ActiveVolumes
remove_from a vol host none = a
remove_from a vol host (some vols) = record {
  allocator_vols = insert host (delete vol.vid vols) a.allocator_vols;
  disk_load = unload_held a.disk_load vol.v_units (lookup vol.vid vols);
}

unfoldable pub remove_allocated_volumes : ActiveVolumes → Volume → String → ActiveVolumes
remove_allocated_volumes a vol host = remove_from a vol host (lookup host a.allocator_vols)

-- An operation on the idle volumes of a mode, which panics on a mode without them.
abbrev pub on_idles : VolumeAllocator → ℕ → (IdleVolumes → IdleVolumes) → Option VolumeAllocator
on_idles a mode f =
    lookup mode a.idles >>= λ i. some (record a { idles = insert mode (f i) a.idles })

unfoldable pub volume_free_health_callback : VolumeAllocator → Volume → Option VolumeAllocator
volume_free_health_callback a vol =
    let mode = vol.vol_info_base.code_mode in
    if can_alloc vol a.freeze_threshold (allocatable_score_threshold a mode)
    then on_idles a mode (λ i. add_allocatable i vol.vid)
    else some a

abbrev pub remove_of_token : VolumeAllocator → Volume → Option (String × ℕ) → Option VolumeAllocator
remove_of_token a vol none = none
remove_of_token a vol (some (host, vid)) =
    some (record a { actives = remove_allocated_volumes a.actives vol host })

abbrev pub remove_if_held : VolumeAllocator → Volume → Option Token → Option VolumeAllocator
remove_if_held a vol none = some a
remove_if_held a vol (some t) = remove_of_token a vol (decode_token t.token_id)

unfoldable pub volume_status_idle_callback : VolumeAllocator → Volume → Option VolumeAllocator
volume_status_idle_callback a vol =
    on_idles a vol.vol_info_base.code_mode (λ i. add_allocatable i vol.vid) >>= λ a'.
    remove_if_held a' vol vol.token

unfoldable pub volume_status_active_callback : VolumeAllocator → Volume → Option VolumeAllocator
volume_status_active_callback a vol = vol.token >>= λ t. decode_token t.token_id >>= λ held.
    on_idles (record a { actives = insert_allocated_volumes a.actives vol held.0 })
      vol.vol_info_base.code_mode (λ i. delete_idle i vol.vid)

unfoldable pub volume_status_lock_callback : VolumeAllocator → Volume → Option VolumeAllocator
volume_status_lock_callback a vol =
    on_idles a vol.vol_info_base.code_mode (λ i. delete_idle i vol.vid)

-- Notify on a status: the callbacks that NewVolumeMgr registers (startup.go). The other statuses have none.
unfoldable pub notify_status : VolumeAllocator → Volume → ℕ → Option VolumeAllocator
notify_status a vol status =
    if status == status_idle
    then volume_status_idle_callback a vol
    else (if status == status_active
        then volume_status_active_callback a vol
        else (if status == status_lock then volume_status_lock_callback a vol else some a))

unfoldable pub insert_volume : VolumeAllocator → Volume → ℕ → Option VolumeAllocator
insert_volume a v mode = on_idles a mode (λ i. add_allocatable i v.vid)

unfoldable pub is_overload : (ℕ → ℤ) → List VolumeUnit → ℕ → Bool
is_overload load [] threshold = false
is_overload load (u ∷ us) threshold =
    let rest = is_overload load us threshold in
    if leb_int (pos threshold) (load (disk_of u)) then true else rest

-- The two thresholds of PreAlloc, and whether the load counts.
pub record Limits : Type 0 where
  pub score : ℤ
  pub load : ℕ
  pub enabled : Bool

module _ (a : VolumeAllocator) (vols : ℕ → Volume) (lowest : ℤ) where
  abbrev pub selects : Limits → ℕ → Bool
  selects l v =
      can_alloc (vols v) a.freeze_threshold l.score
      && (not l.enabled || not (is_overload a.actives.disk_load (vols v).v_units l.load))

  abbrev pub retires : ℕ → Bool
  retires v = not (can_alloc (vols v) a.freeze_threshold lowest) && can_insert (vols v)

  -- One pass over the idle volumes: the idle volumes after it, the ids it selects and those it leaves for
  -- the next pass.
  unfoldable pub pass : Limits → IdleVolumes → List ℕ → IdleVolumes × List ℕ × List ℕ
  pass l i [] = (i, [], [])
  pass l i (v ∷ vs) =
      let retired = not (selects l v) && retires v in
      let rest = pass l (if retired then add_not_allocatable i v else i) vs in
      if selects l v
      then (rest.0, v ∷ rest.1, rest.2)
      else (if retired then rest else (rest.0, rest.1, v ∷ rest.2))

module _ (a : VolumeAllocator) (lowest : ℤ) where
  -- First the load limit is raised, then dropped, then the score is lowered.
  unfoldable pub relax : Limits → Limits
  relax l =
      if l.enabled && ltb l.load a.allocatable_disk_load_threshold
      then record l { load = l.load + 1 }
      else (if l.enabled
          then record l { enabled = false }
          else (if not (leb_int l.score lowest) then record l { score = decr l.score } else l))

-- `vols k` are the volumes as pass k finds them.
module _ (a : VolumeAllocator) (vols : ℕ → ℕ → Volume) (lowest : ℤ) where
  -- The passes from pass k on, until one leaves nothing; `none` if the fuel runs out.
  unfoldable pub passes :
      ℕ → ℕ → Limits → IdleVolumes → List ℕ → List ℕ → Option (IdleVolumes × List ℕ × ℕ)
  unfolding pass relax
  passes zero k l i vs selected = none
  passes (suc fuel) k l i [] selected = some (i, selected, l.load)
  passes (suc fuel) k l i (v ∷ vs) selected =
      let (i', found, left) = pass a (vols k) lowest l i (v ∷ vs) in
      passes fuel (suc k) (relax a lowest l) i' left (selected ++ found)

  -- PreAlloc of a mode with idle volumes.
  unfoldable pub pre_alloc_idles : ℕ → IdleVolumes → ℕ → Option (IdleVolumes × List ℕ × ℕ)
  unfolding passes
  pre_alloc_idles fuel i count =
      passes fuel 0 (record { score = pos 0; load = 0; enabled = is_enable_disk_load a }) i
        (get_all_idles i) []
      >>= λ r. let (i', vids) = alloc_from_options r.0 r.1 count in some (i', vids, r.2)

unfoldable pub pre_alloc :
    (ℕ → ℕ → Volume) → ℕ → VolumeAllocator → ℕ → ℕ → Option (VolumeAllocator × List ℕ × ℕ)
unfolding pre_alloc_idles
pre_alloc vols fuel a mode count = elim (lookup mode a.idles) [
  | none ↦ some (a, [], 0)
  | some i ↦ pre_alloc_idles a vols (allocatable_score_threshold a mode) fuel i count >>= λ r.
      some (record a { idles = insert mode r.0 a.idles }, r.1, r.2)
]

unfoldable pub stat_allocatable : Dict ℕ IdleVolumes → Dict ℕ ℕ
stat_allocatable [] = []
stat_allocatable ((mode, i) ∷ rest) = (mode, stat_allocatable_num i) ∷ stat_allocatable rest

-- `none` is the panic on an active volume without a token. The order of a Go map is not specified; here it
-- is that of the association list.
expired_of : (ℕ → Volume) → ℕ → Dict ℕ ℕ → Option (List ℕ)
expired_of vols now [] = some []
expired_of vols now ((vid, v) ∷ rest) = expired_of vols now rest >>= λ vids.
    is_expired (vols v) now >>= λ expired. some (if expired then (vols v).vid ∷ vids else vids)

unfoldable pub get_expired_volumes : (ℕ → Volume) → ℕ → Dict String (Dict ℕ ℕ) → Option (List ℕ)
unfolding expired_of
get_expired_volumes vols now [] = some []
get_expired_volumes vols now ((host, held) ∷ rest) = get_expired_volumes vols now rest >>= λ vids.
    expired_of vols now held >>= λ here. some (here ++ vids)

map_values : Dict ℕ ℕ → List ℕ
map_values [] = []
map_values ((vid, v) ∷ rest) = v ∷ map_values rest

unfoldable pub lis_allocated_volumes_by_host : VolumeAllocator → String → List ℕ
unfolding map_values
lis_allocated_volumes_by_host a host = elim (lookup host a.actives.allocator_vols) [
  | none ↦ []
  | some held ↦ map_values held
]
