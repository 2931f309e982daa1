-- ===== src/Clustermgr/Idle.antt =====
-- clustermgr/volumemgr/alloc.go, type idleVolumes: the idle volumes of one code mode, in two lists with a
-- map from volume id to list and element. Elements of the lists are numbered in the order of their
-- creation; `value` is what an element holds, a pointer to the volume, here its id.
pub mod Invariant
pub mod Laws
pub mod Alloc
mod Tests
use cubefs_blobstore.Base.{
  ℕ, suc, ◌+◌, Bool, Option, none, some, List, [], ◌∷◌, map, length, leb, if◌then◌else◌,
}
use cubefs_blobstore.Base.Dict.{Dict, lookup, insert, delete, nat_eq}
use cubefs_blobstore.Base.Refs.{update, unlink}

pub data Head : Type 0 where
  allocatable : Head
  not_allocatable : Head

pub record IdleItem : Type 0 where
  pub head : Head
  pub element : ℕ

pub record IdleVolumes : Type 0 where
  pub m : Dict ℕ IdleItem
  pub allocatable_list : List ℕ
  pub not_allocatable_list : List ℕ
  pub value : ℕ → ℕ
  pub fresh : ℕ

abbrev pub new_idle_volumes : IdleVolumes
new_idle_volumes = record {
  m = [];
  allocatable_list = [];
  not_allocatable_list = [];
  value = λ e. 0;
  fresh = 0;
}

unfoldable pub get_all_idles : IdleVolumes → List ℕ
get_all_idles i = map i.value i.allocatable_list

unfoldable pub stat_allocatable_num : IdleVolumes → ℕ
stat_allocatable_num i = length i.allocatable_list

-- item.head.Remove(item.element)
abbrev pub unlink_item : IdleVolumes → Head → ℕ → IdleVolumes
unlink_item i h e = record i {
  allocatable_list = elim h [
    | allocatable ↦ unlink e i.allocatable_list
    | not_allocatable ↦ i.allocatable_list
  ];
  not_allocatable_list = elim h [
    | allocatable ↦ i.not_allocatable_list
    | not_allocatable ↦ unlink e i.not_allocatable_list
  ];
}

abbrev pub remove_old : IdleVolumes → Option IdleItem → IdleVolumes
remove_old i none = i
remove_old i (some item) = unlink_item i item.head item.element

-- PushFront, and the entry of the map.
abbrev pub push_front : IdleVolumes → Head → ℕ → IdleVolumes
push_front i h vid = record {
  m = insert vid (record { head = h; element = i.fresh }) i.m;
  allocatable_list = elim h [
    | allocatable ↦ i.fresh ∷ i.allocatable_list
    | not_allocatable ↦ i.allocatable_list
  ];
  not_allocatable_list = elim h [
    | allocatable ↦ i.not_allocatable_list
    | not_allocatable ↦ i.fresh ∷ i.not_allocatable_list
  ];
  value = update i.value i.fresh vid;
  fresh = i.fresh + 1;
}

unfoldable pub add_allocatable : IdleVolumes → ℕ → IdleVolumes
add_allocatable i vid = push_front (remove_old i (lookup vid i.m)) allocatable vid

unfoldable pub add_not_allocatable : IdleVolumes → ℕ → IdleVolumes
add_not_allocatable i vid = push_front (remove_old i (lookup vid i.m)) not_allocatable vid

abbrev pub take_out : IdleVolumes → ℕ → IdleItem → IdleVolumes
take_out i vid item =
    let r = unlink_item i item.head item.element in record r { m = delete vid r.m }

unfoldable pub delete_idle : IdleVolumes → ℕ → IdleVolumes
delete_idle i vid = elim (lookup vid i.m) [ none ↦ i | some item ↦ take_out i vid item ]

-- The loop over the options, with the ids taken so far in front.
unfoldable pub alloc_loop : IdleVolumes → List ℕ → ℕ → ℕ → IdleVolumes × List ℕ
alloc_loop i [] count taken = (i, [])
alloc_loop i (vid ∷ vids) count taken = elim (lookup vid i.m) [
  | none ↦ alloc_loop i vids count taken
  | some item ↦
      let rest = alloc_loop (take_out i vid item) vids count (suc taken) in
      if leb count (suc taken) then (take_out i vid item, vid ∷ []) else (rest.0, vid ∷ rest.1)
]

unfoldable pub alloc_from_options : IdleVolumes → List ℕ → ℕ → IdleVolumes × List ℕ
unfolding alloc_loop
alloc_from_options i optional_vids count = alloc_loop i optional_vids count 0
