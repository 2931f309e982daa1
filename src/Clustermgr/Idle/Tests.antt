-- ===== src/Clustermgr/Idle/Tests.antt =====
-- The idle volumes of clustermgr/volumemgr/alloc.go with two volumes, and the theorems on them there.
use cubefs_blobstore.Base.{◌≡◌, refl, [], ◌∷◌}
use cubefs_blobstore.Base.Dict.{lookup, insert, delete, nat_eq}
use cubefs_blobstore.Base.Refs.{unlink}
use cubefs_blobstore.Clustermgr.Idle.{
  IdleVolumes, new_idle_volumes, get_all_idles, add_allocatable, alloc_from_options, alloc_loop,
}
use cubefs_blobstore.Clustermgr.Idle.Invariant.{WellFormed, new_idle_volumes-WellFormed}
use cubefs_blobstore.Clustermgr.Idle.Laws.{
  adds_allocatable, adds_not_allocatable, idle_step, place, place_after, idle_step-refines,
}
use cubefs_blobstore.Clustermgr.Idle.Alloc.{AllocSpec, alloc_from_options-AllocSpec}

abbrev one : IdleVolumes
one = idle_step new_idle_volumes (adds_allocatable 7)

abbrev two : IdleVolumes
two = idle_step one (adds_allocatable 9)

one-WellFormed : WellFormed one
one-WellFormed =
    (idle_step-refines new_idle_volumes (adds_allocatable 7) 7 new_idle_volumes-WellFormed).0

two-WellFormed : WellFormed two
two-WellFormed = (idle_step-refines one (adds_allocatable 9) 7 one-WellFormed).0

newest_first : get_all_idles two ≡ 9 ∷ 7 ∷ []
unfolding get_all_idles idle_step add_allocatable lookup insert
newest_first = refl

-- A volume is handed out even if none is asked for.
count_zero : (alloc_from_options two (7 ∷ 9 ∷ []) 0).1 ≡ 7 ∷ []
unfolding alloc_from_options alloc_loop idle_step add_allocatable lookup insert delete unlink
count_zero = refl

idle_step-refines_example :
    WellFormed (idle_step two (adds_not_allocatable 7))
    × (place (idle_step two (adds_not_allocatable 7)) 9
        ≡ place_after (adds_not_allocatable 7) (place two) 9)
idle_step-refines_example = idle_step-refines two (adds_not_allocatable 7) 9 two-WellFormed

alloc_from_options-AllocSpec_example :
    AllocSpec two (5 ∷ 7 ∷ 9 ∷ []) 1 0 (alloc_from_options two (5 ∷ 7 ∷ 9 ∷ []) 1)
alloc_from_options-AllocSpec_example =
    alloc_from_options-AllocSpec two (5 ∷ 7 ∷ 9 ∷ []) 1 two-WellFormed
