-- ===== src/Clustermgr/Allocator/Load.antt =====
-- The disk load of clustermgr/volumemgr/alloc.go: how often the disks stand in the units of active volumes.
use Prim.Native.String.{String}
use cubefs_blobstore.Base.{
  ℕ, zero, suc, ◌≡◌, inl, inr, refl, sym, ap, ◌∙◌, none, some, List, [], ◌∷◌, ◌==◌, if◌then◌else◌,
  Bool-cases, arith,
}
use cubefs_blobstore.Base.Int.{ℤ, incr, decr, decr-incr}
use cubefs_blobstore.Base.Dict.{
  Dict, lookup, insert, delete, nat_eq, string_eq, lookup-insert_self, lookup-delete_self,
}
use cubefs_blobstore.Base.Refs.{update}
use cubefs_blobstore.Clustermgr.Volume.{Volume, VolumeUnit}
use cubefs_blobstore.Clustermgr.Allocator.{
  ActiveVolumes, disk_of, load_units, unload_units, volume_map, insert_allocated_volumes,
  remove_allocated_volumes, remove_from, unload_held,
}

abbrev pub iterate : ℕ → (ℤ → ℤ) → ℤ → ℤ
iterate zero f z = z
iterate (suc n) f z = iterate n f (f z)

-- How many units stand on a disk.
abbrev pub units_on : ℕ → List VolumeUnit → ℕ
units_on d [] = 0
units_on d (u ∷ us) = if disk_of u == d then suc (units_on d us) else units_on d us

load_units-iterate :
    (load : ℕ → ℤ) (us : List VolumeUnit) (d : ℕ)
    → load_units load us d ≡ iterate (units_on d us) incr (load d)
unfolding load_units
load_units-iterate load [] d = refl
load_units-iterate load (u ∷ us) d = elim (Bool-cases (disk_of u == d)) [
  | inl hit ↦
      let p : disk_of u ≡ d = ground arith in
      load_units-iterate (update load (disk_of u) (incr (load (disk_of u)))) us d
      ∙ rw hit (ap (iterate (units_on d us) incr) (ap (λ x. incr (load x)) p))
  | inr miss ↦
      load_units-iterate (update load (disk_of u) (incr (load (disk_of u)))) us d ∙ rw miss refl
]

unload_units-iterate :
    (load : ℕ → ℤ) (us : List VolumeUnit) (d : ℕ)
    → unload_units load us d ≡ iterate (units_on d us) decr (load d)
unfolding unload_units
unload_units-iterate load [] d = refl
unload_units-iterate load (u ∷ us) d = elim (Bool-cases (disk_of u == d)) [
  | inl hit ↦
      let p : disk_of u ≡ d = ground arith in
      unload_units-iterate (update load (disk_of u) (decr (load (disk_of u)))) us d
      ∙ rw hit (ap (iterate (units_on d us) decr) (ap (λ x. decr (load x)) p))
  | inr miss ↦
      unload_units-iterate (update load (disk_of u) (decr (load (disk_of u)))) us d ∙ rw miss refl
]

iterate_last : (n : ℕ) (f : ℤ → ℤ) (z : ℤ) → iterate (suc n) f z ≡ f (iterate n f z)
iterate_last zero f z = refl
iterate_last (suc n) f z = iterate_last n f (f z)

iterate_inverse : (n : ℕ) (z : ℤ) → iterate n decr (iterate n incr z) ≡ z
iterate_inverse zero z = refl
iterate_inverse (suc n) z =
    ap (iterate (suc n) decr) (iterate_last n incr z)
    ∙ (ap (iterate n decr) (decr-incr (iterate n incr z)) ∙ iterate_inverse n z)

-- A volume that goes active and idle again with units on the same disks, each as often, gives back the
-- load that it took, on every disk, and leaves the host's volumes. In between each disk has a load that
-- is higher by the number of the volume's units on it.
pub remove-insert_allocated_volumes :
    (a : ActiveVolumes) (v v' : Volume) (host : String) (d : ℕ)
    → v'.vid ≡ v.vid
    → units_on d v'.v_units ≡ units_on d v.v_units
    → ((insert_allocated_volumes a v host).disk_load d
        ≡ iterate (units_on d v.v_units) incr (a.disk_load d))
      × ((remove_allocated_volumes (insert_allocated_volumes a v host) v' host).disk_load d
          ≡ a.disk_load d)
      × (lookup v.vid (
            volume_map (
              lookup host
                (remove_allocated_volumes
                  (insert_allocated_volumes a v host)
                  v'
                  host).allocator_vols))
          ≡ none)
unfolding insert_allocated_volumes remove_allocated_volumes
remove-insert_allocated_volumes a v v' host d same_vid same_units = (
  load_units-iterate a.disk_load v.v_units d,
  ap (λ (z : ActiveVolumes). z.disk_load d) removed
      ∙ (unload_units-iterate (load_units a.disk_load v.v_units) v'.v_units d
          ∙ (ap (λ n. iterate n decr (load_units a.disk_load v.v_units d)) same_units
              ∙ (ap (iterate (units_on d v.v_units) decr)
                    (load_units-iterate a.disk_load v.v_units d)
                  ∙ iterate_inverse (units_on d v.v_units) (a.disk_load d)))),
  ap (λ (z : ActiveVolumes). lookup v.vid (volume_map (lookup host z.allocator_vols))) removed
      ∙ (ap (λ o. lookup v.vid (volume_map o)) (lookup-insert_self host (delete v'.vid held) _)
          ∙ (ap (λ k. lookup k (delete v'.vid held)) (sym same_vid)
              ∙ lookup-delete_self v'.vid held)),
)
  where
    held : Dict ℕ ℕ
    held = insert v.vid v.vid (volume_map (lookup host a.allocator_vols))

    found : lookup v'.vid held ≡ some v.vid
    found = ap (λ k. lookup k held) same_vid ∙ lookup-insert_self v.vid v.vid _

    removed : remove_allocated_volumes (insert_allocated_volumes a v host) v' host ≡ record {
      allocator_vols = insert host (delete v'.vid held) (insert host held a.allocator_vols);
      disk_load = unload_units (load_units a.disk_load v.v_units) v'.v_units;
    }
    removed =
        ap (remove_from (insert_allocated_volumes a v host) v' host)
          (lookup-insert_self host held a.allocator_vols)
        ∙ (λ i. record {
          allocator_vols = insert host (delete v'.vid held) (insert host held a.allocator_vols);
          disk_load = unload_held (load_units a.disk_load v.v_units) v'.v_units (found i);
        })
