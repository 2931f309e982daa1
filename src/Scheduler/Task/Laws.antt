-- ===== src/Scheduler/Task/Laws.antt =====
-- When a worker's report matches a task of scheduler/base/queue.go.
use Prim.Native.String.{String}
use text.Mathlib.TextEquality.{eq_iff}
use cubefs_blobstore.Base.{
  ℕ, ◌≡◌, ◌↔◌, ◌⊎◌, refl, sym, ap, ◌∙◌, true, none, some, List, [], ◌∷◌, map, length, length-map,
  arith,
}
use cubefs_blobstore.Scheduler.Queue.{unmatched_vuids}
use cubefs_blobstore.Scheduler.Task.{
  VunitLocation, WorkerTask, location_eq, units_match, vunit_slice_equal, check_valid,
}

pub location_eq_iff : (a b : VunitLocation) → (location_eq a b ≡ true) ↔ (a ≡ b)
unfolding location_eq
location_eq_iff a b = ground (arith, eq_iff a.host b.host)

-- What the slices are compared by.
abbrev pub unit_key : VunitLocation → ℕ × String
unit_key a = (a.vuid, a.host)

units_match_iff :
    (a b : List VunitLocation)
    → length a ≡ length b
    → (units_match a b ≡ true) ↔ (map unit_key a ≡ map unit_key b)
unfolding units_match
units_match_iff [] [] h = (λ e. refl, λ e. refl)
units_match_iff [] (y ∷ b) h = absurd (ground arith)
units_match_iff (x ∷ a) [] h = absurd (ground arith)
units_match_iff (x ∷ a) (y ∷ b) h = ground (arith, eq_iff x.host y.host, units_match_iff a b)

pub vunit_slice_equal_iff :
    (a b : List VunitLocation) → (vunit_slice_equal a b ≡ true) ↔ (map unit_key a ≡ map unit_key b)
unfolding vunit_slice_equal
vunit_slice_equal_iff a b = (
  λ e. (units_match_iff a b (ground arith)).0 (ground arith),
  λ e.
      let same_length : length a ≡ length b =
        sym (length-map unit_key a) ∙ (ap length e ∙ length-map unit_key b) in
      let matches = (units_match_iff a b same_length).1 e in ground arith,
)

-- A report matches a task exactly when it names the same units in the same order, each by its id and
-- host, and the same destination by all its fields; any other report is refused as unmatched.
pub check_valid_iff :
    {A : Type 0} ⦃W : WorkerTask A⦄
    → (task : A) (src : List VunitLocation) (dst : VunitLocation)
    → ((check_valid task src dst ≡ none)
        ↔ ((map unit_key (W.get_src task) ≡ map unit_key src) × (W.get_dest task ≡ dst)))
      × ((check_valid task src dst ≡ none) ⊎ (check_valid task src dst ≡ some unmatched_vuids))
unfolding check_valid
check_valid_iff ⦃W⦄ task src dst =
    ground
      (arith, vunit_slice_equal_iff (W.get_src task) src, location_eq_iff (W.get_dest task) dst)
