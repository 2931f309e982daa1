-- ===== src/Codemode/Names.antt =====
-- The two name tables of common/codemode/codemode.go are inverse to one another.
use Prim.Native.String.{String}
use cubefs_blobstore.Base.{ℕ, ◌≡◌, ◌↔◌, refl, some}
use cubefs_blobstore.Base.Dict.{nat_eq, string_eq, lookup}
use cubefs_blobstore.Base.Tables.{DistinctKeys, lookup-flip}
use cubefs_blobstore.Codemode.{
  name, get_code_mode, const_code_mode_to_name, const_name_to_code_mode,
}

distinct_modes : DistinctKeys const_code_mode_to_name
unfolding const_code_mode_to_name lookup
distinct_modes = (
  refl,
  (
    refl,
    (refl, (refl, (refl, (refl, (refl, (refl, (refl, (refl, (refl, (refl, (refl, tt))))))))))),
  ),
)

distinct_names : DistinctKeys const_name_to_code_mode
unfolding const_name_to_code_mode lookup
distinct_names = (
  refl,
  (
    refl,
    (refl, (refl, (refl, (refl, (refl, (refl, (refl, (refl, (refl, (refl, (refl, tt))))))))))),
  ),
)

-- A mode has a name exactly when that name is looked up to that mode: `Name` and `GetCodeMode` are
-- inverse to one another on every mode and every text.
pub get_code_mode-name : (c : ℕ) (s : String) → (name c ≡ some s) ↔ (get_code_mode s ≡ some c)
unfolding name get_code_mode
get_code_mode-name c s = lookup-flip c s const_code_mode_to_name distinct_modes distinct_names
