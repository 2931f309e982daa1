-- ===== src/Codemode.antt =====
-- common/codemode/codemode.go: the erasure code modes, their tactics and names. A mode is a uint8; a
-- tactic's numbers are the code's ints, none of them negative. `none` is a panic.
pub mod Layout
pub mod Names
pub mod Quorum
mod Tests
use Prim.Native.String.{String}
use cubefs_blobstore.Base.{
  ℕ, ◌+◌, ◌/◌, ◌%◌, Bool, true, false, ◌&&◌, ◌||◌, not, Option, none, some, List, [], ◌∷◌, leb, ltb,
  ◌==◌, if◌then◌else◌, ◌>>=◌,
}
use cubefs_blobstore.Base.Dict.{Dict, lookup, nat_eq, string_eq}

pub record Tactic : Type 0 where
  pub n : ℕ
  pub m : ℕ
  pub l : ℕ
  pub az_count : ℕ
  pub put_quorum : ℕ
  pub get_quorum : ℕ
  pub min_shard_size : ℕ

abbrev pub ec15p12 : ℕ
ec15p12 = 1

abbrev pub ec6p6 : ℕ
ec6p6 = 2

abbrev pub ec16p20l2 : ℕ
ec16p20l2 = 3

abbrev pub ec6p10l2 : ℕ
ec6p10l2 = 4

abbrev pub ec6p3l3 : ℕ
ec6p3l3 = 5

abbrev pub ec6p6align0 : ℕ
ec6p6align0 = 6

abbrev pub ec6p6align512 : ℕ
ec6p6align512 = 7

abbrev pub ec4p4l2 : ℕ
ec4p4l2 = 8

abbrev pub ec12p4 : ℕ
ec12p4 = 9

abbrev pub ec16p4 : ℕ
ec16p4 = 10

abbrev pub ec3p3 : ℕ
ec3p3 = 11

abbrev pub ec10p4 : ℕ
ec10p4 = 12

abbrev pub ec6p3 : ℕ
ec6p3 = 13

abbrev pub align_size_0b : ℕ
align_size_0b = 0

abbrev pub align_size_512b : ℕ
align_size_512b = 512

abbrev pub align_size_2kb : ℕ
align_size_2kb = 2048

-- A row of the table: n, m, l, the AZ count, the put quorum and the shard size; GetQuorum is 0.
abbrev row : ℕ → ℕ → ℕ → ℕ → ℕ → ℕ → Tactic
row n m l az quorum size = record {
  n = n;
  m = m;
  l = l;
  az_count = az;
  put_quorum = quorum;
  get_quorum = 0;
  min_shard_size = size;
}

unfoldable pub const_code_mode_tactic : Dict ℕ Tactic
const_code_mode_tactic =
    (ec15p12, row 15 12 0 3 24 align_size_2kb)
    ∷ (ec6p6, row 6 6 0 3 11 align_size_2kb)
    ∷ (ec16p20l2, row 16 20 2 2 34 align_size_2kb)
    ∷ (ec6p10l2, row 6 10 2 2 14 align_size_2kb)
    ∷ (ec12p4, row 12 4 0 1 15 align_size_2kb)
    ∷ (ec16p4, row 16 4 0 1 19 align_size_2kb)
    ∷ (ec3p3, row 3 3 0 1 5 align_size_2kb)
    ∷ (ec10p4, row 10 4 0 1 13 align_size_2kb)
    ∷ (ec6p3, row 6 3 0 1 8 align_size_2kb)
    ∷ (ec6p3l3, row 6 3 3 3 9 align_size_2kb)
    ∷ (ec6p6align0, row 6 6 0 3 11 align_size_0b)
    ∷ (ec6p6align512, row 6 6 0 3 11 align_size_512b)
    ∷ (ec4p4l2, row 4 4 2 2 6 align_size_2kb)
    ∷ []

unfoldable pub const_name_to_code_mode : Dict String ℕ
const_name_to_code_mode =
    ("EC15P12", ec15p12)
    ∷ ("EC6P6", ec6p6)
    ∷ ("EC16P20L2", ec16p20l2)
    ∷ ("EC6P10L2", ec6p10l2)
    ∷ ("EC6P3L3", ec6p3l3)
    ∷ ("EC6P6Align0", ec6p6align0)
    ∷ ("EC6P6Align512", ec6p6align512)
    ∷ ("EC4P4L2", ec4p4l2)
    ∷ ("EC12P4", ec12p4)
    ∷ ("EC16P4", ec16p4)
    ∷ ("EC3P3", ec3p3)
    ∷ ("EC10P4", ec10p4)
    ∷ ("EC6P3", ec6p3)
    ∷ []

unfoldable pub const_code_mode_to_name : Dict ℕ String
const_code_mode_to_name =
    (ec15p12, "EC15P12")
    ∷ (ec6p6, "EC6P6")
    ∷ (ec16p20l2, "EC16P20L2")
    ∷ (ec6p10l2, "EC6P10L2")
    ∷ (ec6p3l3, "EC6P3L3")
    ∷ (ec6p6align0, "EC6P6Align0")
    ∷ (ec6p6align512, "EC6P6Align512")
    ∷ (ec4p4l2, "EC4P4L2")
    ∷ (ec12p4, "EC12P4")
    ∷ (ec16p4, "EC16P4")
    ∷ (ec3p3, "EC3P3")
    ∷ (ec10p4, "EC10P4")
    ∷ (ec6p3, "EC6P3")
    ∷ []

-- (CodeMode).Tactic
unfoldable pub tactic : ℕ → Option Tactic
unfolding const_code_mode_tactic lookup
tactic c = lookup c const_code_mode_tactic

-- (CodeMode).GetShardNum
unfoldable pub get_shard_num : ℕ → Option ℕ
unfolding tactic
get_shard_num c = do t ← tactic c; some (t.l + t.m + t.n)

-- (CodeMode).Name, and (CodeMode).String, which has the same body.
unfoldable pub name : ℕ → Option String
unfolding const_code_mode_to_name lookup
name c = lookup c const_code_mode_to_name

abbrev is_some : {A : Type 0} → Option A → Bool
is_some none = false
is_some (some a) = true

-- (CodeMode).IsValid
unfoldable pub is_valid_mode : ℕ → Bool
unfolding const_code_mode_to_name lookup
is_valid_mode c = is_some (lookup c const_code_mode_to_name)

-- (CodeModeName).GetCodeMode
unfoldable pub get_code_mode : String → Option ℕ
unfolding const_name_to_code_mode lookup
get_code_mode s = lookup s const_name_to_code_mode

-- (CodeModeName).IsValid
unfoldable pub is_valid_name : String → Bool
unfolding const_name_to_code_mode lookup
is_valid_name s = is_some (lookup s const_name_to_code_mode)

-- (CodeModeName).Tactic
unfoldable pub tactic_of_name : String → Option Tactic
unfolding get_code_mode tactic
tactic_of_name s = do c ← get_code_mode s; tactic c

-- (*Tactic).IsValid
unfoldable pub is_valid : Tactic → Bool
is_valid t =
    ltb 0 t.n
    && (ltb 0 t.m
        && (leb 0 t.l
            && (ltb 0 t.az_count
                && (ltb 0 t.put_quorum
                    && (leb 0 t.get_quorum
                        && (leb 0 t.min_shard_size
                            && (t.n % t.az_count == 0
                                && (t.m % t.az_count == 0 && t.l % t.az_count == 0))))))))

unfoldable pub get_all_code_modes : List ℕ
get_all_code_modes =
    ec15p12 ∷ ec6p6 ∷ ec16p20l2 ∷ ec6p10l2 ∷ ec6p3l3 ∷ ec6p6align0 ∷ ec6p6align512 ∷ ec4p4l2
    ∷ ec12p4 ∷ ec16p4 ∷ ec3p3 ∷ ec10p4 ∷ ec6p3 ∷ []

-- One pair of the assertion list in `init`: whether it passes; `none` is the panic of `Tactic`.
unfoldable pub init_check : ℕ × ℕ → Option Bool
unfolding tactic is_valid
init_check (mode, size) = do
  t ← tactic mode
  let low = t.n + (t.n + t.m) / t.az_count
  let high = t.n + t.m
  some (
      is_valid t
      && (not (ltb t.put_quorum low || ltb high t.put_quorum) && t.min_shard_size == size))

-- The pairs that `init` asserts.
unfoldable pub init_pairs : List (ℕ × ℕ)
init_pairs =
    (ec15p12, align_size_2kb)
    ∷ (ec6p6, align_size_2kb)
    ∷ (ec16p20l2, align_size_2kb)
    ∷ (ec6p10l2, align_size_2kb)
    ∷ (ec6p3l3, align_size_2kb)
    ∷ (ec6p6align0, align_size_0b)
    ∷ (ec6p6align512, align_size_512b)
    ∷ []
