-- ===== src/Base/Bytes/Laws.antt =====
-- Round trips of the numbers of encoding/binary, and the lengths of what is written.
use Prim.Native.Nat.{ℕ, zero, suc, ◌+◌, ◌*◌, ◌/◌, ◌%◌, ◌^◌, ◌≤◌, ◌<◌}
use mathlib.Core.Path.{◌≡◌, refl, ap}
use mathlib.Core.Option.{some}
use mathlib.Core.List.{List, [], ◌∷◌, ◌++◌}
use native.Mathlib.Nat.{div-add-mod}
use native.Mathlib.Numerals.{towards_suc}
use native.Mathlib.Omega.{arith}
use cubefs_blobstore.Base.Lists.{length}
use cubefs_blobstore.Base.Bytes.{
  be32, be64, get_be32, get_be64, le32, get_le32, uvarint_groups, put_uvarint, uvarint_loop,
  uvarint, crc32, checksum_ieee, ieee,
}

pub get_be32-be32 :
    (v : ℕ) (rest : List ℕ) → v < 2 ^ 32 → get_be32 (be32 v ++ rest) ≡ some (v, rest)
unfolding get_be32 be32
get_be32-be32 v rest h = ap (λ (n : ℕ). some (n, rest)) (omega arith)

get_be32_low : (v : ℕ) (rest : List ℕ) → get_be32 (be32 v ++ rest) ≡ some (v % 2 ^ 32, rest)
unfolding get_be32 be32
get_be32_low v rest = ap (λ (n : ℕ). some (n, rest)) (omega arith)

pub get_be64-be64 :
    (v : ℕ) (rest : List ℕ) → v < 2 ^ 64 → get_be64 (be64 v ++ rest) ≡ some (v, rest)
unfolding get_be64 be64 be32 get_be32
get_be64-be64 v rest h = ap (λ (n : ℕ). some (n, rest)) (omega arith)

pub get_le32-le32 :
    (v : ℕ) (rest : List ℕ) → v < 2 ^ 32 → get_le32 (le32 v ++ rest) ≡ some (v, rest)
unfolding get_le32 le32
get_le32-le32 v rest h = ap (λ (n : ℕ). some (n, rest)) (omega arith)

pub length-uvarint_groups :
    (k x : ℕ) → (1 ≤ length (uvarint_groups k x)) × (length (uvarint_groups k x) ≤ k + 1)
unfolding uvarint_groups
length-uvarint_groups zero x = omega arith
length-uvarint_groups (suc k) x = ground (arith, length-uvarint_groups k (x / 128))

-- Four groups more than the value needs are not written.
pub length-uvarint_groups_small :
    (j k x : ℕ) → x < 128 ^ suc j → length (uvarint_groups k x) ≤ j + 1
unfolding uvarint_groups
length-uvarint_groups_small j zero x h = omega arith
length-uvarint_groups_small zero (suc k) x h = ground arith
length-uvarint_groups_small (suc j) (suc k) x h =
    ground (arith, length-uvarint_groups_small j k (x / 128) (omega arith))

seven_more : (i : ℕ) → 2 ^ (7 * (i + 1)) ≡ 128 * 2 ^ (7 * i)
seven_more i =
    let e : 7 * (i + 1) ≡ 7 * i + 7 = omega arith in rw e (simp towards_suc (omega arith))

-- The lowest group of `x` and the rest, both from the bit 7 * i on.
split_group : (x i : ℕ) → x * 2 ^ (7 * i) ≡ x % 128 * 2 ^ (7 * i) + x / 128 * 2 ^ (7 * (i + 1))
split_group x i = omega (
  arith,
  ap (λ (t : ℕ). t * 2 ^ (7 * i)) (div-add-mod x 128),
  ap (λ (t : ℕ). x / 128 * t) (seven_more i),
)

tenth_byte : (x acc : ℕ) (i : ℕ) → i ≡ 9 → acc + x * 2 ^ (7 * i) < 2 ^ 64 → x ≤ 1
tenth_byte x acc i e h = let h' = rw e at h in omega arith

last_group :
    (x i acc : ℕ) (rest : List ℕ)
    → x < 128
    → i ≤ 9
    → acc + x * 2 ^ (7 * i) < 2 ^ 64
    → uvarint_loop (x ∷ rest) i acc ≡ some (acc + x * 2 ^ (7 * i), rest)
unfolding uvarint_loop
last_group x i acc rest small hi fits = ground (arith, tenth_byte x acc i)

inner_group :
    (g i acc : ℕ) (rest : List ℕ)
    → g < 128
    → acc + g * 2 ^ (7 * i) < 2 ^ 64
    → uvarint_loop ((g + 128) ∷ rest) i acc ≡ uvarint_loop rest (i + 1) (acc + g * 2 ^ (7 * i))
unfolding uvarint_loop
inner_group g i acc rest small fits =
    let low : (g + 128) % 128 ≡ g = omega arith in
    let whole : (acc + g * 2 ^ (7 * i)) % 2 ^ 64 ≡ acc + g * 2 ^ (7 * i) = omega arith in
    ground (arith, low, whole)

uvarint_loop-groups :
    (k x i acc : ℕ) (rest : List ℕ)
    → x < 128 ^ suc k
    → i + k ≤ 9
    → acc + x * 2 ^ (7 * i) < 2 ^ 64
    → uvarint_loop (uvarint_groups k x ++ rest) i acc ≡ some (acc + x * 2 ^ (7 * i), rest)
unfolding uvarint_groups
uvarint_loop-groups zero x i acc rest hx hi fits = last_group x i acc rest hx (omega arith) fits
uvarint_loop-groups (suc k) x i acc rest hx hi fits = ground (
  arith,
  last_group x i acc rest,
  split_group x i,
  inner_group (x % 128) i acc (uvarint_groups k (x / 128) ++ rest),
  uvarint_loop-groups k (x / 128) (i + 1) (acc + x % 128 * 2 ^ (7 * i)) rest (omega arith),
)

pub uvarint-put_uvarint :
    (x : ℕ) (rest : List ℕ) → x < 2 ^ 64 → uvarint (put_uvarint x ++ rest) ≡ some (x, rest)
unfolding uvarint put_uvarint
uvarint-put_uvarint x rest h =
    ground (arith, uvarint_loop-groups 9 x 0 0 rest (omega arith) (omega arith))

pub length-put_uvarint : (x : ℕ) → (1 ≤ length (put_uvarint x)) × (length (put_uvarint x) ≤ 10)
unfolding put_uvarint
length-put_uvarint x = length-uvarint_groups 9 x

-- A uint32 has five groups at most.
pub length-put_uvarint_small : (x : ℕ) → x < 2 ^ 32 → length (put_uvarint x) ≤ 5
unfolding put_uvarint
length-put_uvarint_small x h = length-uvarint_groups_small 4 9 x (omega arith)

pub crc32-lt : (poly : ℕ) (bytes : List ℕ) → crc32 poly bytes < 2 ^ 32
unfolding crc32
crc32-lt poly bytes = omega arith

pub checksum_ieee-lt : (bytes : List ℕ) → checksum_ieee bytes < 2 ^ 32
unfolding checksum_ieee
checksum_ieee-lt bytes = crc32-lt ieee bytes

-- The CRC-32 of "123456789", its published check value.
checksum_ieee_check :
    checksum_ieee (0x31 ∷ 0x32 ∷ 0x33 ∷ 0x34 ∷ 0x35 ∷ 0x36 ∷ 0x37 ∷ 0x38 ∷ 0x39 ∷ []) ≡ 0xcbf43926
unfolding checksum_ieee crc32
checksum_ieee_check = refl
