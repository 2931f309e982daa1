-- ===== src/Base/Bytes.antt =====
-- Bytes as encoding/binary and hash/crc32 write and read them: numbers of four and eight bytes,
-- uvarints, and the reflected CRC-32 of a polynomial. A byte slice is a list of numbers below 256.
pub mod Laws
use Prim.Native.Nat.{bit_xor}
use Prim.Native.Nat.{ℕ, zero, suc, ◌+◌, ◌*◌, ◌/◌, ◌%◌, ◌^◌}
use mathlib.Core.Bool.{◌&&◌}
use mathlib.Core.Option.{Option, none, some}
use mathlib.Core.List.{List, [], ◌∷◌, ◌++◌}
use cubefs_blobstore.Base.Tests.{if◌then◌else◌, ◌==◌, ltb}

-- BigEndian.PutUint32 and PutUint64.
unfoldable pub be32 : ℕ → List ℕ
be32 v = v / 2 ^ 24 % 256 ∷ v / 2 ^ 16 % 256 ∷ v / 2 ^ 8 % 256 ∷ v % 256 ∷ []

unfoldable pub be64 : ℕ → List ℕ
unfolding be32
be64 v = be32 (v / 2 ^ 32) ++ be32 v

-- BigEndian.Uint32 and Uint64 on the front of a slice, and what follows; `none` is the panic on a slice
-- that is too short.
unfoldable pub get_be32 : List ℕ → Option (ℕ × List ℕ)
get_be32 (a ∷ b ∷ c ∷ d ∷ rest) = some (a * 2 ^ 24 + b * 2 ^ 16 + c * 2 ^ 8 + d, rest)
get_be32 _ = none

abbrev join64 : ℕ → Option (ℕ × List ℕ) → Option (ℕ × List ℕ)
join64 high none = none
join64 high (some (low, rest)) = some (high * 2 ^ 32 + low, rest)

abbrev get_low : Option (ℕ × List ℕ) → Option (ℕ × List ℕ)
get_low none = none
get_low (some (high, rest)) = join64 high (get_be32 rest)

unfoldable pub get_be64 : List ℕ → Option (ℕ × List ℕ)
get_be64 buf = get_low (get_be32 buf)

-- LittleEndian.PutUint32 and Uint32.
unfoldable pub le32 : ℕ → List ℕ
le32 v = v % 256 ∷ v / 2 ^ 8 % 256 ∷ v / 2 ^ 16 % 256 ∷ v / 2 ^ 24 % 256 ∷ []

unfoldable pub get_le32 : List ℕ → Option (ℕ × List ℕ)
get_le32 (a ∷ b ∷ c ∷ d ∷ rest) = some (a + b * 2 ^ 8 + c * 2 ^ 16 + d * 2 ^ 24, rest)
get_le32 _ = none

-- The groups of seven bits of PutUvarint, the lowest first, on the number of groups that may follow.
unfoldable pub uvarint_groups : ℕ → ℕ → List ℕ
uvarint_groups zero x = x ∷ []
uvarint_groups (suc k) x =
    let rest = uvarint_groups k (x / 128) in if ltb x 128 then x ∷ [] else (x % 128 + 128) ∷ rest

-- PutUvarint of a uint64, which has ten groups at most.
unfoldable pub put_uvarint : ℕ → List ℕ
put_uvarint x = uvarint_groups 9 x

-- Uvarint: the value and what follows it. `i` bytes are read and `x` is their value; `none` is a slice
-- that ends in the number or a value above 64 bits.
unfoldable pub uvarint_loop : List ℕ → ℕ → ℕ → Option (ℕ × List ℕ)
uvarint_loop [] i x = none
uvarint_loop (b ∷ rest) i x =
    let more = uvarint_loop rest (i + 1) ((x + b % 128 * 2 ^ (7 * i)) % 2 ^ 64) in
    if ltb b 128
    then if ltb 9 i
      then none
      else if i == 9 && ltb 1 b
      then none
      else some ((x + b * 2 ^ (7 * i)) % 2 ^ 64, rest)
    else more

unfoldable pub uvarint : List ℕ → Option (ℕ × List ℕ)
uvarint buf = uvarint_loop buf 0 0

-- One bit of a CRC whose polynomial is reflected.
unfoldable pub crc_bits : ℕ → ℕ → ℕ → ℕ
crc_bits poly zero crc = crc
crc_bits poly (suc n) crc =
    crc_bits poly n (if crc % 2 == 1 then bit_xor (crc / 2) poly else crc / 2)

unfoldable pub crc_bytes : ℕ → ℕ → List ℕ → ℕ
crc_bytes poly crc [] = crc
crc_bytes poly crc (b ∷ bs) = crc_bytes poly (crc_bits poly 8 (bit_xor crc b)) bs

-- crc32.Checksum with the table of `poly`, a uint32.
unfoldable pub crc32 : ℕ → List ℕ → ℕ
unfolding crc_bytes crc_bits
crc32 poly bytes = bit_xor (crc_bytes poly 0xffffffff bytes) 0xffffffff % 2 ^ 32

-- crc32.IEEE
abbrev pub ieee : ℕ
ieee = 0xedb88320

unfoldable pub checksum_ieee : List ℕ → ℕ
checksum_ieee bytes = crc32 ieee bytes
