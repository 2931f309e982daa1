-- ===== src/Proto/Vuid.antt =====
-- common/proto/vuid.go: a volume unit id packs the volume id, the unit's index and its epoch in a
-- uint64. A Vid is a uint32, an index a uint8, an epoch a uint32, each a number below its bound.
pub mod Laws
mod Tests
use Prim.Native.Nat.{bit_and}
use cubefs_blobstore.Base.{
  ℕ, ◌+◌, ◌-◌, ◌*◌, ◌/◌, ◌%◌, ◌^◌, Bool, ◌&&◌, Option, none, some, leb, ltb, if◌then◌else◌,
}

abbrev pub max_epoch : ℕ
max_epoch = 16777215

abbrev pub min_epoch : ℕ
min_epoch = 1

abbrev pub invalid_vuid : ℕ
invalid_vuid = 0

abbrev pub min_index : ℕ
min_index = 0

abbrev pub max_index : ℕ
max_index = 255

unfoldable pub is_valid_epoch : ℕ → Bool
is_valid_epoch epoch = leb epoch max_epoch && leb min_epoch epoch

unfoldable pub is_valid_index : ℕ → Bool
is_valid_index index = leb index max_index && leb min_index index

-- uint64 arithmetic wraps.
unfoldable pub encode_vuid_prefix : ℕ → ℕ → ℕ
encode_vuid_prefix vid idx = (vid * 2 ^ 32 + idx * 2 ^ 24) % 2 ^ 64

unfoldable pub encode_vuid : ℕ → ℕ → ℕ
encode_vuid prefix epoch = (prefix + epoch) % 2 ^ 64

-- `none` is the error "Epoch is overflow".
unfoldable pub new_vuid : ℕ → ℕ → ℕ → Option ℕ
unfolding is_valid_epoch
new_vuid vid idx epoch =
    if is_valid_epoch epoch then some ((vid * 2 ^ 32 + idx * 2 ^ 24 + epoch) % 2 ^ 64) else none

-- The conversions to uint32 and uint8 cut off the higher bits.
unfoldable pub vid : ℕ → ℕ
vid v = bit_and v 0xffffffff00000000 / 2 ^ 32 % 2 ^ 32

unfoldable pub index : ℕ → ℕ
index v = bit_and v 0xff000000 / 2 ^ 24 % 2 ^ 8

unfoldable pub epoch : ℕ → ℕ
epoch v = bit_and v 0xffffff % 2 ^ 32

unfoldable pub vuid_prefix : ℕ → ℕ
vuid_prefix v = (v + 2 ^ 64 - epoch v) % 2 ^ 64

unfoldable pub is_valid : ℕ → Bool
unfolding is_valid_epoch is_valid_index
is_valid v = ltb invalid_vuid v && (is_valid_epoch (epoch v) && is_valid_index (index v))
