-- ===== src/Crc32Block.antt =====
-- common/crc32block: a stream cut into blocks, each with the checksum of its payload before it. Sizes that
-- are given are int64 and not negative.
pub mod Encoder
pub mod Stream
pub mod Sizes
pub mod Decoder
pub mod RoundTrip
pub mod Range
mod Tests
use cubefs_blobstore.Base.{
  ℕ, ◌+◌, ◌-◌, ◌*◌, ◌/◌, ◌%◌, Bool, ◌&&◌, not, Option, none, some, List, ◌++◌, ltb, ◌==◌,
  if◌then◌else◌,
}
use cubefs_blobstore.Base.Int.{ℤ, diff}
use cubefs_blobstore.Base.Bytes.{le32, checksum_ieee}

-- What a reader ends with.
pub data ReadError : Type 0 where
  eof reader_error mismatched_crc : ReadError

abbrev pub crc32_len : ℕ
crc32_len = 4

abbrev pub base_block_len : ℕ
base_block_len = 4096

unfoldable pub is_valid_block_len : ℕ → Bool
is_valid_block_len block_len = ltb 0 block_len && block_len % base_block_len == 0

unfoldable pub block_payload : ℕ → ℕ
block_payload block_len = block_len - crc32_len

-- `none` is a panic.
unfoldable pub encode_size : ℕ → ℕ → Option ℕ
unfolding block_payload
encode_size size block_len =
    let payload = block_payload block_len in
    let block_cnt = (size + (payload - 1)) / payload in
    if not (is_valid_block_len block_len) then none else some (size + 4 * block_cnt)

-- A total that is too small for the checksums of its blocks gives a negative size.
unfoldable pub decode_size : ℕ → ℕ → Option ℤ
decode_size total_size block_len =
    let block_cnt = (total_size + (block_len - 1)) / block_len in
    if not (is_valid_block_len block_len) then none else some (diff total_size (4 * block_cnt))

-- The block of a payload, as writeCrc leaves it.
unfoldable pub write_crc : List ℕ → List ℕ
write_crc payload = le32 (checksum_ieee payload) ++ payload
