-- ===== src/Crc32Block/Range.antt =====
-- common/crc32block/decode.go: Decoder.Reader, which reads the bytes from `from` to `to` of an encoded
-- stream in a file, and its rangeReader. Both are within the stream; a buffer between two readers is left
-- out.
pub mod Laws
pub mod Whole
use cubefs_blobstore.Base.{
  ℕ, zero, suc, ◌+◌, ◌-◌, ◌*◌, ◌/◌, ◌%◌, Bool, true, false, Option, none, some, List, [], ◌∷◌, ◌++◌,
  length, take, drop, ltb, ◌==◌, if◌then◌else◌,
}
use cubefs_blobstore.Base.Int.{ℤ, pos, negsuc}
use cubefs_blobstore.Crc32Block.{ReadError, eof, block_payload, encode_size, decode_size}
use cubefs_blobstore.Crc32Block.Decoder.{BlockReader, new_block_reader}
use cubefs_blobstore.Crc32Block.Decoder as Block

-- The file is the list of its bytes.
pub record Decoder : Type 0 where
  pub file : List ℕ
  pub off : ℕ
  pub limit : ℕ
  pub block_len : ℕ

-- `limit` counts down once the bytes before the range are skipped.
pub record RangeReader : Type 0 where
  pub r : BlockReader
  pub limit : ℕ
  pub skip : ℕ
  pub skipped : Bool

-- io.NewSectionReader
unfoldable pub section : List ℕ → ℕ → ℕ → List ℕ
section file off n = take n (drop off file)

abbrev pub ranged : ℕ → ℕ → Option BlockReader → Option RangeReader
ranged limit skip none = none
ranged limit skip (some br) = some (record { r = br; limit = limit; skip = skip; skipped = false })

-- No size within the stream is negative.
abbrev pub reader_at : Decoder → ℕ → ℕ → ℕ → ℕ → Option ℤ → Option RangeReader
reader_at dec block_off encoded_size from to none = none
reader_at dec block_off encoded_size from to (some (pos size)) =
    ranged (to - from) (from % block_payload dec.block_len)
      (new_block_reader (section dec.file (dec.off + block_off) encoded_size) size dec.block_len)
reader_at dec block_off encoded_size from to (some (negsuc n)) = none

abbrev pub reader_of : Decoder → ℕ → ℕ → Option ℕ → Option RangeReader
reader_of dec from to none = none
reader_of dec from to (some size) =
    let block_off = from / block_payload dec.block_len * dec.block_len in
    reader_at dec block_off (size - block_off) from to
      (decode_size (size - block_off) dec.block_len)

-- `none` is a panic.
unfoldable pub reader : Decoder → ℕ → ℕ → Option RangeReader
unfolding section
reader dec from to = reader_of dec from to (encode_size dec.limit dec.block_len)

-- The buffer of io.Discard.
abbrev pub discard_size : ℕ
discard_size = 8192

unfoldable pub at_most : ℕ → ℕ → ℕ
at_most n bound = if ltb bound n then bound else n

-- io.CopyN into io.Discard: the reader after `n` bytes, or the error when there are fewer. Each read gives
-- a byte at least or an error, so there are `n` reads at most.
unfoldable pub copy_n : ℕ → BlockReader → ℕ → BlockReader × Option ReadError
unfolding at_most
copy_n zero br n = (br, none)
copy_n (suc fuel) br zero = (br, none)
copy_n (suc fuel) br (suc n) =
    let (br', out, err) = Block.read br (at_most (suc n) discard_size) in
    let rest = copy_n fuel br' (suc n - length out) in
    elim err [ none ↦ rest | some e ↦ (br', some e) ]

-- io.LimitReader
unfoldable pub read_limited : RangeReader → ℕ → RangeReader × List ℕ × Option ReadError
read_limited rr room =
    let (br, out, err) = Block.read rr.r (at_most room rr.limit) in
    if rr.limit == 0
    then (rr, [], some eof)
    else (record rr { r = br; limit = rr.limit - length out }, out, err)

abbrev pub after_skip :
    RangeReader → ℕ → BlockReader × Option ReadError → RangeReader × List ℕ × Option ReadError
after_skip rr room (br, some e) = (record rr { r = br }, [], some e)
after_skip rr room (br, none) = read_limited (record rr { r = br; skipped = true }) room

unfoldable pub read : RangeReader → ℕ → RangeReader × List ℕ × Option ReadError
unfolding copy_n read_limited
read rr room =
    let first = after_skip rr room (copy_n rr.skip rr.r rr.skip) in
    let later = read_limited rr room in if rr.skipped then later else first
