-- ===== src/Crc32Block/Decoder.antt =====
-- common/crc32block/decode.go: blockReader. The reader below it is the list of the bytes that it still
-- gives; `unread` is block[i:j].
pub mod Laws
use cubefs_blobstore.Base.{
  ℕ, ◌+◌, ◌-◌, Bool, true, false, Option, none, some, List, [], ◌∷◌, length, take, drop, ltb, ◌==◌,
  if◌then◌else◌,
}
use cubefs_blobstore.Base.Bytes.{get_le32, checksum_ieee}
use cubefs_blobstore.Crc32Block.{
  ReadError, eof, reader_error, mismatched_crc, crc32_len, block_payload, is_valid_block_len,
}

pub record BlockReader : Type 0 where
  pub reader : List ℕ
  pub block_len : ℕ
  pub remain : ℕ
  pub unread : List ℕ
  pub err : Option ReadError

-- `none` is a panic.
unfoldable pub new_block_reader : List ℕ → ℕ → ℕ → Option BlockReader
new_block_reader reader limit block_len =
    if is_valid_block_len block_len
    then some
        (record { reader = reader; block_len = block_len; remain = limit; unread = []; err = none })
    else none

-- The clause for a block without a checksum is not reached: want is at least four.
abbrev pub crc_agrees : Option (ℕ × List ℕ) → Bool
crc_agrees none = false
crc_agrees (some (crc, payload)) = crc == checksum_ieee payload

unfoldable pub check : List ℕ → Bool
check block = crc_agrees (get_le32 block)

unfoldable pub want : BlockReader → ℕ
want br = if ltb br.remain (block_payload br.block_len) then br.remain + crc32_len else br.block_len

-- The new state after ReadFull, with the error that is kept in it.
abbrev pub got : BlockReader → Bool → List ℕ → List ℕ → BlockReader
got br too_short block rest =
    if too_short
    then record br { reader = []; err = some reader_error }
    else if check block
    then record br { reader = rest; unread = drop crc32_len block }
    else record br { reader = rest; err = some mismatched_crc }

unfoldable pub next_block : BlockReader → BlockReader
unfolding want check
next_block br =
    got br (ltb (length br.reader) (want br)) (take (want br) br.reader) (drop (want br) br.reader)

abbrev pub copied : BlockReader → ℕ → BlockReader × List ℕ × Option ReadError
copied br room =
    let out = take room br.unread in
    (record br { unread = drop room br.unread; remain = br.remain - length out }, out, none)

abbrev pub copied_unless :
    Option ReadError → BlockReader → ℕ → BlockReader × List ℕ × Option ReadError
copied_unless none br room = copied br room
copied_unless (some e) br room = (br, [], some e)

-- The loop runs once: a block that has been read has a byte to copy, since `remain` is not 0.
abbrev pub read_from : List ℕ → BlockReader → ℕ → BlockReader × List ℕ × Option ReadError
read_from (b ∷ unread) br room = copied br room
read_from [] br room =
    let next = next_block br in
    if br.remain == 0 then (br, [], some eof) else copied_unless next.err next room

abbrev pub read_unless :
    Option ReadError → BlockReader → ℕ → BlockReader × List ℕ × Option ReadError
read_unless none br room = read_from br.unread br room
read_unless (some e) br room = (br, [], some e)

unfoldable pub read : BlockReader → ℕ → BlockReader × List ℕ × Option ReadError
unfolding next_block
read br room = read_unless br.err br room
