-- ===== src/Crc32Block/Encoder.antt =====
-- common/crc32block/encode.go: limitEncoderReader. The reader below it is the list of the bytes that it
-- still gives; `unread` is block[i:j].
pub mod Laws
pub mod Reads
use cubefs_blobstore.Base.{
  ℕ, zero, suc, ◌+◌, ◌-◌, Option, none, some, List, [], ◌∷◌, ◌++◌, length, take, drop, ltb, ◌==◌,
  if◌then◌else◌,
}
use cubefs_blobstore.Crc32Block.{ReadError, eof, reader_error, block_payload, write_crc}

pub record LimitEncoder : Type 0 where
  pub reader : List ℕ
  pub block_len : ℕ
  pub remain : ℕ
  pub unread : List ℕ
  pub err : Option ReadError

unfoldable pub new_limit_encoder : List ℕ → ℕ → ℕ → LimitEncoder
new_limit_encoder reader block_len limit_size = record {
  reader = reader;
  block_len = block_len;
  remain = limit_size;
  unread = [];
  err = none;
}

unfoldable pub need : LimitEncoder → ℕ
need r =
    let payload = block_payload r.block_len in if ltb r.remain payload then r.remain else payload

-- ReadFull fails when the reader has too few bytes, and takes them all.
unfoldable pub next_block : LimitEncoder → LimitEncoder × Option ReadError
unfolding write_crc
next_block r =
    let needn = need r in
    if ltb (length r.reader) needn then (record r { reader = [] }, some reader_error) else (
      record r {
        reader = drop needn r.reader;
        unread = write_crc (take needn r.reader);
        remain = r.remain - needn;
      },
      none,
    )

-- What a pass of the loop of Read finds: bytes to copy, the end, or an error.
pub data Filled : Type 0 where
  ready : LimitEncoder → Filled
  at_end : Filled
  failed : LimitEncoder → ReadError → Filled

abbrev pub filled : LimitEncoder × Option ReadError → Filled
filled (r, none) = ready r
filled (r, some e) = failed r e

abbrev pub refill : LimitEncoder → List ℕ → Filled
refill r (b ∷ unread) = ready r
refill r [] = if r.remain == 0 then at_end else filled (next_block r)

unfoldable pub fill : LimitEncoder → Filled
unfolding next_block
fill r = refill r r.unread

-- An error after some bytes is kept for the next call.
abbrev pub unless_read : List ℕ → ReadError → Option ReadError
unless_read [] e = some e
unless_read (b ∷ out) e = none

-- The loop of Read into `room` bytes, `out` is what it has copied.
unfoldable pub read_loop : ℕ → LimitEncoder → ℕ → List ℕ → LimitEncoder × List ℕ × Option ReadError
unfolding fill
read_loop zero r room out = (r, out, none)
read_loop (suc fuel) r zero out = (r, out, none)
read_loop (suc fuel) r (suc room) out = elim (fill r) [
  | ready r' ↦
      read_loop fuel (record r' { unread = drop (suc room) r'.unread })
        (suc room - length r'.unread) (out ++ take (suc room) r'.unread)
  | at_end ↦ (r, out, some eof)
  | failed r' e ↦ (record r' { err = some e }, out, unless_read out e)
]

-- Each pass copies a byte at least, so `room` passes are enough.
abbrev pub read_unless :
    Option ReadError → LimitEncoder → ℕ → LimitEncoder × List ℕ × Option ReadError
read_unless none r room = read_loop room r room []
read_unless (some e) r room = (r, [], some e)

unfoldable pub read : LimitEncoder → ℕ → LimitEncoder × List ℕ × Option ReadError
unfolding read_loop
read r room = read_unless r.err r room
