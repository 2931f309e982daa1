-- ===== src/Crc32Block/RoundTrip.antt =====
-- What common/crc32block encodes, it decodes.
use cubefs_blobstore.Base.{
  ℕ, ◌≤◌, ◌<◌, ◌≡◌, refl, sym, ap, ◌∙◌, true, Option, none, some, List, [], ◌∷◌, ◌++◌, length,
  length-append, take_all, All, arith,
}
use cubefs_blobstore.Crc32Block.{eof, is_valid_block_len, block_payload, encode_size}
use cubefs_blobstore.Crc32Block.Stream.{encoded}
use cubefs_blobstore.Crc32Block.Sizes.{valid_bounds}
use cubefs_blobstore.Crc32Block.Encoder.{new_limit_encoder}
use cubefs_blobstore.Crc32Block.Encoder.Reads as Encoder
use cubefs_blobstore.Crc32Block.Encoder.Reads.{sum, reads-encoded}
use cubefs_blobstore.Crc32Block.Decoder.{BlockReader, new_block_reader, read}
use cubefs_blobstore.Crc32Block.Decoder.Laws.{Decodes, read-ReadOf, read_done}

-- Reads of the given sizes, one after another.
unfoldable pub reads : BlockReader → List ℕ → BlockReader × List ℕ
reads br [] = (br, [])
reads br (room ∷ rooms) =
    let (br', out, err) = read br room in let (br'', more) = reads br' rooms in (br'', out ++ more)

reads-decoded :
    (br : BlockReader) (bytes rooms : List ℕ)
    → Decodes br bytes
    → All (λ n. 0 < n) rooms
    → length bytes ≤ length rooms
    → ((reads br rooms).1 ≡ bytes) × Decodes (reads br rooms).0 []
unfolding reads
reads-decoded br [] [] d h k = (refl, d)
reads-decoded br (b ∷ bytes) [] d h k = absurd (omega arith)
reads-decoded br [] (room ∷ rooms) d h k =
    rw (read_done br d room) (reads-decoded br [] rooms d h.1 (omega arith))
reads-decoded br (b ∷ bytes) (room ∷ rooms) d h k =
    let r = read-ReadOf br (b ∷ bytes) room d h.0 (omega arith) in
    let len = ap length r.split ∙ length-append (read br room).1 r.later in
    let shorter : length r.later ≤ length rooms = omega (arith, r.progress) in
    let (more, done) = reads-decoded (read br room).0 r.later rooms r.again h.1 shorter in
    (ap (λ l. (read br room).1 ++ l) more ∙ sym r.split, done)

module _ (bytes more after : List ℕ) (block_len total : ℕ) (rooms rooms' : List ℕ) (room : ℕ) where
  abbrev pub stream_read : List ℕ
  stream_read = (Encoder.reads (new_limit_encoder (bytes ++ more) block_len (length bytes)) rooms).1

  abbrev pub receiver : BlockReader
  receiver = record {
    reader = stream_read ++ after;
    block_len = block_len;
    remain = length bytes;
    unread = [];
    err = none;
  }

  -- An encoder of a valid block length is read, in pieces of any sizes, to the end of its stream. A block
  -- reader over what has been read, whatever follows it, that is read in as many pieces as there are
  -- bytes, none of them of no bytes, gives the bytes back, and then the end.
  pub reads-reads :
      is_valid_block_len block_len ≡ true
      → encode_size (length bytes) block_len ≡ some total
      → total ≤ sum rooms
      → All (λ n. 0 < n) rooms'
      → length bytes ≤ length rooms'
      → (new_block_reader (stream_read ++ after) (length bytes) block_len ≡ some receiver)
        × ((reads receiver rooms').1 ≡ bytes)
        × ((read (reads receiver rooms').0 room).2 ≡ some eof)
  unfolding new_block_reader block_payload
  reads-reads valid size enough some_room pieces =
      let big = valid_bounds block_len valid in
      let (prefix, length_is, back) = reads-encoded bytes more block_len rooms valid in
      let stream = encoded (block_payload block_len) bytes in
      let same : total ≡ length stream =
        ap (λ (o : Option ℕ). elim o [ none ↦ 0 | some t ↦ t ]) (sym size ∙ length_is) in
      let fits : length stream ≤ sum rooms = omega (arith, same) in
      let whole = prefix ∙ take_all (sum rooms) (encoded (block_payload block_len) bytes) fits in
      let start : Decodes receiver bytes = record {
        tail = bytes;
        more = after;
        no_err = refl;
        has_payload = omega arith;
        block_len = omega arith;
        left = refl;
        remain = refl;
        source = ap (λ l. l ++ after) whole;
      } in
      let (given, done) = reads-decoded receiver bytes rooms' start some_room pieces in
      (rw valid refl, given, rw (read_done (reads receiver rooms').0 done room) refl)
