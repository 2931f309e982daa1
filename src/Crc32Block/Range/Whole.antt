-- ===== src/Crc32Block/Range/Whole.antt =====
-- Decoder.Reader of common/crc32block/decode.go gives the bytes of its range.
use mathlib.Core.List.{append-nil}
use native.Mathlib.Nat.{div-add-mod'}
use cubefs_blobstore.Base.{
  ℕ, ◌+◌, ◌-◌, ◌*◌, ◌/◌, ◌%◌, ◌≤◌, ◌<◌, ◌≡◌, refl, sym, ap, subst, ◌∙◌, true, false, none, some,
  List, [], ◌∷◌, ◌++◌, length, take, drop, length-drop, take-append_length, drop_same,
  drop-append_le, drop-drop, All, arith,
}
use cubefs_blobstore.Crc32Block.{eof, is_valid_block_len, block_payload, decode_size}
use cubefs_blobstore.Crc32Block.Stream.{encoded}
use cubefs_blobstore.Crc32Block.Sizes.{valid_bounds, length-encoded}
use cubefs_blobstore.Crc32Block.Decoder.{BlockReader, new_block_reader}
use cubefs_blobstore.Crc32Block.Decoder.Laws.{Decodes}
use cubefs_blobstore.Crc32Block.Range.{
  Decoder, RangeReader, section, ranged, reader_at, reader_of, reader, copy_n, after_skip, read,
}
use cubefs_blobstore.Crc32Block.Range.Laws.{
  reads, drop-split, copy_n-Decodes, encoded-drop, length-encoded_le, read_limited-end,
  read-skipped, reads-Ranges,
}

module _ (before bytes after : List ℕ) (block_len from to : ℕ) where
  abbrev p : ℕ
  p = block_payload block_len

  abbrev pub stored : Decoder
  stored = record {
    file = before ++ (encoded p bytes ++ after);
    off = length before;
    limit = length bytes;
    block_len = block_len;
  }

  -- From the first block of the range on.
  abbrev from_block : List ℕ
  from_block = drop (from / p * p) bytes

  abbrev start : BlockReader
  start = record {
    reader = encoded p from_block;
    block_len = block_len;
    remain = length from_block;
    unread = [];
    err = none;
  }

  abbrev opened : RangeReader
  opened = record { r = start; limit = to - from; skip = from % p; skipped = false }

  module _ (valid : is_valid_block_len block_len ≡ true) (inside : from ≤ length bytes) where
    abbrev block_off : ℕ
    block_off = from / p * block_len

    payload_len : (0 < p) × (block_len ≡ p + 4)
    unfolding block_payload
    payload_len = let big = valid_bounds block_len valid in (omega arith, omega arith)

    block_below : from / p * p ≤ length bytes
    block_below = omega (arith, div-add-mod' from p)

    stream_left : drop block_off (encoded p bytes) ≡ encoded p from_block
    stream_left =
        ap (λ b. drop (from / p * b) (encoded p bytes)) payload_len.1
        ∙ encoded-drop p (from / p) bytes payload_len.0 block_below

    size_left : length (encoded p bytes) - block_off ≡ length (encoded p from_block)
    size_left = sym (length-drop block_off (encoded p bytes)) ∙ ap length stream_left

    off_below : block_off ≤ length (encoded p bytes)
    off_below =
        subst (λ b. from / p * b ≤ length (encoded p bytes)) (sym payload_len.1)
          (length-encoded_le p (from / p) bytes payload_len.0 block_below)

    section-stored :
        section stored.file (length before + block_off) (length (encoded p from_block))
        ≡ encoded p from_block
    unfolding section
    section-stored =
        ap (take (length (encoded p from_block))) (
          drop-split stored.file before (encoded p bytes ++ after) (length before + block_off) refl
            (omega arith)
          ∙ (drop_same (length before + block_off - length before) block_off
                (encoded p bytes ++ after) (omega arith)
              ∙ (drop-append_le block_off (encoded p bytes) after off_below
                  ∙ ap (λ l. l ++ after) stream_left)))
        ∙ take-append_length (encoded p from_block) after

    reader-opened : reader stored from to ≡ some opened
    unfolding reader new_block_reader
    reader-opened =
        ap (reader_of stored from to) ((length-encoded block_len bytes valid).0)
        ∙ (ap (reader_at stored block_off (length (encoded p bytes) - block_off) from to) (
              ap (λ n. decode_size n block_len) size_left
              ∙ (length-encoded block_len from_block valid).1)
            ∙ (ap
                  (λ n. ranged (to - from) (from % p) (
                    new_block_reader (section stored.file (length before + block_off) n)
                      (length from_block) block_len))
                  size_left
                ∙ (ap
                      (λ l.
                        ranged (to - from) (from % p)
                          (new_block_reader l (length from_block) block_len))
                      section-stored
                    ∙ rw valid refl)))

    start-Decodes : Decodes start from_block
    start-Decodes = record {
      tail = from_block;
      more = [];
      no_err = refl;
      has_payload = payload_len.0;
      block_len = payload_len.1;
      left = refl;
      remain = refl;
      source = sym (append-nil (encoded p from_block));
    }

    -- After the bytes of the first block that are before the range.
    skipped-Decodes :
        ((copy_n (from % p) start (from % p)).1 ≡ none)
        × Decodes (copy_n (from % p) start (from % p)).0 (drop from bytes)
    skipped-Decodes =
        let skip = from % p in
        let parts = div-add-mod' from p in
        let c =
          copy_n-Decodes skip start from_block skip start-Decodes (omega arith)
            (omega (arith, length-drop (from / p * p) bytes)) in
        (
          c.0,
          subst (Decodes _)
              (drop-drop skip (from / p * p) bytes
                ∙ drop_same (from / p * p + skip) from bytes parts)
              c.1,
        )

    abbrev past : RangeReader
    past = record {
      r = (copy_n (from % p) start (from % p)).0;
      limit = to - from;
      skip = from % p;
      skipped = true;
    }

    read-past : (room : ℕ) → read opened room ≡ read past room
    unfolding read
    read-past room =
        ap (λ e. after_skip opened room ((copy_n (from % p) start (from % p)).0, e))
          skipped-Decodes.0

    -- A stream of a valid block length that stands anywhere in a file is read by Decoder.Reader from `from`
    -- to `to` of its bytes: reads of some bytes each, as many as there are bytes in the range, and one at
    -- least, give together the bytes of the range, and the next read gives the end.
    pub reads-reader :
        (room : ℕ) (rooms : List ℕ) (room' : ℕ)
        → to ≤ length bytes
        → All (λ n. 0 < n) (room ∷ rooms)
        → to - from ≤ length (room ∷ rooms)
        → (rr : RangeReader) × (reader stored from to ≡ some rr)
          × ((reads rr (room ∷ rooms)).1 ≡ take (to - from) (drop from bytes))
          × ((read (reads rr (room ∷ rooms)).0 room').2 ≡ some eof)
    unfolding reads
    reads-reader room rooms room' within some_room pieces =
        let res = reads past (room ∷ rooms) in
        let (given, over, still) =
          reads-Ranges past (drop from bytes) (room ∷ rooms)
            (record {
              skipped = refl;
              decodes = skipped-Decodes.1;
              enough = omega (arith, length-drop from bytes);
            })
            some_room pieces in
        let ended = read-skipped res.0 room' still ∙ read_limited-end res.0 room' over in
        (
          opened,
          reader-opened,
          ap (λ s. s.1 ++ (reads s.0 rooms).1) (read-past room) ∙ given,
          ap (λ s. (read (reads s.0 rooms).0 room').2) (read-past room) ∙ ap (λ s. s.2) ended,
        )
