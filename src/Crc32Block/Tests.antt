-- ===== src/Crc32Block/Tests.antt =====
-- Concrete streams of common/crc32block.
use cubefs_blobstore.Base.{
  drop, ◌-◌, ℕ, ◌≡◌, refl, none, some, List, [], ◌∷◌, ◌++◌, length, take, arith,
}
use cubefs_blobstore.Base.Bytes.{get_le32, checksum_ieee, crc32, crc_bytes, crc_bits}
use cubefs_blobstore.Base.Int.{pos}
use cubefs_blobstore.Crc32Block.{
  eof, mismatched_crc, is_valid_block_len, block_payload, encode_size, decode_size,
}
use cubefs_blobstore.Crc32Block.Stream.{encoded}
use cubefs_blobstore.Crc32Block.Encoder.{new_limit_encoder}
use cubefs_blobstore.Crc32Block.Encoder.Reads as Encoder
use cubefs_blobstore.Crc32Block.Encoder.Reads.{sum, reads-encoded}
use cubefs_blobstore.Crc32Block.Decoder.{new_block_reader, next_block, want, check, read}
use cubefs_blobstore.Crc32Block.Range.{Decoder, RangeReader, reader}
use cubefs_blobstore.Crc32Block.Range as Range
use cubefs_blobstore.Crc32Block.Range.Laws as RangeLaws
use cubefs_blobstore.Crc32Block.Range.Whole.{stored, reads-reader}
use cubefs_blobstore.Crc32Block.RoundTrip.{reads, stream_read, receiver, reads-reads}

abbrev three : List ℕ
three = 10 ∷ 20 ∷ 30 ∷ []

abbrev tens : List ℕ
tens = 2 ∷ 8 ∷ []

abbrev pieces : List ℕ
pieces = 2 ∷ 1 ∷ 5 ∷ []

sizes : encode_size 8185 4096 ≡ some 8197
unfolding encode_size is_valid_block_len
sizes = refl

no_such_block : encode_size 5 4095 ≡ none
unfolding encode_size is_valid_block_len
no_such_block = refl

-- A changed byte is found.
damaged :
    (read
      (record {
        reader = 0 ∷ 0 ∷ 0 ∷ 0 ∷ 7 ∷ [];
        block_len = 4096;
        remain = 1;
        unread = [];
        err = none;
      })
      3).2
    ≡ some mismatched_crc
unfolding read next_block want check block_payload get_le32 checksum_ieee crc32 crc_bytes crc_bits
damaged = refl

reads-encoded_example :
    ((Encoder.reads (new_limit_encoder (three ++ 40 ∷ []) 4096 (length three)) tens).1
      ≡ take (sum tens) (encoded (block_payload 4096) three))
    × (encode_size (length three) 4096 ≡ some (length (encoded (block_payload 4096) three)))
    × (decode_size (length (encoded (block_payload 4096) three)) 4096 ≡ some (pos (length three)))
unfolding is_valid_block_len
reads-encoded_example = reads-encoded three (40 ∷ []) 4096 tens refl

reads-reads_example :
    (new_block_reader
        (stream_read three [] (99 ∷ []) 4096 7 tens pieces 4 ++ 99 ∷ [])
        (length three)
        4096
      ≡ some (receiver three [] (99 ∷ []) 4096 7 tens pieces 4))
    × ((reads (receiver three [] (99 ∷ []) 4096 7 tens pieces 4) pieces).1 ≡ three)
    × ((read (reads (receiver three [] (99 ∷ []) 4096 7 tens pieces 4) pieces).0 4).2 ≡ some eof)
unfolding is_valid_block_len encode_size sum
reads-reads_example =
    reads-reads three [] (99 ∷ []) 4096 7 tens pieces 4 refl refl (omega arith)
      (omega arith, (omega arith, (omega arith, tt))) (omega arith)

abbrev in_file : Decoder
in_file = stored (1 ∷ 2 ∷ []) three (9 ∷ []) 4096 1 3

reads-reader_example :
    (rr : RangeReader) × (reader in_file 1 3 ≡ some rr)
    × ((RangeLaws.reads rr (1 ∷ 4 ∷ [])).1 ≡ take (3 - 1) (drop 1 three))
    × ((Range.read (RangeLaws.reads rr (1 ∷ 4 ∷ [])).0 5).2 ≡ some eof)
unfolding is_valid_block_len
reads-reader_example =
    reads-reader (1 ∷ 2 ∷ []) three (9 ∷ []) 4096 1 3 refl (omega arith) 1 (4 ∷ []) 5 (omega arith)
      (omega arith, (omega arith, tt)) (omega arith)
