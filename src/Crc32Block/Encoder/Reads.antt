-- ===== src/Crc32Block/Encoder/Reads.antt =====
-- Reads of common/crc32block/encode.go one after another: together they give the stream of Crc32Block.Stream.
use cubefs_blobstore.Base.{
  ℕ, ◌+◌, ◌≡◌, refl, ap, ◌∙◌, true, some, List, [], ◌∷◌, ◌++◌, length, take, drop, length-append,
  take-append_length, take-add, drop-drop, arith,
}
use cubefs_blobstore.Base.Int.{pos}
use cubefs_blobstore.Crc32Block.{is_valid_block_len, block_payload, encode_size, decode_size}
use cubefs_blobstore.Crc32Block.Stream.{encoded}
use cubefs_blobstore.Crc32Block.Sizes.{valid_bounds, length-encoded}
use cubefs_blobstore.Crc32Block.Encoder.{LimitEncoder, new_limit_encoder, read}
use cubefs_blobstore.Crc32Block.Encoder.Laws.{pending, Good, read-ReadsOn}

-- Reads of the given sizes, one after another.
unfoldable pub reads : LimitEncoder → List ℕ → LimitEncoder × List ℕ
reads r [] = (r, [])
reads r (room ∷ rooms) =
    let (r', out, err) = read r room in let (r'', more) = reads r' rooms in (r'', out ++ more)

unfoldable pub sum : List ℕ → ℕ
sum [] = 0
sum (n ∷ ns) = n + sum ns

pub reads-pending :
    (r : LimitEncoder) (rooms : List ℕ)
    → Good r
    → ((reads r rooms).1 ≡ take (sum rooms) (pending r))
      × (pending (reads r rooms).0 ≡ drop (sum rooms) (pending r))
      × Good (reads r rooms).0
unfolding reads sum
reads-pending r [] g = (refl, refl, g)
reads-pending r (room ∷ rooms) g =
    let i = read-ReadsOn r room g in
    let (given, left, good) = reads-pending (read r room).0 rooms i.good in
    (
      ap (λ l. l ++ (reads (read r room).0 rooms).1) i.given
          ∙ (ap (λ l. take room (pending r) ++ l) (given ∙ ap (take (sum rooms)) i.left)
              ∙ take-add room (sum rooms) (pending r)),
      left ∙ (ap (drop (sum rooms)) i.left ∙ drop-drop (sum rooms) room (pending r)),
      good,
    )

module _ (bytes more : List ℕ) (block_len : ℕ) (rooms : List ℕ)
    (valid : is_valid_block_len block_len ≡ true) where
  new_limit_encoder-Good : Good (new_limit_encoder (bytes ++ more) block_len (length bytes))
  unfolding new_limit_encoder block_payload
  new_limit_encoder-Good = record {
    no_err = refl;
    has_payload = let big = valid_bounds block_len valid in omega arith;
    enough = omega (arith, length-append bytes more);
  }

  -- The encoder of a valid block length over a reader that has the bytes gives, in reads of any sizes, the
  -- stream of the blocks of these bytes, as far as is asked for. EncodeSize of their number is the length
  -- of the stream, and DecodeSize of that length is their number.
  pub reads-encoded :
      ((reads (new_limit_encoder (bytes ++ more) block_len (length bytes)) rooms).1
        ≡ take (sum rooms) (encoded (block_payload block_len) bytes))
      × (encode_size (length bytes) block_len
          ≡ some (length (encoded (block_payload block_len) bytes)))
      × (decode_size (length (encoded (block_payload block_len) bytes)) block_len
          ≡ some (pos (length bytes)))
  unfolding new_limit_encoder
  reads-encoded =
      let whole =
        reads-pending (new_limit_encoder (bytes ++ more) block_len (length bytes)) rooms
          new_limit_encoder-Good in
      let sizes = length-encoded block_len bytes valid in
      (
        whole.0
            ∙ ap (λ l. take (sum rooms) (encoded (block_payload block_len) l))
                (take-append_length bytes more),
        sizes.0,
        sizes.1,
      )
