-- ===== src/Access/Codec.antt =====
-- api/access/proto.go: the bytes of a Location. A cluster id, a volume id, a blob size and a count are
-- uint32, a mode is a byte, a size and a blob id are uint64. A buffer that is written from its front is
-- the list of its bytes.
pub mod RoundTrip
pub mod Size
use cubefs_blobstore.Base.{
  ℕ, zero, suc, ◌+◌, ◌*◌, ◌-◌, ◌%◌, ◌^◌, Option, none, some, List, [], ◌∷◌, ◌++◌, length, leb,
  if◌then◌else◌,
}
use cubefs_blobstore.Base.Bytes.{be32, get_be32, put_uvarint, uvarint}
use cubefs_blobstore.Access.Outcome.{Outcome, done, refused, panics, ◌>>=◌, or_refused, make}
use cubefs_blobstore.Access.Location.{SliceInfo, Location}

unfoldable pub encode_slice : SliceInfo → List ℕ
encode_slice blob = put_uvarint blob.min_bid ++ (put_uvarint blob.vid ++ put_uvarint blob.count)

unfoldable pub encode_slices : List SliceInfo → List ℕ
encode_slices [] = []
encode_slices (blob ∷ blobs) = encode_slice blob ++ encode_slices blobs

-- What Encode2 writes after the checksum.
unfoldable pub encode_body : Location → List ℕ
encode_body loc =
    put_uvarint loc.cluster_id
    ++ (loc.code_mode % 256
        ∷ (put_uvarint loc.size
            ++ (put_uvarint loc.blob_size
                ++ (put_uvarint (length loc.blobs) ++ encode_slices loc.blobs))))

-- Encode2 into a buffer of `room` bytes: the bytes at its front; `none` is the panic when the buffer is
-- too small.
unfoldable pub encode2 : ℕ → Location → Option (List ℕ)
encode2 room loc =
    let bytes = be32 loc.crc ++ encode_body loc in
    if leb (length bytes) room then some bytes else none

unfoldable pub encode : Location → Option (List ℕ)
encode loc = encode2 (25 + 5 + length loc.blobs * 20) loc

-- The loop over `left` slices; an error is refused.
unfoldable pub decode_slices : ℕ → List ℕ → Outcome (List SliceInfo × List ℕ)
decode_slices zero buf = done ([], buf)
decode_slices (suc left) buf = do
  (min_bid, buf) ← or_refused (uvarint buf)
  (vid, buf) ← or_refused (uvarint buf)
  (count, buf) ← or_refused (uvarint buf)
  (blobs, buf) ← decode_slices left buf
  done (record { min_bid = min_bid; vid = vid % 2 ^ 32; count = count % 2 ^ 32 } ∷ blobs, buf)

abbrev pub first_byte : List ℕ → Option (ℕ × List ℕ)
first_byte [] = none
first_byte (b ∷ buf) = some (b, buf)

-- int(val) of a uint64: the loop does not run when it is negative.
abbrev pub loop_count : ℕ → ℕ
loop_count val = if leb (2 ^ 63) val then 0 else val

-- The location and the bytes that follow; a slice has 16 bytes in memory.
unfoldable pub decode_fields : List ℕ → Outcome (Location × List ℕ)
decode_fields buf = do
  (crc, buf) ← or_refused (get_be32 buf)
  (cluster_id, buf) ← or_refused (uvarint buf)
  (code_mode, buf) ← or_refused (first_byte buf)
  (size, buf) ← or_refused (uvarint buf)
  (blob_size, buf) ← or_refused (uvarint buf)
  (val, buf) ← or_refused (uvarint buf)
  make 16 (loop_count val) (do
    (blobs, buf) ← decode_slices (loop_count val) buf
    done (
      record {
        cluster_id = cluster_id % 2 ^ 32;
        code_mode = code_mode;
        size = size;
        blob_size = blob_size % 2 ^ 32;
        crc = crc;
        blobs = blobs;
      },
      buf,
    ))

-- The location and the number of bytes read.
unfoldable pub decode_location : List ℕ → Outcome (Location × ℕ)
unfolding decode_fields
decode_location buf = do (loc, rest) ← decode_fields buf; done (loc, length buf - length rest)
