-- ===== src/Access/Codec/Size.antt =====
-- How long a written Location is: the buffer of Encode is large enough.
use cubefs_blobstore.Base.{
  ℕ, ◌+◌, ◌*◌, ◌^◌, ◌≤◌, ◌<◌, ◌≡◌, refl, some, List, [], ◌∷◌, ◌++◌, length, length-append, All,
  arith, le→leb,
}
use cubefs_blobstore.Base.Bytes.{be32, put_uvarint}
use cubefs_blobstore.Base.Bytes.Laws.{length-put_uvarint, length-put_uvarint_small}
use cubefs_blobstore.Access.Outcome.{done}
use cubefs_blobstore.Access.Location.{SliceInfo, Location}
use cubefs_blobstore.Access.Codec.{
  encode_slice, encode_slices, encode_body, encode2, encode, decode_location,
}
use cubefs_blobstore.Access.Codec.RoundTrip.{FitsSlice, Fits, decode_location-encode2}

length-encode_slices :
    (blobs : List SliceInfo)
    → All FitsSlice blobs
    → length (encode_slices blobs) ≤ length blobs * 20
unfolding encode_slices encode_slice
length-encode_slices [] h = omega arith
length-encode_slices (b ∷ blobs) (f, fs) =
    let head = put_uvarint b.min_bid ++ (put_uvarint b.vid ++ put_uvarint b.count) in
    omega (
      arith,
      length-append head (encode_slices blobs),
      length-append (put_uvarint b.min_bid) (put_uvarint b.vid ++ put_uvarint b.count),
      length-append (put_uvarint b.vid) (put_uvarint b.count),
      length-put_uvarint b.min_bid,
      length-put_uvarint_small b.vid f.vid_fits,
      length-put_uvarint_small b.count f.count_fits,
      length-encode_slices blobs fs,
    )

-- Each slice takes three bytes at least.
length-encode_slices-ge : (blobs : List SliceInfo) → length blobs * 3 ≤ length (encode_slices blobs)
unfolding encode_slices encode_slice
length-encode_slices-ge [] = omega arith
length-encode_slices-ge (b ∷ blobs) =
    let head = put_uvarint b.min_bid ++ (put_uvarint b.vid ++ put_uvarint b.count) in
    omega (
      arith,
      length-append head (encode_slices blobs),
      length-append (put_uvarint b.min_bid) (put_uvarint b.vid ++ put_uvarint b.count),
      length-append (put_uvarint b.vid) (put_uvarint b.count),
      length-put_uvarint b.min_bid,
      length-put_uvarint b.vid,
      length-put_uvarint b.count,
      length-encode_slices-ge blobs,
    )

module _ (loc : Location) where
  length-encode_body :
      length (encode_body loc)
      ≡ length (put_uvarint loc.cluster_id)
        + (1
            + (length (put_uvarint loc.size)
                + (length (put_uvarint loc.blob_size)
                    + (length (put_uvarint (length loc.blobs))
                        + length (encode_slices loc.blobs)))))
  unfolding encode_body
  length-encode_body = simp (length-append) (omega arith)

  pub length-bytes : length (be32 loc.crc ++ encode_body loc) ≡ 4 + length (encode_body loc)
  unfolding be32
  length-bytes = omega arith

  pub bytes_bounded :
      Fits loc
      → length loc.blobs < 2 ^ 32
      → length (be32 loc.crc ++ encode_body loc) ≤ 25 + 5 + length loc.blobs * 20
  bytes_bounded f few = omega (
    arith,
    length-bytes,
    length-encode_body,
    length-put_uvarint_small loc.cluster_id f.cluster_fits,
    length-put_uvarint loc.size,
    length-put_uvarint_small loc.blob_size f.blob_size_fits,
    length-put_uvarint_small (length loc.blobs) few,
    length-encode_slices loc.blobs f.slices_fit,
  )

  encode2_large :
      Fits loc
      → length loc.blobs < 2 ^ 32
      → encode2 (25 + 5 + length loc.blobs * 20) loc ≡ some (be32 loc.crc ++ encode_body loc)
  unfolding encode2
  encode2_large f few = rw (le→leb _ _ (bytes_bounded f few)) refl

  encode-Fits :
      Fits loc → length loc.blobs < 2 ^ 32 → encode loc ≡ some (be32 loc.crc ++ encode_body loc)
  unfolding encode
  encode-Fits f few = encode2_large f few

  pub length-encode_body-ge : length loc.blobs * 3 + 5 ≤ length (encode_body loc)
  length-encode_body-ge = omega (
    arith,
    length-encode_body,
    length-put_uvarint loc.cluster_id,
    length-put_uvarint loc.size,
    length-put_uvarint loc.blob_size,
    length-put_uvarint (length loc.blobs),
    length-encode_slices-ge loc.blobs,
  )

  -- Encode of a location whose fields are in the ranges of their types, and that has fewer than 2^32 slices,
  -- never panics, writes thirty bytes and twenty for each slice at most, and Decode reads the location back
  -- from these bytes, whatever follows them, with their number.
  pub decode_location-encode :
      Fits loc
      → length loc.blobs < 2 ^ 32
      → (bytes : List ℕ) × (encode loc ≡ some bytes)
        × (length bytes ≤ 30 + 20 * length loc.blobs)
        × ((rest : List ℕ) → decode_location (bytes ++ rest) ≡ done (loc, length bytes))
  decode_location-encode f few = (
    be32 loc.crc ++ encode_body loc,
    encode-Fits f few,
    omega (arith, bytes_bounded f few),
    λ rest. decode_location-encode2 loc _ _ rest f few (encode2_large f few),
  )
