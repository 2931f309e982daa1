-- ===== src/Access/Codec/RoundTrip.antt =====
-- A Location that is written is read back.
use cubefs_blobstore.Base.{
  ℕ, ◌*◌, ◌%◌, ◌^◌, ◌<◌, ◌≡◌, refl, ap, some, List, [], ◌∷◌, ◌++◌, length, length-append, All, leb,
  true, arith,
}
use mathlib.Core.List.{append_assoc}
use cubefs_blobstore.Base.Bytes.{be32, put_uvarint}
use cubefs_blobstore.Base.Bytes.Laws.{get_be32-be32, uvarint-put_uvarint}
use cubefs_blobstore.Access.Outcome.{done, max_alloc}
use cubefs_blobstore.Access.Location.{SliceInfo, Location}
use cubefs_blobstore.Access.Codec.{
  encode_slice, encode_slices, encode_body, encode2, decode_slices, decode_fields, decode_location,
  loop_count,
}

-- The ranges of the Go types.
pub record FitsSlice (b : SliceInfo) : Type 0 where
  pub bid_fits : b.min_bid < 2 ^ 64
  pub vid_fits : b.vid < 2 ^ 32
  pub count_fits : b.count < 2 ^ 32

pub record Fits (loc : Location) : Type 0 where
  pub cluster_fits : loc.cluster_id < 2 ^ 32
  pub mode_fits : loc.code_mode < 256
  pub size_fits : loc.size < 2 ^ 64
  pub blob_size_fits : loc.blob_size < 2 ^ 32
  pub crc_fits : loc.crc < 2 ^ 32
  pub length_fits : length loc.blobs < 2 ^ 63
  pub slices_fit : All FitsSlice loc.blobs

regrouped :
    (b : SliceInfo) (blobs : List SliceInfo) (rest : List ℕ)
    → encode_slices (b ∷ blobs) ++ rest
      ≡ put_uvarint b.min_bid
        ++ (put_uvarint b.vid ++ (put_uvarint b.count ++ (encode_slices blobs ++ rest)))
unfolding encode_slices encode_slice
regrouped b blobs rest = simp append_assoc

decode_slices-encode_slices :
    (blobs : List SliceInfo) (rest : List ℕ)
    → All FitsSlice blobs
    → decode_slices (length blobs) (encode_slices blobs ++ rest) ≡ done (blobs, rest)
unfolding decode_slices encode_slices
decode_slices-encode_slices [] rest h = refl
decode_slices-encode_slices (b ∷ blobs) rest (f, fs) =
    let vid : b.vid % 2 ^ 32 ≡ b.vid = omega (arith, f.vid_fits) in
    let count : b.count % 2 ^ 32 ≡ b.count = omega (arith, f.count_fits) in
    rw
      (
        regrouped b blobs rest,
        uvarint-put_uvarint b.min_bid _ f.bid_fits,
        uvarint-put_uvarint b.vid _ (omega (arith, f.vid_fits)),
        uvarint-put_uvarint b.count _ (omega (arith, f.count_fits)),
        decode_slices-encode_slices blobs rest fs,
        vid,
        count,
      )
      refl

body_regrouped :
    (loc : Location) (rest : List ℕ)
    → (be32 loc.crc ++ encode_body loc) ++ rest
      ≡ be32 loc.crc
        ++ (put_uvarint loc.cluster_id
            ++ (loc.code_mode % 256
                ∷ (put_uvarint loc.size
                    ++ (put_uvarint loc.blob_size
                        ++ (put_uvarint (length loc.blobs) ++ (encode_slices loc.blobs ++ rest))))))
unfolding encode_body
body_regrouped loc rest = simp append_assoc

decode_fields-encode_body :
    (loc : Location) (rest : List ℕ)
    → Fits loc
    → length loc.blobs < 2 ^ 32
    → decode_fields ((be32 loc.crc ++ encode_body loc) ++ rest) ≡ done (loc, rest)
unfolding decode_fields
decode_fields-encode_body loc rest f few =
    let mode : loc.code_mode % 256 ≡ loc.code_mode = omega (arith, f.mode_fits) in
    let cluster : loc.cluster_id % 2 ^ 32 ≡ loc.cluster_id = omega (arith, f.cluster_fits) in
    let blob_size : loc.blob_size % 2 ^ 32 ≡ loc.blob_size = omega (arith, f.blob_size_fits) in
    let made : leb (length loc.blobs * 16) max_alloc ≡ true = ground arith in
    let count : loop_count (length loc.blobs) ≡ length loc.blobs = ground (arith, f.length_fits) in
    rw
      (
        body_regrouped loc rest,
        get_be32-be32 loc.crc _ f.crc_fits,
        uvarint-put_uvarint loc.cluster_id _ (omega (arith, f.cluster_fits)),
        mode,
        uvarint-put_uvarint loc.size _ f.size_fits,
        uvarint-put_uvarint loc.blob_size _ (omega (arith, f.blob_size_fits)),
        uvarint-put_uvarint (length loc.blobs) _ (omega (arith, f.length_fits)),
        count,
        made,
        decode_slices-encode_slices loc.blobs rest f.slices_fit,
        cluster,
        blob_size,
      )
      refl

-- A location whose fields are in the ranges of their types and that has fewer than 2^32
-- slices, is read back from what Encode2 wrote into any buffer, with whatever bytes follow, and the number of bytes read is the number written.
pub decode_location-encode2 :
    (loc : Location) (room : ℕ) (bytes rest : List ℕ)
    → Fits loc
    → length loc.blobs < 2 ^ 32
    → encode2 room loc ≡ some bytes
    → decode_location (bytes ++ rest) ≡ done (loc, length bytes)
unfolding decode_location encode2
decode_location-encode2 loc room bytes rest f few h =
    let written : be32 loc.crc ++ encode_body loc ≡ bytes = ground arith in
    rw (← written) (
      rw (decode_fields-encode_body loc rest f few) (
        ap (λ (n : ℕ). done (loc, n))
          (omega (arith, length-append (be32 loc.crc ++ encode_body loc) rest))))
