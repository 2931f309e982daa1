-- ===== src/Access/Sign/Limits.antt =====
-- How many slices a location may have before access/server_location.go panics on it.
use cubefs_blobstore.Base.{ℕ, ◌≤◌, ◌≡◌, refl, List, ◌++◌, length, leb, le→leb, ltb, false, arith}
use cubefs_blobstore.Base.Bytes.{be32, crc32}
use cubefs_blobstore.Access.Location.{Location}
use cubefs_blobstore.Access.Codec.{encode2, encode_body}
use cubefs_blobstore.Access.Codec.RoundTrip.{Fits}
use cubefs_blobstore.Access.Codec.Size.{bytes_bounded, length-bytes, length-encode_body-ge}
use cubefs_blobstore.Access.Outcome.{done, panics}
use cubefs_blobstore.Access.Sign.{calc_crc, crc_poly}

calc_crc_small :
    (key : List ℕ) (loc : Location)
    → Fits loc
    → length loc.blobs ≤ 49
    → calc_crc key loc ≡ done (crc32 crc_poly (key ++ encode_body loc))
unfolding calc_crc encode2 be32
calc_crc_small key loc f few =
    let room : length (be32 loc.crc ++ encode_body loc) ≤ 1024 =
      omega (arith, bytes_bounded loc f (omega arith)) in
    let long : ltb (length (be32 loc.crc ++ encode_body loc)) 4 ≡ false = ground arith in
    rw (le→leb _ 1024 room, long) refl

calc_crc_large :
    (key : List ℕ) (loc : Location) → 339 ≤ length loc.blobs → calc_crc key loc ≡ panics
unfolding calc_crc encode2
calc_crc_large key loc many =
    let over : leb (length (be32 loc.crc ++ encode_body loc)) 1024 ≡ false =
      ground (arith, length-bytes loc, length-encode_body-ge loc) in
    rw over refl

-- The checksum of a location in the ranges of its types is computed when it has 49 slices at most, and
-- panics when it has 339 or more: the buffer of 1024 bytes is then too small.
pub calc_crc_limits :
    (key : List ℕ) (loc : Location)
    → Fits loc
    → (length loc.blobs ≤ 49 → calc_crc key loc ≡ done (crc32 crc_poly (key ++ encode_body loc)))
      × (339 ≤ length loc.blobs → calc_crc key loc ≡ panics)
calc_crc_limits key loc f = (calc_crc_small key loc f, calc_crc_large key loc)
