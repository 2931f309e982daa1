-- ===== src/Access/Sign/Tests.antt =====
-- The theorems on the bytes and the checksum of a location at a small one.
use cubefs_blobstore.Base.{
  ℕ, ◌+◌, ◌*◌, ◌≡◌, ◌≤◌, ◌++◌, refl, some, List, [], ◌∷◌, length, In, true, arith,
}
use cubefs_blobstore.Base.Bytes.{crc32, be32, put_uvarint, uvarint_groups}
use cubefs_blobstore.Access.Location.{SliceInfo, Location}
use cubefs_blobstore.Access.Codec.{
  encode, encode2, encode_body, encode_slices, encode_slice, decode_location,
}
use cubefs_blobstore.Access.Codec.RoundTrip.{Fits}
use cubefs_blobstore.Access.Codec.Size.{decode_location-encode}
use cubefs_blobstore.Access.Outcome.{done, panics}
use cubefs_blobstore.Access.Sign.{
  calc_crc, fill_crc, verify_crc, sign_crc, bids_of, slice_bids, same_constants, collect_bids,
  has_bid, has_all, crc_magic_key, crc_poly,
}
use cubefs_blobstore.Access.Sign.Laws.{Backs, sign_crc_sound}
use cubefs_blobstore.Access.Sign.Limits.{calc_crc_limits}

abbrev slice : SliceInfo
slice = record { min_bid = 300; vid = 7; count = 2 }

abbrev small : Location
small = record {
  cluster_id = 1;
  code_mode = 2;
  size = 200;
  blob_size = 128;
  crc = 0x6ba71532;
  blobs = slice ∷ [];
}

small-Fits : Fits small
small-Fits = record {
  cluster_fits = omega arith;
  mode_fits = omega arith;
  size_fits = omega arith;
  blob_size_fits = omega arith;
  crc_fits = omega arith;
  length_fits = omega arith;
  slices_fit =
      (record { bid_fits = omega arith; vid_fits = omega arith; count_fits = omega arith }, tt);
}

decode_location-encode_example :
    (bytes : List ℕ) × (encode small ≡ some bytes)
    × (length bytes ≤ 30 + 20 * 1)
    × ((rest : List ℕ) → decode_location (bytes ++ rest) ≡ done (small, length bytes))
decode_location-encode_example = decode_location-encode small small-Fits (omega arith)

calc_crc_limits_example :
    (length (small.blobs) ≤ 49
      → calc_crc crc_magic_key small ≡ done (crc32 crc_poly (crc_magic_key ++ encode_body small)))
    × (339 ≤ length (small.blobs) → calc_crc crc_magic_key small ≡ panics)
calc_crc_limits_example = calc_crc_limits crc_magic_key small small-Fits

-- What fillCrc makes of the small location.
abbrev filled : Location
filled = record small { crc = 4228804930 }

abbrev asked : Location
asked = record small { size = 100; blobs = record slice { count = 1 } ∷ [] }

abbrev signed : Location
signed = record asked { crc = 3791597387 }

fill_small : fill_crc crc_magic_key small ≡ done filled
unfolding fill_crc calc_crc encode2 encode_body encode_slices encode_slice put_uvarint
    uvarint_groups be32 crc32
fill_small = refl

sign_asked : sign_crc crc_magic_key asked (filled ∷ []) ≡ done signed
unfolding sign_crc collect_bids verify_crc same_constants bids_of slice_bids has_all has_bid
    fill_crc calc_crc encode2 encode_body encode_slices encode_slice put_uvarint uvarint_groups be32
    crc32
sign_asked = refl

sign_crc_sound_example :
    (verify_crc crc_magic_key signed ≡ done true)
    × (signed ≡ record asked { crc = signed.crc })
    × ((bid : ℕ)
        → In bid (bids_of (asked.blobs))
        → (l : Location) × Backs crc_magic_key asked (filled ∷ []) bid l)
sign_crc_sound_example = sign_crc_sound crc_magic_key asked signed (filled ∷ []) sign_asked
