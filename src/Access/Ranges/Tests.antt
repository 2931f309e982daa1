-- ===== src/Access/Ranges/Tests.antt =====
-- The theorem on reads at a location of three blobs in two slices.
use cubefs_blobstore.Base.{◌≡◌, ◌-◌, ◌^◌, refl, [], ◌∷◌, arith}
use cubefs_blobstore.Access.Outcome.{panics}
use cubefs_blobstore.Access.Location.{Location, spread_slices, spread_slice}
use cubefs_blobstore.Access.Ranges.{gen_location_blobs}
use cubefs_blobstore.Access.Ranges.Blobs.{IsWhole}
use cubefs_blobstore.Access.Ranges.Whole.{ReadSpec, gen_location_blobs-ReadSpec}

abbrev file : Location
file = record {
  cluster_id = 1;
  code_mode = 2;
  size = 25;
  blob_size = 10;
  crc = 0;
  blobs =
      record { min_bid = 300; vid = 7; count = 2 }
      ∷ record { min_bid = 500; vid = 8; count = 1 }
      ∷ [];
}

file-IsWhole : IsWhole file
unfolding spread_slices spread_slice
file-IsWhole = record {
  size_fits = omega arith;
  some_size = omega arith;
  blob_size_fits = omega arith;
  starts_fit = (omega arith, (omega arith, tt));
  covers = omega arith;
  tight = omega arith;
}

gen_location_blobs-ReadSpec_example : ReadSpec file 18 5 (gen_location_blobs file 18 5)
gen_location_blobs-ReadSpec_example =
    gen_location_blobs-ReadSpec file file-IsWhole 18 5 (omega arith) (omega arith)

-- The sum of the offset and of what is asked for wraps: the read passes the first check and panics.
wraps : gen_location_blobs (record file { blob_size = 1 }) (2 ^ 64 - 10) 20 ≡ panics
unfolding gen_location_blobs
wraps = refl
