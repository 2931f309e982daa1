-- ===== src/Access/Ranges.antt =====
-- access/stream_get.go, genLocationBlobs: which part of which blob a read takes. Sizes and ids are uint64.
pub mod Flat
pub mod Laws
pub mod Blobs
pub mod Whole
mod Tests
use cubefs_blobstore.Base.{
  ℕ, zero, suc, ◌+◌, ◌*◌, ◌-◌, ◌/◌, ◌%◌, ◌^◌, List, [], ◌∷◌, ◌++◌, ltb, leb, ◌==◌, if◌then◌else◌,
}
use cubefs_blobstore.Access.Outcome.{Outcome, done, refused, make}
use cubefs_blobstore.Access.Location.{SliceInfo, Location}

pub record BlobGetArgs : Type 0 where
  pub vid : ℕ
  pub bid : ℕ
  pub blob_size : ℕ
  pub offset : ℕ
  pub read_size : ℕ

unfoldable pub min_u64 : ℕ → ℕ → ℕ
min_u64 a b = if leb a b then a else b

-- The variables of the loops.
pub record Progress : Type 0 where
  pub idx : ℕ
  pub blob_offset : ℕ
  pub remain_size : ℕ
  pub blobs : List BlobGetArgs

-- The loops run on, or the function has returned.
pub data Loop : Type 0 where
  running : Progress → Loop
  returned : List BlobGetArgs → Loop

module _ (size blob_size first_blob_idx : ℕ) where
  -- One pass of the inner loop after its test; a uint64 subtraction wraps.
  unfoldable pub read_blob : ℕ → ℕ → Progress → Progress
  unfolding min_u64
  read_blob vid bid s =
      let to_read_size = min_u64 s.remain_size (blob_size - s.blob_offset) in
      let read : BlobGetArgs = record {
        vid = vid;
        bid = bid;
        blob_size = min_u64 ((size + 2 ^ 64 - s.idx * blob_size % 2 ^ 64) % 2 ^ 64) blob_size;
        offset = s.blob_offset;
        read_size = to_read_size;
      } in
      if leb first_blob_idx s.idx
      then record {
        idx = s.idx + 1;
        blob_offset = 0;
        remain_size = s.remain_size - to_read_size;
        blobs = if ltb 0 to_read_size then s.blobs ++ read ∷ [] else s.blobs;
      }
      else record s { idx = s.idx + 1 }

  -- The loop over the blobs of a slice, `left` of them.
  unfoldable pub read_slice : ℕ → ℕ → ℕ → Progress → Loop
  read_slice zero vid bid s = running s
  read_slice (suc left) vid bid s =
      let rest = read_slice left vid ((bid + 1) % 2 ^ 64) (read_blob vid bid s) in
      if s.remain_size == 0 then returned s.blobs else rest

  unfoldable pub read_slices : List SliceInfo → Progress → Loop
  read_slices [] s = running s
  read_slices (blob ∷ slices) s = elim (read_slice blob.count blob.vid blob.min_bid s) [
    | running s' ↦ read_slices slices s'
    | returned blobs ↦ returned blobs
  ]

abbrev end_of_loops : Loop → Outcome (List BlobGetArgs)
end_of_loops (returned blobs) = done blobs
end_of_loops (running s) = if ltb 0 s.remain_size then refused else done s.blobs

-- The capacity of the answer, a uint64.
abbrev pub capacity : Location → ℕ → ℕ → ℕ
capacity loc read_size offset =
    (1 + (read_size + offset % loc.blob_size) % 2 ^ 64 / loc.blob_size) % 2 ^ 64

-- A blobGetArgs has 40 bytes in memory.
unfoldable pub gen_location_blobs : Location → ℕ → ℕ → Outcome (List BlobGetArgs)
unfolding read_slices read_slice read_blob
gen_location_blobs loc read_size offset =
    if ltb loc.size ((offset + read_size) % 2 ^ 64)
    then refused
    else if loc.blob_size == 0
    then refused
    else make 40 (capacity loc read_size offset) (
        end_of_loops (
          read_slices loc.size loc.blob_size (offset / loc.blob_size) loc.blobs (record {
            idx = 0;
            blob_offset = offset % loc.blob_size;
            remain_size = read_size;
            blobs = [];
          })))
