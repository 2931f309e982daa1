-- ===== src/Access/Location.antt =====
-- api/access/proto.go: Location, and its blobs one by one. Ids are uint64, sizes of blobs uint32.
use cubefs_blobstore.Base.{ℕ, zero, suc, ◌+◌, ◌%◌, ◌^◌, List, [], ◌∷◌, ◌++◌, ltb, if◌then◌else◌}

pub record SliceInfo : Type 0 where
  pub min_bid : ℕ
  pub vid : ℕ
  pub count : ℕ

pub record Location : Type 0 where
  pub cluster_id : ℕ
  pub code_mode : ℕ
  pub size : ℕ
  pub blob_size : ℕ
  pub crc : ℕ
  pub blobs : List SliceInfo

pub record Blob : Type 0 where
  pub bid : ℕ
  pub vid : ℕ
  pub size : ℕ

-- The loop over the ids of a slice, from `offset` on with `left` to go.
unfoldable pub spread_slice : ℕ → ℕ → ℕ → SliceInfo → List Blob
spread_slice blob_size offset zero blob = []
spread_slice blob_size offset (suc left) blob =
    record { bid = (blob.min_bid + offset) % 2 ^ 64; vid = blob.vid; size = blob_size }
    ∷ spread_slice blob_size (offset + 1) left blob

unfoldable pub spread_slices : ℕ → List SliceInfo → List Blob
spread_slices blob_size [] = []
spread_slices blob_size (blob ∷ blobs) =
    spread_slice blob_size 0 blob.count blob ++ spread_slices blob_size blobs

-- blobs[len(blobs)-1].Size = size
unfoldable pub set_last_size : ℕ → List Blob → List Blob
set_last_size size [] = []
set_last_size size (b ∷ []) = record b { size = size } ∷ []
set_last_size size (b ∷ c ∷ bs) = b ∷ set_last_size size (c ∷ bs)

-- Without blobs there is none to set.
abbrev pub last_resized : Location → List Blob → List Blob
last_resized loc blobs =
    if ltb 0 (loc.size % loc.blob_size)
    then set_last_size (loc.size % loc.blob_size % 2 ^ 32) blobs
    else blobs

unfoldable pub spread : Location → List Blob
unfolding spread_slices spread_slice set_last_size
spread loc =
    let blobs = spread_slices loc.blob_size loc.blobs in
    if ltb 0 loc.blob_size then last_resized loc blobs else blobs
