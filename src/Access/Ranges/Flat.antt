-- ===== src/Access/Ranges/Flat.antt =====
-- The two loops of genLocationBlobs as one loop over the blobs of the location.
use cubefs_blobstore.Base.{
  ℕ, zero, suc, ◌+◌, ◌%◌, ◌^◌, ◌<◌, ◌≡◌, refl, sym, ap, ◌∙◌, List, [], ◌∷◌, ◌++◌, ◌==◌,
  if◌then◌else◌, Bool-cases, inl, inr, All, arith,
}
use cubefs_blobstore.Access.Location.{SliceInfo, Blob, spread_slice, spread_slices}
use cubefs_blobstore.Access.Ranges.{
  Progress, Loop, running, returned, read_blob, read_slice, read_slices,
}

-- A slice whose first id is a uint64.
abbrev pub StartsFit : SliceInfo → Type 0
StartsFit slice = slice.min_bid < 2 ^ 64

module _ (size blob_size first : ℕ) where
  unfoldable pub read_blobs : List Blob → Progress → Loop
  read_blobs [] s = running s
  read_blobs (b ∷ bs) s =
      let rest = read_blobs bs (read_blob size blob_size first b.vid b.bid s) in
      if s.remain_size == 0 then returned s.blobs else rest

  abbrev pub then_blobs : Loop → List Blob → Loop
  then_blobs (running s) bs = read_blobs bs s
  then_blobs (returned blobs) bs = returned blobs

  pub read_blobs-append :
      (bs cs : List Blob) (s : Progress) → read_blobs (bs ++ cs) s ≡ then_blobs (read_blobs bs s) cs
  unfolding read_blobs
  read_blobs-append [] cs s = refl
  read_blobs-append (b ∷ bs) cs s = elim (Bool-cases (s.remain_size == 0)) [
    | inl stop ↦ rw stop refl
    | inr go ↦ rw go (read_blobs-append bs cs (read_blob size blob_size first b.vid b.bid s))
  ]

  read_slice-blobs :
      (left from : ℕ) (slice : SliceInfo) (s : Progress)
      → read_slice size blob_size first left slice.vid ((slice.min_bid + from) % 2 ^ 64) s
        ≡ read_blobs (spread_slice blob_size from left slice) s
  unfolding read_slice read_blobs spread_slice
  read_slice-blobs zero from slice s = refl
  read_slice-blobs (suc left) from slice s =
      let next : ((slice.min_bid + from) % 2 ^ 64 + 1) % 2 ^ 64
          ≡ (slice.min_bid + (from + 1)) % 2 ^ 64 =
        omega arith in
      let s' = read_blob size blob_size first slice.vid ((slice.min_bid + from) % 2 ^ 64) s in
      rw (next, read_slice-blobs left (from + 1) slice s') refl

  abbrev then_slices : Loop → List SliceInfo → Loop
  then_slices l slices = elim l [
    | running s' ↦ read_slices size blob_size first slices s'
    | returned blobs ↦ returned blobs
  ]

  continued :
      (slices : List SliceInfo)
      → ((s : Progress)
          → read_slices size blob_size first slices s
            ≡ read_blobs (spread_slices blob_size slices) s)
      → (l : Loop) → then_slices l slices ≡ then_blobs l (spread_slices blob_size slices)
  continued slices ih (running s') = ih s'
  continued slices ih (returned blobs) = refl

  pub read_slices-blobs :
      (slices : List SliceInfo) (s : Progress)
      → All StartsFit slices
      → read_slices size blob_size first slices s ≡ read_blobs (spread_slices blob_size slices) s
  unfolding read_slices read_blobs spread_slices
  read_slices-blobs [] s h = refl
  read_slices-blobs (slice ∷ slices) s (f, fs) =
      let start : slice.min_bid ≡ (slice.min_bid + 0) % 2 ^ 64 = omega arith in
      let first_slice =
        ap (λ (b : ℕ). read_slice size blob_size first slice.count slice.vid b s) start
        ∙ read_slice-blobs slice.count 0 slice s in
      ap (λ (l : Loop). then_slices l slices) first_slice
      ∙ continued slices (λ s'. read_slices-blobs slices s' fs)
          (read_blobs (spread_slice blob_size 0 slice.count slice) s)
      ∙ sym (
          read_blobs-append (spread_slice blob_size 0 slice.count slice)
            (spread_slices blob_size slices) s)
