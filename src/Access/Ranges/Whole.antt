-- ===== src/Access/Ranges/Whole.antt =====
-- genLocationBlobs of access/stream_get.go against Spread of api/access/proto.go: the reads are parts of
-- the blobs of the location.
use native.Mathlib.Nat.{div-add-mod'}
use cubefs_blobstore.Base.{
  ℕ, ◌+◌, ◌*◌, ◌/◌, ◌%◌, ◌^◌, ◌<◌, ◌≤◌, ◌≡◌, sym, ap, subst, ◌∙◌, List, [], ◌∷◌, ◌==◌, ltb, leb,
  ==_iff, Bool-cases, true, false, inl, inr, arith, some, get_elem?,
}
use cubefs_blobstore.Access.Outcome.{Outcome, done, refused, panics, make, max_alloc}
use cubefs_blobstore.Access.Location.{Location, Blob, spread_slices, spread}
use cubefs_blobstore.Access.Ranges.Blobs.{IsWhole, SpreadAs, spread-SpreadAs}
use cubefs_blobstore.Access.Ranges.{
  BlobGetArgs, Progress, end_of_loops, capacity, gen_location_blobs,
}
use cubefs_blobstore.Access.Ranges.Flat.{read_blobs, read_slices-blobs}
use cubefs_blobstore.Access.Ranges.Laws.{Piece, Reads, Reads-rest, Reads-cong, read_blobs_skip}

-- A read that takes, from position `pos` of the file on, a part of the k-th blob that Spread gives.
abbrev pub PartOf : Location → ℕ → BlobGetArgs → Type 0
PartOf loc pos r =
    (k : ℕ) × (c : Blob) × (get_elem? (spread loc) k ≡ some c)
    × (r.vid ≡ c.vid)
    × (r.bid ≡ c.bid)
    × (r.blob_size ≡ c.size)
    × (k * loc.blob_size + r.offset ≡ pos)
    × (r.offset + r.read_size ≤ c.size)
    × (0 < r.read_size)

-- The reads follow one another without a gap from `pos` up to `stop`.
abbrev pub ReadsOf : Location → ℕ → List BlobGetArgs → ℕ → Type 0
ReadsOf loc pos [] stop = pos ≡ stop
ReadsOf loc pos (r ∷ rs) stop = PartOf loc pos r × ReadsOf loc (pos + r.read_size) rs stop

Piece-PartOf :
    (loc : Location) (pos : ℕ) (r : BlobGetArgs)
    → Piece (SpreadAs loc) loc.size loc.blob_size pos r
    → PartOf loc pos r
Piece-PartOf loc pos r (k, b, (c, found, v, i, s), vid, bid, size, at, fits, some_read) = (
  k,
  c,
  found,
  vid ∙ sym v,
  bid ∙ sym i,
  size ∙ sym s,
  at,
  subst (λ (n : ℕ). r.offset + r.read_size ≤ n) (size ∙ sym s) fits,
  some_read,
)

Reads-ReadsOf :
    (loc : Location) (pos stop : ℕ) (rs : List BlobGetArgs)
    → Reads (SpreadAs loc) loc.size loc.blob_size pos rs stop
    → ReadsOf loc pos rs stop
Reads-ReadsOf loc pos stop [] h = h
Reads-ReadsOf loc pos stop (r ∷ rs) (p, h) =
    (Piece-PartOf loc pos r p, Reads-ReadsOf loc (pos + r.read_size) stop rs h)

abbrev start : ℕ → ℕ → Progress
start blob_offset read_size = record {
  idx = 0;
  blob_offset = blob_offset;
  remain_size = read_size;
  blobs = [];
}

-- The answer to a read, by what it asks for. The answer's capacity is one more than the blobs that the read
-- would take from the start of its first blob.
pub data ReadSpec (loc : Location) (read_size offset : ℕ)
    : Outcome (List BlobGetArgs) → Type 0 where
  reads :
      (rs : List BlobGetArgs)
      → offset + read_size ≤ loc.size
      → capacity loc read_size offset * 40 ≤ max_alloc
      → ReadsOf loc offset rs (offset + read_size)
      → ReadSpec loc read_size offset (done rs)
  too_large :
      offset + read_size ≤ loc.size
      → max_alloc < capacity loc read_size offset * 40
      → ReadSpec loc read_size offset panics
  past_size : loc.size < offset + read_size → ReadSpec loc read_size offset refused

module _ (loc : Location) (w : IsWhole loc) (read_size offset : ℕ) where
  abbrev looped : Outcome (List BlobGetArgs)
  looped = end_of_loops (
      read_blobs loc.size loc.blob_size (offset / loc.blob_size)
        (spread_slices loc.blob_size loc.blobs) (start (offset % loc.blob_size) read_size))

  gen_location_blobs-flat :
      offset + read_size ≤ loc.size
      → gen_location_blobs loc read_size offset ≡ make 40 (capacity loc read_size offset) looped
  unfolding gen_location_blobs
  gen_location_blobs-flat inside =
      let fits : ltb loc.size ((offset + read_size) % 2 ^ 64) ≡ false =
        ground (arith, w.size_fits) in
      let sized : (loc.blob_size == 0) ≡ false = ground (arith, w.some_size) in
      rw (fits, sized)
        (ap (λ r. make 40 (capacity loc read_size offset) (end_of_loops r))
          (read_slices-blobs loc.size loc.blob_size (offset / loc.blob_size) loc.blobs
            (start (offset % loc.blob_size) read_size) w.starts_fit))

  Reads-inside :
      offset + read_size ≤ loc.size
      → 0 < read_size
      → (rs : List BlobGetArgs) × (looped ≡ done rs)
        × Reads (SpreadAs loc) loc.size loc.blob_size offset rs (offset + read_size)
  Reads-inside inside some_read =
      let n = loc.blob_size in
      let first = offset / n in
      let rest = offset % n in
      let l = spread_slices n loc.blobs in
      let below : rest < n = grind (arith, w.some_size) in
      let at : first * n + rest ≡ offset = div-add-mod' offset n in
      let covers = w.covers in
      elim (Bool-cases (first == 0)) [
        | inl zeroth ↦
            let none_before : first ≡ 0 = (==_iff first 0).0 zeroth in
            let at_first = ap (λ (x : ℕ). x * n) none_before in
            let (rs, result, pieces) =
              Reads-rest (SpreadAs loc) loc.size n first w.size_fits w.some_size l
                (start rest read_size) (spread-SpreadAs loc w) (omega arith) below (grind arith)
                (grind arith) in
            (
              rs,
              result,
              Reads-cong (SpreadAs loc) loc.size n _ _ _ _ rs (grind arith) (grind arith) pieces,
            )
        | inr later ↦
            let (rs, result, pieces) =
              read_blobs_skip (SpreadAs loc) loc.size n first w.size_fits w.some_size l
                (start rest read_size) (ground arith) (spread-SpreadAs loc w) some_read below
                (omega arith) (grind arith) in
            (rs, result, Reads-cong (SpreadAs loc) loc.size n _ _ _ _ rs at (omega arith) pieces)
      ]

  inside-ReadSpec :
      0 < read_size
      → offset + read_size ≤ loc.size
      → ReadSpec loc read_size offset (gen_location_blobs loc read_size offset)
  inside-ReadSpec some_read inside =
      let cap = capacity loc read_size offset * 40 in
      let (rs, result, pieces) = Reads-inside inside some_read in
      subst (ReadSpec loc read_size offset) (sym (gen_location_blobs-flat inside))
        (elim (Bool-cases (leb cap max_alloc)) [
          | inl few ↦
              rw (few, result)
                (reads rs inside (ground arith)
                  (Reads-ReadsOf loc offset (offset + read_size) rs pieces))
          | inr many ↦ rw many (too_large inside (ground arith))
        ])

  -- The location has as many blobs as its size needs, and the read asks for some bytes, up to an end below
  -- 2^64. A read past the size is an error. For a read within the size, the answer is made with a capacity
  -- of one and the blobs that the read would take from the start of its first blob: the process panics if
  -- such a slice has more bytes than Go allocates. Else the read succeeds: its parts are parts of the blobs
  -- that Spread gives, within their sizes and none of them empty, and follow one another without a gap from
  -- the offset on up to the end of what is asked for.
  pub gen_location_blobs-ReadSpec :
      0 < read_size
      → offset + read_size < 2 ^ 64
      → ReadSpec loc read_size offset (gen_location_blobs loc read_size offset)
  unfolding gen_location_blobs
  gen_location_blobs-ReadSpec some_read fits =
      elim (Bool-cases (leb (offset + read_size) loc.size)) [
        | inl inside ↦ inside-ReadSpec some_read (ground arith)
        | inr outside ↦
            let over : ltb loc.size ((offset + read_size) % 2 ^ 64) ≡ true = ground arith in
            rw over (past_size (ground arith))
      ]
