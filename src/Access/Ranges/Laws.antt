-- ===== src/Access/Ranges/Laws.antt =====
-- genLocationBlobs of access/stream_get.go against the bytes of a file: the reads that it gives follow one
-- another without a gap from the offset on, and have together the size asked for.
use cubefs_blobstore.Base.{
  ℕ, ◌+◌, ◌*◌, ◌-◌, ◌%◌, ◌^◌, ◌<◌, ◌≤◌, ◌≡◌, refl, sym, ap, subst, ◌∙◌, List, [], ◌∷◌, ◌++◌, ◌==◌,
  ltb, leb, false, Bool-cases, inl, inr, arith, length,
}
use native.Mathlib.Nat.{mul-le-mul_right}
use mathlib.Core.List.{append-nil, append_assoc}
use cubefs_blobstore.Access.Outcome.{done}
use cubefs_blobstore.Access.Location.{Blob}
use cubefs_blobstore.Access.Ranges.{BlobGetArgs, Progress, read_blob, min_u64, end_of_loops}
use cubefs_blobstore.Access.Ranges.Flat.{read_blobs}

-- What holds of the blobs of a list, numbered from `i` on.
abbrev pub AllFrom : (ℕ → Blob → Type 0) → ℕ → List Blob → Type 0
AllFrom Q i [] = Unit
AllFrom Q i (b ∷ bs) = Q i b × AllFrom Q (i + 1) bs

module _ (Q : ℕ → Blob → Type 0) (size blob_size : ℕ) where
  -- A read that takes the part from position `pos` on of the k-th blob of a file of `size` bytes.
  abbrev pub Piece : ℕ → BlobGetArgs → Type 0
  Piece pos r =
      (k : ℕ) × (b : Blob) × Q k b
      × (r.vid ≡ b.vid)
      × (r.bid ≡ b.bid)
      × (r.blob_size ≡ min_u64 (size - k * blob_size) blob_size)
      × (k * blob_size + r.offset ≡ pos)
      × (r.offset + r.read_size ≤ r.blob_size)
      × (0 < r.read_size)

  -- The reads follow one another from `pos` up to `stop`.
  abbrev pub Reads : ℕ → List BlobGetArgs → ℕ → Type 0
  Reads pos [] stop = pos ≡ stop
  Reads pos (r ∷ rs) stop = Piece pos r × Reads (pos + r.read_size) rs stop

  pub Reads-cong :
      (pos pos' stop stop' : ℕ) (rs : List BlobGetArgs)
      → pos ≡ pos'
      → stop ≡ stop'
      → Reads pos rs stop
      → Reads pos' rs stop'
  Reads-cong pos pos' stop stop' rs p q h =
      subst (λ (n : ℕ). Reads pos' rs n) q (subst (λ (n : ℕ). Reads n rs stop) p h)

  module _ (first : ℕ) (size_fits : size < 2 ^ 64) (some_size : 0 < blob_size) where
    -- A pass over a blob before the first.
    pub skip :
        (vid bid : ℕ) (s : Progress)
        → s.idx < first
        → read_blob size blob_size first vid bid s ≡ record s { idx = s.idx + 1 }
    unfolding read_blob
    skip vid bid s h = ground arith

    abbrev taken : Progress → ℕ
    taken s = min_u64 s.remain_size (blob_size - s.blob_offset)

    abbrev read_of : Blob → Progress → BlobGetArgs
    read_of b s = record {
      vid = b.vid;
      bid = b.bid;
      blob_size = min_u64 (size - s.idx * blob_size) blob_size;
      offset = s.blob_offset;
      read_size = taken s;
    }

    -- A pass over a blob that has bytes to read.
    take :
        (b : Blob) (s : Progress)
        → first ≤ s.idx
        → 0 < s.remain_size
        → s.blob_offset < blob_size
        → s.idx * blob_size ≤ size
        → read_blob size blob_size first b.vid b.bid s ≡ record {
          idx = s.idx + 1;
          blob_offset = 0;
          remain_size = s.remain_size - taken s;
          blobs = s.blobs ++ read_of b s ∷ [];
        }
    unfolding read_blob min_u64
    take b s h r o i =
        let whole : (size + 2 ^ 64 - s.idx * blob_size % 2 ^ 64) % 2 ^ 64
            ≡ size - s.idx * blob_size =
          omega arith in
        ground (arith, whole)

    piece :
        (b : Blob) (s : Progress)
        → Q s.idx b
        → 0 < s.remain_size
        → s.blob_offset < blob_size
        → s.idx * blob_size + s.blob_offset + s.remain_size ≤ size
        → Piece (s.idx * blob_size + s.blob_offset) (read_of b s)
    unfolding min_u64
    piece b s q r o h = (s.idx, b, q, refl, refl, refl, refl, ground arith, ground arith)

    abbrev advanced : Blob → Progress → Progress
    advanced b s = record {
      idx = s.idx + 1;
      blob_offset = 0;
      remain_size = s.remain_size - taken s;
      blobs = s.blobs ++ read_of b s ∷ [];
    }

    -- When nothing is left to read the loops end.
    pub read_blobs_done :
        (l : List Blob) (s : Progress)
        → s.remain_size ≡ 0
        → end_of_loops (read_blobs size blob_size first l s) ≡ done s.blobs
    unfolding read_blobs
    read_blobs_done [] s h = rw h refl
    read_blobs_done (b ∷ l) s h = rw h refl

    read_blobs_step :
        (b : Blob) (l : List Blob) (s : Progress)
        → first ≤ s.idx
        → 0 < s.remain_size
        → s.blob_offset < blob_size
        → s.idx * blob_size ≤ size
        → read_blobs size blob_size first (b ∷ l) s
          ≡ read_blobs size blob_size first l (advanced b s)
    unfolding read_blobs
    read_blobs_step b l s h r o i =
        let go : (s.remain_size == 0) ≡ false = ground arith in
        rw go (ap (read_blobs size blob_size first l) (take b s h r o i))

    -- From the first blob on, the blobs that are left give the bytes that are left, if there are enough.
    pub Reads-rest :
        (l : List Blob) (s : Progress)
        → AllFrom Q s.idx l
        → first ≤ s.idx
        → s.blob_offset < blob_size
        → s.idx * blob_size + s.blob_offset + s.remain_size ≤ size
        → s.idx * blob_size + s.blob_offset + s.remain_size ≤ (s.idx + length l) * blob_size
        → (rs : List BlobGetArgs) × (end_of_loops (read_blobs size blob_size first l s)
            ≡ done (s.blobs ++ rs))
          × Reads
              (s.idx * blob_size + s.blob_offset)
              rs
              (s.idx * blob_size + s.blob_offset + s.remain_size)
    unfolding min_u64
    Reads-rest [] s q p o fits enough =
        let none_left : s.remain_size ≡ 0 = grind arith in
        ([], read_blobs_done [] s none_left ∙ ap done (sym (append-nil s.blobs)), omega arith)
    Reads-rest (b ∷ l) s (q, qs) p o fits enough = elim (Bool-cases (s.remain_size == 0)) [
      | inl stop ↦
          let none_left : s.remain_size ≡ 0 = ground arith in
          (
            [],
            read_blobs_done (b ∷ l) s none_left ∙ ap done (sym (append-nil s.blobs)),
            omega arith,
          )
      | inr go ↦
          let left : 0 < s.remain_size = ground arith in
          let step = read_blobs_step b l s p left o (omega arith) in
          elim (Bool-cases (leb s.remain_size (blob_size - s.blob_offset))) [
            | inl last ↦
                let none_left : (advanced b s).remain_size ≡ 0 = ground arith in
                (
                  read_of b s ∷ [],
                  ap end_of_loops step ∙ read_blobs_done l (advanced b s) none_left,
                  (piece b s q left o fits, ground arith),
                )
            | inr more ↦
                let all : taken s ≡ blob_size - s.blob_offset = ground arith in
                let next : (s.idx + 1) * blob_size ≡ s.idx * blob_size + s.blob_offset + taken s =
                  grind arith in
                let (rs, result, reads) =
                  Reads-rest l (advanced b s) qs (omega arith) some_size (ground arith)
                    (grind arith) in
                (
                  read_of b s ∷ rs,
                  ap end_of_loops step
                      ∙ (result ∙ ap done (append_assoc s.blobs (read_of b s ∷ []) rs)),
                  (
                    piece b s q left o fits,
                    Reads-cong _ _ _ _ rs (omega arith) (ground arith) reads,
                  ),
                )
          ]
    ]

    -- The blobs before the first are passed over.
    pub read_blobs_skip :
        (l : List Blob) (s : Progress)
        → s.idx < first
        → AllFrom Q s.idx l
        → 0 < s.remain_size
        → s.blob_offset < blob_size
        → first * blob_size + s.blob_offset + s.remain_size ≤ size
        → first * blob_size + s.blob_offset + s.remain_size ≤ (s.idx + length l) * blob_size
        → (rs : List BlobGetArgs) × (end_of_loops (read_blobs size blob_size first l s)
            ≡ done (s.blobs ++ rs))
          × Reads
              (first * blob_size + s.blob_offset)
              rs
              (first * blob_size + s.blob_offset + s.remain_size)
    read_blobs_skip [] s before q left o fits enough =
        let below : s.idx * blob_size ≤ first * blob_size =
          mul-le-mul_right blob_size (omega arith) in
        absurd (grind arith)
    read_blobs_skip (b ∷ l) s before (q, qs) left o fits enough =
        let s' : Progress = record s { idx = s.idx + 1 } in
        let step : read_blobs size blob_size first (b ∷ l) s
            ≡ read_blobs size blob_size first l s' =
          unfold read_blobs in
          (let go : (s.remain_size == 0) ≡ false = ground arith in
            rw go (ap (read_blobs size blob_size first l) (skip b.vid b.bid s before))) in
        elim (Bool-cases (ltb (s.idx + 1) first)) [
          | inl more ↦
              let (rs, result, reads) =
                read_blobs_skip l s' (ground arith) qs left o fits (grind arith) in
              (rs, ap end_of_loops step ∙ result, reads)
          | inr reached ↦
              let at_first : s.idx + 1 ≡ first = ground arith in
              let at_pos = ap (λ (n : ℕ). n * blob_size) at_first in
              let (rs, result, reads) =
                Reads-rest l s' qs (omega arith) o (omega arith) (grind arith) in
              (
                rs,
                ap end_of_loops step ∙ result,
                Reads-cong _ _ _ _ rs (omega arith) (omega arith) reads,
              )
        ]
