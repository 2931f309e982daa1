-- ===== src/Crc32Block/Range/Laws.antt =====
-- A range of an encoded stream of common/crc32block, read without what stands before its first block.
use cubefs_blobstore.Base.{
  ℕ, zero, suc, ◌+◌, ◌-◌, ◌*◌, ◌≤◌, ◌<◌, ◌≡◌, refl, sym, ap, subst, ◌∙◌, ◌⊎◌, inl, inr, true, false,
  none, some, List, [], ◌∷◌, ◌++◌, length, take, drop, ◌==◌, length-append, length-drop,
  length-take, take-append_length, drop-append_length, drop-drop, drop_same, take_same, take-add,
  All, arith,
}
use cubefs_blobstore.Crc32Block.{eof, write_crc}
use cubefs_blobstore.Crc32Block.Stream.{encoded, encoded-next}
use cubefs_blobstore.Crc32Block.Encoder.Laws.{length-write_crc}
use cubefs_blobstore.Crc32Block.Decoder.{BlockReader, new_block_reader}
use cubefs_blobstore.Crc32Block.Decoder as Block
use cubefs_blobstore.Crc32Block.Decoder.Laws.{Decodes, read-ReadOf}
use cubefs_blobstore.Crc32Block.Range.{
  RangeReader, at_most, discard_size, copy_n, read_limited, read,
}

at_most_bounds :
    (n b : ℕ) → 0 < n → 0 < b → (0 < at_most n b) × (at_most n b ≤ n) × (at_most n b ≤ b)
unfolding at_most
at_most_bounds n b h k = (ground arith, ground arith, ground arith)

zero_or_more : (n : ℕ) → (n ≡ 0) ⊎ (0 < n)
zero_or_more n = ground arith

pub drop-split :
    (xs ys zs : List ℕ) (n : ℕ)
    → xs ≡ ys ++ zs
    → length ys ≤ n
    → drop n xs ≡ drop (n - length ys) zs
drop-split xs ys zs n e h =
    drop_same n (length ys + (n - length ys)) xs (omega arith)
    ∙ (sym (drop-drop (n - length ys) (length ys) xs)
        ∙ ap (drop (n - length ys)) (ap (drop (length ys)) e ∙ drop-append_length ys zs))

-- Skipping within what is to come.
pub copy_n-Decodes :
    (f : ℕ) (br : BlockReader) (bytes : List ℕ) (n : ℕ)
    → Decodes br bytes
    → n ≤ f
    → n ≤ length bytes
    → ((copy_n f br n).1 ≡ none) × Decodes (copy_n f br n).0 (drop n bytes)
unfolding copy_n
copy_n-Decodes zero br bytes zero d h k = (refl, d)
copy_n-Decodes (suc f) br bytes zero d h k = (refl, d)
copy_n-Decodes zero br bytes (suc n) d h k = absurd (omega arith)
copy_n-Decodes (suc f) br bytes (suc n) d h k =
    let asked = at_most_bounds (suc n) discard_size (omega arith) (omega arith) in
    let r = read-ReadOf br bytes (at_most (suc n) discard_size) d asked.0 (omega arith) in
    let more =
      copy_n-Decodes f (Block.read br (at_most (suc n) discard_size)).0 r.later
        (suc n - length (Block.read br (at_most (suc n) discard_size)).1) r.again
        (omega (arith, r.progress))
        (omega (
          arith,
          asked,
          r.within,
          ap length r.split,
          length-append (Block.read br (at_most (suc n) discard_size)).1 r.later,
        )) in
    rw (copy_n, r.no_error)
      (
        more.0,
        subst (Decodes _)
            (sym (
              drop-split bytes (Block.read br (at_most (suc n) discard_size)).1 r.later (suc n)
                r.split (omega (arith, asked, r.within))))
            more.1,
      )

-- Whole blocks of the stream are the blocks of as many payloads.
pub encoded-drop :
    (p k : ℕ) (bytes : List ℕ)
    → 0 < p
    → k * p ≤ length bytes
    → drop (k * (p + 4)) (encoded p bytes) ≡ encoded p (drop (k * p) bytes)
encoded-drop p zero bytes h le =
    drop_same (0 * (p + 4)) 0 (encoded p bytes) (omega arith)
    ∙ ap (encoded p) (drop_same 0 (0 * p) bytes (omega arith))
encoded-drop p (suc k) bytes h le =
    let block = write_crc (take p bytes) in
    let rest = drop p bytes in
    let whole : length block ≡ p + 4 =
      omega (arith, length-write_crc (take p bytes), length-take p bytes (omega arith)) in
    let shorter = length-drop p bytes in
    drop-split (encoded p bytes) block (encoded p rest) (suc k * (p + 4))
      (encoded-next p bytes h (omega arith)) (omega arith)
    ∙ (drop_same (suc k * (p + 4) - length block) (k * (p + 4)) (encoded p rest) (omega arith)
        ∙ (encoded-drop p k rest h (omega arith)
            ∙ ap (encoded p) (
                drop-drop (k * p) p bytes ∙ drop_same (p + k * p) (suc k * p) bytes (omega arith))))

pub length-encoded_le :
    (p k : ℕ) (bytes : List ℕ)
    → 0 < p
    → k * p ≤ length bytes
    → k * (p + 4) ≤ length (encoded p bytes)
length-encoded_le p zero bytes h le = omega arith
length-encoded_le p (suc k) bytes h le =
    let block = write_crc (take p bytes) in
    let whole : length block ≡ p + 4 =
      omega (arith, length-write_crc (take p bytes), length-take p bytes (omega arith)) in
    let shorter = length-drop p bytes in
    let parts =
      ap length (encoded-next p bytes h (omega arith))
      ∙ length-append block (encoded p (drop p bytes)) in
    let rest = length-encoded_le p k (drop p bytes) h (omega arith) in omega arith

-- Reads of the given sizes, one after another.
unfoldable pub reads : RangeReader → List ℕ → RangeReader × List ℕ
reads rr [] = (rr, [])
reads rr (room ∷ rooms) =
    let (rr', out, err) = read rr room in let (rr'', more) = reads rr' rooms in (rr'', out ++ more)

-- What is past the skipped bytes, of which `limit` are to be given.
pub record Ranges (rr : RangeReader) (bytes : List ℕ) : Type 0 where
  pub skipped : rr.skipped ≡ true
  pub decodes : Decodes rr.r bytes
  pub enough : rr.limit ≤ length bytes

pub read_limited-end :
    (rr : RangeReader) (room : ℕ) → rr.limit ≡ 0 → read_limited rr room ≡ (rr, [], some eof)
unfolding read_limited
read_limited-end rr room h = let e : (rr.limit == 0) ≡ true = ground arith in rw e refl

pub read-skipped :
    (rr : RangeReader) (room : ℕ) → rr.skipped ≡ true → read rr room ≡ read_limited rr room
unfolding read
read-skipped rr room h = rw h refl

read_limited-more :
    (rr : RangeReader) (room : ℕ)
    → 0 < rr.limit
    → read_limited rr room ≡ (
        let res = Block.read rr.r (at_most room rr.limit) in
        (record rr { r = res.0; limit = rr.limit - length res.1 }, res.1, res.2))
unfolding read_limited
read_limited-more rr room h = let e : (rr.limit == 0) ≡ false = ground arith in rw e refl

take-split :
    (xs ys zs : List ℕ) (n : ℕ)
    → xs ≡ ys ++ zs
    → length ys ≤ n
    → ys ++ take (n - length ys) zs ≡ take n xs
take-split xs ys zs n e h = sym (
    ap (take n) e
    ∙ (take_same n (length ys + (n - length ys)) (ys ++ zs) (omega arith)
        ∙ (sym (take-add (length ys) (n - length ys) (ys ++ zs))
            ∙ (ap (λ l. l ++ take (n - length ys) (drop (length ys) (ys ++ zs)))
                  (take-append_length ys zs)
                ∙ ap (λ l. ys ++ take (n - length ys) l) (drop-append_length ys zs)))))

-- What is left to give has been given.
abbrev Given : List ℕ → ℕ → List ℕ → RangeReader × List ℕ → Type 0
Given bytes limit before res =
    (before ++ res.1 ≡ take limit bytes) × (res.0.limit ≡ 0) × (res.0.skipped ≡ true)

pub reads-Ranges :
    (rr : RangeReader) (bytes rooms : List ℕ)
    → Ranges rr bytes
    → All (λ n. 0 < n) rooms
    → rr.limit ≤ length rooms
    → Given bytes rr.limit [] (reads rr rooms)
unfolding reads
reads-Ranges rr bytes [] d h k = (take_same 0 rr.limit bytes (omega arith), omega arith, d.skipped)
reads-Ranges rr bytes (room ∷ rooms) d h k = elim (zero_or_more rr.limit) [
  | inl over ↦
      subst (λ res. Given bytes rr.limit res.1 (reads res.0 rooms))
        (sym (read-skipped rr room d.skipped ∙ read_limited-end rr room over))
        (reads-Ranges rr bytes rooms d h.1 (omega arith))
  | inr some_left ↦
      let asked = at_most_bounds room rr.limit h.0 some_left in
      let r =
        read-ReadOf rr.r bytes (at_most room rr.limit) d.decodes asked.0
          (omega (arith, d.enough)) in
      let res = Block.read rr.r (at_most room rr.limit) in
      let len = ap length r.split ∙ length-append res.1 r.later in
      let next : RangeReader = record rr { r = res.0; limit = rr.limit - length res.1 } in
      let (given, over, still) =
        reads-Ranges next r.later rooms
          (record { skipped = d.skipped; decodes = r.again; enough = omega (arith, d.enough) }) h.1
          (omega (arith, r.progress)) in
      subst (λ res. Given bytes rr.limit res.1 (reads res.0 rooms))
        (sym (read-skipped rr room d.skipped ∙ read_limited-more rr room some_left))
        (
          ap (λ l. res.1 ++ l) given
              ∙ take-split bytes res.1 r.later rr.limit r.split (omega (arith, asked, r.within)),
          over,
          still,
        )
]
