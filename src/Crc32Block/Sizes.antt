-- ===== src/Crc32Block/Sizes.antt =====
-- EncodeSize and DecodeSize of common/crc32block/util.go are inverse to one another on encoded sizes, and
-- EncodeSize is the length of the stream.
use native.Mathlib.Nat.{add-div_right, div-eq_of_lt}
use cubefs_blobstore.Base.{
  ℕ, zero, suc, ◌+◌, ◌-◌, ◌*◌, ◌/◌, ◌≤◌, ◌<◌, ◌≡◌, sym, ap, ◌∙◌, ◌⊎◌, inl, inr, true, some, List,
  [], ◌∷◌, length, take, drop, length-take, length-drop, length-append, take_all, arith,
}
use cubefs_blobstore.Base.Int.{pos, diff, diff-add}
use cubefs_blobstore.Crc32Block.{
  is_valid_block_len, block_payload, encode_size, decode_size, write_crc,
}
use cubefs_blobstore.Crc32Block.Stream.{blocks, encoded}
use cubefs_blobstore.Crc32Block.Encoder.Laws.{length-write_crc}

le_or_lt : (a b : ℕ) → (a ≤ b) ⊎ (b < a)
le_or_lt a b = ground arith

-- The number of blocks of `n` bytes.
abbrev pub block_cnt : ℕ → ℕ → ℕ
block_cnt payload n = (n + (payload - 1)) / payload

module _ (p : ℕ) (positive : 0 < p) where
  block_cnt-zero : block_cnt p 0 ≡ 0
  block_cnt-zero = div-eq_of_lt (let l : 0 + (p - 1) < p = omega arith in l)

  block_cnt_one : (n : ℕ) → 0 < n → n ≤ p → block_cnt p n ≡ 1
  block_cnt_one n h k =
      ap (λ m. m / p) (let e : n + (p - 1) ≡ (n - 1) + p = omega arith in e)
      ∙ (add-div_right (n - 1) positive
          ∙ ap (λ q. q + 1) (div-eq_of_lt (let l : n - 1 < p = omega arith in l)))

  block_cnt_more : (n : ℕ) → p < n → block_cnt p n ≡ block_cnt p (n - p) + 1
  block_cnt_more n h =
      ap (λ m. m / p) (let e : n + (p - 1) ≡ (n - p + (p - 1)) + p = omega arith in e)
      ∙ add-div_right (n - p + (p - 1)) positive

  length-block :
      (f : ℕ) (bytes : List ℕ)
      → length bytes ≤ f
      → length (blocks f p bytes) ≡ length bytes + 4 * block_cnt p (length bytes)
  unfolding blocks
  length-block zero [] h = omega (arith, block_cnt-zero)
  length-block zero (x ∷ bytes) h = absurd (omega arith)
  length-block (suc f) [] h = omega (arith, block_cnt-zero)
  length-block (suc f) (x ∷ bytes) h =
      let xs = x ∷ bytes in
      let front = length-write_crc (take p xs) in
      let both = length-append (write_crc (take p xs)) (blocks f p (drop p xs)) in
      let shorter = length-drop p xs in
      let rest = length-block f (drop p xs) (omega arith) in
      elim (le_or_lt (length xs) p) [
        | inl le ↦
            let one = block_cnt_one (length xs) (omega arith) le in
            let whole = ap length (take_all p xs le) in
            let none_left : block_cnt p (length (drop p xs)) ≡ 0 =
              ap (block_cnt p) (let e : length (drop p xs) ≡ 0 = omega arith in e)
              ∙ block_cnt-zero in
            omega arith
        | inr lt ↦
            let more = block_cnt_more (length xs) lt in
            let cut = length-take p xs (omega arith) in
            let rest_cnt = ap (block_cnt p) shorter in omega arith
      ]

module _ (p : ℕ) (positive : 0 < p) where
  block_cnt-encoded_short :
      (n m : ℕ) → n ≤ p → m ≡ n + 4 * block_cnt p n → block_cnt (p + 4) m ≡ block_cnt p n
  block_cnt-encoded_short n m le e =
      let long : 0 < p + 4 = omega arith in
      elim (le_or_lt n 0) [
        | inl empty ↦
            let no_block =
              ap (block_cnt p) (let z : n ≡ 0 = omega arith in z) ∙ block_cnt-zero p positive in
            ap (block_cnt (p + 4)) (let z : m ≡ 0 = omega arith in z)
            ∙ (block_cnt-zero (p + 4) long ∙ sym no_block)
        | inr some_left ↦
            let one = block_cnt_one p positive n some_left le in
            block_cnt_one (p + 4) long m (omega arith) (omega arith) ∙ sym one
      ]

  -- Each block of the stream is longer by a checksum, so there are as many blocks of it.
  block_cnt-encoded :
      (f n m : ℕ) → n ≤ f → m ≡ n + 4 * block_cnt p n → block_cnt (p + 4) m ≡ block_cnt p n
  block_cnt-encoded zero n m h e = block_cnt-encoded_short n m (omega arith) e
  block_cnt-encoded (suc f) n m h e = elim (le_or_lt n p) [
    | inl le ↦ block_cnt-encoded_short n m le e
    | inr lt ↦
        let long : 0 < p + 4 = omega arith in
        let more = block_cnt_more p positive n lt in
        block_cnt_more (p + 4) long m (omega arith)
        ∙ (ap (λ q. q + 1) (block_cnt-encoded f (n - p) (m - (p + 4)) (omega arith) (omega arith))
            ∙ sym more)
  ]

pub valid_bounds : (block_len : ℕ) → is_valid_block_len block_len ≡ true → 4096 ≤ block_len
unfolding is_valid_block_len
valid_bounds block_len h = ground arith

-- The stream of some bytes has the length that EncodeSize gives, and DecodeSize gives back their number.
pub length-encoded :
    (block_len : ℕ) (bytes : List ℕ)
    → is_valid_block_len block_len ≡ true
    → (encode_size (length bytes) block_len
        ≡ some (length (encoded (block_payload block_len) bytes)))
      × (decode_size (length (encoded (block_payload block_len) bytes)) block_len
          ≡ some (pos (length bytes)))
unfolding encode_size decode_size encoded block_payload
length-encoded block_len bytes h =
    let big = valid_bounds block_len h in
    let p = block_len - 4 in
    let positive : 0 < p = omega arith in
    let len = length-block p positive (length bytes) bytes (omega arith) in
    let cnt = block_cnt-encoded p positive (length bytes) (length bytes) _ (omega arith) len in
    let back =
      ap (λ b. block_cnt b (length (blocks (length bytes) p bytes)))
        (let z : block_len ≡ p + 4 = omega arith in z)
      ∙ cnt in
    let total = length (blocks (length bytes) p bytes) in
    let c = block_cnt block_len total in
    let sum : total ≡ length bytes + 4 * c = omega (arith, len, back) in
    (
      rw h (ap some (sym len)),
      rw h (ap some (ap (λ n. diff n (4 * c)) sum ∙ diff-add (length bytes) (4 * c))),
    )
