-- ===== src/Crc32Block/Decoder/Laws.antt =====
-- What the reads of common/crc32block/decode.go give of an encoded stream, put together.
use mathlib.Core.List.{append_assoc}
use cubefs_blobstore.Base.{
  ℕ, zero, suc, ◌+◌, ◌≤◌, ◌<◌, ◌≡◌, refl, sym, ap, subst, ◌∙◌, ◌⊎◌, inl, inr, Bool, true, false,
  Option, none, some, List, [], ◌∷◌, ◌++◌, length, take, drop, ltb, ◌==◌, take-append_length,
  drop-append_length, take_same, drop_same, take_all, take-append_drop, length-take, length-append,
  arith,
}
use cubefs_blobstore.Base.Bytes.{le32, checksum_ieee}
use cubefs_blobstore.Base.Bytes.Laws.{get_le32-le32, checksum_ieee-lt}
use cubefs_blobstore.Crc32Block.{ReadError, eof, block_payload, write_crc}
use cubefs_blobstore.Crc32Block.Stream.{encoded, encoded-next}
use cubefs_blobstore.Crc32Block.Encoder.Laws.{length-write_crc}
use cubefs_blobstore.Crc32Block.Decoder.{
  BlockReader, check, want, got, next_block, copied, copied_unless, read_from, read_unless, read,
}

le_or_lt : (a b : ℕ) → (a ≤ b) ⊎ (b < a)
le_or_lt a b = ground arith

check-write_crc : (payload : List ℕ) → check (write_crc payload) ≡ true
unfolding check write_crc
check-write_crc payload =
    rw (get_le32-le32 (checksum_ieee payload) payload (checksum_ieee-lt payload)) (ground arith)

-- `bytes` are to come: some of them unread, the others in the stream.
pub record Decodes (br : BlockReader) (bytes : List ℕ) : Type 0 where
  pub tail : List ℕ
  pub more : List ℕ
  pub no_err : br.err ≡ none
  pub has_payload : 0 < block_payload br.block_len
  pub block_len : br.block_len ≡ block_payload br.block_len + 4
  pub left : bytes ≡ br.unread ++ tail
  pub remain : br.remain ≡ length bytes
  pub source : br.reader ≡ encoded (block_payload br.block_len) tail ++ more

module _ (br : BlockReader) (bytes : List ℕ) (d : Decodes br bytes) (some_left : 0 < length bytes)
    (empty : br.unread ≡ []) where
  abbrev p : ℕ
  p = block_payload br.block_len

  abbrev block : List ℕ
  block = write_crc (take p bytes)

  abbrev rest : List ℕ
  rest = encoded p (drop p bytes) ++ d.more

  tail-bytes : d.tail ≡ bytes
  tail-bytes = sym (d.left ∙ ap (λ l. l ++ d.tail) empty)

  reader-block : br.reader ≡ block ++ rest
  reader-block =
      d.source
      ∙ (ap (λ l. encoded p l ++ d.more) tail-bytes
          ∙ (ap (λ l. l ++ d.more) (encoded-next p bytes d.has_payload some_left)
              ∙ append_assoc block (encoded p (drop p bytes)) d.more))

  want-block : want br ≡ length block
  unfolding want
  want-block =
      let len = length-write_crc (take p bytes) in
      elim (le_or_lt p br.remain) [
        | inl le ↦
            let full = length-take p bytes (omega (arith, d.remain)) in ground (arith, d.block_len)
        | inr lt ↦
            let short = ap length (take_all p bytes (omega (arith, d.remain))) in
            ground (arith, d.remain)
      ]

  abbrev next : BlockReader
  next = record br { reader = rest; unread = take p bytes }

  next_block-next : next_block br ≡ next
  unfolding next_block check write_crc le32
  next_block-next =
      let len = ap length reader-block ∙ length-append block rest in
      ap (λ (b : Bool). got br b (take (want br) br.reader) (drop (want br) br.reader))
        (let e : ltb (length br.reader) (want br) ≡ false = ground (arith, want-block) in e)
      ∙ (ap (λ (b : List ℕ). got br false b (drop (want br) br.reader))
            (take_same (want br) (length block) br.reader want-block
              ∙ (ap (take (length block)) reader-block ∙ take-append_length block rest))
          ∙ (ap (λ (l : List ℕ). got br false block l)
                (drop_same (want br) (length block) br.reader want-block
                  ∙ (ap (drop (length block)) reader-block ∙ drop-append_length block rest))
              ∙ rw (check-write_crc (take p bytes)) refl))

  next-Decodes : Decodes next bytes
  next-Decodes = record {
    tail = drop p bytes;
    more = d.more;
    no_err = d.no_err;
    has_payload = d.has_payload;
    block_len = d.block_len;
    left = sym (take-append_drop p bytes);
    remain = d.remain;
    source = refl;
  }

length-take_some : (n : ℕ) (xs : List ℕ) → 0 < n → 0 < length xs → 0 < length (take n xs)
length-take_some zero xs h k = absurd (omega arith)
length-take_some (suc n) [] h k = absurd (omega arith)
length-take_some (suc n) (x ∷ xs) h k = omega arith

length-take_le : (n : ℕ) (xs : List ℕ) → length (take n xs) ≤ n
length-take_le zero xs = omega arith
length-take_le (suc n) [] = omega arith
length-take_le (suc n) (x ∷ xs) = omega (arith, length-take_le n xs)

-- `res` gives the first of `bytes`, at least one and at most `room`, and the others are to come.
pub record ReadOf (bytes : List ℕ) (room : ℕ) (res : BlockReader × List ℕ × Option ReadError)
    : Type 0 where
  pub later : List ℕ
  pub split : bytes ≡ res.1 ++ later
  pub again : Decodes res.0 later
  pub progress : 0 < length res.1
  pub within : length res.1 ≤ room
  pub no_error : res.2 ≡ none

module _ (br : BlockReader) (bytes : List ℕ) (room : ℕ) (d : Decodes br bytes)
    (asked : 0 < room) where
  copied-ReadOf : 0 < length br.unread → ReadOf bytes room (copied br room)
  copied-ReadOf h =
      let out = take room br.unread in
      let parts = take-append_drop room br.unread in
      let len = ap length (sym parts) ∙ length-append out (drop room br.unread) in
      let len_left = ap length d.left ∙ length-append br.unread d.tail in
      let len_later = length-append (drop room br.unread) d.tail in
      record {
        later = drop room br.unread ++ d.tail;
        split =
            d.left
            ∙ (ap (λ l. l ++ d.tail) (sym parts) ∙ append_assoc out (drop room br.unread) d.tail);
        again = record {
          tail = d.tail;
          more = d.more;
          no_err = d.no_err;
          has_payload = d.has_payload;
          block_len = d.block_len;
          left = refl;
          remain = omega (arith, d.remain);
          source = d.source;
        };
        progress = length-take_some room br.unread asked h;
        within = length-take_le room br.unread;
        no_error = refl;
      }

module _ (br : BlockReader) (bytes : List ℕ) (room : ℕ) (d : Decodes br bytes) (asked : 0 < room)
    (some_left : 0 < length bytes) where
  filled-ReadOf :
      br.unread ≡ [] → ReadOf bytes room (copied_unless (next_block br).err (next_block br) room)
  filled-ReadOf empty =
      let n = next br bytes d some_left empty in
      let there = next-Decodes br bytes d some_left empty in
      subst (λ (b : BlockReader). ReadOf bytes room (copied_unless b.err b room))
        (sym (next_block-next br bytes d some_left empty))
        (subst (λ e. ReadOf bytes room (copied_unless e n room)) (sym d.no_err)
          (copied-ReadOf n bytes room there asked
            (length-take_some (block_payload br.block_len) bytes d.has_payload some_left)))

  read_from-ReadOf : (u : List ℕ) → br.unread ≡ u → ReadOf bytes room (read_from u br room)
  read_from-ReadOf (b ∷ u) e = copied-ReadOf br bytes room d asked (rw e (omega arith))
  read_from-ReadOf [] e =
      let more : (br.remain == 0) ≡ false = ground (arith, d.remain) in rw more (filled-ReadOf e)

  pub read-ReadOf : ReadOf bytes room (read br room)
  unfolding read
  read-ReadOf =
      subst (λ e. ReadOf bytes room (read_unless e br room)) (sym d.no_err)
        (read_from-ReadOf br.unread refl)

module _ (br : BlockReader) (d : Decodes br []) (room : ℕ) where
  unread_none : (u : List ℕ) → br.unread ≡ u → read_from u br room ≡ (br, [], some eof)
  unread_none [] e = let over : (br.remain == 0) ≡ true = ground (arith, d.remain) in rw over refl
  unread_none (b ∷ u) e =
      let len =
        ap length d.left
        ∙ (length-append br.unread d.tail ∙ ap (λ l. length l + length d.tail) e) in
      absurd (omega arith)

  pub read_done : read br room ≡ (br, [], some eof)
  unfolding read
  read_done = ap (λ e. read_unless e br room) d.no_err ∙ unread_none br.unread refl
