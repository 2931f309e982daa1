-- ===== src/Crc32Block/Encoder/Laws.antt =====
-- What the reads of common/crc32block/encode.go give, put together.
use mathlib.Core.List.{append-nil, append_assoc}
use cubefs_blobstore.Base.{
  ℕ, zero, suc, ◌+◌, ◌-◌, ◌≤◌, ◌<◌, ◌≡◌, refl, sym, ap, subst, ◌∙◌, ◌⊎◌, inl, inr, Option, none,
  some, List, [], ◌∷◌, ◌++◌, length, take, drop, ltb, ◌==◌, Bool-cases, ltb→lt, length-take,
  length-drop, length-append, take-take_le, drop-take, take-append, drop-append, arith,
}
use cubefs_blobstore.Base.Bytes.{le32}
use cubefs_blobstore.Crc32Block.{ReadError, eof, block_payload, write_crc}
use cubefs_blobstore.Crc32Block.Stream.{blocks, encoded, encoded-next, encoded-last}
use cubefs_blobstore.Crc32Block.Encoder.{
  LimitEncoder, need, next_block, Filled, ready, at_end, failed, filled, refill, fill, read_loop,
  read_unless, read,
}

-- The bytes that are still to come.
abbrev pub pending : LimitEncoder → List ℕ
pending r = r.unread ++ encoded (block_payload r.block_len) (take r.remain r.reader)

-- No error is kept, and the reader has the bytes that it has to give.
pub record Good (r : LimitEncoder) : Type 0 where
  pub no_err : r.err ≡ none
  pub has_payload : 0 < block_payload r.block_len
  pub enough : r.remain ≤ length r.reader

need_cases :
    (r : LimitEncoder)
    → ((need r ≡ r.remain) × (r.remain < block_payload r.block_len))
      ⊎ ((need r ≡ block_payload r.block_len) × (block_payload r.block_len ≤ r.remain))
unfolding need
need_cases r = ground arith

pub length-write_crc : (payload : List ℕ) → length (write_crc payload) ≡ 4 + length payload
unfolding write_crc le32
length-write_crc payload = omega arith

encoded-none : (p n : ℕ) (xs : List ℕ) → n ≡ 0 → encoded p (take n xs) ≡ []
unfolding encoded blocks
encoded-none p n xs h = rw h refl

-- The block that comes next, and the rest.
encoded-need :
    (r : LimitEncoder)
    → Good r
    → 0 < r.remain
    → encoded (block_payload r.block_len) (take r.remain r.reader)
      ≡ write_crc (take (need r) r.reader)
        ++ encoded (block_payload r.block_len) (take (r.remain - need r) (drop (need r) r.reader))
encoded-need r g h =
    let p = block_payload r.block_len in
    let l = length-take r.remain r.reader g.enough in
    elim (need_cases r) [
      | inr (e, le) ↦
          encoded-next p (take r.remain r.reader) g.has_payload (omega arith)
          ∙ (ap (λ l. write_crc l ++ encoded p (drop p (take r.remain r.reader)))
                (take-take_le p r.remain r.reader le)
              ∙ (ap (λ l. write_crc (take p r.reader) ++ encoded p l)
                    (drop-take p r.remain r.reader)
                  ∙ ap
                      (λ n.
                        write_crc (take n r.reader)
                        ++ encoded p (take (r.remain - n) (drop n r.reader)))
                      (sym e)))
      | inl (e, lt) ↦
          encoded-last p (take r.remain r.reader) g.has_payload (omega arith) (omega arith)
          ∙ (ap (λ l. write_crc (take r.remain r.reader) ++ l)
                (sym (encoded-none p (r.remain - r.remain) (drop r.remain r.reader) (omega arith)))
              ∙ ap
                  (λ n.
                    write_crc (take n r.reader)
                    ++ encoded p (take (r.remain - n) (drop n r.reader)))
                  (sym e))
    ]

abbrev FillSpec : LimitEncoder → Filled → Type 0
FillSpec r (ready r') = Good r' × (pending r' ≡ pending r) × (0 < length r'.unread)
FillSpec r at_end = pending r ≡ []
FillSpec r (failed r' e) = ⊥

next_block-FillSpec :
    (r : LimitEncoder) → Good r → 0 < r.remain → r.unread ≡ [] → FillSpec r (filled (next_block r))
unfolding next_block
next_block-FillSpec r g h u = elim (Bool-cases (ltb (length r.reader) (need r))) [
  | inl short ↦
      let lt = ltb→lt (length r.reader) (need r) short in
      let n = need_cases r in absurd (ground arith)
  | inr full ↦ rw full (
    record {
      no_err = g.no_err;
      has_payload = g.has_payload;
      enough = omega (arith, length-drop (need r) r.reader, g.enough);
    },
    sym (encoded-need r g h)
        ∙ ap (λ l. l ++ encoded (block_payload r.block_len) (take r.remain r.reader)) (sym u),
    omega (arith, length-write_crc (take (need r) r.reader)),
  )
]

refill-FillSpec :
    (r : LimitEncoder) (unread : List ℕ) → Good r → r.unread ≡ unread → FillSpec r (refill r unread)
refill-FillSpec r (b ∷ unread) g u = (g, refl, rw u (omega arith))
refill-FillSpec r [] g u = elim (Bool-cases (r.remain == 0)) [
  | inl e ↦ rw e (rw u (encoded-none (block_payload r.block_len) r.remain r.reader (ground arith)))
  | inr e ↦ rw e (next_block-FillSpec r g (ground arith) u)
]

fill-FillSpec : (r : LimitEncoder) → Good r → FillSpec r (fill r)
unfolding fill
fill-FillSpec r g = refill-FillSpec r r.unread g refl

-- `res` has read on from `out`: as many bytes as asked for, as far as there are any.
pub record ReadsOn (r : LimitEncoder) (room : ℕ) (out : List ℕ)
    (res : LimitEncoder × List ℕ × Option ReadError) : Type 0 where
  pub good : Good res.0
  pub given : res.1 ≡ out ++ take room (pending r)
  pub left : pending res.0 ≡ drop room (pending r)
  pub full : room ≤ length (pending r) → res.2 ≡ none
  pub short : length (pending r) < room → res.2 ≡ some eof

module _ (f : ℕ) (r r' : LimitEncoder) (room : ℕ) (out : List ℕ) (g : Good r')
    (same : pending r' ≡ pending r) where
  abbrev copied : LimitEncoder
  copied = record r' { unread = drop room r'.unread }

  abbrev copied_loop : LimitEncoder × List ℕ × Option ReadError
  copied_loop = read_loop f copied (room - length r'.unread) (out ++ take room r'.unread)

  copied-Good : Good copied
  copied-Good = record { no_err = g.no_err; has_payload = g.has_payload; enough = g.enough }

  copied-ReadsOn :
      ReadsOn copied (room - length r'.unread) (out ++ take room r'.unread) copied_loop
      → ReadsOn r room out copied_loop
  copied-ReadsOn i =
      let ahead = encoded (block_payload r'.block_len) (take r'.remain r'.reader) in
      let len : length (pending r) ≡ length r'.unread + length ahead =
        ap length (sym same) ∙ length-append r'.unread ahead in
      let len' = length-append (drop room r'.unread) ahead in
      let dropped = length-drop room r'.unread in
      record {
        good = i.good;
        given =
            i.given
            ∙ (append_assoc out (take room r'.unread) _
                ∙ ap (λ l. out ++ l)
                    (sym (take-append room r'.unread ahead) ∙ ap (take room) same));
        left = i.left ∙ (sym (drop-append room r'.unread ahead) ∙ ap (drop room) same);
        full = λ h. i.full (omega arith);
        short = λ h. i.short (omega arith);
      }

stays-ReadsOn : (r : LimitEncoder) (out : List ℕ) → Good r → ReadsOn r 0 out (r, out, none)
stays-ReadsOn r out g = record {
  good = g;
  given = sym (append-nil out);
  left = refl;
  full = λ h. refl;
  short = λ h. absurd (omega arith);
}

ends-ReadsOn :
    (r : LimitEncoder) (room : ℕ) (out : List ℕ)
    → Good r
    → pending r ≡ []
    → ReadsOn r (suc room) out (r, out, some eof)
ends-ReadsOn r room out g e = record {
  good = g;
  given = sym (append-nil out) ∙ ap (λ l. out ++ take (suc room) l) (sym e);
  left = e ∙ ap (drop (suc room)) (sym e);
  full = λ h. let l : length (pending r) ≡ 0 = ap length e in absurd (omega arith);
  short = λ h. refl;
}

pass-ReadsOn :
    (f : ℕ) (r : LimitEncoder) (room : ℕ) (out : List ℕ) (fl : Filled)
    → Good r
    → room ≤ f
    → fill r ≡ fl
    → FillSpec r fl
    → ((r' : LimitEncoder) (room' : ℕ) (out' : List ℕ)
        → Good r'
        → room' ≤ f
        → ReadsOn r' room' out' (read_loop f r' room' out'))
    → ReadsOn r (suc room) out (read_loop (suc f) r (suc room) out)
unfolding read_loop
pass-ReadsOn f r room out (ready r') g h e (g', same, some_unread) again =
    rw (read_loop, e)
      (copied-ReadsOn f r r' (suc room) out g' same (
        again (copied f r r' (suc room) out g' same) (suc room - length r'.unread)
          (out ++ take (suc room) r'.unread) (copied-Good f r r' (suc room) out g' same)
          (omega arith)))
pass-ReadsOn f r room out at_end g h e none_left again =
    rw (read_loop, e) (ends-ReadsOn r room out g none_left)
pass-ReadsOn f r room out (failed r' err) g h e impossible again = absurd impossible

read_loop-ReadsOn :
    (f : ℕ) (r : LimitEncoder) (room : ℕ) (out : List ℕ)
    → Good r
    → room ≤ f
    → ReadsOn r room out (read_loop f r room out)
unfolding read_loop
read_loop-ReadsOn zero r zero out g h = stays-ReadsOn r out g
read_loop-ReadsOn (suc f) r zero out g h = stays-ReadsOn r out g
read_loop-ReadsOn zero r (suc room) out g h = absurd (omega arith)
read_loop-ReadsOn (suc f) r (suc room) out g h =
    pass-ReadsOn f r room out (fill r) g (omega arith) refl (fill-FillSpec r g)
      (λ r' room' out' g' h'. read_loop-ReadsOn f r' room' out' g' h')

pub read-ReadsOn : (r : LimitEncoder) (room : ℕ) → Good r → ReadsOn r room [] (read r room)
unfolding read
read-ReadsOn r room g =
    subst (λ e. ReadsOn r room [] (read_unless e r room)) (sym g.no_err)
      (read_loop-ReadsOn room r room [] g (omega arith))
