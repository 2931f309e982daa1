-- ===== src/Clustermgr/Token/Laws.antt =====
-- Tokens of clustermgr/volumemgr/proto.go are read back as they were made.
use Prim.Native.Char.{Char, code}
use Prim.Native.String.{String, char_at, ◌++◌ as str_append, [] as empty, ◌∷◌ as char_cons}
use text.Mathlib.TextLemmas.{nil-append, cons-append}
use cubefs_blobstore.Base.{
  ℕ, zero, suc, ◌+◌, ◌*◌, ◌/◌, ◌%◌, ◌≤◌, ◌<◌, ◌≡◌, ◌≢◌, ◌⊎◌, inl, inr, refl, ap, ◌∙◌, Option, none,
  some, List, [], ◌∷◌, ◌++◌, ltb, ◌==◌, ◌>>=◌, Bool-cases, arith,
}
use cubefs_blobstore.Clustermgr.Token.{
  semicolon, prepend, split, digit, digits_before, format_uint, max_uint32, parse_from,
  parse_uint32, encode_token, decode_parts, decode_token,
}

abbrev pub HasSemicolon : String → Type 0
HasSemicolon empty = ⊥
HasSemicolon (char_cons c s) = (code c ≡ semicolon) ⊎ HasSemicolon s

code-digit : (d : ℕ) → d < 10 → code (digit d) ≡ 48 + d
code-digit zero h = refl
code-digit (suc zero) h = refl
code-digit (suc (suc zero)) h = refl
code-digit (suc (suc (suc zero))) h = refl
code-digit (suc (suc (suc (suc zero)))) h = refl
code-digit (suc (suc (suc (suc (suc zero))))) h = refl
code-digit (suc (suc (suc (suc (suc (suc zero)))))) h = refl
code-digit (suc (suc (suc (suc (suc (suc (suc zero))))))) h = refl
code-digit (suc (suc (suc (suc (suc (suc (suc (suc zero)))))))) h = refl
code-digit (suc (suc (suc (suc (suc (suc (suc (suc (suc zero))))))))) h = refl
code-digit (suc (suc (suc (suc (suc (suc (suc (suc (suc (suc d)))))))))) h = absurd (omega arith)

-- One more digit.
parse_from-digit :
    (n d : ℕ) (s : String)
    → d < 10
    → n * 10 + d ≤ max_uint32
    → parse_from n (char_cons (digit d) s) ≡ parse_from (n * 10 + d) s
unfolding parse_from
parse_from-digit n d s h bound = ground (arith, code-digit d h)

parse_from-digits_before :
    (fuel n : ℕ) (s : String)
    → n < fuel
    → n ≤ max_uint32
    → parse_from 0 (digits_before fuel n s) ≡ parse_from n s
unfolding digits_before
parse_from-digits_before zero n s h bound = absurd (omega arith)
parse_from-digits_before (suc fuel) n s h bound = elim (Bool-cases (ltb n 10)) [
  | inl small ↦
      rw small (
        parse_from-digit 0 n s (ground arith) (omega arith)
        ∙ ap (λ k. parse_from k s) (omega arith))
  | inr big ↦
      let below : n / 10 < fuel = ground arith in
      let whole : n / 10 * 10 + n % 10 ≡ n = omega arith in
      rw big (
        parse_from-digits_before fuel (n / 10) (char_cons (digit (n % 10)) s) below (omega arith)
        ∙ (parse_from-digit (n / 10) (n % 10) s (omega arith) (omega arith)
            ∙ ap (λ k. parse_from k s) whole))
]

parse_uint32-digits_before :
    (fuel n : ℕ) (s : String)
    → n < fuel
    → parse_uint32 (digits_before fuel n s) ≡ parse_from 0 (digits_before fuel n s)
unfolding digits_before parse_uint32
parse_uint32-digits_before zero n s h = absurd (omega arith)
parse_uint32-digits_before (suc fuel) n s h = elim (Bool-cases (ltb n 10)) [
  | inl small ↦ rw small refl
  | inr big ↦ rw big (parse_uint32-digits_before fuel (n / 10) _ (ground arith))
]

parse_uint32-format_uint : (n : ℕ) → n ≤ max_uint32 → parse_uint32 (format_uint n) ≡ some n
unfolding format_uint parse_from
parse_uint32-format_uint n bound =
    parse_uint32-digits_before (suc n) n empty (omega arith)
    ∙ parse_from-digits_before (suc n) n empty (omega arith) bound

digits_before-HasSemicolon :
    (fuel n : ℕ) (s : String) → HasSemicolon (digits_before fuel n s) → HasSemicolon s
unfolding digits_before
digits_before-HasSemicolon zero n s h = h
digits_before-HasSemicolon (suc fuel) n s h = elim (Bool-cases (ltb n 10)) [
  | inl small ↦ ground (arith, code-digit n)
  | inr big ↦ ground (
    arith,
    code-digit (n % 10),
    digits_before-HasSemicolon fuel (n / 10) (char_cons (digit (n % 10)) s),
  )
]

prepend_nonempty : (c : Char) (parts : List String) → prepend c parts ≢ []
prepend_nonempty c [] h = cc
prepend_nonempty c (s ∷ parts) h = cc

split_nonempty : (s : String) → split s ≢ []
unfolding split
split_nonempty empty h = cc
split_nonempty (char_cons c s) h = elim (Bool-cases (code c == semicolon)) [
  | inl hit ↦ ground arith
  | inr miss ↦ prepend_nonempty c (split s) (ground arith)
]

prepend-append : (c : Char) (a b : List String) → a ≢ [] → prepend c (a ++ b) ≡ prepend c a ++ b
prepend-append c [] b h = absurd (h refl)
prepend-append c (s ∷ a) b h = refl

split-append :
    (a b : String) (c : Char)
    → code c ≡ semicolon
    → split (str_append a (char_cons c b)) ≡ split a ++ split b
unfolding split
split-append empty b c h = ground (arith, nil-append (char_cons c b))
split-append (char_cons x a) b c h = ground (
  arith,
  cons-append x a (char_cons c b),
  split-append a b c h,
  prepend-append x (split a) (split b) (split_nonempty a),
)

split_whole : (s : String) → (¬ HasSemicolon s) → split s ≡ s ∷ []
unfolding split
split_whole empty h = refl
split_whole (char_cons c s) h = ground (arith, split_whole s)

-- Two parts are read back; with more the token is refused.
decode_parts-many :
    (parts : List String) (s : String)
    → parts ≢ []
    → (x : String) → decode_parts (x ∷ parts ++ s ∷ []) ≡ none
decode_parts-many [] s h x = absurd (h refl)
decode_parts-many (y ∷ []) s h x = refl
decode_parts-many (y ∷ z ∷ parts) s h x = refl

split_semicolon :
    (s : String)
    → HasSemicolon s
    → (x : String) × (parts : List String) × (split s ≡ x ∷ parts) × (parts ≢ [])
unfolding split
split_semicolon empty h = absurd h
split_semicolon (char_cons c s) h = elim (Bool-cases (code c == semicolon)) [
  | inl hit ↦ (empty, split s, rw hit refl, split_nonempty s)
  | inr miss ↦
      let (x, parts, e, n) = split_semicolon s (ground arith) in
      (char_cons c x, parts, rw (miss, e) refl, n)
]

split-encode_token :
    (host : String) (vid : ℕ) → split (encode_token host vid) ≡ split host ++ format_uint vid ∷ []
unfolding encode_token split
split-encode_token host vid =
    let digits_only : ¬ HasSemicolon (format_uint vid) =
      unfold format_uint in digits_before-HasSemicolon (suc vid) vid empty in
    ap (λ (t : String). split (str_append host t))
      (cons-append (char_at ";" 0) empty (format_uint vid)
        ∙ ap (char_cons (char_at ";" 0)) (nil-append (format_uint vid)))
    ∙ (split-append host (format_uint vid) (char_at ";" 0) refl
        ∙ ap (λ (l : List String). split host ++ l) (split_whole (format_uint vid) digits_only))

-- A token made of a host and a uint32 volume id is decoded to that host and that id when the host has no
-- semicolon. When it has one, the token is refused.
pub decode_token-encode_token :
    (host : String) (vid : ℕ)
    → vid ≤ max_uint32
    → ((¬ HasSemicolon host) → decode_token (encode_token host vid) ≡ some (host, vid))
      × (HasSemicolon host → decode_token (encode_token host vid) ≡ none)
unfolding decode_token
decode_token-encode_token host vid bound = (
  λ plain.
      ap decode_parts (
        split-encode_token host vid
        ∙ ap (λ (l : List String). l ++ format_uint vid ∷ []) (split_whole host plain))
      ∙ ap (λ (o : Option ℕ). o >>= λ n. some (host, n)) (parse_uint32-format_uint vid bound),
  λ marked.
      let (x, parts, e, n) = split_semicolon host marked in
      ap decode_parts
        (split-encode_token host vid ∙ ap (λ (l : List String). l ++ format_uint vid ∷ []) e)
      ∙ decode_parts-many parts (format_uint vid) n x,
)
