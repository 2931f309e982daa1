-- ===== src/Clustermgr/Token.antt =====
-- clustermgr/volumemgr/proto.go: the token that a host holds a volume by, `host;vid`. strings.Split,
-- strconv.FormatUint and strconv.ParseUint of the standard library are written out for the arguments that
-- they get here.
mod Laws
mod Tests
use Prim.Native.Char.{Char, code}
use Prim.Native.String.{String, char_at, ◌++◌ as str_append, [] as empty, ◌∷◌ as char_cons}
use cubefs_blobstore.Base.{
  ℕ, zero, suc, ◌+◌, ◌-◌, ◌*◌, ◌/◌, ◌%◌, ◌^◌, Bool, true, false, ◌&&◌, Option, none, some, List, [],
  ◌∷◌, leb, ltb, ◌==◌, if◌then◌else◌, ◌>>=◌,
}

-- ';'
abbrev pub semicolon : ℕ
semicolon = 59

abbrev pub prepend : Char → List String → List String
prepend c [] = char_cons c empty ∷ []
prepend c (s ∷ parts) = char_cons c s ∷ parts

-- strings.Split(token, ";")
unfoldable pub split : String → List String
split empty = empty ∷ []
split (char_cons c s) =
    let parts = split s in if code c == semicolon then empty ∷ parts else prepend c parts

-- The character of a digit.
abbrev pub digit : ℕ → Char
digit d = char_at "0123456789" d

-- The decimal digits of a number in front of a text; the fuel is above the number.
unfoldable pub digits_before : ℕ → ℕ → String → String
digits_before zero n s = s
digits_before (suc fuel) n s =
    let rest = digits_before fuel (n / 10) (char_cons (digit (n % 10)) s) in
    if ltb n 10 then char_cons (digit n) s else rest

-- strconv.FormatUint(n, 10)
unfoldable pub format_uint : ℕ → String
format_uint n = digits_before (suc n) n empty

abbrev pub max_uint32 : ℕ
max_uint32 = 4294967295

-- The digits read so far and the rest of the text. A character that is no digit is an error, and so is a
-- number above the bound.
unfoldable pub parse_from : ℕ → String → Option ℕ
parse_from n empty = some n
parse_from n (char_cons c s) =
    let m = n * 10 + (code c - 48) in
    let rest = parse_from m s in
    if leb 48 (code c) && leb (code c) 57 then (if leb m max_uint32 then rest else none) else none

-- strconv.ParseUint(s, 10, 32)
unfoldable pub parse_uint32 : String → Option ℕ
parse_uint32 empty = none
parse_uint32 (char_cons c s) = parse_from 0 (char_cons c s)

unfoldable pub encode_token : String → ℕ → String
encode_token host vid = str_append host (str_append ";" (format_uint vid))

abbrev pub decode_parts : List String → Option (String × ℕ)
decode_parts (host ∷ vid ∷ []) = parse_uint32 vid >>= λ n. some (host, n)
decode_parts _ = none

-- `none` is an error.
unfoldable pub decode_token : String → Option (String × ℕ)
decode_token token = decode_parts (split token)
