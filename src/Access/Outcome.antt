-- ===== src/Access/Outcome.antt =====
-- How a function of access and api/access ends: with a value, with an error, or with a panic.
use cubefs_blobstore.Base.{ℕ, ◌*◌, ◌^◌, Option, none, some, leb, if◌then◌else◌}

pub data Outcome (A : Type 0) : Type 0 where
  done : A → Outcome A
  refused : Outcome A
  panics : Outcome A

infixl 5 ◌>>=◌
abbrev pub ◌>>=◌ : {A B : Type 0} → Outcome A → (A → Outcome B) → Outcome B
done a >>= f = f a
refused >>= f = refused
panics >>= f = panics

abbrev pub or_refused : {A : Type 0} → Option A → Outcome A
or_refused none = refused
or_refused (some a) = done a

-- The largest allocation of Go on linux/amd64, in bytes.
abbrev pub max_alloc : ℕ
max_alloc = 2 ^ 48

-- make of a slice of `n` elements of `elem_size` bytes, and what follows it.
abbrev pub make : {A : Type 0} → ℕ → ℕ → Outcome A → Outcome A
make elem_size n rest = if leb (n * elem_size) max_alloc then rest else panics
