-- ===== src/Base/Partial.antt =====
-- Chains of steps that may fail: `none` is an error value or a panic, as each use says.
use Prim.Native.Nat.{ℕ, zero, suc, ◌/◌}
use mathlib.Core.Path.{◌≡◌, refl, ap}
use mathlib.Core.Option.{Option, none, some}
use mathlib.Core.Logic.{◌≢◌}

infixl 5 ◌>>=◌
abbrev pub ◌>>=◌ {ℓ κ} : {A : Type ℓ} {B : Type κ} → Option A → (A → Option B) → Option B
none >>= f = none
some a >>= f = f a

-- Integer division panics on a zero divisor.
abbrev pub div? : ℕ → ℕ → Option ℕ
div? a zero = none
div? a (suc b) = some (a / suc b)

pub div?_pos : (a b : ℕ) → b ≢ 0 → div? a b ≡ some (a / b)
div?_pos a zero h = absurd (h refl)
div?_pos a (suc b) h = refl

-- A chain that succeeds has a first step that does.
pub bind_some {ℓ κ} :
    {A : Type ℓ} {B : Type κ} (o : Option A) (f : A → Option B) (b : B)
    → (o >>= f) ≡ some b
    → (a : A) × (o ≡ some a) × (f a ≡ some b)
bind_some none f b h = absurd (cc)
bind_some (some a) f b h = (a, refl, h)

pub some_inj {ℓ} : {A : Type ℓ} (a b : A) → some a ≡ some b → a ≡ b
some_inj a b p = ap (λ o. elim o [ none ↦ a | some x ↦ x ]) p
