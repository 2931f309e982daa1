-- ===== src/Base/Refs.antt =====
-- Pointers: lists of references, and a store that a reference points into.
use Prim.Native.Nat.{ℕ, ◌+◌}
use mathlib.Core.Path.{◌≡◌, refl, sym}
use mathlib.Core.Logic.{◌≢◌, inl, inr}
use mathlib.Core.List.{List, [], ◌∷◌, ◌++◌}
use native.Mathlib.Omega.{arith}
use cubefs_blobstore.Base.Tests.{if◌then◌else◌, ◌==◌}
use cubefs_blobstore.Base.Lists.{length, In, In-append}

-- A write through the reference `a`.
abbrev pub update {ℓ} : {A : Type ℓ} → (ℕ → A) → ℕ → A → ℕ → A
update f a v x = if a == x then v else f x

pub update_self {ℓ} : {A : Type ℓ} (f : ℕ → A) (a : ℕ) (v : A) → update f a v a ≡ v
update_self f a v = ground arith

pub update_ne {ℓ} : {A : Type ℓ} (f : ℕ → A) (a x : ℕ) (v : A) → a ≢ x → update f a v x ≡ f x
update_ne f a x v h = ground arith

-- list.Remove: the element leaves the list that it stands in.
unfoldable pub unlink : ℕ → List ℕ → List ℕ
unlink e [] = []
unlink e (x ∷ xs) = if x == e then unlink e xs else x ∷ unlink e xs

abbrev pub Distinct : List ℕ → Type 0
Distinct [] = Unit
Distinct (x ∷ xs) = (¬ In x xs) × Distinct xs

pub In-unlink : (e x : ℕ) (xs : List ℕ) → In x (unlink e xs) → In x xs × (x ≢ e)
unfolding unlink
In-unlink e x [] h = absurd h
In-unlink e x (y ∷ ys) h = ground (arith, In-unlink e x ys)

pub unlink-In : (e x : ℕ) (xs : List ℕ) → In x xs → x ≢ e → In x (unlink e xs)
unfolding unlink
unlink-In e x [] h n = absurd h
unlink-In e x (y ∷ ys) h n = ground (arith, unlink-In e x ys)

pub unlink-Distinct : (e : ℕ) (xs : List ℕ) → Distinct xs → Distinct (unlink e xs)
unfolding unlink
unlink-Distinct e [] d = tt
unlink-Distinct e (y ∷ ys) d = ground (arith, unlink-Distinct e ys, In-unlink e y ys)

pub unlink_absent : (e : ℕ) (xs : List ℕ) → (¬ In e xs) → unlink e xs ≡ xs
unfolding unlink
unlink_absent e [] n = refl
unlink_absent e (y ∷ ys) n = ground (arith, unlink_absent e ys)

pub length-unlink :
    (e : ℕ) (xs : List ℕ) → Distinct xs → In e xs → length (unlink e xs) + 1 ≡ length xs
unfolding unlink
length-unlink e [] d h = absurd h
length-unlink e (y ∷ ys) d h = ground (arith, length-unlink e ys, unlink_absent e ys)

pub append-Distinct : (e : ℕ) (xs : List ℕ) → Distinct xs → (¬ In e xs) → Distinct (xs ++ e ∷ [])
append-Distinct e [] d n = (λ h. h, tt)
append-Distinct e (y ∷ ys) d n = (
  λ h. elim (In-append y ys (e ∷ []) h) [
    | inl l ↦ d.0 l
    | inr (inl p) ↦ n (inl (sym p))
    | inr (inr r) ↦ r
  ],
  append-Distinct e ys d.1 (λ h. n (inr h)),
)
