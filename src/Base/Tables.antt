-- ===== src/Base/Tables.antt =====
-- Constant tables as maps: a table with distinct keys and its inverse.
use mathlib.Core.Path.{◌≡◌, ap, subst}
use mathlib.Core.Logic.{◌≢◌, ◌↔◌, inl, inr}
use mathlib.Core.Option.{none, some}
use mathlib.Core.List.{[], ◌∷◌, map}
use native.Mathlib.Omega.{arith}
use cubefs_blobstore.Base.Tests.{Bool-cases}
use cubefs_blobstore.Base.Lists.{In}
use cubefs_blobstore.Base.Dict.{Eq, Dict, lookup, beq_refl, beq_ne}

module _ {K V : Type 0} where
  abbrev pub flip_pair : K × V → V × K
  flip_pair (k, v) = (v, k)

  pub In-flip : (k : K) (v : V) (m : Dict K V) → In (k, v) m → In (v, k) (map flip_pair m)
  In-flip k v [] h = h
  In-flip k v ((j, w) ∷ m) (inl e) = inl (ap flip_pair e)
  In-flip k v ((j, w) ∷ m) (inr h) = inr (In-flip k v m h)

  pub In-unflip : (k : K) (v : V) (m : Dict K V) → In (v, k) (map flip_pair m) → In (k, v) m
  In-unflip k v [] h = h
  In-unflip k v ((j, w) ∷ m) (inl e) = inl (ap (λ (p : V × K). (p.1, p.0)) e)
  In-unflip k v ((j, w) ∷ m) (inr h) = inr (In-unflip k v m h)

module _ {K V : Type 0} ⦃e : Eq K⦄ where
  abbrev pub DistinctKeys : Dict K V → Type 0
  DistinctKeys [] = Unit
  DistinctKeys ((k, v) ∷ m) = (lookup k m ≡ none) × DistinctKeys m

  pub lookup-In : (k : K) (v : V) (m : Dict K V) → lookup k m ≡ some v → In (k, v) m
  unfolding lookup
  lookup-In k v [] h = cc
  lookup-In k v ((j, w) ∷ m) h = elim (Bool-cases (e.beq j k)) [
    | inl hit ↦ inl (
        let key : j ≡ k = (e.beq_iff j k).0 hit in
        let value : w ≡ v = ground arith in λ i. (key i, value i))
    | inr miss ↦ inr (lookup-In k v m (ground arith))
  ]

  pub In-lookup :
      (k : K) (v : V) (m : Dict K V) → DistinctKeys m → In (k, v) m → lookup k m ≡ some v
  unfolding lookup
  In-lookup k v [] d h = absurd h
  In-lookup k v ((j, w) ∷ m) d (inl p) =
      let key : j ≡ k = ap (λ (q : K × V). q.0) p in
      let value : w ≡ v = ap (λ (q : K × V). q.1) p in rw (key, beq_refl k, value)
  In-lookup k v ((j, w) ∷ m) d (inr h) =
      let rest = In-lookup k v m d.1 h in
      let other : j ≢ k = λ p. cc (d.0) in rw (beq_ne j k other) rest

module _ {ℓ} {K V : Type 0} (P : K → V → Type ℓ) where
  abbrev pub AllEntries : Dict K V → Type ℓ
  AllEntries [] = Unit
  AllEntries ((k, v) ∷ m) = P k v × AllEntries m

  In-AllEntries : (k : K) (v : V) (m : Dict K V) → In (k, v) m → AllEntries m → P k v
  In-AllEntries k v [] h a = absurd h
  In-AllEntries k v ((j, w) ∷ m) (inl p) a = subst (λ (q : K × V). P q.0 q.1) p a.0
  In-AllEntries k v ((j, w) ∷ m) (inr h) a = In-AllEntries k v m h a.1

-- What holds of every entry holds of one that is looked up.
pub lookup-AllEntries {ℓ} :
    {K V : Type 0} ⦃e : Eq K⦄ (P : K → V → Type ℓ) (k : K) (v : V) (m : Dict K V)
    → lookup k m ≡ some v
    → AllEntries P m
    → P k v
lookup-AllEntries P k v m h a = In-AllEntries P k v m (lookup-In k v m h) a

module _ {K V : Type 0} ⦃e : Eq K⦄ ⦃f : Eq V⦄ where
  -- The inverse of a table with distinct keys and distinct values looks the keys up.
  pub lookup-flip :
      (k : K) (v : V) (m : Dict K V)
      → DistinctKeys m
      → DistinctKeys (map flip_pair m)
      → (lookup k m ≡ some v) ↔ (lookup v (map flip_pair m) ≡ some k)
  lookup-flip k v m d d' = (
    λ h. In-lookup v k _ d' (In-flip k v m (lookup-In k v m h)),
    λ h. In-lookup k v m d (In-unflip k v m (lookup-In v k _ h)),
  )
