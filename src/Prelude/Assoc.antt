-- ===== src/Prelude/Assoc.antt =====
-- std::unordered_map as an association list in order of insertion. The order of iteration of the
-- real table is not specified; no statement below depends on it.
use mathlib.Core.Path.{◌≡◌, refl, sym}
use mathlib.Core.Bool.{true, false}
use mathlib.Core.Logic.{◌⊎◌, inl, inr}
use mathlib.Core.Option.{Option, none, some, some-injective}
use mathlib.Core.List.{List, [], ◌∷◌, ◌++◌, map}
use Prim.Native.Nat.{ℕ, ◌+◌, ◌≤◌}
use native.Mathlib.Omega.{arith}
use kernel_scope.Prelude.Tests.{if◌then◌else◌, Eq, Bool-cases}
use kernel_scope.Prelude.Lists.{sum}

abbrev pub or_default {ℓ} : {A : Type ℓ} → Option A → A → A
or_default none d = d
or_default (some a) d = a

module _ {ℓ κ} {K : Type ℓ} {V : Type κ} where
  abbrev pub values : List (K × V) → List V
  values [] = []
  values ((k, v) ∷ m) = v ∷ values m

module _ {ℓ} {K : Type ℓ} ⦃e : Eq K⦄ where
  pub beq_refl : (k : K) → e.beq k k ≡ true
  beq_refl k = (e.beq_iff k k).1 refl

module _ {ℓ κ} {K : Type ℓ} {V : Type κ} ⦃e : Eq K⦄ where
  unfoldable pub lookup : K → List (K × V) → Option V
  lookup k [] = none
  lookup k ((j, v) ∷ m) = let rest = lookup k m in if e.beq j k then some v else rest

  -- `auto& v = m[k];` followed by a change of `v`: a missing key is first entered with `d`.
  unfoldable pub update : K → V → (V → V) → List (K × V) → List (K × V)
  update k d f [] = (k, f d) ∷ []
  update k d f ((j, v) ∷ m) =
      let rest = (j, v) ∷ update k d f m in if e.beq j k then (j, f v) ∷ m else rest

  pub lookup-update_self :
      (k : K) (d : V) (f : V → V) (m : List (K × V))
      → lookup k (update k d f m) ≡ some (f (or_default (lookup k m) d))
  unfolding lookup update
  lookup-update_self k d f [] = rw (beq_refl k)
  lookup-update_self k d f ((j, v) ∷ m) = elim (Bool-cases (e.beq j k)) [
    | inl same ↦ rw (same, same)
    | inr other ↦ rw (other, other) (lookup-update_self k d f m)
  ]

  pub lookup-update_ne :
      (k j : K) (d : V) (f : V → V) (m : List (K × V))
      → e.beq k j ≡ false
      → lookup j (update k d f m) ≡ lookup j m
  unfolding lookup update
  lookup-update_ne k j d f [] h = rw h
  lookup-update_ne k j d f ((i, v) ∷ m) h = elim (Bool-cases (e.beq i k)) [
    | inl same ↦ rw same (rw ((e.beq_iff i k).0 same, h))
    | inr other ↦ rw (other, lookup-update_ne k j d f m h)
  ]

  -- How a sum over the values changes, for a measure that is 0 at the default.
  pub sum-update :
      (g : V → ℕ) (k : K) (d : V) (f : V → V) (m : List (K × V))
      → g d ≡ 0
      → sum (map g (values (update k d f m))) + g (or_default (lookup k m) d)
        ≡ sum (map g (values m)) + g (f (or_default (lookup k m) d))
  unfolding lookup update
  sum-update g k d f [] h = omega arith
  sum-update g k d f ((j, v) ∷ m) h = elim (Bool-cases (e.beq j k)) [
    | inl same ↦ rw same (omega arith)
    | inr other ↦ rw other (omega (arith, sum-update g k d f m h))
  ]

  -- One entry is at most the sum of all.
  pub lookup-le-sum :
      (g : V → ℕ) (k : K) (d : V) (m : List (K × V))
      → g d ≡ 0
      → g (or_default (lookup k m) d) ≤ sum (map g (values m))
  unfolding lookup
  lookup-le-sum g k d [] h = omega arith
  lookup-le-sum g k d ((j, v) ∷ m) h = elim (Bool-cases (e.beq j k)) [
    | inl same ↦ rw same (omega arith)
    | inr other ↦ rw other (omega (arith, lookup-le-sum g k d m h))
  ]

  -- A key that is missing in a table was missing in its first part.
  pub lookup-append_none :
      (k : K) (m rest : List (K × V)) → lookup k (m ++ rest) ≡ none → lookup k m ≡ none
  unfolding lookup
  lookup-append_none k [] rest h = refl
  lookup-append_none k ((j, v) ∷ m) rest h = elim (Bool-cases (e.beq j k)) [
    | inl same ↦ absurd (ground (arith, rw same at h))
    | inr other ↦ rw other (lookup-append_none k m rest (rw other at h))
  ]

  -- Entering a key at the end adds this key only.
  pub lookup-append :
      (k j : K) (m : List (K × V)) (v found : V)
      → lookup k (m ++ (j, v) ∷ []) ≡ some found
      → (lookup k m ≡ some found) ⊎ ((j ≡ k) × (found ≡ v))
  unfolding lookup
  lookup-append k j [] v found h = elim (Bool-cases (e.beq j k)) [
    | inl same ↦ inr ((e.beq_iff j k).0 same, sym (some-injective v found (rw same at h)))
    | inr other ↦ absurd (ground (arith, rw other at h))
  ]
  lookup-append k j ((i, w) ∷ m) v found h = elim (Bool-cases (e.beq i k)) [
    | inl same ↦ rw same (inl (rw same at h))
    | inr other ↦ rw other (lookup-append k j m v found (rw other at h))
  ]

  pub lookup-append_self :
      (k : K) (m : List (K × V)) (v : V) → lookup k m ≡ none → lookup k (m ++ (k, v) ∷ []) ≡ some v
  unfolding lookup
  lookup-append_self k [] v h = rw (beq_refl k)
  lookup-append_self k ((i, w) ∷ m) v h = elim (Bool-cases (e.beq i k)) [
    | inl same ↦ absurd (ground (arith, rw same at h))
    | inr other ↦ rw other (lookup-append_self k m v (rw other at h))
  ]
