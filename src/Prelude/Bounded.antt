-- ===== src/Prelude/Bounded.antt =====
-- A BPF hash map as an association list: it holds `max` entries at most, and an update that finds no
-- room for a new key fails and changes nothing.
use mathlib.Core.Path.{◌≡◌, refl}
use mathlib.Core.Bool.{Bool, true, false, ◌||◌}
use mathlib.Core.Logic.{◌⊎◌, inl, inr}
use mathlib.Core.Option.{Option, none, some}
use mathlib.Core.List.{List, [], ◌∷◌}
use Prim.Native.Nat.{ℕ, suc, ◌+◌, ◌≤◌, ◌<◌}
use native.Mathlib.Omega.{arith}
use kernel_scope.Prelude.Tests.{if◌then◌else◌, Eq, Bool-cases, ltb}
use kernel_scope.Prelude.Lists.{length}
use kernel_scope.Prelude.Assoc.{lookup, update, lookup-update_self, lookup-update_ne}

abbrev pub is_some {ℓ} : {A : Type ℓ} → Option A → Bool
is_some none = false
is_some (some a) = true

module _ {ℓ κ} {K : Type ℓ} {V : Type κ} ⦃e : Eq K⦄ where
  -- bpf_map_update_elem with BPF_ANY.
  unfoldable pub put : ℕ → K → V → List (K × V) → List (K × V)
  put max k v m = if is_some (lookup k m) || ltb (length m) max then update k v (λ old. v) m else m

  -- bpf_map_delete_elem.
  unfoldable pub remove : K → List (K × V) → List (K × V)
  remove k [] = []
  remove k ((j, v) ∷ m) =
      let rest = (j, v) ∷ remove k m in
      let removed = remove k m in if e.beq j k then removed else rest

  pub lookup-put_self :
      (max : ℕ) (k : K) (v : V) (m : List (K × V))
      → length m < max
      → lookup k (put max k v m) ≡ some v
  unfolding put
  lookup-put_self max k v m room = elim (Bool-cases (is_some (lookup k m) || ltb (length m) max)) [
    | inl fits ↦ rw fits (lookup-update_self k v (λ old. v) m)
    | inr full ↦ absurd (ground (arith, full, room))
  ]

  -- An update enters its value, or finds no room.
  pub lookup-put_cases :
      (max : ℕ) (k : K) (v : V) (m : List (K × V))
      → (lookup k (put max k v m) ≡ some v) ⊎ (put max k v m ≡ m)
  unfolding put
  lookup-put_cases max k v m = elim (Bool-cases (is_some (lookup k m) || ltb (length m) max)) [
    | inl fits ↦ inl (rw fits (lookup-update_self k v (λ old. v) m))
    | inr full ↦ inr (rw full)
  ]

  pub lookup-put_ne :
      (max : ℕ) (k j : K) (v : V) (m : List (K × V))
      → e.beq k j ≡ false
      → lookup j (put max k v m) ≡ lookup j m
  unfolding put
  lookup-put_ne max k j v m h = elim (Bool-cases (is_some (lookup k m) || ltb (length m) max)) [
    | inl fits ↦ rw fits (lookup-update_ne k j v (λ old. v) m h)
    | inr full ↦ rw full
  ]

  pub lookup-remove_self : (k : K) (m : List (K × V)) → lookup k (remove k m) ≡ none
  unfolding lookup remove
  lookup-remove_self k [] = refl
  lookup-remove_self k ((j, v) ∷ m) = elim (Bool-cases (e.beq j k)) [
    | inl same ↦ rw same (lookup-remove_self k m)
    | inr other ↦ rw (other, other) (lookup-remove_self k m)
  ]

  pub lookup-remove_ne :
      (k j : K) (m : List (K × V)) → e.beq k j ≡ false → lookup j (remove k m) ≡ lookup j m
  unfolding lookup remove
  lookup-remove_ne k j [] h = refl
  lookup-remove_ne k j ((i, v) ∷ m) h = elim (Bool-cases (e.beq i k)) [
    | inl same ↦ rw same (rw ((e.beq_iff i k).0 same, h) (lookup-remove_ne k j m h))
    | inr other ↦ rw (other, lookup-remove_ne k j m h)
  ]

  length-update :
      (k : K) (d : V) (f : V → V) (m : List (K × V))
      → (length (update k d f m) ≤ suc (length m))
        × (is_some (lookup k m) ≡ true → length (update k d f m) ≡ length m)
  unfolding lookup update
  length-update k d f [] = (omega arith, λ h. absurd (ground (arith, h)))
  length-update k d f ((j, v) ∷ m) = elim (Bool-cases (e.beq j k)) [
    | inl same ↦ rw same (omega arith, λ h. refl)
    | inr other ↦
        let rest = length-update k d f m in
        rw other (omega (arith, rest), λ h. omega (arith, rest.1 h))
  ]

  -- An update keeps the bound, and adds one entry at most.
  pub length-put :
      (max : ℕ) (k : K) (v : V) (m : List (K × V))
      → (length (put max k v m) ≤ length m + 1) × (length m ≤ max → length (put max k v m) ≤ max)
  unfolding put
  length-put max k v m =
      let grown = length-update k v (λ old. v) m in
      elim (Bool-cases (is_some (lookup k m))) [
        | inl there ↦ rw there (omega (arith, grown), λ h. omega (arith, h, grown.1 there))
        | inr new ↦ elim (Bool-cases (ltb (length m) max)) [
          | inl room ↦ rw (new, room) (omega (arith, grown), λ h. ground (arith, room, grown))
          | inr full ↦ rw (new, full) (omega arith, λ h. h)
        ]
      ]

  pub length-remove : (k : K) (m : List (K × V)) → length (remove k m) ≤ length m
  unfolding remove
  length-remove k [] = omega arith
  length-remove k ((j, v) ∷ m) = elim (Bool-cases (e.beq j k)) [
    | inl same ↦ rw same (omega (arith, length-remove k m))
    | inr other ↦ rw other (omega (arith, length-remove k m))
  ]

  -- Any key after an update for which there is room, and after a removal.
  pub lookup-put :
      (max : ℕ) (k j : K) (v : V) (m : List (K × V))
      → length m < max
      → lookup j (put max k v m) ≡ (if e.beq k j then some v else lookup j m)
  lookup-put max k j v m room = elim (Bool-cases (e.beq k j)) [
    | inl own ↦ rw (own, (e.beq_iff k j).0 own) (lookup-put_self max j v m room)
    | inr other ↦ rw other (lookup-put_ne max k j v m other)
  ]

  pub lookup-remove :
      (k j : K) (m : List (K × V))
      → lookup j (remove k m) ≡ (if e.beq k j then none else lookup j m)
  lookup-remove k j m = elim (Bool-cases (e.beq k j)) [
    | inl own ↦ rw (own, (e.beq_iff k j).0 own) (lookup-remove_self j m)
    | inr other ↦ rw other (lookup-remove_ne k j m other)
  ]
