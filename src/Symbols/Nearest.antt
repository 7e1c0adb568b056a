-- ===== src/Symbols/Nearest.antt =====
-- std::upper_bound by an address and the step back behind it, as ElfCache::resolve and
-- Symbolizer::resolve_kernel do it: the element in front of the first one with a greater address.
use mathlib.Core.List.{Memᴰ}
use kernel_scope.Prelude.{
  ℕ, ◌≤◌, ◌<◌, ◌≡◌, refl, arith, ltb, if◌then◌else◌, Bool, Bool-cases, false, List, [], ◌∷◌, Option,
  some, none, ◌⊎◌, inl, inr, All, ltb→lt,
}
use kernel_scope.Prelude.Sorting.{IsSortedBy}

module _ {A : Type 0} (key : A → ℕ) where
  -- The comparator that the symbols are sorted by.
  abbrev pub by_address : A → A → Bool
  by_address x y = ltb (key x) (key y)

module _ {A : Type 0} (key : A → ℕ) (a : ℕ) where
  -- `before` is the element in front of the list.
  unfoldable pub preceding : Option A → List A → Option A
  preceding before [] = before
  preceding before (x ∷ xs) =
      let more = preceding (some x) xs in if ltb a (key x) then before else more

  -- The last address that is not greater, if there is one.
  abbrev pub Nearest : List A → Option A → Type 0
  Nearest xs none = All (λ x. a < key x) xs
  Nearest xs (some s) = Memᴰ s xs × (key s ≤ a) × All (λ x. (key x ≤ key s) ⊎ (a < key x)) xs

  greater :
      (x : A) (xs : List A)
      → a < key x
      → All (λ y. by_address key y x ≡ false) xs
      → All (λ y. a < key y) xs
  greater x [] h s = tt
  greater x (y ∷ ys) h s = (ground (arith, s.0), greater x ys h s.1)

  greater_right :
      (x : A) (xs : List A) → All (λ y. a < key y) xs → All (λ y. (key y ≤ key x) ⊎ (a < key y)) xs
  greater_right x [] h = tt
  greater_right x (y ∷ ys) h = (inr h.0, greater_right x ys h.1)

  preceding-some :
      (b : A) (xs : List A)
      → key b ≤ a
      → IsSortedBy (by_address key) (b ∷ xs)
      → Nearest (b ∷ xs) (preceding (some b) xs)
  unfolding preceding
  preceding-some b [] h s = (Memᴰ.head refl, h, (inl (omega arith), tt))
  preceding-some b (x ∷ xs) h s = elim (Bool-cases (ltb a (key x))) [
    | inl g ↦ rw g (
      Memᴰ.head refl,
      h,
      (
        inl (omega arith),
        greater_right b (x ∷ xs) (ltb→lt _ _ g, greater x xs (ltb→lt _ _ g) s.1.0),
      ),
    )
    | inr le ↦
        rw le
          (ahead (preceding (some x) xs) (ground arith) (preceding-some x xs (ground arith) s.1))
  ]
    where
      ahead : (o : Option A) → key x ≤ a → Nearest (x ∷ xs) o → Nearest (b ∷ x ∷ xs) o
      ahead none le n = absurd (omega (arith, n.0))
      ahead (some t) le n = (Memᴰ.tail n.0, n.1, (inl (ground (arith, n.2.0, s.0.0, le)), n.2))

  -- On a sorted list the search finds the nearest element.
  pub preceding-Nearest :
      (xs : List A) → IsSortedBy (by_address key) xs → Nearest xs (preceding none xs)
  unfolding preceding
  preceding-Nearest [] s = tt
  preceding-Nearest (x ∷ xs) s = elim (Bool-cases (ltb a (key x))) [
    | inl g ↦ rw g (ltb→lt _ _ g, greater x xs (ltb→lt _ _ g) s.0)
    | inr le ↦ rw le (preceding-some x xs (ground arith) s)
  ]
