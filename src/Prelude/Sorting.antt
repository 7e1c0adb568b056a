-- ===== src/Prelude/Sorting.antt =====
-- std::sort by a comparator, and the cut after the first n elements that follows it in each query.
-- The order of elements that the comparator does not tell apart is not specified for std::sort.
use mathlib.Core.Path.{◌≡◌, refl}
use mathlib.Core.Bool.{Bool, true, false}
use mathlib.Core.Logic.{inl, inr}
use mathlib.Core.List.{List, [], ◌∷◌, ◌++◌, Perm, append-nil}
use mathlib.Core.List.Perm
use Prim.Native.Nat.{ℕ, zero, suc, min, ◌≤◌}
use native.Mathlib.Omega.{arith}
use kernel_scope.Prelude.Tests.{if◌then◌else◌, Bool-cases, ltb, le→ltb, ltb→lt}
use kernel_scope.Prelude.Lists.{
  length, take, drop, All, length-take, take-append-drop, All-take, All-drop,
}

-- What std::sort asks of its comparator.
pub record StrictWeakOrder {ℓ} {A : Type ℓ} (before : A → A → Bool) : Type ℓ where
  pub asymm : (a b : A) → before a b ≡ true → before b a ≡ false
  pub neg_trans : (a b c : A) → before a b ≡ false → before b c ≡ false → before a c ≡ false

-- `if (v.size() > n) v.resize(n);`
unfoldable pub truncate {ℓ} : {A : Type ℓ} → ℕ → List A → List A
truncate n xs = if ltb n (length xs) then take n xs else xs

module _ {ℓ} {A : Type ℓ} (before : A → A → Bool) where
  unfoldable pub insert_sorted : A → List A → List A
  insert_sorted x [] = x ∷ []
  insert_sorted x (y ∷ ys) =
      let rest = y ∷ insert_sorted x ys in if before y x then rest else x ∷ y ∷ ys

  unfoldable pub sort : List A → List A
  unfolding insert_sorted
  sort [] = []
  sort (x ∷ xs) = insert_sorted x (sort xs)

  -- No element stands behind one that it belongs before.
  abbrev pub IsSortedBy : List A → Type ℓ
  IsSortedBy [] = Unit {ℓ}
  IsSortedBy (x ∷ xs) = All (λ y. before y x ≡ false) xs × IsSortedBy xs

  -- No element of the second list belongs before one of the first.
  abbrev pub Dominates : List A → List A → Type 0
  Dominates top rest = All (λ x. All (λ y. before y x ≡ false) rest) top

module _ {ℓ} {A : Type ℓ} (before : A → A → Bool) where
  insert_sorted-perm : (x : A) (ys : List A) → Perm (insert_sorted before x ys) (x ∷ ys)
  unfolding insert_sorted
  insert_sorted-perm x [] = Perm.refl _
  insert_sorted-perm x (y ∷ ys) = elim (Bool-cases (before y x)) [
    | inl h ↦ rw h (Perm.trans (Perm.cons y (insert_sorted-perm x ys)) (Perm.swap x y ys))
    | inr h ↦ rw h (Perm.refl _)
  ]

  pub sort-perm : (xs : List A) → Perm (sort before xs) xs
  unfolding sort
  sort-perm [] = Perm.refl _
  sort-perm (x ∷ xs) =
      Perm.trans (insert_sorted-perm x (sort before xs)) (Perm.cons x (sort-perm xs))

  All-insert_sorted {κ} :
      (P : A → Type κ) (x : A) (ys : List A) → P x → All P ys → All P (insert_sorted before x ys)
  unfolding insert_sorted
  All-insert_sorted P x [] hx h = (hx, tt)
  All-insert_sorted P x (y ∷ ys) hx h = elim (Bool-cases (before y x)) [
    | inl e ↦ rw e (h.0, All-insert_sorted P x ys hx h.1)
    | inr e ↦ rw e (hx, h)
  ]

  module _ (w : StrictWeakOrder before) where
    All-neg_trans :
        (x y : A) (ys : List A)
        → before y x ≡ false
        → All (λ z. before z y ≡ false) ys
        → All (λ z. before z x ≡ false) ys
    All-neg_trans x y [] h a = tt
    All-neg_trans x y (z ∷ zs) h a = (w.neg_trans z y x a.0 h, All-neg_trans x y zs h a.1)

    insert_sorted-IsSortedBy :
        (x : A) (ys : List A) → IsSortedBy before ys → IsSortedBy before (insert_sorted before x ys)
    unfolding insert_sorted
    insert_sorted-IsSortedBy x [] s = (tt, tt)
    insert_sorted-IsSortedBy x (y ∷ ys) s = elim (Bool-cases (before y x)) [
      | inl h ↦ rw h (
        All-insert_sorted (λ z. before z y ≡ false) x ys (w.asymm y x h) s.0,
        insert_sorted-IsSortedBy x ys s.1,
      )
      | inr h ↦ rw h ((h, All-neg_trans x y ys h s.0), s)
    ]

    pub sort-IsSortedBy : (xs : List A) → IsSortedBy before (sort before xs)
    unfolding sort
    sort-IsSortedBy [] = tt
    sort-IsSortedBy (x ∷ xs) = insert_sorted-IsSortedBy x (sort before xs) (sort-IsSortedBy xs)

-- The query of the n first elements: sort, then cut.
unfoldable pub top_by {ℓ} : {A : Type ℓ} → (A → A → Bool) → ℕ → List A → List A
unfolding sort truncate
top_by before n xs = truncate n (sort before xs)

-- The result of a query for the n first elements of a collection, as an independent description.
pub record TopOf {ℓ} {A : Type ℓ} (before : A → A → Bool) (n : ℕ) (all top : List A) : Type ℓ where
  pub rest : List A
  pub complete : Perm (top ++ rest) all
  pub sized : length top ≡ min n (length all)
  pub sorted : IsSortedBy before top
  pub dominates : Dominates before top rest

module _ {ℓ} {A : Type ℓ} (before : A → A → Bool) where
  IsSortedBy-take : (n : ℕ) (xs : List A) → IsSortedBy before xs → IsSortedBy before (take n xs)
  IsSortedBy-take zero xs s = tt
  IsSortedBy-take (suc n) [] s = tt
  IsSortedBy-take (suc n) (x ∷ xs) s = (All-take _ n xs s.0, IsSortedBy-take n xs s.1)

  Dominates-take-drop :
      (n : ℕ) (xs : List A) → IsSortedBy before xs → Dominates before (take n xs) (drop n xs)
  Dominates-take-drop zero xs s = tt
  Dominates-take-drop (suc n) [] s = tt
  Dominates-take-drop (suc n) (x ∷ xs) s = (All-drop _ n xs s.0, Dominates-take-drop n xs s.1)

  Dominates-nil : (xs : List A) → Dominates before xs []
  Dominates-nil [] = tt
  Dominates-nil (x ∷ xs) = (tt, Dominates-nil xs)

  truncate-TopOf :
      (n : ℕ) (xs all : List A)
      → Perm xs all
      → length xs ≡ length all
      → IsSortedBy before xs
      → TopOf before n all (truncate n xs)
  unfolding truncate
  truncate-TopOf n xs all p l s = elim (Bool-cases (ltb n (length xs))) [
    | inl more ↦ rw more (record {
      rest = drop n xs;
      complete = rw take-append-drop p;
      sized = omega (arith, length-take n xs);
      sorted = IsSortedBy-take n xs s;
      dominates = Dominates-take-drop n xs s;
    })
    | inr fits ↦ rw fits (record {
      rest = [];
      complete = rw append-nil p;
      sized = ground arith;
      sorted = s;
      dominates = Dominates-nil xs;
    })
  ]

  length-insert_sorted :
      (x : A) (ys : List A) → length (insert_sorted before x ys) ≡ suc (length ys)
  unfolding insert_sorted
  length-insert_sorted x [] = refl
  length-insert_sorted x (y ∷ ys) = ground (arith, length-insert_sorted x ys)

  length-sort : (xs : List A) → length (sort before xs) ≡ length xs
  unfolding sort
  length-sort [] = refl
  length-sort (x ∷ xs) = omega (arith, length-insert_sorted x (sort before xs), length-sort xs)

  -- A query under a strict weak order returns what `TopOf` says.
  pub top_by-TopOf :
      StrictWeakOrder before → (n : ℕ) (xs : List A) → TopOf before n xs (top_by before n xs)
  unfolding top_by
  top_by-TopOf w n xs =
      truncate-TopOf n (sort before xs) xs (sort-perm before xs) (length-sort xs)
        (sort-IsSortedBy before w xs)

-- "Greater key first" is a strict weak order.
pub by_key-StrictWeakOrder {ℓ} :
    {A : Type ℓ} (key : A → ℕ) → StrictWeakOrder (λ (a b : A). ltb (key b) (key a))
by_key-StrictWeakOrder key = record {
  asymm = λ a b h. le→ltb _ _ (omega (arith, ltb→lt (key b) (key a) h));
  neg_trans = λ a b c h k. ground arith;
}

pub ascending-StrictWeakOrder {ℓ} :
    {A : Type ℓ} (key : A → ℕ) → StrictWeakOrder (λ (a b : A). ltb (key a) (key b))
ascending-StrictWeakOrder key = record {
  asymm = λ a b h. le→ltb _ _ (omega (arith, ltb→lt (key a) (key b) h));
  neg_trans = λ a b c h k. ground arith;
}

abbrev pub larger {ℓ} : {A : Type ℓ} → (A → ℕ) → A → A → Bool
larger key a b = ltb (key b) (key a)

-- The n largest of a collection: part of it, of the size that is asked for or all of it, in descending
-- order, and nothing that is left out is larger.
abbrev pub IsDescending {ℓ} : {A : Type ℓ} → (A → ℕ) → List A → Type 0
IsDescending key [] = Unit {0}
IsDescending key (x ∷ xs) = All (λ y. key y ≤ key x) xs × IsDescending key xs

pub record Largest {ℓ} {A : Type ℓ} (key : A → ℕ) (n : ℕ) (all top : List A) : Type ℓ where
  pub rest : List A
  pub complete : Perm (top ++ rest) all
  pub sized : length top ≡ min n (length all)
  pub descending : IsDescending key top
  pub largest : All (λ x. All (λ y. key y ≤ key x) rest) top

module _ {ℓ} {A : Type ℓ} (key : A → ℕ) where
  All-larger :
      (x : A) (ys : List A) → All (λ y. larger key y x ≡ false) ys → All (λ y. key y ≤ key x) ys
  All-larger x [] h = tt
  All-larger x (y ∷ ys) h = (ground (arith, h.0), All-larger x ys h.1)

  IsSortedBy-IsDescending : (xs : List A) → IsSortedBy (larger key) xs → IsDescending key xs
  IsSortedBy-IsDescending [] h = tt
  IsSortedBy-IsDescending (x ∷ xs) h = (All-larger x xs h.0, IsSortedBy-IsDescending xs h.1)

  Dominates-largest :
      (top rest : List A)
      → Dominates (larger key) top rest
      → All (λ x. All (λ y. key y ≤ key x) rest) top
  Dominates-largest [] rest h = tt
  Dominates-largest (x ∷ xs) rest h = (All-larger x rest h.0, Dominates-largest xs rest h.1)

  -- Sorting by "greater key first" and cutting gives the largest.
  pub top_by-Largest : (n : ℕ) (xs : List A) → Largest key n xs (top_by (larger key) n xs)
  top_by-Largest n xs =
      let t = top_by-TopOf (larger key) (by_key-StrictWeakOrder key) n xs in
      record {
        rest = t.rest;
        complete = t.complete;
        sized = t.sized;
        descending = IsSortedBy-IsDescending _ t.sorted;
        largest = Dominates-largest _ t.rest t.dominates;
      }
