-- ===== src/Histogram/Buckets.antt =====
-- Which values a bucket holds.
use kernel_scope.Prelude.{
  ℕ, zero, suc, ◌+◌, ◌-◌, ◌/◌, ◌^◌, ◌≤◌, ◌<◌, ◌≡◌, refl, arith, ltb, ◌==◌, inl, inr, ◌⊎◌, min,
  u64_mod, false, lt→ltb, le→ltb,
}
use native.Mathlib.Nat.{pow-suc, one-le-pow, pow-le-pow_right}
use native.Mathlib.Decide.{dec_lt}
use kernel_scope.Histogram.{bit_width, bucket_index}

bit_width-zero : (fuel : ℕ) → bit_width fuel 0 ≡ 0
unfolding bit_width
bit_width-zero zero = refl
bit_width-zero (suc fuel) = refl

-- The width of a positive number below 2^fuel: 2^(width - 1) ≤ v < 2^width.
abbrev HasWidth : ℕ → ℕ → Type 0
HasWidth fuel v = (w : ℕ) × (bit_width fuel v ≡ suc w) × (w < fuel) × (2 ^ w ≤ v) × (v < 2 ^ suc w)

HasWidth-double : (fuel v : ℕ) → 0 < v / 2 → HasWidth fuel (v / 2) → HasWidth (suc fuel) v
unfolding bit_width
HasWidth-double fuel v pos (w, e, fits, lo, hi) = (
  suc w,
  ground (arith, e),
  omega arith,
  omega (arith, pow-suc 2 w),
  omega (arith, pow-suc 2 (suc w)),
)

HasWidth-one : (fuel : ℕ) → HasWidth (suc fuel) 1
unfolding bit_width
HasWidth-one fuel = (0, rw (bit_width-zero fuel) refl, omega arith, omega arith, omega arith)

bit_width-HasWidth : (fuel v : ℕ) → 0 < v → v < 2 ^ fuel → HasWidth fuel v
bit_width-HasWidth zero v pos h = absurd (omega arith)
bit_width-HasWidth (suc fuel) v pos h = elim (dec_lt 0 (v / 2)) [
  | yes more ↦
      HasWidth-double fuel v more
        (bit_width-HasWidth fuel (v / 2) more (omega (arith, pow-suc 2 fuel)))
  | no one ↦ let e : v ≡ 1 = omega arith in rw e (HasWidth-one fuel)
]

-- Bucket 0 holds 0 and 1, and bucket i > 0 holds the values from 2^i below 2^(i+1).
pub bucket_index-bounds :
    (v : ℕ)
    → v < u64_mod
    → (bucket_index v < 64)
      × (v < 2 ^ (bucket_index v + 1))
      × ((bucket_index v ≡ 0) ⊎ (2 ^ bucket_index v ≤ v))
unfolding bucket_index
bucket_index-bounds v h = elim (dec_lt 0 v) [
  | no zero_value ↦ let e : v ≡ 0 = omega arith in rw e (omega arith, omega arith, inl refl)
  | yes pos ↦ positive (bit_width-HasWidth 64 v pos h)
]
  where
    positive :
        HasWidth 64 v
        → (bucket_index v < 64)
          × (v < 2 ^ (bucket_index v + 1))
          × ((bucket_index v ≡ 0) ⊎ (2 ^ bucket_index v ≤ v))
    positive (w, e, fits, lo, hi) =
        let not_zero : (v == 0) ≡ false = ground (arith, one-le-pow w 2 (omega arith)) in
        let index : min (suc w - 1) 63 ≡ w = omega arith in
        let next : w + 1 ≡ suc w = omega arith in
        rw (bucket_index, not_zero, e, index, next) (fits, hi, inr lo)

-- So a value lies below 2^i exactly when its bucket stands before i.
pub bucket_index-lt_iff : (v i : ℕ) → v < u64_mod → ltb (bucket_index v) (suc i) ≡ ltb v (2 ^ suc i)
bucket_index-lt_iff v i h = compare_bounds (bucket_index-bounds v h)
  where
    compare_bounds :
        (bucket_index v < 64)
          × (v < 2 ^ (bucket_index v + 1))
          × ((bucket_index v ≡ 0) ⊎ (2 ^ bucket_index v ≤ v))
        → ltb (bucket_index v) (suc i) ≡ ltb v (2 ^ suc i)
    compare_bounds (small, hi, lo) = elim (dec_lt (bucket_index v) (suc i)) [
      | yes before ↦
          let up : 2 ^ (bucket_index v + 1) ≤ 2 ^ suc i =
            pow-le-pow_right (omega arith) (omega arith) in
          rw (lt→ltb _ _ before, lt→ltb v (2 ^ suc i) (omega arith))
      | no behind ↦
          let up : 2 ^ suc i ≤ 2 ^ bucket_index v = pow-le-pow_right (omega arith) (omega arith) in
          rw (le→ltb (bucket_index v) (suc i) (omega arith), le→ltb v (2 ^ suc i) (omega arith))
    ]
