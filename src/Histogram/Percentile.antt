-- ===== src/Histogram/Percentile.antt =====
-- What percentile returns.
use kernel_scope.Prelude.{
  ℕ, zero, suc, ◌+◌, ◌*◌, ◌/◌, ◌^◌, ◌≤◌, ◌<◌, ◌≡◌, refl, arith, ltb, leb, List, [], ◌∷◌, length,
  take, sum, keep, All, u64, u64_mod, Bool-cases, inl, inr, ◌⊎◌, ap, ◌==◌, ◌∙◌, false,
}
use native.Mathlib.Nat.{pow-le-pow_right, pow-suc}
use native.Mathlib.Decide.{dec_lt}
use kernel_scope.Histogram.{
  Histogram, bucket_index, bucket_count, recorded, DoubleArithmetic, midpoint, scan, percentile,
}
use kernel_scope.Histogram.Buckets.{bucket_index-lt_iff}
use kernel_scope.Histogram.Samples.{IsU64, before_bucket, Holds, recorded-Holds}

-- How many samples are less than a bound.
abbrev pub count_lt : ℕ → List ℕ → ℕ
count_lt bound xs = length (keep (λ v. ltb v bound) xs)

before_bucket-count_lt :
    (i : ℕ) (xs : List ℕ) → All IsU64 xs → before_bucket (suc i) xs ≡ count_lt (2 ^ suc i) xs
before_bucket-count_lt i [] a = refl
before_bucket-count_lt i (x ∷ xs) a =
    let same = bucket_index-lt_iff x i a.0 in
    rw same (ground (arith, before_bucket-count_lt i xs a.1))

-- The loop stops at the first bucket where the running total reaches the threshold.
abbrev FirstReaching : List ℕ → ℕ → ℕ → ℕ → ℕ → Type 0
FirstReaching bs i cumulative t result =
    (j : ℕ) × (j < length bs)
    × (result ≡ midpoint (i + j))
    × (t ≤ cumulative + sum (take (suc j) bs))
    × ((j ≡ 0) ⊎ (cumulative + sum (take j bs) < t))

later_bucket :
    (b : ℕ) (bs : List ℕ) (i cumulative t result : ℕ)
    → cumulative + b < t
    → FirstReaching bs (i + 1) (cumulative + b) t result
    → FirstReaching (b ∷ bs) i cumulative t result
later_bucket b bs i cumulative t result below (j, hj, e, reached, least) =
    (suc j, omega arith, e ∙ ap midpoint (omega arith), omega arith, inr (ground arith))

length-pos : (bs : List ℕ) → 0 < sum bs → 0 < length bs
length-pos [] h = h
length-pos (b ∷ bs) h = omega arith

scan-FirstReaching :
    (bs : List ℕ) (i cumulative t largest : ℕ)
    → 0 < length bs
    → cumulative + sum bs < u64_mod
    → t ≤ cumulative + sum bs
    → FirstReaching bs i cumulative t (scan bs i cumulative t largest)
unfolding scan
scan-FirstReaching [] i cumulative t largest h room reach = absurd (omega arith)
scan-FirstReaching (b ∷ bs) i cumulative t largest h room reach =
    let fits : u64 (cumulative + b) ≡ cumulative + b = omega arith in
    elim (Bool-cases (leb t (cumulative + b))) [
      | inl now ↦ rw (fits, now) (0, omega arith, ap midpoint (omega arith), ground arith, inl refl)
      | inr not_yet ↦
          rw (fits, not_yet)
            (later_bucket b bs i cumulative t _ (ground arith) (
              scan-FirstReaching bs (i + 1) (cumulative + b) t largest
                (length-pos bs (ground arith)) (omega arith) (omega arith)))
    ]

first_bucket : (bs : List ℕ) (largest : ℕ) → 0 < length bs → scan bs 0 0 0 largest ≡ 1
unfolding scan midpoint
first_bucket [] largest h = absurd (omega arith)
first_bucket (b ∷ bs) largest h = ground arith

-- The rank that percentile p asks for, of n samples.
abbrev pub rank : ℕ → ℕ → ℕ
rank n p = n * p / 100

-- The result is the midpoint of a bucket: at least `rank` samples lie below its upper end, and unless
-- it is the first bucket, fewer than `rank` samples lie below its lower end.
abbrev pub AtRank : List ℕ → ℕ → ℕ → Type 0
AtRank xs r result =
    (i : ℕ) × (i < bucket_count)
    × (result ≡ midpoint i)
    × (r ≤ count_lt (2 ^ (i + 1)) xs)
    × ((i ≡ 0) ⊎ (count_lt (2 ^ i) xs < r))

rank-le : (n p : ℕ) → p ≤ 100 → rank n p ≤ n
rank-le n p h = let bound : n * p ≤ n * 100 = grind arith in omega arith

AtRank-of_FirstReaching :
    (xs bs : List ℕ) (r result : ℕ)
    → All IsU64 xs
    → length bs ≡ bucket_count
    → ((i : ℕ) → sum (take i bs) ≡ before_bucket i xs)
    → FirstReaching bs 0 0 r result
    → AtRank xs r result
AtRank-of_FirstReaching xs bs r result a size prefixes (j, hj, e, reached, least) = (
  j,
  omega arith,
  e ∙ ap midpoint (omega arith),
  let next : j + 1 ≡ suc j = omega arith in
      rw (next, ← before_bucket-count_lt j xs a) (omega (arith, prefixes (suc j))),
  lower j least,
)
  where
    lower : (j : ℕ) → ((j ≡ 0) ⊎ (0 + sum (take j bs) < r)) → ((j ≡ 0) ⊎ (count_lt (2 ^ j) xs < r))
    lower zero l = inl refl
    lower (suc k) (inl z) = inl z
    lower (suc k) (inr l) =
        inr (rw (← before_bucket-count_lt k xs a) (omega (arith, prefixes (suc k))))

module _ (d : DoubleArithmetic) (xs : List ℕ) (a : All IsU64 xs) where
  -- Percentile p, for p up to 100, of a non-empty list of fewer than 2^53 / 100 samples is the
  -- midpoint of the power-of-two bucket that holds the sample of rank `length xs * p / 100`: at least
  -- that many samples lie below the bucket's upper end, and fewer below its lower end. (At rank 0 it
  -- is the first bucket.)
  pub percentile-AtRank :
      (p : ℕ)
      → 0 < length xs
      → length xs * 100 < 2 ^ 53
      → p ≤ 100
      → AtRank xs (rank (length xs) p) (percentile d (recorded xs) p)
  unfolding percentile
  percentile-AtRank p some_sample few hp =
      let s : Holds (recorded xs) xs = recorded-Holds xs a (omega arith) in
      let bound : length xs * p ≤ length xs * 100 = grind arith in
      let count : (recorded xs).count ≡ length xs = s.counted in
      let positive : ((recorded xs).count == 0) ≡ false = ground arith in
      let r : d.threshold (recorded xs).count p ≡ rank (length xs) p =
        rw count (d.exact (length xs) p (omega arith)) in
      rw (positive, r)
        (AtRank-of_FirstReaching xs (recorded xs).buckets (rank (length xs) p) _ a s.size s.prefixes
          (scan-FirstReaching (recorded xs).buckets 0 0 (rank (length xs) p) (recorded xs).maximum
            (omega (arith, s.size)) (omega (arith, s.total))
            (omega (arith, s.total, rank-le (length xs) p hp))))

  -- With fewer than 100 samples times percents the rank is 0, which the first bucket satisfies even
  -- where it is empty: the percentile is 1 ns, whatever the samples are.
  pub percentile_rank_zero :
      (p : ℕ)
      → 0 < length xs
      → length xs * p < 100
      → length xs < u64_mod
      → percentile d (recorded xs) p ≡ 1
  unfolding percentile
  percentile_rank_zero p some_sample few room =
      let s : Holds (recorded xs) xs = recorded-Holds xs a room in
      let positive : ((recorded xs).count == 0) ≡ false = ground (arith, s.counted) in
      let r : d.threshold (recorded xs).count p ≡ 0 =
        rw s.counted (d.exact (length xs) p (omega arith) ∙ omega arith) in
      rw (positive, r)
        (first_bucket (recorded xs).buckets (recorded xs).maximum (omega (arith, s.size)))

midpoint-bounds : (i : ℕ) → (2 ^ i ≤ midpoint i) × (midpoint i ≤ 2 ^ (i + 1))
unfolding midpoint
midpoint-bounds i = let next : i + 1 ≡ suc i = omega arith in rw next (ground (arith, pow-suc 2 i))

count_lt_mono : (b c : ℕ) (xs : List ℕ) → b ≤ c → count_lt b xs ≤ count_lt c xs
count_lt_mono b c [] h = omega arith
count_lt_mono b c (x ∷ xs) h = ground (arith, count_lt_mono b c xs h)

-- A larger rank stands in the same bucket or in a later one.
AtRank-mono : (xs : List ℕ) (q r : ℕ) (x y : ℕ) → q ≤ r → AtRank xs q x → AtRank xs r y → x ≤ y
AtRank-mono xs q r x y h (i, hi, ex, upper, lower) (j, hj, ey, upper', lower') = elim (dec_lt j i) [
  | yes earlier ↦ absurd (crossed earlier lower)
  | no same_or_later ↦ elim (dec_lt i j) [
    | yes later ↦
        let up : 2 ^ (i + 1) ≤ 2 ^ j = pow-le-pow_right (omega arith) (omega arith) in
        omega (arith, midpoint-bounds i, midpoint-bounds j)
    | no not_later ↦ let e : i ≡ j = omega arith in omega (arith, ap midpoint e)
  ]
]
  where
    crossed : j < i → ((i ≡ 0) ⊎ (count_lt (2 ^ i) xs < q)) → ⊥
    crossed earlier l =
        let up : 2 ^ (j + 1) ≤ 2 ^ i = pow-le-pow_right (omega arith) (omega arith) in
        omega (arith, count_lt_mono (2 ^ (j + 1)) (2 ^ i) xs up)

percentile-empty : (d : DoubleArithmetic) (p : ℕ) → percentile d (recorded []) p ≡ 0
unfolding percentile recorded kernel_scope.Histogram.empty
percentile-empty d p = refl

-- Percentiles grow with p.
pub percentile_mono :
    (d : DoubleArithmetic) (xs : List ℕ) (p q : ℕ)
    → All IsU64 xs
    → length xs * 100 < 2 ^ 53
    → p ≤ q
    → q ≤ 100
    → percentile d (recorded xs) p ≤ percentile d (recorded xs) q
percentile_mono d [] p q a few hp hq = rw (percentile-empty d p, percentile-empty d q) (omega arith)
percentile_mono d (x ∷ xs) p q a few hp hq =
    let ys = x ∷ xs in
    let scaled : length ys * p ≤ length ys * q = grind arith in
    AtRank-mono ys (rank (length ys) p) (rank (length ys) q) _ _ (omega arith)
      (percentile-AtRank d ys a p (omega arith) few (omega arith))
      (percentile-AtRank d ys a q (omega arith) few hq)
