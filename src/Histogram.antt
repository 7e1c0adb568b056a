-- ===== src/Histogram.antt =====
-- The log2 histogram: src/core/histograms.hpp and src/core/histograms.cpp.
pub mod Buckets
pub mod Samples
pub mod Percentile
mod Tests
use kernel_scope.Prelude.{
  ℕ, zero, suc, ◌+◌, ◌-◌, ◌*◌, ◌/◌, ◌^◌, ◌≤◌, ◌<◌, ◌≡◌, min, ltb, leb, ◌==◌, if◌then◌else◌, List,
  [], ◌∷◌, replicate, fold, u64, u64_mod,
}

abbrev pub bucket_count : ℕ
bucket_count = 64

-- `minimum` and `maximum` are min_ and max_; min_ starts at UINT64_MAX.
pub record Histogram : Type 0 where
  pub buckets : List ℕ
  pub sum : ℕ
  pub minimum : ℕ
  pub maximum : ℕ
  pub count : ℕ

abbrev pub uint64_max : ℕ
uint64_max = u64_mod - 1

unfoldable pub empty : Histogram
empty = record {
  buckets = replicate bucket_count 0;
  sum = 0;
  minimum = uint64_max;
  maximum = 0;
  count = 0;
}

-- std::bit_width: the number of digits of v to the base 2, with fuel for their number.
unfoldable pub bit_width : ℕ → ℕ → ℕ
bit_width zero v = 0
bit_width (suc fuel) v = let more = 1 + bit_width fuel (v / 2) in if v == 0 then 0 else more

-- A uint64_t has at most 64 digits.
unfoldable pub bucket_index : ℕ → ℕ
bucket_index v = if v == 0 then 0 else min (bit_width 64 v - 1) (bucket_count - 1)

-- buckets_[idx]++
unfoldable pub increment : ℕ → List ℕ → List ℕ
increment i [] = []
increment zero (b ∷ bs) = u64 (b + 1) ∷ bs
increment (suc i) (b ∷ bs) = b ∷ increment i bs

-- `Histogram::record`.
unfoldable pub record_value : Histogram → ℕ → Histogram
record_value h v = record {
  buckets = increment (bucket_index v) h.buckets;
  sum = u64 (h.sum + v);
  minimum = if ltb v h.minimum then v else h.minimum;
  maximum = if ltb h.maximum v then v else h.maximum;
  count = u64 (h.count + 1);
}

unfoldable pub reset : Histogram → Histogram
reset h = record h {
  buckets = replicate bucket_count 0;
  sum = 0;
  minimum = uint64_max;
  maximum = 0;
  count = 0;
}

-- What percentile relies on of the double arithmetic in
-- `static_cast<uint64_t>(static_cast<double>(count_) * p / 100.0)`, at a whole number p.
pub record DoubleArithmetic : Type 0 where
  pub threshold : ℕ → ℕ → ℕ
  -- Below 2^53 the product is exact, and the rounded quotient has the same whole part.
  pub exact : (count p : ℕ) → count * p < 2 ^ 53 → threshold count p ≡ count * p / 100

-- lo + (hi - lo) / 2 for the bucket i.
unfoldable pub midpoint : ℕ → ℕ
midpoint i =
    let lo : ℕ = 2 ^ i in
    let hi : ℕ = if ltb (i + 1) 64 then 2 ^ (i + 1) else lo in lo + (hi - lo) / 2

-- The loop over the buckets from i on.
unfoldable pub scan : List ℕ → ℕ → ℕ → ℕ → ℕ → ℕ
scan [] i cumulative threshold largest = largest
scan (b ∷ bs) i cumulative threshold largest =
    let more = scan bs (i + 1) (u64 (cumulative + b)) threshold largest in
    if leb threshold (u64 (cumulative + b)) then midpoint i else more

module _ (d : DoubleArithmetic) where
  unfoldable pub percentile : Histogram → ℕ → ℕ
  percentile h p = if h.count == 0 then 0 else scan h.buckets 0 0 (d.threshold h.count p) h.maximum

-- A histogram that was fed a list of samples.
unfoldable pub recorded : List ℕ → Histogram
unfolding record_value
recorded xs = fold record_value empty xs
