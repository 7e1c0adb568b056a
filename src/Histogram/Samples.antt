-- ===== src/Histogram/Samples.antt =====
-- What a histogram holds after a list of samples.
use kernel_scope.Prelude.{
  ℕ, zero, suc, ◌+◌, ◌≤◌, ◌<◌, ◌≡◌, refl, arith, ltb, if◌then◌else◌, List, [], ◌∷◌, ◌++◌, length,
  take, sum, keep, fold, All, u64, u64_mod, min, max, maximum, replicate, keep-append,
  length-append, append-nil, append_assoc, take_all, ap, if_true, lt→ltb,
}
use kernel_scope.Histogram.{
  Histogram, empty, bucket_index, increment, record_value, recorded, bucket_count, uint64_max,
}
use kernel_scope.Histogram.Buckets.{bucket_index-bounds}

abbrev pub IsU64 : ℕ → Type 0
IsU64 v = v < u64_mod

-- How many samples lie in the buckets before i.
abbrev pub before_bucket : ℕ → List ℕ → ℕ
before_bucket i xs = length (keep (λ v. ltb (bucket_index v) i) xs)

length-increment : (j : ℕ) (bs : List ℕ) → length (increment j bs) ≡ length bs
unfolding increment
length-increment j [] = refl
length-increment zero (b ∷ bs) = refl
length-increment (suc j) (b ∷ bs) = omega (arith, length-increment j bs)

-- With room left, one bucket grows by one.
sum-take-increment :
    (i j : ℕ) (bs : List ℕ)
    → j < length bs
    → sum bs + 1 < u64_mod
    → sum (take i (increment j bs)) ≡ sum (take i bs) + (if ltb j i then 1 else 0)
unfolding increment
sum-take-increment zero j [] h r = absurd (omega arith)
sum-take-increment (suc i) j [] h r = absurd (omega arith)
sum-take-increment zero zero (b ∷ bs) h r = ground arith
sum-take-increment zero (suc j) (b ∷ bs) h r = ground arith
sum-take-increment (suc i) zero (b ∷ bs) h r = ground arith
sum-take-increment (suc i) (suc j) (b ∷ bs) h r = ground (arith, sum-take-increment i j bs)

-- The buckets and the count agree with a list of samples.
pub record Holds (h : Histogram) (xs : List ℕ) : Type 0 where
  pub size : length h.buckets ≡ bucket_count
  pub total : sum h.buckets ≡ length xs
  pub prefixes : (i : ℕ) → sum (take i h.buckets) ≡ before_bucket i xs
  pub counted : h.count ≡ length xs

empty-prefixes : (i n : ℕ) → sum (take i (replicate n 0)) ≡ 0
empty-prefixes zero n = refl
empty-prefixes (suc i) zero = refl
empty-prefixes (suc i) (suc n) = omega (arith, empty-prefixes i n)

empty-Holds : Holds empty []
unfolding empty
empty-Holds = record {
  size = refl;
  total = refl;
  prefixes = λ i. empty-prefixes i bucket_count;
  counted = refl;
}

-- The sum of all buckets is the last prefix.
total-prefix : (bs : List ℕ) → length bs ≡ bucket_count → sum (take bucket_count bs) ≡ sum bs
total-prefix bs h = ap sum (take_all bucket_count bs (omega arith))

-- A sample that is recorded is one more.
prefix-snoc :
    (i v : ℕ) (xs : List ℕ)
    → before_bucket i (xs ++ v ∷ [])
      ≡ before_bucket i xs + (if ltb (bucket_index v) i then 1 else 0)
prefix-snoc i v xs =
    let split : keep (λ w. ltb (bucket_index w) i) (xs ++ v ∷ [])
        ≡ keep (λ w. ltb (bucket_index w) i) xs ++ keep (λ w. ltb (bucket_index w) i) (v ∷ []) =
      keep-append (λ w. ltb (bucket_index w) i) xs (v ∷ []) in
    rw split (
      ground (
        arith,
        length-append (keep (λ w. ltb (bucket_index w) i) xs)
            (keep (λ w. ltb (bucket_index w) i) (v ∷ [])),
      ))

record_value-Holds :
    (h : Histogram) (xs : List ℕ) (v : ℕ)
    → IsU64 v
    → length xs + 1 < u64_mod
    → Holds h xs
    → Holds (record_value h v) (xs ++ v ∷ [])
unfolding record_value
record_value-Holds h xs v hv room s = record {
  size = omega (arith, length-increment j h.buckets, s.size);
  total = omega (
    arith,
    grown 64,
    total-prefix h.buckets s.size,
    total-prefix (increment j h.buckets) (omega (arith, length-increment j h.buckets, s.size)),
    one,
    length-append xs (v ∷ []),
    s.total,
  );
  prefixes = λ i. omega (arith, grown i, prefix-snoc i v xs, s.prefixes i);
  counted = omega (arith, s.counted, length-append xs (v ∷ []));
}
  where
    j : ℕ
    j = bucket_index v

    grown :
        (i : ℕ)
        → sum (take i (increment j h.buckets)) ≡ sum (take i h.buckets) + (if ltb j i then 1 else 0)
    grown i =
        sum-take-increment i j h.buckets (omega (arith, (bucket_index-bounds v hv).0, s.size))
          (omega (arith, s.total))

    one : ◌≡◌ {A = ℕ} (if ltb j 64 then 1 else 0) 1
    one = if_true 1 0 (lt→ltb j 64 (bucket_index-bounds v hv).0)

fold-Holds :
    (xs ys : List ℕ) (h : Histogram)
    → All IsU64 xs
    → length ys + length xs < u64_mod
    → Holds h ys
    → Holds (fold record_value h xs) (ys ++ xs)
fold-Holds [] ys h a room s = rw append-nil s
fold-Holds (x ∷ xs) ys h a room s = rw append_assoc at (
    fold-Holds xs (ys ++ x ∷ []) (record_value h x) a.1 (omega (arith, length-append ys (x ∷ [])))
      (record_value-Holds h ys x a.0 (omega arith) s))

-- After fewer than 2^64 samples, the first i buckets hold, for every i, as many as there are samples
-- that belong there, all buckets together hold all samples, and the count is their number.
pub recorded-Holds : (xs : List ℕ) → All IsU64 xs → length xs < u64_mod → Holds (recorded xs) xs
unfolding recorded
recorded-Holds xs a room = fold-Holds xs [] empty a (omega arith) empty-Holds

abbrev pub least : List ℕ → ℕ
least [] = uint64_max
least (x ∷ xs) = min x (least xs)

least-le : (xs : List ℕ) → least xs ≤ uint64_max
least-le [] = omega arith
least-le (x ∷ xs) = omega (arith, least-le xs)

-- The four summaries of a list, over a histogram that is given.
abbrev pub Summary : Histogram → List ℕ → Histogram → Type 0
Summary h xs h' =
    (h'.sum ≡ u64 (h.sum + sum xs))
    × (h'.minimum ≡ min h.minimum (least xs))
    × (h'.maximum ≡ max h.maximum (maximum xs))
    × (h'.count ≡ u64 (h.count + length xs))

record_value-Summary :
    (h : Histogram) (v : ℕ)
    → ((record_value h v).sum ≡ u64 (h.sum + v))
      × ((record_value h v).minimum ≡ min h.minimum v)
      × ((record_value h v).maximum ≡ max h.maximum v)
      × ((record_value h v).count ≡ u64 (h.count + 1))
unfolding record_value
record_value-Summary h v = ground arith

pub fold-Summary :
    (xs : List ℕ) (h : Histogram)
    → IsU64 h.sum
    → IsU64 h.count
    → h.minimum < u64_mod
    → Summary h xs (fold record_value h xs)
fold-Summary [] h a b c = omega arith
fold-Summary (x ∷ xs) h a b c =
    let step = record_value-Summary h x in
    omega (
      arith,
      step,
      fold-Summary xs (record_value h x) (omega (arith, step)) (omega (arith, step))
          (omega (arith, step)),
    )

-- After any list of samples: the sum and the count modulo 2^64, the least sample (2^64 - 1 for the
-- empty list) and the largest one (0 for the empty list).
pub recorded-summary :
    (xs : List ℕ)
    → ((recorded xs).sum ≡ u64 (sum xs))
      × ((recorded xs).minimum ≡ least xs)
      × ((recorded xs).maximum ≡ maximum xs)
      × ((recorded xs).count ≡ u64 (length xs))
unfolding recorded empty
recorded-summary xs =
    omega (arith, fold-Summary xs empty (omega arith) (omega arith) (omega arith), least-le xs)
