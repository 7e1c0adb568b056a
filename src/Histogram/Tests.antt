-- ===== src/Histogram/Tests.antt =====
-- Runs of the histogram.
use kernel_scope.Prelude.{ℕ, ◌*◌, ◌/◌, ◌≤◌, ◌≡◌, refl, arith, List, [], ◌∷◌, length, All}
use kernel_scope.Histogram.{
  DoubleArithmetic, percentile, recorded, bucket_index, bit_width, increment, midpoint, scan,
}
use kernel_scope.Histogram.Samples.{IsU64}
use kernel_scope.Histogram.Percentile.{AtRank, rank, percentile-AtRank, percentile_mono}

-- Arithmetic that is exact everywhere.
abbrev rational : DoubleArithmetic
rational = record { threshold = λ count p. count * p / 100; exact = λ count p h. refl }

abbrev samples : List ℕ
samples = 5_000_000 ∷ 700 ∷ 1_500 ∷ []

samples-IsU64 : All IsU64 samples
samples-IsU64 = (omega arith, (omega arith, (omega arith, tt)))

-- The midpoint of 1024 and 2048 for the second of three samples.
percentile_run : percentile rational (recorded samples) 67 ≡ 1536
unfolding percentile recorded bucket_index bit_width increment midpoint scan
    kernel_scope.Histogram.empty
percentile_run = refl

percentile-AtRank_example :
    AtRank samples (rank (length samples) 67) (percentile rational (recorded samples) 67)
percentile-AtRank_example =
    percentile-AtRank rational samples samples-IsU64 67 (omega arith) (omega arith) (omega arith)

percentile_mono_example :
    percentile rational (recorded samples) 50 ≤ percentile rational (recorded samples) 99
percentile_mono_example =
    percentile_mono rational samples 50 99 samples-IsU64 (omega arith) (omega arith) (omega arith)
