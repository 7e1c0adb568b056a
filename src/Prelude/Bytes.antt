-- ===== src/Prelude/Bytes.antt =====
-- Little-endian integers in byte lists. A byte is a number below 256.
use Prim.Native.Nat.{ℕ, zero, suc, ◌+◌, ◌*◌, ◌/◌, ◌%◌, ◌^◌, ◌≤◌, ◌<◌}
use mathlib.Core.Path.{◌≡◌, refl, ap}
use mathlib.Core.Bool.{Bool, true, ◌&&◌}
use kernel_scope.Prelude.Tests.{ltb}
use mathlib.Core.List.{List, [], ◌∷◌, ◌++◌}
use native.Mathlib.Omega.{arith}
use native.Mathlib.Nat.{div-lt_iff_lt-mul, pow-suc, one-le-pow}
use kernel_scope.Prelude.Lists.{length, take, drop, All, take-append_exact, drop-append_exact}

abbrev pub IsByte : ℕ → Type 0
IsByte b = b < 256

abbrev pub le_value : List ℕ → ℕ
le_value [] = 0
le_value (b ∷ bs) = b + 256 * le_value bs

unfoldable pub le_bytes : ℕ → ℕ → List ℕ
le_bytes zero v = []
le_bytes (suc k) v = (v % 256) ∷ le_bytes k (v / 256)

pub length-le_bytes : (k v : ℕ) → length (le_bytes k v) ≡ k
unfolding le_bytes
length-le_bytes zero v = refl
length-le_bytes (suc k) v = ap suc (length-le_bytes k (v / 256))

div-small : (v k : ℕ) → v < 256 ^ suc k → v / 256 < 256 ^ k
div-small v k h = (div-lt_iff_lt-mul (omega arith)).1 (rw pow-suc at h)

pub le_value-le_bytes : (k v : ℕ) → v < 256 ^ k → le_value (le_bytes k v) ≡ v
unfolding le_bytes
le_value-le_bytes zero v h = omega arith
le_value-le_bytes (suc k) v h = omega (arith, le_value-le_bytes k (v / 256) (div-small v k h))

pub le_bytes-IsByte : (k v : ℕ) → All IsByte (le_bytes k v)
unfolding le_bytes
le_bytes-IsByte zero v = tt
le_bytes-IsByte (suc k) v = (omega arith, le_bytes-IsByte k (v / 256))

-- Reading back what stands first.
pub take-le_bytes : (k v : ℕ) (rest : List ℕ) → take k (le_bytes k v ++ rest) ≡ le_bytes k v
take-le_bytes k v rest = take-append_exact (le_bytes k v) rest k (length-le_bytes k v)

pub drop-le_bytes : (k v : ℕ) (rest : List ℕ) → drop k (le_bytes k v ++ rest) ≡ rest
drop-le_bytes k v rest = drop-append_exact (le_bytes k v) rest k (length-le_bytes k v)

pub le_value-lt : (k : ℕ) (bs : List ℕ) → All IsByte bs → length bs ≤ k → le_value bs < 256 ^ k
le_value-lt k [] a h = one-le-pow k 256 (omega arith)
le_value-lt zero (b ∷ bs) a h = absurd (omega arith)
le_value-lt (suc k) (b ∷ bs) a h =
    let ih = le_value-lt k bs a.1 (omega arith) in rw pow-suc (omega arith)

-- Whether every number of a list is a byte, which a concrete list decides.
abbrev pub all_bytes : List ℕ → Bool
all_bytes [] = true
all_bytes (x ∷ xs) = ltb x 256 && all_bytes xs

pub All-bytes : (xs : List ℕ) → all_bytes xs ≡ true → All IsByte xs
All-bytes [] h = tt
All-bytes (x ∷ xs) h = ground (arith, All-bytes xs)
