-- ===== src/Prelude/Int.antt =====
-- Signed integers over the native numbers, and int64_t as a bit pattern.
use Prim.Native.Nat.{ℕ, ◌-◌, ◌^◌, ◌<◌}
use mathlib.Core.Path.{◌≡◌}
use mathlib.Core.Bool.{Bool, true, false}
use mathlib.Core.Logic.{◌↔◌}
use native.Mathlib.Omega.{arith}
use kernel_scope.Prelude.Tests.{ltb, ◌==◌, if◌then◌else◌, Eq}

-- `negsuc n` is -(n + 1).
pub data ℤ : Type 0 where
  pos : ℕ → ℤ
  negsuc : ℕ → ℤ

abbrev pub is_negative : ℤ → Bool
is_negative (pos n) = false
is_negative (negsuc n) = true

abbrev pub equal_ℤ : ℤ → ℤ → Bool
equal_ℤ (pos a) (pos b) = a == b
equal_ℤ (negsuc a) (negsuc b) = a == b
equal_ℤ _ _ = false

pub equal_ℤ_iff : (a b : ℤ) → (equal_ℤ a b ≡ true) ↔ (a ≡ b)
equal_ℤ_iff (pos a) (pos b) = ground arith
equal_ℤ_iff (negsuc a) (negsuc b) = ground arith
equal_ℤ_iff (pos a) (negsuc b) = ground arith
equal_ℤ_iff (negsuc a) (pos b) = ground arith

instance abbrev pub int_eq : Eq ℤ
int_eq = record { beq = equal_ℤ; beq_iff = equal_ℤ_iff }

-- The integers that an int64_t holds.
abbrev pub IsI64 : ℤ → Type 0
IsI64 (pos n) = n < 2 ^ 63
IsI64 (negsuc n) = n < 2 ^ 63

-- The int64_t that a 64-bit pattern stands for, and back.
abbrev pub signed64 : ℕ → ℤ
signed64 w = if ltb w (2 ^ 63) then pos w else negsuc (2 ^ 64 - w - 1)

abbrev pub unsigned64 : ℤ → ℕ
unsigned64 (pos n) = n
unsigned64 (negsuc n) = 2 ^ 64 - n - 1

pub signed64-unsigned64 : (z : ℤ) → IsI64 z → signed64 (unsigned64 z) ≡ z
signed64-unsigned64 (pos n) h = ground arith
signed64-unsigned64 (negsuc n) h = ground arith

pub unsigned64-lt : (z : ℤ) → IsI64 z → unsigned64 z < 2 ^ 64
unsigned64-lt (pos n) h = omega arith
unsigned64-lt (negsuc n) h = omega arith

pub signed64-IsI64 : (w : ℕ) → w < 2 ^ 64 → IsI64 (signed64 w)
signed64-IsI64 w h = ground arith
