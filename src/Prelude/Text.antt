-- ===== src/Prelude/Text.antt =====
-- std::string as a list of character codes.
use mathlib.Core.Path.{◌≡◌}
use mathlib.Core.Bool.{Bool, true, false, ◌&&◌}
use mathlib.Core.Logic.{◌↔◌}
use mathlib.Core.List.{List, [], ◌∷◌, ◌++◌}
use Prim.Native.Nat.{ℕ, zero, suc, ◌+◌, ◌/◌, ◌%◌}
use native.Mathlib.Omega.{arith}
use kernel_scope.Prelude.Tests.{if◌then◌else◌, Eq, ltb, ◌==◌}

abbrev pub same_text : List ℕ → List ℕ → Bool
same_text [] [] = true
same_text (a ∷ xs) (b ∷ ys) = a == b && same_text xs ys
same_text _ _ = false

pub same_text_iff : (xs ys : List ℕ) → (same_text xs ys ≡ true) ↔ (xs ≡ ys)
same_text_iff [] [] = ground arith
same_text_iff [] (b ∷ ys) = ground arith
same_text_iff (a ∷ xs) [] = ground arith
same_text_iff (a ∷ xs) (b ∷ ys) = ground (arith, same_text_iff xs ys)

instance abbrev pub text_eq : Eq (List ℕ)
text_eq = record { beq = same_text; beq_iff = same_text_iff }

-- One digit of std::format("{:x}", n).
unfoldable pub hex_digit : ℕ → ℕ
hex_digit d = if ltb d 10 then 0x30 + d else 0x57 + d

-- The digits of n to the base 16, with fuel for their number.
unfoldable pub hex_digits : ℕ → ℕ → List ℕ
unfolding hex_digit
hex_digits zero n = []
hex_digits (suc fuel) n =
    let more = hex_digits fuel (n / 16) ++ hex_digit (n % 16) ∷ [] in
    if ltb n 16 then hex_digit n ∷ [] else more

-- std::format("{:x}", n): a uint64_t has at most 16 digits.
unfoldable pub hex : ℕ → List ℕ
unfolding hex_digits
hex = hex_digits 16
