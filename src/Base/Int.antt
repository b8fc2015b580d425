-- ===== src/Base/Int.antt =====
-- Signed machine integers (int32), which the program compares and prints.
use Prim.Native.Nat.{ℕ, zero, suc}
use mathlib.Core.Option.{Option, none, some}
use mathlib.Core.Bool.{Bool, true, false}
use mathlib.Core.List.{[], ◌∷◌}
use customrouter.Base.Tests.{ltb, leb, ◌==◌, if◌then◌else◌}
use customrouter.Base.Strings.{Text, itoa_nat, unsigned}

-- `negsuc n` is -(n + 1).
pub data ℤ : Type 0 where
  pos : ℕ → ℤ
  negsuc : ℕ → ℤ

abbrev pub int_eq : ℤ → ℤ → Bool
int_eq (pos a) (pos b) = a == b
int_eq (negsuc a) (negsuc b) = a == b
int_eq _ _ = false

abbrev pub int_lt : ℤ → ℤ → Bool
int_lt (pos a) (pos b) = ltb a b
int_lt (pos a) (negsuc b) = false
int_lt (negsuc a) (pos b) = true
int_lt (negsuc a) (negsuc b) = ltb b a

-- `strconv.Itoa`
unfoldable pub itoa : ℤ → Text
unfolding itoa_nat
itoa (pos n) = itoa_nat n
itoa (negsuc n) = b'-' ∷ itoa_nat (suc n)

abbrev pub at_most : ℕ → ℤ → Option ℕ → Option ℤ
at_most bound z none = none
at_most bound z (some n) = if leb n bound then some z else none

-- A minus sign turns the number around; 0 stays 0.
abbrev pub negated : ℕ → ℤ
negated zero = pos 0
negated (suc n) = negsuc n

abbrev pub value_or_zero : Option ℕ → ℕ
value_or_zero none = 0
value_or_zero (some n) = n

-- `strconv.Atoi`, with `none` for a syntax error and for a number that an int64 does not hold.
unfoldable pub atoi : Text → Option ℤ
unfolding unsigned
atoi [] = none
atoi (c ∷ s) =
    if c == b'-'
    then at_most 9223372036854775808 (negated (value_or_zero (unsigned s))) (unsigned s)
    else if c == b'+'
    then at_most 9223372036854775807 (pos (value_or_zero (unsigned s))) (unsigned s)
    else at_most 9223372036854775807 (pos (value_or_zero (unsigned (c ∷ s)))) (unsigned (c ∷ s))
