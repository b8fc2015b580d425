-- ===== src/Base/Strings.antt =====
-- Go strings as lists of bytes, with what the program uses of the package `strings`. Case folding
-- and trimming are those of ASCII text.
use Prim.Native.Nat.{ℕ, zero, suc, ◌+◌, ◌-◌, ◌*◌, ◌/◌, ◌%◌}
use Prim.Native.Char.{code}
use Prim.Native.String.{String}
use mathlib.Core.Path.{◌≡◌, refl}
use mathlib.Core.Logic.{◌↔◌}
use mathlib.Core.Bool.{Bool, true, false, ◌&&◌, ◌||◌}
use mathlib.Core.Option.{Option, none, some}
use mathlib.Core.List.{List, [], ◌∷◌, ◌++◌, map, reverse}
use native.Mathlib.Omega.{arith}
use customrouter.Base.Tests.{ltb, leb, ◌==◌, if◌then◌else◌}
use customrouter.Base.Lists.{length, take, drop, is_empty}

abbrev pub Text : Type 0
Text = List ℕ

-- The bytes of an ASCII literal.
abbrev pub codes : String → Text
codes String.[] = []
codes (String.◌∷◌ c s) = code c ∷ codes s

unfoldable pub text_eq : Text → Text → Bool
text_eq [] [] = true
text_eq (a ∷ s) (b ∷ t) = a == b && text_eq s t
text_eq _ _ = false

text_eq→eq : (s t : Text) → text_eq s t ≡ true → s ≡ t
unfolding text_eq
text_eq→eq [] [] h = refl
text_eq→eq [] (b ∷ t) h = cc
text_eq→eq (a ∷ s) [] h = cc
text_eq→eq (a ∷ s) (b ∷ t) h = ground (arith, text_eq→eq s t)

pub text_eq_refl : (s : Text) → text_eq s s ≡ true
unfolding text_eq
text_eq_refl [] = refl
text_eq_refl (a ∷ s) = ground (arith, text_eq_refl s)

pub text_eq_iff : (s t : Text) → (text_eq s t ≡ true) ↔ (s ≡ t)
text_eq_iff s t = (text_eq→eq s t, λ e. ground (arith, e, text_eq_refl s))

pub text_eq_comm : (a b : Text) → text_eq a b ≡ text_eq b a
text_eq_comm a b = ground (arith, text_eq_iff a b, text_eq_iff b a)

-- `strings.HasPrefix`
unfoldable pub has_prefix : Text → Text → Bool
has_prefix s [] = true
has_prefix [] (b ∷ p) = false
has_prefix (a ∷ s) (b ∷ p) = a == b && has_prefix s p

-- `strings.HasSuffix`
unfoldable pub has_suffix : Text → Text → Bool
unfolding text_eq
has_suffix s p = leb (length p) (length s) && text_eq (drop (length s - length p) s) p

-- `strings.TrimPrefix`
unfoldable pub trim_prefix : Text → Text → Text
unfolding has_prefix
trim_prefix s p = if has_prefix s p then drop (length p) s else s

-- `strings.TrimSuffix`
unfoldable pub trim_suffix : Text → Text → Text
unfolding has_suffix
trim_suffix s p = if has_suffix s p then take (length s - length p) s else s

-- `strings.Contains`
unfoldable pub contains : Text → Text → Bool
unfolding has_prefix
contains [] p = is_empty p
contains (c ∷ s) p = has_prefix (c ∷ s) p || contains s p

-- `strings.ReplaceAll` for a text `old` that is not empty: `skip` counts the bytes of a match that
-- are still to be passed over.
replace_from : Text → Text → ℕ → Text → Text
replace_from old new skip [] = []
replace_from old new (suc skip) (c ∷ s) = replace_from old new skip s
replace_from old new zero (c ∷ s) =
    let hit = replace_from old new (length old - 1) s in
    let miss = replace_from old new 0 s in if has_prefix (c ∷ s) old then new ++ hit else c ∷ miss

unfoldable pub replace_all : Text → Text → Text → Text
unfolding replace_from has_prefix
replace_all s old new = replace_from old new 0 s

-- `strings.Split` at one byte
unfoldable pub cut : ℕ → Text → Text → List Text
cut sep cur [] = cur ∷ []
cut sep cur (c ∷ s) =
    let close = cur ∷ cut sep [] s in
    let keep = cut sep (cur ++ c ∷ []) s in if c == sep then close else keep

unfoldable pub split : Text → ℕ → List Text
unfolding cut
split s sep = cut sep [] s

-- `strings.Join`
unfoldable pub join : List Text → Text → Text
join [] sep = []
join (p ∷ []) sep = p
join (p ∷ q ∷ ps) sep = p ++ sep ++ join (q ∷ ps) sep

-- The text before the first byte that passes a test, and the text from it on, if there is one.
unfoldable pub before_any : (ℕ → Bool) → Text → Text
before_any p [] = []
before_any p (c ∷ s) = if p c then [] else c ∷ before_any p s

unfoldable pub from_any : (ℕ → Bool) → Text → Option Text
from_any p [] = none
from_any p (c ∷ s) = if p c then some (c ∷ s) else from_any p s

-- `strings.ToLower` and `strings.EqualFold`
unfoldable pub lower : ℕ → ℕ
lower c = if leb b'A' c && leb c b'Z' then c + 32 else c

unfoldable pub to_lower : Text → Text
unfolding lower
to_lower = map lower

unfoldable pub equal_fold : Text → Text → Bool
unfolding to_lower text_eq
equal_fold s t = text_eq (to_lower s) (to_lower t)

-- `strings.TrimSpace`
abbrev pub is_space : ℕ → Bool
is_space c = c == b' ' || (leb 9 c && leb c 13)

trim_left : Text → Text
trim_left [] = []
trim_left (c ∷ s) = if is_space c then trim_left s else c ∷ s

unfoldable pub trim_space : Text → Text
unfolding trim_left
trim_space s = reverse (trim_left (reverse (trim_left s)))

-- `strconv.Itoa` on the numbers that are not negative: `fuel` bounds the digits.
unfoldable pub digits : ℕ → ℕ → Text → Text
digits zero n out = out
digits (suc fuel) n out =
    let more = digits fuel (n / 10) ((b'0' + n % 10) ∷ out) in
    if ltb n 10 then (b'0' + n) ∷ out else more

unfoldable pub itoa_nat : ℕ → Text
unfolding digits
itoa_nat n = digits 20 n []

-- The order of Go strings, byte by byte.
unfoldable pub text_lt : Text → Text → Bool
text_lt [] [] = false
text_lt [] (b ∷ t) = true
text_lt (a ∷ s) [] = false
text_lt (a ∷ s) (b ∷ t) =
    let rest = text_lt s t in if ltb a b then true else if a == b then rest else false

-- `strconv.Atoi` on an `int` of 64 bits: an optional sign and at least one digit.
abbrev pub is_digit : ℕ → Bool
is_digit c = leb b'0' c && leb c b'9'

unfoldable pub value_of : ℕ → Text → Option ℕ
value_of acc [] = some acc
value_of acc (c ∷ s) =
    let rest = value_of (acc * 10 + (c - b'0')) s in if is_digit c then rest else none

unfoldable pub unsigned : Text → Option ℕ
unfolding value_of
unsigned [] = none
unsigned (c ∷ s) = value_of 0 (c ∷ s)
