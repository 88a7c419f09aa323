-- ===== src/Prelude/Integers.antt =====
-- Signed integers of 64 bits as decimal texts: `strconv.Atoi`.
use Prim.Native.Char.{Char, code}
use Prim.Native.Nat.{ℕ, zero, suc, ◌+◌, ◌-◌, ◌*◌, ◌^◌}
use Prim.Native.String.{String}
use mathlib.Core.Bool.{Bool, true, false, not, ◌&&◌}
use mathlib.Core.Option.{Option, none, some}
use lieutenant_operator.Prelude.Tests.{ltb, nat_eq, if◌then◌else◌}

-- `negsuc n` is -(n + 1).
pub data ℤ : Type 0 where
  pos : ℕ → ℤ
  negsuc : ℕ → ℤ

-- `a < b`
abbrev pub int_ltb : ℤ → ℤ → Bool
int_ltb (pos a) (pos b) = ltb a b
int_ltb (pos a) (negsuc b) = false
int_ltb (negsuc a) (pos b) = true
int_ltb (negsuc a) (negsuc b) = ltb b a

abbrev pub is_digit : Char → Bool
is_digit c = not (ltb (code c) b'0') && not (ltb b'9' (code c))

-- The digits of a text behind those read so far.
unfoldable pub digits : ℕ → String → Option ℕ
digits n String.[] = some n
digits n (String.◌∷◌ c s) =
    let rest = digits (n * 10 + (code c - b'0')) s in if is_digit c then rest else none

-- At least one digit.
unfoldable pub number_of : String → Option ℕ
unfolding digits
number_of String.[] = none
number_of (String.◌∷◌ c s) = digits 0 (String.◌∷◌ c s)

abbrev pub int_limit : ℕ
int_limit = 2 ^ 63

-- A magnitude that fits below the limit, and the integer with the sign.
abbrev pub in_range : Option ℕ → Option ℤ
in_range none = none
in_range (some n) = if ltb n int_limit then some (pos n) else none

abbrev negated : ℕ → ℤ
negated zero = pos 0
negated (suc n) = negsuc n

abbrev pub in_range_negated : Option ℕ → Option ℤ
in_range_negated none = none
in_range_negated (some n) = if ltb int_limit n then none else some (negated n)

unfoldable pub atoi : String → Option ℤ
unfolding number_of
atoi String.[] = none
atoi (String.◌∷◌ c s) =
    if nat_eq (code c) b'-'
    then in_range_negated (number_of s)
    else if nat_eq (code c) b'+'
    then in_range (number_of s)
    else in_range (number_of (String.◌∷◌ c s))
