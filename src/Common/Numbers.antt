-- ===== src/Common/Numbers.antt =====
-- What the source uses of Go's `strconv`: decimal texts of numbers.
use Prim.Native.Nat.{ℕ, zero, suc, ◌+◌, ◌*◌, ◌-◌, ◌^◌, ◌/◌, ◌%◌}
use Prim.Native.String.{String, ◌++◌}
use Prim.Native.Char.{Char, code}
use mathlib.Core.Bool.{Bool, ◌&&◌}
use mathlib.Core.Option.{Option, none, some}
use findy_agent.Common.Tests.{if◌then◌else◌, ltb, leb, eqb}

abbrev pub digit : ℕ → String
digit zero = "0"
digit (suc zero) = "1"
digit (suc (suc zero)) = "2"
digit (suc (suc (suc zero))) = "3"
digit (suc (suc (suc (suc zero)))) = "4"
digit (suc (suc (suc (suc (suc zero))))) = "5"
digit (suc (suc (suc (suc (suc (suc zero)))))) = "6"
digit (suc (suc (suc (suc (suc (suc (suc zero))))))) = "7"
digit (suc (suc (suc (suc (suc (suc (suc (suc zero)))))))) = "8"
digit _ = "9"

-- The digits of a number, the last one first to be found; the number itself is fuel enough.
unfoldable pub digits : ℕ → ℕ → String
digits zero n = digit (n % 10)
digits (suc fuel) n =
    let rest = digits fuel (n / 10) in if ltb n 10 then digit n else rest ++ digit (n % 10)

-- strconv.Itoa of a number that is not negative
unfoldable pub itoa : ℕ → String
unfolding digits
itoa n = digits n n

-- Go's int64.
pub data ℤ : Type 0 where
  pos negsuc : ℕ → ℤ

abbrev pub is_digit : Char → Bool
is_digit c = leb b'0' (code c) && leb (code c) b'9'

-- The value of a text of digits after the digits read so far.
unfoldable pub read_digits : ℕ → String → Option ℕ
read_digits so_far String.[] = some so_far
read_digits so_far (String.◌∷◌ c s) =
    let rest = read_digits (10 * so_far + (code c - b'0')) s in if is_digit c then rest else none

-- At least one digit.
unfoldable pub read_nat : String → Option ℕ
unfolding read_digits
read_nat String.[] = none
read_nat (String.◌∷◌ c s) = read_digits 0 (String.◌∷◌ c s)

-- A value out of range is cut off at the end of the range.
abbrev max_int64 : ℕ
max_int64 = 2 ^ 63 - 1

abbrev clamp_pos : Option ℕ → ℤ
clamp_pos none = pos 0
clamp_pos (some n) = if leb n max_int64 then pos n else pos max_int64

abbrev clamp_neg : Option ℕ → ℤ
clamp_neg none = pos 0
clamp_neg (some zero) = pos 0
clamp_neg (some (suc n)) = if leb n max_int64 then negsuc n else negsuc max_int64

-- `value, _ := strconv.ParseInt(s, 10, 64)`: the value that comes with an error is kept.
unfoldable pub parse_int : String → ℤ
unfolding read_nat
parse_int String.[] = pos 0
parse_int (String.◌∷◌ c s) =
    if eqb (code c) b'-'
    then clamp_neg (read_nat s)
    else if eqb (code c) b'+'
    then clamp_pos (read_nat s)
    else clamp_pos (read_nat (String.◌∷◌ c s))
