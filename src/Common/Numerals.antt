-- ===== src/Common/Numerals.antt =====
-- The decimal text of a number is read as that number.
use Prim.Native.Nat.{ℕ, zero, suc, ◌+◌, ◌*◌, ◌-◌, ◌/◌, ◌%◌, ◌<◌, ◌≤◌}
use Prim.Native.String.{String, ◌++◌}
use Prim.Native.Char.{Char, code}
use mathlib.Core.Path.{◌≡◌, refl, ap, ◌∙◌}
use mathlib.Core.Bool.{true}
use mathlib.Core.Option.{none, some}
use text.Mathlib.TextLemmas.{nil-append, cons-append}
use mathlib.Core.Logic.{inl, inr}
use native.Mathlib.Omega.{arith}
use findy_agent.Common.Tests.{some_inj, Bool-cases, ltb}
use findy_agent.Common.Numbers.{digit, digits, is_digit, read_digits}

read-digit : (acc n : ℕ) → n < 10 → read_digits acc (digit n) ≡ some (10 * acc + n)
unfolding read_digits
read-digit acc zero h = refl
read-digit acc (suc zero) h = refl
read-digit acc (suc (suc zero)) h = refl
read-digit acc (suc (suc (suc zero))) h = refl
read-digit acc (suc (suc (suc (suc zero)))) h = refl
read-digit acc (suc (suc (suc (suc (suc zero))))) h = refl
read-digit acc (suc (suc (suc (suc (suc (suc zero)))))) h = refl
read-digit acc (suc (suc (suc (suc (suc (suc (suc zero))))))) h = refl
read-digit acc (suc (suc (suc (suc (suc (suc (suc (suc zero)))))))) h = refl
read-digit acc (suc (suc (suc (suc (suc (suc (suc (suc (suc zero))))))))) h = refl
read-digit acc (suc (suc (suc (suc (suc (suc (suc (suc (suc (suc n)))))))))) h =
    absurd (omega arith)

-- The digits that are read first say from which value the others are read.
read-append :
    (s t : String) (acc a : ℕ)
    → read_digits acc s ≡ some a
    → read_digits acc (s ++ t) ≡ read_digits a t
unfolding read_digits
read-append String.[] t acc a e = rw nil-append (ap (λ x. read_digits x t) (some_inj e))
read-append (String.◌∷◌ c s) t acc a e = elim (Bool-cases (is_digit c)) [
  | inl here ↦
      rw (cons-append, here) (read-append s t (10 * acc + (code c - b'0')) a (rw here at e))
  | inr out ↦ (let clash : none ≡ some a = rw out at e in cc)
]

-- With fuel enough all digits are written.
pub read-digits : (fuel n : ℕ) → n ≤ fuel → read_digits 0 (digits fuel n) ≡ some n
unfolding digits
read-digits zero n h = read-digit 0 (n % 10) (omega arith) ∙ ap some (omega arith)
read-digits (suc fuel) n h = elim (Bool-cases (ltb n 10)) [
  | inl small ↦ rw small (read-digit 0 n (ground arith) ∙ ap some (omega arith))
  | inr big ↦ rw big (
      read-append (digits fuel (n / 10)) (digit (n % 10)) 0 (n / 10)
        (read-digits fuel (n / 10) (ground arith))
      ∙ read-digit (n / 10) (n % 10) (omega arith)
      ∙ ap some (omega arith))
]

-- A text that is read as a number starts with a digit.
pub read-first :
    (acc : ℕ) (c : Char) (s : String) (n : ℕ)
    → read_digits acc (String.◌∷◌ c s) ≡ some n
    → is_digit c ≡ true
unfolding read_digits
read-first acc c s n e = elim (Bool-cases (is_digit c)) [
  | inl here ↦ here
  | inr out ↦ (let clash : none ≡ some n = rw out at e in cc)
]
