-- ===== src/Nonce.antt =====
-- agent/utils/nonce.go: nonces, their texts, and those that are in use.
use findy_agent.Common.{
  ℕ, ◌-◌, ◌^◌, ◌<◌, String, false, ◌≡◌, ap, ◌∙◌, some_inj, Option, none, some, if◌then◌else◌, ltb,
  leb, eqb, arith, code,
}
use findy_agent.Common.Table.{Table, nat_eq, put, remove}
use findy_agent.Common.Exec.{Outcome, ok, err, panicked}
use findy_agent.Common.Numbers.{itoa, read_nat, read_digits, digits}
use findy_agent.Common.Numerals.{read-digits, read-first}

-- The set `ns`.
abbrev pub Nonces : Type 0
Nonces = Table ℕ (Unit {0})

unfoldable pub dispose : Nonces → ℕ → Nonces
dispose ns n = remove ns n

unfoldable pub reserve : Nonces → ℕ → Nonces
reserve ns n = put ns n tt

-- DisposeNonce, and ReserveNonce, which gives the nonce back.
unfoldable pub dispose_nonce : Nonces → ℕ → Nonces
dispose_nonce ns n = dispose ns n

unfoldable pub reserve_nonce : Nonces → ℕ → ℕ × Nonces
reserve_nonce ns n = (n, reserve ns n)

-- gen, of what `rand.Int` answers to the bound.
unfoldable pub gen : (ℕ → Outcome ℕ) → Outcome ℕ
gen rand_int = elim (rand_int (2 ^ 63 - 1)) [ ok r ↦ ok r | err e ↦ panicked | panicked ↦ panicked ]

-- NewNonce
unfoldable pub new_nonce : (ℕ → Outcome ℕ) → Outcome ℕ
new_nonce rand_int = gen rand_int

-- NonceToStr
unfoldable pub nonce_to_str : ℕ → String
unfolding itoa
nonce_to_str n = itoa n

-- NewNonceStr
unfoldable pub new_nonce_str : (ℕ → Outcome ℕ) → Outcome String
new_nonce_str rand_int = elim (new_nonce rand_int) [
  | ok n ↦ ok (nonce_to_str n)
  | err e ↦ err e
  | panicked ↦ panicked
]

-- The value that was read if it is within the bound, and zero otherwise.
abbrev within : ℕ → Option ℕ → ℕ
within max none = 0
within max (some n) = if leb n max then n else 0

-- NonceNum: the empty text is read as that of zero.
unfoldable pub nonce_num : String → ℕ
nonce_num String.[] = within (2 ^ 64 - 1) (read_nat "0")
nonce_num (String.◌∷◌ c s) = within (2 ^ 64 - 1) (read_nat (String.◌∷◌ c s))

-- The 64 bits of the negative number.
abbrev negated : ℕ → ℕ
negated n = if eqb n 0 then 0 else 2 ^ 64 - n

-- ParseNonce
unfoldable pub parse_nonce : String → ℕ
parse_nonce String.[] = 0
parse_nonce (String.◌∷◌ c s) =
    if eqb (code c) b'-'
    then negated (within (2 ^ 63) (read_nat s))
    else if eqb (code c) b'+'
    then within (2 ^ 63 - 1) (read_nat s)
    else within (2 ^ 63 - 1) (read_nat (String.◌∷◌ c s))

num_of : (s : String) (n : ℕ) → read_digits 0 s ≡ some n → n < 2 ^ 64 → nonce_num s ≡ n
unfolding nonce_num read_nat read_digits
num_of String.[] n e h = some_inj e
num_of (String.◌∷◌ c s) n e h = ap (λ r. within (2 ^ 64 - 1) r) e ∙ ground arith

parse_of :
    (s : String) (n : ℕ)
    → read_digits 0 s ≡ some n
    → parse_nonce s ≡ (if ltb n (2 ^ 63) then n else 0)
unfolding parse_nonce read_nat read_digits
parse_of String.[] n e = ap (λ n. if ltb n (2 ^ 63) then n else 0) (some_inj e)
parse_of (String.◌∷◌ c s) n e =
    let minus : eqb (code c) b'-' ≡ false = ground (arith, read-first 0 c s n e) in
    let plus : eqb (code c) b'+' ≡ false = ground (arith, read-first 0 c s n e) in
    rw (minus, plus) (ap (λ r. within (2 ^ 63 - 1) r) e ∙ ground arith)

-- The text of a nonce of 64 bits is read back as the nonce by NonceNum; ParseNonce, which reads a signed
-- number, reads back the nonces below 2 ^ 63 and gives zero for the others.
pub nonce_to_str-read :
    (n : ℕ)
    → n < 2 ^ 64
    → (nonce_num (nonce_to_str n) ≡ n)
      × (parse_nonce (nonce_to_str n) ≡ (if ltb n (2 ^ 63) then n else 0))
unfolding nonce_to_str itoa
nonce_to_str-read n h = (
  num_of (digits n n) n (read-digits n n (omega arith)) h,
  parse_of (digits n n) n (read-digits n n (omega arith)),
)
