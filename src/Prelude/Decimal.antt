-- ===== src/Prelude/Decimal.antt =====
-- Decimal numerals: package strconv's Itoa, FormatInt and ParseInt in base 10.
use Prim.Native.Nat.{ℕ, zero, suc, ◌+◌, ◌-◌, ◌*◌, ◌/◌, ◌%◌, ◌^◌, ◌<◌, ◌≤◌}
use mathlib.Core.Path.{◌≡◌, refl, ◌∙◌, ap}
use mathlib.Core.Logic.{inl, inr}
use mathlib.Core.Bool.{Bool, true, false, ◌&&◌}
use mathlib.Core.Option.{Option, none, some}
use mathlib.Core.List.{[], ◌∷◌}
use native.Mathlib.Omega.{arith}
use torana_enterprise.Prelude.Tests.{◌==◌, ltb, leb, if◌then◌else◌, Bool-cases}
use torana_enterprise.Prelude.Int.{ℤ, pos, negsuc, sub_ℕ, IsInt64}
use torana_enterprise.Prelude.Bytes.{Bytes}

-- the digits of `n`, before those of `s`; the fuel is above `n`
digits : ℕ → ℕ → Bytes → Bytes
digits zero n s = s
digits (suc f) n s =
    let rest = digits f (n / 10) ((48 + n % 10) ∷ s) in if ltb n 10 then (48 + n) ∷ s else rest

unfoldable pub format_ℕ : ℕ → Bytes
unfolding digits
format_ℕ n = digits (suc n) n []

unfoldable pub format_int : ℤ → Bytes
unfolding format_ℕ
format_int (pos n) = format_ℕ n
format_int (negsuc n) = b'-' ∷ format_ℕ (suc n)

is_digit : ℕ → Bool
is_digit c = leb 48 c && leb c 57

-- the number that digits stand for, after those read
value : ℕ → Bytes → Option ℕ
unfolding is_digit
value n [] = some n
value n (c ∷ s) = let rest = value (n * 10 + (c - 48)) s in if is_digit c then rest else none

number : Bytes → Option ℕ
unfolding value
number [] = none
number (c ∷ s) = value 0 (c ∷ s)

-- a magnitude under a sign; out of range is an error
signed : Bool → Option ℕ → Option ℤ
signed minus none = none
signed true (some n) = if leb n (2 ^ 63) then some (sub_ℕ 0 n) else none
signed false (some n) = if ltb n (2 ^ 63) then some (pos n) else none

unfoldable pub parse_int : Bytes → Option ℤ
unfolding number signed
parse_int [] = none
parse_int (c ∷ s) =
    if c == b'-'
    then signed true (number s)
    else if c == b'+'
    then signed false (number s)
    else signed false (number (c ∷ s))

value_digit : (a d : ℕ) (s : Bytes) → d < 10 → value a ((48 + d) ∷ s) ≡ value (a * 10 + d) s
unfolding value is_digit
value_digit a d s h =
    let digit : is_digit (48 + d) ≡ true = ground arith in
    rw digit (ap (λ k. value k s) {x = a * 10 + (48 + d - 48)} {y = a * 10 + d} (omega arith))

value-digits : (f n : ℕ) (s : Bytes) → n < f → value 0 (digits f n s) ≡ value n s
unfolding digits
value-digits zero n s h = absurd (omega arith)
value-digits (suc f) n s h = elim (Bool-cases (ltb n 10)) [
  | inl t ↦ rw t (
      value_digit 0 n s (ground arith) ∙ ap (λ k. value k s) {x = 0 * 10 + n} {y = n} (omega arith))
  | inr t ↦ rw t (
      value-digits f (n / 10) ((48 + n % 10) ∷ s) (ground arith)
      ∙ value_digit (n / 10) (n % 10) s (omega arith)
      ∙ ap (λ k. value k s) {x = n / 10 * 10 + n % 10} {y = n} (omega arith))
]

-- a numeral begins with a digit
abbrev StartsDigit : Bytes → Type 0
StartsDigit [] = ⊥
StartsDigit (c ∷ s) = (48 ≤ c) × (c ≤ 57)

digits-StartsDigit : (f n : ℕ) (s : Bytes) → n < f → StartsDigit (digits f n s)
unfolding digits
digits-StartsDigit zero n s h = absurd (omega arith)
digits-StartsDigit (suc f) n s h = elim (Bool-cases (ltb n 10)) [
  | inl t ↦ rw t (ground arith)
  | inr t ↦ rw t (digits-StartsDigit f (n / 10) ((48 + n % 10) ∷ s) (ground arith))
]

number_lem : (s : Bytes) → StartsDigit s → number s ≡ value 0 s
unfolding number
number_lem [] h = absurd h
number_lem (c ∷ s) h = refl

number-format_ℕ : (n : ℕ) → number (format_ℕ n) ≡ some n
unfolding format_ℕ
number-format_ℕ n =
    number_lem (digits (suc n) n []) (digits-StartsDigit (suc n) n [] (omega arith))
    ∙ value-digits (suc n) n [] (omega arith)
    ∙ unfold value in refl

unsigned : (s : Bytes) → StartsDigit s → parse_int s ≡ signed false (number s)
unfolding parse_int
unsigned [] h = absurd h
unsigned (c ∷ s) h = ground arith

-- ParseInt reads back what FormatInt wrote.
pub parse_int-format_int : (n : ℤ) → IsInt64 n → parse_int (format_int n) ≡ some n
unfolding format_int signed
parse_int-format_int (pos n) h =
    unsigned (format_ℕ n) (unfold format_ℕ in digits-StartsDigit (suc n) n [] (omega arith))
    ∙ rw (number-format_ℕ n, signed) (ground arith)
parse_int-format_int (negsuc n) h =
    unfold parse_int in rw (number-format_ℕ (suc n), signed) (ground arith)
