-- ===== src/Gateway/Interval/Digits.antt =====
-- Printing a number with %d and reading it back with parse_interval_ms.
use edgevision_gateway.Common.{
  ℕ, zero, suc, ◌+◌, ◌*◌, ◌-◌, ◌/◌, ◌%◌, ◌^◌, ◌<◌, ◌≤◌, ◌≡◌, refl, arith, true, false, some, List,
  [], ◌∷◌, ◌++◌, length, ltb, ◌==◌, if◌then◌else◌, if_both, length-append, ==_false, ltb-false,
}
use native.Mathlib.Nat.{pow-suc}
use edgevision_gateway.Gateway.Interval.{
  all_digits, decimal_from, strtol, in_int, parse_interval_ms,
}

-- The digits of a number below 10 ^ fuel.
unfoldable pub digits : ℕ → ℕ → List ℕ
digits zero n = []
digits (suc fuel) n =
    let rest = digits fuel (n / 10) in
    if ltb n 10 then (48 + n) ∷ [] else rest ++ (48 + n % 10) ∷ []

-- What printf writes for %d, %u and PRIu64 of a number that is not negative, below 10 ^ 20.
abbrev pub decimal_text : ℕ → List ℕ
decimal_text n = digits 20 n

decimal_from-append :
    (xs : List ℕ) (value d : ℕ)
    → decimal_from value (xs ++ d ∷ []) ≡ decimal_from value xs * 10 + (d - 48)
unfolding decimal_from
decimal_from-append [] value d = refl
decimal_from-append (x ∷ xs) value d = decimal_from-append xs _ d

all_digits-append :
    (xs : List ℕ) (d : ℕ) → d < 10 → all_digits xs ≡ true → all_digits (xs ++ (48 + d) ∷ []) ≡ true
unfolding all_digits
all_digits-append [] d h e = ground arith
all_digits-append (x ∷ xs) d h e = let ih = all_digits-append xs d h in ground (arith, ih)

-- A text of digits with the given value.
pub record IsNumeral (text : List ℕ) (n : ℕ) : Type 0 where
  pub numeral : all_digits text ≡ true
  pub value : decimal_from 0 text ≡ n
  pub some_digit : 0 < length text

further-IsNumeral :
    (xs : List ℕ) (n : ℕ) → IsNumeral xs (n / 10) → IsNumeral (xs ++ (48 + n % 10) ∷ []) n
unfolding decimal_from
further-IsNumeral xs n t = record {
  numeral = all_digits-append xs (n % 10) (omega arith) t.numeral;
  value = omega (arith, decimal_from-append xs 0 (48 + n % 10), t.value);
  some_digit = omega (arith, length-append xs ((48 + n % 10) ∷ []));
}

pub digits-IsNumeral : (fuel n : ℕ) → n < 10 ^ suc fuel → IsNumeral (digits (suc fuel) n) n
unfolding digits all_digits decimal_from
digits-IsNumeral zero n e =
    if_both (λ (t : List ℕ). IsNumeral t n) (ltb n 10) _ _
      (λ k. record { numeral = ground (arith, k); value = omega arith; some_digit = omega arith })
      (λ k. absurd (ground (arith, k, e)))
digits-IsNumeral (suc fuel) n e =
    let ih = digits-IsNumeral fuel (n / 10) in
    let power = pow-suc 10 (suc fuel) in
    if_both (λ (t : List ℕ). IsNumeral t n) (ltb n 10) _ _
      (λ k. record { numeral = ground (arith, k); value = omega arith; some_digit = omega arith })
      (λ k. further-IsNumeral (digits (suc fuel) (n / 10)) n (ih (omega (arith, e, power))))

pub length-digits : (fuel n : ℕ) → length (digits fuel n) ≤ fuel
unfolding digits
length-digits zero n = omega arith
length-digits (suc fuel) n =
    let ih = length-digits fuel (n / 10) in
    if_both (λ (t : List ℕ). length t ≤ suc fuel) (ltb n 10) _ _ (λ k. omega arith)
      (λ k. omega (arith, ih, length-append (digits fuel (n / 10)) ((48 + n % 10) ∷ [])))

-- A text of digits is read as its value, if that fits an int.
pub parse-numeral :
    (text : List ℕ) (n : ℕ) → IsNumeral text n → n < 2 ^ 31 → parse_interval_ms text ≡ some n
unfolding parse_interval_ms strtol in_int
parse-numeral text n t h =
    let e = t.some_digit in
    let long : (length text == 0) ≡ false = ==_false (length text) 0 (λ k. omega (arith, k, e)) in
    rw
      (
        long,
        t.numeral,
        t.value,
        ltb-false (2 ^ 63 - 1) n (omega (arith, h)),
        ltb-false (2 ^ 31 - 1) n (omega (arith, h)),
      )
      refl
