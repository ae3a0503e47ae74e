-- ===== src/Domain/Floats.antt =====
-- The `double` arithmetic that the gateway uses, as a parameter: the C implementation brings it.
use edgevision_gateway.Common.{ℕ, ◌<◌, ◌^◌, ◌≡◌, Bool, true}

-- `of_uint` is the conversion from an unsigned integer, `eighth` the literal 0.125. The two laws are
-- facts of IEEE 754 arithmetic at these sizes.
pub record Floats : Type 1 where
  pub Double : Type 0
  pub is_finite : Double → Bool
  pub of_uint : ℕ → Double
  pub eighth : Double
  pub add : Double → Double → Double
  pub mul : Double → Double → Double
  pub div : Double → Double → Double
  pub finite_ramp :
      (n : ℕ) → n < 2 ^ 32 → is_finite (add (of_uint 20) (mul (of_uint n) eighth)) ≡ true
  pub finite_tenth : (n : ℕ) → n < 2 ^ 16 → is_finite (div (of_uint n) (of_uint 10)) ≡ true
