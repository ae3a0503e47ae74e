-- ===== src/Domain/Json/Tests.antt =====
-- One measurement written and read, with numbers in place of `double`; its value loses three digits on the way.
use edgevision_gateway.Common.{
  ℕ, ◌-◌, ◌%◌, ◌^◌, ◌<◌, ◌≡◌, refl, arith, true, Option, none, some, List, [], ◌∷◌, ltb, ◌==◌,
  if◌then◌else◌, All,
}
use edgevision_gateway.Common.Int.{ℤ, pos, negsuc}
use edgevision_gateway.Common.Text.{text_eq, c_string}
use edgevision_gateway.Gateway.Interval.{decimal_from}
use edgevision_gateway.Gateway.Interval.Digits.{digits, digits-IsNumeral}
use edgevision_gateway.Domain.Measurement.{Measurement, char_array}
use edgevision_gateway.Domain.Measurement.Validate.{IsContract}
use edgevision_gateway.Domain.Json.{
  JsonFloats, ok, Node, string, number, object, int64_text, quality_text, JsonCalls,
  measurement_from_json, measurement_to_json,
}
use edgevision_gateway.Domain.Json.Words.{
  device_id_key, metric_key, unit_key, schema_version_key, sequence_key, timestamp_ms_key,
  value_key, quality_key, good_text,
}
use edgevision_gateway.Domain.Json.RoundTrip.{IsReadBack, all_members, as_reread, json-roundtrip}
use edgevision_gateway.Domain.Json.Reading.{IsJudged, from_json-IsJudged}

abbrev natural : ℤ → ℕ
natural (pos n) = n
natural (negsuc n) = 0

pub equal_self : (n : ℕ) → (n == n) ≡ true
equal_self n = ground arith

pub below_limit : (n : ℕ) → n < 2 ^ 53 → ltb n (2 ^ 63 - 1) ≡ true
below_limit n h = ground arith

-- In place of the digits that cJSON drops.
abbrev pub rounded : ℕ → ℕ
rounded n = if ltb n (2 ^ 32) then n else n - n % 1000

pub rounded_small : (n : ℕ) → n < 2 ^ 32 → rounded n ≡ n
rounded_small n h = ground arith

-- The natural numbers obey the laws that are asked of `double`.
abbrev pub numbers : JsonFloats
numbers = record {
  Double = ℕ;
  is_finite = λ n. true;
  is_equal = λ m n. m == n;
  is_below = ltb;
  of_int = natural;
  to_uint32 = λ n. n;
  to_int64 = λ n. pos n;
  strtod = decimal_from 0;
  reread = rounded;
  finite_int = λ n h. refl;
  equal_int = λ n h. equal_self n;
  below_int = λ m n h k. refl;
  below_int64 = below_limit;
  uint32_int = λ n h. refl;
  int64_int = λ n h. refl;
  strtod_int = λ n h. (digits-IsNumeral 19 n (omega (arith, h))).value;
  reread_int = rounded_small;
}

abbrev pub sample : Measurement ℕ
sample = record {
  schema_version = 1;
  device_id = char_array 64 (115 ∷ 49 ∷ []);
  sequence = 7;
  timestamp_ms = pos 1000;
  metric = char_array 32 (116 ∷ []);
  value = 4294967297123;
  unit = char_array 16 (99 ∷ []);
  quality = 0;
}

pub sample-IsContract : IsContract (λ n. true) sample
unfolding char_array
sample-IsContract = (
  refl,
  (115 ∷ 49 ∷ [], _, refl, (omega arith, (omega arith, tt)), omega arith, omega arith),
  (116 ∷ [], _, refl, (omega arith, tt), omega arith, omega arith),
  (99 ∷ [], _, refl, (omega arith, tt), omega arith, omega arith),
  omega arith,
  refl,
  omega arith,
  refl,
)

-- What stands under a key.
abbrev pub members : List ℕ → Option (Node ℕ)
members key =
    if text_eq key device_id_key
    then some (string (some (115 ∷ 49 ∷ [])))
    else if text_eq key metric_key
    then some (string (some (116 ∷ [])))
    else if text_eq key unit_key
    then some (string (some (99 ∷ [])))
    else if text_eq key schema_version_key
    then some (number 1)
    else if text_eq key sequence_key
    then some (number 7)
    else if text_eq key timestamp_ms_key
    then some (number 1000)
    else if text_eq key value_key
    then some (number 4294967297000)
    else if text_eq key quality_key
    then some (string (some good_text))
    else none

abbrev pub calls : JsonCalls ℕ
calls = record { is_created = true; can_add = λ key. true; print = λ tree. some (123 ∷ 125 ∷ []) }

pub sample-IsReadBack : All (IsReadBack numbers members) (all_members numbers sample)
unfolding text_eq c_string char_array int64_text quality_text digits decimal_from
sample-IsReadBack = (refl, (refl, (refl, (refl, (refl, (refl, (refl, (refl, tt))))))))

json-roundtrip_example :
    (measurement_to_json numbers calls (some sample) true ≡ (ok, some (123 ∷ 125 ∷ [])))
    × (measurement_from_json numbers
          (λ json. some (object members))
          (some (123 ∷ 125 ∷ []))
          true
          sample
        ≡ (ok, as_reread numbers sample))
json-roundtrip_example =
    json-roundtrip numbers sample 1000 sample-IsContract (omega arith) refl (omega arith) refl calls
      (λ json. some (object members)) members (123 ∷ 125 ∷ []) sample refl (λ key. refl) refl refl
      refl sample-IsReadBack

from_json-IsJudged_example :
    IsJudged numbers
      (λ json. some (object members))
      (some (123 ∷ 125 ∷ []))
      sample
      (measurement_from_json numbers
        (λ json. some (object members))
        (some (123 ∷ 125 ∷ []))
        true
        sample)
from_json-IsJudged_example =
    from_json-IsJudged numbers (λ json. some (object members)) (some (123 ∷ 125 ∷ [])) true sample
