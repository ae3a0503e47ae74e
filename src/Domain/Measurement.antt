-- ===== src/Domain/Measurement.antt =====
-- domain/measurement.h and domain/measurement.c: Measurement V1 and its validation. A char array is
-- the list of its bytes, as long as the array. Values of uint32_t are numbers, of int64_t integers;
-- `quality` is the number of its enumerator, the enumeration being unsigned.
pub mod Validate
use edgevision_gateway.Common.{
  ℕ, zero, suc, ◌-◌, ◌+◌, Bool, true, false, not, ◌||◌, ◌&&◌, List, [], ◌∷◌, ◌++◌, get_or, take,
  length, ltb, ◌==◌, ◌!=◌, if◌then◌else◌, Option, none, some,
}
use edgevision_gateway.Common.Int.{ℤ, pos, leb_ℤ}

pub record Measurement (Double : Type 0) : Type 0 where
  pub schema_version : ℕ
  pub device_id : List ℕ
  pub sequence : ℕ
  pub timestamp_ms : ℤ
  pub metric : List ℕ
  pub value : Double
  pub unit : List ℕ
  pub quality : ℕ

-- MEASUREMENT_VALID and the MEASUREMENT_… errors.
pub data ValidationResult : Type 0 where
  valid invalid_argument unsupported_schema invalid_device_id invalid_sequence invalid_timestamp
        invalid_metric invalid_value invalid_unit invalid_quality :
      ValidationResult

-- memchr for the byte 0.
pub has_zero : List ℕ → Bool
has_zero [] = false
has_zero (b ∷ bytes) = (b == 0) || has_zero bytes

pub measurement_string_is_valid : List ℕ → ℕ → Bool
unfolding has_zero
measurement_string_is_valid text capacity =
    not ((capacity == 0) || (get_or text 0 0 == 0) || not (has_zero (take capacity text)))

module _ {Double : Type 0} (is_finite : Double → Bool) where
  -- The argument is `none` for a null pointer.
  pub measurement_validate : Option (Measurement Double) → ValidationResult
  measurement_validate none = invalid_argument
  measurement_validate (some m) =
      if m.schema_version != 1
      then unsupported_schema
      else if not (measurement_string_is_valid m.device_id 64)
      then invalid_device_id
      else if not (measurement_string_is_valid m.metric 32)
      then invalid_metric
      else if not (measurement_string_is_valid m.unit 16)
      then invalid_unit
      else if m.sequence == 0
      then invalid_sequence
      else if leb_ℤ m.timestamp_ms (pos 0)
      then invalid_timestamp
      else if ltb m.quality 0 || ltb 2 m.quality
      then invalid_quality
      else if not (is_finite m.value)
      then invalid_value
      else valid

-- A string literal in a char array of the given size.
unfoldable pub char_array : ℕ → List ℕ → List ℕ
char_array zero text = []
char_array (suc n) [] = 0 ∷ char_array n []
char_array (suc n) (c ∷ text) = c ∷ char_array n text
