-- ===== src/Domain/Measurement/Validate.antt =====
-- measurement_validate of domain/measurement.c: it accepts the measurements of the contract and no
-- others, and what it names as wrong is wrong.
use edgevision_gateway.Common.{
  ℕ, zero, suc, ◌≤◌, ◌<◌, ◌≡◌, ◌≢◌, ◌↔◌, refl, ap, subst, arith, Bool, true, false, not, ◌||◌, List,
  [], ◌∷◌, ◌++◌, get_or, take, length, ◌==◌, ◌!=◌, ltb, ==_false, if_both, All, some,
}
use edgevision_gateway.Common.Int.{pos, leb_ℤ}
use edgevision_gateway.Domain.Measurement.{
  Measurement, ValidationResult, valid, invalid_argument, unsupported_schema, invalid_device_id,
  invalid_sequence, invalid_timestamp, invalid_metric, invalid_value, invalid_unit, invalid_quality,
  has_zero, measurement_string_is_valid, measurement_validate, char_array,
}

-- A text of at least one character, ended by a zero within the array.
abbrev pub IsText : List ℕ → ℕ → Type 0
IsText array capacity =
    (text : List ℕ) × (rest : List ℕ) × (array ≡ text ++ 0 ∷ rest)
    × All (λ c. c ≢ 0) text
    × (1 ≤ length text)
    × (length text < capacity)

-- A text that fits a char array.
pub char_array-text :
    (capacity : ℕ) (text : List ℕ)
    → length text < capacity
    → (rest : List ℕ) × (char_array capacity text ≡ text ++ 0 ∷ rest)
unfolding char_array
char_array-text zero text h = absurd (omega arith)
char_array-text (suc n) [] h = (char_array n [], refl)
char_array-text (suc n) (c ∷ text) h =
    let (rest, is) = char_array-text n text (omega arith) in (rest, ap (λ t. c ∷ t) is)

has_zero_inv :
    (n : ℕ) (bytes : List ℕ)
    → has_zero (take n bytes) ≡ true
    → (text : List ℕ) × (rest : List ℕ) × (bytes ≡ text ++ 0 ∷ rest)
      × All (λ c. c ≢ 0) text
      × (length text < n)
unfolding has_zero
has_zero_inv zero bytes h = cc
has_zero_inv (suc n) [] h = cc
has_zero_inv (suc n) (zero ∷ bytes) h = ([], bytes, refl, tt, omega arith)
has_zero_inv (suc n) (suc c ∷ bytes) h =
    let (text, rest, whole, no_zero, short) = has_zero_inv n bytes (ground arith) in
    (suc c ∷ text, rest, ap (λ (t : List ℕ). suc c ∷ t) whole, (omega arith, no_zero), omega arith)

has_zero_text :
    (n : ℕ) (text rest : List ℕ) → length text < n → has_zero (take n (text ++ 0 ∷ rest)) ≡ true
unfolding has_zero
has_zero_text zero text rest h = absurd (omega arith)
has_zero_text (suc n) [] rest h = refl
has_zero_text (suc n) (zero ∷ text) rest h = refl
has_zero_text (suc n) (suc c ∷ text) rest h =
    let found = has_zero_text n text rest (omega arith) in ground arith

array-IsText :
    (array : List ℕ) (capacity : ℕ)
    → (get_or array 0 0 == 0) ≡ false
    → has_zero (take capacity array) ≡ true
    → IsText array capacity
array-IsText array capacity first zero_in =
    let (text, rest, whole, no_zero, short) = has_zero_inv capacity array zero_in in
    (text, rest, whole, no_zero, some_char text rest (rw whole at first), short)
  where
    some_char :
        (text rest : List ℕ) → (get_or (text ++ 0 ∷ rest) 0 0 == 0) ≡ false → 1 ≤ length text
    some_char [] rest h = ground arith
    some_char (c ∷ text) rest h = omega arith

IsText-has_zero :
    (array : List ℕ) (capacity : ℕ)
    → IsText array capacity
    → ((get_or array 0 0 == 0) ≡ false) × (has_zero (take capacity array) ≡ true)
IsText-has_zero array capacity ([], rest, whole, no_zero, long, short) = absurd (omega arith)
IsText-has_zero array capacity (c ∷ text, rest, whole, no_zero, long, short) =
    (rw whole (==_false c 0 (no_zero.0)), rw whole (has_zero_text capacity (c ∷ text) rest short))

string_valid-IsText :
    (array : List ℕ) (capacity : ℕ)
    → (measurement_string_is_valid array capacity ≡ true) ↔ IsText array capacity
unfolding measurement_string_is_valid
string_valid-IsText array capacity = (
  λ h. array-IsText array capacity (ground arith) (ground arith),
  λ is.
      let (first, zero_in) = IsText-has_zero array capacity is in
      let (text, rest, whole, no_zero, long, short) = is in ground arith,
)

module _ {Double : Type 0} (is_finite : Double → Bool) where
  -- What measurement.h asks of a measurement.
  abbrev pub IsContract : Measurement Double → Type 0
  IsContract m =
      (m.schema_version ≡ 1)
      × IsText m.device_id 64
      × IsText m.metric 32
      × IsText m.unit 16
      × (1 ≤ m.sequence)
      × (leb_ℤ m.timestamp_ms (pos 0) ≡ false)
      × (m.quality ≤ 2)
      × (is_finite m.value ≡ true)

  -- What each result says of the measurement.
  abbrev pub IsVerdict : Measurement Double → ValidationResult → Type 0
  IsVerdict m valid = IsContract m
  IsVerdict m invalid_argument = ⊥
  IsVerdict m unsupported_schema = m.schema_version ≢ 1
  IsVerdict m invalid_device_id = ¬ IsText m.device_id 64
  IsVerdict m invalid_sequence = m.sequence ≡ 0
  IsVerdict m invalid_timestamp = leb_ℤ m.timestamp_ms (pos 0) ≡ true
  IsVerdict m invalid_metric = ¬ IsText m.metric 32
  IsVerdict m invalid_value = is_finite m.value ≡ false
  IsVerdict m invalid_unit = ¬ IsText m.unit 16
  IsVerdict m invalid_quality = 2 < m.quality

  not-IsText :
      (array : List ℕ) (capacity : ℕ)
      → not (measurement_string_is_valid array capacity) ≡ true
      → ¬ IsText array capacity
  not-IsText array capacity h is = let t = (string_valid-IsText array capacity).1 is in ground arith

  is_text :
      (array : List ℕ) (capacity : ℕ)
      → not (measurement_string_is_valid array capacity) ≡ false
      → IsText array capacity
  is_text array capacity h = (string_valid-IsText array capacity).0 (ground arith)

  validate_both :
      (P : ValidationResult → Type 0) (m : Measurement Double)
      → ((m.schema_version != 1) ≡ true → P unsupported_schema)
      → (¬ IsText m.device_id 64 → P invalid_device_id)
      → (¬ IsText m.metric 32 → P invalid_metric)
      → (¬ IsText m.unit 16 → P invalid_unit)
      → ((m.sequence == 0) ≡ true → P invalid_sequence)
      → (leb_ℤ m.timestamp_ms (pos 0) ≡ true → P invalid_timestamp)
      → ((ltb m.quality 0 || ltb 2 m.quality) ≡ true → P invalid_quality)
      → (not (is_finite m.value) ≡ true → P invalid_value)
      → (IsContract m → P valid)
      → P (measurement_validate is_finite (some m))
  unfolding measurement_validate
  validate_both P m bad_schema bad_device bad_metric bad_unit bad_seq bad_time bad_quality bad_value
        good =
      if_both P _ _ _ bad_schema (λ schema.
        if_both P _ _ _ (λ h. bad_device (not-IsText m.device_id 64 h))
          (λ device.
            if_both P _ _ _ (λ h. bad_metric (not-IsText m.metric 32 h))
              (λ metric.
                if_both P _ _ _ (λ h. bad_unit (not-IsText m.unit 16 h))
                  (λ unit. if_both P _ _ _ bad_seq (λ sequence.
                    if_both P _ _ _ bad_time (λ timestamp. if_both P _ _ _ bad_quality (λ quality.
                      if_both P _ _ _ bad_value (λ value. good (
                        ground arith,
                        is_text m.device_id 64 device,
                        is_text m.metric 32 metric,
                        is_text m.unit 16 unit,
                        ground arith,
                        timestamp,
                        ground arith,
                        ground arith,
                      )))))))))

  validate-IsVerdict :
      (m : Measurement Double) → IsVerdict m (measurement_validate is_finite (some m))
  validate-IsVerdict m =
      validate_both (IsVerdict m) m (λ h. ground arith) (λ h. h) (λ h. h) (λ h. h)
        (λ h. ground arith) (λ h. h) (λ h. ground arith) (λ h. ground arith) (λ h. h)

  valid_of_contract :
      (m : Measurement Double) (r : ValidationResult) → IsVerdict m r → IsContract m → r ≡ valid
  valid_of_contract m valid v c = refl
  valid_of_contract m invalid_argument v c = absurd v
  valid_of_contract m unsupported_schema v c = absurd (v c.0)
  valid_of_contract m invalid_device_id v c = absurd (v c.1)
  valid_of_contract m invalid_sequence v c = ground arith
  valid_of_contract m invalid_timestamp v c = ground arith
  valid_of_contract m invalid_metric v c = absurd (v c.2)
  valid_of_contract m invalid_value v c = ground arith
  valid_of_contract m invalid_unit v c = absurd (v c.3)
  valid_of_contract m invalid_quality v c = ground arith

  -- A measurement is valid exactly when it meets the contract of measurement.h: schema 1, three texts
  -- of at least one character and at most 63, 31 and 15, a positive sequence number and time, a
  -- quality of the enumeration and a finite value. For another one the result names a field that
  -- breaks the contract.
  pub measurement_validate_lem :
      (m : Measurement Double)
      → ((measurement_validate is_finite (some m) ≡ valid) ↔ IsContract m)
        × IsVerdict m (measurement_validate is_finite (some m))
  measurement_validate_lem m =
      let verdict = validate-IsVerdict m in
      ((λ e. subst (λ r. IsVerdict m r) e verdict, valid_of_contract m _ verdict), verdict)
