-- ===== src/Domain/Json.antt =====
-- domain/measurement_json.c: a measurement as a JSON object of eight members, and back. cJSON and the
-- arithmetic of `double` are arguments; the messages on stderr are left out, and
-- snprintf gives no error.
pub mod Words
pub mod Reading
pub mod RoundTrip
pub mod Tests
use edgevision_gateway.Common.{
  ℕ, ◌-◌, ◌^◌, ◌<◌, ◌≡◌, Bool, true, false, not, ◌||◌, Option, none, some, List, [], ◌∷◌, ◌++◌,
  length, ltb, leb, ◌==◌, if◌then◌else◌, suc,
}
use edgevision_gateway.Common.Int.{ℤ, pos, negsuc}
use edgevision_gateway.Common.Text.{text_eq, c_string}
use edgevision_gateway.Gateway.Interval.Digits.{decimal_text}
use edgevision_gateway.Domain.Measurement.{
  Measurement, ValidationResult, valid, measurement_validate, char_array,
}
use Words.{
  device_id_key, metric_key, unit_key, schema_version_key, sequence_key, timestamp_ms_key,
  value_key, quality_key, good_text, uncertain_text, bad_text,
}

-- `double`: its tests == and <, the conversions from and to integers, and strtod; `reread` is what cJSON reads
-- where it has printed a number, which it does with 15 or 17 digits. The laws are those of IEEE 754, which
-- holds every integer below 2 ^ 53; and 15 digits hold an integer of 32 bits.
pub record JsonFloats : Type 1 where
  pub Double : Type 0
  pub is_finite : Double → Bool
  pub is_equal : Double → Double → Bool
  pub is_below : Double → Double → Bool
  pub of_int : ℤ → Double
  pub to_uint32 : Double → ℕ
  pub to_int64 : Double → ℤ
  pub strtod : List ℕ → Double
  pub reread : Double → Double
  pub finite_int : (n : ℕ) → n < 2 ^ 53 → is_finite (of_int (pos n)) ≡ true
  pub equal_int : (n : ℕ) → n < 2 ^ 53 → is_equal (of_int (pos n)) (of_int (pos n)) ≡ true
  pub below_int :
      (m n : ℕ) → m < 2 ^ 53 → n < 2 ^ 53 → is_below (of_int (pos m)) (of_int (pos n)) ≡ ltb m n
  pub below_int64 :
      (n : ℕ) → n < 2 ^ 53 → is_below (of_int (pos n)) (of_int (pos (2 ^ 63 - 1))) ≡ true
  pub uint32_int : (n : ℕ) → n < 2 ^ 32 → to_uint32 (of_int (pos n)) ≡ n
  pub int64_int : (n : ℕ) → n < 2 ^ 53 → to_int64 (of_int (pos n)) ≡ pos n
  pub strtod_int : (n : ℕ) → n < 2 ^ 63 → strtod (decimal_text n) ≡ of_int (pos n)
  pub reread_int : (n : ℕ) → n < 2 ^ 32 → reread (of_int (pos n)) ≡ of_int (pos n)

-- MEASUREMENT_JSON_OK and the MEASUREMENT_JSON_… errors.
pub data JsonResult : Type 0 where
  ok invalid_argument parse_error root_not_object missing_field wrong_type out_of_range
        unsupported_schema invalid_measurement allocation_error :
      JsonResult

-- A member of the parsed object, as the code looks at it: `valuestring`, which may be a null pointer, or
-- `valuedouble`.
pub data Node (Double : Type 0) : Type 0 where
  string : Option (List ℕ) → Node Double
  number : Double → Node Double
  other : Node Double

-- A parsed root; of an object, what cJSON_GetObjectItemCaseSensitive finds in it.
pub data Root (Double : Type 0) : Type 0 where
  not_object : Root Double
  object : (List ℕ → Option (Node Double)) → Root Double

-- The early returns of measurement_from_json.
pub data Checked (A : Type 0) : Type 0 where
  refused : JsonResult → Checked A
  accepted : A → Checked A

abbrev pub and_then : {A B : Type 0} → Checked A → (A → Checked B) → Checked B
and_then (refused r) f = refused r
and_then (accepted a) f = f a

pub string_check : {Double : Type 0} → ℕ → Option (Node Double) → Checked (List ℕ)
string_check capacity none = refused missing_field
string_check capacity (some (string (some text))) =
    if length text == 0 || leb capacity (length text) then refused out_of_range else accepted text
string_check capacity (some node) = refused wrong_type

pub number_check : {Double : Type 0} → Option (Node Double) → Checked Double
number_check none = refused missing_field
number_check (some (number d)) = accepted d
number_check (some node) = refused wrong_type

pub quality_value : List ℕ → Checked ℕ
quality_value text =
    if text_eq text good_text
    then accepted 0
    else if text_eq text uncertain_text
    then accepted 1
    else if text_eq text bad_text
    then accepted 2
    else refused invalid_measurement

pub quality_check : {Double : Type 0} → Option (Node Double) → Checked ℕ
quality_check none = refused missing_field
quality_check (some (string (some text))) = quality_value text
quality_check (some node) = refused wrong_type

abbrev pub is_valid : ValidationResult → Bool
is_valid valid = true
is_valid error = false

-- cJSON_AddStringToObject, cJSON_AddNumberToObject and cJSON_AddRawToObject.
pub data Field (Double : Type 0) : Type 0 where
  text_field : List ℕ → Field Double
  number_field : Double → Field Double
  raw_field : List ℕ → Field Double

pub record Member (Double : Type 0) : Type 0 where
  pub key : List ℕ
  pub field : Field Double

-- What cJSON does in measurement_to_json: whether the object is made, whether the member of a key is
-- added, and what the object is printed as, if there is room for it.
pub record JsonCalls (Double : Type 0) : Type 0 where
  pub is_created : Bool
  pub can_add : List ℕ → Bool
  pub print : List (Member Double) → Option (List ℕ)

pub add_members :
    {Double : Type 0}
    → (List ℕ → Bool)
    → List (Member Double)
    → List (Member Double)
    → Option (List (Member Double))
add_members can_add [] tree = some tree
add_members can_add (m ∷ members) tree =
    let rest = add_members can_add members (tree ++ m ∷ []) in if can_add m.key then rest else none

-- %PRId64.
pub int64_text : ℤ → List ℕ
int64_text (pos n) = decimal_text n
int64_text (negsuc n) = 45 ∷ decimal_text (suc n)

pub quality_text : ℕ → Option (List ℕ)
quality_text quality =
    if quality == 0
    then some good_text
    else if quality == 1
    then some uncertain_text
    else if quality == 2
    then some bad_text
    else none

pub printed : Option (List ℕ) → JsonResult × Option (List ℕ)
printed none = (allocation_error, none)
printed (some json) = (ok, some json)

module _ (F : JsonFloats) where
  pub schema_check : F.Double → Checked F.Double
  schema_check d =
      if not (F.is_equal d (F.of_int (pos 1))) then refused unsupported_schema else accepted d

  pub sequence_check : F.Double → Checked F.Double
  sequence_check d =
      if not (F.is_finite d)
        || F.is_below d (F.of_int (pos 1))
        || F.is_below (F.of_int (pos (2 ^ 32 - 1))) d
        || not (F.is_equal d (F.of_int (pos (F.to_uint32 d))))
      then refused invalid_measurement
      else accepted d

  pub timestamp_check : F.Double → Checked F.Double
  timestamp_check d =
      if not (F.is_finite d)
        || F.is_below d (F.of_int (pos 1))
        || not (F.is_below d (F.of_int (pos (2 ^ 63 - 1))))
        || not (F.is_equal d (F.of_int (F.to_int64 d)))
      then refused invalid_measurement
      else accepted d

  pub value_check : F.Double → Checked F.Double
  value_check d = if not (F.is_finite d) then refused invalid_measurement else accepted d

  -- `temporary`, from the strings and numbers that were checked.
  pub assembled :
      List ℕ
      → List ℕ
      → List ℕ
      → F.Double
      → F.Double
      → F.Double
      → F.Double
      → ℕ
      → Measurement F.Double
  assembled device_id metric unit schema_version sequence timestamp_ms value quality = record {
    schema_version = F.to_uint32 schema_version;
    device_id = char_array 64 device_id;
    sequence = F.to_uint32 sequence;
    timestamp_ms = F.to_int64 timestamp_ms;
    metric = char_array 32 metric;
    value = value;
    unit = char_array 16 unit;
    quality = quality;
  }

  -- The numbers, behind the strings.
  pub numbers_of :
      (List ℕ → Option (Node F.Double)) → List ℕ → List ℕ → List ℕ → Checked (Measurement F.Double)
  numbers_of get device_id metric unit =
      and_then (and_then (number_check (get schema_version_key)) schema_check) (λ schema_version.
        and_then (and_then (number_check (get sequence_key)) sequence_check) (λ sequence.
          and_then (and_then (number_check (get timestamp_ms_key)) timestamp_check) (λ timestamp_ms.
            and_then (and_then (number_check (get value_key)) value_check) (λ value.
              and_then (quality_check (get quality_key)) (λ quality. accepted (
                assembled device_id metric unit schema_version sequence timestamp_ms value
                  quality))))))

  pub fields_of : (List ℕ → Option (Node F.Double)) → Checked (Measurement F.Double)
  fields_of get = and_then (string_check 64 (get device_id_key)) (λ device_id.
      and_then (string_check 32 (get metric_key)) (λ metric.
        and_then (string_check 16 (get unit_key)) (λ unit. numbers_of get device_id metric unit)))

  -- The validation and the only write to `output`.
  pub output_of :
      Measurement F.Double → Checked (Measurement F.Double) → JsonResult × Measurement F.Double
  output_of before (refused r) = (r, before)
  output_of before (accepted m) =
      if is_valid (measurement_validate F.is_finite (some m))
      then (ok, m)
      else (invalid_measurement, before)

  pub read_root : Measurement F.Double → Option (Root F.Double) → JsonResult × Measurement F.Double
  read_root before none = (parse_error, before)
  read_root before (some not_object) = (root_not_object, before)
  read_root before (some (object get)) = output_of before (fields_of get)

  -- `parse` is cJSON_ParseWithLength; `json` is `none` for a null pointer.
  pub measurement_from_json :
      (List ℕ → Option (Root F.Double))
      → Option (List ℕ)
      → Bool
      → Measurement F.Double
      → JsonResult × Measurement F.Double
  measurement_from_json parse none has_output before = (invalid_argument, before)
  measurement_from_json parse (some json) has_output before =
      if length json == 0 || not has_output
      then (invalid_argument, before)
      else read_root before (parse json)

  -- The members up to `sequence`, those behind it, and the last one.
  abbrev pub first_members : Measurement F.Double → List (Member F.Double)
  first_members m =
      record { key = device_id_key; field = text_field (c_string m.device_id) }
      ∷ record { key = metric_key; field = text_field (c_string m.metric) }
      ∷ record { key = unit_key; field = text_field (c_string m.unit) }
      ∷ record { key = schema_version_key; field = number_field (F.of_int (pos m.schema_version)) }
      ∷ record { key = sequence_key; field = number_field (F.of_int (pos m.sequence)) }
      ∷ []

  abbrev pub next_members : Measurement F.Double → List (Member F.Double)
  next_members m =
      record { key = timestamp_ms_key; field = raw_field (int64_text m.timestamp_ms) }
      ∷ record { key = value_key; field = number_field m.value }
      ∷ []

  abbrev pub quality_member : List ℕ → Member F.Double
  quality_member text = record { key = quality_key; field = text_field text }

  pub with_quality :
      JsonCalls F.Double → List (Member F.Double) → Option (List ℕ) → JsonResult × Option (List ℕ)
  with_quality c tree none = (invalid_measurement, none)
  with_quality c tree (some text) = elim (add_members c.can_add (quality_member text ∷ []) tree) [
    | none ↦ (allocation_error, none)
    | some whole ↦ printed (c.print whole)
  ]

  pub with_timestamp :
      JsonCalls F.Double
      → Measurement F.Double
      → List (Member F.Double)
      → JsonResult × Option (List ℕ)
  with_timestamp c m tree =
      if leb 32 (length (int64_text m.timestamp_ms))
      then (allocation_error, none)
      else elim (add_members c.can_add (next_members m) tree) [
        | none ↦ (allocation_error, none)
        | some more ↦ with_quality c more (quality_text m.quality)
      ]

  pub created : JsonCalls F.Double → Measurement F.Double → JsonResult × Option (List ℕ)
  created c m =
      if not c.is_created
      then (allocation_error, none)
      else elim (add_members c.can_add (first_members m) []) [
        | none ↦ (allocation_error, none)
        | some tree ↦ with_timestamp c m tree
      ]

  -- The result, and the text that is handed out.
  pub measurement_to_json :
      JsonCalls F.Double → Option (Measurement F.Double) → Bool → JsonResult × Option (List ℕ)
  measurement_to_json c none has_outputs = (invalid_argument, none)
  measurement_to_json c (some m) has_outputs =
      if not has_outputs
      then (invalid_argument, none)
      else if not (is_valid (measurement_validate F.is_finite (some m)))
      then (invalid_measurement, none)
      else created c m
