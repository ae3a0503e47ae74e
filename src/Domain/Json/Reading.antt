-- ===== src/Domain/Json/Reading.antt =====
-- What measurement_from_json of domain/measurement_json.c accepts, and what it leaves alone.
use edgevision_gateway.Common.{
  ℕ, ◌≤◌, ◌<◌, ◌≡◌, ◌≢◌, ◌⊎◌, inl, inr, refl, sym, ap, arith, Bool, true, not, ◌||◌, Option, none,
  some, List, length, leb, ◌==◌, if_both,
}
use edgevision_gateway.Common.Int.{ℤ, pos}
use edgevision_gateway.Common.Text.{text_eq, text_eq_lem}
use edgevision_gateway.Domain.Measurement.{
  Measurement, ValidationResult, valid, measurement_validate, char_array,
}
use edgevision_gateway.Domain.Measurement.Validate.{IsContract, measurement_validate_lem}
use edgevision_gateway.Domain.Json.{
  JsonFloats, JsonResult, ok, invalid_argument, invalid_measurement, Node, string, number, other,
  Root, not_object, object, Checked, refused, accepted, and_then, string_check, number_check,
  quality_value, quality_check, is_valid, quality_text, schema_check, sequence_check,
  timestamp_check, value_check, assembled, numbers_of, fields_of, output_of, read_root,
  measurement_from_json,
}
use edgevision_gateway.Domain.Json.Words.{
  device_id_key, metric_key, unit_key, schema_version_key, sequence_key, timestamp_ms_key,
  value_key, quality_key, good_text, uncertain_text, bad_text,
}

-- A step that is refused names an error, and one that is accepted satisfies `P`.
abbrev Answers : {A : Type 0} → (A → Type 0) → Checked A → Type 0
Answers P (refused r) = r ≢ ok
Answers P (accepted a) = P a

and_then-Answers :
    {A B : Type 0} (P : A → Type 0) (R : B → Type 0) (x : Checked A) (f : A → Checked B)
    → Answers P x
    → ((a : A) → P a → Answers R (f a))
    → Answers R (and_then x f)
and_then-Answers P R (refused r) f h k = h
and_then-Answers P R (accepted a) f h k = k a h

module _ {Double : Type 0} where
  abbrev IsShort : ℕ → Option (Node Double) → List ℕ → Type 0
  IsShort capacity node text =
      (node ≡ some (string (some text))) × (1 ≤ length text) × (length text < capacity)

  abbrev IsNumber : Option (Node Double) → Double → Type 0
  IsNumber node d = node ≡ some (number d)

  abbrev IsQuality : Option (Node Double) → ℕ → Type 0
  IsQuality node q =
      (text : List ℕ) × (node ≡ some (string (some text))) × (quality_text q ≡ some text)

  string_check-Answers :
      (capacity : ℕ) (node : Option (Node Double))
      → Answers (IsShort capacity node) (string_check capacity node)
  unfolding string_check
  string_check-Answers capacity none = λ e. absurd cc
  string_check-Answers capacity (some (string (some text))) =
      if_both (Answers (IsShort capacity (some (string (some text)))))
        (length text == 0 || leb capacity (length text)) _ _ (λ h. λ e. absurd cc)
        (λ h. (refl, ground arith, ground arith))
  string_check-Answers capacity (some (string none)) = λ e. absurd cc
  string_check-Answers capacity (some (number d)) = λ e. absurd cc
  string_check-Answers capacity (some other) = λ e. absurd cc

  number_check-Answers : (node : Option (Node Double)) → Answers (IsNumber node) (number_check node)
  unfolding number_check
  number_check-Answers none = λ e. absurd cc
  number_check-Answers (some (string t)) = λ e. absurd cc
  number_check-Answers (some (number d)) = refl
  number_check-Answers (some other) = λ e. absurd cc

  quality_check-Answers :
      (node : Option (Node Double)) → Answers (IsQuality node) (quality_check node)
  unfolding quality_check quality_value quality_text
  quality_check-Answers none = λ e. absurd cc
  quality_check-Answers (some (string none)) = λ e. absurd cc
  quality_check-Answers (some (number d)) = λ e. absurd cc
  quality_check-Answers (some other) = λ e. absurd cc
  quality_check-Answers (some (string (some text))) =
      if_both IsWord (text_eq text good_text) _ _
        (λ h. (text, refl, ap some (sym (text_eq_lem _ _ h))))
        (λ h.
          if_both IsWord (text_eq text uncertain_text) _ _
            (λ k. (text, refl, ap some (sym (text_eq_lem _ _ k))))
            (λ k.
              if_both IsWord (text_eq text bad_text) _ _
                (λ l. (text, refl, ap some (sym (text_eq_lem _ _ l)))) (λ l e. absurd cc)))
    where
      IsWord : Checked ℕ → Type 0
      IsWord = Answers (IsQuality (some (string (some text))))

module _ (F : JsonFloats) (get : List ℕ → Option (Node F.Double)) where
  -- The members that stand behind an accepted measurement.
  pub record IsRead (m : Measurement F.Double) : Type 0 where
    pub device_id :
        (text : List ℕ) × (get device_id_key ≡ some (string (some text)))
        × (length text < 64)
        × (m.device_id ≡ char_array 64 text)
    pub metric :
        (text : List ℕ) × (get metric_key ≡ some (string (some text)))
        × (length text < 32)
        × (m.metric ≡ char_array 32 text)
    pub unit :
        (text : List ℕ) × (get unit_key ≡ some (string (some text)))
        × (length text < 16)
        × (m.unit ≡ char_array 16 text)
    pub schema_version :
        (d : F.Double) × (get schema_version_key ≡ some (number d))
        × (m.schema_version ≡ F.to_uint32 d)
    pub sequence :
        (d : F.Double) × (get sequence_key ≡ some (number d))
        × (m.sequence ≡ F.to_uint32 d)
        × (F.is_equal d (F.of_int (pos m.sequence)) ≡ true)
    pub timestamp_ms :
        (d : F.Double) × (get timestamp_ms_key ≡ some (number d))
        × (m.timestamp_ms ≡ F.to_int64 d)
        × (F.is_equal d (F.of_int m.timestamp_ms) ≡ true)
    pub value : get value_key ≡ some (number m.value)
    pub quality :
        (text : List ℕ) × (get quality_key ≡ some (string (some text)))
        × (quality_text m.quality ≡ some text)

  schema-Answers :
      (node : Option (Node F.Double))
      → Answers (IsNumber node) (and_then (number_check node) (schema_check F))
  unfolding schema_check
  schema-Answers node =
      and_then-Answers (IsNumber node) (IsNumber node) (number_check node) (schema_check F)
        (number_check-Answers node)
        (λ d h.
          if_both (Answers (IsNumber node)) (not (F.is_equal d (F.of_int (pos 1)))) _ _
            (λ k e. absurd cc) (λ k. h))

  sequence-Answers :
      (node : Option (Node F.Double))
      → Answers
          (λ d. IsNumber node d × (F.is_equal d (F.of_int (pos (F.to_uint32 d))) ≡ true))
          (and_then (number_check node) (sequence_check F))
  unfolding sequence_check
  sequence-Answers node =
      and_then-Answers (IsNumber node)
        (λ d. IsNumber node d × (F.is_equal d (F.of_int (pos (F.to_uint32 d))) ≡ true))
        (number_check node) (sequence_check F) (number_check-Answers node)
        (λ d h.
          if_both
            (Answers
              (λ d. IsNumber node d × (F.is_equal d (F.of_int (pos (F.to_uint32 d))) ≡ true)))
            _ (refused invalid_measurement) (accepted d) (λ k e. absurd cc)
            (λ k. (h, ground arith)))

  timestamp-Answers :
      (node : Option (Node F.Double))
      → Answers
          (λ d. IsNumber node d × (F.is_equal d (F.of_int (F.to_int64 d)) ≡ true))
          (and_then (number_check node) (timestamp_check F))
  unfolding timestamp_check
  timestamp-Answers node =
      and_then-Answers (IsNumber node)
        (λ d. IsNumber node d × (F.is_equal d (F.of_int (F.to_int64 d)) ≡ true)) (number_check node)
        (timestamp_check F) (number_check-Answers node)
        (λ d h.
          if_both (Answers (λ d. IsNumber node d × (F.is_equal d (F.of_int (F.to_int64 d)) ≡ true)))
            _ (refused invalid_measurement) (accepted d) (λ k e. absurd cc)
            (λ k. (h, ground arith)))

  value-Answers :
      (node : Option (Node F.Double))
      → Answers (IsNumber node) (and_then (number_check node) (value_check F))
  unfolding value_check
  value-Answers node =
      and_then-Answers (IsNumber node) (IsNumber node) (number_check node) (value_check F)
        (number_check-Answers node)
        (λ d h.
          if_both (Answers (IsNumber node)) (not (F.is_finite d)) _ _ (λ k e. absurd cc) (λ k. h))

  abbrev IsWhole : List ℕ → (F.Double → ℤ) → F.Double → Type 0
  IsWhole key back d = IsNumber (get key) d × (F.is_equal d (F.of_int (back d)) ≡ true)

  fields_of-Answers : Answers IsRead (fields_of F get)
  unfolding fields_of numbers_of assembled
  fields_of-Answers =
      and_then-Answers (IsShort 64 (get device_id_key)) IsRead (string_check 64 (get device_id_key))
        _ (string_check-Answers 64 (get device_id_key))
        (λ device_id a.
          and_then-Answers (IsShort 32 (get metric_key)) IsRead (string_check 32 (get metric_key)) _
            (string_check-Answers 32 (get metric_key))
            (λ metric b.
              and_then-Answers (IsShort 16 (get unit_key)) IsRead (string_check 16 (get unit_key)) _
                (string_check-Answers 16 (get unit_key))
                (λ unit c.
                  and_then-Answers (IsNumber (get schema_version_key)) IsRead
                    (and_then (number_check (get schema_version_key)) (schema_check F)) _
                    (schema-Answers (get schema_version_key))
                    (λ schema_version d.
                      and_then-Answers (IsWhole sequence_key (λ d. pos (F.to_uint32 d))) IsRead
                        (and_then (number_check (get sequence_key)) (sequence_check F)) _
                        (sequence-Answers (get sequence_key))
                        (λ sequence e.
                          and_then-Answers (IsWhole timestamp_ms_key F.to_int64) IsRead
                            (and_then (number_check (get timestamp_ms_key)) (timestamp_check F)) _
                            (timestamp-Answers (get timestamp_ms_key))
                            (λ timestamp_ms f.
                              and_then-Answers (IsNumber (get value_key)) IsRead
                                (and_then (number_check (get value_key)) (value_check F)) _
                                (value-Answers (get value_key))
                                (λ value g.
                                  and_then-Answers (IsQuality (get quality_key)) IsRead
                                    (quality_check (get quality_key))
                                    (λ quality. accepted (
                                      assembled F device_id metric unit schema_version sequence
                                        timestamp_ms value quality))
                                    (quality_check-Answers (get quality_key))
                                    (λ quality h. record {
                                      device_id = (device_id, a.0, a.2, refl);
                                      metric = (metric, b.0, b.2, refl);
                                      unit = (unit, c.0, c.2, refl);
                                      schema_version = (schema_version, d, refl);
                                      sequence = (sequence, e.0, refl, e.1);
                                      timestamp_ms = (timestamp_ms, f.0, refl, f.1);
                                      value = g;
                                      quality = h;
                                    }))))))))

module _ (F : JsonFloats) (parse : List ℕ → Option (Root F.Double)) where
  abbrev pub IsJudged :
      Option (List ℕ) → Measurement F.Double → JsonResult × Measurement F.Double → Type 0
  IsJudged json before (r, m) =
      ((r ≡ ok)
        × (text : List ℕ) × (get : List ℕ → Option (Node F.Double)) × (json ≡ some text)
        × (parse text ≡ some (object get))
        × IsRead F get m
        × IsContract F.is_finite m)
      ⊎ ((r ≢ ok) × (m ≡ before))

  is_valid_lem : (r : ValidationResult) → is_valid r ≡ true → r ≡ valid
  is_valid_lem valid h = refl
  is_valid_lem _ h = absurd cc

  output_of-IsJudged :
      (text : List ℕ) (get : List ℕ → Option (Node F.Double)) (before : Measurement F.Double)
      (x : Checked (Measurement F.Double))
      → parse text ≡ some (object get)
      → Answers (IsRead F get) x
      → IsJudged (some text) before (output_of F before x)
  unfolding output_of
  output_of-IsJudged text get before (refused r) parsed bad = inr (bad, refl)
  output_of-IsJudged text get before (accepted m) parsed is =
      if_both (IsJudged (some text) before) (is_valid (measurement_validate F.is_finite (some m))) _
        _
        (λ h. inl (
          refl,
          text,
          get,
          refl,
          parsed,
          is,
          (measurement_validate_lem F.is_finite m).0.0
              (is_valid_lem (measurement_validate F.is_finite (some m)) h),
        ))
        (λ h. inr (λ e. absurd cc, refl))

  root-IsJudged :
      (text : List ℕ) (before : Measurement F.Double) (root : Option (Root F.Double))
      → parse text ≡ root
      → IsJudged (some text) before (read_root F before root)
  unfolding read_root
  root-IsJudged text before none e = inr (λ k. absurd cc, refl)
  root-IsJudged text before (some not_object) e = inr (λ k. absurd cc, refl)
  root-IsJudged text before (some (object get)) e =
      output_of-IsJudged text get before (fields_of F get) e (fields_of-Answers F get)

  -- Whatever the text and whatever cJSON makes of it: measurement_from_json either succeeds, and its output
  -- holds what stands under the eight keys of an object, the strings with their zero inside their arrays, the
  -- sequence number and the time without a fraction, and meets the contract of a measurement; or
  -- it names an error and leaves its output as it was.
  pub from_json-IsJudged :
      (json : Option (List ℕ)) (has_output : Bool) (before : Measurement F.Double)
      → IsJudged json before (measurement_from_json F parse json has_output before)
  unfolding measurement_from_json
  from_json-IsJudged none has_output before = inr (λ e. absurd cc, refl)
  from_json-IsJudged (some text) has_output before =
      if_both (IsJudged (some text) before) (length text == 0 || not has_output)
        (invalid_argument, before) _ (λ h. inr (λ e. absurd cc, refl))
        (λ h. root-IsJudged text before (parse text) refl)
