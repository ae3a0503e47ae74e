-- ===== src/Domain/Json/RoundTrip.antt =====
-- A measurement that measurement_to_json writes is read back by measurement_from_json.
use edgevision_gateway.Common.{
  ℕ, zero, suc, ◌-◌, ◌^◌, ◌<◌, ◌≤◌, ◌≡◌, ◌≢◌, refl, sym, ap, subst, ◌∙◌, arith, Bool, true, false,
  Option, none, some, List, [], ◌∷◌, ◌++◌, length, ltb, leb, ◌==◌, ==_false, All, append_assoc,
  append-nil,
}
use edgevision_gateway.Common.Int.{pos, leb_ℤ}
use edgevision_gateway.Common.Text.{text_eq, c_string}
use edgevision_gateway.Gateway.Interval.Digits.{decimal_text, length-digits}
use edgevision_gateway.Domain.Measurement.{Measurement, valid, measurement_validate, char_array}
use edgevision_gateway.Domain.Measurement.Validate.{
  IsText, char_array-text, IsContract, measurement_validate_lem,
}
use edgevision_gateway.Domain.Json.{
  JsonFloats, JsonResult, ok, allocation_error, Node, string, number, Root, object, accepted,
  string_check, number_check, quality_value, quality_check, Field, text_field, number_field,
  raw_field, Member, JsonCalls, add_members, int64_text, quality_text, printed, schema_check,
  sequence_check, timestamp_check, value_check, assembled, numbers_of, fields_of, output_of,
  read_root, measurement_from_json, first_members, next_members, quality_member, with_quality,
  with_timestamp, created, measurement_to_json,
}
use edgevision_gateway.Domain.Json.Words.{
  schema_version_key, sequence_key, timestamp_ms_key, value_key, quality_key,
}

c_string-text : (text rest : List ℕ) → All (λ c. c ≢ 0) text → c_string (text ++ 0 ∷ rest) ≡ text
unfolding c_string
c_string-text [] rest h = refl
c_string-text (c ∷ text) rest (h, more) = rw (==_false c 0 h, c_string-text text rest more) refl

-- A text of a measurement passes the check of its length, and fits its array again.
IsText-back :
    (Double : Type 0) (array : List ℕ) (capacity : ℕ)
    → IsText array capacity
    → (string_check {Double = Double} capacity (some (string (some (c_string array))))
        ≡ accepted (c_string array))
      × IsText (char_array capacity (c_string array)) capacity
unfolding string_check
IsText-back Double array capacity (text, rest, whole, no_zero, long, short) =
    let same : c_string array ≡ text = ap c_string whole ∙ c_string-text text rest no_zero in
    let (more, is) = char_array-text capacity text short in
    rw same (
      rw (==_false (length text) 0 (λ e. omega (arith, e)), short_enough) refl,
      (text, more, is, no_zero, long, short),
    )
  where
    short_enough : leb capacity (length text) ≡ false
    short_enough = ground arith

-- So does the quality.
quality_back :
    (quality : ℕ)
    → quality ≤ 2
    → (text : List ℕ) × (quality_text quality ≡ some text) × (quality_value text ≡ accepted quality)
unfolding quality_text quality_value text_eq
quality_back zero h = (_, refl, refl)
quality_back (suc zero) h = (_, refl, refl)
quality_back (suc (suc zero)) h = (_, refl, refl)
quality_back (suc (suc (suc n))) h = absurd (omega (arith, h))

all_added :
    {Double : Type 0} (can_add : List ℕ → Bool) (members tree : List (Member Double))
    → ((key : List ℕ) → can_add key ≡ true)
    → add_members can_add members tree ≡ some (tree ++ members)
unfolding add_members
all_added can_add [] tree can = ap some (sym (append-nil tree))
all_added can_add (m ∷ members) tree can =
    rw (can m.key) (
      all_added can_add members (tree ++ m ∷ []) can ∙ ap some (append_assoc tree (m ∷ []) members))

module _ (F : JsonFloats) where
  -- What cJSON reads where it has written a member: a text as it was, a number as it is left by the digits
  -- that cJSON prints of it, and a number that is given in digits as strtod takes it.
  abbrev pub node_of : Field F.Double → Node F.Double
  node_of (text_field text) = string (some text)
  node_of (number_field d) = number (F.reread d)
  node_of (raw_field digits) = number (F.strtod digits)

  abbrev pub IsReadBack : (List ℕ → Option (Node F.Double)) → Member F.Double → Type 0
  IsReadBack get m = get m.key ≡ some (node_of m.field)

  -- The object that is printed.
  abbrev pub all_members : Measurement F.Double → List (Member F.Double)
  all_members m =
      first_members F m
      ++ next_members F m
      ++ elim (quality_text m.quality) [ none ↦ [] | some text ↦ quality_member F text ∷ [] ]

  -- The measurement with the value that cJSON reads back, and with zeros behind the end of each text.
  abbrev pub as_reread : Measurement F.Double → Measurement F.Double
  as_reread m = record m {
    device_id = char_array 64 (c_string m.device_id);
    metric = char_array 32 (c_string m.metric);
    unit = char_array 16 (c_string m.unit);
    value = F.reread m.value;
  }

  uint32_back :
      (n : ℕ)
      → 1 ≤ n
      → n < 2 ^ 32
      → sequence_check F (F.of_int (pos n)) ≡ accepted (F.of_int (pos n))
  unfolding sequence_check
  uint32_back n low high =
      let above : ltb n 1 ≡ false = ground arith in
      let below : ltb (2 ^ 32 - 1) n ≡ false = ground arith in
      rw
        (
          F.finite_int n (omega (arith, high)),
          F.below_int n 1 (omega (arith, high)) (omega arith),
          F.below_int (2 ^ 32 - 1) n (omega arith) (omega (arith, high)),
          F.uint32_int n high,
          F.equal_int n (omega (arith, high)),
          above,
          below,
        )
        refl

  int64_back :
      (n : ℕ)
      → 1 ≤ n
      → n < 2 ^ 53
      → timestamp_check F (F.of_int (pos n)) ≡ accepted (F.of_int (pos n))
  unfolding timestamp_check
  int64_back n low high =
      let above : ltb n 1 ≡ false = ground arith in
      rw
        (
          F.finite_int n high,
          F.below_int n 1 high (omega arith),
          F.below_int64 n high,
          F.int64_int n high,
          F.equal_int n high,
          above,
        )
        refl

  quality_written :
      (c : JsonCalls F.Double) (tree : List (Member F.Double)) (text : List ℕ)
      → ((key : List ℕ) → c.can_add key ≡ true)
      → with_quality F c tree (some text) ≡ printed (c.print (tree ++ quality_member F text ∷ []))
  unfolding with_quality
  quality_written c tree text can =
      ap
        (λ (o : Option (List (Member F.Double))). elim o as (λ _. JsonResult × Option (List ℕ)) [
          | none ↦ (allocation_error, none)
          | some whole ↦ printed (c.print whole)
        ])
        (all_added c.can_add (quality_member F text ∷ []) tree can)

  module _ (m : Measurement F.Double) (stamp : ℕ) (contract : IsContract F.is_finite m)
      (sequence_fits : m.sequence < 2 ^ 32) (at : m.timestamp_ms ≡ pos stamp)
      (exact : stamp < 2 ^ 53) (finite : F.is_finite (F.reread m.value) ≡ true) where
    written :
        (c : JsonCalls F.Double) (json : List ℕ)
        → c.is_created ≡ true
        → ((key : List ℕ) → c.can_add key ≡ true)
        → c.print (all_members m) ≡ some json
        → measurement_to_json F c (some m) true ≡ (ok, some json)
    unfolding measurement_to_json created with_timestamp printed int64_text
    written c json is_created can print =
        let is_ok = (measurement_validate_lem F.is_finite m).0.1 contract in
        let (text, word, value) = quality_back m.quality contract.6 in
        let shown : c.print (first_members F m ++ next_members F m ++ quality_member F text ∷ [])
            ≡ some json =
          subst
            (λ (o : Option (List ℕ)).
              c.print (
                first_members F m
                ++ next_members F m
                ++ elim o [ none ↦ [] | some t ↦ quality_member F t ∷ [] ])
              ≡ some json)
            word print in
        rw
          (
            is_ok,
            is_created,
            all_added c.can_add (first_members F m) [] can,
            short_number,
            all_added c.can_add (next_members F m) (first_members F m) can,
            word,
          )
          (quality_written c (first_members F m ++ next_members F m) text can ∙ ap printed shown)
      where
        short_number : leb 32 (length (int64_text m.timestamp_ms)) ≡ false
        short_number =
            let short = length-digits 20 stamp in
            let long : leb 32 (length (decimal_text stamp)) ≡ false = ground (arith, short) in
            rw at long

    assembled_back :
        assembled F
          (c_string m.device_id)
          (c_string m.metric)
          (c_string m.unit)
          (F.of_int (pos 1))
          (F.of_int (pos m.sequence))
          (F.of_int (pos stamp))
          (F.reread m.value)
          m.quality
        ≡ as_reread m
    unfolding assembled
    assembled_back =
        rw
          (
            F.uint32_int 1 (omega arith),
            F.uint32_int m.sequence sequence_fits,
            F.int64_int stamp exact,
            sym (contract.0),
            sym at,
          )
          refl

    numbers_back :
        (get : List ℕ → Option (Node F.Double)) (text : List ℕ)
        → get schema_version_key ≡ some (number (F.of_int (pos m.schema_version)))
        → get sequence_key ≡ some (number (F.of_int (pos m.sequence)))
        → get timestamp_ms_key ≡ some (number (F.strtod (int64_text m.timestamp_ms)))
        → get value_key ≡ some (number (F.reread m.value))
        → get quality_key ≡ some (string (some text))
        → quality_value text ≡ accepted m.quality
        → numbers_of F get (c_string m.device_id) (c_string m.metric) (c_string m.unit)
          ≡ accepted (as_reread m)
    unfolding numbers_of number_check quality_check schema_check value_check int64_text
    numbers_back get text schema sequence timestamp value quality word =
        let read : F.strtod (int64_text m.timestamp_ms) ≡ F.of_int (pos stamp) =
          rw at (F.strtod_int stamp (omega (arith, exact))) in
        rw
          (
            schema ∙ ap (λ n. some (number (F.of_int (pos n)))) (contract.0),
            F.equal_int 1 (omega arith),
            sequence,
            uint32_back m.sequence contract.4 sequence_fits,
            timestamp,
            read,
            int64_back stamp stamp_positive exact,
            value,
            finite,
            quality,
            word,
          )
          (ap accepted assembled_back)
      where
        stamp_positive : 1 ≤ stamp
        stamp_positive =
            let late : leb_ℤ (pos stamp) (pos 0) ≡ false =
              subst (λ t. leb_ℤ t (pos 0) ≡ false) at contract.5 in
            ground (arith, late)

    read_back :
        (parse : List ℕ → Option (Root F.Double)) (get : List ℕ → Option (Node F.Double))
        (json : List ℕ) (before : Measurement F.Double)
        → (length json == 0) ≡ false
        → parse json ≡ some (object get)
        → All (IsReadBack get) (all_members m)
        → measurement_from_json F parse (some json) true before ≡ (ok, as_reread m)
    unfolding measurement_from_json read_root fields_of output_of
    read_back parse get json before some_text parsed back =
        let (text, word, value) = quality_back m.quality contract.6 in
        let whole : All (IsReadBack get)
            (first_members F m ++ next_members F m ++ quality_member F text ∷ []) =
          subst
            (λ (o : Option (List ℕ)). All (IsReadBack get) (
              first_members F m
              ++ next_members F m
              ++ elim o [ none ↦ [] | some t ↦ quality_member F t ∷ [] ]))
            word back in
        let (device_id, device_fits) = IsText-back F.Double m.device_id 64 contract.1 in
        let (metric, metric_fits) = IsText-back F.Double m.metric 32 contract.2 in
        let (unit, unit_fits) = IsText-back F.Double m.unit 16 contract.3 in
        let (a, (b, (c, (d, (e, (f, (g, (h, t)))))))) = whole in
        let is_ok : measurement_validate F.is_finite (some (as_reread m)) ≡ valid =
          (measurement_validate_lem F.is_finite (as_reread m)).0.1 (
            contract.0, device_fits, metric_fits, unit_fits, contract.4, contract.5, contract.6,
            finite,
          ) in
        rw
          (
            some_text,
            parsed,
            a,
            device_id,
            b,
            metric,
            c,
            unit,
            numbers_back get text
                (d
                  ∙ ap (λ x. some (number x))
                      (F.reread_int m.schema_version (omega (arith, contract.0))))
                (e ∙ ap (λ x. some (number x)) (F.reread_int m.sequence sequence_fits)) f g h value,
            is_ok,
          )
          refl

    -- A measurement that meets the contract, with a sequence number of 32 bits and a time below 2 ^ 53, where no
    -- call of cJSON fails, the digits that cJSON prints of the value are those of a finite number, and cJSON
    -- reads back the texts and the digits that it has printed: the text that measurement_to_json hands out is
    -- read by measurement_from_json as the same measurement, but that its value is the one that those digits
    -- stand for, and that each text has zeros behind its end.
    pub json-roundtrip :
        (c : JsonCalls F.Double) (parse : List ℕ → Option (Root F.Double))
        (get : List ℕ → Option (Node F.Double)) (json : List ℕ) (before : Measurement F.Double)
        → c.is_created ≡ true
        → ((key : List ℕ) → c.can_add key ≡ true)
        → c.print (all_members m) ≡ some json
        → (length json == 0) ≡ false
        → parse json ≡ some (object get)
        → All (IsReadBack get) (all_members m)
        → (measurement_to_json F c (some m) true ≡ (ok, some json))
          × (measurement_from_json F parse (some json) true before ≡ (ok, as_reread m))
    json-roundtrip c parse get json before is_created can print some_text parsed back =
        (written c json is_created can print, read_back parse get json before some_text parsed back)
