-- ===== src/Domain/Tests.antt =====
-- One measurement, as the simulated source makes them, given to measurement_validate.
use edgevision_gateway.Common.{ℕ, ◌≡◌, ◌↔◌, true, [], ◌∷◌, some}
use edgevision_gateway.Common.Int.{pos}
use edgevision_gateway.Domain.Measurement.{Measurement, valid, measurement_validate, char_array}
use edgevision_gateway.Domain.Measurement.Validate.{IsContract, IsVerdict, measurement_validate_lem}

abbrev sample : Measurement ℕ
sample = record {
  schema_version = 1;
  device_id = char_array 64 (115 ∷ 49 ∷ []);
  sequence = 7;
  timestamp_ms = pos 1000;
  metric = char_array 32 (116 ∷ []);
  value = 20;
  unit = char_array 16 (99 ∷ []);
  quality = 0;
}

measurement_validate_lem_example :
    ((measurement_validate (λ (v : ℕ). true) (some sample) ≡ valid) ↔ IsContract (λ v. true) sample)
    × IsVerdict (λ v. true) sample (measurement_validate (λ (v : ℕ). true) (some sample))
measurement_validate_lem_example = measurement_validate_lem (λ v. true) sample
