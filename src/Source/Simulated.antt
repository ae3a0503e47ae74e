-- ===== src/Source/Simulated.antt =====
-- modules/source/simulated_source.c: measurements that count upwards. Doubles are a parameter. The
-- time is a number, since it starts above 0 and only grows; the texts are those of the C literals.
use edgevision_gateway.Common.{ℕ, ◌+◌, ◌-◌, ◌%◌, ◌^◌, u32, List, [], ◌∷◌}
use edgevision_gateway.Common.Int.{pos}
use edgevision_gateway.Domain.Floats.{Floats}
use edgevision_gateway.Domain.Measurement.{Measurement, char_array}
use edgevision_gateway.Source.{SourceResult, ok, temperature, celsius}

pub record SimulatedSource : Type 0 where
  pub next_sequence : ℕ
  pub next_timestamp_ms : ℕ

abbrev pub simulated_source_init : SimulatedSource
simulated_source_init = record { next_sequence = 1; next_timestamp_ms = 1787623200000 }

-- "sim-temperature-01".
abbrev pub sim_device : List ℕ
sim_device =
    115 ∷ 105 ∷ 109 ∷ 45 ∷ 116 ∷ 101 ∷ 109 ∷ 112 ∷ 101 ∷ 114 ∷ 97 ∷ 116 ∷ 117 ∷ 114 ∷ 101 ∷ 45 ∷ 48
    ∷ 49 ∷ []

module _ (F : Floats) where
  pub simulated_source_next :
      SimulatedSource → SourceResult (Measurement F.Double) × SimulatedSource
  simulated_source_next source = (
    ok (record {
      schema_version = 1;
      device_id = char_array 64 sim_device;
      sequence = source.next_sequence;
      timestamp_ms = pos source.next_timestamp_ms;
      metric = char_array 32 temperature;
      value =
          F.add (F.of_uint 20)
            (F.mul (F.of_uint ((source.next_sequence + 2 ^ 32 - 1) % 2 ^ 32)) F.eighth);
      unit = char_array 16 celsius;
      quality = 0;
    }),
    record {
      next_sequence = u32 (source.next_sequence + 1);
      next_timestamp_ms = source.next_timestamp_ms + 1;
    },
  )
