-- ===== src/Source/Stm32/Sequence.antt =====
-- stm32_next of modules/source/stm32_modbus_source.c: what it delivers is valid, and numbered without
-- a gap, although a transaction brings two measurements and fails at any time.
use edgevision_gateway.Common.{
  ℕ, ◌+◌, ◌^◌, ◌≡◌, refl, sym, arith, true, not, ◌||◌, Option, none, some, u32, ltb, ◌==◌, ◌-◌,
  if◌then◌else◌, if_both,
}
use edgevision_gateway.Common.Int.{ℤ, pos, ltb_ℤ, leb_ℤ}
use edgevision_gateway.Domain.Floats.{Floats}
use edgevision_gateway.Domain.Measurement.{
  Measurement, ValidationResult, valid, invalid_argument, unsupported_schema, invalid_device_id,
  invalid_sequence, invalid_timestamp, invalid_metric, invalid_value, invalid_unit, invalid_quality,
  measurement_validate,
}
use edgevision_gateway.Serial.Send.{Port}
use edgevision_gateway.Source.{SourceResult, ok, no_data, error, temperature, celsius}
use edgevision_gateway.Source.Stm32.{
  Query, query_error, query_no_data, unfinished, query_ok, Env, Stm32Source, is_valid, reading,
  realtime_milliseconds, humidity, percent, valid_pair, map_measurements, deliver, after_query,
  fresh_reading, pending_or_query, stm32_next,
}

is_valid_inv : (r : ValidationResult) → is_valid r ≡ true → r ≡ valid
unfolding is_valid
is_valid_inv valid h = refl
is_valid_inv invalid_argument h = absurd cc
is_valid_inv unsupported_schema h = absurd cc
is_valid_inv invalid_device_id h = absurd cc
is_valid_inv invalid_sequence h = absurd cc
is_valid_inv invalid_timestamp h = absurd cc
is_valid_inv invalid_metric h = absurd cc
is_valid_inv invalid_value h = absurd cc
is_valid_inv invalid_unit h = absurd cc
is_valid_inv invalid_quality h = absurd cc

module _ (F : Floats) where
  abbrev pub IsValid : Measurement F.Double → Type 0
  IsValid m = measurement_validate F.is_finite (some m) ≡ valid

  -- A pending measurement is valid, and its number comes before the next one.
  abbrev PendingFits : ℕ → Option (Measurement F.Double) → Type 0
  PendingFits next none = Unit
  PendingFits next (some m) = IsValid m × (u32 (m.sequence + 1) ≡ next)

  abbrev pub IsReady : Stm32Source F.Double → Type 0
  IsReady source = PendingFits source.next_sequence source.pending

  -- The number of the measurement that is to be delivered next.
  abbrev due_of : ℕ → Option (Measurement F.Double) → ℕ
  due_of next none = next
  due_of next (some m) = m.sequence

  abbrev pub due : Stm32Source F.Double → ℕ
  due source = due_of source.next_sequence source.pending

  -- What a call that is finished has done.
  abbrev pub IsStep :
      Stm32Source F.Double
      → Option (SourceResult (Measurement F.Double) × Stm32Source F.Double)
      → Type 0
  IsStep source none = Unit
  IsStep source (some (ok m, later)) =
      IsReady later × IsValid m × (m.sequence ≡ due source) × (due later ≡ u32 (due source + 1))
  IsStep source (some (no_data, later)) = IsReady later × (due later ≡ due source)
  IsStep source (some (error, later)) = IsReady later × (due later ≡ due source)

  abbrev PairFits : ℕ → Option (Measurement F.Double × Measurement F.Double) → Type 0
  PairFits next none = Unit
  PairFits next (some (warm, damp)) =
      IsValid warm × IsValid damp × (warm.sequence ≡ next) × (damp.sequence ≡ u32 (next + 1))

  valid_pair-PairFits :
      (next : ℕ) (warm damp : Measurement F.Double)
      → warm.sequence ≡ next
      → damp.sequence ≡ u32 (next + 1)
      → PairFits next (valid_pair F warm damp)
  unfolding valid_pair
  valid_pair-PairFits next warm damp first second =
      if_both (PairFits next)
        (not (is_valid (measurement_validate F.is_finite (some warm)))
          || not (is_valid (measurement_validate F.is_finite (some damp))))
        none (some (warm, damp)) (λ h. tt)
        (λ good. (is_valid_inv _ (ground arith), is_valid_inv _ (ground arith), first, second))

  map_both :
      (P : Option (Measurement F.Double × Measurement F.Double) → Type 0) (next : ℕ)
      (realtime : Option (ℤ × ℕ)) (first second : ℕ)
      → P none
      → ((warm damp : Measurement F.Double)
          → warm.sequence ≡ next
          → damp.sequence ≡ u32 (next + 1)
          → P (valid_pair F warm damp))
      → P (map_measurements F next realtime first second)
  unfolding map_measurements reading
  map_both P next realtime first second nothing pair =
      let time = realtime_milliseconds realtime in
      let warm = reading F next time temperature celsius first in
      let damp = reading F (u32 (next + 1)) time humidity percent second in
      if_both P (ltb 1000 first || ltb 1000 second || (next == 0) || (next == 2 ^ 32 - 1)) none
        (if leb_ℤ time (pos 0) then none else valid_pair F warm damp) (λ h. nothing)
        (λ in_range.
          if_both P (leb_ℤ time (pos 0)) none (valid_pair F warm damp) (λ h. nothing)
            (λ later. pair warm damp refl refl))

  map-PairFits :
      (next : ℕ) (realtime : Option (ℤ × ℕ)) (first second : ℕ)
      → PairFits next (map_measurements F next realtime first second)
  map-PairFits next realtime first second =
      map_both (PairFits next) next realtime first second tt (valid_pair-PairFits next)

  deliver-IsStep :
      (source : Stm32Source F.Double) (pair : Option (Measurement F.Double × Measurement F.Double))
      → source.pending ≡ none
      → PairFits source.next_sequence pair
      → IsStep source (some (deliver F source pair))
  unfolding deliver
  deliver-IsStep source none h fits = (rw h tt, refl)
  deliver-IsStep source (some (warm, damp)) h (warm_valid, damp_valid, first, second) =
      ((damp_valid, omega arith), warm_valid, rw h first, rw h second)

  after_query-IsStep :
      (source : Stm32Source F.Double) (realtime : Option (ℤ × ℕ)) (query : Query)
      → source.pending ≡ none
      → IsStep source (after_query F source realtime query)
  unfolding after_query
  after_query-IsStep source realtime query_error h = (rw h tt, refl)
  after_query-IsStep source realtime query_no_data h = (rw h tt, refl)
  after_query-IsStep source realtime unfinished h = tt
  after_query-IsStep source realtime (query_ok first second) h =
      deliver-IsStep source _ h (map-PairFits source.next_sequence realtime first second)

  -- The port does not matter for what is delivered.
  same_source :
      (source : Stm32Source F.Double) (port : Port)
      (o : Option (SourceResult (Measurement F.Double) × Stm32Source F.Double))
      → IsStep (record source { port = port }) o
      → IsStep source o
  same_source source port none h = tt
  same_source source port (some (ok m, later)) h = h
  same_source source port (some (no_data, later)) h = h
  same_source source port (some (error, later)) h = h

  fresh-IsStep :
      (source : Stm32Source F.Double) (env : Env) (t : Query × Port)
      → source.pending ≡ none
      → IsStep source (fresh_reading F source env t)
  unfolding fresh_reading
  fresh-IsStep source env (query, port) h =
      same_source source port _
        (after_query-IsStep (record source { port = port }) env.realtime query h)

  pending-IsStep :
      (source : Stm32Source F.Double) (env : Env) (o : Option (Measurement F.Double))
      → source.pending ≡ o
      → IsReady source
      → IsStep source (pending_or_query F source env o)
  unfolding pending_or_query
  pending-IsStep source env (some m) h ready =
      let (is, before) : PendingFits source.next_sequence (some m) = rw h at ready in
      (tt, is, rw h refl, rw h (sym before))
  pending-IsStep source env none h ready = fresh-IsStep source env _ h

  -- A call on a source whose pending measurement, if any, is valid and numbered just before the next
  -- one leaves such a source. If it delivers a measurement, that is valid, carries the number that was
  -- due, and the next number, modulo 2^32, is due behind it. If it delivers none, the same number
  -- stays due: none is skipped, whatever the slave, the line and the clock do.
  pub stm32_next-IsStep :
      (source : Stm32Source F.Double) (env : Env)
      → IsReady source
      → IsStep source (stm32_next F source env)
  unfolding stm32_next
  stm32_next-IsStep source env ready =
      if_both (IsStep source) (ltb_ℤ source.serial_fd (pos 0)) (some (error, source)) _
        (λ h. (ready, refl)) (λ h. pending-IsStep source env source.pending refl ready)
