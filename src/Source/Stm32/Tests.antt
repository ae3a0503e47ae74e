-- ===== src/Source/Stm32/Tests.antt =====
-- A transaction that brings 25.6 degrees and 51.2 percent.
use edgevision_gateway.Common.{ℕ, refl, arith, true, false, none, some, List, [], ◌∷◌}
use edgevision_gateway.Common.Int.{pos}
use edgevision_gateway.Domain.Floats.{Floats}
use edgevision_gateway.Serial.Receive.{events, got, Round}
use edgevision_gateway.Serial.Send.{Look, now_is, wrote}
use edgevision_gateway.Source.Stm32.{Env, Stm32Source, take_registers, stm32_next}
use edgevision_gateway.Source.Stm32.Registers.{IsReading, take_registers-IsReading}
use edgevision_gateway.Source.Stm32.Sequence.{IsStep, stm32_next-IsStep}

-- Numbers in place of doubles, every one of them finite.
abbrev plain_floats : Floats
plain_floats = record {
  Double = ℕ;
  is_finite = λ x. true;
  of_uint = λ n. n;
  eighth = 0;
  add = λ a b. a;
  mul = λ a b. a;
  div = λ a b. a;
  finite_ramp = λ n h. refl;
  finite_tenth = λ n h. refl;
}

abbrev idle_source : Stm32Source ℕ
idle_source = record {
  serial_fd = pos 5;
  timeout_ms = pos 1000;
  has_stop = true;
  port = record { line_fd = pos 6; is_tx = false; sent = []; flushes = 0 };
  next_sequence = 7;
  pending = none;
}

abbrev look_at : ℕ → ℕ → Look
look_at now queued = record {
  clock = now_is now;
  status = none;
  queued = queued;
  is_empty = true;
  sleep = none;
}

abbrev arrives : ℕ → List ℕ → Round
arrives now bytes = record {
  stop = false;
  now_ns = some now;
  poll = λ t. events false true;
  late_stop = false;
  late_now_ns = some now;
  read = λ n. got bytes;
}

-- The eight bytes of the request go out in one write, and the slave answers in two parts.
abbrev answering_env : Env
answering_env = record {
  stop = false;
  answers = record {
    clock_before = now_is 0;
    looks_before = look_at 0 0 ∷ look_at 100000 0 ∷ look_at 100000000 0 ∷ [];
    set_tx = none;
    writes = wrote 8 ∷ [];
    clock_after = now_is 200000;
    looks_after = look_at 200000 0 ∷ look_at 300000 0 ∷ look_at 100200000 0 ∷ [];
    set_rx = none;
  };
  now_ns = some 400000;
  head_rounds = arrives 500000 (1 ∷ 4 ∷ 4 ∷ []) ∷ [];
  tail_rounds = arrives 600000 (1 ∷ 0 ∷ 2 ∷ 0 ∷ 251 ∷ 24 ∷ []) ∷ [];
  realtime = some (pos 1000, 5000000);
}

stm32_next-IsStep_example :
    IsStep plain_floats idle_source (stm32_next plain_floats idle_source answering_env)
stm32_next-IsStep_example = stm32_next-IsStep plain_floats idle_source answering_env tt

take_registers-IsReading_example :
    IsReading
      (1 ∷ 4 ∷ 4 ∷ 1 ∷ 0 ∷ 2 ∷ 0 ∷ 251 ∷ 24 ∷ [])
      (take_registers (1 ∷ 4 ∷ 4 ∷ 1 ∷ 0 ∷ 2 ∷ 0 ∷ 251 ∷ 24 ∷ []))
take_registers-IsReading_example =
    take_registers-IsReading (1 ∷ 4 ∷ 4 ∷ 1 ∷ 0 ∷ 2 ∷ 0 ∷ 251 ∷ 24 ∷ []) (
      omega arith,
      (
        omega arith,
        (
          omega arith,
          (
            omega arith,
            (omega arith, (omega arith, (omega arith, (omega arith, (omega arith, tt))))),
          ),
        ),
      ),
    )
