-- ===== src/Serial/Receive/Tests.antt =====
-- Reading three bytes in two parts, and a port that falls silent.
use edgevision_gateway.Common.{
  ℕ, ◌-◌, ◌+◌, ◌*◌, ◌^◌, ◌<◌, ◌≤◌, ◌≡◌, ◌≢◌, ◌⊎◌, inl, inr, refl, arith, true, false, some, List,
  [], ◌∷◌, length, take, length-take,
}
use edgevision_gateway.Common.Int.{pos}
use edgevision_gateway.Serial.Receive.{
  Chunk, got, events, no_event, Round, running, serial_read_exact_until_stop, next_wait_ms,
}
use edgevision_gateway.Serial.Receive.Amount.{
  IsOver, Brings, end_of, exact-Brings, exact-ends, next_wait_ms_lem,
}

-- A port at which these bytes wait.
abbrev port : List ℕ → ℕ → Chunk
port bytes n = got (take n bytes)

abbrev arrives : ℕ → List ℕ → Round
arrives now bytes = record {
  stop = false;
  now_ns = some now;
  poll = λ t. events false true;
  late_stop = false;
  late_now_ns = some now;
  read = port bytes;
}

abbrev quiet : ℕ → Round
quiet now = record {
  stop = false;
  now_ns = some now;
  poll = λ t. no_event;
  late_stop = false;
  late_now_ns = some now;
  read = port [];
}

port-IsBounded :
    (bytes : List ℕ) (n : ℕ) (chunk : List ℕ) → port bytes n ≡ got chunk → length chunk ≤ n
port-IsBounded bytes n chunk e =
    let same : take n bytes ≡ chunk = cc in rw (← same) (omega (arith, length-take n bytes))

abbrev two_parts : List Round
two_parts = arrives 5 (1 ∷ 4 ∷ []) ∷ arrives 6 (9 ∷ 8 ∷ 7 ∷ []) ∷ []

abbrev silence : List Round
silence = quiet 5 ∷ quiet 12 ∷ []

exact-Brings_example :
    Brings true
      (pos 4)
      3
      10
      two_parts
      []
      (serial_read_exact_until_stop true (pos 4) true 3 (pos 10) two_parts)
exact-Brings_example =
    exact-Brings true 4 3 10 two_parts (omega arith)
      (port-IsBounded (1 ∷ 4 ∷ []), (port-IsBounded (9 ∷ 8 ∷ 7 ∷ []), tt))

silence-IsOver : (d : ℕ) → pos 10 ≡ pos d → IsOver d silence
silence-IsOver d e = let ten : 10 ≡ d = cc in inr (inl (12, refl, omega (arith, ten)))

exact-ends_example :
    end_of (serial_read_exact_until_stop true (pos 4) true 3 (pos 10) silence) ≢ running
exact-ends_example = exact-ends true true (pos 4) (pos 10) 3 silence silence-IsOver

next_wait_ms_lem_example :
    let wait_ms = next_wait_ms true 2500000 1000000 in
    (1 ≤ wait_ms)
    × (wait_ms < 2 ^ 31)
    × (true ≡ true → wait_ms ≤ 100)
    × (1000000 + wait_ms * 1000000 < 2500000 + 1000000)
    × ((2500000 ≤ 1000000 + wait_ms * 1000000) ⊎ ((wait_ms ≡ 2 ^ 31 - 1) ⊎ (wait_ms ≡ 100)))
next_wait_ms_lem_example = next_wait_ms_lem true 2500000 1000000 (omega arith)
