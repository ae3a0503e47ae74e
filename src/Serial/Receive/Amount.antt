-- ===== src/Serial/Receive/Amount.antt =====
-- serial_read_exact_until_stop of modules/serial/rs485_serial.c: how many bytes it brings, where they
-- come from, and when it ends.
use edgevision_gateway.Common.{
  ℕ, ◌+◌, ◌-◌, ◌*◌, ◌^◌, ◌≤◌, ◌<◌, ◌≡◌, ◌≢◌, ◌⊎◌, ◌↔◌, inl, inr, refl, ◌∙◌, sym, subst, arith, Bool,
  true, ◌&&◌, ◌||◌, not, some, List, [], ◌∷◌, ◌++◌, append-nil, append_assoc, length, length-append,
  if_both, ltb, ◌==◌, All,
}
use edgevision_gateway.Common.Int.{ℤ, pos, negsuc, ltb_ℤ}
use edgevision_gateway.Serial.Receive.{
  got, Round, ReadEnd, Exact, exact, complete, timed_out, canceled, failed, running, read_loop,
  serial_read_exact_until_stop, next_wait_ms, serial_deadline_after_ms,
}
use edgevision_gateway.Serial.Receive.Rounds.{Reads, Barren, read_round_both}

-- read brings no more bytes than it was asked for.
abbrev pub IsBounded : Round → Type 0
IsBounded round = (n : ℕ) (bytes : List ℕ) → round.read n ≡ got bytes → length bytes ≤ n

-- The ends that cut a call off in a round.
abbrev pub IsCut : ReadEnd → Type 0
IsCut complete = ⊥
IsCut timed_out = Unit
IsCut canceled = Unit
IsCut failed = Unit
IsCut running = ⊥

-- The bytes that a call brings which ends so, with the number of bytes that were there before and its rounds:
-- round after round those that are read, to the last one. A call is complete when there are `size`, and it
-- is still running when the rounds are over.
pub data Gathered (has_stop : Bool) (fd : ℤ) (size deadline_ns : ℕ)
    : ReadEnd → ℕ → List Round → List ℕ → Type 0 where
  unended : {count : ℕ} → Gathered has_stop fd size deadline_ns running count [] []
  full :
      {count : ℕ} {rounds : List Round}
      → size ≤ count
      → Gathered has_stop fd size deadline_ns complete count rounds []
  last :
      {e : ReadEnd} {count : ℕ} {round : Round} {rounds : List Round}
      → IsCut e
      → Barren has_stop fd (size - count) deadline_ns round
      → Gathered has_stop fd size deadline_ns e count (round ∷ rounds) []
  skip :
      {e : ReadEnd} {count : ℕ} {round : Round} {rounds : List Round} {bytes : List ℕ}
      → Barren has_stop fd (size - count) deadline_ns round
      → Gathered has_stop fd size deadline_ns e count rounds bytes
      → Gathered has_stop fd size deadline_ns e count (round ∷ rounds) bytes
  more :
      {e : ReadEnd} {count : ℕ} {round : Round} {rounds : List Round} {chunk bytes : List ℕ}
      → Reads has_stop fd (size - count) deadline_ns round chunk
      → Gathered has_stop fd size deadline_ns e (count + length chunk) rounds bytes
      → Gathered has_stop fd size deadline_ns e count (round ∷ rounds) (chunk ++ bytes)

-- One of the rounds is asked to stop.
abbrev pub IsStopped : List Round → Type 0
IsStopped [] = ⊥
IsStopped (round ∷ rounds) = (round.stop ≡ true) ⊎ ((round.late_stop ≡ true) ⊎ IsStopped rounds)

-- In one of the rounds, a clock is at the deadline or behind it.
abbrev pub IsLate : ℕ → List Round → Type 0
IsLate deadline_ns [] = ⊥
IsLate deadline_ns (round ∷ rounds) =
    ((t : ℕ) × ((round.now_ns ≡ some t) ⊎ (round.late_now_ns ≡ some t)) × (deadline_ns ≤ t))
    ⊎ IsLate deadline_ns rounds

-- What an end means, with the number of bytes asked for and the bytes that are there.
abbrev pub IsEnd : Bool → ℕ → ℕ → List Round → ReadEnd → List ℕ → Type 0
IsEnd has_stop size deadline_ns rounds complete bytes = length bytes ≡ size
IsEnd has_stop size deadline_ns rounds timed_out bytes =
    (length bytes < size) × IsLate deadline_ns rounds
IsEnd has_stop size deadline_ns rounds canceled bytes =
    (length bytes < size) × (has_stop ≡ true) × IsStopped rounds
IsEnd has_stop size deadline_ns rounds failed bytes = length bytes < size
IsEnd has_stop size deadline_ns rounds running bytes = length bytes < size

IsEnd-later :
    (has_stop : Bool) (size deadline_ns : ℕ) (round : Round) (rounds : List Round) (e : ReadEnd)
    (bytes : List ℕ)
    → IsEnd has_stop size deadline_ns rounds e bytes
    → IsEnd has_stop size deadline_ns (round ∷ rounds) e bytes
IsEnd-later has_stop size deadline_ns round rounds complete bytes h = h
IsEnd-later has_stop size deadline_ns round rounds timed_out bytes h = (h.0, inr h.1)
IsEnd-later has_stop size deadline_ns round rounds canceled bytes h = (h.0, h.1, inr (inr h.2))
IsEnd-later has_stop size deadline_ns round rounds failed bytes h = h
IsEnd-later has_stop size deadline_ns round rounds running bytes h = h

-- `received` has grown by the bytes of the rounds, and the end means what it says.
abbrev pub Brings : Bool → ℤ → ℕ → ℕ → List Round → List ℕ → Exact → Type 0
Brings has_stop fd size deadline_ns rounds received (exact e bytes) =
    IsEnd has_stop size deadline_ns rounds e bytes
    × ((fresh : List ℕ) × (bytes ≡ received ++ fresh)
        × Gathered has_stop fd size deadline_ns e (length received) rounds fresh)

module _ (has_stop : Bool) (fd : ℤ) (size deadline_ns : ℕ) where
  Brings-skip :
      (round : Round) (rounds : List Round) (received : List ℕ) (x : Exact)
      → Barren has_stop fd (size - length received) deadline_ns round
      → Brings has_stop fd size deadline_ns rounds received x
      → Brings has_stop fd size deadline_ns (round ∷ rounds) received x
  Brings-skip round rounds received (exact e bytes) barren (end, (fresh, whole, from)) = (
    IsEnd-later has_stop size deadline_ns round rounds e bytes end,
    (fresh, whole, skip barren from),
  )

  Brings-more :
      (round : Round) (rounds : List Round) (received chunk : List ℕ) (x : Exact)
      → Reads has_stop fd (size - length received) deadline_ns round chunk
      → Brings has_stop fd size deadline_ns rounds (received ++ chunk) x
      → Brings has_stop fd size deadline_ns (round ∷ rounds) received x
  Brings-more round rounds received chunk (exact e bytes) reads (end, (fresh, whole, from)) =
      let counted : Gathered has_stop fd size deadline_ns e (length received + length chunk) rounds
          fresh =
        subst (λ n. Gathered has_stop fd size deadline_ns e n rounds fresh)
          (length-append received chunk) from in
      (
        IsEnd-later has_stop size deadline_ns round rounds e bytes end,
        (chunk ++ fresh, whole ∙ append_assoc received chunk fresh, more reads counted),
      )

  -- A call that ends in a round.
  cut :
      (e : ReadEnd) (round : Round) (rounds : List Round) (received : List ℕ)
      → IsCut e
      → Barren has_stop fd (size - length received) deadline_ns round
      → (fresh : List ℕ) × (received ≡ received ++ fresh)
        × Gathered has_stop fd size deadline_ns e (length received) (round ∷ rounds) fresh
  cut e round rounds received is barren = ([], sym (append-nil received), last is barren)

  whole_read :
      (rounds : List Round) (received : List ℕ)
      → size ≤ length received
      → (fresh : List ℕ) × (received ≡ received ++ fresh)
        × Gathered has_stop fd size deadline_ns complete (length received) rounds fresh
  whole_read rounds received h = ([], sym (append-nil received), full h)

by_stop :
    (round : Round) (has_stop : Bool) (rounds : List Round)
    → ((has_stop && round.stop) ≡ true) ⊎ ((has_stop && round.late_stop) ≡ true)
    → (has_stop ≡ true) × IsStopped (round ∷ rounds)
by_stop round has_stop rounds (inl s) = (ground arith, inl (ground arith))
by_stop round has_stop rounds (inr s) = (ground arith, inr (inl (ground arith)))

read_loop-Brings :
    (has_stop : Bool) (fd : ℤ) (size deadline_ns : ℕ) (rounds : List Round) (received : List ℕ)
    → All IsBounded rounds
    → length received ≤ size
    → Brings has_stop fd size deadline_ns rounds received
        (read_loop has_stop fd size deadline_ns received rounds)
unfolding read_loop
read_loop-Brings has_stop fd size deadline_ns [] received bounded fits =
    if_both (Brings has_stop fd size deadline_ns [] received) (ltb (length received) size) _ _
      (λ h. (ground arith, ([], sym (append-nil received), unended)))
      (λ h. (ground arith, whole_read has_stop fd size deadline_ns [] received (ground arith)))
read_loop-Brings has_stop fd size deadline_ns (round ∷ rounds) received bounded fits =
    let P : Exact → Type 0 = Brings has_stop fd size deadline_ns (round ∷ rounds) received in
    if_both P (ltb (length received) size) _ _
      (λ h.
        let room : length received < size = ground arith in
        read_round_both P has_stop fd _ size deadline_ns received round room
          (λ s barren.
            let (asked, stopped) = by_stop round has_stop rounds s in
            (
              (room, asked, stopped),
              cut has_stop fd size deadline_ns canceled round rounds received tt barren,
            ))
          (λ t clock late barren. (
            (room, inl (t, clock, late)),
            cut has_stop fd size deadline_ns timed_out round rounds received tt barren,
          ))
          (λ barren.
            (room, cut has_stop fd size deadline_ns failed round rounds received tt barren))
          (λ t clock early barren.
            Brings-skip has_stop fd size deadline_ns round rounds received _ barren
              (read_loop-Brings has_stop fd size deadline_ns rounds received bounded.1 fits))
          (λ bytes reads.
            let few = bounded.0 _ bytes reads.brought in
            let fits_more : length (received ++ bytes) ≤ size =
              omega (arith, length-append received bytes) in
            Brings-more has_stop fd size deadline_ns round rounds received bytes _ reads (
              read_loop-Brings has_stop fd size deadline_ns rounds (received ++ bytes) bounded.1
                fits_more)))
      (λ h. (
        ground arith,
        whole_read has_stop fd size deadline_ns (round ∷ rounds) received (ground arith),
      ))

-- If read keeps to the number of bytes it is asked for, a call for `size` > 0 bytes before a deadline
-- ends as follows, whatever the clock, poll, read and the stop callback answer. It succeeds with
-- exactly `size` bytes; otherwise there are fewer. It times out only if a clock was at the deadline
-- or behind it, and it is canceled only if there is a stop callback, which asked for it. In every
-- case the bytes are, in order and without a gap, those of each round of the call that reads: in which no
-- stop is asked for, both clocks are before the deadline, poll says that there is input, and read brings
-- bytes, of as many as are missing. The call goes on through the rounds until the bytes are whole, or until
-- a round that does not read cuts it off.
pub exact-Brings :
    (has_stop : Bool) (fd size deadline_ns : ℕ) (rounds : List Round)
    → 0 < size
    → All IsBounded rounds
    → Brings has_stop
        (pos fd)
        size
        deadline_ns
        rounds
        []
        (serial_read_exact_until_stop has_stop (pos fd) true size (pos deadline_ns) rounds)
unfolding serial_read_exact_until_stop
exact-Brings has_stop fd size deadline_ns rounds some_bytes bounded =
    if_both (Brings has_stop (pos fd) size deadline_ns rounds [])
      (ltb_ℤ (pos fd) (pos 0) || not true || (size == 0)) (exact failed []) _
      (λ h. absurd (ground arith))
      (λ h. read_loop-Brings has_stop (pos fd) size deadline_ns rounds [] bounded (omega arith))

-- The end of a call, without the bytes.
abbrev pub end_of : Exact → ReadEnd
end_of (exact e bytes) = e

-- In one of the rounds, the clock that is read first is at the deadline or behind it.
abbrev pub IsOver : ℕ → List Round → Type 0
IsOver deadline_ns [] = ⊥
IsOver deadline_ns (round ∷ rounds) =
    ((t : ℕ) × (round.now_ns ≡ some t) × (deadline_ns ≤ t)) ⊎ IsOver deadline_ns rounds

still-IsOver :
    (deadline_ns t : ℕ) (round : Round) (rounds : List Round)
    → round.now_ns ≡ some t
    → t < deadline_ns
    → IsOver deadline_ns (round ∷ rounds)
    → IsOver deadline_ns rounds
still-IsOver deadline_ns t round rounds clock early (inl (u, at, late)) = absurd (ground arith)
still-IsOver deadline_ns t round rounds clock early (inr over) = over

loop_ends :
    (has_stop : Bool) (fd : ℤ) (size deadline_ns : ℕ) (rounds : List Round) (received : List ℕ)
    → IsOver deadline_ns rounds
    → end_of (read_loop has_stop fd size deadline_ns received rounds) ≢ running
unfolding read_loop
loop_ends has_stop fd size deadline_ns [] received over = absurd over
loop_ends has_stop fd size deadline_ns (round ∷ rounds) received over =
    let P : Exact → Type 0 = λ x. end_of x ≢ running in
    if_both P (ltb (length received) size) _ _
      (λ h.
        read_round_both P has_stop fd _ size deadline_ns received round (ground arith)
          (λ s barren e. cc) (λ t clock late barren e. cc) (λ barren e. cc)
          (λ t clock early barren.
            loop_ends has_stop fd size deadline_ns rounds received
              (still-IsOver deadline_ns t round rounds clock early over))
          (λ bytes reads.
            loop_ends has_stop fd size deadline_ns rounds (received ++ bytes)
              (still-IsOver deadline_ns reads.now round rounds reads.clock reads.early over)))
      (λ h e. cc)

-- A call does not outlive its deadline: once the clock that a round reads first is at the deadline or
-- behind it, the call has ended, in this round at the latest, whatever else was answered.
pub exact-ends :
    (has_stop non_null : Bool) (fd deadline_ns : ℤ) (size : ℕ) (rounds : List Round)
    → ((d : ℕ) → deadline_ns ≡ pos d → IsOver d rounds)
    → end_of (serial_read_exact_until_stop has_stop fd non_null size deadline_ns rounds) ≢ running
unfolding serial_read_exact_until_stop
exact-ends has_stop non_null fd (negsuc n) size rounds over = λ e. cc
exact-ends has_stop non_null fd (pos d) size rounds over =
    if_both (λ x. end_of x ≢ running) (ltb_ℤ fd (pos 0) || not non_null || (size == 0))
      (exact failed []) _ (λ h e. cc) (λ h. loop_ends has_stop fd size d rounds [] (over d refl))

-- The timeout that is passed to poll, before the deadline: never 0, which would make the loop spin,
-- within the range of an int, and within 100 ms where there is a stop callback. It ends less than a
-- millisecond behind the deadline, and not before it unless one of the two limits cut it.
pub next_wait_ms_lem :
    (has_stop : Bool) (deadline_ns now_ns : ℕ)
    → now_ns < deadline_ns
    → let wait_ms = next_wait_ms has_stop deadline_ns now_ns in
      (1 ≤ wait_ms)
      × (wait_ms < 2 ^ 31)
      × (has_stop ≡ true → wait_ms ≤ 100)
      × (now_ns + wait_ms * 1000000 < deadline_ns + 1000000)
      × ((deadline_ns ≤ now_ns + wait_ms * 1000000) ⊎ ((wait_ms ≡ 2 ^ 31 - 1) ⊎ (wait_ms ≡ 100)))
unfolding next_wait_ms
next_wait_ms_lem has_stop deadline_ns now_ns h =
    (ground arith, ground arith, λ e. ground arith, ground arith, ground arith)

-- A deadline is made exactly for a positive timeout whose end a signed 64-bit count of nanoseconds can
-- hold, and it lies the timeout behind the clock, for timeouts of an int.
pub deadline_after_lem :
    (timeout_ms now_ns deadline_ns : ℕ)
    → timeout_ms < 2 ^ 31
    → (serial_deadline_after_ms (pos timeout_ms) (some now_ns) ≡ some deadline_ns) ↔ (
        (1 ≤ timeout_ms)
        × (now_ns + timeout_ms * 1000000 < 2 ^ 63)
        × (deadline_ns ≡ now_ns + timeout_ms * 1000000))
unfolding serial_deadline_after_ms
deadline_after_lem timeout_ms now_ns deadline_ns h = (λ e. ground arith, λ e. ground arith)
