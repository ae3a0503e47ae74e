-- ===== src/Serial/Receive.antt =====
-- Receiving in modules/serial/rs485_serial.c: the deadline, the wait, and the loop that reads an
-- exact number of bytes. One pass of the loop is a `Round`, which holds what the clock, the stop
-- callback, poll and read answer. Clock values are nanoseconds; file descriptors are the numbers
-- from 0 or, negative, absent.
pub mod Rounds
pub mod Amount
mod Tests
use edgevision_gateway.Common.{
  ℕ, zero, suc, ◌+◌, ◌-◌, ◌*◌, ◌/◌, ◌%◌, ◌^◌, Bool, true, false, not, ◌&&◌, ◌||◌, Option, none,
  some, List, [], ◌∷◌, ◌++◌, length, ltb, leb, ◌==◌, ◌!=◌, if◌then◌else◌,
}
use edgevision_gateway.Common.Int.{ℤ, pos, negsuc, ltb_ℤ, leb_ℤ}
use edgevision_gateway.Serial.Errno.{eintr, eio, eagain, einval, eoverflow, enobufs, ecanceled}

-- What poll does: -1 with errno, 0, or events, of which the two tests are kept: one of POLLERR,
-- POLLHUP and POLLNVAL, and POLLIN.
pub data Poll : Type 0 where
  poll_error : ℕ → Poll
  no_event : Poll
  events : Bool → Bool → Poll

-- serial_wait_readable: -1 with errno, 0 or 1.
pub data Ready : Type 0 where
  wait_error : ℕ → Ready
  silent readable : Ready

pub polled : Poll → Ready
polled (poll_error errno) = wait_error errno
polled no_event = silent
polled (events true has_input) = wait_error eio
polled (events false true) = readable
polled (events false false) = wait_error eio

-- `poll` maps the timeout to the answer.
pub serial_wait_readable : ℤ → ℤ → (ℤ → Poll) → Ready
serial_wait_readable serial_fd timeout_ms poll =
    if ltb_ℤ serial_fd (pos 0) || ltb_ℤ timeout_ms (negsuc 0)
    then wait_error einval
    else polled (poll timeout_ms)

-- A return of read: -1 with errno, or bytes.
pub data Chunk : Type 0 where
  read_error : ℕ → Chunk
  got : List ℕ → Chunk

pub appended : List ℕ → Chunk → List ℕ × Option ℕ
appended used (read_error errno) = (used, some errno)
appended used (got bytes) = (used ++ bytes, none)

-- serial_read_append_once, with the bytes behind the call and its errno, if it fails. `read` maps
-- the number of bytes asked for to the answer.
pub serial_read_append_once : List ℕ → ℕ → (ℕ → Chunk) → List ℕ × Option ℕ
serial_read_append_once used capacity read =
    if ltb capacity (length used)
    then (used, some einval)
    else if length used == capacity
    then (used, some enobufs)
    else appended used (read (capacity - length used))

-- serial_deadline_after_ms. The clock answers `none` when clock_gettime fails.
pub serial_deadline_after_ms : ℤ → Option ℕ → Option ℕ
serial_deadline_after_ms timeout_ms none = none
serial_deadline_after_ms (negsuc n) (some now_ns) = none
serial_deadline_after_ms (pos timeout_ms) (some now_ns) =
    if timeout_ms == 0
    then none
    else let duration_ns = timeout_ms * 1000000 in
      if ltb (2 ^ 63 - 1 - duration_ns) now_ns then none else some (now_ns + duration_ns)

-- The timeout of poll: the time that is left, in milliseconds rounded up, at most INT_MAX, and at
-- most 100 where a stop callback is to be asked.
pub next_wait_ms : Bool → ℕ → ℕ → ℕ
next_wait_ms has_stop deadline_ns now_ns =
    let remaining_ns = deadline_ns - now_ns in
    let remaining_ms = remaining_ns / 1000000 + (if remaining_ns % 1000000 != 0 then 1 else 0) in
    let wait_ms = if ltb (2 ^ 31 - 1) remaining_ms then 2 ^ 31 - 1 else remaining_ms in
    if has_stop && ltb 100 wait_ms then 100 else wait_ms

pub record Round : Type 0 where
  pub stop : Bool
  pub now_ns : Option ℕ
  pub poll : ℤ → Poll
  pub late_stop : Bool
  pub late_now_ns : Option ℕ
  pub read : ℕ → Chunk

-- How the loop ends: 1, 0, or -1, where `canceled` is the errno ECANCELED that the loop sets itself
-- and `failed` another failure; `running` is a loop that still goes on when the rounds are over.
pub data ReadEnd : Type 0 where
  complete timed_out canceled failed running : ReadEnd

pub data Exact : Type 0 where
  exact : ReadEnd → List ℕ → Exact

-- Whether the loop goes on after a read.
pub read_again : Option ℕ → Bool
read_again none = true
read_again (some errno) = not ((errno != eintr) && (errno != eagain))

pub after_read : (List ℕ → Exact) → List ℕ × Option ℕ → Exact
after_read again (received, errno) =
    if read_again errno then again received else exact failed received

-- The read that ends a round, at a clock value before the deadline.
pub read_late : (List ℕ → Exact) → ℕ → ℕ → List ℕ → Round → Option ℕ → Exact
read_late again size deadline_ns received round none = exact failed received
read_late again size deadline_ns received round (some now_ns) =
    if leb deadline_ns now_ns
    then exact timed_out received
    else after_read again (serial_read_append_once received size round.read)

pub after_wait_readable : Bool → (List ℕ → Exact) → ℕ → ℕ → List ℕ → Round → Ready → Exact
after_wait_readable has_stop again size deadline_ns received round (wait_error errno) =
    if errno == eintr then again received else exact failed received
after_wait_readable has_stop again size deadline_ns received round silent = again received
after_wait_readable has_stop again size deadline_ns received round readable =
    if has_stop && round.late_stop
    then exact canceled received
    else read_late again size deadline_ns received round round.late_now_ns

pub at_clock : Bool → ℤ → (List ℕ → Exact) → ℕ → ℕ → List ℕ → Round → Option ℕ → Exact
at_clock has_stop fd again size deadline_ns received round none = exact failed received
at_clock has_stop fd again size deadline_ns received round (some now_ns) =
    if leb deadline_ns now_ns
    then exact timed_out received
    else after_wait_readable has_stop again size deadline_ns received round
        (serial_wait_readable fd (pos (next_wait_ms has_stop deadline_ns now_ns)) round.poll)

-- The body of the loop; `again` is the next pass.
pub read_round : Bool → ℤ → (List ℕ → Exact) → ℕ → ℕ → List ℕ → Round → Exact
read_round has_stop fd again size deadline_ns received round =
    if has_stop && round.stop
    then exact canceled received
    else at_clock has_stop fd again size deadline_ns received round round.now_ns

pub read_loop : Bool → ℤ → ℕ → ℕ → List ℕ → List Round → Exact
read_loop has_stop fd size deadline_ns received [] =
    if ltb (length received) size then exact running received else exact complete received
read_loop has_stop fd size deadline_ns received (round ∷ rounds) =
    if ltb (length received) size
    then read_round has_stop fd (λ more. read_loop has_stop fd size deadline_ns more rounds) size
        deadline_ns received round
    else exact complete received

-- `non_null` says that buffer and `received` are there. In `round`, a stop callback that is absent is never asked.
pub serial_read_exact_until_stop : Bool → ℤ → Bool → ℕ → ℤ → List Round → Exact
serial_read_exact_until_stop has_stop fd non_null size (negsuc n) rounds = exact failed []
serial_read_exact_until_stop has_stop fd non_null size (pos deadline_ns) rounds =
    if ltb_ℤ fd (pos 0) || not non_null || (size == 0)
    then exact failed []
    else read_loop has_stop fd size deadline_ns [] rounds

-- The deadline is set from the clock first.
pub serial_read_exact_timeout_stop : Bool → ℤ → Bool → ℕ → ℤ → Option ℕ → List Round → Exact
serial_read_exact_timeout_stop has_stop fd non_null size timeout_ms now_ns rounds =
    if ltb_ℤ fd (pos 0) || not non_null || (size == 0)
    then exact failed []
    else elim (serial_deadline_after_ms timeout_ms now_ns) [
      | none ↦ exact failed []
      | some deadline_ns ↦
          serial_read_exact_until_stop has_stop fd non_null size (pos deadline_ns) rounds
    ]
