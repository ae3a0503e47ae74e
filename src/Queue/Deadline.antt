-- ===== src/Queue/Deadline.antt =====
-- make_deadline of modules/blocking_queue/blocking_queue.c: when a timed wait of `timeout_ms` > 0
-- milliseconds ends. Seconds are not bounded here; a time_t has 63 bits for them.
use edgevision_gateway.Common.{
  ℕ, ◌+◌, ◌-◌, ◌*◌, ◌/◌, ◌%◌, ◌<◌, ◌≡◌, refl, arith, leb, if◌then◌else◌, Option, none, some,
}

pub record Timespec : Type 0 where
  pub tv_sec : ℕ
  pub tv_nsec : ℕ

abbrev nsec_per_sec : ℕ
nsec_per_sec = 1000000000

-- The carry from nanoseconds to seconds.
carry_nsec : Timespec → Timespec
carry_nsec t =
    if leb nsec_per_sec t.tv_nsec
    then record { tv_sec = t.tv_sec + 1; tv_nsec = t.tv_nsec - nsec_per_sec }
    else t

-- `now` is what clock_gettime brings; `none` is the return value -1.
unfoldable pub make_deadline : Option Timespec → ℕ → Option Timespec
unfolding carry_nsec
make_deadline none timeout_ms = none
make_deadline (some now) timeout_ms = some (
    carry_nsec (record {
      tv_sec = now.tv_sec + timeout_ms / 1000;
      tv_nsec = now.tv_nsec + timeout_ms % 1000 * 1000000;
    }))

-- From a time in normal form, the deadline is again in normal form, and lies exactly `timeout_ms`
-- milliseconds later.
pub make_deadline_lem :
    (now : Timespec) (timeout_ms : ℕ)
    → now.tv_nsec < 1000000000
    → (deadline : Timespec) × (make_deadline (some now) timeout_ms ≡ some deadline)
      × (deadline.tv_nsec < 1000000000)
      × (deadline.tv_sec * 1000000000 + deadline.tv_nsec
          ≡ now.tv_sec * 1000000000 + now.tv_nsec + timeout_ms * 1000000)
unfolding make_deadline
make_deadline_lem now timeout_ms h = (_, refl, ground arith, ground arith)
