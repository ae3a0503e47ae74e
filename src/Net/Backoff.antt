-- ===== src/Net/Backoff.antt =====
-- The waiting time before a new connection, in modules/net/network_client.c: backoff_base_delay,
-- backoff_jitter and the conversion to the `int` that poll takes.
pub mod Delay
use edgevision_gateway.Common.{
  ℕ, zero, suc, ◌+◌, ◌*◌, ◌-◌, ◌/◌, ◌%◌, ◌^◌, Bool, true, false, if◌then◌else◌, ltb, ◌==◌, u32,
}
use edgevision_gateway.Common.Int.{ℤ, pos, negsuc}

-- The loop of backoff_base_delay on the passes that are left, with its last line.
pub backoff_loop : ℕ → ℕ → ℕ → ℕ
backoff_loop zero delay max_ms = if ltb max_ms delay then max_ms else delay
backoff_loop (suc passes) delay max_ms =
    let rest = backoff_loop passes (u32 (delay * 2)) max_ms in
    if ltb delay max_ms
    then if ltb (max_ms / 2) delay then max_ms else rest
    else if ltb max_ms delay
    then max_ms
    else delay

-- The loop counts from 1 to `attempt`.
pub backoff_base_delay : ℕ → ℕ → ℕ → ℕ
backoff_base_delay attempt base_ms max_ms = backoff_loop (attempt - 1) base_ms max_ms

-- `random` is what rand_r returns.
pub backoff_jitter : ℕ → ℕ → ℕ
backoff_jitter delay_ms random =
    let window = delay_ms / 4 in if window == 0 then 0 else u32 random % (window + 1)

-- The conversion of an unsigned number to a 32-bit int.
pub to_int : ℕ → ℤ
to_int n = let low = u32 n in if ltb low (2 ^ 31) then pos low else negsuc (2 ^ 32 - 1 - low)

-- timeout_ms of backoff_wait.
pub backoff_timeout : ℕ → ℕ → ℕ → ℕ → ℤ
backoff_timeout attempt base_ms max_ms random =
    let delay = backoff_base_delay attempt base_ms max_ms in
    to_int ((delay + backoff_jitter delay random) % 2 ^ 64)
