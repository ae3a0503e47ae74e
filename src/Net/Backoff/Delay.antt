-- ===== src/Net/Backoff/Delay.antt =====
-- backoff_base_delay and the timeout of backoff_wait, against their closed forms.
use edgevision_gateway.Common.{
  ℕ, zero, suc, ◌+◌, ◌*◌, ◌-◌, ◌/◌, ◌%◌, ◌^◌, ◌<◌, ◌≤◌, ◌≡◌, sym, ap, ◌∙◌, arith, if◌then◌else◌,
  ltb, u32, if_both,
}
use edgevision_gateway.Common.Bits.{shift-suc}
use edgevision_gateway.Common.Int.{pos}
use edgevision_gateway.Net.Backoff.{
  backoff_loop, backoff_base_delay, backoff_jitter, to_int, backoff_timeout,
}

-- A delay, at most `max_ms`.
abbrev pub capped : ℕ → ℕ → ℕ
capped max_ms delay = if ltb max_ms delay then max_ms else delay

le-shifted : (n k : ℕ) → n ≤ n * 2 ^ k
le-shifted n zero = omega arith
le-shifted n (suc k) = let h = le-shifted n k in let e = shift-suc n k in omega (arith, h, e)

capped-above : (max_ms n : ℕ) → max_ms < n → capped max_ms n ≡ max_ms
capped-above max_ms n h = ground (arith, h)

backoff_loop_lem :
    (k delay max_ms : ℕ)
    → delay < 2 ^ 32
    → max_ms < 2 ^ 32
    → backoff_loop k delay max_ms ≡ capped max_ms (delay * 2 ^ k)
unfolding backoff_loop
backoff_loop_lem zero delay max_ms h m = ap (capped max_ms) (omega arith)
backoff_loop_lem (suc k) delay max_ms h m =
    let n = delay * 2 ^ suc k in
    let large = le-shifted delay k in
    let twice = shift-suc delay k in
    let ih = backoff_loop_lem k (u32 (delay * 2)) max_ms (omega arith) m in
    if_both (λ x. x ≡ capped max_ms n) (ltb delay max_ms) _ _
      (λ e.
        if_both (λ x. x ≡ capped max_ms n) (ltb (max_ms / 2) delay) _ _
          (λ f. sym (capped-above max_ms n (ground (arith, f, large, twice))))
          (λ f.
            let fits : u32 (delay * 2) ≡ delay * 2 = ground (arith, f, m) in
            ih ∙ ap (capped max_ms) (ap (λ x. x * 2 ^ k) fits ∙ doubled)))
      (λ e. ground (arith, e, large, twice))
  where
    doubled : (delay * 2) * 2 ^ k ≡ delay * 2 ^ suc k
    doubled = grind (arith, shift-suc delay k)

-- The delay before the connection behind the n-th failure is base_ms * 2 ^ (n - 1), or max_ms where
-- that is smaller, for the whole range of the 32-bit numbers: no doubling wraps around.
backoff_base_delay_lem :
    (attempt base_ms max_ms : ℕ)
    → base_ms < 2 ^ 32
    → max_ms < 2 ^ 32
    → backoff_base_delay attempt base_ms max_ms ≡ capped max_ms (base_ms * 2 ^ (attempt - 1))
unfolding backoff_base_delay
backoff_base_delay_lem attempt base_ms max_ms h m =
    backoff_loop_lem (attempt - 1) base_ms max_ms h m

jitter-le : (delay random : ℕ) → backoff_jitter delay random ≤ delay / 4
unfolding backoff_jitter
jitter-le delay random = ground arith

to_int-small : (n : ℕ) → n < 2 ^ 31 → to_int n ≡ pos n
unfolding to_int
to_int-small n h =
    if_both (λ x. x ≡ pos n) (ltb (u32 n) (2 ^ 31)) _ _ (λ e. ap pos (omega (arith, h)))
      (λ e. absurd (ground (arith, e, h)))

-- The loop of backoff_base_delay computes, behind the n-th failure, base_ms * 2 ^ (n - 1), or max_ms where
-- that is smaller. Where max_ms with its quarter of jitter fits an int, poll then waits at least the delay and at most a
-- quarter more, so never forever and never longer than max_ms and its quarter.
pub backoff_timeout_lem :
    (attempt base_ms max_ms random : ℕ)
    → base_ms ≤ max_ms
    → max_ms + max_ms / 4 < 2 ^ 31
    → let delay = capped max_ms (base_ms * 2 ^ (attempt - 1)) in
      (t : ℕ) × (backoff_base_delay attempt base_ms max_ms ≡ delay)
      × (backoff_timeout attempt base_ms max_ms random ≡ pos t)
      × (delay ≤ t)
      × (t ≤ delay + delay / 4)
      × (t ≤ max_ms + max_ms / 4)
unfolding backoff_timeout
backoff_timeout_lem attempt base_ms max_ms random h m =
    let delay = backoff_base_delay attempt base_ms max_ms in
    let jitter = backoff_jitter delay random in
    let is =
      backoff_base_delay_lem attempt base_ms max_ms (omega (arith, h, m)) (omega (arith, m)) in
    let small = jitter-le delay random in
    let low : delay ≤ max_ms = ground (arith, is) in
    let fits : (delay + jitter) % 2 ^ 64 ≡ delay + jitter = omega (arith, small, low, m) in
    (
      delay + jitter,
      is,
      ap to_int fits ∙ to_int-small _ (omega (arith, small, low, m)),
      omega (arith, is),
      omega (arith, is, small),
      omega (arith, small, low),
    )
