-- ===== src/Common/Bits.antt =====
-- Laws of `^`, `|` and `& 1` at variables, from the digit recursion behind the native
-- operations.
use Prim.Native.Nat.{ℕ, zero, suc, ◌+◌, ◌*◌, ◌/◌, ◌%◌, ◌^◌, ◌≤◌, ◌<◌, bit_and, bit_or, bit_xor}
use Prim.Native.Nat.{differ, digits, min, max, bit_and-bitwise, bit_or-bitwise, bit_xor-bitwise}
use mathlib.Core.Path.{◌≡◌, refl, sym, ◌∙◌, ap}
use native.Mathlib.Nat.{pow-suc}
use native.Mathlib.Omega.{arith}

module _ (z : ℕ → ℕ) (f : ℕ → ℕ → ℕ) where
  -- A count of digits above the first number does what the number itself does. `k` bounds the
  -- recursion.
  count_enough : (k n a b : ℕ) → n ≤ k → a ≤ n → digits z f n a b ≡ digits z f a a b
  count_enough k zero zero b hk hn = refl
  count_enough k (suc n) zero b hk hn = refl
  count_enough k zero (suc a) b hk hn = absurd (omega arith)
  count_enough zero (suc n) (suc a) b hk hn = absurd (omega arith)
  count_enough (suc k) (suc n) (suc a) b hk hn =
      let here = count_enough k n (suc a / 2) (b / 2) (omega arith) (omega arith) in
      let there = count_enough k a (suc a / 2) (b / 2) (omega arith) (omega arith) in
      omega (arith, here, there)

  -- The lowest digit and the rest, for a first number that has digits.
  lowest_digit :
      (a b : ℕ)
      → digits z f (suc a) (suc a) b
        ≡ 2 * digits z f (suc a / 2) (suc a / 2) (b / 2) + f (suc a % 2) (b % 2)
  lowest_digit a b = omega (arith, count_enough a a (suc a / 2) (b / 2) (omega arith) (omega arith))

-- On digits the exclusive or is the sum without its carry.
differ_digits : (x y : ℕ) → x < 2 → y < 2 → differ x y ≡ (x + y) % 2
differ_digits zero y hx hy = omega arith
differ_digits (suc zero) zero hx hy = refl
differ_digits (suc zero) (suc zero) hx hy = refl
differ_digits (suc zero) (suc (suc y)) hx hy = absurd (omega arith)
differ_digits (suc (suc x)) y hx hy = absurd (omega arith)

differ_mod : (a b : ℕ) → differ (a % 2) (b % 2) ≡ (a + b) % 2
differ_mod a b = omega (arith, differ_digits (a % 2) (b % 2) (omega arith) (omega arith))

zero-bit_xor : (b : ℕ) → bit_xor 0 b ≡ b
zero-bit_xor b = bit_xor-bitwise 0 b

-- The lowest digit of an exclusive or, and the rest.
pub bit_xor_step : (a b : ℕ) → bit_xor a b ≡ 2 * bit_xor (a / 2) (b / 2) + (a + b) % 2
bit_xor_step zero b = omega (arith, zero-bit_xor b, zero-bit_xor (b / 2))
bit_xor_step (suc a) b =
    let whole = bit_xor-bitwise (suc a) b in
    let rest = bit_xor-bitwise (suc a / 2) (b / 2) in
    omega (arith, lowest_digit (λ y. y) differ a b, whole, rest, differ_mod (suc a) b)

pub shift-suc : (q k : ℕ) → q * 2 ^ suc k ≡ 2 * (q * 2 ^ k)
shift-suc q k = omega (arith, ap (λ (t : ℕ). q * t) (pow-suc 2 k))

-- The digits above `k` and those below are combined apart.
pub bit_xor_fields :
    (k p r q s : ℕ)
    → r < 2 ^ k
    → s < 2 ^ k
    → bit_xor (p * 2 ^ k + r) (q * 2 ^ k + s) ≡ bit_xor p q * 2 ^ k + bit_xor r s
bit_xor_fields zero p r q s hr hs =
    let p' : p * 2 ^ 0 + r ≡ p = omega arith in
    let q' : q * 2 ^ 0 + s ≡ q = omega arith in
    let r' : r ≡ 0 = omega arith in
    let s' : s ≡ 0 = omega arith in rw (p', q', r', s') (omega (arith, zero-bit_xor 0))
bit_xor_fields (suc k) p r q s hr hs = ground (
  arith,
  bit_xor_step (p * 2 ^ suc k + r) (q * 2 ^ suc k + s),
  bit_xor_step r s,
  shift-suc p k,
  shift-suc q k,
  shift-suc (bit_xor p q) k,
  pow-suc 2 k,
  bit_xor_fields k p (r / 2) q (s / 2),
)

pub bit_xor-lt : (k a b : ℕ) → a < 2 ^ k → b < 2 ^ k → bit_xor a b < 2 ^ k
bit_xor-lt zero a b ha hb =
    let a' : a ≡ 0 = omega arith in
    let b' : b ≡ 0 = omega arith in rw (a', b') (omega (arith, zero-bit_xor 0))
bit_xor-lt (suc k) a b ha hb = omega (
  arith,
  pow-suc 2 k,
  bit_xor_step a b,
  bit_xor-lt k (a / 2) (b / 2) (omega (arith, pow-suc 2 k)) (omega (arith, pow-suc 2 k)),
)

bit_xor_cancel_fuel : (n a b : ℕ) → a ≤ n → b ≤ n → bit_xor (bit_xor a b) b ≡ a
bit_xor_cancel_fuel zero a b ha hb =
    let a' : a ≡ 0 = omega arith in
    let b' : b ≡ 0 = omega arith in rw (a', b', zero-bit_xor) (zero-bit_xor 0)
bit_xor_cancel_fuel (suc n) a b ha hb =
    let half : bit_xor a b / 2 ≡ bit_xor (a / 2) (b / 2) = omega (arith, bit_xor_step a b) in
    let ih = bit_xor_cancel_fuel n (a / 2) (b / 2) (omega arith) (omega arith) in
    omega (
      arith,
      bit_xor_step a b,
      bit_xor_step (bit_xor a b) b,
      ap (λ (t : ℕ). bit_xor t (b / 2)) half,
      ih,
    )

-- Exclusive or with the same number twice gives the first number back.
pub bit_xor_cancel : (a b : ℕ) → bit_xor (bit_xor a b) b ≡ a
bit_xor_cancel a b = bit_xor_cancel_fuel (a + b) a b (omega arith) (omega arith)

bit_xor-zero_fuel : (n a : ℕ) → a ≤ n → bit_xor a 0 ≡ a
bit_xor-zero_fuel zero a h = let a' : a ≡ 0 = omega arith in rw a' (zero-bit_xor 0)
bit_xor-zero_fuel (suc n) a h =
    omega (arith, bit_xor_step a 0, bit_xor-zero_fuel n (a / 2) (omega arith))

pub bit_xor-zero : (a : ℕ) → bit_xor a 0 ≡ a
bit_xor-zero a = bit_xor-zero_fuel a a (omega arith)

pub bit_xor_self : (a : ℕ) → bit_xor a a ≡ 0
bit_xor_self a = ap (λ (t : ℕ). bit_xor t a) (sym (zero-bit_xor a)) ∙ bit_xor_cancel 0 a

bit_xor_comm_fuel : (n a b : ℕ) → a ≤ n → b ≤ n → bit_xor a b ≡ bit_xor b a
bit_xor_comm_fuel zero a b ha hb =
    let a' : a ≡ 0 = omega arith in let b' : b ≡ 0 = omega arith in rw (a', b')
bit_xor_comm_fuel (suc n) a b ha hb = omega (
  arith,
  bit_xor_step a b,
  bit_xor_step b a,
  bit_xor_comm_fuel n (a / 2) (b / 2) (omega arith) (omega arith),
)

pub bit_xor_comm : (a b : ℕ) → bit_xor a b ≡ bit_xor b a
bit_xor_comm a b = bit_xor_comm_fuel (a + b) a b (omega arith) (omega arith)

-- The two halves of a result, for proofs where the call itself is an unknown.
pub bit_xor_half : (a b : ℕ) → bit_xor a b / 2 ≡ bit_xor (a / 2) (b / 2)
bit_xor_half a b = omega (arith, bit_xor_step a b)

pub bit_xor_parity : (a b : ℕ) → bit_xor a b % 2 ≡ (a + b) % 2
bit_xor_parity a b = omega (arith, bit_xor_step a b)

bit_xor_assoc_fuel :
    (n a b c : ℕ) → a ≤ n → b ≤ n → c ≤ n → bit_xor (bit_xor a b) c ≡ bit_xor a (bit_xor b c)
bit_xor_assoc_fuel zero a b c ha hb hc =
    let a' : a ≡ 0 = omega arith in rw (a', zero-bit_xor b, zero-bit_xor (bit_xor b c))
bit_xor_assoc_fuel (suc n) a b c ha hb hc = omega (
  arith,
  bit_xor_step (bit_xor a b) c,
  bit_xor_step a (bit_xor b c),
  ap (λ (t : ℕ). bit_xor t (c / 2)) (bit_xor_half a b),
  ap (λ (t : ℕ). bit_xor (a / 2) t) (bit_xor_half b c),
  bit_xor_parity a b,
  bit_xor_parity b c,
  bit_xor_assoc_fuel n (a / 2) (b / 2) (c / 2) (omega arith) (omega arith) (omega arith),
)

pub bit_xor_assoc : (a b c : ℕ) → bit_xor (bit_xor a b) c ≡ bit_xor a (bit_xor b c)
bit_xor_assoc a b c = bit_xor_assoc_fuel (a + b + c) a b c (omega arith) (omega arith) (omega arith)

pub bit_xor_injective : (a b c : ℕ) → bit_xor a c ≡ bit_xor b c → a ≡ b
bit_xor_injective a b c e =
    sym (bit_xor_cancel a c) ∙ ap (λ (t : ℕ). bit_xor t c) e ∙ bit_xor_cancel b c

-- Nothing is common with zero.
min-digits : (n a : ℕ) → digits (λ y. zero) min n a 0 ≡ 0
min-digits zero a = refl
min-digits (suc n) zero = refl
min-digits (suc n) (suc a) = omega (arith, min-digits n (suc a / 2))

-- `a & 1` is the parity of `a`.
pub bit_and-one : (a : ℕ) → bit_and a 1 ≡ a % 2
bit_and-one zero = bit_and-bitwise 0 1
bit_and-one (suc a) = omega (arith, bit_and-bitwise (suc a) 1, min-digits a (suc a / 2))

zero-bit_or : (b : ℕ) → bit_or 0 b ≡ b
zero-bit_or b = bit_or-bitwise 0 b

bit_or_digit : (a b : ℕ) → bit_or a b ≡ 2 * bit_or (a / 2) (b / 2) + max (a % 2) (b % 2)
bit_or_digit zero b = omega (arith, zero-bit_or b, zero-bit_or (b / 2))
bit_or_digit (suc a) b =
    let whole = bit_or-bitwise (suc a) b in
    let rest = bit_or-bitwise (suc a / 2) (b / 2) in
    omega (arith, lowest_digit (λ y. y) max a b, whole, rest)

-- `r | (q << k)` is a sum when `r` fits `k` bits.
pub bit_or-shifted : (k r q : ℕ) → r < 2 ^ k → bit_or r (q * 2 ^ k) ≡ q * 2 ^ k + r
bit_or-shifted zero r q h =
    let none_left : r ≡ 0 = omega arith in rw none_left (omega (arith, zero-bit_or (q * 2 ^ 0)))
bit_or-shifted (suc k) r q h =
    let halved = bit_or-shifted k (r / 2) q (omega (arith, pow-suc 2 k)) in
    let double = shift-suc q k in
    let half : q * 2 ^ suc k / 2 ≡ q * 2 ^ k = omega arith in
    omega
      (arith, bit_or_digit r (q * 2 ^ suc k), double, ap (λ (t : ℕ). bit_or (r / 2) t) half, halved)

bit_or-zero_below : (n a : ℕ) → a ≤ n → bit_or a 0 ≡ a
bit_or-zero_below n zero h = zero-bit_or 0
bit_or-zero_below zero (suc a) h = absurd (omega arith)
bit_or-zero_below (suc n) (suc a) h =
    omega (arith, bit_or_digit (suc a) 0, bit_or-zero_below n (suc a / 2) (omega arith))

-- `(q << k) | r` is the same sum.
pub shifted-bit_or : (k r q : ℕ) → r < 2 ^ k → bit_or (q * 2 ^ k) r ≡ q * 2 ^ k + r
shifted-bit_or zero r q h =
    let none_left : r ≡ 0 = omega arith in
    rw none_left (omega (arith, bit_or-zero_below (q * 2 ^ 0) (q * 2 ^ 0) (omega arith)))
shifted-bit_or (suc k) r q h =
    let halved = shifted-bit_or k (r / 2) q (omega (arith, pow-suc 2 k)) in
    let double = shift-suc q k in
    let half : q * 2 ^ suc k / 2 ≡ q * 2 ^ k = omega arith in
    omega
      (arith, bit_or_digit (q * 2 ^ suc k) r, double, ap (λ (t : ℕ). bit_or t (r / 2)) half, halved)
