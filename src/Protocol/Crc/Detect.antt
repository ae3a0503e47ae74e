-- ===== src/Protocol/Crc/Detect.antt =====
-- What the CRC detects: the register's step loses nothing and is linear, so a change confined to
-- two neighbouring bytes of a message always changes the result.
use edgevision_gateway.Common.{
  ℕ, zero, suc, ◌+◌, ◌*◌, ◌/◌, ◌%◌, ◌^◌, ◌<◌, ◌≤◌, ◌≡◌, ◌≢◌, refl, sym, ◌∙◌, ap, ap₂, arith,
}
use edgevision_gateway.Common.{
  List, [], ◌∷◌, ◌++◌, ◌⊎◌, inl, inr, length, length-append, All, bit_xor,
}
use edgevision_gateway.Common.Bits.{
  bit_xor-lt, bit_xor_fields, bit_xor-zero, bit_xor_comm, bit_xor_assoc, bit_xor_half,
  bit_xor_parity, bit_xor_injective, bit_xor_cancel,
}
use edgevision_gateway.Protocol.Crc.{
  crc_bit, crc_bits, crc_byte, crc_bytes, frame_crc16_modbus, IsByte,
}
use edgevision_gateway.Protocol.Crc.Residue.{
  crc_bit_even, crc_bit_odd, crc_bit-lt, crc_bits-lt, crc_byte-lt, crc_bytes-lt, crc_bytes-append,
  crc_bits_shift, frame_crc16_modbus_all,
}

parity : (c : ℕ) → (c % 2 ≡ 0) ⊎ (c % 2 ≡ 1)
parity c = omega arith

-- The polynomial has its top bit set, so a round that shifts a one out sets bit 15.
poly_top : (x : ℕ) → x < 2 ^ 15 → 2 ^ 15 ≤ bit_xor x 0xA001
poly_top x h =
    let low : 0 * 2 ^ 15 + x ≡ x = omega arith in
    let apart = bit_xor_fields 15 0 x 1 0x2001 h (omega arith) in
    omega (arith, apart, ap (λ (t : ℕ). bit_xor t 0xA001) low)

odd-ne-even : (c d : ℕ) → c < 2 ^ 16 → d < 2 ^ 16 → c % 2 ≡ 1 → d % 2 ≡ 0 → crc_bit c ≢ crc_bit d
odd-ne-even c d hc hd oc ed e =
    omega (arith, crc_bit_odd c oc, crc_bit_even d ed, poly_top (c / 2) (omega arith), e)

-- One round loses nothing: two registers that agree after it agreed before it.
crc_bit_injective : (c d : ℕ) → c < 2 ^ 16 → d < 2 ^ 16 → crc_bit c ≡ crc_bit d → c ≡ d
crc_bit_injective c d hc hd e = split (parity c) (parity d)
  where
    split : (c % 2 ≡ 0) ⊎ (c % 2 ≡ 1) → (d % 2 ≡ 0) ⊎ (d % 2 ≡ 1) → c ≡ d
    split (inl p) (inl q) = omega (arith, crc_bit_even c p, crc_bit_even d q, e)
    split (inl p) (inr q) = absurd (odd-ne-even d c hd hc q p (sym e))
    split (inr p) (inl q) = absurd (odd-ne-even c d hc hd p q e)
    split (inr p) (inr q) =
        let halves : c / 2 ≡ d / 2 =
          bit_xor_injective (c / 2) (d / 2) 0xA001 (sym (crc_bit_odd c p) ∙ e ∙ crc_bit_odd d q) in
        omega arith

crc_bits_injective : (n c d : ℕ) → c < 2 ^ 16 → d < 2 ^ 16 → crc_bits n c ≡ crc_bits n d → c ≡ d
unfolding crc_bits
crc_bits_injective zero c d hc hd e = e
crc_bits_injective (suc n) c d hc hd e =
    crc_bit_injective c d hc hd
      (crc_bits_injective n (crc_bit c) (crc_bit d) (crc_bit-lt c hc) (crc_bit-lt d hd) e)

crc_byte_injective :
    (c d b : ℕ) → c < 2 ^ 16 → d < 2 ^ 16 → IsByte b → crc_byte c b ≡ crc_byte d b → c ≡ d
unfolding crc_byte
crc_byte_injective c d b hc hd hb e = bit_xor_injective c d b (
    crc_bits_injective 8 (bit_xor c b) (bit_xor d b) (bit_xor-lt 16 c b hc (omega arith))
      (bit_xor-lt 16 d b hd (omega arith)) e)

crc_bytes_injective :
    (c d : ℕ) (bs : List ℕ)
    → c < 2 ^ 16
    → d < 2 ^ 16
    → All IsByte bs
    → crc_bytes c bs ≡ crc_bytes d bs
    → c ≡ d
unfolding crc_bytes
crc_bytes_injective c d [] hc hd hb e = e
crc_bytes_injective c d (b ∷ bs) hc hd hb e = crc_byte_injective c d b hc hd hb.0 (
    crc_bytes_injective (crc_byte c b) (crc_byte d b) bs (crc_byte-lt c b hc hb.0)
      (crc_byte-lt d b hd hb.0) hb.1 e)

bit_xor_swap : (a b c : ℕ) → bit_xor (bit_xor a b) c ≡ bit_xor (bit_xor a c) b
bit_xor_swap a b c =
    bit_xor_assoc a b c ∙ ap (λ (t : ℕ). bit_xor a t) (bit_xor_comm b c) ∙ sym (bit_xor_assoc a c b)

bit_xor_pair : (a b c : ℕ) → bit_xor a b ≡ bit_xor (bit_xor a c) (bit_xor b c)
bit_xor_pair a b c =
    sym (bit_xor_cancel (bit_xor a b) c)
    ∙ ap (λ (t : ℕ). bit_xor t c) (bit_xor_swap a b c)
    ∙ bit_xor_assoc (bit_xor a c) b c

-- The round is linear over exclusive or.
crc_bit_xor : (c d : ℕ) → crc_bit (bit_xor c d) ≡ bit_xor (crc_bit c) (crc_bit d)
crc_bit_xor c d = split (parity c) (parity d)
  where
    even : (c + d) % 2 ≡ 0 → crc_bit (bit_xor c d) ≡ bit_xor (c / 2) (d / 2)
    even h = crc_bit_even (bit_xor c d) (bit_xor_parity c d ∙ h) ∙ bit_xor_half c d

    odd : (c + d) % 2 ≡ 1 → crc_bit (bit_xor c d) ≡ bit_xor (bit_xor (c / 2) (d / 2)) 0xA001
    odd h =
        crc_bit_odd (bit_xor c d) (bit_xor_parity c d ∙ h)
        ∙ ap (λ (t : ℕ). bit_xor t 0xA001) (bit_xor_half c d)

    split :
        (c % 2 ≡ 0) ⊎ (c % 2 ≡ 1)
        → (d % 2 ≡ 0) ⊎ (d % 2 ≡ 1)
        → crc_bit (bit_xor c d) ≡ bit_xor (crc_bit c) (crc_bit d)
    split (inl p) (inl q) = rw (crc_bit_even c p, crc_bit_even d q) (even (omega arith))
    split (inl p) (inr q) =
        rw (crc_bit_even c p, crc_bit_odd d q)
          (odd (omega arith) ∙ bit_xor_assoc (c / 2) (d / 2) 0xA001)
    split (inr p) (inl q) =
        rw (crc_bit_odd c p, crc_bit_even d q)
          (odd (omega arith) ∙ bit_xor_swap (c / 2) (d / 2) 0xA001)
    split (inr p) (inr q) =
        rw (crc_bit_odd c p, crc_bit_odd d q)
          (even (omega arith) ∙ bit_xor_pair (c / 2) (d / 2) 0xA001)

crc_bits_xor : (n c d : ℕ) → crc_bits n (bit_xor c d) ≡ bit_xor (crc_bits n c) (crc_bits n d)
unfolding crc_bits
crc_bits_xor zero c d = refl
crc_bits_xor (suc n) c d = rw (crc_bit_xor c d) (crc_bits_xor n (crc_bit c) (crc_bit d))

-- Two bytes in a row are sixteen rounds on the register with both bytes put in.
crc_byte_twice :
    (c a b : ℕ)
    → crc_byte (crc_byte c a) b ≡ crc_bits 8 (crc_bits 8 (bit_xor (bit_xor c a) (b * 2 ^ 8)))
unfolding crc_byte
crc_byte_twice c a b = rw (crc_bits_xor 8 (bit_xor c a) (b * 2 ^ 8), crc_bits_shift 8 b)

-- Two bytes as one 16-bit word.
join_bytes : (a b : ℕ) → IsByte a → bit_xor a (b * 2 ^ 8) ≡ b * 2 ^ 8 + a
join_bytes a b ha =
    let low : 0 * 2 ^ 8 + a ≡ a = omega arith in
    let high : b * 2 ^ 8 + 0 ≡ b * 2 ^ 8 = omega arith in
    let apart = bit_xor_fields 8 0 a b 0 ha (omega arith) in
    omega (
      arith,
      apart,
      ap₂ (λ (t u : ℕ). bit_xor t u) low high,
      bit_xor_comm 0 b,
      bit_xor-zero b,
      bit_xor-zero a,
    )

crc_byte_twice_injective :
    (c a b a' b' : ℕ)
    → c < 2 ^ 16
    → IsByte a
    → IsByte b
    → IsByte a'
    → IsByte b'
    → crc_byte (crc_byte c a) b ≡ crc_byte (crc_byte c a') b'
    → (a ≡ a') × (b ≡ b')
crc_byte_twice_injective c a b a' b' hc ha hb ha' hb' e =
    let small = λ (x y : ℕ) (hx : IsByte x) (hy : IsByte y). word-lt x y hx hy in
    let once =
      crc_bits_injective 8 _ _ (crc_bits-lt 8 _ (small a b ha hb))
        (crc_bits-lt 8 _ (small a' b' ha' hb'))
        (sym (crc_byte_twice c a b) ∙ e ∙ crc_byte_twice c a' b') in
    let twice = crc_bits_injective 8 _ _ (small a b ha hb) (small a' b' ha' hb') once in
    let words : bit_xor a (b * 2 ^ 8) ≡ bit_xor a' (b' * 2 ^ 8) =
      bit_xor_injective _ _ c (bring a b ∙ twice ∙ sym (bring a' b')) in
    let sums = sym (join_bytes a b ha) ∙ words ∙ join_bytes a' b' ha' in (omega arith, omega arith)
  where
    word-lt : (x y : ℕ) → IsByte x → IsByte y → bit_xor (bit_xor c x) (y * 2 ^ 8) < 2 ^ 16
    word-lt x y hx hy =
        bit_xor-lt 16 (bit_xor c x) (y * 2 ^ 8) (bit_xor-lt 16 c x hc (omega arith)) (omega arith)

    bring : (x y : ℕ) → bit_xor (bit_xor x (y * 2 ^ 8)) c ≡ bit_xor (bit_xor c x) (y * 2 ^ 8)
    bring x y =
        bit_xor_swap x (y * 2 ^ 8) c ∙ ap (λ (t : ℕ). bit_xor t (y * 2 ^ 8)) (bit_xor_comm x c)

-- Two messages of bytes that differ only in two neighbouring bytes, in either or both of them, have
-- different CRCs.
pub crc-detects_burst :
    (before after : List ℕ) (a b a' b' size : ℕ)
    → All IsByte before
    → All IsByte after
    → IsByte a
    → IsByte b
    → IsByte a'
    → IsByte b'
    → length before + 2 + length after ≡ size
    → ¬ ((a ≡ a') × (b ≡ b'))
    → frame_crc16_modbus (before ++ a ∷ b ∷ after) size
      ≢ frame_crc16_modbus (before ++ a' ∷ b' ∷ after) size
crc-detects_burst before after a b a' b' size hp hq ha hb ha' hb' e differ same =
    let start = crc_bytes-lt 0xFFFF before (omega arith) hp in
    differ (
      crc_byte_twice_injective (crc_bytes 0xFFFF before) a b a' b' start ha hb ha' hb' (
        crc_bytes_injective _ _ after (crc_byte-lt _ b (crc_byte-lt _ a start ha) hb)
          (crc_byte-lt _ b' (crc_byte-lt _ a' start ha') hb') hq
          (sym (whole a b) ∙ same ∙ whole a' b')))
  where
    whole :
        (x y : ℕ)
        → frame_crc16_modbus (before ++ x ∷ y ∷ after) size
          ≡ crc_bytes (crc_byte (crc_byte (crc_bytes 0xFFFF before) x) y) after
    whole x y =
        frame_crc16_modbus_all (before ++ x ∷ y ∷ after) size
          (omega (arith, length-append before (x ∷ y ∷ after)))
        ∙ crc_bytes-append 0xFFFF before (x ∷ y ∷ after)
        ∙ (unfold crc_bytes in refl)
