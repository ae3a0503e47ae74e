-- ===== src/Protocol/Frame/Step.antt =====
-- One call of frame_parser_next of modules/protocol/frame.c, on a buffer that begins with a frame, on
-- one that holds a part of a frame, and on one that holds neither.
use edgevision_gateway.Common.{
  ℕ, suc, ◌+◌, ◌-◌, ◌*◌, ◌/◌, ◌%◌, ◌≤◌, ◌<◌, ◌≡◌, ◌≢◌, refl, ◌∙◌, ap, arith, none, some, List, [],
  ◌∷◌, ◌++◌, length, length-append, true, false, if◌then◌else◌, get_or, get_or-append_right, drop,
  take-append, drop-append, ◌!=◌, add_size, append_assoc,
}
use edgevision_gateway.Common.Bits.{bit_or-shifted}
use edgevision_gateway.Protocol.Crc.Residue.{frame_crc16_modbus_prefix}
use edgevision_gateway.Protocol.Frame.{
  FrameResult, invalid, need_more, ready, FrameParser, FrameParserStats, frame_find_magic,
  frame_check_size, frame_check_crc, next_candidate, next_ready, frame_parser_next, read_le16,
  magic_from, after_magic, after_size, after_crc,
}
use edgevision_gateway.Protocol.Frame.Wire.{wire_crc, trailer, frame_bytes, length-frame_bytes}
use edgevision_gateway.Protocol.Frame.Magic.{NoMagic, magic_from_skip}

-- The parser once the bytes before the magic are counted and gone.
abbrev pub cleaned : FrameParser → ℕ → FrameParser
cleaned parser d = record {
  buffer = drop d parser.buffer;
  stats = record (parser.stats) { noise_bytes = add_size parser.stats.noise_bytes d };
}

-- The parser behind a frame of `n` bytes that was handed out.
abbrev pub consumed : FrameParser → ℕ → FrameParser
consumed parser n = record {
  buffer = drop n parser.buffer;
  stats = record (parser.stats) { frame_ok = add_size parser.stats.frame_ok 1 };
}

pub next_found :
    (parser : FrameParser) (d : ℕ)
    → frame_find_magic parser.buffer ≡ (true, d)
    → frame_parser_next parser ≡ next_candidate (cleaned parser d)
unfolding frame_parser_next after_magic
next_found parser d e = ap (after_magic parser) e

pub next_not_found :
    (parser : FrameParser) (d : ℕ)
    → frame_find_magic parser.buffer ≡ (false, d)
    → frame_parser_next parser ≡ (need_more, cleaned parser d, none)
unfolding frame_parser_next after_magic
next_not_found parser d e = ap (after_magic parser) e

pub frame_find_magic_found :
    (noise rest : List ℕ)
    → NoMagic noise
    → frame_find_magic (noise ++ 0xA5 ∷ 0x5A ∷ rest) ≡ (true, length noise)
unfolding frame_find_magic
frame_find_magic_found noise rest h =
    ground (arith, magic_from_skip 0 noise rest h, length-append noise (0xA5 ∷ 0x5A ∷ rest))

-- The bytes of the trailer read back as the CRC.
pub read_le16_lem : (lo hi : ℕ) → lo < 256 → read_le16 lo hi ≡ hi * 256 + lo
unfolding read_le16
read_le16_lem lo hi h = bit_or-shifted 8 lo hi h

pub frame_check_size_ready :
    (payload rest : List ℕ)
    → length payload ≤ 240
    → frame_check_size (frame_bytes payload ++ rest) ≡ (ready, 3 + length payload + 2)
unfolding frame_check_size
frame_check_size_ready payload rest h =
    ground (arith, length-append (frame_bytes payload) rest, length-frame_bytes payload)

-- The CRC check on a buffer that holds a whole candidate.
pub frame_check_crc_lem :
    (payload rest : List ℕ) (lo hi : ℕ)
    → frame_check_crc
        (0xA5 ∷ 0x5A ∷ length payload ∷ (payload ++ lo ∷ hi ∷ rest))
        (3 + length payload + 2)
      ≡ (if wire_crc payload != read_le16 lo hi then invalid else ready)
unfolding frame_check_crc
frame_check_crc_lem payload rest lo hi =
    let offset : 3 + length payload + 2 - 2 ≡ suc (suc (suc (length payload + 0))) = omega arith in
    let next_offset : suc (suc (suc (length payload + 0))) + 1
        ≡ suc (suc (suc (length payload + 1))) =
      omega arith in
    let size : suc (suc (suc (length payload + 0))) - 3 + 1 ≡ length (length payload ∷ payload) =
      omega arith in
    rw
      (
        offset,
        next_offset,
        size,
        get_or-append_right payload (lo ∷ hi ∷ rest) 0 0,
        get_or-append_right payload (lo ∷ hi ∷ rest) 1 0,
        frame_crc16_modbus_prefix (length payload ∷ payload) (lo ∷ hi ∷ rest),
      )
      refl

pub frame_check_crc_ready :
    (payload rest : List ℕ)
    → frame_check_crc (frame_bytes payload ++ rest) (3 + length payload + 2) ≡ ready
frame_check_crc_ready payload rest =
    rw
      (
        append_assoc payload (trailer payload) rest,
        frame_check_crc_lem payload rest (wire_crc payload % 256) (wire_crc payload / 256),
        read_le16_lem (wire_crc payload % 256) (wire_crc payload / 256) (omega arith),
      )
      (ground arith)

pub next_ready_frame :
    (s : FrameParserStats) (payload rest : List ℕ)
    → next_ready
        (record { buffer = frame_bytes payload ++ rest; stats = s })
        (3 + length payload + 2)
      ≡ (
        ready,
        record { buffer = rest; stats = record s { frame_ok = add_size s.frame_ok 1 } },
        some payload,
      )
unfolding next_ready
next_ready_frame s payload rest =
    let size : 3 + length payload + 2 ≡ length (frame_bytes payload) =
      omega (arith, length-frame_bytes payload) in
    rw
      (
        size,
        drop-append (frame_bytes payload) rest,
        append_assoc payload (trailer payload) rest,
        take-append payload (trailer payload ++ rest),
      )
      refl

-- What a call hands out and leaves behind when the buffer begins with a frame.
pub next_candidate_frame :
    (s : FrameParserStats) (payload rest : List ℕ)
    → length payload ≤ 240
    → next_candidate (record { buffer = frame_bytes payload ++ rest; stats = s }) ≡ (
      ready,
      record { buffer = rest; stats = record s { frame_ok = add_size s.frame_ok 1 } },
      some payload,
    )
unfolding next_candidate after_size after_crc
next_candidate_frame s payload rest h =
    ap (after_size (parser)) (frame_check_size_ready payload rest h)
    ∙ ap (after_crc parser (3 + length payload + 2)) (frame_check_crc_ready payload rest)
    ∙ next_ready_frame s payload rest
  where
    parser : FrameParser
    parser = record { buffer = frame_bytes payload ++ rest; stats = s }

-- A part of a frame, from its first byte on, and what is still to come.
abbrev pub IsPart : List ℕ → List ℕ → List ℕ → Type 0
IsPart part more payload = (part ++ more ≡ frame_bytes payload) × (more ≢ [])

part_size :
    (part more payload : List ℕ)
    → IsPart (0xA5 ∷ 0x5A ∷ part) more payload
    → length payload ≤ 240
    → (frame_check_size (0xA5 ∷ 0x5A ∷ part)).0 ≡ need_more
unfolding frame_check_size
part_size [] more payload e h = refl
part_size (n ∷ part) [] payload e h = absurd (e.1 refl)
part_size (n ∷ part) (m ∷ more) payload e h = ground (
  arith,
  ap (λ (t : List ℕ). get_or t 2 0) e.0,
  ap length e.0,
  length-append part (m ∷ more),
  length-append payload (trailer payload),
)

after_size_need_more :
    (parser : FrameParser) (t : FrameResult × ℕ)
    → t.0 ≡ need_more
    → after_size parser t ≡ (need_more, parser, none)
unfolding after_size
after_size_need_more parser (invalid, n) e = cc
after_size_need_more parser (need_more, n) e = refl
after_size_need_more parser (ready, n) e = cc

next_part_magic :
    (s : FrameParserStats) (part more payload : List ℕ)
    → IsPart (0xA5 ∷ 0x5A ∷ part) more payload
    → length payload ≤ 240
    → frame_parser_next (record { buffer = 0xA5 ∷ 0x5A ∷ part; stats = s })
      ≡ (need_more, cleaned (record { buffer = 0xA5 ∷ 0x5A ∷ part; stats = s }) 0, none)
unfolding next_candidate
next_part_magic s part more payload e h =
    next_found _ 0 (frame_find_magic_found [] part tt)
    ∙ after_size_need_more _ _ (part_size part more payload e h)

-- A part of a frame is kept, and nothing is handed out.
pub next_part :
    (s : FrameParserStats) (part more payload : List ℕ)
    → IsPart part more payload
    → length payload ≤ 240
    → frame_parser_next (record { buffer = part; stats = s })
      ≡ (need_more, cleaned (record { buffer = part; stats = s }) 0, none)
next_part s [] more payload e h = next_not_found _ 0 (unfold frame_find_magic in refl)
next_part s (a ∷ []) more payload e h =
    next_not_found _ 0
      (unfold frame_find_magic magic_from in ground (arith, ap (λ (t : List ℕ). get_or t 0 0) e.0))
next_part s (a ∷ b ∷ part) more payload e h =
    let first : a ≡ 0xA5 = ap (λ (t : List ℕ). get_or t 0 0) e.0 in
    let second : b ≡ 0x5A = ap (λ (t : List ℕ). get_or t 1 0) e.0 in
    rw (first, second) (next_part_magic s part more payload (rw (first, second) at e) h)

-- Behind noise that holds no 0xA5, a frame is found and handed out.
pub next_noise_frame :
    (s : FrameParserStats) (noise payload rest : List ℕ)
    → NoMagic noise
    → length payload ≤ 240
    → frame_parser_next (record { buffer = noise ++ (frame_bytes payload ++ rest); stats = s }) ≡ (
      ready,
      record {
        buffer = rest;
        stats = record s {
          frame_ok = add_size s.frame_ok 1;
          noise_bytes = add_size s.noise_bytes (length noise);
        };
      },
      some payload,
    )
next_noise_frame s noise payload rest quiet h =
    next_found _ (length noise)
      (frame_find_magic_found noise (length payload ∷ (payload ++ trailer payload ++ rest)) quiet)
    ∙ ap (λ (b : List ℕ). next_candidate (record { buffer = b; stats = counted }))
        (drop-append noise (frame_bytes payload ++ rest))
    ∙ next_candidate_frame counted payload rest h
  where
    counted : FrameParserStats
    counted = record s { noise_bytes = add_size s.noise_bytes (length noise) }
