-- ===== src/Protocol/Frame/Tests.antt =====
-- The frame codec of modules/protocol/frame.c on concrete bytes, and the theorems about it at
-- inputs that meet their hypotheses.
use edgevision_gateway.Common.{
  ℕ, ◌≡◌, ◌≢◌, refl, ap, arith, none, some, List, [], ◌∷◌, ◌++◌, length, ◌<◌, ◌≤◌,
}
use edgevision_gateway.Protocol.Crc.{frame_crc16_modbus}
use edgevision_gateway.Protocol.Frame.{
  invalid, need_more, ready, FrameParser, frame_parser_next, zero_stats, frame_encode,
  frame_find_magic, magic_from, frame_check_size, frame_check_crc, next_candidate, next_ready, Next,
  after_magic, after_size, after_crc, frame_max_payload, read_le16,
}
use edgevision_gateway.Protocol.Frame.Wire.{frame_bytes}
use edgevision_gateway.Protocol.Frame.RoundTrip.{next-encode, next-ready_sound}
use edgevision_gateway.Protocol.Frame.Progress.{next-shrinks}

abbrev hello : List ℕ
hello = 0x68 ∷ 0x69 ∷ []

abbrev hello_frame : List ℕ
hello_frame = 0xA5 ∷ 0x5A ∷ 2 ∷ 0x68 ∷ 0x69 ∷ 0x3F ∷ 0xEE ∷ []

abbrev holding : List ℕ → FrameParser
holding bytes = record { buffer = bytes; stats = zero_stats }

encode_hello : frame_encode hello 7 ≡ (ready, some hello_frame)
unfolding frame_encode frame_crc16_modbus
encode_hello = refl

-- A bad CRC costs one byte, and the noise before it is gone.
next_bad_crc : frame_parser_next (holding (7 ∷ 0xA5 ∷ 0x5A ∷ 1 ∷ 2 ∷ 3 ∷ 4 ∷ [])) ≡ (
  invalid,
  record {
    buffer = 0x5A ∷ 1 ∷ 2 ∷ 3 ∷ 4 ∷ [];
    stats = record zero_stats { bad_crc = 1; noise_bytes = 1 };
  },
  none,
)
unfolding frame_parser_next frame_find_magic magic_from after_magic next_candidate frame_check_size
    after_size frame_check_crc frame_crc16_modbus read_le16 after_crc
next_bad_crc = refl

-- A last 0xA5 is kept for the next call.
next_half_magic : frame_parser_next (holding (7 ∷ 8 ∷ 0xA5 ∷ [])) ≡ (
  need_more,
  record { buffer = 0xA5 ∷ []; stats = record zero_stats { noise_bytes = 2 } },
  none,
)
unfolding frame_parser_next frame_find_magic magic_from after_magic
next_half_magic = refl

next_hello : frame_parser_next (holding (7 ∷ (hello_frame ++ 9 ∷ []))) ≡ (
  ready,
  record { buffer = 9 ∷ []; stats = record zero_stats { frame_ok = 1; noise_bytes = 1 } },
  some hello,
)
unfolding frame_parser_next frame_find_magic magic_from after_magic next_candidate frame_check_size
    after_size frame_check_crc frame_crc16_modbus read_le16 after_crc next_ready
next_hello = refl

next-encode_example :
    (frame : List ℕ) × (frame_encode hello 245 ≡ (ready, some frame))
    × (frame_parser_next (holding (7 ∷ (frame ++ 9 ∷ []))) ≡ (
      ready,
      record { buffer = 9 ∷ []; stats = record zero_stats { frame_ok = 1; noise_bytes = 1 } },
      some hello,
    ))
next-encode_example =
    next-encode zero_stats (7 ∷ []) hello (9 ∷ []) 245 (omega arith) (omega arith) (omega arith)
      (omega arith)

next-ready_sound_example :
    (noise : List ℕ) × (payload : List ℕ) × (some hello ≡ some payload)
    × (length payload ≤ frame_max_payload)
    × (7 ∷ (hello_frame ++ 9 ∷ []) ≡ noise ++ (frame_bytes payload ++ 9 ∷ []))
next-ready_sound_example =
    next-ready_sound (holding (7 ∷ (hello_frame ++ 9 ∷ []))) _ (some hello) (omega arith) next_hello

hello_found : (frame_parser_next (holding (7 ∷ (hello_frame ++ 9 ∷ [])))).0 ≢ need_more
hello_found e = cc (ap (λ (t : Next). t.0) next_hello)

next-shrinks_example :
    length (frame_parser_next (holding (7 ∷ (hello_frame ++ 9 ∷ [])))).1.buffer
    < length (7 ∷ (hello_frame ++ 9 ∷ []))
next-shrinks_example = next-shrinks (holding (7 ∷ (hello_frame ++ 9 ∷ []))) hello_found
