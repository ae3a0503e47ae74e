-- ===== src/Protocol/Frame.antt =====
-- The TCP frame codec of modules/protocol/frame.c: MAGIC (0xA5 0x5A), LEN, PAYLOAD, CRC16 low byte
-- first. The part of `frame_parser_t.buffer` below `size` is a list of bytes whose length is
-- `size`; nothing in the code reads beyond it. `size_t` counters wrap at 2 ^ 64. An output that a
-- call leaves alone is `none`.
pub mod Wire
pub mod Magic
pub mod Step
pub mod RoundTrip
pub mod Progress
mod Tests
use edgevision_gateway.Common.{
  ℕ, ◌+◌, ◌-◌, ◌*◌, ◌/◌, ◌^◌, Bool, true, false, ◌&&◌, Option, none, some, List, [], ◌∷◌, ◌++◌,
  length, get_or, take, drop, ltb, ◌==◌, ◌!=◌, if◌then◌else◌, bit_or, u8, add_size, sub_size,
}
use edgevision_gateway.Protocol.Crc.{frame_crc16_modbus}

abbrev pub frame_max_payload : ℕ
frame_max_payload = 240

abbrev pub frame_buffer_capacity : ℕ
frame_buffer_capacity = 2048

-- FRAME_INVALID, FRAME_NEED_MORE and FRAME_READY.
pub data FrameResult : Type 0 where
  invalid need_more ready : FrameResult

pub record FrameParserStats : Type 0 where
  pub frame_ok : ℕ
  pub bad_crc : ℕ
  pub invalid_lengths : ℕ
  pub noise_bytes : ℕ
  pub buffer_overflows : ℕ

pub record FrameParser : Type 0 where
  pub buffer : List ℕ
  pub stats : FrameParserStats

-- Two bytes on the wire, low byte first, as a `uint16_t`.
unfoldable pub read_le16 : ℕ → ℕ → ℕ
read_le16 lo hi = bit_or lo (hi * 2 ^ 8)

pub frame_check_crc : List ℕ → ℕ → FrameResult
frame_check_crc buffer frame_size =
    let crc_offset = frame_size - 2 in
    let crc_data_size = frame_size - 2 - 3 + 1 in
    let calculated_crc = frame_crc16_modbus (drop 2 buffer) crc_data_size in
    let received_crc = read_le16 (get_or buffer crc_offset 0) (get_or buffer (crc_offset + 1) 0) in
    if calculated_crc != received_crc then invalid else ready

-- The search loop from index `i` on; what it reads stands at the head of the list.
pub magic_from : ℕ → List ℕ → Option ℕ
magic_from i [] = none
magic_from i (a ∷ []) = none
magic_from i (a ∷ b ∷ bytes) =
    let later = magic_from (i + 1) (b ∷ bytes) in
    if (a == 0xA5) && (b == 0x5A) then some i else later

-- Whether the magic is there, and the number of bytes to discard.
pub frame_find_magic : List ℕ → Bool × ℕ
frame_find_magic buffer =
    let buffer_size = length buffer in
    if buffer_size == 0 then (false, 0) else elim (magic_from 0 buffer) [
      | some i ↦ (true, i)
      | none ↦
          if get_or buffer (buffer_size - 1) 0 == 0xA5
          then (false, buffer_size - 1)
          else (false, buffer_size)
    ]

-- The result, and `*frame_size` where it is written.
pub frame_check_size : List ℕ → FrameResult × ℕ
frame_check_size buffer =
    if ltb (length buffer) 3
    then (need_more, 0)
    else let payload_size = get_or buffer 2 0 in
      if ltb frame_max_payload payload_size
      then (invalid, 0)
      else let frame_size = 3 + payload_size + 2 in
        if ltb (length buffer) frame_size then (need_more, frame_size) else (ready, frame_size)

pub frame_discard_prefix : FrameParser → ℕ → FrameParser
frame_discard_prefix parser discard_size = record parser {
  buffer = drop discard_size parser.buffer;
}

abbrev pub zero_stats : FrameParserStats
zero_stats = record {
  frame_ok = 0;
  bad_crc = 0;
  invalid_lengths = 0;
  noise_bytes = 0;
  buffer_overflows = 0;
}

abbrev pub frame_parser_init : FrameParser
frame_parser_init = record { buffer = []; stats = zero_stats }

pub frame_parser_feed : FrameParser → List ℕ → FrameResult × FrameParser
frame_parser_feed parser bytes =
    if ltb (sub_size frame_buffer_capacity (length parser.buffer)) (length bytes)
    then (
      invalid,
      record parser {
        stats = record (parser.stats) {
          buffer_overflows = add_size parser.stats.buffer_overflows 1;
        };
      },
    )
    else (ready, record parser { buffer = parser.buffer ++ bytes })

abbrev pub Next : Type 0
Next = FrameResult × FrameParser × Option (List ℕ)

-- Step 4 of frame_parser_next: hand the payload out and drop the frame.
pub next_ready : FrameParser → ℕ → Next
unfolding frame_discard_prefix
next_ready parser frame_size =
    let payload_size = get_or parser.buffer 2 0 in
    let payload = take payload_size (drop 3 parser.buffer) in
    let counted = record parser {
      stats = record (parser.stats) { frame_ok = add_size parser.stats.frame_ok 1 };
    } in
    (ready, frame_discard_prefix counted frame_size, some payload)

-- Step 3 of frame_parser_next, on the result of the CRC check: a bad frame loses one byte.
pub after_crc : FrameParser → ℕ → FrameResult → Next
unfolding frame_discard_prefix
after_crc parser frame_size invalid =
    let counted = record parser {
      stats = record (parser.stats) { bad_crc = add_size parser.stats.bad_crc 1 };
    } in
    (invalid, frame_discard_prefix counted 1, none)
after_crc parser frame_size _ = next_ready parser frame_size

-- Step 2, on the result of the length check.
pub after_size : FrameParser → FrameResult × ℕ → Next
unfolding frame_discard_prefix
after_size parser (invalid, frame_size) =
    let counted = record parser {
      stats = record (parser.stats) { invalid_lengths = add_size parser.stats.invalid_lengths 1 };
    } in
    (invalid, frame_discard_prefix counted 1, none)
after_size parser (need_more, frame_size) = (need_more, parser, none)
after_size parser (ready, frame_size) =
    after_crc parser frame_size (frame_check_crc parser.buffer frame_size)

-- The buffer begins with the magic.
pub next_candidate : FrameParser → Next
next_candidate parser = after_size parser (frame_check_size parser.buffer)

-- Step 1, on the result of the search.
pub after_magic : FrameParser → Bool × ℕ → Next
unfolding frame_discard_prefix
after_magic parser (found, discard_size) =
    let counted = record parser {
      stats = record (parser.stats) {
        noise_bytes = add_size parser.stats.noise_bytes discard_size;
      };
    } in
    let cleaned = frame_discard_prefix counted discard_size in
    if found then next_candidate cleaned else (need_more, cleaned, none)

pub frame_parser_next : FrameParser → Next
frame_parser_next parser = after_magic parser (frame_find_magic parser.buffer)

-- The payload is as long as `payload_size` says. What is written to `output`, if anything is.
unfoldable pub frame_encode : List ℕ → ℕ → FrameResult × Option (List ℕ)
frame_encode payload output_capacity =
    let payload_size = length payload in
    if ltb frame_max_payload payload_size
    then (invalid, none)
    else let frame_size = 3 + payload_size + 2 in
      if ltb output_capacity frame_size
      then (invalid, none)
      else let output = 0xA5 ∷ 0x5A ∷ u8 payload_size ∷ payload in
        let crc = frame_crc16_modbus (drop 2 output) (payload_size + 1) in
        (ready, some (output ++ u8 crc ∷ u8 (crc / 2 ^ 8) ∷ []))
