-- ===== src/Protocol/Frame/Progress.antt =====
-- frame_parser_next and frame_parser_feed of modules/protocol/frame.c on the size of the buffer:
-- repeated calls come to an end, and the buffer never outgrows its array.
use native.Mathlib.Decide.{dec_le}
use edgevision_gateway.Common.{
  ℕ, ◌+◌, ◌≤◌, ◌<◌, ◌≡◌, ◌≢◌, refl, arith, List, ◌++◌, length, length-append, length-drop, true,
  false, Bool, ◌⊎◌, inl, inr, drop, add_size,
}
use edgevision_gateway.Protocol.Frame.{
  FrameResult, invalid, need_more, ready, FrameParser, frame_find_magic, frame_check_size,
  frame_check_crc, next_candidate, next_ready, frame_parser_next, frame_parser_feed, after_magic,
  after_size, after_crc, frame_buffer_capacity,
}

-- The size check passes a candidate on only with its header there, and never with size 0.
check_size_header :
    (buffer : List ℕ)
    → (frame_check_size buffer).0 ≢ need_more
    → (3 ≤ length buffer) × ((frame_check_size buffer).0 ≡ ready → 0 < (frame_check_size buffer).1)
unfolding frame_check_size
check_size_header buffer h = ground arith

after_crc-shrinks :
    (parser : FrameParser) (n : ℕ) (r : FrameResult)
    → 0 < n
    → 0 < length parser.buffer
    → length (after_crc parser n r).1.buffer < length parser.buffer
unfolding after_crc next_ready
after_crc-shrinks parser n invalid hn hl = omega (arith, length-drop 1 parser.buffer)
after_crc-shrinks parser n need_more hn hl = omega (arith, length-drop n parser.buffer)
after_crc-shrinks parser n ready hn hl = omega (arith, length-drop n parser.buffer)

after_size-shrinks :
    (parser : FrameParser) (t : FrameResult × ℕ)
    → 0 < length parser.buffer
    → (t.0 ≡ ready → 0 < t.1)
    → (after_size parser t).0 ≢ need_more
    → length (after_size parser t).1.buffer < length parser.buffer
unfolding after_size
after_size-shrinks parser (invalid, n) hl hn h = omega (arith, length-drop 1 parser.buffer)
after_size-shrinks parser (need_more, n) hl hn h = absurd (h refl)
after_size-shrinks parser (ready, n) hl hn h =
    after_crc-shrinks parser n (frame_check_crc parser.buffer n) (hn refl) hl

after_size-ne-need_more :
    (parser : FrameParser) (t : FrameResult × ℕ)
    → (after_size parser t).0 ≢ need_more
    → t.0 ≢ need_more
unfolding after_size
after_size-ne-need_more parser (invalid, n) h = λ e. cc
after_size-ne-need_more parser (need_more, n) h = h
after_size-ne-need_more parser (ready, n) h = λ e. cc

next_candidate-shrinks :
    (parser : FrameParser)
    → (next_candidate parser).0 ≢ need_more
    → length (next_candidate parser).1.buffer < length parser.buffer
unfolding next_candidate
next_candidate-shrinks parser h =
    let header = check_size_header parser.buffer (after_size-ne-need_more parser _ h) in
    after_size-shrinks parser (frame_check_size parser.buffer) (omega arith) header.1 h

after_magic-shrinks :
    (parser : FrameParser) (t : Bool × ℕ)
    → (after_magic parser t).0 ≢ need_more
    → length (after_magic parser t).1.buffer < length parser.buffer
unfolding after_magic
after_magic-shrinks parser (false, d) h = absurd (h refl)
after_magic-shrinks parser (true, d) h =
    omega (arith, next_candidate-shrinks _ h, length-drop d parser.buffer)

-- A call that does not ask for more bytes takes at least one byte out of the buffer, so a client
-- that calls until it is asked for more comes to an end.
pub next-shrinks :
    (parser : FrameParser)
    → (frame_parser_next parser).0 ≢ need_more
    → length (frame_parser_next parser).1.buffer < length parser.buffer
unfolding frame_parser_next
next-shrinks parser h = after_magic-shrinks parser (frame_find_magic parser.buffer) h

after_crc-le :
    (parser : FrameParser) (n : ℕ) (r : FrameResult)
    → length (after_crc parser n r).1.buffer ≤ length parser.buffer
unfolding after_crc next_ready
after_crc-le parser n invalid = omega (arith, length-drop 1 parser.buffer)
after_crc-le parser n need_more = omega (arith, length-drop n parser.buffer)
after_crc-le parser n ready = omega (arith, length-drop n parser.buffer)

after_size-le :
    (parser : FrameParser) (t : FrameResult × ℕ)
    → length (after_size parser t).1.buffer ≤ length parser.buffer
unfolding after_size
after_size-le parser (invalid, n) = omega (arith, length-drop 1 parser.buffer)
after_size-le parser (need_more, n) = omega arith
after_size-le parser (ready, n) = after_crc-le parser n (frame_check_crc parser.buffer n)

after_magic-le :
    (parser : FrameParser) (t : Bool × ℕ)
    → length (after_magic parser t).1.buffer ≤ length parser.buffer
unfolding after_magic next_candidate
after_magic-le parser (false, d) = omega (arith, length-drop d parser.buffer)
after_magic-le parser (true, d) =
    let cleaned : FrameParser = record {
      buffer = drop d parser.buffer;
      stats = record (parser.stats) { noise_bytes = add_size parser.stats.noise_bytes d };
    } in
    omega
      (arith, after_size-le cleaned (frame_check_size cleaned.buffer), length-drop d parser.buffer)

pub next-le :
    (parser : FrameParser) → length (frame_parser_next parser).1.buffer ≤ length parser.buffer
unfolding frame_parser_next
next-le parser = after_magic-le parser (frame_find_magic parser.buffer)

pub feed_room :
    (parser : FrameParser) (bytes : List ℕ)
    → length parser.buffer + length bytes ≤ frame_buffer_capacity
    → frame_parser_feed parser bytes ≡ (ready, record parser { buffer = parser.buffer ++ bytes })
unfolding frame_parser_feed
feed_room parser bytes h = ground arith

-- From a buffer within its array, a `feed` takes the bytes when they fit beside those that are
-- there; otherwise it leaves the buffer alone and counts an overflow. Either way the buffer stays
-- within its array.
pub feed_lem :
    (parser : FrameParser) (bytes : List ℕ)
    → length parser.buffer ≤ frame_buffer_capacity
    → let overflowed = record parser {
      stats = record (parser.stats) { buffer_overflows = add_size parser.stats.buffer_overflows 1 };
    } in
      (((length parser.buffer + length bytes ≤ frame_buffer_capacity)
          × (frame_parser_feed parser bytes
              ≡ (ready, record parser { buffer = parser.buffer ++ bytes })))
        ⊎ ((frame_buffer_capacity < length parser.buffer + length bytes)
            × (frame_parser_feed parser bytes ≡ (invalid, overflowed))))
      × (length (frame_parser_feed parser bytes).1.buffer ≤ frame_buffer_capacity)
unfolding frame_parser_feed
feed_lem parser bytes h =
    elim (dec_le (length parser.buffer + length bytes) frame_buffer_capacity) [
      | yes fits ↦ (inl (fits, ground arith), ground (arith, length-append parser.buffer bytes))
      | no over ↦
          (inr (omega arith, ground arith), ground (arith, length-append parser.buffer bytes))
    ]

pub feed_le :
    (parser : FrameParser) (bytes : List ℕ)
    → length (frame_parser_feed parser bytes).1.buffer ≤ length parser.buffer + length bytes
unfolding frame_parser_feed
feed_le parser bytes = ground (arith, length-append parser.buffer bytes)
