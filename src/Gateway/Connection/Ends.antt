-- ===== src/Gateway/Connection/Ends.antt =====
-- gateway_connection_recv_frame of core/gateway.c comes to an end on every input.
use edgevision_gateway.Common.{
  ℕ, zero, suc, ◌+◌, ◌≤◌, ◌<◌, ◌≡◌, ◌≢◌, refl, ◌∙◌, arith, some, Option, List, [], ◌∷◌, length,
  length-append,
}
use edgevision_gateway.Protocol.Frame.{
  invalid, need_more, ready, FrameResult, FrameParser, frame_parser_next, frame_parser_feed, Next,
}
use edgevision_gateway.Protocol.Frame.Progress.{feed_le, next-shrinks, next-le}
use edgevision_gateway.Gateway.Connection.{
  Received, frame, failed, recv_step, recv_fed, gateway_connection_recv_frame,
}
use edgevision_gateway.Gateway.Connection.Stream.{joined}

-- Bytes in the buffer and to come, and a call for each event.
abbrev pub work : FrameParser → List (List ℕ) → ℕ
work parser events = length parser.buffer + length (joined events) + length events

abbrev Ends : Option Received → Type 0
Ends o = (r : Received) × (o ≡ some r)

recv_fed-Ends :
    (again : FrameParser → List (List ℕ) → Option Received) (later : List (List ℕ))
    (t : FrameResult × FrameParser)
    → Ends (again t.1 later)
    → Ends (recv_fed again later t)
unfolding recv_fed
recv_fed-Ends again later (ready, fed) h = h
recv_fed-Ends again later (invalid, fed) h = (failed fed later, refl)
recv_fed-Ends again later (need_more, fed) h = (failed fed later, refl)

recv_step-Ends :
    (fuel : ℕ) (again : FrameParser → List (List ℕ) → Option Received) (events : List (List ℕ))
    (parser : FrameParser) (t : Next)
    → ((p : FrameParser) (es : List (List ℕ)) → work p es < fuel → Ends (again p es))
    → work parser events < suc fuel
    → length t.1.buffer ≤ length parser.buffer
    → (t.0 ≢ need_more → length t.1.buffer < length parser.buffer)
    → Ends (recv_step again events t)
unfolding recv_step
recv_step-Ends fuel again events parser (ready, parsed, out) ih h le shrinks =
    (frame out parsed events, refl)
recv_step-Ends fuel again events parser (invalid, parsed, out) ih h le shrinks =
    let less : length parsed.buffer < length parser.buffer = shrinks (λ e. cc) in
    ih parsed events (omega arith)
recv_step-Ends fuel again [] parser (need_more, parsed, out) ih h le shrinks =
    (failed parsed [], refl)
recv_step-Ends fuel again ([] ∷ later) parser (need_more, parsed, out) ih h le shrinks =
    (failed parsed later, refl)
recv_step-Ends fuel again ((b ∷ piece) ∷ later) parser (need_more, parsed, out) ih h le shrinks =
    let (r, run) = recv_fed-Ends again later (frame_parser_feed parsed (b ∷ piece)) (
      ih (frame_parser_feed parsed (b ∷ piece)).1 later
        (omega (arith, feed_le parsed (b ∷ piece), length-append (b ∷ piece) (joined later)))) in
    (r, (ground arith) ∙ run)

-- With fuel above the bytes that there are and the number of events, the loop returns: a frame or
-- the failure. The parser and the events are arbitrary.
pub gateway_connection_recv_frame_total :
    (fuel : ℕ) (parser : FrameParser) (events : List (List ℕ))
    → work parser events < fuel
    → (r : Received) × (gateway_connection_recv_frame fuel parser events ≡ some r)
unfolding gateway_connection_recv_frame
gateway_connection_recv_frame_total zero parser events h = absurd (omega arith)
gateway_connection_recv_frame_total (suc fuel) parser events h =
    recv_step-Ends fuel (gateway_connection_recv_frame fuel) events parser
      (frame_parser_next parser) (gateway_connection_recv_frame_total fuel) h (next-le parser)
      (next-shrinks parser)
