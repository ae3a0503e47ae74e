-- ===== src/Gateway/Connection.antt =====
-- send_frame and gateway_connection_recv_frame of core/gateway.c. The latter: read from a TCP connection until one payload is
-- there. What net_recv returns is a list of events, one for each call: the bytes received, none of
-- them where it returns 0 or less; behind the end of the list every call fails. The connection
-- consists of the parser, since the file descriptor only names where the events come from.
pub mod Stream
pub mod Ends
mod Tests
use edgevision_gateway.Common.{
  ℕ, zero, suc, ◌+◌, Option, none, some, List, [], ◌∷◌, length, ◌==◌, if◌then◌else◌,
}
use edgevision_gateway.Protocol.Frame.{
  invalid, need_more, ready, FrameResult, FrameParser, Next, frame_parser_next, frame_parser_feed,
  frame_encode, frame_max_payload,
}

-- send_frame: the bytes that go to net_send_all, if any do.
pub send_frame : List ℕ → Option (List ℕ)
send_frame payload =
    let (result, output) = frame_encode payload (2 + 1 + frame_max_payload + 2) in
    elim result [ ready ↦ output | _ ↦ none ]

-- `frame` is the return value 0 with the payload that was written, `failed` is -1. Both carry the
-- parser and the events that are left.
pub data Received : Type 0 where
  frame : Option (List ℕ) → FrameParser → List (List ℕ) → Received
  failed : FrameParser → List (List ℕ) → Received

-- The rest of a round once the bytes were fed. `again` is the next round.
pub recv_fed :
    (FrameParser → List (List ℕ) → Option Received)
    → List (List ℕ)
    → FrameResult × FrameParser
    → Option Received
recv_fed again later (ready, fed) = again fed later
recv_fed again later (_, fed) = some (failed fed later)

-- One round of the loop behind its call of frame_parser_next.
pub recv_step :
    (FrameParser → List (List ℕ) → Option Received) → List (List ℕ) → Next → Option Received
recv_step again events (ready, parsed, payload) = some (frame payload parsed events)
recv_step again events (invalid, parsed, payload) = again parsed events
recv_step again [] (need_more, parsed, payload) = some (failed parsed [])
recv_step again (received ∷ later) (need_more, parsed, payload) =
    if length received == 0
    then some (failed parsed later)
    else recv_fed again later (frame_parser_feed parsed received)

-- The loop. `none` means that the fuel ran out.
pub gateway_connection_recv_frame : ℕ → FrameParser → List (List ℕ) → Option Received
gateway_connection_recv_frame zero parser events = none
gateway_connection_recv_frame (suc fuel) parser events =
    recv_step (gateway_connection_recv_frame fuel) events (frame_parser_next parser)
