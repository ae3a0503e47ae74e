-- ===== src/Gateway/Connection/Stream.antt =====
-- gateway_connection_recv_frame of core/gateway.c over a whole TCP stream: however the network cuts
-- the frames into pieces, the payloads come out in order.
use edgevision_gateway.Common.{
  ℕ, zero, suc, ◌+◌, ◌≤◌, ◌<◌, ◌≡◌, refl, sym, ◌∙◌, ap, arith, none, some, Option, List, [], ◌∷◌,
  ◌++◌, length, length-append, append_split, append_assoc, All,
}
use mathlib.Core.Option
use edgevision_gateway.Protocol.Crc.{IsByte}
use native.Mathlib.Decide.{dec_lt}
use edgevision_gateway.Protocol.Frame.{
  need_more, ready, FrameResult, FrameParser, frame_parser_next, frame_parser_init,
}
use edgevision_gateway.Protocol.Frame.Wire.{frame_bytes, frame_encode_ready, length-frame_bytes}
use edgevision_gateway.Protocol.Frame.Step.{next_part, next_noise_frame, cleaned}
use edgevision_gateway.Protocol.Frame.Progress.{feed_room}
use edgevision_gateway.Gateway.Connection.{
  frame, recv_step, recv_fed, send_frame, gateway_connection_recv_frame,
}

-- The bytes of several calls, and the frames of several payloads, in one piece.
abbrev pub joined : List (List ℕ) → List ℕ
joined [] = []
joined (xs ∷ rest) = xs ++ joined rest

abbrev pub wire : List (List ℕ) → List ℕ
wire [] = []
wire (payload ∷ rest) = frame_bytes payload ++ wire rest

pub send_frame_fits :
    (payload : List ℕ)
    → length payload ≤ 240
    → All IsByte payload
    → send_frame payload ≡ some (frame_bytes payload)
unfolding send_frame
send_frame_fits payload h bytes =
    ap (λ (t : FrameResult × Option (List ℕ)). elim (t.0) [ ready ↦ t.1 | _ ↦ none ])
      (frame_encode_ready payload (2 + 1 + 240 + 2) h (omega arith) bytes)

-- What a call of net_recv with the seven bytes of `recv_buffer` brings while the stream lasts.
abbrev pub IsPiece : List ℕ → Type 0
IsPiece piece = (0 < length piece) × (length piece ≤ 7)

abbrev pub Fits : List ℕ → Type 0
Fits payload = length payload ≤ 240

-- The first frame is still in pieces.
next_piece :
    (parser : FrameParser) (pieces payloads : List (List ℕ)) (payload : List ℕ)
    → Fits payload
    → parser.buffer ++ joined pieces ≡ frame_bytes payload ++ wire payloads
    → length parser.buffer < length (frame_bytes payload)
    → frame_parser_next parser ≡ (need_more, cleaned parser 0, none)
next_piece parser pieces payloads payload fits e short =
    let (middle, whole, later) =
      append_split parser.buffer (joined pieces) (frame_bytes payload) (wire payloads) e
        (omega arith) in
    next_part parser.stats parser.buffer middle payload
      (
        sym whole,
        λ empty.
            omega (arith, ap length whole, ap length empty, length-append parser.buffer middle),
      )
      fits

-- The first frame is there.
next_whole :
    (parser : FrameParser) (pieces payloads : List (List ℕ)) (payload : List ℕ)
    → Fits payload
    → parser.buffer ++ joined pieces ≡ frame_bytes payload ++ wire payloads
    → length (frame_bytes payload) ≤ length parser.buffer
    → (after : FrameParser) × (frame_parser_next parser ≡ (ready, after, some payload))
      × (after.buffer ++ joined pieces ≡ wire payloads)
      × (length after.buffer + 5 ≤ length parser.buffer)
next_whole parser pieces payloads payload fits e long =
    let (middle, whole, later) =
      append_split (frame_bytes payload) (wire payloads) parser.buffer (joined pieces) (sym e)
        long in
    (
      _,
      ap (λ (b : List ℕ). frame_parser_next (record { buffer = b; stats = parser.stats })) whole
          ∙ next_noise_frame parser.stats [] payload middle tt fits,
      sym later,
      omega (
        arith,
        ap length whole,
        length-append (frame_bytes payload) middle,
        length-frame_bytes payload,
      ),
    )

-- What a call of the loop leaves behind when the frames of `payloads` are still to come.
abbrev pub IsAhead : FrameParser → List (List ℕ) → List (List ℕ) → Type 0
IsAhead parser pieces payloads =
    (parser.buffer ++ joined pieces ≡ wire payloads)
    × (length parser.buffer ≤ 251)
    × All IsPiece pieces

-- The loop returns the first frame if it is there.
recv_whole :
    (fuel : ℕ) (parser : FrameParser) (pieces payloads : List (List ℕ)) (payload : List ℕ)
    → Fits payload
    → IsAhead parser pieces (payload ∷ payloads)
    → length (frame_bytes payload) ≤ length parser.buffer
    → (after : FrameParser) × (rest : List (List ℕ)) × (gateway_connection_recv_frame
          (suc fuel)
          parser
          pieces
        ≡ some (frame (some payload) after rest))
      × IsAhead after rest payloads
      × (length rest ≤ length pieces)
unfolding gateway_connection_recv_frame recv_step
recv_whole fuel parser pieces payloads payload fits ahead long =
    let (after, step, left, size) = next_whole parser pieces payloads payload fits ahead.0 long in
    (
      after,
      pieces,
      ap (recv_step (gateway_connection_recv_frame fuel) pieces) step,
      (left, omega arith, ahead.2),
      omega arith,
    )

-- Otherwise it reads a piece and goes on.
recv_feed :
    (fuel : ℕ) (parser parsed : FrameParser) (piece : List ℕ) (events : List (List ℕ))
    → frame_parser_next parser ≡ (need_more, parsed, none)
    → 0 < length piece
    → length parsed.buffer + length piece ≤ 2048
    → gateway_connection_recv_frame (suc fuel) parser (piece ∷ events)
      ≡ gateway_connection_recv_frame fuel
          (record parsed { buffer = parsed.buffer ++ piece })
          events
unfolding gateway_connection_recv_frame recv_step recv_fed
recv_feed fuel parser parsed [] events e some_bytes room = absurd (omega arith)
recv_feed fuel parser parsed (b ∷ piece) events e some_bytes room =
    ap (recv_step (gateway_connection_recv_frame fuel) ((b ∷ piece) ∷ events)) e
    ∙ (ground arith)
    ∙ ap (recv_fed (gateway_connection_recv_frame fuel) events) (feed_room parsed (b ∷ piece) room)

-- As long as a frame is to come the loop returns it, and what is left is ahead of the others.
recv_next :
    (fuel : ℕ) (parser : FrameParser) (pieces payloads : List (List ℕ)) (payload : List ℕ)
    → length pieces < fuel
    → Fits payload
    → IsAhead parser pieces (payload ∷ payloads)
    → (after : FrameParser) × (rest : List (List ℕ)) × (gateway_connection_recv_frame fuel parser
          pieces
        ≡ some (frame (some payload) after rest))
      × IsAhead after rest payloads
      × (length rest ≤ length pieces)
recv_next zero parser pieces payloads payload fuel_ok fits ahead = absurd (omega arith)
recv_next (suc fuel) parser [] payloads payload fuel_ok fits ahead =
    recv_whole fuel parser [] payloads payload fits ahead (
      omega (
        arith,
        ap length ahead.0,
        length-append parser.buffer [],
        length-append (frame_bytes payload) (wire payloads),
      ))
recv_next (suc fuel) parser (piece ∷ pieces) payloads payload fuel_ok fits ahead =
    elim (dec_lt (length parser.buffer) (length (frame_bytes payload))) [
      | yes short ↦
          let room : length parser.buffer + length piece ≤ 251 =
            omega (arith, length-frame_bytes payload) in
          let fed : FrameParser = record (cleaned parser 0) { buffer = parser.buffer ++ piece } in
          let (after, rest, run, left, size) =
            recv_next fuel fed pieces payloads payload (omega arith) fits (
              append_assoc parser.buffer piece (joined pieces) ∙ ahead.0,
              omega (arith, length-append parser.buffer piece),
              ahead.2.1,
            ) in
          (
            after,
            rest,
            recv_feed fuel parser (cleaned parser 0) piece pieces
                  (next_piece parser (piece ∷ pieces) payloads payload fits ahead.0 short)
                  ahead.2.0.0 (omega arith)
                ∙ run,
            left,
            omega arith,
          )
      | no long ↦ recv_whole fuel parser (piece ∷ pieces) payloads payload fits ahead (omega arith)
    ]

-- Call after call of the loop hands out the payloads, in this order, and nothing else between.
abbrev pub Delivers : ℕ → FrameParser → List (List ℕ) → List (List ℕ) → Type 0
Delivers fuel parser events [] = Unit
Delivers fuel parser events (payload ∷ payloads) =
    (after : FrameParser) × (rest : List (List ℕ)) × (gateway_connection_recv_frame fuel parser
        events
      ≡ some (frame (some payload) after rest))
    × Delivers fuel after rest payloads

Delivers-ahead :
    (fuel : ℕ) (parser : FrameParser) (pieces payloads : List (List ℕ))
    → length pieces < fuel
    → All Fits payloads
    → IsAhead parser pieces payloads
    → Delivers fuel parser pieces payloads
Delivers-ahead fuel parser pieces [] fuel_ok fits ahead = tt
Delivers-ahead fuel parser pieces (payload ∷ payloads) fuel_ok fits ahead =
    let (after, rest, run, left, size) =
      recv_next fuel parser pieces payloads payload fuel_ok fits.0 ahead in
    (after, rest, run, Delivers-ahead fuel after rest payloads (omega arith) fits.1 left)

-- The bytes that calls of send_frame put on the connection, one call for each payload.
abbrev pub sent : List (List ℕ) → List ℕ
sent [] = []
sent (payload ∷ payloads) = Option.get_or (send_frame payload) [] ++ sent payloads

sent-wire :
    (payloads : List (List ℕ))
    → All Fits payloads
    → All (All IsByte) payloads
    → sent payloads ≡ wire payloads
sent-wire [] fits bytes = refl
sent-wire (payload ∷ payloads) fits bytes =
    rw (send_frame_fits payload fits.0 bytes.0, sent-wire payloads fits.1 bytes.1) refl

-- Payloads of at most 240 bytes each, sent one after the other and received in any pieces of one to
-- seven bytes by a new connection, come out of the receiving loop one by one, in order and complete.
-- Fuel above the number of pieces is enough for every call.
pub stream-Delivers :
    (fuel : ℕ) (pieces payloads : List (List ℕ))
    → All Fits payloads
    → All (All IsByte) payloads
    → All IsPiece pieces
    → joined pieces ≡ sent payloads
    → length pieces < fuel
    → Delivers fuel frame_parser_init pieces payloads
stream-Delivers fuel pieces payloads fits bytes small e fuel_ok =
    Delivers-ahead fuel frame_parser_init pieces payloads fuel_ok fits
      (e ∙ sent-wire payloads fits bytes, omega arith, small)
