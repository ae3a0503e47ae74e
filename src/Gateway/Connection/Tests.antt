-- ===== src/Gateway/Connection/Tests.antt =====
-- The receiving loop of core/gateway.c on concrete pieces, and the theorems about it at inputs that
-- meet their hypotheses.
use edgevision_gateway.Common.{ℕ, ◌≡◌, refl, arith, some, List, [], ◌∷◌}
use edgevision_gateway.Protocol.Crc.{frame_crc16_modbus}
use edgevision_gateway.Protocol.Frame.{frame_parser_init, frame_encode}
use edgevision_gateway.Gateway.Connection.{Received, send_frame, gateway_connection_recv_frame}
use edgevision_gateway.Gateway.Connection.Stream.{stream-Delivers, Delivers, joined, sent}
use edgevision_gateway.Gateway.Connection.Ends.{gateway_connection_recv_frame_total}

abbrev first : List ℕ
first = 0x68 ∷ 0x69 ∷ []

abbrev second : List ℕ
second = 0xA5 ∷ []

-- The two frames cut into four pieces, none at the border between them.
abbrev pieces : List (List ℕ)
pieces =
    (0xA5 ∷ [])
    ∷ (0x5A ∷ 0x02 ∷ 0x68 ∷ 0x69 ∷ 0x3F ∷ [])
    ∷ (0xEE ∷ 0xA5 ∷ 0x5A ∷ [])
    ∷ (0x01 ∷ 0xA5 ∷ 0xC0 ∷ 0x5B ∷ [])
    ∷ []

pieces-sent : joined pieces ≡ sent (first ∷ second ∷ [])
unfolding send_frame frame_encode frame_crc16_modbus
pieces-sent = refl

stream-Delivers_example : Delivers 5 frame_parser_init pieces (first ∷ second ∷ [])
stream-Delivers_example =
    stream-Delivers 5 pieces (first ∷ second ∷ []) (omega arith) (omega arith) (omega arith)
      pieces-sent (omega arith)

gateway_connection_recv_frame_total_example :
    (r : Received) × (gateway_connection_recv_frame 21 frame_parser_init pieces ≡ some r)
gateway_connection_recv_frame_total_example =
    gateway_connection_recv_frame_total 21 frame_parser_init pieces (omega arith)
