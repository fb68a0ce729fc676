-- ===== src/Client/Delivery.antt =====
-- What the server sends and what the client handles: common/src/protocol.cpp between
-- server/src/server.cpp and client/src/server_connection.cpp.
use axn_chat_app.Prelude.{
  ℕ, ◌≤◌, ◌≡◌, refl, ap, sym, ◌∙◌, List, [], ◌∷◌, ◌++◌, append-nil, map, Bytes, length, All, arith,
}
use axn_chat_app.Protocol.Words.{Endian, IsByte, network_bytes, both-IsByte}
use axn_chat_app.Protocol.{Message}
use axn_chat_app.Protocol.Types.{to_byte-lt}
use axn_chat_app.Protocol.Wire.{nothing_read, wire, packet, packet-wire, IsMessage}
use axn_chat_app.Protocol.Frames.{wires}
use axn_chat_app.ReadBuffer.{initial_buffer_size}
use axn_chat_app.Client.State.{ChatClient}
use axn_chat_app.Client.Connection.{Round, received, receiver_loop}
use axn_chat_app.Client.State.{◌>>=◌}
use axn_chat_app.Client.Stream.{shows_end, concat, Ends, receiver_loop_stream}
use axn_chat_app.Client.Handlers.{deliver}

-- A message as a server may send it.
abbrev pub IsSendable : Message → Type 0
IsSendable m = IsMessage m × All IsByte m.payload

word-All : (n : ℕ) (rest : Bytes) → All IsByte rest → All IsByte (network_bytes n ++ rest)
word-All n rest h = (omega arith, (omega arith, (omega arith, (omega arith, h))))

wire-All : (m : Message) → IsSendable m → All IsByte (wire m)
unfolding wire
wire-All m h = (
  to_byte-lt m.header.type h.0.type,
  word-All m.header.sender_id
      (network_bytes m.header.receiver_id ++ (network_bytes m.header.payload_size ++ m.payload))
      (word-All m.header.receiver_id (network_bytes m.header.payload_size ++ m.payload)
        (word-All m.header.payload_size m.payload h.1)),
)

wires-All : (ms : List Message) → All IsSendable ms → All IsByte (wires ms)
wires-All [] h = tt
wires-All (m ∷ ms) h = both-IsByte (wire m) (wires ms) (wire-All m h.0) (wires-All ms h.1)

packets-wires : (ms : List Message) → All IsSendable ms → concat (map packet ms) ≡ wires ms
unfolding concat
packets-wires [] h = refl
packets-wires (m ∷ ms) h =
    ap (λ t. t ++ concat (map packet ms)) (packet-wire m h.0.0.size)
    ∙ ap (λ t. wire m ++ t) (packets-wires ms h.1)

valid : (ms : List Message) → All IsSendable ms → All IsMessage ms
valid [] h = tt
valid (m ∷ ms) h = (h.0.0, valid ms h.1)

-- Of the packets of well-formed messages with payloads of bytes, however their stream is cut into
-- reads that give no more than was asked for, a new connection's loop handles exactly these
-- messages in order, and then the notice of the end.
pub packets_delivered :
    (host : Endian) (ms : List Message) (chunks : List Bytes) (last : Round) (more : List Round)
    (client : ChatClient)
    → All IsSendable ms
    → concat chunks ≡ concat (map packet ms)
    → All (λ chunk. length chunk ≤ initial_buffer_size) chunks
    → Ends last
    → receiver_loop host (map received chunks ++ last ∷ more) [] client
      ≡ (deliver ms client >>= shows_end)
packets_delivered host ms chunks last more client sendable cut within ends =
    let bytes = cut ∙ packets-wires ms sendable in
    receiver_loop_stream host chunks last more [] [] ms client ends within
      (rw bytes (wires-All ms sendable)) (nothing_read host)
      (record {
        split = bytes ∙ sym (append-nil (wires ms));
        valid = valid ms sendable;
        incomplete = nothing_read host;
      })
