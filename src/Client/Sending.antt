-- ===== src/Client/Sending.antt =====
-- `ServerConnection::connect`, `disconnect` and `send_message`: client/src/server_connection.cpp.
use axn_chat_app.Prelude.{
  ℕ, ◌≤◌, ◌≡◌, ◌≢◌, refl, ap, ◌∙◌, Bool, true, false, Option, none, some, List, [], ◌∷◌, ◌++◌,
  append_assoc, map, Bytes, length, All, if◌then◌else◌,
}
use axn_chat_app.Protocol.Words.{Endian}
use axn_chat_app.Protocol.{Message, serialize_message}
use axn_chat_app.Protocol.Wire.{packet, serialize-packet}
use axn_chat_app.Socket.{SocketStatus, ok, would_block, closed, error}
use axn_chat_app.Socket.Posix.{close_socket}

-- `socket_` as its descriptor; null and a closed socket are one, since neither is used.
-- `receiver_thread` is whether the thread can be joined, and `sent` records what is handed to `send`.
pub record ServerConnection : Type 0 where
  pub socket : Option ℕ
  pub connected : Bool
  pub receiver_thread : Bool
  pub sent : List Bytes

-- `ServerConnection::ServerConnection`
abbrev pub new_server_connection : ServerConnection
new_server_connection = record {
  socket = none;
  connected = false;
  receiver_thread = false;
  sent = [];
}

abbrev pub is_connected : ServerConnection → Bool
is_connected c = c.connected

-- The thread runs `receiver_loop`, which is in Client/Connection.
abbrev pub start_receiving : ServerConnection → ServerConnection
start_receiving c = record c { receiver_thread = true }

-- The argument is what `create_connector` returns.
unfoldable pub connect : ServerConnection → Option ℕ → ServerConnection × Bool
connect c none = (record c { socket = none }, false)
connect c (some fd) = (record c { socket = some fd; connected = true }, true)

unfoldable pub disconnect : ServerConnection → ServerConnection
disconnect c = record c {
  connected = false;
  socket = (close_socket c.socket).0;
  receiver_thread = false;
}

-- `ServerConnection::~ServerConnection`
abbrev pub destroy_server_connection : ServerConnection → ServerConnection
destroy_server_connection c = disconnect c

-- After a send with this result.
abbrev pub after_send : ServerConnection → SocketStatus → ServerConnection
after_send c ok = c
after_send c _ = disconnect c

abbrev pub send_bytes : ServerConnection → SocketStatus → Option Bytes → Option ServerConnection
send_bytes c status none = none
send_bytes c status (some bytes) =
    some (after_send (record c { sent = c.sent ++ bytes ∷ [] }) status)

-- The status is that of `send_data`; `none` is a read out of bounds.
unfoldable pub send_message :
    Endian → ServerConnection → Message → SocketStatus → Option ServerConnection
send_message host c message status =
    if is_connected c then send_bytes c status (serialize_message host message) else some c

abbrev pub then_send :
    Option ServerConnection → (ServerConnection → Option ServerConnection) → Option ServerConnection
then_send none next = none
then_send (some c) next = next c

-- Several messages, each with its send's status.
unfoldable pub send_messages :
    Endian → ServerConnection → List (Message × SocketStatus) → Option ServerConnection
send_messages host c [] = some c
send_messages host c (m ∷ rest) =
    then_send (send_message host c m.0 m.1) (λ d. send_messages host d rest)

abbrev pub IsSent : Message × SocketStatus → Type 0
IsSent m = (m.0.header.payload_size ≤ length m.0.payload) × (m.1 ≡ ok)

nothing_sent :
    (host : Endian) (c : ServerConnection) (ms : List (Message × SocketStatus))
    → c.connected ≡ false
    → send_messages host c ms ≡ some c
unfolding send_messages send_message
nothing_sent host c [] off = refl
nothing_sent host c (m ∷ ms) off = simp off (nothing_sent host c ms off)

message_sent :
    (host : Endian) (c : ServerConnection) (m : Message) (status : SocketStatus)
    → c.connected ≡ true
    → m.header.payload_size ≤ length m.payload
    → send_message host c m status
      ≡ some (after_send (record c { sent = c.sent ++ packet m ∷ [] }) status)
unfolding send_message
message_sent host c m status on fits = simp (on, serialize-packet host m fits) refl

failed-disconnect :
    (c : ServerConnection) (status : SocketStatus)
    → status ≢ ok
    → after_send c status ≡ disconnect c
failed-disconnect c ok h = absurd (h refl)
failed-disconnect c would_block h = refl
failed-disconnect c closed h = refl
failed-disconnect c error h = refl

close_socket-none : (socket : Option ℕ) → (close_socket socket).0 ≡ none
close_socket-none none = refl
close_socket-none (some fd) = refl

-- Disconnecting leaves no socket, and no thread to join.
disconnect-none :
    (c : ServerConnection)
    → disconnect c ≡ record c { connected = false; socket = none; receiver_thread = false }
unfolding disconnect
disconnect-none c =
    ap (λ t. record c { connected = false; socket = t; receiver_thread = false })
      (close_socket-none c.socket)

sends_until_failure :
    (host : Endian) (c : ServerConnection) (ms more : List (Message × SocketStatus))
    (last : Message) (status : SocketStatus)
    → c.connected ≡ true
    → All IsSent ms
    → last.header.payload_size ≤ length last.payload
    → status ≢ ok
    → send_messages host c (ms ++ (last, status) ∷ more)
      ≡ some (
          disconnect (record c { sent = c.sent ++ (map (λ m. packet m.0) ms ++ packet last ∷ []) }))
unfolding send_messages disconnect
sends_until_failure host c [] more last status on all fits h =
    ap (λ x. then_send x (λ d. send_messages host d more))
      (message_sent host c last status on fits
        ∙ ap some (failed-disconnect (record c { sent = c.sent ++ packet last ∷ [] }) status h))
    ∙ nothing_sent host (disconnect (record c { sent = c.sent ++ packet last ∷ [] })) more refl
sends_until_failure host c ((m, s) ∷ ms) more last status on all fits h =
    let next = record c { sent = c.sent ++ packet m ∷ [] } in
    ap (λ x. then_send x (λ d. send_messages host d (ms ++ (last, status) ∷ more)))
      (message_sent host c m s on all.0.0 ∙ ap (λ t. some (after_send next t)) all.0.1)
    ∙ sends_until_failure host next ms more last status on all.1 fits h
    ∙ ap (λ t. some (disconnect (record c { sent = t })))
        (append_assoc c.sent (packet m ∷ []) (map (λ x. packet x.0) ms ++ packet last ∷ []))

-- On an active connection, messages whose headers claim no more than their payloads hold are sent
-- in order up to and with the first whose send fails; then the connection is given up, with no
-- socket and no thread to join left, and no later message is sent.
pub send_messages_until_failure :
    (host : Endian) (c : ServerConnection) (ms more : List (Message × SocketStatus))
    (last : Message) (status : SocketStatus)
    → c.connected ≡ true
    → All IsSent ms
    → last.header.payload_size ≤ length last.payload
    → status ≢ ok
    → send_messages host c (ms ++ (last, status) ∷ more)
      ≡ some (record c {
        connected = false;
        socket = none;
        receiver_thread = false;
        sent = c.sent ++ (map (λ m. packet m.0) ms ++ packet last ∷ []);
      })
send_messages_until_failure host c ms more last status on all fits h =
    sends_until_failure host c ms more last status on all fits h
    ∙ ap some (
        disconnect-none
          (record c { sent = c.sent ++ (map (λ m. packet m.0) ms ++ packet last ∷ []) }))
