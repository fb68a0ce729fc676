-- ===== src/Server/Sending.antt =====
-- One message for one socket.
use axn_chat_app.Prelude.{ℕ, ◌≤◌, ◌≡◌, refl, ap, ◌∙◌, [], ◌∷◌, length, ◌==◌}
use axn_chat_app.Protocol.Words.{Endian}
use axn_chat_app.Protocol.{Message}
use axn_chat_app.Protocol.Wire.{packet, serialize-packet}
use axn_chat_app.Server.State.{ok, ClientSession, ClientManager, send, serialized}
use axn_chat_app.Server.Handlers.{send_message}
use axn_chat_app.Server.Tables.{IsValid}
use axn_chat_app.Server.Broadcast.{session_at, once_if, told}
use axn_chat_app.Server.Outcome.{
  Outcome, Connected, same_sends, only_calls, sent_to_one, send-IsQuiet,
}

pub send_message-told :
    (host : Endian) (m : ClientManager) (fd : ℕ) (message : Message)
    → message.header.payload_size ≤ length message.payload
    → send_message host m fd message ≡ ok (told m (send fd (packet message) ∷ []))
unfolding send_message serialized
send_message-told host m fd message fits = rw (serialize-packet host message fits) refl

-- It reaches the session's descriptor and no other.
pub send-Outcome :
    (host : Endian) {m : ClientManager} {fd p : ℕ} {s : ClientSession}
    → IsValid m
    → Connected m fd p s
    → (message : Message) → message.header.payload_size ≤ length message.payload
    → Outcome m
        (send_message host m s.socket message)
        (session_at m)
        m.usernames
        (λ k. once_if (fd == k) (packet message))
send-Outcome host {m} {fd} {p} {s} v c message fits =
    rw (send_message-told host m s.socket message fits) (
      same_sends
        (λ k.
          sent_to_one k s.socket (packet message)
          ∙ ap (λ f. once_if (f == k) (packet message)) c.socket)
        (only_calls m (send s.socket (packet message) ∷ []) (send-IsQuiet s.socket (packet message))
          v))
