-- ===== src/Server/Dispatch.antt =====
-- `Server::process_message`: what every message does to the client that sent it.
use axn_chat_app.Prelude.{ℕ, ◌≡◌, ◌≢◌, ◌⊎◌, refl, true, none, List, Bytes, inl, inr}
use axn_chat_app.Prelude.Names
use axn_chat_app.Protocol.Words.{Endian}
use axn_chat_app.Protocol.{
  Message, MessageType, c2s_join, c2s_broadcast, c2s_private, c2s_leave, c2s_user_joined_list,
}
use axn_chat_app.Server.State.{ClientSession, ClientManager, deref}
use axn_chat_app.Server.Handlers.{process_message, dispatch, process_join_message}
use axn_chat_app.Server.Tables.{IsValid}
use axn_chat_app.Server.Broadcast.{session_at, once_if}
use axn_chat_app.Server.Outcome.{Outcome, Connected, with_entry, nothing_happens}
use axn_chat_app.Server.Connections.{disconnection-Outcome, told_of_leaving, left_packet}
use axn_chat_app.Server.Joining.{join_again}
use axn_chat_app.Server.Relaying.{broadcast-Outcome, private-Outcome}
use axn_chat_app.Server.Roster.{user_list-Outcome}

-- A message that cannot end the connection of the session that sent it.
abbrev pub IsHarmless : ClientSession → MessageType → Type 0
IsHarmless s t = (t ≢ c2s_leave) × ((t ≢ c2s_join) ⊎ (s.is_authenticated ≡ true))

-- It changes no session and no name; whatever it sends, it does not fault.
abbrev pub Answered : Endian → ClientManager → ℕ → Message → Type 0
Answered host m p message =
    (sent : ℕ → List Bytes) × Outcome m (process_message host m p message) (session_at m)
      m.usernames sent

module _ (host : Endian) {m : ClientManager} {fd p : ℕ} {s : ClientSession} (v : IsValid m)
    (c : Connected m fd p s) where
  dispatch_harmless :
      (t : MessageType) (message : Message)
      → IsHarmless s t
      → (sent : ℕ → List Bytes) × Outcome m
          (dispatch host t m p message)
          (session_at m)
          m.usernames
          sent
  unfolding dispatch
  dispatch_harmless c2s_join message (stays, inl other) = absurd (other refl)
  dispatch_harmless c2s_join message (stays, inr auth) = (_, join_again host v c message auth)
  dispatch_harmless c2s_user_joined_list message h = (_, user_list-Outcome host v c)
  dispatch_harmless c2s_broadcast message h = (_, broadcast-Outcome host v c message)
  dispatch_harmless c2s_private message h = private-Outcome host v c message
  dispatch_harmless c2s_leave message h = absurd (h.0 refl)
  dispatch_harmless _ message h = (_, nothing_happens m v)

  pub process_message_harmless :
      (message : Message) → IsHarmless s message.header.type → Answered host m p message
  unfolding process_message
  process_message_harmless message h = dispatch_harmless message.header.type message h

  -- A LEAVE message disconnects the client that sends it and tells the others as a disconnection
  -- does.
  pub process_message_leave :
      (message : Message)
      → message.header.type ≡ c2s_leave
      → Outcome m
          (process_message host m p message)
          (with_entry (session_at m) fd none)
          (Names.erase s.username m.usernames)
          (λ k. once_if (told_of_leaving s (session_at m k)) (left_packet s))
  unfolding process_message deref
  process_message_leave message leave =
      rw (leave, dispatch, c.object, c.socket) (disconnection-Outcome host v c)

pub process_message_join :
    (host : Endian) (m : ClientManager) (p : ℕ) (message : Message)
    → message.header.type ≡ c2s_join
    → process_message host m p message ≡ process_join_message host m p message
unfolding process_message
process_message_join host m p message join = rw (join, dispatch) refl
