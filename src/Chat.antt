-- ===== src/Chat.antt =====
-- The programs together: a line that one client's user enters, through the server, to what another
-- client shows. client/src/chat_client.cpp, server/src/server.cpp, common/src/protocol.cpp.
pub mod Relay
pub mod Heard
pub mod Whisper
use axn_chat_app.Prelude.{ℕ, ◌<◌, ◌^◌, ◌≡◌, ◌≢◌, ◌∷◌, Bytes, length, All}
use axn_chat_app.Protocol.Words.{IsByte}
use axn_chat_app.Protocol.{
  Message, broadcast_id, new_message, c2s_broadcast, s2c_broadcast, c2s_private, s2c_private,
}
use axn_chat_app.Server.State.{ClientSession}
use axn_chat_app.Client.State.{ChatClient}

-- What a client asks of its connection for a line, and what the server makes of it.
abbrev pub spoken : ChatClient → Bytes → Message
spoken speaker line = new_message c2s_broadcast speaker.user_id broadcast_id line

abbrev pub relayed : ClientSession → Bytes → Message
relayed s line = new_message s2c_broadcast s.id broadcast_id line

-- And for a private text.
abbrev pub asked : ChatClient → ℕ → Bytes → Message
asked speaker id text = new_message c2s_private speaker.user_id id text

abbrev pub whispered : ClientSession → ℕ → Bytes → Message
whispered s id text = new_message s2c_private s.id id text

-- A line that is no private message, and that 32 bits can give the length of.
pub record IsPublic (line : Bytes) : Type 0 where
  pub first : ℕ
  pub others : Bytes
  pub split : line ≡ first ∷ others
  pub public : first ≢ b'@'
  pub bytes : All IsByte line
  pub fits : length line < 2 ^ 32
