-- ===== src/Chat/Relay.antt =====
-- A line at the server: server/src/server.cpp.
use axn_chat_app.Prelude.{
  ℕ, ◌<◌, ◌^◌, ◌≡◌, refl, ap, sym, ◌∙◌, ◌&&◌, true, some, [], ◌∷◌, ◌++◌, Bytes, append-nil, inl,
  arith,
}
use axn_chat_app.Protocol.Words.{Endian}
use axn_chat_app.Protocol.{Message, broadcast_id, new_message, serialize_message, c2s_broadcast}
use axn_chat_app.Protocol.Wire.{
  nothing_read, wire, packet, serialize-wire, IsMessage, new_message-IsMessage,
}
use axn_chat_app.Protocol.Frames.{Framed}
use axn_chat_app.Server.State.{Result, ok, ◌>>=◌, ClientSession, ClientManager, deref}
use axn_chat_app.Server.Handlers.{process_message}
use axn_chat_app.Server.Reading.{set_read_buffer}
use axn_chat_app.Server.Tables.{IsValid}
use axn_chat_app.Server.Broadcast.{session_at, sent_to, hears, once_if}
use axn_chat_app.Server.Outcome.{Outcome, Connected}
use axn_chat_app.Server.Relaying.{broadcast-Outcome}
use axn_chat_app.Server.Draining.{buffered, set_read_buffer-Connected}
use axn_chat_app.Server.Dispatch.{IsHarmless}
use axn_chat_app.Server.Messages.{process_messages}
use axn_chat_app.Server.Invariant.{Inv, set_read_buffer-Inv}
use axn_chat_app.Server.Room.{is_other}
use axn_chat_app.Server.Room.Abstraction.{room, hears-is_other}
use axn_chat_app.Server.Room.Conversed.{room_unread}
use axn_chat_app.Client.State.{ChatClient}
use axn_chat_app.Chat.{spoken, relayed, IsPublic}

-- The bytes of one message are read as it, with nothing left.
pub message-Framed :
    (host server : Endian) (x : Message) (bytes : Bytes)
    → IsMessage x
    → serialize_message host x ≡ some bytes
    → Framed server bytes (x ∷ []) []
message-Framed host server x bytes v e =
    let same : wire x ≡ bytes = cc (serialize-wire host x v.size, e) in
    record {
      split = rw (← same) (sym (append-nil (wire x ++ []) ∙ append-nil (wire x)));
      valid = (v, tt);
      incomplete = nothing_read server;
    }

pub spoken-IsMessage :
    (speaker : ChatClient) (line : Bytes)
    → IsPublic line
    → speaker.user_id < 2 ^ 32
    → IsMessage (spoken speaker line)
spoken-IsMessage speaker line l id =
    new_message-IsMessage c2s_broadcast speaker.user_id broadcast_id line tt id (omega arith) l.fits

pub spoken-IsHarmless :
    (s : ClientSession) (speaker : ChatClient) (line : Bytes)
    → IsHarmless s (spoken speaker line).header.type
unfolding new_message
spoken-IsHarmless s speaker line = (λ e. cc, inl (λ e. cc))

abbrev pub then_ok : Result ClientManager → Result ClientManager
then_ok r = do processed ← r; ok processed

pub process_one :
    (server : Endian) {m : ClientManager} {fd p : ℕ} {s : ClientSession} (x : Message)
    → Connected m fd p s
    → process_messages server m p (x ∷ []) []
      ≡ (then_ok (process_message server (set_read_buffer m p s []) p x))
unfolding process_messages deref
process_one server x c = rw c.object refl

spoken-Outcome :
    (server : Endian) {m : ClientManager} {fd p : ℕ} {s : ClientSession} (speaker : ChatClient)
    (line : Bytes)
    → IsValid m
    → Connected m fd p s
    → Outcome m
        (process_message server m p (spoken speaker line))
        (session_at m)
        m.usernames
        (λ k. once_if (s.is_authenticated && hears s.id (session_at m k)) (packet (relayed s line)))
unfolding process_message new_message
spoken-Outcome server speaker line v c = broadcast-Outcome server v c (spoken speaker line)

module _ (server : Endian) {m : ClientManager} {fd p : ℕ} {s : ClientSession} (i : Inv m)
    (c : Connected m fd p s) where
  -- Who hears a client does not depend on what is in its buffer.
  hears_unread :
      (buffer : Bytes) (k : ℕ)
      → hears s.id (session_at (set_read_buffer m p s buffer) k) ≡ hears s.id (session_at m k)
  unfolding room
  hears_unread buffer k =
      hears-is_other s.id (session_at (set_read_buffer m p s buffer) k)
      ∙ ap (λ r. is_other s.id (r.member k)) (room_unread server i c buffer)
      ∙ sym (hears-is_other s.id (session_at m k))

module _ (server : Endian) {m : ClientManager} {fd p : ℕ} {s : ClientSession} (i : Inv m)
    (c : Connected m fd p s) where
  -- The packet is relayed once to every other client that has joined, and to nobody else.
  pub line_relayed :
      (speaker : ChatClient) (full line : Bytes)
      → s.is_authenticated ≡ true
      → (final : ClientManager) × (process_messages server
            (set_read_buffer m p s full)
            p
            (spoken speaker line ∷ [])
            []
          ≡ ok final)
        × ((k : ℕ)
            → sent_to k final.calls
              ≡ sent_to k m.calls
                ++ once_if (hears s.id (session_at m k)) (packet (relayed s line)))
  line_relayed speaker full line auth =
      let c1 = set_read_buffer-Connected server i.valid c full in
      let i1 = set_read_buffer-Inv server i c full in
      let c2 = set_read_buffer-Connected server i1.valid c1 [] in
      let i2 = set_read_buffer-Inv server i1 c1 [] in
      let o = spoken-Outcome server speaker line i2.valid c2 in
      (
        o.final,
        process_one server (spoken speaker line) c1 ∙ ap then_ok o.returns,
        λ k.
            o.sends k
            ∙ ap (λ b. sent_to k m.calls ++ once_if b (packet (relayed s line)))
                (ap
                    (λ a.
                      a
                      && hears s.id (
                          session_at
                            (set_read_buffer (set_read_buffer m p s full) p (buffered s full) [])
                            k))
                    auth
                  ∙ hears_unread server i1 c1 [] k
                  ∙ hears_unread server i c full k),
      )
