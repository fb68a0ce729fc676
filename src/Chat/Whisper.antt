-- ===== src/Chat/Whisper.antt =====
-- A private line from the keyboard of one client to the screen of the one that it names.
use axn_chat_app.Prelude.{
  ℕ, ◌<◌, ◌≤◌, ◌^◌, ◌≡◌, refl, sym, ◌∙◌, ◌==◌, true, some, List, [], ◌∷◌, ◌++◌, map, Bytes, codes,
  append-nil, length, All, inl,
}
use axn_chat_app.Prelude.Map.{lookup}
use axn_chat_app.Protocol.Words.{Endian}
use axn_chat_app.Protocol.{new_message, serialize_message}
use axn_chat_app.Protocol.Wire.{packet, new_message-IsMessage}
use axn_chat_app.Protocol.Frames.{Framed}
use axn_chat_app.Socket.{Reads}
use axn_chat_app.ReadBuffer.{initial_buffer_size}
use axn_chat_app.Server.State.{ok, ClientSession, ClientManager}
use axn_chat_app.Server.Reading.{handle_client_message}
use axn_chat_app.Server.Broadcast.{session_at, sent_to, once_if}
use axn_chat_app.Server.Outcome.{Connected}
use axn_chat_app.Server.ReadLoop.{received_bytes, Blocks}
use axn_chat_app.Server.Receiving.{handle_client_message_harmless}
use axn_chat_app.Server.Invariant.{Inv}
use axn_chat_app.Client.State.{ChatClient, send, request, show}
use axn_chat_app.Client.Handlers.{process_chat_message, on_message_received}
use axn_chat_app.Client.Input.{handle_line}
use axn_chat_app.Client.Connection.{Round, received, receiver_loop}
use axn_chat_app.Client.State.{◌>>=◌}
use axn_chat_app.Client.Stream.{shows_end, concat, Ends}
use axn_chat_app.Client.Handlers.{deliver}
use axn_chat_app.Client.Delivery.{IsSendable, packets_delivered}
use axn_chat_app.Chat.{asked, whispered}
use axn_chat_app.Chat.Relay.{message-Framed, then_ok, process_one}
use axn_chat_app.Prelude.{ap, ◌<◌, ◌^◌, ◌≢◌}
use axn_chat_app.Prelude.Map.{Distinct}
use axn_chat_app.Protocol.Words.{IsByte}
use axn_chat_app.Protocol.Wire.{IsMessage}
use axn_chat_app.Protocol.{c2s_private, s2c_private}
use axn_chat_app.Server.Handlers.{process_message}
use axn_chat_app.Server.Tables.{IsValid}
use axn_chat_app.Server.Outcome.{Outcome, Connected-at}
use axn_chat_app.Server.Relaying.{private_delivered}
use axn_chat_app.Server.Dispatch.{IsHarmless}
use axn_chat_app.Server.Messages.{process_messages}
use axn_chat_app.Server.Draining.{set_read_buffer-Connected}
use axn_chat_app.Server.Reading.{set_read_buffer}
use axn_chat_app.Server.Invariant.{set_read_buffer-Inv}
use axn_chat_app.Server.Room.Abstraction.{room, seen, member_seen, seen-some}
use axn_chat_app.Server.Room.Conversed.{room_unread}
use axn_chat_app.Client.Commands.{private_line}

asked-IsHarmless :
    (s : ClientSession) (speaker : ChatClient) (id : ℕ) (text : Bytes)
    → IsHarmless s (asked speaker id text).header.type
unfolding new_message
asked-IsHarmless s speaker id text = (λ e. cc, inl (λ e. cc))

asked-Outcome :
    (server : Endian) {m : ClientManager} {fd p k q : ℕ} {s r : ClientSession}
    (speaker : ChatClient) (text : Bytes)
    → IsValid m
    → Connected m fd p s
    → Connected m k q r
    → s.is_authenticated ≡ true
    → Outcome m
        (process_message server m p (asked speaker r.id text))
        (session_at m)
        m.usernames
        (λ j. once_if (k == j) (packet (whispered s r.id text)))
unfolding process_message new_message
asked-Outcome server {r = r} speaker text v c d auth =
    private_delivered server v c (asked speaker r.id text) d refl auth

module _ (server : Endian) {m : ClientManager} {fd p : ℕ} {s : ClientSession} (i : Inv m)
    (c : Connected m fd p s) where
  -- Who is connected under an id does not depend on what is in a buffer.
  unread_member :
      (buffer : Bytes) {k q : ℕ} {r : ClientSession}
      → Connected m k q r
      → (q' : ℕ) × (r' : ClientSession) × Connected (set_read_buffer m p s buffer) k q' r'
        × (r'.id ≡ r.id)
  unfolding room
  unread_member buffer {k} {q} {r} d =
      let n = set_read_buffer m p s buffer in
      let at : (room n).member k ≡ some (seen r) =
        ap (λ w. w.member k) (room_unread server i c buffer) ∙ member_seen d in
      let (r', there, same) = seen-some (session_at n k) (seen r) at in
      let (q', d') = Connected-at n k r' (set_read_buffer-Inv server i c buffer).valid there in
      (q', r', d', ap (λ u. u.id) same)

module _ (server : Endian) {m : ClientManager} {fd p k q : ℕ} {s r : ClientSession} (i : Inv m)
    (c : Connected m fd p s) (d : Connected m k q r) where
  -- The packet goes once to the one named, and to nobody else.
  asked_relayed :
      (speaker : ChatClient) (full text : Bytes)
      → s.is_authenticated ≡ true
      → (final : ClientManager) × (process_messages server
            (set_read_buffer m p s full)
            p
            (asked speaker r.id text ∷ [])
            []
          ≡ ok final)
        × ((j : ℕ)
            → sent_to j final.calls
              ≡ sent_to j m.calls ++ once_if (k == j) (packet (whispered s r.id text)))
  asked_relayed speaker full text auth =
      let c1 = set_read_buffer-Connected server i.valid c full in
      let i1 = set_read_buffer-Inv server i c full in
      let c2 = set_read_buffer-Connected server i1.valid c1 [] in
      let i2 = set_read_buffer-Inv server i1 c1 [] in
      let (q1, r1, d1, e1) = unread_member server i c full d in
      let (q2, r2, d2, e2) = unread_member server i1 c1 [] d1 in
      let id : r2.id ≡ r.id = e2 ∙ e1 in
      let o = asked-Outcome server speaker text i2.valid c2 d2 auth in
      (
        o.final,
        ap
              (λ n.
                process_messages server (set_read_buffer m p s full) p (asked speaker n text ∷ [])
                  [])
              (sym id)
            ∙ process_one server (asked speaker r2.id text) c1
            ∙ ap then_ok o.returns,
        λ j.
            o.sends j
            ∙ ap (λ n. sent_to j m.calls ++ once_if (k == j) (packet (whispered s n text))) id,
      )

asked-IsMessage :
    (speaker : ChatClient) (id : ℕ) (text : Bytes)
    → speaker.user_id < 2 ^ 32
    → id < 2 ^ 32
    → length text < 2 ^ 32
    → IsMessage (asked speaker id text)
asked-IsMessage speaker id text from to fits =
    new_message-IsMessage c2s_private speaker.user_id id text tt from to fits

whispered-IsSendable :
    (s : ClientSession) (id : ℕ) (text : Bytes)
    → s.id < 2 ^ 32
    → id < 2 ^ 32
    → All IsByte text
    → length text < 2 ^ 32
    → IsSendable (whispered s id text)
unfolding new_message
whispered-IsSendable s id text from to bytes fits =
    (new_message-IsMessage s2c_private s.id id text tt from to fits, bytes)

whisper_shown :
    (host : Endian) (s : ClientSession) (hearer : ChatClient) (id : ℕ) (text name : Bytes)
    → lookup s.id hearer.user_map ≡ some name
    → (deliver (whispered s id text ∷ []) hearer >>= shows_end)
      ≡ shows_end (show hearer (codes "@" ++ (name ++ (codes "> " ++ text))))
unfolding new_message deliver on_message_received process_chat_message
whisper_shown host s hearer id text name known = rw known refl

-- A name that one id alone has goes to that id.
whisper_asked :
    (speaker : ChatClient) (name text : Bytes) (id : ℕ)
    → All (λ b. b ≢ b' ') name
    → Distinct speaker.user_map
    → lookup id speaker.user_map ≡ some name
    → ((j : ℕ) → lookup j speaker.user_map ≡ some name → j ≡ id)
    → handle_line speaker (b'@' ∷ name ++ b' ' ∷ text)
      ≡ request speaker (send (asked speaker id text))
whisper_asked speaker name text id spaceless d known only =
    let (receiver, there, asks) = private_line speaker name text id spaceless d known in
    asks ∙ ap (λ n. request speaker (send (asked speaker n text))) (only receiver there)

-- A line `@name text` from a client whose map has the name under one id and no id twice, where
-- the name has no space: the client asks its connection to send one private message to that id;
-- when the bytes that it is serialized to arrive at the server on the joined sender's connection,
-- in reads that end because the socket would block, none of which gives more than the buffer's
-- step, and nothing was held there, the server returns and has sent one packet to the client
-- connected under that id and nothing to anybody else; and a client that knows the sender's name
-- shows that name and the text, and then the notice of the end, however the packet is cut into
-- reads that give no more than was asked for. The invariant of the tables and of the names holds,
-- ids fit 32 bits, and the text is bytes and shorter than 2^32.
pub whisper_heard :
    (server speaking hearing : Endian) (m : ClientManager) (fd p k q : ℕ) (s r : ClientSession)
    (reads : Reads) (speaker hearer : ChatClient) (name text bytes from : Bytes)
    (chunks : List Bytes) (last : Round)
    → Inv m
    → Connected m fd p s
    → Connected m k q r
    → s.is_authenticated ≡ true
    → s.read_buffer ≡ []
    → s.id < 2 ^ 32
    → r.id < 2 ^ 32
    → speaker.user_id < 2 ^ 32
    → All (λ b. b ≢ b' ') name
    → Distinct speaker.user_map
    → lookup r.id speaker.user_map ≡ some name
    → ((j : ℕ) → lookup j speaker.user_map ≡ some name → j ≡ r.id)
    → All IsByte text
    → length text < 2 ^ 32
    → serialize_message speaking (asked speaker r.id text) ≡ some bytes
    → Blocks reads
    → received_bytes reads ≡ bytes
    → lookup s.id hearer.user_map ≡ some from
    → concat chunks ≡ packet (whispered s r.id text)
    → All (λ chunk. length chunk ≤ initial_buffer_size) chunks
    → Ends last
    → (handle_line speaker (b'@' ∷ name ++ b' ' ∷ text)
        ≡ request speaker (send (asked speaker r.id text)))
      × ((final : ClientManager) × (handle_client_message server m fd reads ≡ ok final)
          × ((j : ℕ)
              → sent_to j final.calls
                ≡ sent_to j m.calls ++ once_if (k == j) (packet (whispered s r.id text))))
      × (receiver_loop hearing (map received chunks ++ last ∷ []) [] hearer
          ≡ shows_end (show hearer (codes "@" ++ (from ++ (codes "> " ++ text)))))
unfolding concat
whisper_heard server speaking hearing m fd p k q s r reads speaker hearer name text bytes from
      chunks last i c d auth empty sid rid uid spaceless distinct known only typed fits serialized
      blocks arrived named cut within ends =
    let x = asked speaker r.id text in
    let y = whispered s r.id text in
    let framed : Framed server (s.read_buffer ++ received_bytes reads) (x ∷ []) [] =
      rw (empty, arrived)
        (message-Framed speaking server x bytes (asked-IsMessage speaker r.id text uid rid fits)
          serialized) in
    let (same, drained) =
      handle_client_message_harmless server reads i.valid c (x ∷ []) [] blocks framed
        (asked-IsHarmless s speaker r.id text, tt) in
    let (final, returns, sends) =
      asked_relayed server i c d speaker (s.read_buffer ++ received_bytes reads) text auth in
    (
      whisper_asked speaker name text r.id spaceless distinct known only,
      (final, same ∙ returns, sends),
      packets_delivered hearing (y ∷ []) chunks last [] hearer
            (whispered-IsSendable s r.id text sid rid typed fits, tt)
            (cut ∙ sym (append-nil (packet y))) within ends
          ∙ whisper_shown hearing s hearer r.id text from named,
    )
