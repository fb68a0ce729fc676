-- ===== src/Server/Room/Histories.antt =====
-- The server's histories against the room's.
use axn_chat_app.Prelude.{
  ℕ, ◌≡◌, refl, ap, sym, ◌∙◌, none, List, ◌++◌, map, Bytes, ◌&&◌, append-nil, Option-cases, inl,
  inr,
}
use axn_chat_app.Prelude.Map.{lookup}
use axn_chat_app.Prelude.Names
use axn_chat_app.Protocol.Words.{Endian}
use axn_chat_app.Protocol.{Message, new_message, broadcast_id, s2c_user_left}
use axn_chat_app.Protocol.Wire.{packet}
use axn_chat_app.Socket.{Reads, chunk, blocked, ended}
use axn_chat_app.ReadBuffer.{initial_buffer_size, receive_ok, receive_failed}
use axn_chat_app.Server.State.{Result, ok, ClientSession, ClientManager, deref}
use axn_chat_app.Server.Handlers.{handle_client_disconnection}
use axn_chat_app.Server.Reading.{set_read_buffer, read_loop, handle_client_message}
use axn_chat_app.Server.Broadcast.{session_at, sent_to, once_if}
use axn_chat_app.Server.Outcome.{Outcome, Connected, connected, with_entry}
use axn_chat_app.Server.Connections.{disconnection-Outcome, told_of_leaving, left_packet}
use axn_chat_app.Server.Draining.{set_read_buffer-Connected, buffered}
use axn_chat_app.Server.Invariant.{Inv, set_read_buffer-Inv}
use axn_chat_app.Server.Room.{Mail, no_mail, seat, is_other}
use axn_chat_app.Server.Room.Abstraction.{
  seen, seen_at, room, member_seen, same_room, seen_entry, hears-is_other, once_if-only_if,
}
use axn_chat_app.Server.Room.Conversed.{Conversed, room_unread}
use axn_chat_app.Server.Room.Life.{Happens, converses, departs, nothing_happens, farewell}
use axn_chat_app.Server.Room.Returned.{buffer_turned}

-- A call returns, and the room it leaves and what it sends are those of one thing that happens.
pub record Happened (m : ClientManager) (result : Result ClientManager) : Type 0 where
  pub final : ClientManager
  pub mail : Mail
  pub returns : result ≡ ok final
  pub as_event : Happens (room m) (room final) mail
  pub sends : (k : ℕ) → sent_to k final.calls ≡ sent_to k m.calls ++ map packet (mail k)

conversation :
    {m : ClientManager} {result : Result ClientManager} {fd : ℕ} (ms : List Message)
    → Conversed m result fd ms
    → Happened m result
conversation {fd = fd} ms t = record {
  final = t.final;
  mail = t.mail;
  returns = t.returns;
  as_event = converses fd ms (room t.final) t.mail t.turns;
  sends = t.sends;
}

farewell_mail :
    (m : ClientManager) (s : ClientSession) (k : ℕ)
    → once_if (told_of_leaving s (session_at m k)) (left_packet s)
      ≡ map packet (farewell (room m) (seen s) k)
unfolding room
farewell_mail m s k = rw (hears-is_other s.id (session_at m k)) (
    once_if-only_if (s.is_authenticated && is_other s.id (seen_at (session_at m k)))
      (new_message s2c_user_left s.id broadcast_id s.username))

departure :
    {m : ClientManager} {result : Result ClientManager} {fd p : ℕ} {s : ClientSession}
    → Connected m fd p s
    → Outcome m result
        (with_entry (session_at m) fd none)
        (Names.erase s.username m.usernames)
        (λ k. once_if (told_of_leaving s (session_at m k)) (left_packet s))
    → Happened m result
unfolding room
departure {m} {result} {fd} {p} {s} c o =
    let names = Names.erase s.username m.usernames in
    let same =
      same_room o.final (seat (room m) fd none names)
        (λ k. ap seen_at (o.session k) ∙ seen_entry m fd k none names) o.usernames in
    record {
      final = o.final;
      mail = farewell (room m) (seen s);
      returns = o.returns;
      as_event = rw same (departs fd (seen s) (member_seen c));
      sends = λ k. o.sends k ∙ ap (λ l. sent_to k m.calls ++ l) (farewell_mail m s k);
    }

unread-Happened :
    (host : Endian) {m : ClientManager} {fd p : ℕ} {s : ClientSession} (i : Inv m)
    (c : Connected m fd p s) (buffer : Bytes) {result result' : Result ClientManager}
    → result' ≡ result
    → Happened (set_read_buffer m p s buffer) result
    → Happened m result'
unread-Happened host i c buffer e h = record {
  final = h.final;
  mail = h.mail;
  returns = e ∙ h.returns;
  as_event = rw (sym (room_unread host i c buffer)) h.as_event;
  sends = h.sends;
}

idle : {m : ClientManager} {result : Result ClientManager} → result ≡ ok m → Happened m result
idle {m} e = record {
  final = m;
  mail = no_mail;
  returns = e;
  as_event = nothing_happens;
  sends = λ k. sym (append-nil (sent_to k m.calls));
}

module _ (host : Endian) where
  read_loop-Happened :
      (reads : Reads) (m final : ClientManager) (fd p : ℕ) (s : ClientSession)
      → Inv m
      → Connected m fd p s
      → read_loop host m p fd reads ≡ ok final
      → Happened m (read_loop host m p fd reads)
  unfolding read_loop deref
  read_loop-Happened (chunk b reads) m final fd p s i c e =
      let e' = rw c.object at e in
      elim (Option-cases (receive_ok initial_buffer_size s.read_buffer b)) [
        | inl outside ↦ let fault = rw outside at e' in absurd (cc fault)
        | inr (buffer, within) ↦ unread-Happened host i c buffer (rw (c.object, within) refl) (
            read_loop-Happened reads (set_read_buffer m p s buffer) final fd p (buffered s buffer)
              (set_read_buffer-Inv host i c buffer)
              (set_read_buffer-Connected host i.valid c buffer) (rw within at e'))
      ]
  read_loop-Happened blocked m final fd p s i c e =
      let left = receive_failed initial_buffer_size s.read_buffer in
      let (ms, t) =
        buffer_turned host (set_read_buffer m p s left) final fd p (buffered s left)
          (set_read_buffer-Inv host i c left) (set_read_buffer-Connected host i.valid c left)
          (rw c.object at e) in
      unread-Happened host i c left (rw c.object refl) (conversation ms t)
  read_loop-Happened (ended status) m final fd p s i c e =
      let left = receive_failed initial_buffer_size s.read_buffer in
      let c' = set_read_buffer-Connected host i.valid c left in
      unread-Happened host i c left (rw c.object refl)
        (departure c' (disconnection-Outcome host (set_read_buffer-Inv host i c left).valid c'))

  pub message-Happened :
      (m final : ClientManager) (fd : ℕ) (reads : Reads)
      → Inv m
      → handle_client_message host m fd reads ≡ ok final
      → Happened m (handle_client_message host m fd reads)
  unfolding handle_client_message
  message-Happened m final fd reads i e = elim (Option-cases (lookup fd m.session_by_fd)) [
    | inl nobody ↦ rw nobody (idle refl)
    | inr (p, found) ↦
        let (s, c) = connected m fd p i.valid found in
        rw found (read_loop-Happened reads m final fd p s i c (rw found at e))
  ]

  pub disconnection-Happened :
      (m : ClientManager) (fd : ℕ) → Inv m → Happened m (handle_client_disconnection host m fd)
  unfolding handle_client_disconnection
  disconnection-Happened m fd i = elim (Option-cases (lookup fd m.session_by_fd)) [
    | inl nobody ↦ rw nobody (idle refl)
    | inr (p, found) ↦
        let (s, c) = connected m fd p i.valid found in
        departure c (disconnection-Outcome host i.valid c)
  ]
