-- ===== src/Server/Relaying.antt =====
-- `Server::process_broadcast_message` and `Server::process_private_message`.
use axn_chat_app.Prelude.{
  ℕ, ◌≡◌, ◌≢◌, refl, true, false, ◌&&◌, none, some, List, [], Bytes, codes, ◌==◌, Bool-cases,
  Option-cases, inl, inr,
}
use axn_chat_app.Prelude.Map.{lookup}
use axn_chat_app.Protocol.Words.{Endian}
use axn_chat_app.Protocol.{
  Message, server_id, broadcast_id, new_message, s2c_broadcast, s2c_private, s2c_error,
}
use axn_chat_app.Protocol.Wire.{packet, new_message-fits}
use axn_chat_app.Server.State.{ClientSession, ClientManager, deref}
use axn_chat_app.Server.Handlers.{process_broadcast_message, process_private_message}
use axn_chat_app.Server.Tables.{IsValid}
use axn_chat_app.Server.Broadcast.{session_at, hears, once_if, broadcast_audience}
use axn_chat_app.Server.Outcome.{
  Outcome, Connected, session_at-Connected, same_sends, nothing_happens, only_calls,
}
use axn_chat_app.Server.Sending.{send-Outcome}

abbrev pub broadcast_packet : ClientSession → Bytes → Bytes
broadcast_packet s payload = packet (new_message s2c_broadcast s.id broadcast_id payload)

abbrev pub private_packet : ClientSession → Message → Bytes
private_packet s message =
    packet (new_message s2c_private s.id message.header.receiver_id message.payload)

abbrev pub not_found_packet : ClientSession → Bytes
not_found_packet s =
    packet (new_message s2c_error server_id s.id (codes "Receiver not found or not connected."))

module _ (host : Endian) {m : ClientManager} {fd p : ℕ} {s : ClientSession} (v : IsValid m)
    (c : Connected m fd p s) (message : Message) where
  -- A broadcast from an authenticated client goes once to each other authenticated client, under
  -- the sender's own id whatever the header says; from any other client it goes nowhere. Sessions
  -- and names stay as they are.
  pub broadcast-Outcome :
      Outcome m (process_broadcast_message host m p message) (session_at m) m.usernames (λ k.
        once_if
          (s.is_authenticated && hears s.id (session_at m k))
          (broadcast_packet s message.payload))
  unfolding process_broadcast_message deref
  broadcast-Outcome = elim (Bool-cases s.is_authenticated) [
    | inl auth ↦
        let (cs, announced, heard, quiet) =
          broadcast_audience host m (new_message s2c_broadcast s.id broadcast_id message.payload)
            s.id v (new_message-fits _ _ _ _) in
        rw (c.object, auth, announced) (same_sends heard (only_calls m cs quiet v))
    | inr anonymous ↦ rw (c.object, anonymous) (nothing_happens m v)
  ]

  -- A private message from an authenticated client goes once to the session that has the
  -- receiver's id, joined or not, and to no other, under the sender's own id.
  pub private_delivered :
      {k q : ℕ} {r : ClientSession}
      → Connected m k q r
      → r.id ≡ message.header.receiver_id
      → s.is_authenticated ≡ true
      → Outcome m
          (process_private_message host m p message)
          (session_at m)
          m.usernames
          (λ j. once_if (k == j) (private_packet s message))
  unfolding process_private_message deref
  private_delivered {k} {q} {r} d named auth =
      let by_id : lookup message.header.receiver_id m.session_by_id ≡ some q =
        rw (← named) (v.has_id q r d.object) in
      rw (c.object, by_id, auth, d.object)
        (send-Outcome host v d
          (new_message s2c_private s.id message.header.receiver_id message.payload)
          (new_message-fits _ _ _ _))

  -- A private message to a connected id from a client that has not joined is dropped: nothing is
  -- sent and nothing changes.
  pub private_dropped :
      {k q : ℕ} {r : ClientSession}
      → Connected m k q r
      → r.id ≡ message.header.receiver_id
      → s.is_authenticated ≡ false
      → Outcome m (process_private_message host m p message) (session_at m) m.usernames (λ _. [])
  unfolding process_private_message deref
  private_dropped {k} {q} {r} d named anonymous =
      let by_id : lookup message.header.receiver_id m.session_by_id ≡ some q =
        rw (← named) (v.has_id q r d.object) in
      rw (c.object, by_id, anonymous) (nothing_happens m v)

  private_missing :
      lookup message.header.receiver_id m.session_by_id ≡ none
      → Outcome m
          (process_private_message host m p message)
          (session_at m)
          m.usernames
          (λ j. once_if (fd == j) (not_found_packet s))
  unfolding process_private_message deref
  private_missing missing =
      rw (c.object, missing)
        (send-Outcome host v c
          (new_message s2c_error server_id s.id (codes "Receiver not found or not connected."))
          (new_message-fits _ _ _ _))

  -- A private message to an id that no session has is answered with an error to the sender alone,
  -- joined or not.
  pub private_unknown :
      ((k : ℕ) (r : ClientSession) → session_at m k ≡ some r → r.id ≢ message.header.receiver_id)
      → Outcome m
          (process_private_message host m p message)
          (session_at m)
          m.usernames
          (λ j. once_if (fd == j) (not_found_packet s))
  unfolding process_private_message deref
  private_unknown unknown =
      elim (Option-cases (lookup message.header.receiver_id m.session_by_id)) [
        | inl missing ↦ private_missing missing
        | inr (q, found) ↦
            let (r, object, named) = v.id_live message.header.receiver_id q found in
            let at : session_at m r.socket ≡ some r =
              session_at-Connected
                (record { pointer = v.has_fd q r object; object = object; socket = refl }) in
            absurd (unknown r.socket r at named)
      ]

  -- In each case something is sent, or nothing, and no session changes.
  pub private-Outcome :
      (sent : ℕ → List Bytes) × Outcome m
        (process_private_message host m p message)
        (session_at m)
        m.usernames
        sent
  unfolding process_private_message deref
  private-Outcome = elim (Option-cases (lookup message.header.receiver_id m.session_by_id)) [
    | inl missing ↦ (_, private_missing missing)
    | inr (q, found) ↦
        let (r, object, named) = v.id_live message.header.receiver_id q found in
        let d : Connected m r.socket q r = record {
          pointer = v.has_fd q r object;
          object = object;
          socket = refl;
        } in
        elim (Bool-cases s.is_authenticated) [
          | inl auth ↦ (_, private_delivered d named auth)
          | inr anonymous ↦ (_, private_dropped d named anonymous)
        ]
  ]
