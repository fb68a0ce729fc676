-- ===== src/Server/Joining.antt =====
-- `Server::process_join_message`, on each of its three ways.
use axn_chat_app.Prelude.{
  ℕ, ◌≡◌, refl, ap, sym, ◌∙◌, true, false, none, some, [], ◌∷◌, ◌++◌, append-nil, append_assoc,
  Bytes, codes, ◌==◌, Bool-cases, ==_iff, inl, inr, arith,
}
use axn_chat_app.Prelude.Names
use axn_chat_app.Protocol.Words.{Endian}
use axn_chat_app.Protocol.{
  Message, server_id, broadcast_id, new_message, s2c_join_success, s2c_join_failure,
  s2c_user_joined,
}
use axn_chat_app.Protocol.Wire.{packet, new_message-fits}
use axn_chat_app.Server.State.{ClientSession, ClientManager, send, set_session, deref}
use axn_chat_app.Server.Manager.{add_username, is_username_taken}
use axn_chat_app.Server.Handlers.{process_join_message}
use axn_chat_app.Server.Tables.{IsValid, write-Tables}
use axn_chat_app.Server.Broadcast.{
  session_at, sent_to, sent_to-append, hears, once_if, told, broadcast_audience,
}
use axn_chat_app.Server.Outcome.{
  Outcome, Connected, with_entry, session_at-write, session_at-Connected, after_calls, same_sends,
  nothing_happens, sent_to_one, send-IsQuiet, watched-told, still-entry,
}
use axn_chat_app.Server.Watch.{watched}
use axn_chat_app.Server.Sending.{send_message-told}
use axn_chat_app.Server.Connections.{disconnection-Outcome}

abbrev pub failure_packet : ClientSession → Bytes
failure_packet s =
    packet (new_message s2c_join_failure server_id s.id (codes "Username already exists"))

abbrev pub welcome_packet : ClientSession → Bytes → Bytes
welcome_packet s name = packet (
    new_message s2c_join_success server_id s.id
      (codes "Welcome to the chat, " ++ (name ++ codes "!")))

abbrev pub joined_packet : ClientSession → Bytes → Bytes
joined_packet s name = packet (new_message s2c_user_joined s.id broadcast_id name)

module _ (host : Endian) {m : ClientManager} {fd p : ℕ} {s : ClientSession} (v : IsValid m)
    (c : Connected m fd p s) (message : Message) where
  -- A JOIN from a client that has joined already does nothing.
  pub join_again :
      s.is_authenticated ≡ true
      → Outcome m (process_join_message host m p message) (session_at m) m.usernames (λ _. [])
  unfolding process_join_message deref
  join_again auth = rw (c.object, auth) (nothing_happens m v)

  -- A JOIN under a taken name from a client that has not joined: the client is told so and is
  -- disconnected, and nobody else is told.
  pub join_rejected :
      s.is_authenticated ≡ false
      → is_username_taken m message.payload ≡ true
      → Outcome m
          (process_join_message host m p message)
          (with_entry (session_at m) fd none)
          (Names.erase s.username m.usernames)
          (λ k. once_if (fd == k) (failure_packet s))
  unfolding process_join_message deref session_at
  join_rejected anonymous taken =
      let failure = send fd (failure_packet s) ∷ [] in
      let c' : Connected (told m failure) fd p s = record {
        pointer = c.pointer;
        object = c.object;
        socket = c.socket;
      } in
      rw
        (
          c.object,
          anonymous,
          taken,
          send_message-told host m s.socket
              (new_message s2c_join_failure server_id s.id (codes "Username already exists"))
              (new_message-fits _ _ _ _),
          c.socket,
        )
        (same_sends (λ k. rw (sent_to_one k fd (failure_packet s), anonymous) (append-nil _))
          (after_calls failure (send-IsQuiet fd (failure_packet s))
            (disconnection-Outcome host v c')))

  abbrev joined_as : ClientSession
  joined_as = record s { username = message.payload; is_authenticated = true }

  -- The client that joins hears nothing of it from the broadcast, and what others hear does not
  -- depend on it.
  hears-joined :
      (k : ℕ)
      → s.is_authenticated ≡ false
      → hears s.id (session_at (set_session m p joined_as) k) ≡ hears s.id (session_at m k)
  hears-joined k anonymous = rw (session_at-write v c joined_as k) (elim (Bool-cases (fd == k)) [
    | inl self ↦
        let here : session_at m k ≡ some s = rw (← (==_iff fd k).0 self) (session_at-Connected c) in
        rw (self, here, anonymous) (ground arith)
    | inr other ↦ rw other refl
  ])

  -- A JOIN under a free name from a client that has not joined: the client is authenticated under
  -- the name and welcomed, the name is taken, every other authenticated client is told once, and
  -- nothing else changes.
  pub join_accepted :
      s.is_authenticated ≡ false
      → is_username_taken m message.payload ≡ false
      → Outcome m
          (process_join_message host m p message)
          (with_entry
            (session_at m)
            fd
            (some (record s { username = message.payload; is_authenticated = true })))
          (Names.insert message.payload m.usernames)
          (λ k.
            once_if (fd == k) (welcome_packet s message.payload)
            ++ once_if (hears s.id (session_at m k)) (joined_packet s message.payload))
  unfolding process_join_message deref session_at
  join_accepted anonymous free =
      let welcome = send s.socket (welcome_packet s message.payload) ∷ [] in
      let named : ClientManager = add_username (set_session m p joined_as) message.payload in
      let valid : IsValid named = write-Tables v p s joined_as c.object refl refl in
      let (cs, announced, heard, quiet) =
        broadcast_audience host (told named welcome)
          (new_message s2c_user_joined s.id broadcast_id message.payload) s.id valid
          (new_message-fits _ _ _ _) in
      record {
        final = told (told named welcome) cs;
        returns =
            rw
              (
                c.object,
                anonymous,
                free,
                send_message-told host named s.socket
                    (new_message s2c_join_success server_id s.id
                      (codes "Welcome to the chat, " ++ (message.payload ++ codes "!")))
                    (new_message-fits _ _ _ _),
              )
              announced;
        valid = valid;
        session = λ k. session_at-write v c joined_as k;
        usernames = refl;
        pointers = λ k q h. h;
        sends = λ k.
            sent_to-append k (m.calls ++ welcome) cs
            ∙ ap (λ t. t ++ sent_to k cs) (sent_to-append k m.calls welcome)
            ∙ append_assoc (sent_to k m.calls) (sent_to k welcome) (sent_to k cs)
            ∙ ap (λ t. sent_to k m.calls ++ (t ++ sent_to k cs))
                (sent_to_one k s.socket (welcome_packet s message.payload)
                  ∙ ap (λ f. once_if (f == k) (welcome_packet s message.payload)) c.socket)
            ∙ ap
                (λ t.
                  sent_to k m.calls ++ (once_if (fd == k) (welcome_packet s message.payload) ++ t))
                (heard k
                  ∙ ap (λ b. once_if b (joined_packet s message.payload))
                      (hears-joined k anonymous));
        watch = λ k.
            watched-told (told named welcome) cs quiet k
            ∙ watched-told named welcome (send-IsQuiet s.socket (welcome_packet s message.payload))
                k
            ∙ sym (still-entry m fd k joined_as (watched k m));
      }
