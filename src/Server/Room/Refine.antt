-- ===== src/Server/Room/Refine.antt =====
-- `Server::process_message` against the room.
use axn_chat_app.Prelude.{
  ℕ, ◌≡◌, ◌≢◌, refl, ap, sym, ◌∙◌, true, ◌&&◌, none, some, [], ◌++◌, map, ◌==◌, if◌then◌else◌,
  Bool-cases, Option-cases, inl, inr,
}
use axn_chat_app.Prelude.Map.{lookup}
use axn_chat_app.Prelude.Names
use axn_chat_app.Protocol.Words.{Endian}
use axn_chat_app.Protocol.{
  Message, MessageType, c2s_join, c2s_broadcast, c2s_private, c2s_leave, c2s_user_joined_list,
  new_message, broadcast_id, s2c_broadcast, s2c_user_joined, s2c_user_left,
}
use axn_chat_app.Server.State.{ok, ClientSession, ClientManager}
use axn_chat_app.Server.Manager.{is_username_taken}
use axn_chat_app.Server.Handlers.{
  process_message, dispatch, process_join_message, process_broadcast_message,
  process_private_message, process_user_joined_list,
}
use axn_chat_app.Server.Tables.{IsValid}
use axn_chat_app.Server.Broadcast.{session_at}
use axn_chat_app.Server.Outcome.{Connected, Connected-at, nothing_happens}
use axn_chat_app.Server.Joining.{join_again, join_rejected, join_accepted}
use axn_chat_app.Server.Relaying.{
  broadcast-Outcome, private_delivered, private_dropped, private_unknown,
}
use axn_chat_app.Server.Roster.{user_list_answer}
use axn_chat_app.Server.Dispatch.{process_message_leave}
use axn_chat_app.Server.Room.{
  Turn, only_if, no_mail, mail_to, is_other, mail_to_others, seat, roster_messages, refusal,
  greeting, whisper, unknown_receiver, joins_again, is_refused, is_welcomed, speaks, is_unheard,
  whispers, whispers_unheard, whispers_to_nobody, asks, leaves, is_ignored,
}
use axn_chat_app.Server.Room.Abstraction.{
  seen, member_seen, seen_at, room, seen-some, hears-is_other, once_if-only_if, Taken,
  Outcome-Taken, seen_entry,
}
use axn_chat_app.Server.Room.Packets.{
  others_mail, welcome_mail, list_mail, In-map-seen, map-seen-In,
}

module _ (host : Endian) {m : ClientManager} {fd p : ℕ} {s : ClientSession} (v : IsValid m)
    (c : Connected m fd p s) (x : Message) where
  join-Taken : x.header.type ≡ c2s_join → Taken m (process_join_message host m p x) fd s x
  unfolding room
  join-Taken t = elim (Bool-cases s.is_authenticated) [
    | inl auth ↦
        Outcome-Taken (join_again host v c x auth) (room m) no_mail (λ k. refl) refl (λ k. refl)
          (joins_again t auth)
    | inr anonymous ↦ elim (Bool-cases (is_username_taken m x.payload)) [
      | inl taken ↦
          Outcome-Taken (join_rejected host v c x anonymous taken)
            (seat (room m) fd none (Names.erase s.username m.usernames))
            (mail_to fd (refusal (seen s)))
            (λ k. seen_entry m fd k none (Names.erase s.username m.usernames)) refl
            (λ k. once_if-only_if (fd == k) (refusal (seen s))) (is_refused t anonymous taken)
      | inr free ↦
          let me = record (seen s) { username = x.payload; joined = true } in
          let announced = new_message s2c_user_joined s.id broadcast_id x.payload in
          Outcome-Taken (join_accepted host v c x anonymous free)
            (seat (room m) fd (some me) (Names.insert x.payload m.usernames))
            (λ k.
              mail_to fd (greeting (seen s) x.payload) k
              ++ mail_to_others (room m) s.id announced k)
            (λ k.
              seen_entry m fd k (some (record s { username = x.payload; is_authenticated = true }))
                (Names.insert x.payload m.usernames))
            refl (λ k. welcome_mail m s fd k x.payload) (is_welcomed t anonymous free)
    ]
  ]

  broadcast-Taken :
      x.header.type ≡ c2s_broadcast → Taken m (process_broadcast_message host m p x) fd s x
  unfolding room
  broadcast-Taken t =
      let said = new_message s2c_broadcast s.id broadcast_id x.payload in
      elim (Bool-cases s.is_authenticated) [
        | inl auth ↦
            Outcome-Taken (broadcast-Outcome host v c x) (room m)
              (mail_to_others (room m) s.id said) (λ k. refl) refl
              (λ k. rw auth (others_mail m s.id k said)) (speaks t auth)
        | inr anonymous ↦
            Outcome-Taken (broadcast-Outcome host v c x) (room m) no_mail (λ k. refl) refl
              (λ k. rw anonymous refl) (is_unheard t anonymous)
      ]

  list-Taken :
      x.header.type ≡ c2s_user_joined_list → Taken m (process_user_joined_list host m p) fd s x
  unfolding room
  list-Taken t =
      let (ss, exact, o) = user_list_answer host v c in
      Outcome-Taken o (room m) (λ k. if fd == k then roster_messages (seen s) (map seen ss) else [])
        (λ k. refl) refl (λ k. list_mail s ss fd k)
        (asks (map seen ss) t (λ u. (
          λ h.
              let (r, there, e) = In-map-seen u ss h in
              let (at, auth, ne) = (exact r).0 there in
              (
                r.socket,
                ap seen_at at ∙ ap some e,
                ap (λ w. w.joined) (sym e) ∙ auth,
                λ f. ne (ap (λ w. w.id) e ∙ f),
              ),
          λ h.
              let (k, at, joined, ne) = h in
              let (r, there, e) = seen-some (session_at m k) u at in
              let (q, d) = Connected-at m k r v there in
              let here : session_at m r.socket ≡ some r = ap (session_at m) d.socket ∙ there in
              rw (← e) (
                map-seen-In r ss (
                  (exact r).1
                    (here, ap (λ w. w.joined) e ∙ joined, λ f. ne (ap (λ w. w.id) (sym e) ∙ f)))),
        )))

  leave-Taken : x.header.type ≡ c2s_leave → Taken m (process_message host m p x) fd s x
  unfolding room
  leave-Taken t =
      Outcome-Taken (process_message_leave host v c x t)
        (seat (room m) fd none (Names.erase s.username m.usernames))
        (λ k.
          only_if (s.is_authenticated && is_other s.id (seen_at (session_at m k)))
            (new_message s2c_user_left s.id broadcast_id s.username))
        (λ k. seen_entry m fd k none (Names.erase s.username m.usernames)) refl
        (λ k.
          rw (hears-is_other s.id (session_at m k))
            (once_if-only_if (s.is_authenticated && is_other s.id (seen_at (session_at m k))) _))
        (leaves t)

  private-Taken : x.header.type ≡ c2s_private → Taken m (process_private_message host m p x) fd s x
  unfolding room
  private-Taken t = elim (Option-cases (lookup x.header.receiver_id m.session_by_id)) [
    | inl missing ↦
        let unnamed : (k : ℕ) (r : ClientSession)
            → session_at m k ≡ some r
            → r.id ≢ x.header.receiver_id =
          λ k r h e.
            let (q, d) = Connected-at m k r v h in cc (missing, e, v.has_id q r d.object) in
        Outcome-Taken (private_unknown host v c x unnamed) (room m)
          (mail_to fd (unknown_receiver (seen s))) (λ k. refl) refl
          (λ k. once_if-only_if (fd == k) (unknown_receiver (seen s)))
          (whispers_to_nobody t (λ k you h e.
            let (r, there, same) = seen-some (session_at m k) you h in
            unnamed k r there (ap (λ u. u.id) same ∙ e)))
    | inr (q, found) ↦
        let (r, object, named) = v.id_live x.header.receiver_id q found in
        let d : Connected m r.socket q r = record {
          pointer = v.has_fd q r object;
          object = object;
          socket = refl;
        } in
        let at : (room m).member r.socket ≡ some (seen r) = member_seen d in
        elim (Bool-cases s.is_authenticated) [
          | inl auth ↦
              Outcome-Taken (private_delivered host v c x d named auth) (room m)
                (mail_to r.socket (whisper (seen s) x)) (λ k. refl) refl
                (λ k. once_if-only_if (r.socket == k) (whisper (seen s) x))
                (whispers r.socket (seen r) t auth at named)
          | inr anonymous ↦
              Outcome-Taken (private_dropped host v c x d named anonymous) (room m) no_mail
                (λ k. refl) refl (λ k. refl)
                (whispers_unheard r.socket (seen r) t anonymous at named)
        ]
  ]

  ignored-Taken : Turn (room m) fd (seen s) x (room m) no_mail → Taken m (ok m) fd s x
  unfolding room
  ignored-Taken t =
      Outcome-Taken (nothing_happens m v) (room m) no_mail (λ k. refl) refl (λ k. refl) t

  typed-Taken : (t : MessageType) → x.header.type ≡ t → Taken m (dispatch host t m p x) fd s x
  unfolding dispatch process_message
  typed-Taken c2s_join e = join-Taken e
  typed-Taken c2s_user_joined_list e = list-Taken e
  typed-Taken c2s_broadcast e = broadcast-Taken e
  typed-Taken c2s_private e = private-Taken e
  typed-Taken c2s_leave e =
      let o = leave-Taken e in
      record {
        final = o.final;
        mail = o.mail;
        returns = ap (λ t. dispatch host t m p x) (sym e) ∙ o.returns;
        as_turn = o.as_turn;
        sends = o.sends;
        valid = o.valid;
        pointers = o.pointers;
      }
  typed-Taken _ e = ignored-Taken (is_ignored (λ l. cc) (λ l. cc) (λ l. cc) (λ l. cc) (λ l. cc))

  -- Where the invariant of the tables holds, every message of a connected client, of whatever
  -- type, is processed without a fault, and the room afterwards and what each descriptor is sent
  -- are those of a turn of the room.
  pub process_message-Taken : Taken m (process_message host m p x) fd s x
  unfolding process_message
  process_message-Taken = typed-Taken x.header.type refl
