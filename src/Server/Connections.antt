-- ===== src/Server/Connections.antt =====
-- Connections that come and go: `ClientManager::add_client` and `remove_client`, and
-- `Server::handle_client_disconnection`.
use axn_chat_app.Prelude.{
  ℕ, ◌≡◌, refl, ap, sym, ◌∙◌, ◌&&◌, Bool, Option, none, List, [], ◌∷◌, ◌++◌, append-nil, Bytes,
  Bool-cases, false, ◌==◌, if◌then◌else◌, inl, inr,
}
use axn_chat_app.Prelude.Map.{erase, lookup-erase-some}
use axn_chat_app.Prelude.Names
use axn_chat_app.Protocol.Words.{Endian}
use axn_chat_app.Protocol.{broadcast_id, s2c_user_left, new_message}
use axn_chat_app.Protocol.Wire.{packet, new_message-fits}
use axn_chat_app.Server.State.{
  ok, ClientSession, ClientManager, Call, close, epoll_remove, deref, call, destroy,
}
use axn_chat_app.Server.Manager.{remove_client}
use axn_chat_app.Server.Handlers.{announce_left, handle_client_disconnection}
use axn_chat_app.Server.Tables.{IsValid, remove-Tables}
use axn_chat_app.Server.Watch.{watched, watched_from, watched_from-append, IsQuiet, still}
use axn_chat_app.Server.Broadcast.{
  session_at, sent_to, sent_to-append, hears, once_if, told, broadcast_audience,
}
use axn_chat_app.Server.Outcome.{
  Outcome, Connected, with_entry, session_at-removed, session_at-Connected, watched-told,
  still-removed, still-removed_twice,
}

removed : ClientManager → ℕ → ℕ → ClientSession → ClientManager
removed m fd p s = record m {
  session_by_fd = erase fd m.session_by_fd;
  session_by_id = erase s.id m.session_by_id;
  usernames = Names.erase s.username m.usernames;
  sessions = erase p m.sessions;
  calls = m.calls ++ close s.socket ∷ [];
}

remove_client-removed :
    {m : ClientManager} {fd p : ℕ} {s : ClientSession}
    → Connected m fd p s
    → remove_client m fd ≡ ok (removed m fd p s)
unfolding remove_client removed deref destroy
remove_client-removed {m} {fd} {p} {s} c = rw (c.pointer, c.object) refl

-- Removing a connected client: its descriptor has no session any more, its name is erased, other
-- sessions stay, and nothing is sent.
pub remove_client-Outcome :
    {m : ClientManager} {fd p : ℕ} {s : ClientSession}
    → IsValid m
    → Connected m fd p s
    → Outcome m
        (remove_client m fd)
        (with_entry (session_at m) fd none)
        (Names.erase s.username m.usernames)
        (λ _. [])
unfolding removed sent_to watched_from
remove_client-Outcome {m} {fd} {p} {s} v c = record {
  final = removed m fd p s;
  returns = remove_client-removed c;
  valid = rw (← c.socket) (remove-Tables v p s c.object);
  session = λ k. session_at-removed v c (removed m fd p s) k refl refl;
  usernames = refl;
  pointers = λ k q h. (lookup-erase-some fd k q m.session_by_fd h).1;
  sends = λ k. sent_to-append k m.calls (close s.socket ∷ []);
  watch = λ k.
      watched_from-append k false m.calls (close s.socket ∷ [])
      ∙ ap (λ f. if f == k then false else watched k m) c.socket
      ∙ still-removed m fd s (session_at-Connected c) k (watched k m);
}

abbrev pub left_packet : ClientSession → Bytes
left_packet s = packet (new_message s2c_user_left s.id broadcast_id s.username)

-- Whether the session of a descriptor is told that another has left.
abbrev pub told_of_leaving : ClientSession → Option ClientSession → Bool
told_of_leaving s other = s.is_authenticated && hears s.id other

announce_left-told :
    (host : Endian) (m : ClientManager) (s : ClientSession)
    → IsValid m
    → (cs : List Call) × (announce_left host m s ≡ ok (told m cs))
      × ((k : ℕ) → sent_to k cs ≡ once_if (told_of_leaving s (session_at m k)) (left_packet s))
      × IsQuiet cs
unfolding announce_left
announce_left-told host m s v = elim (Bool-cases s.is_authenticated) [
  | inl auth ↦ rw auth (broadcast_audience host m _ s.id v (new_message-fits _ _ _ _))
  | inr anonymous ↦ rw anonymous (
    [],
    ap ok (ap (λ c. record m { calls = c }) (sym (append-nil m.calls))),
    λ k. unfold sent_to in refl,
    λ k b. unfold watched_from in refl,
  )
]

-- A disconnection of a connected client: the client is removed, its name is erased, and each
-- other authenticated client is told once, if the one that left was authenticated.
pub disconnection-Outcome :
    (host : Endian) {m : ClientManager} {fd p : ℕ} {s : ClientSession}
    → IsValid m
    → Connected m fd p s
    → Outcome m
        (handle_client_disconnection host m fd)
        (with_entry (session_at m) fd none)
        (Names.erase s.username m.usernames)
        (λ k. once_if (told_of_leaving s (session_at m k)) (left_packet s))
unfolding handle_client_disconnection deref sent_to session_at watched_from
disconnection-Outcome host {m} {fd} {p} {s} v c =
    let (cs, announced, heard, quiet) = announce_left-told host m s v in
    let before : ClientManager = call (told m cs) (epoll_remove fd) in
    let c' : Connected before fd p s = record {
      pointer = c.pointer;
      object = c.object;
      socket = c.socket;
    } in
    let r = remove_client-Outcome {m = before} {fd = fd} {p = p} {s = s} v c' in
    record {
      final = r.final;
      returns = rw (c.pointer, c.object, announced) r.returns;
      valid = r.valid;
      session = r.session;
      usernames = r.usernames;
      pointers = r.pointers;
      sends = λ k. r.sends k ∙ simp (sent_to-append, append-nil, heard k);
      watch = λ k.
          let goes = still (session_at m k) (with_entry (session_at m) fd none k) in
          r.watch k
          ∙ ap goes (
              watched_from-append k false (m.calls ++ cs) (epoll_remove fd ∷ [])
              ∙ ap (λ b. if fd == k then false else b) (watched-told m cs quiet k))
          ∙ still-removed_twice m fd s (session_at-Connected c) k (watched k m);
    }
