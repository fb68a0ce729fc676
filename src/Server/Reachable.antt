-- ===== src/Server/Reachable.antt =====
-- The server as a state machine: connections, readable sockets and hang-ups in any order, as the
-- events of `Server::run` bring them.
use axn_chat_app.Prelude.{
  ℕ, ◌+◌, ◌<◌, ◌^◌, ◌≡◌, ◌≢◌, ◌⊎◌, true, none, some, [], ◌∷◌, Option-cases, Bool-cases, ==_iff,
  ◌==◌, if◌then◌else◌, false, Option, refl, ap, sym, ◌∙◌, arith, inl, inr,
}
use axn_chat_app.Prelude.Map.{lookup}
use axn_chat_app.Protocol.Words.{Endian}
use axn_chat_app.Protocol.{Message}
use axn_chat_app.Socket.{Reads}
use axn_chat_app.Server.State.{ok, ClientSession, ClientManager, set_non_blocking, epoll_add, call}
use axn_chat_app.Server.Manager.{
  prepared, add_client, new_session, get_client_by_id, get_client_by_fd,
}
use axn_chat_app.Server.Handlers.{
  process_message, handle_client_disconnection, handle_new_connection,
}
use axn_chat_app.Server.Reading.{handle_client_message}
use axn_chat_app.Server.Tables.{IsValid}
use axn_chat_app.Server.Watch.{watched_from, watched_from-append, is_client}
use axn_chat_app.Server.Broadcast.{session_at}
use axn_chat_app.Server.Outcome.{Connected, with_entry}
use axn_chat_app.Server.Accepting.{Accepted, add_client-Accepted}
use axn_chat_app.Server.Usernames.{NamesAgree-same, accept-NamesAgree}
use axn_chat_app.Server.Invariant.{Inv, Watches, Keeps, process_message-Keeps, disconnection-Keeps}
use axn_chat_app.Server.History.{owner, read_loop-Inv}

-- One event. The kernel gives a new connection a descriptor that is not open, and ids have not run
-- out. A call that faults has no state after it.
pub data Step (host : Endian) : ClientManager → ClientManager → Type 0 where
  accepts :
      (m : ClientManager) (fd : ℕ)
      → session_at m fd ≡ none
      → m.next_client_id + 1 < 2 ^ 32
      → Step host m (handle_new_connection m (fd ∷ []))
  receives :
      (m final : ClientManager) (fd : ℕ) (reads : Reads)
      → handle_client_message host m fd reads ≡ ok final
      → Step host m final
  hangs_up :
      (m final : ClientManager) (fd : ℕ)
      → handle_client_disconnection host m fd ≡ ok final
      → Step host m final

-- The states that a server comes to.
pub data Reach (host : Endian) : ClientManager → Type 0 where
  starts : (listener server_event_fd : ℕ) → Reach host (prepared listener server_event_fd)
  continues : (m m' : ClientManager) → Reach host m → Step host m m' → Reach host m'

pub prepared-IsValid : (listener server_event_fd : ℕ) → IsValid (prepared listener server_event_fd)
unfolding lookup
prepared-IsValid listener server_event_fd = record {
  fd_live = λ fd p h. cc;
  id_live = λ id p h. cc;
  has_fd = λ p s h. cc;
  has_id = λ p s h. cc;
  address_below = λ p s h. cc;
  id_below = λ p s h. cc;
  one_fd = tt;
  one_id = tt;
}

is_client-some :
    (table : ℕ → Option ClientSession) (fd : ℕ) (s : ClientSession) (k : ℕ)
    → (if fd == k then true else is_client (table k)) ≡ is_client (with_entry table fd (some s) k)
is_client-some table fd s k = elim (Bool-cases (fd == k)) [
  | inl here ↦ rw here refl
  | inr elsewhere ↦ rw elsewhere refl
]

prepared-Watches : (listener server_event_fd : ℕ) → Watches (prepared listener server_event_fd)
unfolding session_at lookup watched_from
prepared-Watches listener server_event_fd = record {
  listener = listener;
  server_event_fd = server_event_fd;
  clients = λ k ne ne'. ground (arith, ==_iff listener k, ==_iff server_event_fd k);
}

pub prepared-Inv : (listener server_event_fd : ℕ) → Inv (prepared listener server_event_fd)
unfolding session_at lookup
prepared-Inv listener server_event_fd = record {
  valid = prepared-IsValid listener server_event_fd;
  names = record { taken = λ k s h. cc; unnamed = λ k s h. cc; unique = λ j k s t h. cc };
  watches = prepared-Watches listener server_event_fd;
}

accept-Watches :
    (m : ClientManager) (fd : ℕ)
    → Accepted (call m (set_non_blocking fd)) (add_client (call m (set_non_blocking fd)) fd).0 fd
    → Watches m
    → Watches (handle_new_connection m (fd ∷ []))
unfolding handle_new_connection session_at watched_from
accept-Watches m fd a w =
    let before = call m (set_non_blocking fd) in
    let added = (add_client before fd).0 in
    record {
      listener = w.listener;
      server_event_fd = w.server_event_fd;
      clients = λ k ne ne'.
          watched_from-append k false added.calls (epoll_add fd ∷ [])
          ∙ ap (λ cs. if fd == k then true else watched_from k false cs) a.same_calls
          ∙ ap (λ b. if fd == k then true else b)
              (watched_from-append k false m.calls (set_non_blocking fd ∷ []) ∙ w.clients k ne ne')
          ∙ is_client-some (session_at m) fd (new_session m.next_client_id fd) k
          ∙ ap is_client (sym (a.session k));
    }

accept-Inv :
    (m : ClientManager) (fd : ℕ)
    → Inv m
    → session_at m fd ≡ none
    → m.next_client_id + 1 < 2 ^ 32
    → Inv (handle_new_connection m (fd ∷ []))
unfolding handle_new_connection session_at
accept-Inv m fd i free room =
    let a = add_client-Accepted (call m (set_non_blocking fd)) fd i.valid free room in
    record {
      valid = a.valid;
      names = NamesAgree-same a.session a.usernames (accept-NamesAgree i.names fd m.next_client_id);
      watches = accept-Watches m fd a i.watches;
    }

module _ (host : Endian) where
  disconnect-Inv :
      (m final : ClientManager) (fd : ℕ)
      → Inv m
      → handle_client_disconnection host m fd ≡ ok final
      → Inv final
  unfolding handle_client_disconnection
  disconnect-Inv m final fd i e = elim (Option-cases (lookup fd m.session_by_fd)) [
    | inl nobody ↦ let same : m ≡ final = cc (rw nobody at e) in rw same at i
    | inr (p, found) ↦
        let (s, object, at) = i.valid.fd_live fd p found in
        let (done, returns, j) =
          disconnection-Keeps host i (record { pointer = found; object = object; socket = at }) in
        let same : done ≡ final = cc (returns, e) in rw same at j
  ]

  message-Inv :
      (m final : ClientManager) (fd : ℕ) (reads : Reads)
      → Inv m
      → handle_client_message host m fd reads ≡ ok final
      → Inv final
  unfolding handle_client_message
  message-Inv m final fd reads i e = elim (Option-cases (lookup fd m.session_by_fd)) [
    | inl nobody ↦ let same : m ≡ final = cc (rw nobody at e) in rw same at i
    | inr (p, found) ↦
        let (s, object, at) = i.valid.fd_live fd p found in
        read_loop-Inv host reads m final fd p s i
          (record { pointer = found; object = object; socket = at }) (rw found at e)
  ]

  Step-Inv : {m m' : ClientManager} → Inv m → Step host m m' → Inv m'
  Step-Inv i (accepts m fd free room) = accept-Inv m fd i free room
  Step-Inv i (receives m final fd reads e) = message-Inv m final fd reads i e
  Step-Inv i (hangs_up m final fd e) = disconnect-Inv m final fd i e

  pub Reach-Inv : {m : ClientManager} → Reach host m → Inv m
  Reach-Inv (starts listener server_event_fd) = prepared-Inv listener server_event_fd
  Reach-Inv (continues m m' r s) = Step-Inv (Reach-Inv r) s

-- In every state that a server comes to by connections, reads and hang-ups that do not fault, two
-- clients that have joined under one name that is not empty have one descriptor.
pub names_unique :
    (host : Endian) (m : ClientManager) (j k : ℕ) (s t : ClientSession)
    → Reach host m
    → session_at m j ≡ some s
    → session_at m k ≡ some t
    → s.is_authenticated ≡ true
    → t.is_authenticated ≡ true
    → s.username ≡ t.username
    → s.username ≢ []
    → j ≡ k
names_unique host m j k s t r = (Reach-Inv host r).names.unique j k s t

-- In every state that a server comes to, a pointer that either map holds leads to a live session,
-- which has the key as its descriptor or its id, and to which both maps lead.
pub pointers_live :
    (host : Endian) (m : ClientManager) (key p : ℕ)
    → Reach host m
    → (get_client_by_fd m key ≡ some p) ⊎ (get_client_by_id m key ≡ some p)
    → (s : ClientSession) × Connected m s.socket p s
      × (get_client_by_id m s.id ≡ some p)
      × ((s.socket ≡ key) ⊎ (s.id ≡ key))
pointers_live host m key p r (inl found) =
    let v = (Reach-Inv host r).valid in
    let (s, object, at) = v.fd_live key p found in
    (s, owner m p s v object, v.has_id p s object, inl at)
pointers_live host m key p r (inr found) =
    let v = (Reach-Inv host r).valid in
    let (s, object, at) = v.id_live key p found in
    (s, owner m p s v object, v.has_id p s object, inr at)

-- In every state that a server comes to, every message of a connected client is processed without
-- a fault, and the invariant of the tables and of the names holds afterwards.
pub message_processed :
    (host : Endian) (m : ClientManager) (fd p : ℕ) (s : ClientSession) (message : Message)
    → Reach host m
    → Connected m fd p s
    → Keeps (process_message host m p message)
message_processed host m fd p s message r c =
    process_message-Keeps host (Reach-Inv host r) c message

-- In every state that a server comes to there are two descriptors such that any other is on
-- epoll's interest list, as the recorded calls leave it if they succeed, exactly if a client has
-- it.
pub Reach-Watches : (host : Endian) (m : ClientManager) → Reach host m → Watches m
Reach-Watches host m r = (Reach-Inv host r).watches
