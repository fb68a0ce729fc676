-- ===== src/Server/Manager.antt =====
-- `ClientManager`: server/src/client_manager.cpp.
use axn_chat_app.Prelude.{
  ℕ, ◌+◌, ◌%◌, ◌^◌, Bool, false, not, ◌&&◌, Option, none, some, List, [], ◌∷◌, map, Bytes, ◌==◌,
  if◌then◌else◌,
}
use axn_chat_app.Prelude.Map.{lookup, insert, erase}
use axn_chat_app.Prelude.Names
use axn_chat_app.Protocol.Words.{Endian}
use axn_chat_app.Protocol.{Message}
use axn_chat_app.Server.State.{
  Result, ok, ◌>>=◌, ClientSession, ClientManager, deref, send_data, serialized, destroy, call,
  set_non_blocking, epoll_add,
}

-- `ClientManager::ClientManager`
abbrev pub empty : ClientManager
empty = record {
  next_client_id = 1;
  session_by_fd = [];
  session_by_id = [];
  usernames = [];
  sessions = [];
  next_address = 0;
  calls = [];
}

-- The manager and the calls of a server that `Server::run` has set up: it has made the listener
-- non-blocking and added it and the event descriptor to the interest list.
abbrev pub prepared : ℕ → ℕ → ClientManager
prepared listener server_event_fd =
    call (call (call empty (set_non_blocking listener)) (epoll_add listener))
      (epoll_add server_event_fd)

-- `ClientSession::ClientSession`
abbrev pub new_session : ℕ → ℕ → ClientSession
new_session id fd = record {
  id = id;
  socket = fd;
  username = [];
  is_authenticated = false;
  read_buffer = [];
}

-- The assignment to `session_by_fd_[fd]` destroys a session that stands there.
abbrev pub destroy_previous : ClientManager → Option ℕ → ClientManager
destroy_previous m none = m
destroy_previous m (some p) = destroy m p

unfoldable pub add_client : ClientManager → ℕ → ClientManager × ℕ
add_client m fd =
    let id = m.next_client_id in
    let p = m.next_address in
    let replaced = destroy_previous m (lookup fd m.session_by_fd) in
    (
      record replaced {
        next_client_id = (id + 1) % 2 ^ 32;
        session_by_fd = insert fd p replaced.session_by_fd;
        session_by_id = insert id p replaced.session_by_id;
        sessions = insert p (new_session id fd) replaced.sessions;
        next_address = p + 1;
      },
      p,
    )

-- `remove_client` behind its lookup.
abbrev pub remove_found : ClientManager → ℕ → Option ℕ → Result ClientManager
remove_found m fd none = ok m
remove_found m fd (some p) = do
  session ← deref m p
  ok (
      destroy
        (record m {
          session_by_id = erase session.id m.session_by_id;
          usernames = Names.erase session.username m.usernames;
          session_by_fd = erase fd m.session_by_fd;
        })
        p)

unfoldable pub remove_client : ClientManager → ℕ → Result ClientManager
remove_client m fd = remove_found m fd (lookup fd m.session_by_fd)

abbrev pub get_client_by_id : ClientManager → ℕ → Option ℕ
get_client_by_id m id = lookup id m.session_by_id

abbrev pub get_client_by_fd : ClientManager → ℕ → Option ℕ
get_client_by_fd m fd = lookup fd m.session_by_fd

abbrev pub get_all_clients : ClientManager → List ℕ
get_all_clients m = map (λ e. e.1) m.session_by_id

abbrev pub add_username : ClientManager → Bytes → ClientManager
add_username m username = record m { usernames = Names.insert username m.usernames }

abbrev pub is_username_taken : ClientManager → Bytes → Bool
is_username_taken m username = Names.contains username m.usernames

-- The loop of `broadcast_message`, over the entries of `session_by_fd_` that are left.
unfoldable pub broadcast_loop : ClientManager → Bytes → ℕ → List (ℕ × ℕ) → Result ClientManager
broadcast_loop m bytes exclude_sender_id [] = ok m
broadcast_loop m bytes exclude_sender_id ((fd, p) ∷ rest) = do
  session ← deref m p
  broadcast_loop
      (if session.is_authenticated && not (session.id == exclude_sender_id)
        then send_data m session.socket bytes
        else m)
      bytes exclude_sender_id rest

unfoldable pub broadcast_message : Endian → ClientManager → Message → ℕ → Result ClientManager
unfolding broadcast_loop
broadcast_message host m message exclude_sender_id = do
  bytes ← serialized host message
  broadcast_loop m bytes exclude_sender_id m.session_by_fd
