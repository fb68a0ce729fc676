-- ===== src/Server/EventLoop.antt =====
-- `Server::run` and `Server::shutdown`: server/src/server.cpp.
use axn_chat_app.Prelude.{
  ℕ, Bool, true, false, ◌||◌, not, codes, Option, none, some, List, [], ◌∷◌, ◌==◌, if◌then◌else◌,
}
use axn_chat_app.Protocol.Words.{Endian}
use axn_chat_app.Protocol.{new_message, server_id, broadcast_id, s2c_server_shutdown}
use axn_chat_app.Socket.{Reads}
use axn_chat_app.Server.State.{
  Result, ok, err, ◌>>=◌, ClientManager, call, set_non_blocking, epoll_add, close,
}
use axn_chat_app.Server.Manager.{empty, broadcast_message}
use axn_chat_app.Server.Handlers.{handle_new_connection, handle_client_disconnection}
use axn_chat_app.Server.Reading.{handle_client_message}

-- An event that `epoll_wait` reports, its bits, and what the handler's calls find: the descriptors
-- that `accept_connection` returns, and the results of reading.
pub record Event : Type 0 where
  pub fd : ℕ
  pub epollhup : Bool
  pub epollerr : Bool
  pub epollin : Bool
  pub accepted : List ℕ
  pub reads : Reads

-- A call of `EpollManager::wait`.
pub data Wait : Type 0 where
  events : List Event → Wait
  interrupted failed : Wait

-- `Server`, with the descriptors of `listener_` and of the event descriptor.
pub record Server : Type 0 where
  pub listener : ℕ
  pub server_event_fd : ℕ
  pub running : Bool
  pub client_manager : ClientManager

-- `run` has returned before its loop, waits for events, or has shut the server down.
pub data Run : Type 0 where
  not_started : Run
  waiting finished : Server → Run

abbrev pub finish : Result Server → Result Run
finish (ok server) = ok (finished server)
finish (err e) = err e

abbrev pub with_manager : Server → Result ClientManager → Result Server
with_manager server (ok m) = ok (record server { client_manager = m })
with_manager server (err e) = err e

module _ (host : Endian) where
  unfoldable pub handle_event : Server → Event → Result Server
  handle_event server event =
      if event.fd == server.listener
      then ok (record server {
        client_manager = handle_new_connection server.client_manager event.accepted;
      })
      else if event.fd == server.server_event_fd
      then ok (record server { running = false })
      else if event.epollhup || event.epollerr
      then with_manager server (handle_client_disconnection host server.client_manager event.fd)
      else if event.epollin
      then with_manager server
          (handle_client_message host server.client_manager event.fd event.reads)
      else ok server

  unfoldable pub handle_events : Server → List Event → Result Server
  unfolding handle_event
  handle_events server [] = ok server
  handle_events server (event ∷ rest) = do
    handled ← handle_event server event
    handle_events handled rest

  -- The message that every client which has joined is sent at the end; no client has the server's
  -- id, which is the one left out.
  unfoldable pub shutdown : Server → Result Server
  shutdown server =
      let closed =
        call (call server.client_manager (close server.server_event_fd)) (close server.listener) in
      with_manager server (
        broadcast_message host closed
          (new_message s2c_server_shutdown server_id broadcast_id
            (codes "Server is shutting down."))
          server_id)

  -- The loop on these calls of `wait`, one after the other. It waits for another where it runs on.
  unfoldable pub run_loop : Server → List Wait → Result Run
  unfolding handle_events shutdown
  run_loop server [] = if server.running then ok (waiting server) else finish (shutdown server)
  run_loop server (events reported ∷ waits) =
      if server.running
      then (do handled ← handle_events server reported; run_loop handled waits)
      else finish (shutdown server)
  run_loop server (interrupted ∷ waits) =
      let rest = run_loop server waits in if server.running then rest else finish (shutdown server)
  run_loop server (failed ∷ waits) = finish (shutdown server)

  -- From the event descriptor on.
  abbrev pub start : ℕ → ClientManager → Option ℕ → List Wait → Result Run
  start listener m none waits = ok not_started
  start listener m (some event_fd) waits =
      run_loop
        (record {
          listener = listener;
          server_event_fd = event_fd;
          running = true;
          client_manager = call m (epoll_add event_fd);
        })
        waits

  -- The arguments are the results of `create_listener`, `bind_socket`, `listen_socket` and `eventfd`.
  abbrev pub set_up : Bool → Bool → Option ℕ → List Wait → Option ℕ → Result Run
  set_up bound listening event_fd waits none = ok not_started
  set_up bound listening event_fd waits (some listener) =
      if not bound || not listening
      then ok not_started
      else start listener (call (call empty (set_non_blocking listener)) (epoll_add listener))
          event_fd waits

  unfoldable pub run : Option ℕ → Bool → Bool → Option ℕ → List Wait → Result Run
  unfolding run_loop
  run listener bound listening event_fd waits = set_up bound listening event_fd waits listener

-- `Server::stop`
abbrev pub stop : Server → Server
stop server = record server { running = false }
