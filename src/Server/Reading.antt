-- ===== src/Server/Reading.antt =====
-- `Server::handle_client_message`: server/src/server.cpp. The two loops of the function are two
-- functions.
use axn_chat_app.Prelude.{ℕ, zero, suc, Option, none, some, Bytes, length, drop}
use axn_chat_app.Protocol.Words.{Endian}
use axn_chat_app.Protocol.{Message, deserialize_message}
use axn_chat_app.Socket.{Reads, chunk, blocked, ended}
use axn_chat_app.ReadBuffer.{initial_buffer_size, receive_ok, receive_failed}
use axn_chat_app.Server.State.{
  Result, ok, err, ◌>>=◌, or_fault, out_of_bounds, out_of_fuel, ClientSession, ClientManager, deref,
  set_session,
}
use axn_chat_app.Server.Manager.{get_client_by_fd}
use axn_chat_app.Server.Handlers.{handle_client_disconnection, process_message}

abbrev pub set_read_buffer : ClientManager → ℕ → ClientSession → Bytes → ClientManager
set_read_buffer m p session buffer = set_session m p (record session { read_buffer = buffer })

module _ (host : Endian) where
  -- The body of a round, given the rounds that follow.
  abbrev pub process_next :
      (ClientManager → ℕ → Result ClientManager)
      → ClientManager
      → ℕ
      → ClientSession
      → Option Message
      → ℕ
      → Result ClientManager
  process_next next m p session none bytes_read = ok m
  process_next next m p session (some message) bytes_read = do
    processed ←
        process_message host (set_read_buffer m p session (drop bytes_read session.read_buffer)) p
          message
    next processed p

  -- The loop that deserializes and processes. `read_buffer` is a reference into the session, so
  -- each round reads the session; a round consumes a byte at least, and the fuel counts rounds.
  unfoldable pub process_loop : ℕ → ClientManager → ℕ → Result ClientManager
  process_loop zero m p = err out_of_fuel
  process_loop (suc fuel) m p = do
    session ← deref m p
    let (message, bytes_read) = deserialize_message host session.read_buffer
    process_next (process_loop fuel) m p session message bytes_read

  -- After the read loop there is one round for each message, and one that finds none.
  unfoldable pub process_buffer : ClientManager → ℕ → Result ClientManager
  unfolding process_loop
  process_buffer m p = do session ← deref m p; process_loop (suc (length session.read_buffer)) m p

  -- The loop that reads until the socket would block. Any other failure ends the connection.
  unfoldable pub read_loop : ClientManager → ℕ → ℕ → Reads → Result ClientManager
  unfolding process_buffer
  read_loop m p fd (chunk received reads) = do
    session ← deref m p
    buffer ← or_fault out_of_bounds (receive_ok initial_buffer_size session.read_buffer received)
    read_loop (set_read_buffer m p session buffer) p fd reads
  read_loop m p fd blocked = do
    session ← deref m p
    process_buffer
        (set_read_buffer m p session (receive_failed initial_buffer_size session.read_buffer)) p
  read_loop m p fd (ended status) = do
    session ← deref m p
    handle_client_disconnection host
        (set_read_buffer m p session (receive_failed initial_buffer_size session.read_buffer)) fd

  -- `handle_client_message` behind its lookup.
  abbrev pub read_found : ClientManager → ℕ → Reads → Option ℕ → Result ClientManager
  read_found m fd reads none = ok m
  read_found m fd reads (some p) = read_loop m p fd reads

  unfoldable pub handle_client_message : ClientManager → ℕ → Reads → Result ClientManager
  unfolding read_loop
  handle_client_message m fd reads = read_found m fd reads (get_client_by_fd m fd)
