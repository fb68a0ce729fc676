-- ===== src/Server/Handlers.antt =====
-- The message handlers of `Server`: server/src/server.cpp. A handler that takes a `ClientSession&`
-- takes the session's address.
use axn_chat_app.Prelude.{
  ℕ, true, not, ◌&&◌, Option, none, some, List, [], ◌∷◌, ◌++◌, Bytes, codes, ◌==◌, if◌then◌else◌,
}
use axn_chat_app.Prelude.Decimal.{to_string}
use axn_chat_app.Protocol.Words.{Endian}
use axn_chat_app.Protocol.{
  Message, MessageType, server_id, broadcast_id, new_message, c2s_join, c2s_broadcast, c2s_private,
  c2s_leave, c2s_user_joined_list, s2c_join_success, s2c_join_failure, s2c_broadcast, s2c_private,
  s2c_user_joined, s2c_user_left, s2c_user_joined_list, s2c_error,
}
use axn_chat_app.Server.State.{
  Result, ok, ◌>>=◌, ClientSession, ClientManager, epoll_add, epoll_remove, set_non_blocking, deref,
  set_session, call, send_data, serialized,
}
use axn_chat_app.Server.Manager.{
  add_client, remove_client, get_client_by_id, get_client_by_fd, get_all_clients, add_username,
  is_username_taken, broadcast_message,
}

-- Serializes a message and hands it to a socket.
unfoldable pub send_message : Endian → ClientManager → ℕ → Message → Result ClientManager
send_message host m fd message = do bytes ← serialized host message; ok (send_data m fd bytes)

-- The descriptors are those that `accept_connection` returns until it returns null.
unfoldable pub handle_new_connection : ClientManager → List ℕ → ClientManager
handle_new_connection m [] = m
handle_new_connection m (fd ∷ fds) =
    handle_new_connection (call (add_client (call m (set_non_blocking fd)) fd).0 (epoll_add fd)) fds

-- The entries of the user list: `username:id` for each other authenticated client.
unfoldable pub user_entries : ClientManager → ℕ → List ℕ → Result (List Bytes)
user_entries m self [] = ok []
user_entries m self (p ∷ ps) = do
  client ← deref m p
  rest ← user_entries m self ps
  ok (
      if client.is_authenticated && not (client.id == self)
      then (client.username ++ (codes ":" ++ to_string client.id)) ∷ rest
      else rest)

abbrev pub pop_back : Bytes → Bytes
pop_back [] = []
pop_back (b ∷ []) = []
pop_back (b ∷ c ∷ rest) = b ∷ pop_back (c ∷ rest)

-- Each entry with a comma behind it.
unfoldable pub join_entries : List Bytes → Bytes
join_entries [] = []
join_entries (u ∷ us) = u ++ (codes "," ++ join_entries us)

module _ (host : Endian) where
  unfoldable pub announce_left : ClientManager → ClientSession → Result ClientManager
  announce_left m session =
      if session.is_authenticated
      then broadcast_message host m
          (new_message s2c_user_left session.id broadcast_id session.username) session.id
      else ok m

  -- `handle_client_disconnection` behind its lookup.
  abbrev pub disconnect_found : ClientManager → ℕ → Option ℕ → Result ClientManager
  disconnect_found m fd none = ok m
  disconnect_found m fd (some p) = do
    session ← deref m p
    told ← announce_left m session
    remove_client (call told (epoll_remove fd)) fd

  unfoldable pub handle_client_disconnection : ClientManager → ℕ → Result ClientManager
  handle_client_disconnection m fd = disconnect_found m fd (get_client_by_fd m fd)

  unfoldable pub reject_join : ClientManager → ClientSession → Result ClientManager
  unfolding send_message
  reject_join m session = do
    told ←
        send_message host m session.socket
          (new_message s2c_join_failure server_id session.id (codes "Username already exists"))
    handle_client_disconnection told session.socket

  unfoldable pub accept_join : ClientManager → ℕ → ClientSession → Bytes → Result ClientManager
  unfolding send_message
  accept_join m p session username = do
    let named = set_session m p (record session { username = username; is_authenticated = true })
    welcomed ← send_message host (add_username named username) session.socket (
        new_message s2c_join_success server_id session.id
          (codes "Welcome to the chat, " ++ (username ++ codes "!")))
    broadcast_message host welcomed (new_message s2c_user_joined session.id broadcast_id username)
        session.id

  unfoldable pub process_join_message : ClientManager → ℕ → Message → Result ClientManager
  unfolding reject_join accept_join
  process_join_message m p message = do
    session ← deref m p
    if session.is_authenticated
        then ok m
        else if is_username_taken m message.payload
        then reject_join m session
        else accept_join m p session message.payload

  unfoldable pub send_user_list : ClientManager → ClientSession → List Bytes → Result ClientManager
  unfolding send_message
  send_user_list m session [] = ok m
  send_user_list m session (u ∷ us) =
      send_message host m session.socket
        (new_message s2c_user_joined_list server_id session.id (pop_back (join_entries (u ∷ us))))

  unfoldable pub process_user_joined_list : ClientManager → ℕ → Result ClientManager
  unfolding user_entries send_user_list
  process_user_joined_list m p = do
    session ← deref m p
    user_list ← user_entries m session.id (get_all_clients m)
    send_user_list m session user_list

  unfoldable pub process_broadcast_message : ClientManager → ℕ → Message → Result ClientManager
  process_broadcast_message m p message = do
    session ← deref m p
    if session.is_authenticated
        then broadcast_message host m
            (new_message s2c_broadcast session.id broadcast_id message.payload) session.id
        else ok m

  unfoldable pub deliver_private :
      ClientManager → ClientSession → Message → Option ℕ → Result ClientManager
  unfolding send_message
  deliver_private m session message (some receiver) =
      if session.is_authenticated
      then (do
        receiver_session ← deref m receiver
        send_message host m receiver_session.socket
            (new_message s2c_private session.id message.header.receiver_id message.payload))
      else ok m
  deliver_private m session message none =
      send_message host m session.socket
        (new_message s2c_error server_id session.id (codes "Receiver not found or not connected."))

  unfoldable pub process_private_message : ClientManager → ℕ → Message → Result ClientManager
  unfolding deliver_private
  process_private_message m p message = do
    session ← deref m p
    deliver_private m session message (get_client_by_id m message.header.receiver_id)

  -- The `switch` of `process_message`.
  unfoldable pub dispatch : MessageType → ClientManager → ℕ → Message → Result ClientManager
  dispatch c2s_join m p message = process_join_message m p message
  dispatch c2s_user_joined_list m p message = process_user_joined_list m p
  dispatch c2s_broadcast m p message = process_broadcast_message m p message
  dispatch c2s_private m p message = process_private_message m p message
  dispatch c2s_leave m p message = do
    session ← deref m p
    handle_client_disconnection m session.socket
  dispatch _ m p message = ok m

  unfoldable pub process_message : ClientManager → ℕ → Message → Result ClientManager
  unfolding dispatch
  process_message m p message = dispatch message.header.type m p message
