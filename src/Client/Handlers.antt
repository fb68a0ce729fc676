-- ===== src/Client/Handlers.antt =====
-- `ChatClient::on_message_received` and the handlers under it: client/src/chat_client.cpp.
use axn_chat_app.Prelude.{
  ℕ, zero, suc, ◌+◌, ◌-◌, ◌%◌, ◌^◌, Bool, true, false, Option, none, some, List, [], ◌∷◌, ◌++◌,
  Bytes, codes, length, ltb, ◌==◌, if◌then◌else◌, same,
}
use axn_chat_app.Prelude.Map.{Map, lookup, insert, erase}
use axn_chat_app.Prelude.Decimal.{to_string}
use axn_chat_app.Protocol.{
  Message, MessageType, server_id, invalid_id, new_message, c2s_join, c2s_user_joined_list,
  s2c_join_success, s2c_join_failure, s2c_user_joined, s2c_user_left, s2c_broadcast, s2c_private,
  s2c_user_joined_list,
}
use axn_chat_app.Client.Strings.{find, find_from, substr, stoul}
use axn_chat_app.Client.State.{
  Handled, done, throws, out_of_bounds, stuck, ◌>>=◌, connect, start_receiving, send, ChatClient,
  request, show,
}

unfoldable pub send_join_request : ChatClient → ChatClient
send_join_request c = request c (send (new_message c2s_join invalid_id server_id c.username))

unfoldable pub request_list_of_users : ChatClient → ChatClient
request_list_of_users c = request c (send (new_message c2s_user_joined_list c.user_id server_id []))

unfoldable pub process_join_success : ChatClient → Message → ChatClient
process_join_success c message =
    let id = message.header.receiver_id in
    show (record c { user_id = id; user_map = insert id c.username c.user_map })
      (codes "[Server]: "
        ++ (message.payload ++ (codes " (Your ID: " ++ (to_string id ++ codes ")"))))

unfoldable pub process_join_failure : ChatClient → Message → ChatClient
process_join_failure c message =
    show (record c { is_running = false }) (codes "[Server Error]: " ++ message.payload)

unfoldable pub process_user_joined : ChatClient → Message → ChatClient
process_user_joined c message =
    show (record c { user_map = insert message.header.sender_id message.payload c.user_map })
      (codes "[Server]: User '" ++ (message.payload ++ codes "' has joined the chat."))

unfoldable pub process_user_left : ChatClient → Message → ChatClient
process_user_left c message =
    if message.header.sender_id == server_id
    then record (show c (codes "You have left the chat.")) { is_running = false }
    else show (record c { user_map = erase message.header.sender_id c.user_map })
        (codes "[Server]: User '" ++ (message.payload ++ codes "' has left the chat."))

abbrev pub name_or_unknown : Option Bytes → Bytes
name_or_unknown none = codes "Unknown"
name_or_unknown (some name) = name

unfoldable pub process_chat_message : ChatClient → Message → ChatClient
process_chat_message c message = show c (
    codes "@"
    ++ (name_or_unknown (lookup message.header.sender_id c.user_map)
        ++ (codes "> " ++ message.payload)))

-- The number of an entry is cut to 32 bits.
abbrev pub enter_number : Map Bytes → Bytes → Option ℕ → Handled (Map Bytes)
enter_number users username none = throws
enter_number users username (some user_id) = done (insert (user_id % 2 ^ 32) username users)

-- An entry without a separator is passed over.
abbrev pub enter_separated : Map Bytes → Bytes → Option ℕ → Handled (Map Bytes)
enter_separated users user_entry none = done users
enter_separated users user_entry (some separator) =
    enter_number users (substr user_entry 0 separator)
      (stoul (substr user_entry (separator + 1) (length user_entry)))

-- One entry of the list. An empty one is passed over.
unfoldable pub enter_user : Map Bytes → Bytes → Handled (Map Bytes)
enter_user users [] = done users
enter_user users (b ∷ bs) = enter_separated users (b ∷ bs) (find b':' (b ∷ bs))

abbrev pub or_else {ℓ} : {A : Type ℓ} → Option A → A → A
or_else none d = d
or_else (some a) d = a

abbrev pub then_with : Handled (Map Bytes) → (Map Bytes → Handled (Map Bytes)) → Handled (Map Bytes)
then_with (done users) next = next users
then_with throws next = throws
then_with out_of_bounds next = out_of_bounds
then_with stuck next = stuck

-- The loop over the payload, from `pos`; each round goes at least one byte on.
unfoldable pub user_list_loop : ℕ → Bytes → ℕ → Map Bytes → Handled (Map Bytes)
unfolding enter_user
user_list_loop zero payload pos users = stuck
user_list_loop (suc fuel) payload pos users =
    let next_pos = or_else (find_from b',' payload pos) (length payload) in
    let rest = user_list_loop fuel payload (next_pos + 1) in
    if ltb pos (length payload)
    then then_with (enter_user users (substr payload pos (next_pos - pos))) rest
    else done users

abbrev pub with_users : ChatClient → Handled (Map Bytes) → Handled ChatClient
with_users c (done users) = done (record c { user_map = users })
with_users c throws = throws
with_users c out_of_bounds = out_of_bounds
with_users c stuck = stuck

unfoldable pub process_user_joined_list : ChatClient → Message → Handled ChatClient
unfolding user_list_loop
process_user_joined_list c message =
    with_users (show c (codes "[Server]: Current users in the chat:"))
      (user_list_loop (suc (length message.payload)) message.payload 0 [])

-- An error and a message of another type are logged and change nothing.
abbrev pub receive : MessageType → ChatClient → Message → Handled ChatClient
receive s2c_join_success c message = done (process_join_success c message)
receive s2c_join_failure c message = done (process_join_failure c message)
receive s2c_user_joined c message = done (process_user_joined c message)
receive s2c_user_left c message = done (process_user_left c message)
receive s2c_broadcast c message = done (process_chat_message c message)
receive s2c_private c message = done (process_chat_message c message)
receive s2c_user_joined_list c message = process_user_joined_list c message
receive _ c message = done c

unfoldable pub on_message_received : ChatClient → Message → Handled ChatClient
on_message_received c message = receive message.header.type c message

-- The messages handled one after the other.
unfoldable pub deliver : List Message → ChatClient → Handled ChatClient
deliver [] client = done client
deliver (message ∷ messages) client = on_message_received client message >>= deliver messages

-- The Boolean is what `ServerConnection::connect` returns, and the messages are those that the
-- receiver handles between its start and the setting of the flag.
unfoldable pub connect_and_join : ChatClient → Bool → List Message → Handled (ChatClient × Bool)
unfolding send_join_request
connect_and_join c false early = done (request c connect, false)
connect_and_join c true early = do
  heard ← deliver early (request (send_join_request (request c connect)) start_receiving)
  done (record heard { is_running = true }, true)

-- The first entry of the map with that name.
unfoldable pub find_name : Bytes → Map Bytes → Option ℕ
find_name username [] = none
find_name username ((id, name) ∷ rest) =
    let behind = find_name username rest in if same name username then some id else behind

unfoldable pub get_user_id_by_name : ChatClient → Bytes → Option ℕ
unfolding find_name
get_user_id_by_name c username = find_name username c.user_map
