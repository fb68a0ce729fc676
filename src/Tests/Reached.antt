-- ===== src/Tests/Reached.antt =====
-- A server that one client has come to and joined.
use axn_chat_app.Prelude.{
  false, ◌≡◌, ◌+◌, ◌<◌, ◌^◌, none, refl, true, some, [], ◌∷◌, codes, arith, same, replicate,
}
use axn_chat_app.Prelude.Map.{lookup, insert, erase}
use axn_chat_app.Prelude.Names
use axn_chat_app.Protocol.Words.{little, load_u32, ntohl, store_u32, htonl, swap_u32}
use axn_chat_app.Protocol.{
  new_message, to_byte, of_byte, copy_payload, deserialize_message, serialize_message,
}
use axn_chat_app.Socket.{chunk, blocked}
use axn_chat_app.Server.State.{Result, ok, err, ClientManager, ClientSession, deref, serialized}
use axn_chat_app.Server.Manager.{
  prepared, empty, add_client, broadcast_message, broadcast_loop, get_client_by_fd,
}
use axn_chat_app.Server.Handlers.{
  dispatch, process_join_message, accept_join, send_message, handle_new_connection, process_message,
}
use axn_chat_app.Server.Reading.{handle_client_message, read_loop, process_buffer, process_loop}
use axn_chat_app.ReadBuffer.{receive_ok, receive_failed, resize, write_at}
use axn_chat_app.Server.Broadcast.{session_at}
use axn_chat_app.Server.Outcome.{Connected}
use axn_chat_app.Server.Reachable.{Reach, starts, continues, accepts, receives}
use axn_chat_app.Tests.World.{join_bytes}

-- A connection, and a JOIN.
abbrev pub one : ClientManager
one = handle_new_connection (prepared 3 4) (10 ∷ [])

abbrev final_of : Result ClientManager → ClientManager
final_of (ok m) = m
final_of (err e) = empty

abbrev pub two : ClientManager
two = final_of (handle_client_message little one 10 (chunk join_bytes blocked))

one_reached : Reach little one
unfolding session_at lookup
one_reached =
    continues (prepared 3 4) one (starts 3 4) (accepts (prepared 3 4) 10 refl (omega arith))

joins : handle_client_message little one 10 (chunk join_bytes blocked) ≡ ok two
unfolding handle_client_message handle_new_connection add_client read_loop process_buffer
    process_loop deref receive_ok receive_failed resize write_at replicate lookup insert erase
    deserialize_message load_u32 ntohl of_byte process_message dispatch process_join_message
    accept_join send_message serialized serialize_message store_u32 htonl to_byte copy_payload
    broadcast_message broadcast_loop Names.contains Names.insert same new_message swap_u32
joins = refl

pub two_reached : Reach little two
two_reached = continues one two one_reached (receives one two 10 (chunk join_bytes blocked) joins)

-- The session then: its only client, joined under the name "al".
abbrev pub joined : ClientSession
joined = record {
  id = 1;
  socket = 10;
  username = codes "al";
  is_authenticated = true;
  read_buffer = [];
}

pub joined_session : session_at two 10 ≡ some joined
unfolding handle_client_message handle_new_connection add_client read_loop process_buffer
    process_loop deref receive_ok receive_failed resize write_at replicate lookup insert erase
    deserialize_message load_u32 ntohl of_byte process_message dispatch process_join_message
    accept_join send_message serialized serialize_message store_u32 htonl to_byte copy_payload
    broadcast_message broadcast_loop Names.contains Names.insert same new_message swap_u32
    session_at
joined_session = refl

pub joined_pointer : get_client_by_fd two 10 ≡ some 0
unfolding handle_client_message handle_new_connection add_client read_loop process_buffer
    process_loop deref receive_ok receive_failed resize write_at replicate lookup insert erase
    deserialize_message load_u32 ntohl of_byte process_message dispatch process_join_message
    accept_join send_message serialized serialize_message store_u32 htonl to_byte copy_payload
    broadcast_message broadcast_loop Names.contains Names.insert same new_message swap_u32
joined_pointer = refl

joined_object : lookup 0 two.sessions ≡ some joined
unfolding handle_client_message handle_new_connection add_client read_loop process_buffer
    process_loop deref receive_ok receive_failed resize write_at replicate lookup insert erase
    deserialize_message load_u32 ntohl of_byte process_message dispatch process_join_message
    accept_join send_message serialized serialize_message store_u32 htonl to_byte copy_payload
    broadcast_message broadcast_loop Names.contains Names.insert same new_message swap_u32
joined_object = refl

pub joined-Connected : Connected two 10 0 joined
joined-Connected = record { pointer = joined_pointer; object = joined_object; socket = refl }

-- Another connection.
abbrev pub three : ClientManager
three = handle_new_connection two (11 ∷ [])

abbrev pub newcomer : ClientSession
newcomer = record { id = 2; socket = 11; username = []; is_authenticated = false; read_buffer = [] }

three_connected :
    (session_at two 11 ≡ none)
    × (two.next_client_id + 1 < 2 ^ 32)
    × (lookup 10 three.session_by_fd ≡ some 0)
    × (lookup 0 three.sessions ≡ some joined)
    × (lookup 11 three.session_by_fd ≡ some 1)
    × (lookup 1 three.sessions ≡ some newcomer)
unfolding handle_client_message handle_new_connection add_client read_loop process_buffer
    process_loop deref receive_ok receive_failed resize write_at replicate lookup insert erase
    deserialize_message load_u32 ntohl of_byte process_message dispatch process_join_message
    accept_join send_message serialized serialize_message store_u32 htonl to_byte copy_payload
    broadcast_message broadcast_loop Names.contains Names.insert same new_message swap_u32
    session_at
three_connected = (refl, omega arith, refl, refl, refl, refl)

pub three_reached : Reach little three
three_reached = continues two three two_reached (accepts two 11 three_connected.0 three_connected.1)

pub joined_still-Connected : Connected three 10 0 joined
joined_still-Connected = record {
  pointer = three_connected.2;
  object = three_connected.3;
  socket = refl;
}

pub newcomer-Connected : Connected three 11 1 newcomer
newcomer-Connected = record {
  pointer = three_connected.4;
  object = three_connected.5;
  socket = refl;
}
