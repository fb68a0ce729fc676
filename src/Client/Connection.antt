-- ===== src/Client/Connection.antt =====
-- `ServerConnection::receiver_loop`: client/src/server_connection.cpp.
use axn_chat_app.Prelude.{ℕ, zero, suc, Option, none, some, List, [], ◌∷◌, Bytes, length, drop}
use axn_chat_app.Protocol.Words.{Endian}
use axn_chat_app.Protocol.{Message, server_id, default_message, deserialize_message, s2c_user_left}
use axn_chat_app.Socket.{SocketStatus, closed, error}
use axn_chat_app.ReadBuffer.{initial_buffer_size, receive_ok, receive_failed}
use axn_chat_app.Client.State.{Handled, done, out_of_bounds, stuck, ◌>>=◌, ChatClient}
use axn_chat_app.Client.Handlers.{on_message_received}

-- A round of the loop as it finds the connection: `raw_receive` returns `OK` with these bytes, or
-- another status; or `disconnect` has been called and the flag is false.
pub data Round : Type 0 where
  received : Bytes → Round
  failed : SocketStatus → Round
  disconnected : Round

-- The loop waits for another round with what its buffer holds, or its thread has ended.
pub data Receiver : Type 0 where
  waiting : Bytes → ChatClient → Receiver
  terminated : ChatClient → Receiver

abbrev pub or_outside {ℓ} : {A : Type ℓ} → Option A → Handled A
or_outside none = out_of_bounds
or_outside (some a) = done a

-- The message is handled before its bytes are erased.
abbrev pub deliver_next :
    (Bytes → ChatClient → Handled (Bytes × ChatClient))
    → Bytes
    → ChatClient
    → Option Message
    → ℕ
    → Handled (Bytes × ChatClient)
deliver_next next buffer client none bytes_consumed = done (buffer, client)
deliver_next next buffer client (some message) bytes_consumed = do
  handled ← on_message_received client message
  next (drop bytes_consumed buffer) handled

-- The message that the loop sends to the client at its end.
abbrev pub shutdown_msg : Message
shutdown_msg = record default_message {
  header = record default_message.header { type = s2c_user_left; sender_id = server_id };
}

module _ (host : Endian) where
  -- The inner loop. The fuel counts messages.
  unfoldable pub deliver_loop : ℕ → Bytes → ChatClient → Handled (Bytes × ChatClient)
  deliver_loop zero buffer client = stuck
  deliver_loop (suc fuel) buffer client =
      let (message, bytes_consumed) = deserialize_message host buffer in
      deliver_next (deliver_loop fuel) buffer client message bytes_consumed

  -- With fuel for a message in each byte, and for the round that finds none.
  abbrev pub deliver_buffer : Bytes → ChatClient → Handled (Bytes × ChatClient)
  deliver_buffer buffer client = deliver_loop (suc (length buffer)) buffer client

  abbrev pub terminate : ChatClient → Handled Receiver
  terminate client = do
    notified ← on_message_received client shutdown_msg
    done (terminated notified)

  unfoldable pub receiver_loop : List Round → Bytes → ChatClient → Handled Receiver
  unfolding deliver_loop
  receiver_loop [] buffer client = done (waiting buffer client)
  receiver_loop (disconnected ∷ rounds) buffer client = terminate client
  receiver_loop (received bytes ∷ rounds) buffer client = do
    filled ← or_outside (receive_ok initial_buffer_size buffer bytes)
    (left, handled) ← deliver_buffer filled client
    receiver_loop rounds left handled
  receiver_loop (failed closed ∷ rounds) buffer client = terminate client
  receiver_loop (failed error ∷ rounds) buffer client = terminate client
  receiver_loop (failed status ∷ rounds) buffer client = do
    (left, handled) ← deliver_buffer (receive_failed initial_buffer_size buffer) client
    receiver_loop rounds left handled
