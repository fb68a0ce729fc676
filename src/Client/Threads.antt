-- ===== src/Client/Threads.antt =====
-- The two threads of the client: `main` with `ChatClient::connect_and_join` and
-- `run_user_input_handler`, and `ServerConnection::receiver_loop` with the handlers of `ChatClient`.
-- They share the client, `connected_` and `count_mutex_`. A step is what one thread does between two
-- points at which the other is noticed: a lock that is taken, a flag that is read or set. A handler
-- that throws ends the program and has no step.
pub mod Safety
pub mod Lookup
pub mod Lost
use axn_chat_app.Prelude.{
  ℕ, ◌≡◌, Bool, true, false, not, ◌||◌, ◌⊎◌, Option, none, some, [], ◌∷◌, Bytes, codes, same, ◌==◌,
  if◌then◌else◌,
}
use axn_chat_app.Protocol.{
  Message, MessageType, server_id, s2c_user_joined, s2c_user_left, s2c_user_joined_list,
}
use axn_chat_app.Client.Strings.{find}
use axn_chat_app.Client.State.{
  done, ChatClient, new_client, connect, start_receiving, disconnect, request,
}
use axn_chat_app.Client.Handlers.{send_join_request, on_message_received}
use axn_chat_app.Client.Connection.{shutdown_msg}
use axn_chat_app.Client.Input.{handle_line}

pub data Thread : Type 0 where
  main_thread receiver_thread : Thread

-- Where `main` stands. `disconnecting` has cleared `connected_` and waits for the other thread, at
-- the end of the input handler or, with `false`, after a send that failed.
pub data MainPc : Type 0 where
  not_connected joining at_loop reading finished : MainPc
  wants_lock looks_up : Bytes → MainPc
  disconnecting : Bool → MainPc

-- Where the receiver stands: in front of the lock, in a handler that holds it, in one that takes
-- none, or between two messages.
pub data ReceiverPc : Type 0 where
  not_started receiving terminated : ReceiverPc
  wants_update updates acts : Message → ReceiverPc

pub record Client : Type 0 where
  pub client : ChatClient
  pub connected : Bool
  pub count_mutex : Option Thread
  pub main : MainPc
  pub receiver : ReceiverPc

-- A handler that takes `count_mutex_`.
unfoldable pub locks : MessageType → ℕ → Bool
locks s2c_user_joined sender = true
locks s2c_user_left sender = not (sender == server_id)
locks s2c_user_joined_list sender = true
locks _ sender = false

abbrev pub is_some : Option ℕ → Bool
is_some none = false
is_some (some n) = true

-- A line that looks a name up, and so takes `count_mutex_`.
unfoldable pub names_receiver : Bytes → Bool
names_receiver [] = false
names_receiver (b ∷ bs) = if b == b'@' then is_some (find b' ' (b ∷ bs)) else false

-- `connect_and_join` up to the start of the receiver.
abbrev pub started : ChatClient → ChatClient
started c = request (send_join_request (request c connect)) start_receiving

abbrev pub run_flag : ChatClient → Bool → ChatClient
run_flag c flag = record c { is_running = flag }

pub data Step (s : Client) : Client → Type 0 where
  fails_to_connect :
      s.main ≡ not_connected
      → Step s (record s { client = request s.client connect; main = finished })
  starts :
      s.main ≡ not_connected
      → Step s (record s {
        client = started s.client;
        connected = true;
        main = joining;
        receiver = receiving;
      })
  -- The end of `connect_and_join`.
  runs : s.main ≡ joining → Step s (record s { client = run_flag s.client true; main = at_loop })
  -- The flag is looked at in front of each line, and not again until the line is handled.
  reads_line : s.main ≡ at_loop → s.client.is_running ≡ true → Step s (record s { main = reading })
  enters_line :
      (input : Bytes)
      → s.main ≡ reading
      → same input (codes "/exit") ≡ false
      → names_receiver input ≡ false
      → Step s (record s { client = handle_line s.client input; main = at_loop })
  enters_name :
      (input : Bytes)
      → s.main ≡ reading
      → names_receiver input ≡ true
      → Step s (record s { main = wants_lock input })
  locks_map :
      (input : Bytes)
      → s.main ≡ wants_lock input
      → s.count_mutex ≡ none
      → Step s (record s { count_mutex = some main_thread; main = looks_up input })
  looks_name_up :
      (input : Bytes)
      → s.main ≡ looks_up input
      → Step s
          (record s { client = handle_line s.client input; count_mutex = none; main = at_loop })
  -- A send has failed, and `send_message` disconnects.
  fails_to_send :
      s.main ≡ at_loop → Step s (record s { connected = false; main = disconnecting false })
  exits :
      ((s.main ≡ at_loop) × (s.client.is_running ≡ false))
        ⊎ ((input : Bytes) × (s.main ≡ reading) × (same input (codes "/exit") ≡ true))
      → Step s (record s {
        client = request s.client disconnect;
        connected = false;
        main = disconnecting true;
      })
  joins_receiver :
      s.main ≡ disconnecting false → s.receiver ≡ terminated → Step s (record s { main = at_loop })
  leaves :
      s.main ≡ disconnecting true
      → s.receiver ≡ terminated
      → Step s (record s { client = run_flag s.client false; main = finished })
  receives :
      (message : Message)
      → s.receiver ≡ receiving
      → Step s (record s {
        receiver =
            if locks message.header.type message.header.sender_id
            then wants_update message
            else acts message;
      })
  locks_update :
      (message : Message)
      → s.receiver ≡ wants_update message
      → s.count_mutex ≡ none
      → Step s (record s { count_mutex = some receiver_thread; receiver = updates message })
  has_updated :
      (message : Message) (handled : ChatClient)
      → s.receiver ≡ updates message
      → on_message_received s.client message ≡ done handled
      → Step s (record s { client = handled; count_mutex = none; receiver = receiving })
  has_acted :
      (message : Message) (handled : ChatClient)
      → s.receiver ≡ acts message
      → on_message_received s.client message ≡ done handled
      → Step s (record s { client = handled; receiver = receiving })
  -- The connection is closed or fails, or the flag is false: the loop ends with its notice.
  terminates :
      (handled : ChatClient)
      → s.receiver ≡ receiving
      → on_message_received s.client shutdown_msg ≡ done handled
      → Step s (record s { client = handled; connected = false; receiver = terminated })

abbrev pub initial : Bytes → Client
initial username = record {
  client = new_client username;
  connected = false;
  count_mutex = none;
  main = not_connected;
  receiver = not_started;
}

-- The states that the program comes to.
pub data Reach (username : Bytes) : Client → Type 0 where
  start : Reach username (initial username)
  later : (s t : Client) → Reach username s → Step s t → Reach username t
