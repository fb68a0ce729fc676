-- ===== src/Main/Client.antt =====
-- `main` of the client: client/src/main.cpp.
use axn_chat_app.Prelude.{
  ◌||◌, Bool, true, false, Option, none, some, List, [], ◌∷◌, Bytes, codes, length, ltb, ◌==◌,
  if◌then◌else◌,
}
use axn_chat_app.Main.{ℤ, Stoi, value, invalid_argument, out_of_range, stoi}
use axn_chat_app.Client.State.{Handled, done, ◌>>=◌, ChatClient, new_client, show}
use axn_chat_app.Client.Handlers.{deliver, connect_and_join, request_list_of_users}
use axn_chat_app.Client.Input.{InputRound, run_user_input_handler}
use axn_chat_app.Protocol.{Message}

-- `main` returns 1 with these lines on the two streams; or it has built this client and returns 0;
-- or the client waits for another line of the user.
pub data ClientRun : Type 0 where
  refused : List Bytes → List Bytes → ClientRun
  returned : ChatClient → ClientRun
  reads_on : ClientRun

abbrev pub help : List Bytes
help =
    codes "Usage: chat_client <host_ip> <port> <username>"
    ∷ codes "  host_ip   - The IP address of the chat server."
    ∷ codes "  port      - The listening port number of the chat server."
    ∷ codes "  username  - Your username for the chat."
    ∷ []

-- The client shares the output with its program.
abbrev pub show_send_private_message_guide : ChatClient → ChatClient
show_send_private_message_guide c =
    show (show c (codes "To send a private message, type '@<username> <message>'"))
      (codes "Example: '@john Hello, how are you?'")

abbrev pub after_input : Option ChatClient → ClientRun
after_input none = reads_on
after_input (some c) = returned c

-- What happens to a client that has connected: the messages that the receiver handles before the
-- client is marked as running, those before the users are asked for, the rounds of the input loop,
-- and the messages while the connection ends.
pub record Session : Type 0 where
  pub early : List Message
  pub opening : List Message
  pub rounds : List InputRound
  pub last : List Message

abbrev pub session : ChatClient × Bool → Session → Handled ClientRun
session (c, false) happens = done (returned c)
session (c, true) happens = do
  heard ← deliver happens.opening (show_send_private_message_guide c)
  input ← run_user_input_handler happens.last happens.rounds (request_list_of_users heard)
  done (after_input input)

module _ (connects : Bytes → ℤ → Bool) where
  -- `connects` is what `ServerConnection::connect` returns for a host and a port.
  abbrev pub start : Bytes → ℤ → Bytes → Session → Handled ClientRun
  start host port username happens =
      if length username == 0 || ltb 32 (length username)
      then done (refused [] (codes "Error: Username must be between 1 and 32 characters." ∷ []))
      else do
        joined ← connect_and_join (new_client username) (connects host port) happens.early
        session joined happens

  abbrev pub start_parsed : Bytes → Stoi → Bytes → Session → Handled ClientRun
  start_parsed host (value port) username happens = start host port username happens
  start_parsed host invalid_argument username happens =
      done (refused [] (codes "Error: Invalid port number." ∷ []))
  start_parsed host out_of_range username happens =
      done (refused [] (codes "Error: Port number out of range." ∷ []))

  -- The arguments of the program, and what happens if it connects. An exception in the receiver ends
  -- the program, and so is the result.
  unfoldable pub main : List Bytes → Session → Handled ClientRun
  main (name ∷ host ∷ port ∷ username ∷ []) happens = start_parsed host (stoi port) username happens
  main argv happens = done (refused help [])
