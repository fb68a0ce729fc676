-- ===== src/Client/Input.antt =====
-- `ChatClient::run_user_input_handler`: client/src/chat_client.cpp.
use axn_chat_app.Prelude.{
  ℕ, ◌+◌, ◌-◌, false, Option, none, some, List, [], ◌∷◌, Bytes, codes, length, ◌==◌, if◌then◌else◌,
  same,
}
use axn_chat_app.Protocol.{Message, broadcast_id, new_message, c2s_broadcast, c2s_private}
use axn_chat_app.Client.Strings.{find, substr}
use axn_chat_app.Client.State.{Handled, done, ◌>>=◌, send, disconnect, ChatClient, request}
use axn_chat_app.Client.Handlers.{deliver, get_user_id_by_name}

-- A private message goes to the id of its name; an unknown name is logged.
abbrev pub send_private : ChatClient → Bytes → Option ℕ → ChatClient
send_private c msg none = c
send_private c msg (some user_id) = request c (send (new_message c2s_private c.user_id user_id msg))

-- A private message needs a space behind the name, else it is logged.
abbrev pub private_input : ChatClient → Bytes → Option ℕ → ChatClient
private_input c input none = c
private_input c input (some space) =
    send_private c (substr input (space + 1) (length input))
      (get_user_id_by_name c (substr input 1 (space - 1)))

-- What is done with a line that is not the command to leave.
unfoldable pub handle_line : ChatClient → Bytes → ChatClient
handle_line c [] = c
handle_line c (b ∷ bs) =
    if b == b'@'
    then private_input c (b ∷ bs) (find b' ' (b ∷ bs))
    else request c (send (new_message c2s_broadcast c.user_id broadcast_id (b ∷ bs)))

-- A round of the loop: the messages that the receiver handles before the flag is looked at and, where
-- the client runs, while the line is waited for; and the line.
pub record InputRound : Type 0 where
  pub heard : List Message
  pub meanwhile : List Message
  pub input : Bytes

-- After the loop. `disconnect` waits for the receiver, which may handle these messages until it ends.
abbrev pub shut_down : List Message → ChatClient → Handled ChatClient
shut_down last c = do
  heard ← deliver last (request c disconnect)
  done (record heard { is_running = false })

abbrev pub ended : List Message → ChatClient → Handled (Option ChatClient)
ended last c = do stopped ← shut_down last c; done (some stopped)

-- The client runs, and a line is read.
abbrev pub read_line :
    (ChatClient → Handled (Option ChatClient))
    → List Message
    → InputRound
    → ChatClient
    → Handled (Option ChatClient)
read_line next last round c = do
  heard ← deliver round.meanwhile c
  let rest = next (handle_line heard round.input)
  if same round.input (codes "/exit") then ended last heard else rest

abbrev pub next_round :
    (ChatClient → Handled (Option ChatClient))
    → List Message
    → InputRound
    → ChatClient
    → Handled (Option ChatClient)
next_round next last round c = do
  heard ← deliver round.heard c
  if heard.is_running then read_line next last round heard else ended last heard

-- `none` where the loop waits for another line.
unfoldable pub run_user_input_handler :
    List Message → List InputRound → ChatClient → Handled (Option ChatClient)
run_user_input_handler last [] c = if c.is_running then done none else ended last c
run_user_input_handler last (round ∷ rounds) c =
    next_round (run_user_input_handler last rounds) last round c
