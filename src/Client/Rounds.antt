-- ===== src/Client/Rounds.antt =====
-- `ChatClient::run_user_input_handler`: what a whole input does, while the receiver handles messages.
use axn_chat_app.Prelude.{
  ℕ, ◌+◌, ◌-◌, ◌≡◌, ◌≢◌, ◌⊎◌, refl, ◌∙◌, false, Option, none, some, List, [], ◌∷◌, ◌++◌, Bytes,
  codes, length, All, ◌==◌, same, Bool-cases, inl, inr, ==_iff,
}
use axn_chat_app.Protocol.{
  Message, MessageType, server_id, s2c_join_success, s2c_join_failure, s2c_user_joined,
  s2c_user_left, s2c_broadcast, s2c_private, s2c_user_joined_list,
}
use axn_chat_app.Client.Strings.{find, substr}
use axn_chat_app.Client.State.{
  Handled, done, throws, out_of_bounds, stuck, ◌>>=◌, disconnect, ChatClient, show,
}
use axn_chat_app.Prelude.Map.{Map}
use axn_chat_app.Client.Handlers.{with_users}
use axn_chat_app.Client.Binds.{bind-done}
use axn_chat_app.Client.Handlers.{
  receive, on_message_received, deliver, get_user_id_by_name, process_join_success,
  process_join_failure, process_user_joined, process_user_left, process_chat_message,
  process_user_joined_list,
}
use axn_chat_app.Client.Input.{InputRound, handle_line, private_input, send_private}

send_private-running :
    (c : ChatClient) (msg : Bytes) (o : Option ℕ) → (send_private c msg o).is_running ≡ c.is_running
send_private-running c msg none = refl
send_private-running c msg (some id) = refl

private_input-running :
    (c : ChatClient) (input : Bytes) (o : Option ℕ)
    → (private_input c input o).is_running ≡ c.is_running
private_input-running c input none = refl
private_input-running c input (some space) =
    send_private-running c (substr input (space + 1) (length input))
      (get_user_id_by_name c (substr input 1 (space - 1)))

pub handle_line-running :
    (c : ChatClient) (input : Bytes) → (handle_line c input).is_running ≡ c.is_running
unfolding handle_line
handle_line-running c [] = refl
handle_line-running c (b ∷ bs) = elim (Bool-cases (b == b'@')) [
  | inl at ↦ rw at (private_input-running c (b ∷ bs) (find b' ' (b ∷ bs)))
  | inr other ↦ rw other refl
]

-- A message that does not stop the client, and one that does.
abbrev pub IsHarmless : Message → Type 0
IsHarmless x =
    (x.header.type ≢ s2c_join_failure)
    × ((x.header.type ≢ s2c_user_left) ⊎ (x.header.sender_id ≢ server_id))

abbrev pub IsFinal : Message → Type 0
IsFinal x =
    (x.header.type ≡ s2c_join_failure)
    ⊎ ((x.header.type ≡ s2c_user_left) × (x.header.sender_id ≡ server_id))

with_users-running :
    (c handled : ChatClient) (users : Handled (Map Bytes))
    → with_users c users ≡ done handled
    → handled.is_running ≡ c.is_running
with_users-running c handled (done users) e = cc
with_users-running c handled throws e = cc
with_users-running c handled out_of_bounds e = cc
with_users-running c handled stuck e = cc

receive-running :
    (t : MessageType) (c handled : ChatClient) (x : Message)
    → t ≢ s2c_join_failure
    → (t ≢ s2c_user_left) ⊎ (x.header.sender_id ≢ server_id)
    → receive t c x ≡ done handled
    → handled.is_running ≡ c.is_running
unfolding process_join_success process_user_joined process_user_left process_chat_message
    process_user_joined_list
receive-running s2c_join_success c handled x h g e = cc
receive-running s2c_join_failure c handled x h g e = absurd (h refl)
receive-running s2c_user_joined c handled x h g e = cc
receive-running s2c_user_left c handled x h (inl other) e = absurd (other refl)
receive-running s2c_user_left c handled x h (inr other) e =
    elim (Bool-cases (x.header.sender_id == server_id)) [
      | inl here ↦ absurd (other ((==_iff x.header.sender_id server_id).0 here))
      | inr there ↦ let e' = rw there at e in cc
    ]
receive-running s2c_broadcast c handled x h g e = cc
receive-running s2c_private c handled x h g e = cc
receive-running s2c_user_joined_list c handled x h g e =
    with_users-running (show c (codes "[Server]: Current users in the chat:")) handled _ e
receive-running _ c handled x h g e = cc

pub deliver-running :
    (messages : List Message) (c handled : ChatClient)
    → All IsHarmless messages
    → deliver messages c ≡ done handled
    → handled.is_running ≡ c.is_running
unfolding deliver on_message_received
deliver-running [] c handled h e = cc
deliver-running (x ∷ xs) c handled h e =
    let (next, first, rest) = bind-done (on_message_received c x) (deliver xs) handled e in
    deliver-running xs next handled h.1 rest
    ∙ receive-running x.header.type c next x h.0.0 h.0.1 first

final-stops :
    (c handled : ChatClient) (x : Message)
    → IsFinal x
    → on_message_received c x ≡ done handled
    → handled.is_running ≡ false
unfolding on_message_received process_join_failure process_user_left
final-stops c handled x (inl refused) e = let e' = rw refused at e in cc
final-stops c handled x (inr (left, server)) e = let e' = rw (left, server) at e in cc

pub deliver-stops :
    (messages : List Message) (x : Message) (c handled : ChatClient)
    → IsFinal x
    → deliver (messages ++ x ∷ []) c ≡ done handled
    → handled.is_running ≡ false
unfolding deliver
deliver-stops [] x c handled h e =
    let (next, first, rest) = bind-done (on_message_received c x) (deliver []) handled e in
    let same : next ≡ handled = cc in rw (← same) (final-stops c next x h first)
deliver-stops (y ∷ ys) x c handled h e =
    let (next, first, rest) =
      bind-done (on_message_received c y) (deliver (ys ++ x ∷ [])) handled e in
    deliver-stops ys x next handled h rest

-- Rounds in which the client runs on: what is heard, what is heard while the line is waited for, and
-- what the line asks.
unfoldable pub handle_rounds : List InputRound → ChatClient → Handled ChatClient
handle_rounds [] c = done c
handle_rounds (round ∷ rounds) c = do
  heard ← deliver round.heard c
  later ← deliver round.meanwhile heard
  handle_rounds rounds (handle_line later round.input)

abbrev pub RunsOn : InputRound → Type 0
RunsOn round =
    All IsHarmless round.heard
    × All IsHarmless round.meanwhile
    × (same round.input (codes "/exit") ≡ false)

-- The end: the connection is asked to disconnect, the last messages are handled, and the client has
-- stopped.
abbrev pub goodbye : List Message → ChatClient → Handled (Option ChatClient)
goodbye last c = deliver last (record c { requests = c.requests ++ disconnect ∷ [] }) >>= λ stopped.
    done (some (record stopped { is_running = false }))
