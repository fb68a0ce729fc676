-- ===== src/Client/Pieces.antt =====
-- `ChatClient::process_user_joined_list` on any payload: its loop, and the pieces between commas.
use axn_chat_app.Prelude.{
  ℕ, suc, ◌+◌, ◌≡◌, ◌≢◌, refl, ap, Option, none, some, List, [], ◌∷◌, Bytes, codes, length, arith,
}
use axn_chat_app.Prelude.Map.{Map}
use axn_chat_app.Protocol.{Message}
use axn_chat_app.Client.Strings.{find, substr, stoul}
use axn_chat_app.Client.State.{Handled, done, throws, out_of_bounds, stuck, ChatClient, show}
use axn_chat_app.Client.Handlers.{
  enter_user, enter_separated, enter_number, then_with, with_users, user_list_loop,
  process_user_joined_list,
}
use axn_chat_app.Client.Split.{split, enter_users, loop-split}

-- The state that the client has once its header line is shown.
abbrev headed : ChatClient → ChatClient
headed c = show c (codes "[Server]: Current users in the chat:")

pub enter_user-separated :
    (users : Map Bytes) (w : Bytes) → enter_user users w ≡ enter_separated users w (find b':' w)
unfolding enter_user find
enter_user-separated users [] = refl
enter_user-separated users (b ∷ bs) = refl

enter_number-ends :
    (users : Map Bytes) (name : Bytes) (o : Option ℕ) → enter_number users name o ≢ stuck
enter_number-ends users name none h = cc
enter_number-ends users name (some id) h = cc

enter_separated-ends :
    (users : Map Bytes) (w : Bytes) (o : Option ℕ) → enter_separated users w o ≢ stuck
enter_separated-ends users w none h = cc
enter_separated-ends users w (some k) h =
    enter_number-ends users (substr w 0 k) (stoul (substr w (k + 1) (length w))) h

then_with-ends :
    (x : Handled (Map Bytes)) {f : Map Bytes → Handled (Map Bytes)}
    → x ≢ stuck
    → ((users : Map Bytes) → f users ≢ stuck)
    → then_with x f ≢ stuck
then_with-ends (done users) h k = k users
then_with-ends throws h k = h
then_with-ends out_of_bounds h k = h
then_with-ends stuck h k = h

enter_users-ends : (ws : List Bytes) (users : Map Bytes) → enter_users ws users ≢ stuck
unfolding enter_users
enter_users-ends [] users = λ h. cc
enter_users-ends (w ∷ ws) users =
    then_with-ends (enter_user users w)
      (rw (enter_user-separated users w) (enter_separated-ends users w (find b':' w)))
      (enter_users-ends ws)

with_users-ends : (c : ChatClient) (x : Handled (Map Bytes)) → x ≢ stuck → with_users c x ≢ stuck
with_users-ends c (done users) h = λ e. cc
with_users-ends c throws h = λ e. cc
with_users-ends c out_of_bounds h = λ e. cc
with_users-ends c stuck h = λ e. h refl

-- The client's loop over the list of users ends, and does what entering the pieces between the
-- commas does, one after the other.
pub user_list_pieces :
    (c : ChatClient) (message : Message)
    → (process_user_joined_list c message
        ≡ with_users
            (show c (codes "[Server]: Current users in the chat:"))
            (enter_users (split b',' message.payload) []))
      × (process_user_joined_list c message ≢ stuck)
unfolding process_user_joined_list
user_list_pieces c message =
    let walked = loop-split (suc (length message.payload)) message.payload 0 [] (omega arith) in
    (
      ap (with_users (headed c)) walked,
      with_users-ends (headed c)
          (user_list_loop (suc (length message.payload)) message.payload 0 [])
          (rw walked (enter_users-ends (split b',' message.payload) [])),
    )
