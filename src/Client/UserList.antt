-- ===== src/Client/UserList.antt =====
-- `ChatClient::process_user_joined_list` on the text that `Server::process_user_joined_list` sends.
use axn_chat_app.Prelude.{
  ℕ, suc, ◌+◌, ◌%◌, ◌^◌, ◌<◌, ◌≡◌, ◌≢◌, refl, ap, ◌∙◌, List, [], ◌∷◌, ◌++◌, map, Bytes, codes,
  length, drop, take, take-length_append, length-append, All, arith,
}
use axn_chat_app.Prelude.Map.{Map, insert}
use axn_chat_app.Prelude.Decimal.{to_string}
use axn_chat_app.Protocol.{Message}
use axn_chat_app.Server.State.{ClientSession}
use axn_chat_app.Server.Roster.{entry, user_text}
use axn_chat_app.Client.State.{done, ChatClient}
use axn_chat_app.Client.Handlers.{enter_user, process_user_joined_list}
use axn_chat_app.Client.Split.{split, enter_users, take_all, split-one, split-append, find-append}
use axn_chat_app.Client.Pieces.{enter_user-separated, user_list_pieces}
use axn_chat_app.Client.Numbers.{stoul-to_string, to_string-without}

-- A name that the list's text can carry.
abbrev pub IsPlain : Bytes → Type 0
IsPlain name = All (λ b. b ≢ b',') name × All (λ b. b ≢ b':') name

abbrev pub IsListable : ClientSession → Type 0
IsListable s = IsPlain s.username × (s.id < 2 ^ 32)

drop_behind : (xs : Bytes) (c : ℕ) (ys : Bytes) → drop (length xs + 1) (xs ++ c ∷ ys) ≡ ys
drop_behind [] c ys = refl
drop_behind (x ∷ xs) c ys =
    let e : suc (length xs) + 1 ≡ suc (length xs + 1) = omega arith in rw e (drop_behind xs c ys)

enter_user-entry :
    (users : Map Bytes) (s : ClientSession)
    → IsListable s
    → enter_user users (entry s) ≡ done (insert s.id s.username users)
unfolding entry
enter_user-entry users s h =
    let behind = to_string s.id in
    let w = s.username ++ b':' ∷ behind in
    let at = find-append b':' s.username behind h.0.1 in
    let name = take-length_append s.username (b':' ∷ behind) in
    let number : take (length w) behind ≡ behind =
      take_all (length w) behind (omega (arith, length-append s.username (b':' ∷ behind))) in
    let cut : s.id % 2 ^ 32 ≡ s.id = omega (arith, h.1) in
    rw
      (
        enter_user-separated users w,
        at,
        name,
        drop_behind s.username b':' behind,
        number,
        stoul-to_string s.id (omega (arith, h.1)),
        cut,
      )
      refl

All-append : (P : ℕ → Type 0) (xs ys : Bytes) → All P xs → All P ys → All P (xs ++ ys)
All-append P [] ys h k = k
All-append P (x ∷ xs) ys h k = (h.0, All-append P xs ys h.1 k)

entry-All : (s : ClientSession) → IsListable s → All (λ b. b ≢ b',') (entry s)
unfolding entry
entry-All s h =
    All-append (λ b. b ≢ b',') s.username (b':' ∷ to_string s.id) h.0.0
      ((λ e. ground arith), to_string-without b',' s.id refl)

split-user_text :
    (s : ClientSession) (rest : List ClientSession)
    → All IsListable (s ∷ rest)
    → split b',' (user_text (s ∷ rest)) ≡ map entry (s ∷ rest)
unfolding user_text
split-user_text s [] h = split-one b',' (entry s) (entry-All s h.0)
split-user_text s (t ∷ rest) h =
    split-append b',' (entry s) (user_text (t ∷ rest)) (entry-All s h.0)
    ∙ ap (λ w. entry s ∷ w) (split-user_text t rest h.1)

-- The map of the sessions' names by id.
unfoldable pub roster : List ClientSession → Map Bytes → Map Bytes
roster [] users = users
roster (s ∷ rest) users = roster rest (insert s.id s.username users)

enter_users-entries :
    (ss : List ClientSession) (users : Map Bytes)
    → All IsListable ss
    → enter_users (map entry ss) users ≡ done (roster ss users)
unfolding enter_users roster
enter_users-entries [] users h = refl
enter_users-entries (s ∷ rest) users h =
    rw (enter_user-entry users s h.0) (enter_users-entries rest (insert s.id s.username users) h.1)

roster-split :
    (ss : List ClientSession)
    → All IsListable ss
    → enter_users (split b',' (user_text ss)) [] ≡ done (roster ss [])
unfolding enter_users enter_user roster user_text split
roster-split [] h = refl
roster-split (s ∷ rest) h = rw (split-user_text s rest h) (enter_users-entries (s ∷ rest) [] h)

-- The server's list of some sessions, read by the client, gives the map of their names by id, if
-- no name has a comma or a colon and the ids are 32 bits wide; nothing else of the client changes
-- but the line shown.
pub user_list_round_trip :
    (c : ChatClient) (message : Message) (ss : List ClientSession)
    → message.payload ≡ user_text ss
    → All IsListable ss
    → process_user_joined_list c message
      ≡ done (record c {
        user_map = roster ss [];
        shown = c.shown ++ codes "[Server]: Current users in the chat:" ∷ [];
      })
user_list_round_trip c message ss e h =
    (user_list_pieces c message).0 ∙ rw (e, roster-split ss h) refl
