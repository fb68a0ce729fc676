-- ===== src/Client/Commands.antt =====
-- `ChatClient::run_user_input_handler`: private messages.
use axn_chat_app.Prelude.{
  ℕ, suc, ◌+◌, ◌-◌, ◌≡◌, ◌≢◌, refl, some, [], ◌∷◌, ◌++◌, Bytes, length, length-append, take,
  take-length_append, drop, All, same, same-eq, same_self, Bool-cases, inl, inr, arith,
}
use axn_chat_app.Prelude.Map.{Map, lookup, Distinct}
use axn_chat_app.Protocol.{new_message, c2s_private}
use axn_chat_app.Client.State.{ChatClient, send}
use axn_chat_app.Client.Handlers.{find_name, get_user_id_by_name}
use axn_chat_app.Client.Input.{handle_line}
use axn_chat_app.Client.Split.{find-append, take_all}

find_name-lookup :
    (name : Bytes) (users : Map Bytes) (id : ℕ)
    → Distinct users
    → find_name name users ≡ some id
    → lookup id users ≡ some name
unfolding find_name lookup
find_name-lookup name [] id d h = cc
find_name-lookup name ((j, n) ∷ rest) id d h =
    ground (arith, find_name-lookup name rest id d.1, same-eq n name, d.0)

lookup-find_name :
    (name : Bytes) (users : Map Bytes) (id : ℕ)
    → lookup id users ≡ some name
    → (j : ℕ) × (find_name name users ≡ some j)
unfolding find_name lookup
lookup-find_name name [] id h = cc
lookup-find_name name ((j, n) ∷ rest) id h = elim (Bool-cases (same n name)) [
  | inl here ↦ (j, rw here refl)
  | inr there ↦
      let behind : lookup id rest ≡ some name = ground (arith, same_self name) in
      let (i, found) = lookup-find_name name rest id behind in (i, rw there found)
]

drop_behind : (xs : Bytes) (c : ℕ) (ys : Bytes) → drop (suc (length xs)) (xs ++ c ∷ ys) ≡ ys
drop_behind [] c ys = refl
drop_behind (x ∷ xs) c ys = drop_behind xs c ys

-- A line `@name text`, where the map has the name, is sent as a private message with that text to
-- an id whose name it is, and nothing else changes. The name has no space, and the map has no id
-- twice.
pub private_line :
    (c : ChatClient) (name text : Bytes) (id : ℕ)
    → All (λ b. b ≢ b' ') name
    → Distinct c.user_map
    → lookup id c.user_map ≡ some name
    → (receiver : ℕ) × (lookup receiver c.user_map ≡ some name)
      × (handle_line c (b'@' ∷ name ++ b' ' ∷ text) ≡ record c {
        requests = c.requests ++ send (new_message c2s_private c.user_id receiver text) ∷ [];
      })
unfolding handle_line get_user_id_by_name
private_line c name text id h d known =
    let (receiver, first) = lookup-find_name name c.user_map id known in
    let space = find-append b' ' (b'@' ∷ name) text ((λ e. ground arith), h) in
    let name_part = take-length_append name (b' ' ∷ text) in
    let behind = drop_behind name b' ' text in
    let next : suc (length name) + 1 ≡ suc (suc (length name)) = omega arith in
    let one : suc (length name) - 1 ≡ length name = omega arith in
    let all_text : take (length (b'@' ∷ name ++ b' ' ∷ text)) text ≡ text =
      take_all (length (b'@' ∷ name ++ b' ' ∷ text)) text
        (omega (arith, length-append name (b' ' ∷ text))) in
    (
      receiver,
      find_name-lookup name c.user_map receiver d first,
      rw (space, next, one, name_part, behind, first, all_text) refl,
    )
