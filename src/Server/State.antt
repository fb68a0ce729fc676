-- ===== src/Server/State.antt =====
-- The state that the server's handlers work on: `ClientSession` (server/include/server/
-- client_session.h) and the fields of `ClientManager` (server/include/server/client_manager.h).
--
-- A session is an object on the heap. `sessions` holds the live ones by their address, and both
-- maps of the manager hold addresses, as the code's maps hold pointers to one object. Reading an
-- address that is not live is a fault. `calls` records every call that leaves the program, in
-- order; the code looks at the result of none of them.
use axn_chat_app.Prelude.{ℕ, Bool, Option, none, some, List, [], ◌∷◌, ◌++◌, Bytes}
use axn_chat_app.Prelude.Map.{Map, lookup, insert, erase}
use axn_chat_app.Protocol.Words.{Endian}
use axn_chat_app.Protocol.{Message, serialize_message}

pub data Fault : Type 0 where
  use_after_free out_of_bounds out_of_fuel : Fault

pub data Result {ℓ} (A : Type ℓ) : Type ℓ where
  ok : A → Result A
  err : Fault → Result A

infixl 5 ◌>>=◌
abbrev pub ◌>>=◌ {ℓ κ} : {A : Type ℓ} {B : Type κ} → Result A → (A → Result B) → Result B
ok a >>= f = f a
err e >>= f = err e

abbrev pub or_fault {ℓ} : {A : Type ℓ} → Fault → Option A → Result A
or_fault e none = err e
or_fault e (some a) = ok a

-- `socket_` is never null and keeps its descriptor while the session lives: it is the descriptor.
pub record ClientSession : Type 0 where
  pub id : ℕ
  pub socket : ℕ
  pub username : Bytes
  pub is_authenticated : Bool
  pub read_buffer : Bytes

pub data Call : Type 0 where
  send : ℕ → Bytes → Call
  set_non_blocking epoll_add epoll_remove close : ℕ → Call

pub record ClientManager : Type 0 where
  pub next_client_id : ℕ
  pub session_by_fd : Map ℕ
  pub session_by_id : Map ℕ
  pub usernames : List Bytes
  pub sessions : Map ClientSession
  pub next_address : ℕ
  pub calls : List Call

-- The session behind a pointer.
unfoldable pub deref : ClientManager → ℕ → Result ClientSession
deref m p = or_fault use_after_free (lookup p m.sessions)

-- A write through a pointer to a live session.
abbrev pub set_session : ClientManager → ℕ → ClientSession → ClientManager
set_session m p s = record m { sessions = insert p s m.sessions }

abbrev pub call : ClientManager → Call → ClientManager
call m c = record m { calls = m.calls ++ c ∷ [] }

-- `send_data` of a session's socket.
abbrev pub send_data : ClientManager → ℕ → Bytes → ClientManager
send_data m fd bytes = call m (send fd bytes)

unfoldable pub serialized : Endian → Message → Result Bytes
serialized host message = or_fault out_of_bounds (serialize_message host message)

-- A session that is destroyed closes its socket.
abbrev pub destroy_object : ClientManager → ℕ → Option ClientSession → ClientManager
destroy_object m p none = m
destroy_object m p (some s) = call (record m { sessions = erase p m.sessions }) (close s.socket)

unfoldable pub destroy : ClientManager → ℕ → ClientManager
destroy m p = destroy_object m p (lookup p m.sessions)
