-- ===== src/Client/State.antt =====
-- The state of `ChatClient`: client/include/client/chat_client.h. What it asks of its
-- `ServerConnection`, and the lines it shows to the user, are recorded in order.
use axn_chat_app.Prelude.{ℕ, Bool, false, List, [], ◌∷◌, ◌++◌, Bytes}
use axn_chat_app.Prelude.Map.{Map}
use axn_chat_app.Protocol.{Message}

-- A handler may throw, and nothing above it catches; `out_of_bounds` is a
-- write past the end of a buffer, and `stuck` a loop that is out of fuel.
pub data Handled {ℓ} (A : Type ℓ) : Type ℓ where
  done : A → Handled A
  throws out_of_bounds stuck : Handled A

infixl 5 ◌>>=◌
abbrev pub ◌>>=◌ {ℓ κ} : {A : Type ℓ} {B : Type κ} → Handled A → (A → Handled B) → Handled B
done a >>= f = f a
throws >>= f = throws
out_of_bounds >>= f = out_of_bounds
stuck >>= f = stuck

-- The calls of `ServerConnection`.
pub data Request : Type 0 where
  connect start_receiving disconnect : Request
  send : Message → Request

pub record ChatClient : Type 0 where
  pub username : Bytes
  pub is_running : Bool
  pub user_id : ℕ
  pub user_map : Map Bytes
  pub requests : List Request
  pub shown : List Bytes

-- `ChatClient::ChatClient`
abbrev pub new_client : Bytes → ChatClient
new_client username = record {
  username = username;
  is_running = false;
  user_id = 0;
  user_map = [];
  requests = [];
  shown = [];
}

abbrev pub request : ChatClient → Request → ChatClient
request c r = record c { requests = c.requests ++ r ∷ [] }

abbrev pub show : ChatClient → Bytes → ChatClient
show c line = record c { shown = c.shown ++ line ∷ [] }
