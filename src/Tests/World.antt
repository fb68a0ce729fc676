-- ===== src/Tests/World.antt =====
-- A server with three clients: "al" and "bo" have joined, the third has not.
use axn_chat_app.Prelude.{ℕ, refl, true, false, [], ◌∷◌, Bytes, codes}
use axn_chat_app.Prelude.Map.{lookup, insert, erase}
use axn_chat_app.Protocol.{Message, MessageType, new_message, c2s_join, c2s_broadcast, c2s_leave}
use axn_chat_app.Server.State.{ClientSession, ClientManager}
use axn_chat_app.Server.Tables.{IsValid, add-Tables}
use axn_chat_app.Server.Outcome.{Connected}
use axn_chat_app.Server.Reachable.{prepared-IsValid}

abbrev pub al : ClientSession
al = record {
  id = 1;
  socket = 10;
  username = codes "al";
  is_authenticated = true;
  read_buffer = [];
}

abbrev pub bo : ClientSession
bo = record {
  id = 2;
  socket = 11;
  username = codes "bo";
  is_authenticated = true;
  read_buffer = [];
}

abbrev pub guest : ClientSession
guest = record { id = 3; socket = 12; username = []; is_authenticated = false; read_buffer = [] }

abbrev pub world : ClientManager
world = record {
  next_client_id = 4;
  session_by_fd = insert 12 2 (insert 11 1 (insert 10 0 []));
  session_by_id = insert 3 2 (insert 2 1 (insert 1 0 []));
  usernames = codes "al" ∷ codes "bo" ∷ [];
  sessions = insert 2 guest (insert 1 bo (insert 0 al []));
  next_address = 3;
  calls = [];
}

pub world-IsValid : IsValid world
unfolding lookup insert erase
world-IsValid =
    add-Tables (add-Tables (add-Tables (prepared-IsValid 3 4) al refl refl) bo refl refl) guest refl
      refl

pub al-Connected : Connected world 10 0 al
unfolding lookup insert erase
al-Connected = record { pointer = refl; object = refl; socket = refl }

pub bo-Connected : Connected world 11 1 bo
unfolding lookup insert erase
bo-Connected = record { pointer = refl; object = refl; socket = refl }

pub guest-Connected : Connected world 12 2 guest
unfolding lookup insert erase
guest-Connected = record { pointer = refl; object = refl; socket = refl }

-- A message that a client sends.
abbrev pub from_client : MessageType → ℕ → Bytes → Message
from_client type receiver payload = new_message type 7 receiver payload

abbrev pub hi : Message
hi = from_client c2s_broadcast 0 (codes "hi")

abbrev pub hi_bytes : Bytes
hi_bytes = 2 ∷ 0 ∷ 0 ∷ 0 ∷ 7 ∷ 0 ∷ 0 ∷ 0 ∷ 0 ∷ 0 ∷ 0 ∷ 0 ∷ 2 ∷ 104 ∷ 105 ∷ []

abbrev pub leave : Message
leave = from_client c2s_leave 0 []

abbrev pub leave_bytes : Bytes
leave_bytes = 4 ∷ 0 ∷ 0 ∷ 0 ∷ 7 ∷ 0 ∷ 0 ∷ 0 ∷ 0 ∷ 0 ∷ 0 ∷ 0 ∷ 0 ∷ []

abbrev pub join : Message
join = from_client c2s_join 0 (codes "al")

abbrev pub join_bytes : Bytes
join_bytes = 1 ∷ 0 ∷ 0 ∷ 0 ∷ 7 ∷ 0 ∷ 0 ∷ 0 ∷ 0 ∷ 0 ∷ 0 ∷ 0 ∷ 2 ∷ 97 ∷ 108 ∷ []
