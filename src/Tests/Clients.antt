-- ===== src/Tests/Clients.antt =====
-- The client: lists of users, streams and lines.
use axn_chat_app.Prelude.{
  ℕ, ◌≡◌, refl, true, none, some, List, [], ◌∷◌, ◌++◌, map, Bytes, codes, All, arith, inl, inr, ◌⊎◌,
}
use axn_chat_app.Prelude.Map.{lookup, insert, erase}
use axn_chat_app.Protocol.Words.{little, IsByte}
use axn_chat_app.Protocol.{Message, new_message, s2c_broadcast, to_byte, deserialize_message}
use axn_chat_app.Protocol.Wire.{wire, packet, new_message-IsMessage}
use axn_chat_app.Protocol.Frames.{Framed}
use axn_chat_app.Socket.{closed}
use axn_chat_app.Server.State.{ClientSession, ClientManager}
use axn_chat_app.Server.Broadcast.{session_at}
use axn_chat_app.Client.State.{ChatClient, new_client}
use axn_chat_app.Client.Connection.{received, failed, receiver_loop}
use axn_chat_app.Client.State.{◌>>=◌}
use axn_chat_app.Client.Stream.{shows_end, concat, receiver_loop_stream}
use axn_chat_app.Client.Handlers.{deliver}
use axn_chat_app.Client.Delivery.{IsSendable, packets_delivered}
use axn_chat_app.Client.UserList.{IsPlain}
use axn_chat_app.Client.Listing.{ask, Answered, users_listed}
use axn_chat_app.Server.State
use axn_chat_app.Server.Handlers.{process_message}
use axn_chat_app.Client.Handlers.{request_list_of_users}
use axn_chat_app.Client.State.{request, send}
use axn_chat_app.Tests.World.{al, al-Connected, world, world-IsValid}

-- A client that knows two users.
abbrev me : ChatClient
me = record (new_client (codes "al")) {
  is_running = true;
  user_id = 1;
  user_map = (1, codes "al") ∷ (2, codes "bo") ∷ [];
}

-- Each session has one of three names.
named :
    (k : ℕ) (s : ClientSession)
    → session_at world k ≡ some s
    → (s.username ≡ codes "al") ⊎ (s.username ≡ codes "bo") ⊎ (s.username ≡ [])
unfolding session_at lookup insert erase
named k s h = ground arith

plain : (k : ℕ) (s : ClientSession) → session_at world k ≡ some s → IsPlain s.username
plain k s h = elim (named k s h) [
  | inl e ↦ rw e (ground arith)
  | inr (inl e) ↦ rw e (ground arith)
  | inr (inr e) ↦ rw e (tt, tt)
]

-- The client of "al" asks.
users_listed_example :
    (request_list_of_users me ≡ request me (send (ask me)))
    × ((final : ClientManager) × (process_message little world 0 (ask me) ≡ State.ok final)
        × Answered world final 10 al me)
users_listed_example =
    users_listed little world 10 0 al me world-IsValid al-Connected (omega arith) plain

abbrev hi : Message
hi = new_message s2c_broadcast 2 0 (codes "hi")

abbrev chunks : List Bytes
chunks = (18 ∷ 0 ∷ 0 ∷ 0 ∷ 2 ∷ []) ∷ (0 ∷ 0 ∷ 0 ∷ 0 ∷ 0 ∷ 0 ∷ 0 ∷ 2 ∷ 104 ∷ 105 ∷ 18 ∷ []) ∷ []

chunks-Framed : Framed little ([] ++ concat chunks) (hi ∷ []) (18 ∷ [])
unfolding concat wire new_message to_byte deserialize_message
chunks-Framed = record {
  split = refl;
  valid = (
    new_message-IsMessage s2c_broadcast 2 0 (codes "hi") tt (omega arith) (omega arith)
        (omega arith),
    tt,
  );
  incomplete = refl;
}

nothing_yet : deserialize_message little [] ≡ (none, 0)
unfolding deserialize_message
nothing_yet = refl

chunks_bytes : All IsByte ([] ++ concat chunks)
unfolding concat
chunks_bytes = ground arith

receiver_loop_stream_example :
    receiver_loop little (map received chunks ++ failed closed ∷ []) [] me
    ≡ (deliver (hi ∷ []) me >>= shows_end)
receiver_loop_stream_example =
    receiver_loop_stream little chunks (failed closed) [] [] (18 ∷ []) (hi ∷ []) me tt
      (omega arith, (omega arith, tt)) chunks_bytes nothing_yet chunks-Framed

hi-IsSendable : IsSendable hi
unfolding new_message
hi-IsSendable = (
  new_message-IsMessage s2c_broadcast 2 0 (codes "hi") tt (omega arith) (omega arith) (omega arith),
  ground arith,
)

abbrev twice : List Bytes
twice =
    (18 ∷ 0 ∷ 0 ∷ 0 ∷ 2 ∷ [])
    ∷ (0 ∷ 0 ∷ 0 ∷ 0 ∷ 0 ∷ 0 ∷ 0 ∷ 2 ∷ 104 ∷ 105 ∷ 18 ∷ [])
    ∷ (0 ∷ 0 ∷ 0 ∷ 2 ∷ 0 ∷ 0 ∷ 0 ∷ 0 ∷ 0 ∷ 0 ∷ 0 ∷ 2 ∷ 104 ∷ 105 ∷ [])
    ∷ []

cut : concat twice ≡ concat (map packet (hi ∷ hi ∷ []))
unfolding concat packet new_message to_byte
cut = refl

packets_delivered_example :
    receiver_loop little (map received twice ++ failed closed ∷ []) [] me
    ≡ (deliver (hi ∷ hi ∷ []) me >>= shows_end)
packets_delivered_example =
    packets_delivered little (hi ∷ hi ∷ []) twice (failed closed) [] me
      (hi-IsSendable, (hi-IsSendable, tt)) cut (omega arith, (omega arith, (omega arith, tt))) tt
