-- ===== src/Tests/Rooms.antt =====
-- The server against the room.
use axn_chat_app.Prelude.{◌≡◌, ◌⊎◌, ℕ, refl, [], ◌∷◌, ◌++◌, List, codes, arith, map, All}
use axn_chat_app.Protocol.Words.{little}
use axn_chat_app.Protocol.{
  Message, c2s_broadcast, c2s_leave, c2s_private, new_message, to_byte, deserialize_message,
}
use axn_chat_app.Protocol.Wire.{wire, packet, new_message-IsMessage}
use axn_chat_app.Protocol.Frames.{Framed}
use axn_chat_app.Socket.{Reads, chunk, blocked}
use axn_chat_app.Server.State.{ok, ClientManager}
use axn_chat_app.Server.Handlers.{process_message}
use axn_chat_app.Server.Reading.{handle_client_message}
use axn_chat_app.Server.Broadcast.{sent_to}
use axn_chat_app.Server.Reachable.{Reach-Inv}
use axn_chat_app.Server.ReadLoop.{received_bytes}
use axn_chat_app.Server.Room.Abstraction.{Taken}
use axn_chat_app.Server.Room.Refine.{process_message-Taken}
use axn_chat_app.Server.Room.Conversed.{Conversed, Ejected}
use axn_chat_app.Server.Room.Batches.{handle_client_message_turns}
use axn_chat_app.Server.Room.Authentic.{
  IsAuthentic, process_message-IsAuthentic, process_message_unheard,
}
use axn_chat_app.Server.Room.Refinement.{Lived, Reach-Lived}
use axn_chat_app.Tests.World.{
  al, world, world-IsValid, al-Connected, guest-Connected, from_client, hi, hi_bytes, leave,
  leave_bytes,
}
use axn_chat_app.Tests.Reached.{two, two_reached, joined, joined-Connected}

abbrev secret : Message
secret = from_client c2s_private 2 (codes "psst")

process_message-Taken_example : Taken world (process_message little world 0 secret) 10 al secret
process_message-Taken_example = process_message-Taken little world-IsValid al-Connected secret

process_message-IsAuthentic_example :
    (final : ClientManager) × (process_message little world 0 secret ≡ ok final)
    × ((k : ℕ)
        → (ys : List Message) × (sent_to k final.calls ≡ sent_to k world.calls ++ map packet ys)
          × All (IsAuthentic al.id 10 k) ys)
process_message-IsAuthentic_example =
    process_message-IsAuthentic little world-IsValid al-Connected secret

process_message_unheard_example :
    (final : ClientManager) × (process_message little world 2 hi ≡ ok final)
    × (sent_to 10 final.calls ≡ sent_to 10 world.calls)
unfolding new_message
process_message_unheard_example =
    process_message_unheard little world-IsValid guest-Connected hi refl (λ e. cc) 10
      (λ e. omega (arith, e))

-- A message and a LEAVE in one read.
abbrev farewell : Reads
farewell = chunk (hi_bytes ++ leave_bytes) blocked

farewell-Framed : Framed little (joined.read_buffer ++ received_bytes farewell) (hi ∷ leave ∷ []) []
unfolding wire new_message to_byte deserialize_message received_bytes
farewell-Framed = record {
  split = refl;
  valid = (
    new_message-IsMessage c2s_broadcast 7 0 (codes "hi") tt (omega arith) (omega arith)
        (omega arith),
    (new_message-IsMessage c2s_leave 7 0 [] tt (omega arith) (omega arith) (omega arith), tt),
  );
  incomplete = refl;
}

handle_client_message_turns_example :
    Conversed two (handle_client_message little two 10 farewell) 10 (hi ∷ leave ∷ [])
    ⊎ Ejected two (handle_client_message little two 10 farewell) 10 (hi ∷ leave ∷ [])
handle_client_message_turns_example =
    handle_client_message_turns little farewell (Reach-Inv little two_reached) joined-Connected
      (hi ∷ leave ∷ []) [] (omega arith, tt) farewell-Framed

Reach-Lived_example : Lived two
Reach-Lived_example = Reach-Lived little two two_reached
