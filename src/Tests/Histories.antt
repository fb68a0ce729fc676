-- ===== src/Tests/Histories.antt =====
-- Whole calls of `handle_client_message`, and a history of a server.
use axn_chat_app.Prelude.{◌≡◌, ◌⊎◌, refl, none, some, [], ◌∷◌, arith, inl}
use axn_chat_app.Prelude.Names
use axn_chat_app.Protocol.Words.{little}
use axn_chat_app.Socket.{Reads, chunk, blocked, ended, closed}
use axn_chat_app.Server.State.{ClientSession}
use axn_chat_app.Server.Manager.{get_client_by_id}
use axn_chat_app.Server.Handlers.{process_message}
use axn_chat_app.Server.Reading.{handle_client_message}
use axn_chat_app.Server.Broadcast.{session_at, once_if}
use axn_chat_app.Server.Outcome.{Outcome, Connected, with_entry}
use axn_chat_app.Server.Connections.{told_of_leaving, left_packet}
use axn_chat_app.Server.Receiving.{handle_client_message_closed}
use axn_chat_app.Server.Invariant.{Keeps, Watches}
use axn_chat_app.Server.Total.{ReturnsOrFrees, handle_client_message-ReturnsOrFrees}
use axn_chat_app.Server.Reachable.{
  Reach-Watches, Reach-Inv, names_unique, pointers_live, message_processed,
}
use axn_chat_app.Tests.Reached.{
  two, two_reached, joined, joined_session, joined_pointer, joined-Connected,
}
use axn_chat_app.Tests.World.{bo, world, world-IsValid, bo-Connected, hi, hi_bytes, leave_bytes}

-- The message arrives in two parts, with the start of another behind it.
abbrev in_parts : Reads
in_parts =
    chunk (2 ∷ 0 ∷ 0 ∷ 0 ∷ 7 ∷ 0 ∷ [])
      (chunk (0 ∷ 0 ∷ 0 ∷ 0 ∷ 0 ∷ 0 ∷ 2 ∷ 104 ∷ 105 ∷ 2 ∷ []) blocked)

handle_client_message_closed_example :
    Outcome world
      (handle_client_message little world 11 (chunk hi_bytes (ended closed)))
      (with_entry (session_at world) 11 none)
      (Names.erase bo.username world.usernames)
      (λ k. once_if (told_of_leaving bo (session_at world k)) (left_packet bo))
handle_client_message_closed_example =
    handle_client_message_closed little (chunk hi_bytes (ended closed)) world-IsValid bo-Connected
      (omega arith, tt)

names_unique_example : joined.socket ≡ 10
names_unique_example =
    names_unique little two 10 10 joined joined two_reached joined_session joined_session refl refl
      refl (λ e. cc)

pointers_live_example :
    (s : ClientSession) × Connected two s.socket 0 s
    × (get_client_by_id two s.id ≡ some 0)
    × ((s.socket ≡ 10) ⊎ (s.id ≡ 10))
pointers_live_example = pointers_live little two 10 0 two_reached (inl joined_pointer)

message_processed_example : Keeps (process_message little two 0 hi)
message_processed_example = message_processed little two 10 0 joined hi two_reached joined-Connected

handle_client_message-ReturnsOrFrees_example :
    ReturnsOrFrees (handle_client_message little two 10 (chunk leave_bytes blocked))
handle_client_message-ReturnsOrFrees_example =
    handle_client_message-ReturnsOrFrees little (chunk leave_bytes blocked) two 10 0 joined
      (Reach-Inv little two_reached) joined-Connected tt (omega arith, ground arith, tt)

Reach-Watches_example : Watches two
Reach-Watches_example = Reach-Watches little two two_reached
