-- ===== src/Tests/Runs.antt =====
-- The event loop, and sockets.
use axn_chat_app.Prelude.{ℕ, ◌≡◌, refl, true, false, none, some, List, [], ◌∷◌, ◌++◌, codes, arith}
use axn_chat_app.Prelude.Map.{insert, lookup, erase}
use axn_chat_app.Protocol.Words.{little}
use axn_chat_app.Protocol.{Message, new_message, serialize_message, c2s_broadcast}
use axn_chat_app.Protocol.Wire.{packet, new_message-fits}
use axn_chat_app.Socket.{blocked, ok, closed}
use axn_chat_app.Socket.Posix.{eagain}
use axn_chat_app.Socket.Receiving.{
  Recv, wrote, fails, reads_of, reads_of-chunks, chunks, data_bytes, ending,
}
use axn_chat_app.Server.State.{ClientManager, call, close}
use axn_chat_app.Server.State
use axn_chat_app.Server.Manager.{prepared, add_client, broadcast_message, broadcast_loop}
use axn_chat_app.Server.Handlers.{handle_new_connection}
use axn_chat_app.Server.Broadcast.{session_at, sent_to, hears, once_if}
use axn_chat_app.Server.Reachable.{prepared-Inv}
use axn_chat_app.Server.EventLoop.{
  Event, Wait, events, failed, Server, handle_event, handle_events, finished, shutdown, run_loop,
  run,
}
use axn_chat_app.Server.Stopping.{shutdown_message, shutdown_told, Agrees, Inv-Agrees}
use axn_chat_app.Server.Runs.{running_server, AreRunWaitsAdmissible, RunKeeps, run-RunKeeps}
use axn_chat_app.Server.Room.Runs.{RunLived, run-RunLived}
use axn_chat_app.Client.Sending.{ServerConnection, send_messages, send_messages_until_failure}

abbrev server : Server
server = running_server 3 5

shutdown_told_example :
    (final : Server) × (shutdown little server ≡ State.ok final)
    × Agrees final.client_manager
    × ((fd : ℕ) → session_at final.client_manager fd ≡ session_at server.client_manager fd)
    × (final.client_manager.usernames ≡ server.client_manager.usernames)
    × ((fd : ℕ)
        → sent_to fd final.client_manager.calls
          ≡ sent_to fd server.client_manager.calls
            ++ once_if (hears 0 (session_at server.client_manager fd)) (packet shutdown_message))
shutdown_told_example = shutdown_told little server (Inv-Agrees (prepared-Inv 3 5))

-- A connection arrives.
abbrev arrival : Event
arrival = record {
  fd = 3;
  epollhup = false;
  epollerr = false;
  epollin = true;
  accepted = 10 ∷ [];
  reads = blocked;
}

abbrev after : Server
after = record server { client_manager = handle_new_connection (prepared 3 5) (10 ∷ []) }

-- Another batch does not come: the wait fails, and the server shuts down.
abbrev waits : List Wait
waits = events (arrival ∷ []) ∷ failed ∷ []

abbrev stopped : Server
stopped = record after { client_manager = call (call after.client_manager (close 5)) (close 3) }

ends : run little (some 3) true true (some 5) waits ≡ State.ok (finished stopped)
unfolding run run_loop handle_events handle_event shutdown broadcast_message broadcast_loop
    State.serialized serialize_message new_message handle_new_connection add_client insert
    State.deref lookup erase
ends = refl

admissible : AreRunWaitsAdmissible little (some 3) (some 5) waits
unfolding session_at lookup
admissible = ((λ e. (refl, omega arith, tt), λ handled e. tt), λ handled e. tt)

run-RunKeeps_example : RunKeeps (finished stopped)
run-RunKeeps_example =
    run-RunKeeps little (some 3) true true (some 5) waits (finished stopped) admissible ends

run-RunLived_example : RunLived (finished stopped)
run-RunLived_example =
    run-RunLived little (some 3) true true (some 5) waits (finished stopped) admissible ends

abbrev two_reads : List Recv
two_reads = wrote (1 ∷ 2 ∷ []) ∷ wrote (3 ∷ []) ∷ []

reads_of-chunks_example :
    reads_of (some 4) two_reads (fails eagain)
    ≡ chunks (data_bytes two_reads) (ending (fails eagain))
reads_of-chunks_example =
    reads_of-chunks 4096 4 two_reads (fails eagain)
      ((omega arith, omega arith), ((omega arith, omega arith), tt)) refl

abbrev connection : ServerConnection
connection = record { socket = some 4; connected = true; receiver_thread = true; sent = [] }

abbrev hi : Message
hi = new_message c2s_broadcast 1 0 (codes "hi")

send_messages_until_failure_example :
    send_messages little connection ((hi, ok) ∷ (hi, closed) ∷ (hi, ok) ∷ [])
    ≡ some (record connection {
      connected = false;
      socket = none;
      receiver_thread = false;
      sent = packet hi ∷ packet hi ∷ [];
    })
send_messages_until_failure_example =
    send_messages_until_failure little connection ((hi, ok) ∷ []) ((hi, ok) ∷ []) hi closed refl
      ((new_message-fits c2s_broadcast 1 0 (codes "hi"), refl), tt)
      (new_message-fits c2s_broadcast 1 0 (codes "hi")) (λ e. cc)
