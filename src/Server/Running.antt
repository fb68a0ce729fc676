-- ===== src/Server/Running.antt =====
-- The event loop against the server as a state machine.
use axn_chat_app.Prelude.{
  ℕ, ◌+◌, ◌<◌, ◌^◌, ◌≡◌, refl, ◌||◌, none, List, [], ◌∷◌, ◌==◌, ==_iff, Bool-cases, inl, inr, ◌⊎◌,
}
use axn_chat_app.Protocol.Words.{Endian}
use axn_chat_app.Server.State.{Result, Fault, ok, err, ClientManager}
use axn_chat_app.Server.Handlers.{handle_new_connection, handle_client_disconnection}
use axn_chat_app.Server.Reading.{handle_client_message}
use axn_chat_app.Server.Broadcast.{session_at}
use axn_chat_app.Server.Reachable.{Reach, continues, accepts, receives, hangs_up}
use axn_chat_app.Server.EventLoop.{Event, Server, with_manager, handle_event, handle_events}

-- New descriptors are not open, and ids do not run out.
abbrev pub AreFresh : ClientManager → List ℕ → Type 0
AreFresh m [] = Unit {0}
AreFresh m (fd ∷ fds) =
    (session_at m fd ≡ none)
    × (m.next_client_id + 1 < 2 ^ 32)
    × AreFresh (handle_new_connection m (fd ∷ [])) fds

-- So at each event that brings connections.
abbrev pub AreAdmissible : Endian → Server → List Event → Type 0
AreAdmissible host server [] = Unit {0}
AreAdmissible host server (event ∷ rest) =
    (event.fd ≡ server.listener → AreFresh server.client_manager event.accepted)
    × ((handled : Server)
        → handle_event host server event ≡ ok handled
        → AreAdmissible host handled rest)

accept-Reach :
    (host : Endian) (m : ClientManager) (fds : List ℕ)
    → Reach host m
    → AreFresh m fds
    → Reach host (handle_new_connection m fds)
unfolding handle_new_connection
accept-Reach host m [] r f = r
accept-Reach host m (fd ∷ fds) r (free, room, rest) =
    accept-Reach host (handle_new_connection m (fd ∷ [])) fds
      (continues m (handle_new_connection m (fd ∷ [])) r (accepts m fd free room)) rest

with_manager-ok :
    (server handled : Server) (result : Result ClientManager)
    → with_manager server result ≡ ok handled
    → result ≡ ok handled.client_manager
with_manager-ok server handled (ok m) e = cc
with_manager-ok server handled (err f) e = cc

event-Reach :
    (host : Endian) (server handled : Server) (event : Event)
    → Reach host server.client_manager
    → (event.fd ≡ server.listener → AreFresh server.client_manager event.accepted)
    → handle_event host server event ≡ ok handled
    → Reach host handled.client_manager
unfolding handle_event
event-Reach host server handled event r fresh e = elim (Bool-cases (event.fd == server.listener)) [
  | inl new ↦
      let e' = rw new at e in
      let same : handle_new_connection server.client_manager event.accepted
          ≡ handled.client_manager =
        cc in
      rw same at (
        accept-Reach host server.client_manager event.accepted r
          (fresh ((==_iff event.fd server.listener).0 new)))
  | inr old ↦ elim (Bool-cases (event.fd == server.server_event_fd)) [
    | inl stops ↦
        let e' = rw (old, stops) at e in
        let same : server.client_manager ≡ handled.client_manager = cc in rw same at r
    | inr client ↦ elim (Bool-cases (event.epollhup || event.epollerr)) [
      | inl gone ↦ continues server.client_manager handled.client_manager r (
          hangs_up server.client_manager handled.client_manager event.fd (
            with_manager-ok server handled
              (handle_client_disconnection host server.client_manager event.fd)
              (rw (old, client, gone) at e)))
      | inr up ↦ elim (Bool-cases event.epollin) [
        | inl readable ↦ continues server.client_manager handled.client_manager r (
            receives server.client_manager handled.client_manager event.fd event.reads (
              with_manager-ok server handled
                (handle_client_message host server.client_manager event.fd event.reads)
                (rw (old, client, up, readable) at e)))
        | inr nothing ↦
            let e' = rw (old, client, up, nothing) at e in
            let same : server.client_manager ≡ handled.client_manager = cc in rw same at r
      ]
    ]
  ]
]

pub Result-cases :
    {A : Type 0} (x : Result A) → ((a : A) × (x ≡ ok a)) ⊎ ((f : Fault) × (x ≡ err f))
Result-cases (ok a) = inl (a, refl)
Result-cases (err f) = inr (f, refl)

-- A batch of events is handled by steps.
pub events-Reach :
    (host : Endian) (server handled : Server) (reported : List Event)
    → Reach host server.client_manager
    → AreAdmissible host server reported
    → handle_events host server reported ≡ ok handled
    → Reach host handled.client_manager
unfolding handle_events
events-Reach host server handled [] r admissible e =
    let same : server.client_manager ≡ handled.client_manager = cc in rw same at r
events-Reach host server handled (event ∷ rest) r admissible e =
    elim (Result-cases (handle_event host server event)) [
      | inl (next, here) ↦
          events-Reach host next handled rest
            (event-Reach host server next event r admissible.0 here) (admissible.1 next here)
            (rw here at e)
      | inr (f, fault) ↦ let e' = rw fault at e in cc
    ]
