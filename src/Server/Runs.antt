-- ===== src/Server/Runs.antt =====
-- `Server::run`: what it comes to on whatever its calls of `wait` report.
use axn_chat_app.Prelude.{
  ℕ, Bool, Option, none, some, true, not, ◌||◌, ◌≡◌, ◌≢◌, refl, List, [], ◌∷◌, Bool-cases, inl, inr,
}
use axn_chat_app.Protocol.Words.{Endian}
use axn_chat_app.Server.State.{Result, Fault, ok, err}
use axn_chat_app.Server.Manager.{prepared}
use axn_chat_app.Server.Invariant.{Inv}
use axn_chat_app.Server.Reachable.{Reach, Reach-Inv, starts}
use axn_chat_app.Server.EventLoop.{
  Wait, events, interrupted, failed, Server, Run, not_started, waiting, finished, finish,
  handle_events, shutdown, run_loop, run,
}
use axn_chat_app.Server.Running.{AreAdmissible, Result-cases, events-Reach}
use axn_chat_app.Server.Stopping.{Agrees, Inv-Agrees, shutdown_told}

-- The batches of a run are admissible where they are handled.
abbrev pub AreWaitsAdmissible : Endian → Server → List Wait → Type 0
AreWaitsAdmissible host server [] = Unit {0}
AreWaitsAdmissible host server (events reported ∷ waits) =
    AreAdmissible host server reported
    × ((handled : Server)
        → handle_events host server reported ≡ ok handled
        → AreWaitsAdmissible host handled waits)
AreWaitsAdmissible host server (interrupted ∷ waits) = AreWaitsAdmissible host server waits
AreWaitsAdmissible host server (failed ∷ waits) = Unit {0}

-- A run waits in a state that the server comes to, or has shut the server down in one.
abbrev pub RunReaches : Endian → Run → Type 0
RunReaches host not_started = Unit {0}
RunReaches host (waiting server) = Reach host server.client_manager
RunReaches host (finished server) =
    (before : Server) × Reach host before.client_manager × (shutdown host before ≡ ok server)

err_not_ok : {A : Type 0} (f : Fault) (a : A) → err f ≢ ok a
err_not_ok f a h = cc

shutdown-RunReaches :
    (host : Endian) (server : Server) (r : Run) (result : Result Server)
    → Reach host server.client_manager
    → shutdown host server ≡ result
    → finish result ≡ ok r
    → RunReaches host r
shutdown-RunReaches host server r (ok final) reached told e =
    let at : finished final ≡ r = cc in rw (← at) (server, reached, told)
shutdown-RunReaches host server r (err f) reached told e = absurd (err_not_ok f r e)

run_loop-RunReaches :
    (host : Endian) (server : Server) (waits : List Wait) (r : Run)
    → Reach host server.client_manager
    → AreWaitsAdmissible host server waits
    → run_loop host server waits ≡ ok r
    → RunReaches host r
unfolding run_loop
run_loop-RunReaches host server [] r reached admissible e = elim (Bool-cases server.running) [
  | inl on ↦ let e' = simp on at e in let at : waiting server ≡ r = cc in rw (← at) reached
  | inr off ↦ shutdown-RunReaches host server r _ reached refl (simp off at e)
]
run_loop-RunReaches host server (events reported ∷ waits) r reached admissible e =
    elim (Bool-cases server.running) [
      | inl on ↦ elim (Result-cases (handle_events host server reported)) [
        | inl (next, here) ↦
            run_loop-RunReaches host next waits r
              (events-Reach host server next reported reached admissible.0 here)
              (admissible.1 next here) (simp (on, here) at e)
        | inr (f, fault) ↦ let e' = simp (on, fault) at e in absurd (err_not_ok f r e')
      ]
      | inr off ↦ shutdown-RunReaches host server r _ reached refl (simp off at e)
    ]
run_loop-RunReaches host server (interrupted ∷ waits) r reached admissible e =
    elim (Bool-cases server.running) [
      | inl on ↦ run_loop-RunReaches host server waits r reached admissible (simp on at e)
      | inr off ↦ shutdown-RunReaches host server r _ reached refl (simp off at e)
    ]
run_loop-RunReaches host server (failed ∷ waits) r reached admissible e =
    shutdown-RunReaches host server r _ reached refl e

-- A server that `run` has set up, in front of its loop.
abbrev pub running_server : ℕ → ℕ → Server
running_server listener server_event_fd = record {
  listener = listener;
  server_event_fd = server_event_fd;
  running = true;
  client_manager = prepared listener server_event_fd;
}

-- The batches are admissible where the set-up gives two descriptors.
abbrev pub AreRunWaitsAdmissible : Endian → Option ℕ → Option ℕ → List Wait → Type 0
AreRunWaitsAdmissible host (some listener) (some event_fd) waits =
    AreWaitsAdmissible host (running_server listener event_fd) waits
AreRunWaitsAdmissible host (some listener) none waits = Unit {0}
AreRunWaitsAdmissible host none event_fd waits = Unit {0}

pub run-RunReaches :
    (host : Endian) (listener : Option ℕ) (bound listening : Bool) (event_fd : Option ℕ)
    (waits : List Wait) (r : Run)
    → AreRunWaitsAdmissible host listener event_fd waits
    → run host listener bound listening event_fd waits ≡ ok r
    → RunReaches host r
unfolding run
run-RunReaches host none bound listening event_fd waits r admissible e =
    let at : not_started ≡ r = cc in rw (← at) tt
run-RunReaches host (some l) bound listening none waits r admissible e =
    elim (Bool-cases (not bound || not listening)) [
      | inl off ↦ let e' = rw off at e in let at : not_started ≡ r = cc in rw (← at) tt
      | inr on ↦ let e' = rw on at e in let at : not_started ≡ r = cc in rw (← at) tt
    ]
run-RunReaches host (some l) bound listening (some d) waits r admissible e =
    elim (Bool-cases (not bound || not listening)) [
      | inl off ↦ let e' = rw off at e in let at : not_started ≡ r = cc in rw (← at) tt
      | inr on ↦
          run_loop-RunReaches host (running_server l d) waits r (starts l d) admissible (rw on at e)
    ]

-- The invariant holds of the state that a run has come to.
abbrev pub RunKeeps : Run → Type 0
RunKeeps not_started = Unit {0}
RunKeeps (waiting server) = Inv server.client_manager
RunKeeps (finished server) = Agrees server.client_manager

Reaches-RunKeeps : (host : Endian) (r : Run) → RunReaches host r → RunKeeps r
Reaches-RunKeeps host not_started reached = tt
Reaches-RunKeeps host (waiting server) reached = Reach-Inv host reached
Reaches-RunKeeps host (finished server) (before, reached, e) =
    let (final, returns, j, same, names, heard) =
      shutdown_told host before (Inv-Agrees (Reach-Inv host reached)) in
    let at : final ≡ server = cc (returns, e) in rw (← at) j

-- Every run of the server that does not fault, whatever its set-up gives, over batches of events
-- whose new descriptors are not open and while ids do not run out, does not start, or waits or
-- has ended in a state with the invariant of the tables and of the names, shutdown included.
pub run-RunKeeps :
    (host : Endian) (listener : Option ℕ) (bound listening : Bool) (event_fd : Option ℕ)
    (waits : List Wait) (r : Run)
    → AreRunWaitsAdmissible host listener event_fd waits
    → run host listener bound listening event_fd waits ≡ ok r
    → RunKeeps r
run-RunKeeps host listener bound listening event_fd waits r admissible e =
    Reaches-RunKeeps host r
      (run-RunReaches host listener bound listening event_fd waits r admissible e)
