-- ===== src/Server/Room/Runs.antt =====
-- A whole run of `Server::run`, its shutdown included, against the room.
use axn_chat_app.Prelude.{ℕ, Bool, Option, ◌≡◌, ap, sym, ◌∙◌, List, ◌++◌, map}
use axn_chat_app.Protocol.Words.{Endian}
use axn_chat_app.Protocol.{server_id}
use axn_chat_app.Protocol.Wire.{packet}
use axn_chat_app.Server.State.{ok, ClientManager}
use axn_chat_app.Server.Broadcast.{session_at, sent_to, once_if, hears}
use axn_chat_app.Server.Reachable.{Reach, Reach-Inv}
use axn_chat_app.Server.EventLoop.{Wait, Server, Run, not_started, waiting, finished, shutdown, run}
use axn_chat_app.Server.Stopping.{shutdown_message, shutdown_told, Inv-Agrees}
use axn_chat_app.Server.Runs.{AreRunWaitsAdmissible, RunReaches, run-RunReaches}
use axn_chat_app.Server.Room.{Mail, mail_to_others}
use axn_chat_app.Server.Room.Abstraction.{room, seen_at, same_room, hears-is_other, once_if-only_if}
use axn_chat_app.Server.Room.Packets.{map-append_packets}
use axn_chat_app.Server.Room.Life.{Life}
use axn_chat_app.Server.Room.Refinement.{Lived, Reach-Lived}

-- What the clients have seen at the end is the life of the room, and then the notice to all that
-- have joined.
pub record Ended (m : ClientManager) : Type 0 where
  pub mail : Mail
  pub life : Life (room m) mail
  pub sends :
      (k : ℕ)
      → sent_to k m.calls
        ≡ map packet (mail k ++ mail_to_others (room m) server_id shutdown_message k)

abbrev pub RunLived : Run → Type 0
RunLived not_started = Unit {0}
RunLived (waiting server) = Lived server.client_manager
RunLived (finished server) = Ended server.client_manager

notice_mail :
    (m : ClientManager) (k : ℕ)
    → once_if (hears server_id (session_at m k)) (packet shutdown_message)
      ≡ map packet (mail_to_others (room m) server_id shutdown_message k)
unfolding room
notice_mail m k =
    rw (hears-is_other server_id (session_at m k)) (once_if-only_if _ shutdown_message)

shutdown-Ended :
    (host : Endian) (before server : Server)
    → Reach host before.client_manager
    → shutdown host before ≡ ok server
    → Ended server.client_manager
unfolding room
shutdown-Ended host before server reached e =
    let m = before.client_manager in
    let l = Reach-Lived host m reached in
    let (final, returns, j, same, names, heard) =
      shutdown_told host before (Inv-Agrees (Reach-Inv host reached)) in
    let at : final ≡ server = cc (returns, e) in
    let kept = same_room final.client_manager (room m) (λ k. ap seen_at (same k)) names in
    let ended : Ended final.client_manager = record {
      mail = l.mail;
      life = rw kept l.life;
      sends = λ k.
          heard k
          ∙ ap (λ t. t ++ once_if (hears server_id (session_at m k)) (packet shutdown_message))
              (l.sends k)
          ∙ ap (λ t. map packet (l.mail k) ++ t) (notice_mail m k)
          ∙ sym
              (map-append_packets (l.mail k) (mail_to_others (room m) server_id shutdown_message k))
          ∙ ap (λ r. map packet (l.mail k ++ mail_to_others r server_id shutdown_message k))
              (sym kept);
    } in
    rw (← at) ended

Reaches-RunLived : (host : Endian) (r : Run) → RunReaches host r → RunLived r
Reaches-RunLived host not_started reached = tt
Reaches-RunLived host (waiting server) reached = Reach-Lived host server.client_manager reached
Reaches-RunLived host (finished server) (before, reached, e) =
    shutdown-Ended host before server reached e

-- Every run of the server that does not fault, whatever its set-up gives, over batches of events
-- whose new descriptors are not open and while ids do not run out, does not start, or waits where
-- what each descriptor has been sent is the mail of a life of the room that its state stands for,
-- or has ended with such mail and then the notice of the shutdown to each that has joined and
-- does not have the server's id.
pub run-RunLived :
    (host : Endian) (listener : Option ℕ) (bound listening : Bool) (event_fd : Option ℕ)
    (waits : List Wait) (r : Run)
    → AreRunWaitsAdmissible host listener event_fd waits
    → run host listener bound listening event_fd waits ≡ ok r
    → RunLived r
run-RunLived host listener bound listening event_fd waits r admissible e =
    Reaches-RunLived host r
      (run-RunReaches host listener bound listening event_fd waits r admissible e)
