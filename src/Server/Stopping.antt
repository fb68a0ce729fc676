-- ===== src/Server/Stopping.antt =====
-- `Server::shutdown`, and the whole of the event loop.
use axn_chat_app.Prelude.{ℕ, ◌≡◌, refl, ◌∙◌, List, [], ◌∷◌, ◌++◌, append-nil, codes}
use axn_chat_app.Protocol.Words.{Endian}
use axn_chat_app.Protocol.{Message, new_message, server_id, broadcast_id, s2c_server_shutdown}
use axn_chat_app.Protocol.Wire.{packet, new_message-fits}
use axn_chat_app.Server.State.{ok, ClientManager, Call, close, call}
use axn_chat_app.Server.Tables.{IsValid}
use axn_chat_app.Server.Usernames.{NamesAgree}
use axn_chat_app.Server.Broadcast.{
  session_at, sent_to, sent_to-append, hears, once_if, told, broadcast_audience,
}
use axn_chat_app.Server.Invariant.{Inv}
use axn_chat_app.Server.EventLoop.{Server, shutdown}

abbrev pub shutdown_message : Message
shutdown_message =
    new_message s2c_server_shutdown server_id broadcast_id (codes "Server is shutting down.")

-- The invariant of the tables and of the names. After a shutdown the two descriptors that
-- `Inv` speaks of beside them are closed.
abbrev pub Agrees : ClientManager → Type 0
Agrees m = IsValid m × NamesAgree (session_at m) m.usernames

calls-Agrees : (m : ClientManager) (cs : List Call) → Agrees m → Agrees (record m { calls = cs })
unfolding session_at
calls-Agrees m cs i = i

pub Inv-Agrees : {m : ClientManager} → Inv m → Agrees m
Inv-Agrees i = (i.valid, i.names)

sent_to-closed :
    (m : ClientManager) (a b fd : ℕ)
    → sent_to fd (call (call m (close a)) (close b)).calls ≡ sent_to fd m.calls
unfolding sent_to
sent_to-closed m a b fd =
    sent_to-append fd (m.calls ++ close a ∷ []) (close b ∷ [])
    ∙ append-nil (sent_to fd (m.calls ++ close a ∷ []))
    ∙ sent_to-append fd m.calls (close a ∷ [])
    ∙ append-nil (sent_to fd m.calls)

-- Where the invariant of the tables and of the names holds, shutting down does not fault, keeps
-- it, every session and the names, and sends each client that has joined and does not have the
-- server's id the notice once, and nobody else anything.
pub shutdown_told :
    (host : Endian) (server : Server)
    → Agrees server.client_manager
    → (final : Server) × (shutdown host server ≡ ok final)
      × Agrees final.client_manager
      × ((fd : ℕ) → session_at final.client_manager fd ≡ session_at server.client_manager fd)
      × (final.client_manager.usernames ≡ server.client_manager.usernames)
      × ((fd : ℕ)
          → sent_to fd final.client_manager.calls
            ≡ sent_to fd server.client_manager.calls
              ++ once_if
                  (hears server_id (session_at server.client_manager fd))
                  (packet shutdown_message))
unfolding shutdown session_at
shutdown_told host server i =
    let m =
      call (call server.client_manager (close server.server_event_fd)) (close server.listener) in
    let (cs, announced, heard, quiet) =
      broadcast_audience host m shutdown_message server_id i.0 (new_message-fits _ _ _ _) in
    (
      record server { client_manager = told m cs },
      rw announced refl,
      calls-Agrees server.client_manager (m.calls ++ cs) i,
      λ fd. refl,
      refl,
      λ fd.
          sent_to-append fd m.calls cs
          ∙ rw
              (
                sent_to-closed server.client_manager server.server_event_fd server.listener fd,
                heard fd,
              )
              refl,
    )
