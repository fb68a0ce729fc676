-- ===== src/Server/Room/Refinement.antt =====
-- The server refines the room: whatever connections, reads and hang-ups come, what its clients see
-- is the life of a room.
use axn_chat_app.Prelude.{
  ℕ, ◌+◌, ◌<◌, ◌^◌, ◌≡◌, ◌≢◌, refl, ap, sym, ◌∙◌, none, some, [], ◌∷◌, ◌++◌, map, append-nil, arith,
}
use axn_chat_app.Protocol.Words.{Endian}
use axn_chat_app.Protocol.Wire.{packet}
use axn_chat_app.Prelude.Map.{lookup}
use axn_chat_app.Server.State.{Result, ok, ClientManager, call, set_non_blocking, epoll_add}
use axn_chat_app.Server.Manager.{prepared, new_session, add_client}
use axn_chat_app.Server.Handlers.{handle_new_connection}
use axn_chat_app.Server.Tables.{IsValid}
use axn_chat_app.Server.Broadcast.{session_at, sent_to, sent_to-append}
use axn_chat_app.Server.Outcome.{Connected-at}
use axn_chat_app.Server.Accepting.{add_client-Accepted}
use axn_chat_app.Server.Invariant.{Inv}
use axn_chat_app.Server.Reachable.{Reach, Reach-Inv, starts, continues, accepts, receives, hangs_up}
use axn_chat_app.Server.Room.{Member, Mail, no_mail, seat}
use axn_chat_app.Server.Room.Abstraction.{seen_at, room, same_room, seen_entry, seen-some}
use axn_chat_app.Server.Room.Packets.{map-append_packets}
use axn_chat_app.Server.Room.Life.{connects, newcomer, Life, opens, goes_on}
use axn_chat_app.Server.Room.Histories.{Happened, message-Happened, disconnection-Happened}

fresh_id :
    (m : ClientManager)
    → IsValid m
    → (k : ℕ) (you : Member) → (room m).member k ≡ some you
    → you.id ≢ m.next_client_id
unfolding room
fresh_id m v k you h e =
    let (s, there, same) = seen-some (session_at m k) you h in
    let (p, c) = Connected-at m k s v there in
    let below = v.id_below p s c.object in
    let id : s.id ≡ m.next_client_id = ap (λ u. u.id) same ∙ e in absurd (omega (arith, below, id))

accept-Happened :
    (m : ClientManager) (fd : ℕ)
    → Inv m
    → session_at m fd ≡ none
    → m.next_client_id + 1 < 2 ^ 32
    → Happened m (ok (handle_new_connection m (fd ∷ [])))
unfolding handle_new_connection room session_at sent_to
accept-Happened m fd i free fits =
    let before = call m (set_non_blocking fd) in
    let a = add_client-Accepted before fd i.valid free fits in
    let final = handle_new_connection m (fd ∷ []) in
    let new = new_session m.next_client_id fd in
    let same =
      same_room final (seat (room m) fd (some (newcomer m.next_client_id)) m.usernames)
        (λ k. ap seen_at (a.session k) ∙ seen_entry m fd k (some new) m.usernames) a.usernames in
    record {
      final = final;
      mail = no_mail;
      returns = refl;
      as_event = rw same (connects fd m.next_client_id (rw free refl) (fresh_id m i.valid));
      sends = λ k.
          sent_to-append k (add_client before fd).0.calls (epoll_add fd ∷ [])
          ∙ append-nil (sent_to k (add_client before fd).0.calls)
          ∙ a.sends k
          ∙ sent_to-append k m.calls (set_non_blocking fd ∷ []);
    }

-- What the clients of a state have seen is the life of its room, with this mail.
pub record Lived (m : ClientManager) : Type 0 where
  pub mail : Mail
  pub life : Life (room m) mail
  pub sends : (k : ℕ) → sent_to k m.calls ≡ map packet (mail k)

lives_on :
    {m : ClientManager} {result : Result ClientManager} (final : ClientManager)
    → Lived m
    → result ≡ ok final
    → Happened m result
    → Lived final
lives_on {m} final l e h =
    let same : h.final ≡ final = cc (h.returns, e) in
    let after : Lived h.final = record {
      mail = λ k. l.mail k ++ h.mail k;
      life = goes_on (room m) (room h.final) l.mail h.mail l.life h.as_event;
      sends = λ k.
          h.sends k
          ∙ ap (λ t. t ++ map packet (h.mail k)) (l.sends k)
          ∙ sym (map-append_packets (l.mail k) (h.mail k));
    } in
    rw same at after

prepared-Lived : (listener server_event_fd : ℕ) → Lived (prepared listener server_event_fd)
unfolding room session_at lookup sent_to
prepared-Lived listener server_event_fd = record { mail = no_mail; life = opens; sends = λ k. refl }

-- In every state that a server comes to by connections, reads and hang-ups that do not fault,
-- what each descriptor has ever been sent is the mail of a life of the room that the state stands
-- for: a sequence of connections under ids that no member has, of conversations turn by turn, and
-- of departures.
pub Reach-Lived : (host : Endian) (m : ClientManager) → Reach host m → Lived m
Reach-Lived host m (starts listener server_event_fd) = prepared-Lived listener server_event_fd
Reach-Lived host m (continues n _ r (accepts _ fd free fits)) =
    lives_on (handle_new_connection n (fd ∷ [])) (Reach-Lived host n r) refl
      (accept-Happened n fd (Reach-Inv host r) free fits)
Reach-Lived host m (continues n _ r (receives _ final fd reads e)) =
    lives_on final (Reach-Lived host n r) e
      (message-Happened host n final fd reads (Reach-Inv host r) e)
Reach-Lived host m (continues n _ r (hangs_up _ final fd e)) =
    lives_on final (Reach-Lived host n r) e (disconnection-Happened host n fd (Reach-Inv host r))
