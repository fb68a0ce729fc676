-- ===== src/Server/Room/Conversed.antt =====
-- What a member's messages come to, turn by turn: how one turn is put in front of others.
use axn_chat_app.Prelude.{
  ℕ, ◌≡◌, refl, ap, sym, ◌∙◌, none, some, List, [], ◌∷◌, ◌++◌, map, Bytes, append-nil, append_assoc,
  Option-cases, Bool-cases, ◌==◌, ==_iff, inl, inr,
}
use mathlib.Core.Path.{fun_ext}
use axn_chat_app.Prelude.Map.{lookup}
use axn_chat_app.Protocol.Words.{Endian}
use axn_chat_app.Protocol.{Message}
use axn_chat_app.Protocol.Wire.{packet}
use axn_chat_app.Server.State.{Result, ok, err, use_after_free, ClientSession, ClientManager}
use axn_chat_app.Server.Reading.{set_read_buffer}
use axn_chat_app.Server.Tables.{IsValid}
use axn_chat_app.Server.Broadcast.{session_at, sent_to}
use axn_chat_app.Server.Outcome.{Connected, Connected-at, session_at-write, session_at-Connected}
use axn_chat_app.Server.Draining.{buffered}
use axn_chat_app.Server.Invariant.{Inv}
use axn_chat_app.Server.History.{owner}
use axn_chat_app.Server.Room.{Room, Mail, no_mail, Turns, silent, turn}
use axn_chat_app.Server.Room.Abstraction.{seen, seen_at, room, Taken}
use axn_chat_app.Server.Room.Packets.{map-append_packets}

-- A call returns, and leaves and sends what the turns of these messages do.
pub record Conversed (m : ClientManager) (result : Result ClientManager) (fd : ℕ)
    (ms : List Message) : Type 0 where
  pub final : ClientManager
  pub mail : Mail
  pub returns : result ≡ ok final
  pub inv : Inv final
  pub turns : Turns fd (room m) ms (room final) mail
  pub sends : (k : ℕ) → sent_to k final.calls ≡ sent_to k m.calls ++ map packet (mail k)

-- Some of the messages, in turn, end the member's stay, and the call then reads its session.
pub record Ejected (m : ClientManager) (result : Result ClientManager) (fd : ℕ) (ms : List Message)
    : Type 0 where
  pub before : List Message
  pub behind : List Message
  pub left : Room
  pub mail : Mail
  pub split : ms ≡ before ++ behind
  pub turns : Turns fd (room m) before left mail
  pub gone : left.member fd ≡ none
  pub faults : result ≡ err use_after_free

module _ (host : Endian) {m : ClientManager} {fd p : ℕ} {s : ClientSession} (i : Inv m)
    (c : Connected m fd p s) where
  -- What a session holds unread is not seen.
  pub room_unread : (buffer : Bytes) → room (set_read_buffer m p s buffer) ≡ room m
  unfolding room
  room_unread buffer =
      ap (λ t. record { member = t; taken = m.usernames })
        (fun_ext (λ k.
          ap seen_at (session_at-write i.valid c (buffered s buffer) k)
          ∙ elim (Bool-cases (fd == k)) [
            | inl here ↦
                let at : session_at m k ≡ some s =
                  ap (session_at m) (sym ((==_iff fd k).0 here)) ∙ session_at-Connected c in
                rw (here, at) refl
            | inr there ↦ rw there refl
          ]))

  pub unread :
      (buffer : Bytes) {result result' : Result ClientManager} {ms : List Message}
      → result' ≡ result
      → Conversed (set_read_buffer m p s buffer) result fd ms
      → Conversed m result' fd ms
  unread buffer {ms = ms} e t = record {
    final = t.final;
    mail = t.mail;
    returns = e ∙ t.returns;
    inv = t.inv;
    turns = rw (sym (room_unread buffer)) t.turns;
    sends = t.sends;
  }

  pub unread-Ejected :
      (buffer : Bytes) {result result' : Result ClientManager} {ms : List Message}
      → result' ≡ result
      → Ejected (set_read_buffer m p s buffer) result fd ms
      → Ejected m result' fd ms
  unread-Ejected buffer e t = record {
    before = t.before;
    behind = t.behind;
    left = t.left;
    mail = t.mail;
    split = t.split;
    turns = rw (sym (room_unread buffer)) t.turns;
    gone = t.gone;
    faults = e ∙ t.faults;
  }

module _ {m : ClientManager} (final : ClientManager) {fd p : ℕ} {s : ClientSession} (v : IsValid m)
    (c : Connected m fd p s) (v' : IsValid final)
    (pointers : (k q : ℕ)
      → lookup k final.session_by_fd ≡ some q
      → lookup k m.session_by_fd ≡ some q) where
  pub gone-none : lookup p final.sessions ≡ none → (room final).member fd ≡ none
  unfolding room
  gone-none gone = elim (Option-cases (session_at final fd)) [
    | inl nobody ↦ rw nobody refl
    | inr (t, there) ↦
        let (q, d) = Connected-at final fd t v' there in
        absurd (cc (gone, d.object, pointers fd q d.pointer, c.pointer))
  ]

  pub still_there : (t : ClientSession) → lookup p final.sessions ≡ some t → Connected final fd p t
  still_there t object =
      let d = owner final p t v' object in
      let (u, found, at) = v.fd_live t.socket p (pointers t.socket p d.pointer) in
      let here : t.socket ≡ fd = cc (found, at, c.object, c.socket) in
      record { pointer = rw here at d.pointer; object = object; socket = here }

pub no_turns :
    {m : ClientManager} {result : Result ClientManager} (fd : ℕ)
    → Inv m
    → result ≡ ok m
    → Conversed m result fd []
no_turns {m} fd i e = record {
  final = m;
  mail = no_mail;
  returns = e;
  inv = i;
  turns = silent (room m);
  sends = λ k. sym (append-nil (sent_to k m.calls));
}

module _ {m : ClientManager} {result : Result ClientManager} {fd : ℕ} {s : ClientSession}
    {x : Message} (o : Taken m result fd s x) (at : (room m).member fd ≡ some (seen s)) where
  pub first_turn :
      {more : Result ClientManager} {ms : List Message}
      → Conversed o.final more fd ms
      → Conversed m more fd (x ∷ ms)
  first_turn {ms = ms} t = record {
    final = t.final;
    mail = λ k. o.mail k ++ t.mail k;
    returns = t.returns;
    inv = t.inv;
    turns =
        turn (room m) (room o.final) (room t.final) (seen s) x ms o.mail t.mail at o.as_turn
          t.turns;
    sends = λ k.
        t.sends k
        ∙ ap (λ l. l ++ map packet (t.mail k)) (o.sends k)
        ∙ append_assoc (sent_to k m.calls) (map packet (o.mail k)) (map packet (t.mail k))
        ∙ ap (λ l. sent_to k m.calls ++ l) (sym (map-append_packets (o.mail k) (t.mail k)));
  }

  pub first_turn-Ejected :
      {more : Result ClientManager} {ms : List Message}
      → Ejected o.final more fd ms
      → Ejected m more fd (x ∷ ms)
  first_turn-Ejected {ms = ms} t = record {
    before = x ∷ t.before;
    behind = t.behind;
    left = t.left;
    mail = λ k. o.mail k ++ t.mail k;
    split = ap (λ l. x ∷ l) t.split;
    turns =
        turn (room m) (room o.final) t.left (seen s) x t.before o.mail t.mail at o.as_turn t.turns;
    gone = t.gone;
    faults = t.faults;
  }

pub no_more_turns :
    {m : ClientManager} {result : Result ClientManager} (fd : ℕ) (ms : List Message)
    → (room m).member fd ≡ none
    → result ≡ err use_after_free
    → Ejected m result fd ms
no_more_turns {m} fd ms gone e = record {
  before = [];
  behind = ms;
  left = room m;
  mail = no_mail;
  split = refl;
  turns = silent (room m);
  gone = gone;
  faults = e;
}
