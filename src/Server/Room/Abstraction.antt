-- ===== src/Server/Room/Abstraction.antt =====
-- The room that a server's state stands for, and how the outcome of a handler becomes a turn.
use axn_chat_app.Prelude.{
  ℕ, ◌≡◌, refl, ap, ◌∙◌, Bool, true, false, Option, none, some, List, ◌++◌, map, Bytes, ◌==◌,
  Bool-cases, inl, inr,
}
use mathlib.Core.Path.{fun_ext}
use axn_chat_app.Prelude.Map.{lookup}
use axn_chat_app.Protocol.{Message}
use axn_chat_app.Protocol.Wire.{packet}
use axn_chat_app.Server.State.{Result, ok, ClientSession, ClientManager}
use axn_chat_app.Server.Tables.{IsValid}
use axn_chat_app.Server.Broadcast.{session_at, hears, once_if, sent_to}
use axn_chat_app.Server.Outcome.{Outcome, Connected, with_entry, session_at-Connected}
use axn_chat_app.Server.Room.{Member, Room, Mail, only_if, is_other, seat, Turn}

-- The buffer and the descriptor of a session are not seen.
abbrev pub seen : ClientSession → Member
seen s = record { id = s.id; username = s.username; joined = s.is_authenticated }

abbrev pub seen_at : Option ClientSession → Option Member
seen_at none = none
seen_at (some s) = some (seen s)

unfoldable pub room : ClientManager → Room
room m = record { member = λ k. seen_at (session_at m k); taken = m.usernames }

pub member_seen :
    {m : ClientManager} {fd p : ℕ} {s : ClientSession}
    → Connected m fd p s
    → (room m).member fd ≡ some (seen s)
unfolding room
member_seen {fd = fd} c = rw (session_at-Connected c) refl

pub seen-some :
    (o : Option ClientSession) (u : Member)
    → seen_at o ≡ some u
    → (s : ClientSession) × (o ≡ some s) × (seen s ≡ u)
seen-some none u e = cc
seen-some (some s) u e = (s, refl, cc)

pub hears-is_other : (id : ℕ) (o : Option ClientSession) → hears id o ≡ is_other id (seen_at o)
hears-is_other id none = refl
hears-is_other id (some s) = refl

pub once_if-only_if : (b : Bool) (x : Message) → once_if b (packet x) ≡ map packet (only_if b x)
once_if-only_if true x = refl
once_if-only_if false x = refl

-- A call returns, and the room it leaves and what it sends are those of a turn.
pub record Taken (m : ClientManager) (result : Result ClientManager) (fd : ℕ) (s : ClientSession)
    (x : Message) : Type 0 where
  pub final : ClientManager
  pub mail : Mail
  pub returns : result ≡ ok final
  pub as_turn : Turn (room m) fd (seen s) x (room final) mail
  pub sends : (k : ℕ) → sent_to k final.calls ≡ sent_to k m.calls ++ map packet (mail k)
  pub valid : IsValid final
  pub pointers :
      (k q : ℕ) → lookup k final.session_by_fd ≡ some q → lookup k m.session_by_fd ≡ some q

pub same_room :
    (final : ClientManager) (r : Room)
    → ((k : ℕ) → seen_at (session_at final k) ≡ r.member k)
    → final.usernames ≡ r.taken
    → room final ≡ r
unfolding room
same_room final r e f =
    ap (λ t. record { member = t; taken = final.usernames }) (fun_ext e)
    ∙ ap (λ t. record { member = r.member; taken = t }) f

module _ {m : ClientManager} {result : Result ClientManager} {table : ℕ → Option ClientSession}
    {names : List Bytes} {sent : ℕ → List Bytes} {fd : ℕ} {s : ClientSession} {x : Message}
    (o : Outcome m result table names sent) where
  pub Outcome-Taken :
      (r : Room) (mail : Mail)
      → ((k : ℕ) → seen_at (table k) ≡ r.member k)
      → names ≡ r.taken
      → ((k : ℕ) → sent k ≡ map packet (mail k))
      → Turn (room m) fd (seen s) x r mail
      → Taken m result fd s x
  Outcome-Taken r mail e f g t =
      let same = same_room o.final r (λ k. ap seen_at (o.session k) ∙ e k) (o.usernames ∙ f) in
      record {
        final = o.final;
        mail = mail;
        returns = o.returns;
        as_turn = rw same t;
        sends = λ k. o.sends k ∙ ap (λ l. sent_to k m.calls ++ l) (g k);
        valid = o.valid;
        pointers = o.pointers;
      }

-- The room in which one descriptor's session is replaced.
pub seen_entry :
    (m : ClientManager) (fd k : ℕ) (entry : Option ClientSession) (names : List Bytes)
    → seen_at (with_entry (session_at m) fd entry k)
      ≡ (seat (room m) fd (seen_at entry) names).member k
unfolding room
seen_entry m fd k entry names = elim (Bool-cases (fd == k)) [
  | inl here ↦ rw here refl
  | inr there ↦ rw there refl
]
