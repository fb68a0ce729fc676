-- ===== src/Server/Room/Life.antt =====
-- The room over time: connections, conversations and departures, one after the other.
use axn_chat_app.Prelude.{ℕ, ◌≡◌, ◌≢◌, ◌&&◌, false, none, some, List, [], ◌++◌}
use axn_chat_app.Prelude.Names
use axn_chat_app.Protocol.{Message, broadcast_id, new_message, s2c_user_left}
use axn_chat_app.Server.Room.{Member, Room, Mail, no_mail, only_if, is_other, seat, Turns}

-- Who connects has an id that no member has, no name, and has not joined.
abbrev pub newcomer : ℕ → Member
newcomer id = record { id = id; username = []; joined = false }

-- The others that have joined hear of one that leaves, if that one had joined.
abbrev pub farewell : Room → Member → Mail
farewell r me k =
    only_if (me.joined && is_other me.id (r.member k))
      (new_message s2c_user_left me.id broadcast_id me.username)

pub data Happens (r : Room) : Room → Mail → Type 0 where
  connects :
      (fd id : ℕ)
      → r.member fd ≡ none
      → ((k : ℕ) (you : Member) → r.member k ≡ some you → you.id ≢ id)
      → Happens r (seat r fd (some (newcomer id)) r.taken) no_mail
  converses :
      (fd : ℕ) (ms : List Message) (r' : Room) (mail : Mail)
      → Turns fd r ms r' mail
      → Happens r r' mail
  departs :
      (fd : ℕ) (me : Member)
      → r.member fd ≡ some me
      → Happens r (seat r fd none (Names.erase me.username r.taken)) (farewell r me)
  nothing_happens : Happens r r no_mail

abbrev pub empty_room : Room
empty_room = record { member = λ k. none; taken = [] }

-- The rooms that come about from the empty one, each with all the mail until then.
pub data Life : Room → Mail → Type 0 where
  opens : Life empty_room no_mail
  goes_on :
      (r r' : Room) (mail more : Mail)
      → Life r mail
      → Happens r r' more
      → Life r' (λ k. mail k ++ more k)
