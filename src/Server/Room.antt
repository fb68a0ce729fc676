-- ===== src/Server/Room.antt =====
-- What the server promises its clients, without a word of sockets, addresses, maps or buffers: a
-- room of members, and what one message of a member does to the room and brings to each member.
-- `docs` of the repository and the handlers of server/src/server.cpp are what it is read from; the
-- children relate the handlers to it.
pub mod Abstraction
pub mod Packets
pub mod Refine
pub mod Conversed
pub mod Batches
pub mod Authentic
pub mod Life
pub mod Returned
pub mod Histories
pub mod Refinement
pub mod Runs
use axn_chat_app.Prelude.{
  ℕ, ◌≡◌, ◌≢◌, ◌↔◌, Bool, true, false, not, ◌&&◌, Option, none, some, List, [], ◌∷◌, ◌++◌, Bytes,
  codes, ◌==◌, if◌then◌else◌, In,
}
use axn_chat_app.Prelude.Names
use axn_chat_app.Prelude.Decimal.{to_string}
use axn_chat_app.Protocol.{
  Message, server_id, broadcast_id, new_message, c2s_join, c2s_broadcast, c2s_private, c2s_leave,
  c2s_user_joined_list, s2c_join_success, s2c_join_failure, s2c_broadcast, s2c_private,
  s2c_user_joined, s2c_user_left, s2c_user_joined_list, s2c_error,
}

pub record Member : Type 0 where
  pub id : ℕ
  pub username : Bytes
  pub joined : Bool

-- Who is connected through which descriptor, and the names that are taken.
pub record Room : Type 0 where
  pub member : ℕ → Option Member
  pub taken : List Bytes

-- What each descriptor is sent.
abbrev pub Mail : Type 0
Mail = ℕ → List Message

abbrev pub no_mail : Mail
no_mail k = []

abbrev pub only_if : Bool → Message → List Message
only_if b x = if b then x ∷ [] else []

abbrev pub mail_to : ℕ → Message → Mail
mail_to fd x k = only_if (fd == k) x

-- Whether a member is one that has joined and has not this id.
abbrev pub is_other : ℕ → Option Member → Bool
is_other id none = false
is_other id (some you) = you.joined && not (you.id == id)

abbrev pub mail_to_others : Room → ℕ → Message → Mail
mail_to_others r id x k = only_if (is_other id (r.member k)) x

-- The room with one descriptor's member replaced, and with these names.
abbrev pub seat : Room → ℕ → Option Member → List Bytes → Room
seat r fd who names = record { member = λ k. if fd == k then who else r.member k; taken = names }

abbrev pub member_entry : Member → Bytes
member_entry u = u.username ++ (codes ":" ++ to_string u.id)

-- `name:id`, with a comma between two.
unfoldable pub roster : List Member → Bytes
roster [] = []
roster (u ∷ []) = member_entry u
roster (u ∷ w ∷ us) = member_entry u ++ (codes "," ++ roster (w ∷ us))

abbrev pub roster_messages : Member → List Member → List Message
roster_messages me [] = []
roster_messages me (u ∷ us) =
    new_message s2c_user_joined_list server_id me.id (roster (u ∷ us)) ∷ []

abbrev pub greeting : Member → Bytes → Message
greeting me name =
    new_message s2c_join_success server_id me.id
      (codes "Welcome to the chat, " ++ (name ++ codes "!"))

abbrev pub refusal : Member → Message
refusal me = new_message s2c_join_failure server_id me.id (codes "Username already exists")

abbrev pub whisper : Member → Message → Message
whisper me x = new_message s2c_private me.id x.header.receiver_id x.payload

abbrev pub unknown_receiver : Member → Message
unknown_receiver me =
    new_message s2c_error server_id me.id (codes "Receiver not found or not connected.")

-- What a message `x` of the member `me` at the descriptor `fd` does: the room after it, and the
-- mail. A list of members may name them in any order.
pub data Turn (r : Room) (fd : ℕ) (me : Member) (x : Message) : Room → Mail → Type 0 where
  joins_again : x.header.type ≡ c2s_join → me.joined ≡ true → Turn r fd me x r no_mail
  is_refused :
      x.header.type ≡ c2s_join
      → me.joined ≡ false
      → Names.contains x.payload r.taken ≡ true
      → Turn r fd me x (seat r fd none (Names.erase me.username r.taken)) (mail_to fd (refusal me))
  is_welcomed :
      x.header.type ≡ c2s_join
      → me.joined ≡ false
      → Names.contains x.payload r.taken ≡ false
      → Turn r fd me x
          (seat r fd
            (some (record me { username = x.payload; joined = true }))
            (Names.insert x.payload r.taken))
          (λ k.
            mail_to fd (greeting me x.payload) k
            ++ mail_to_others r me.id (new_message s2c_user_joined me.id broadcast_id x.payload) k)
  speaks :
      x.header.type ≡ c2s_broadcast
      → me.joined ≡ true
      → Turn r fd me x r
          (mail_to_others r me.id (new_message s2c_broadcast me.id broadcast_id x.payload))
  is_unheard : x.header.type ≡ c2s_broadcast → me.joined ≡ false → Turn r fd me x r no_mail
  whispers :
      (k : ℕ) (you : Member)
      → x.header.type ≡ c2s_private
      → me.joined ≡ true
      → r.member k ≡ some you
      → you.id ≡ x.header.receiver_id
      → Turn r fd me x r (mail_to k (whisper me x))
  whispers_unheard :
      (k : ℕ) (you : Member)
      → x.header.type ≡ c2s_private
      → me.joined ≡ false
      → r.member k ≡ some you
      → you.id ≡ x.header.receiver_id
      → Turn r fd me x r no_mail
  whispers_to_nobody :
      x.header.type ≡ c2s_private
      → ((k : ℕ) (you : Member) → r.member k ≡ some you → you.id ≢ x.header.receiver_id)
      → Turn r fd me x r (mail_to fd (unknown_receiver me))
  asks :
      (us : List Member)
      → x.header.type ≡ c2s_user_joined_list
      → ((u : Member)
          → In u us ↔ ((k : ℕ) × (r.member k ≡ some u) × (u.joined ≡ true) × (u.id ≢ me.id)))
      → Turn r fd me x r (λ k. if fd == k then roster_messages me us else [])
  leaves :
      x.header.type ≡ c2s_leave
      → Turn r fd me x (seat r fd none (Names.erase me.username r.taken)) (λ k.
        only_if
          (me.joined && is_other me.id (r.member k))
          (new_message s2c_user_left me.id broadcast_id me.username))
  is_ignored :
      x.header.type ≢ c2s_join
      → x.header.type ≢ c2s_broadcast
      → x.header.type ≢ c2s_private
      → x.header.type ≢ c2s_user_joined_list
      → x.header.type ≢ c2s_leave
      → Turn r fd me x r no_mail

-- The messages of one member, one after the other, each on the room that the one before left.
pub data Turns (fd : ℕ) : Room → List Message → Room → Mail → Type 0 where
  silent : (r : Room) → Turns fd r [] r no_mail
  turn :
      (r r' r'' : Room) (me : Member) (x : Message) (xs : List Message) (mail more : Mail)
      → r.member fd ≡ some me
      → Turn r fd me x r' mail
      → Turns fd r' xs r'' more
      → Turns fd r (x ∷ xs) r'' (λ k. mail k ++ more k)
