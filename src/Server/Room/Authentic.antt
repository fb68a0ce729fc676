-- ===== src/Server/Room/Authentic.antt =====
-- Whose words a member hears, in the room and so from `Server::process_message`.
use axn_chat_app.Prelude.{
  ℕ, ◌≡◌, ◌≢◌, ◌⊎◌, refl, ap, ◌∙◌, Bool, true, false, ◌&&◌, List, [], ◌∷◌, ◌++◌, map, append-nil,
  ◌==◌, if◌then◌else◌, Bool-cases, ==_iff, inl, inr, arith, All,
}
use axn_chat_app.Protocol.Words.{Endian}
use axn_chat_app.Protocol.{Message, server_id, new_message, c2s_join}
use axn_chat_app.Protocol.Wire.{packet}
use axn_chat_app.Server.State.{ok, ClientSession, ClientManager}
use axn_chat_app.Server.Handlers.{process_message}
use axn_chat_app.Server.Tables.{IsValid}
use axn_chat_app.Server.Broadcast.{sent_to}
use axn_chat_app.Server.Outcome.{Connected}
use axn_chat_app.Server.Room.{
  Member, Room, Mail, only_if, mail_to, is_other, roster_messages, refusal, greeting, whisper,
  unknown_receiver, Turn, joins_again, is_refused, is_welcomed, speaks, is_unheard, whispers,
  whispers_unheard, whispers_to_nobody, asks, leaves, is_ignored,
}
use axn_chat_app.Server.Room.Abstraction.{room}
use axn_chat_app.Server.Room.Refine.{process_message-Taken}

-- A message that one member's message brings to a descriptor names that member as its sender, or
-- it is the server's answer to that member.
abbrev pub IsAuthentic : ℕ → ℕ → ℕ → Message → Type 0
IsAuthentic id fd k y = (y.header.sender_id ≡ id) ⊎ ((fd ≡ k) × (y.header.sender_id ≡ server_id))

module _ (P : Message → Type 0) where
  All-only_if : (b : Bool) (y : Message) → (b ≡ true → P y) → All P (only_if b y)
  All-only_if true y h = (h refl, tt)
  All-only_if false y h = tt

  All-both : (xs ys : List Message) → All P xs → All P ys → All P (xs ++ ys)
  All-both [] ys h g = g
  All-both (x ∷ xs) ys h g = (h.0, All-both xs ys h.1 g)

module _ (id fd k : ℕ) where
  server_answers :
      (y : Message) → y.header.sender_id ≡ server_id → All (IsAuthentic id fd k) (mail_to fd y k)
  server_answers y e =
      All-only_if (IsAuthentic id fd k) (fd == k) y (λ h. inr ((==_iff fd k).0 h, e))

  own_words :
      (b : Bool) (y : Message) → y.header.sender_id ≡ id → All (IsAuthentic id fd k) (only_if b y)
  own_words b y e = All-only_if (IsAuthentic id fd k) b y (λ h. inl e)

  roster_answers :
      (me : Member) (us : List Member)
      → All (IsAuthentic id fd k) (if fd == k then roster_messages me us else [])
  unfolding new_message
  roster_answers me [] = elim (Bool-cases (fd == k)) [ inl h ↦ rw h tt | inr h ↦ rw h tt ]
  roster_answers me (u ∷ us) = server_answers _ refl

  elsewhere : (y : Message) → fd ≢ k → mail_to fd y k ≡ []
  elsewhere y ne = ground (arith, ==_iff fd k)

  roster_elsewhere :
      (me : Member) (us : List Member)
      → fd ≢ k
      → (if fd == k then roster_messages me us else []) ≡ []
  roster_elsewhere me us ne = elim (Bool-cases (fd == k)) [
    | inl here ↦ absurd (ne ((==_iff fd k).0 here))
    | inr there ↦ rw there refl
  ]

module _ {r : Room} {fd : ℕ} {me : Member} {x : Message} where
  Turn-IsAuthentic :
      (r' : Room) (mail : Mail)
      → Turn r fd me x r' mail
      → (k : ℕ) → All (IsAuthentic me.id fd k) (mail k)
  unfolding new_message
  Turn-IsAuthentic r' mail (joins_again t j) k = tt
  Turn-IsAuthentic r' mail (is_refused t j n) k = server_answers me.id fd k (refusal me) refl
  Turn-IsAuthentic r' mail (is_welcomed t j n) k =
      All-both (IsAuthentic me.id fd k) (mail_to fd (greeting me x.payload) k) _
        (server_answers me.id fd k (greeting me x.payload) refl)
        (own_words me.id fd k (is_other me.id (r.member k)) _ refl)
  Turn-IsAuthentic r' mail (speaks t j) k =
      own_words me.id fd k (is_other me.id (r.member k)) _ refl
  Turn-IsAuthentic r' mail (is_unheard t j) k = tt
  Turn-IsAuthentic r' mail (whispers j you t h at e) k =
      own_words me.id fd k (j == k) (whisper me x) refl
  Turn-IsAuthentic r' mail (whispers_unheard j you t h at e) k = tt
  Turn-IsAuthentic r' mail (whispers_to_nobody t h) k =
      server_answers me.id fd k (unknown_receiver me) refl
  Turn-IsAuthentic r' mail (asks us t h) k = roster_answers me.id fd k me us
  Turn-IsAuthentic r' mail (leaves t) k =
      own_words me.id fd k (me.joined && is_other me.id (r.member k)) _ refl
  Turn-IsAuthentic r' mail (is_ignored a b c d e) k = tt

  Turn-unheard :
      (r' : Room) (mail : Mail)
      → Turn r fd me x r' mail
      → me.joined ≡ false
      → x.header.type ≢ c2s_join
      → (k : ℕ) → fd ≢ k
      → mail k ≡ []
  Turn-unheard r' mail (joins_again t j) f n k ne = refl
  Turn-unheard r' mail (is_refused t j _) f n k ne = elsewhere me.id fd k (refusal me) ne
  Turn-unheard r' mail (is_welcomed t j _) f n k ne = absurd (n t)
  Turn-unheard r' mail (speaks t j) f n k ne = absurd (cc (f, j))
  Turn-unheard r' mail (is_unheard t j) f n k ne = refl
  Turn-unheard r' mail (whispers j you t h at e) f n k ne = absurd (cc (f, h))
  Turn-unheard r' mail (whispers_unheard j you t h at e) f n k ne = refl
  Turn-unheard r' mail (whispers_to_nobody t h) f n k ne =
      elsewhere me.id fd k (unknown_receiver me) ne
  Turn-unheard r' mail (asks us t h) f n k ne = roster_elsewhere me.id fd k me us ne
  Turn-unheard r' mail (leaves t) f n k ne = rw f refl
  Turn-unheard r' mail (is_ignored a b c d e) f n k ne = refl

module _ (host : Endian) {m : ClientManager} {fd p : ℕ} {s : ClientSession} (v : IsValid m)
    (c : Connected m fd p s) (x : Message) where
  -- Where the invariant of the tables holds, a message of a connected client brings each
  -- descriptor only packets that name that client as their sender, whatever its header says, and
  -- answers of the server, which go to that client alone.
  pub process_message-IsAuthentic :
      (final : ClientManager) × (process_message host m p x ≡ ok final)
      × ((k : ℕ)
          → (ys : List Message) × (sent_to k final.calls ≡ sent_to k m.calls ++ map packet ys)
            × All (IsAuthentic s.id fd k) ys)
  process_message-IsAuthentic =
      let o = process_message-Taken host v c x in
      (
        o.final,
        o.returns,
        λ k. (o.mail k, o.sends k, Turn-IsAuthentic (room o.final) o.mail o.as_turn k),
      )

  -- Where the invariant of the tables holds, a client that has not joined has nothing sent to any
  -- other descriptor by a message that is not a JOIN.
  pub process_message_unheard :
      s.is_authenticated ≡ false
      → x.header.type ≢ c2s_join
      → (k : ℕ) → fd ≢ k
      → (final : ClientManager) × (process_message host m p x ≡ ok final)
        × (sent_to k final.calls ≡ sent_to k m.calls)
  process_message_unheard anonymous other k ne =
      let o = process_message-Taken host v c x in
      (
        o.final,
        o.returns,
        o.sends k
            ∙ ap (λ l. sent_to k m.calls ++ map packet l)
                (Turn-unheard (room o.final) o.mail o.as_turn anonymous other k ne)
            ∙ append-nil (sent_to k m.calls),
      )
