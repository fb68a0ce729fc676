-- ===== src/Server/Room/Packets.antt =====
-- The packets that handlers send, as mail of the room.
use axn_chat_app.Prelude.{
  ℕ, ◌≡◌, refl, ap, sym, List, [], ◌∷◌, ◌++◌, map, Bytes, codes, ◌==◌, if◌then◌else◌, inl, inr,
  arith, In,
}
use axn_chat_app.Protocol.{Message, new_message, broadcast_id, s2c_user_joined}
use axn_chat_app.Protocol.Wire.{packet}
use axn_chat_app.Server.State.{ClientSession, ClientManager}
use axn_chat_app.Server.Broadcast.{session_at, hears, once_if}
use axn_chat_app.Server.Joining.{welcome_packet, joined_packet}
use axn_chat_app.Server.Roster.{list_packets, user_text, entry}
use axn_chat_app.Server.Room.{
  Member, mail_to, is_other, mail_to_others, roster, roster_messages, greeting,
}
use axn_chat_app.Server.Room.Abstraction.{seen, seen_at, room, hears-is_other, once_if-only_if}

pub others_mail :
    (m : ClientManager) (id k : ℕ) (x : Message)
    → once_if (hears id (session_at m k)) (packet x) ≡ map packet (mail_to_others (room m) id x k)
unfolding room
others_mail m id k x =
    rw (hears-is_other id (session_at m k))
      (once_if-only_if (is_other id (seen_at (session_at m k))) x)

pub map-append_packets :
    (xs ys : List Message) → map packet (xs ++ ys) ≡ map packet xs ++ map packet ys
map-append_packets [] ys = refl
map-append_packets (x ∷ xs) ys = ap (λ t. packet x ∷ t) (map-append_packets xs ys)

pub welcome_mail :
    (m : ClientManager) (s : ClientSession) (fd k : ℕ) (name : Bytes)
    → once_if (fd == k) (welcome_packet s name)
        ++ once_if (hears s.id (session_at m k)) (joined_packet s name)
      ≡ map packet (
          mail_to fd (greeting (seen s) name) k
          ++ mail_to_others (room m) s.id (new_message s2c_user_joined s.id broadcast_id name) k)
welcome_mail m s fd k name =
    let announced = new_message s2c_user_joined s.id broadcast_id name in
    rw (others_mail m s.id k announced, once_if-only_if (fd == k) (greeting (seen s) name))
      (sym (
        map-append_packets (mail_to fd (greeting (seen s) name) k)
          (mail_to_others (room m) s.id announced k)))

user_text-roster : (ss : List ClientSession) → user_text ss ≡ roster (map seen ss)
unfolding user_text roster entry
user_text-roster [] = refl
user_text-roster (s ∷ []) = refl
user_text-roster (s ∷ t ∷ ss) = ap (λ x. entry s ++ (codes "," ++ x)) (user_text-roster (t ∷ ss))

pub list_mail :
    (s : ClientSession) (ss : List ClientSession) (fd k : ℕ)
    → (if fd == k then list_packets s ss else [])
      ≡ map packet (if fd == k then roster_messages (seen s) (map seen ss) else [])
list_mail s [] fd k = ground arith
list_mail s (t ∷ ss) fd k = rw (user_text-roster (t ∷ ss)) (ground arith)

pub In-map-seen :
    (u : Member) (ss : List ClientSession)
    → In u (map seen ss)
    → (s : ClientSession) × In s ss × (seen s ≡ u)
In-map-seen u [] h = absurd h
In-map-seen u (s ∷ ss) (inl e) = (s, inl refl, sym e)
In-map-seen u (s ∷ ss) (inr h) = let (t, there, e) = In-map-seen u ss h in (t, inr there, e)

pub map-seen-In :
    (s : ClientSession) (ss : List ClientSession) → In s ss → In (seen s) (map seen ss)
map-seen-In s [] h = absurd h
map-seen-In s (t ∷ ss) (inl e) = inl (ap seen e)
map-seen-In s (t ∷ ss) (inr h) = inr (map-seen-In s ss h)
