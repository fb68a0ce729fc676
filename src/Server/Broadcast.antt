-- ===== src/Server/Broadcast.antt =====
-- What `ClientManager::broadcast_message` sends, and to whom.
use axn_chat_app.Prelude.{
  ℕ, ◌≤◌, ◌≡◌, refl, ap, sym, ◌∙◌, Bool, false, not, ◌&&◌, Option, none, some, List, [], ◌∷◌, ◌++◌,
  append-nil, append_assoc, Bytes, length, ◌==◌, if◌then◌else◌, Bool-cases, ==_iff, inl, inr, arith,
}
use axn_chat_app.Prelude.Map.{Map, lookup, Distinct, lookup-tail}
use axn_chat_app.Protocol.Words.{Endian}
use axn_chat_app.Protocol.{Message}
use axn_chat_app.Protocol.Wire.{packet, serialize-packet}
use axn_chat_app.Server.State.{
  ok, Call, send, set_non_blocking, ClientSession, ClientManager, deref, serialized,
}
use axn_chat_app.Server.Manager.{broadcast_loop, broadcast_message}
use axn_chat_app.Server.Tables.{IsValid}
use axn_chat_app.Server.Watch.{watched_from, watched_from-append, IsQuiet}

-- What a list of calls hands to one descriptor, in order.
unfoldable pub sent_to : ℕ → List Call → List Bytes
sent_to fd [] = []
sent_to fd (send k bytes ∷ cs) = if k == fd then bytes ∷ sent_to fd cs else sent_to fd cs
sent_to fd (_ ∷ cs) = sent_to fd cs

pub sent_to-append :
    (fd : ℕ) (xs ys : List Call) → sent_to fd (xs ++ ys) ≡ sent_to fd xs ++ sent_to fd ys
unfolding sent_to
sent_to-append fd [] ys = refl
sent_to-append fd (send k bytes ∷ xs) ys = ground (arith, sent_to-append fd xs ys)
sent_to-append fd (set_non_blocking k ∷ xs) ys = sent_to-append fd xs ys
sent_to-append fd (_ ∷ xs) ys = sent_to-append fd xs ys

-- The session behind an entry for a descriptor.
abbrev pub session_in : Map ClientSession → Option ℕ → Option ClientSession
session_in sessions none = none
session_in sessions (some p) = lookup p sessions

-- The session that is connected through a descriptor.
unfoldable pub session_at : ClientManager → ℕ → Option ClientSession
session_at m fd = session_in m.sessions (lookup fd m.session_by_fd)

-- Whether a broadcast that excludes an id is for this session.
abbrev pub hears : ℕ → Option ClientSession → Bool
hears exclude none = false
hears exclude (some s) = s.is_authenticated && not (s.id == exclude)

-- A packet once, or not at all.
abbrev pub once_if : Bool → Bytes → List Bytes
once_if b bytes = if b then bytes ∷ [] else []

module _ (sessions : Map ClientSession) (bytes : Bytes) (exclude : ℕ) where
  abbrev hand : Option ClientSession → List Call
  hand none = []
  hand (some s) =
      if s.is_authenticated && not (s.id == exclude) then send s.socket bytes ∷ [] else []

  unfoldable pub outgoing : Map ℕ → List Call
  outgoing [] = []
  outgoing ((fd, p) ∷ rest) = hand (lookup p sessions) ++ outgoing rest

  abbrev pub AllLive : Map ℕ → Type 0
  AllLive entries =
      (fd p : ℕ)
      → lookup fd entries ≡ some p
      → (s : ClientSession) × (lookup p sessions ≡ some s) × (s.socket ≡ fd)

abbrev pub told : ClientManager → List Call → ClientManager
told m cs = record m { calls = m.calls ++ cs }

lookup_head : (fd p : ℕ) (rest : Map ℕ) → lookup fd ((fd, p) ∷ rest) ≡ some p
unfolding lookup
lookup_head fd p rest = ground arith

broadcast_loop-outgoing :
    (m : ClientManager) (bytes : Bytes) (exclude : ℕ) (entries : Map ℕ)
    → Distinct entries
    → AllLive m.sessions bytes exclude entries
    → broadcast_loop m bytes exclude entries
      ≡ ok (told m (outgoing m.sessions bytes exclude entries))
unfolding broadcast_loop outgoing deref
broadcast_loop-outgoing m bytes exclude [] d live =
    ap ok (ap (λ c. record m { calls = c }) (sym (append-nil m.calls)))
broadcast_loop-outgoing m bytes exclude ((fd, p) ∷ rest) d live =
    let (s, found, at) = live fd p (lookup_head fd p rest) in
    let behind : AllLive m.sessions bytes exclude rest =
      λ j q h. live j q (lookup-tail fd j p q rest d.0 h) in
    elim (Bool-cases (s.is_authenticated && not (s.id == exclude))) [
      | inl hears_it ↦
          rw (found, hears_it)
            (broadcast_loop-outgoing (told m (send s.socket bytes ∷ [])) bytes exclude rest d.1
                behind
              ∙ ap ok (
                  ap (λ c. record m { calls = c })
                    (append_assoc m.calls (send s.socket bytes ∷ [])
                      (outgoing m.sessions bytes exclude rest))))
      | inr not_for_it ↦
          rw (found, not_for_it) (broadcast_loop-outgoing m bytes exclude rest d.1 behind)
    ]

sent_to-hand :
    (bytes : Bytes) (exclude : ℕ) (s : ClientSession) (fd : ℕ)
    → sent_to fd (hand [] bytes exclude (some s))
      ≡ (if s.socket == fd then once_if (hears exclude (some s)) bytes else [])
unfolding sent_to
sent_to-hand bytes exclude s fd = ground arith

-- One entry in front of the others.
sent_to-entry :
    (sessions : Map ClientSession) (bytes : Bytes) (exclude k p fd : ℕ) (rest : Map ℕ)
    (behind : List Call) (s : ClientSession)
    → lookup p sessions ≡ some s
    → s.socket ≡ k
    → lookup k rest ≡ none
    → sent_to fd behind ≡ once_if (hears exclude (session_in sessions (lookup fd rest))) bytes
    → sent_to fd (hand [] bytes exclude (some s) ++ behind)
      ≡ once_if
          (hears exclude (session_in sessions (if k == fd then some p else lookup fd rest)))
          bytes
sent_to-entry sessions bytes exclude k p fd rest behind s found at absent ih =
    rw
      (
        sent_to-append fd (hand [] bytes exclude (some s)) behind,
        sent_to-hand bytes exclude s fd,
        ih,
        at,
      )
      (elim (Bool-cases (k == fd)) [
        | inl hit ↦
            let gone : lookup fd rest ≡ none = rw (← (==_iff k fd).0 hit) absent in
            rw (hit, found, gone) (append-nil (once_if (hears exclude (some s)) bytes))
        | inr miss ↦ rw miss refl
      ])

sent_to-outgoing :
    (sessions : Map ClientSession) (bytes : Bytes) (exclude : ℕ) (entries : Map ℕ) (fd : ℕ)
    → Distinct entries
    → AllLive sessions bytes exclude entries
    → sent_to fd (outgoing sessions bytes exclude entries)
      ≡ once_if (hears exclude (session_in sessions (lookup fd entries))) bytes
unfolding outgoing lookup
sent_to-outgoing sessions bytes exclude [] fd d live = unfold sent_to in refl
sent_to-outgoing sessions bytes exclude ((k, p) ∷ rest) fd d live =
    let (s, found, at) = live k p (lookup_head k p rest) in
    let behind : AllLive sessions bytes exclude rest =
      λ j q h. live j q (lookup-tail k j p q rest d.0 h) in
    let ih = sent_to-outgoing sessions bytes exclude rest fd d.1 behind in
    rw found (
      sent_to-entry sessions bytes exclude k p fd rest (outgoing sessions bytes exclude rest) s
        found at d.0 ih)

hand-IsQuiet :
    (bytes : Bytes) (exclude : ℕ) (o : Option ClientSession) → IsQuiet (hand [] bytes exclude o)
unfolding watched_from
hand-IsQuiet bytes exclude none k b = refl
hand-IsQuiet bytes exclude (some s) k b =
    elim (Bool-cases (s.is_authenticated && not (s.id == exclude))) [
      | inl hears_it ↦ rw hears_it refl
      | inr not_for_it ↦ rw not_for_it refl
    ]

outgoing-IsQuiet :
    (sessions : Map ClientSession) (bytes : Bytes) (exclude : ℕ) (entries : Map ℕ)
    → IsQuiet (outgoing sessions bytes exclude entries)
unfolding outgoing
outgoing-IsQuiet sessions bytes exclude [] k b = unfold watched_from in refl
outgoing-IsQuiet sessions bytes exclude ((fd, p) ∷ rest) k b =
    watched_from-append k b (hand [] bytes exclude (lookup p sessions))
      (outgoing sessions bytes exclude rest)
    ∙ outgoing-IsQuiet sessions bytes exclude rest k
        (watched_from k b (hand [] bytes exclude (lookup p sessions)))
    ∙ hand-IsQuiet bytes exclude (lookup p sessions) k b

-- Where the invariant of the tables holds and the header claims no more than the payload holds, a
-- broadcast does not fault, changes nothing but the calls made, and sends the packet once to each
-- descriptor whose session is authenticated and does not have the excluded id, and nothing to any
-- other; no call changes what epoll watches.
pub broadcast_audience :
    (host : Endian) (m : ClientManager) (message : Message) (exclude : ℕ)
    → IsValid m
    → message.header.payload_size ≤ length message.payload
    → (cs : List Call) × (broadcast_message host m message exclude ≡ ok (told m cs))
      × ((fd : ℕ) → sent_to fd cs ≡ once_if (hears exclude (session_at m fd)) (packet message))
      × IsQuiet cs
unfolding broadcast_message serialized session_at
broadcast_audience host m message exclude v size = (
  outgoing m.sessions (packet message) exclude m.session_by_fd,
  rw (serialize-packet host message size)
      (broadcast_loop-outgoing m (packet message) exclude m.session_by_fd v.one_fd v.fd_live),
  λ fd. sent_to-outgoing m.sessions (packet message) exclude m.session_by_fd fd v.one_fd v.fd_live,
  outgoing-IsQuiet m.sessions (packet message) exclude m.session_by_fd,
)
