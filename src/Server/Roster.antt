-- ===== src/Server/Roster.antt =====
-- `Server::process_user_joined_list`: who is listed, and the text of the list.
use axn_chat_app.Prelude.{
  ℕ, ◌≡◌, ◌≢◌, ◌↔◌, ◌⊎◌, refl, ap, sym, ◌∙◌, true, not, ◌&&◌, Option, none, some, List, [], ◌∷◌,
  ◌++◌, map, append-nil, Bytes, codes, ◌==◌, if◌then◌else◌, Bool-cases, inl, inr, arith, In,
  In-append, append-In_right,
}
use axn_chat_app.Prelude.Map.{Map, lookup, Distinct, lookup-tail}
use axn_chat_app.Prelude.Decimal.{to_string}
use axn_chat_app.Protocol.Words.{Endian}
use axn_chat_app.Protocol.{server_id, new_message, s2c_user_joined_list}
use axn_chat_app.Protocol.Wire.{packet, new_message-fits}
use axn_chat_app.Server.State.{ok, ClientSession, ClientManager, deref}
use axn_chat_app.Server.Handlers.{
  pop_back, join_entries, user_entries, send_user_list, process_user_joined_list,
}
use axn_chat_app.Server.Tables.{IsValid}
use axn_chat_app.Server.Broadcast.{session_at}
use axn_chat_app.Server.Outcome.{
  Outcome, Connected, Connected-at, session_at-Connected, same_sends, nothing_happens,
}
use axn_chat_app.Server.Sending.{send-Outcome}

abbrev listed : ℕ → Option ClientSession → List ClientSession
listed self none = []
listed self (some s) = if s.is_authenticated && not (s.id == self) then s ∷ [] else []

-- The authenticated sessions but one, in the order of `session_by_id_`.
unfoldable pub others : Map ClientSession → ℕ → Map ℕ → List ClientSession
others sessions self [] = []
others sessions self ((id, p) ∷ rest) = listed self (lookup p sessions) ++ others sessions self rest

-- One entry of the list.
unfoldable pub entry : ClientSession → Bytes
entry s = s.username ++ (codes ":" ++ to_string s.id)

-- The entries with a comma between them.
unfoldable pub user_text : List ClientSession → Bytes
user_text [] = []
user_text (s ∷ []) = entry s
user_text (s ∷ t ∷ rest) = entry s ++ (codes "," ++ user_text (t ∷ rest))

abbrev AllKnown : Map ClientSession → Map ℕ → Type 0
AllKnown sessions entries =
    (id p : ℕ)
    → lookup id entries ≡ some p
    → (s : ClientSession) × (lookup p sessions ≡ some s) × (s.id ≡ id)

lookup_head : (id p : ℕ) (rest : Map ℕ) → lookup id ((id, p) ∷ rest) ≡ some p
unfolding lookup
lookup_head id p rest = ground arith

user_entries-others :
    (m : ClientManager) (self : ℕ) (entries : Map ℕ)
    → Distinct entries
    → AllKnown m.sessions entries
    → user_entries m self (map (λ e. e.1) entries) ≡ ok (map entry (others m.sessions self entries))
unfolding user_entries others deref entry
user_entries-others m self [] d known = refl
user_entries-others m self ((id, p) ∷ rest) d known =
    let (s, found, at) = known id p (lookup_head id p rest) in
    let behind : AllKnown m.sessions rest = λ j q h. known j q (lookup-tail id j p q rest d.0 h) in
    rw (found, user_entries-others m self rest d.1 behind)
      (elim (Bool-cases (s.is_authenticated && not (s.id == self))) [
        | inl shown ↦ rw shown refl
        | inr hidden ↦ rw hidden refl
      ])

pop_back-append :
    (xs : Bytes) (y : ℕ) (ys : Bytes) → pop_back (xs ++ y ∷ ys) ≡ xs ++ pop_back (y ∷ ys)
pop_back-append [] y ys = refl
pop_back-append (x ∷ []) y ys = refl
pop_back-append (x ∷ z ∷ xs) y ys = ap (λ t. x ∷ t) (pop_back-append (z ∷ xs) y ys)

-- A joined list is not empty, so its last byte can be taken off behind anything.
join_entries-cons :
    (u : Bytes) (us : List Bytes) → (b : ℕ) × (bs : Bytes) × (join_entries (u ∷ us) ≡ b ∷ bs)
unfolding join_entries
join_entries-cons [] us = (b',', join_entries us, refl)
join_entries-cons (b ∷ u) us = (b, u ++ (codes "," ++ join_entries us), refl)

pop_back-join :
    (s : ClientSession) (rest : List ClientSession)
    → pop_back (join_entries (map entry (s ∷ rest))) ≡ user_text (s ∷ rest)
unfolding join_entries user_text
pop_back-join s [] = pop_back-append (entry s) b',' [] ∙ append-nil (entry s)
pop_back-join s (t ∷ rest) =
    let (b, bs, e) = join_entries-cons (entry t) (map entry rest) in
    pop_back-append (entry s) b',' (join_entries (map entry (t ∷ rest)))
    ∙ ap (λ x. entry s ++ x)
        (rw (e, pop_back) (ap (λ x. b',' ∷ x) (ap pop_back (sym e) ∙ pop_back-join t rest)))

In-listed :
    (self : ℕ) (o : Option ClientSession) (r : ClientSession)
    → In r (listed self o)
    → (o ≡ some r) × (r.is_authenticated ≡ true) × (r.id ≢ self)
In-listed self none r h = absurd h
In-listed self (some s) r h = elim (Bool-cases (s.is_authenticated && not (s.id == self))) [
  | inl shown ↦
      let one : (r ≡ s) ⊎ ⊥ = rw shown at h in
      elim one [ inl e ↦ (ap some (sym e), ground arith, ground arith) | inr e ↦ absurd e ]
  | inr hidden ↦ let nobody : ⊥ = rw hidden at h in absurd nobody
]

In-others :
    (sessions : Map ClientSession) (self : ℕ) (entries : Map ℕ) (r : ClientSession)
    → Distinct entries
    → In r (others sessions self entries)
    → (id p : ℕ) × (lookup id entries ≡ some p)
      × (lookup p sessions ≡ some r)
      × (r.is_authenticated ≡ true)
      × (r.id ≢ self)
unfolding others
In-others sessions self [] r d h = absurd h
In-others sessions self ((id, p) ∷ rest) r d h =
    elim (In-append r (listed self (lookup p sessions)) (others sessions self rest) h) [
      | inl here ↦
          let (found, auth, ne) = In-listed self (lookup p sessions) r here in
          (id, p, lookup_head id p rest, found, auth, ne)
      | inr behind ↦
          let (j, q, found, object, auth, ne) = In-others sessions self rest r d.1 behind in
          (j, q, lookup-tail id j p q rest d.0 found, object, auth, ne)
    ]

listed_shown :
    (self : ℕ) (r : ClientSession)
    → r.is_authenticated ≡ true
    → r.id ≢ self
    → listed self (some r) ≡ r ∷ []
listed_shown self r auth ne = ground arith

others-In :
    (sessions : Map ClientSession) (self id p : ℕ) (entries : Map ℕ) (r : ClientSession)
    → lookup id entries ≡ some p
    → lookup p sessions ≡ some r
    → r.is_authenticated ≡ true
    → r.id ≢ self
    → In r (others sessions self entries)
unfolding others lookup
others-In sessions self id p [] r found object auth ne = cc
others-In sessions self id p ((j, q) ∷ rest) r found object auth ne = elim (Bool-cases (j == id)) [
  | inl here ↦
      let same : lookup q sessions ≡ some r = ground arith in
      rw (same, listed_shown self r auth ne) (inl refl)
  | inr behind ↦
      append-In_right r (listed self (lookup q sessions)) (others sessions self rest)
        (others-In sessions self id p rest r (ground arith) object auth ne)
]

-- The list holds exactly the connected, authenticated clients other than the one that asks.
pub others_exact :
    (m : ClientManager) (self : ℕ) (r : ClientSession)
    → IsValid m
    → In r (others m.sessions self m.session_by_id)
      ↔ ((session_at m r.socket ≡ some r) × (r.is_authenticated ≡ true) × (r.id ≢ self))
others_exact m self r v = (
  λ h.
      let (id, p, found, object, auth, ne) =
        In-others m.sessions self m.session_by_id r v.one_id h in
      let at : Connected m r.socket p r = record {
        pointer = v.has_fd p r object;
        object = object;
        socket = refl;
      } in
      (session_at-Connected at, auth, ne),
  λ h.
      let (p, c) = Connected-at m r.socket r v h.0 in
      others-In m.sessions self r.id p m.session_by_id r (v.has_id p r c.object) c.object h.1 h.2,
)

abbrev pub list_packets : ClientSession → List ClientSession → List Bytes
list_packets s [] = []
list_packets s (t ∷ ts) =
    packet (new_message s2c_user_joined_list server_id s.id (user_text (t ∷ ts))) ∷ []

send_user_list-Outcome :
    (host : Endian) {m : ClientManager} {fd p : ℕ} {s : ClientSession}
    → IsValid m
    → Connected m fd p s
    → (ts : List ClientSession)
    → Outcome m
        (send_user_list host m s (map entry ts))
        (session_at m)
        m.usernames
        (λ k. if fd == k then list_packets s ts else [])
unfolding send_user_list
send_user_list-Outcome host {m} {fd} {p} {s} v c [] =
    same_sends (λ k. ground arith) (nothing_happens m v)
send_user_list-Outcome host {m} {fd} {p} {s} v c (t ∷ ts) = rw (pop_back-join t ts) (
    send-Outcome host v c (new_message s2c_user_joined_list server_id s.id (user_text (t ∷ ts)))
      (new_message-fits _ _ _ _))

-- The client that asks, joined or not, is sent one list of the others, or nothing if there is none;
-- nobody else is sent anything, and nothing changes.
pub user_list-Outcome :
    (host : Endian) {m : ClientManager} {fd p : ℕ} {s : ClientSession}
    → IsValid m
    → Connected m fd p s
    → Outcome m
        (process_user_joined_list host m p)
        (session_at m)
        m.usernames
        (λ k. if fd == k then list_packets s (others m.sessions s.id m.session_by_id) else [])
unfolding process_user_joined_list deref
user_list-Outcome host {m} {fd} {p} {s} v c =
    rw (c.object, user_entries-others m s.id m.session_by_id v.one_id v.id_live)
      (send_user_list-Outcome host v c (others m.sessions s.id m.session_by_id))

-- A client that asks for the users, joined or not, is sent one list of exactly the connected and
-- authenticated clients other than itself, or nothing if there is none; nobody else is sent
-- anything, and nothing changes.
pub user_list_answer :
    (host : Endian) {m : ClientManager} {fd p : ℕ} {s : ClientSession}
    → IsValid m
    → Connected m fd p s
    → (ss : List ClientSession) × ((r : ClientSession)
        → In r ss
          ↔ ((session_at m r.socket ≡ some r) × (r.is_authenticated ≡ true) × (r.id ≢ s.id)))
      × Outcome m
          (process_user_joined_list host m p)
          (session_at m)
          m.usernames
          (λ k. if fd == k then list_packets s ss else [])
user_list_answer host {m} {fd} {p} {s} v c = (
  others m.sessions s.id m.session_by_id,
  λ r. others_exact m s.id r v,
  user_list-Outcome host v c,
)
