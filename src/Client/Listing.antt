-- ===== src/Client/Listing.antt =====
-- What the client knows after a list of users: server/src/server.cpp and client/src/chat_client.cpp
-- together.
use axn_chat_app.Prelude.{
  ℕ, ◌^◌, ◌≤◌, ◌≡◌, ◌≢◌, ◌↔◌, ◌⊎◌, refl, ap, sym, ◌∙◌, true, some, List, [], ◌∷◌, ◌++◌, Bytes,
  codes, All, In, ◌==◌, Bool-cases, inl, inr, arith,
}
use axn_chat_app.Prelude.Map.{Map, lookup, insert, lookup-insert}
use axn_chat_app.Protocol.{Message}
use axn_chat_app.Server.State.{ClientSession, ClientManager}
use axn_chat_app.Server.Tables.{IsValid}
use axn_chat_app.Server.Broadcast.{session_at}
use axn_chat_app.Server.Roster.{user_text}
use axn_chat_app.Client.State.{done, ChatClient}
use axn_chat_app.Client.Handlers.{process_user_joined_list}
use axn_chat_app.Client.UserList.{IsPlain, IsListable, roster, user_list_round_trip}
use axn_chat_app.Server.Outcome.{Connected-at}
use axn_chat_app.Prelude.{if◌then◌else◌, append-nil, ==_iff}
use axn_chat_app.Protocol.Words.{Endian}
use axn_chat_app.Protocol.{new_message, server_id, c2s_user_joined_list, s2c_user_joined_list}
use axn_chat_app.Protocol.Wire.{packet}
use axn_chat_app.Server.State.{ok}
use axn_chat_app.Server.Handlers.{process_message}
use axn_chat_app.Server.Broadcast.{sent_to}
use axn_chat_app.Server.Outcome.{Outcome, Connected}
use axn_chat_app.Server.Roster.{list_packets, user_list_answer}
use axn_chat_app.Client.State.{request, send}
use axn_chat_app.Client.Handlers.{on_message_received, request_list_of_users}

-- A name that the roster holds is a session's, or was there before.
lookup-roster :
    (ss : List ClientSession) (users : Map Bytes) (id : ℕ) (name : Bytes)
    → lookup id (roster ss users) ≡ some name
    → ((r : ClientSession) × In r ss × (r.id ≡ id) × (r.username ≡ name))
      ⊎ (lookup id users ≡ some name)
unfolding roster
lookup-roster [] users id name h = inr h
lookup-roster (s ∷ rest) users id name h =
    elim (lookup-roster rest (insert s.id s.username users) id name h) [
      | inl (r, within, i, n) ↦ inl (r, inr within, i, n)
      | inr before ↦
          let e = lookup-insert s.id id s.username users in
          elim (Bool-cases (s.id == id)) [
            | inl here ↦ inl (s, inl refl, ground arith, ground arith)
            | inr there ↦ inr (ground arith)
          ]
    ]

-- A session's name stays, since any other with its id has its name.
roster-keeps :
    (ss : List ClientSession) (users : Map Bytes) (id : ℕ) (name : Bytes)
    → ((t : ClientSession) → In t ss → t.id ≡ id → t.username ≡ name)
    → (lookup id users ≡ some name) ⊎ ((r : ClientSession) × In r ss × (r.id ≡ id))
    → lookup id (roster ss users) ≡ some name
unfolding roster
roster-keeps [] users id name one (inl before) = before
roster-keeps [] users id name one (inr (r, within, i)) = absurd within
roster-keeps (s ∷ rest) users id name one (inl before) =
    roster-keeps rest (insert s.id s.username users) id name (λ t within. one t (inr within))
      (inl (ground (arith, lookup-insert s.id id s.username users, one s (inl refl))))
roster-keeps (s ∷ rest) users id name one (inr (r, inl e, i)) =
    roster-keeps rest (insert s.id s.username users) id name (λ t within. one t (inr within))
      (inl (ground (arith, lookup-insert s.id id s.username users, one s (inl refl), e)))
roster-keeps (s ∷ rest) users id name one (inr (r, inr within, i)) =
    roster-keeps rest (insert s.id s.username users) id name (λ t at. one t (inr at))
      (inr (r, within, i))

All-In :
    {P : ClientSession → Type 0} (ss : List ClientSession)
    → ((r : ClientSession) → In r ss → P r)
    → All P ss
All-In [] h = tt
All-In {P} (s ∷ rest) h = (h s (inl refl), All-In {P = P} rest (λ r within. h r (inr within)))

lookup_empty : (id : ℕ) (name : Bytes) → lookup id [] ≢ some name
unfolding lookup
lookup_empty id name h = cc

-- One id belongs to one session.
one_session :
    (m : ClientManager) (r t : ClientSession)
    → IsValid m
    → session_at m r.socket ≡ some r
    → session_at m t.socket ≡ some t
    → t.id ≡ r.id
    → t ≡ r
one_session m r t v at_r at_t e =
    let (p, c) = Connected-at m r.socket r v at_r in
    let (q, d) = Connected-at m t.socket t v at_t in
    let same : some q ≡ some p =
      sym (v.has_id q t d.object) ∙ ap (λ i. lookup i m.session_by_id) e ∙ v.has_id p r c.object in
    let at : q ≡ p = cc in
    let both : some t ≡ some r = sym d.object ∙ ap (λ x. lookup x m.sessions) at ∙ c.object in cc

-- What a client knows once it has the list: under each id the name of the joined client with it, the
-- asking one left out, and nothing else.
abbrev pub IsList : ClientManager → ℕ → ChatClient → Type 0
IsList m self c =
    (id : ℕ) (name : Bytes)
    → (lookup id c.user_map ≡ some name) ↔ (
        (r : ClientSession) × (session_at m r.socket ≡ some r)
        × (r.is_authenticated ≡ true)
        × (r.id ≢ self)
        × (r.id ≡ id)
        × (r.username ≡ name))

abbrev Exact : ClientManager → ℕ → List ClientSession → Type 0
Exact m self ss =
    (r : ClientSession)
    → In r ss ↔ ((session_at m r.socket ≡ some r) × (r.is_authenticated ≡ true) × (r.id ≢ self))

module _ (m : ClientManager) (self : ℕ) (ss : List ClientSession) (v : IsValid m)
    (exact : Exact m self ss) where
  roster-IsList : (c : ChatClient) → c.user_map ≡ roster ss [] → IsList m self c
  roster-IsList c e id name = rw e (
    λ h. elim (lookup-roster ss [] id name h) [
      | inl (r, within, i, n) ↦ let (at, auth, ne) = (exact r).0 within in (r, at, auth, ne, i, n)
      | inr before ↦ absurd (lookup_empty id name before)
    ],
    λ h.
        let (r, at, auth, ne, i, n) = h in
        roster-keeps ss [] id name
          (λ t other j.
            ap (λ s. s.username) (one_session m r t v at ((exact t).0 other).0 (j ∙ sym i)) ∙ n)
          (inr (r, (exact r).1 (at, auth, ne), i)),
  )

  message-IsList :
      (c : ChatClient) (message : Message)
      → m.next_client_id ≤ 2 ^ 32
      → ((k : ℕ) (s : ClientSession) → session_at m k ≡ some s → IsPlain s.username)
      → message.payload ≡ user_text ss
      → (c' : ChatClient) × (process_user_joined_list c message ≡ done c') × IsList m self c'
  message-IsList c message room plain e =
      let listable : All IsListable ss = All-In {P = IsListable} ss (λ r within.
        let (at, auth, ne) = (exact r).0 within in
        let (p, d) = Connected-at m r.socket r v at in
        (plain r.socket r at, omega (arith, v.id_below p r d.object))) in
      let c' = record c {
        user_map = roster ss [];
        shown = c.shown ++ codes "[Server]: Current users in the chat:" ∷ [];
      } in
      (c', user_list_round_trip c message ss e listable, roster-IsList c' refl)

-- The list of users as the server writes it.
abbrev list_message : ClientSession → List ClientSession → Message
list_message s ss = new_message s2c_user_joined_list server_id s.id (user_text ss)

-- What a client asks for it with.
abbrev pub ask : ChatClient → Message
ask c = new_message c2s_user_joined_list c.user_id server_id []

asked-Outcome :
    (host : Endian) {m : ClientManager} {fd p : ℕ} {s : ClientSession} (c : ChatClient)
    → IsValid m
    → Connected m fd p s
    → (ss : List ClientSession) × Exact m s.id ss
      × Outcome m
          (process_message host m p (ask c))
          (session_at m)
          m.usernames
          (λ k. if fd == k then list_packets s ss else [])
unfolding process_message new_message
asked-Outcome host c v d = user_list_answer host v d

-- The server has told the client of `fd` nothing, or a list that the client reads in full.
abbrev pub Answered : ClientManager → ClientManager → ℕ → ClientSession → ChatClient → Type 0
Answered m final fd s c =
    (((r : ClientSession)
        → session_at m r.socket ≡ some r
        → r.is_authenticated ≡ true
        → r.id ≡ s.id)
      × ((k : ℕ) → sent_to k final.calls ≡ sent_to k m.calls))
    ⊎ ((x : Message) × ((k : ℕ)
          → sent_to k final.calls ≡ sent_to k m.calls ++ (if fd == k then packet x ∷ [] else []))
        × (c' : ChatClient) × (on_message_received c x ≡ done c')
        × IsList m s.id c')

nobody_else :
    (m : ClientManager) (self : ℕ)
    → Exact m self []
    → (r : ClientSession) → session_at m r.socket ≡ some r
    → r.is_authenticated ≡ true
    → r.id ≡ self
nobody_else m self exact r at auth = elim (Bool-cases (r.id == self)) [
  | inl same ↦ (==_iff r.id self).0 same
  | inr other ↦ absurd ((exact r).1 (at, auth, λ e. ground (arith, ==_iff r.id self)))
]

list-Answered :
    (m : ClientManager) (fd : ℕ) (s : ClientSession) (c : ChatClient) (ss : List ClientSession)
    (final : ClientManager)
    → IsValid m
    → m.next_client_id ≤ 2 ^ 32
    → ((k : ℕ) (t : ClientSession) → session_at m k ≡ some t → IsPlain t.username)
    → Exact m s.id ss
    → ((k : ℕ)
        → sent_to k final.calls ≡ sent_to k m.calls ++ (if fd == k then list_packets s ss else []))
    → Answered m final fd s c
unfolding on_message_received new_message
list-Answered m fd s c [] final v room plain exact sends = inl (
  nobody_else m s.id exact,
  λ k. sends k ∙ elim (Bool-cases (fd == k)) [
    | inl here ↦ rw here (append-nil (sent_to k m.calls))
    | inr there ↦ rw there (append-nil (sent_to k m.calls))
  ],
)
list-Answered m fd s c (t ∷ ts) final v room plain exact sends =
    let (c', reads, known) =
      message-IsList m s.id (t ∷ ts) v exact c (list_message s (t ∷ ts)) room plain refl in
    inr (list_message s (t ∷ ts), sends, c', reads, known)

-- A client asks for the users, and the server processes this message of a connected client
-- without a fault: either every client that has joined has the id of the one that asks and nobody
-- is sent anything, or that one alone is sent one packet, and of its message the client has in
-- its map, under each id, the name of the joined client with that id, the asking one left out,
-- and nothing else; provided the invariant of the tables holds, ids have not run out, and no name
-- has a comma or a colon.
pub users_listed :
    (host : Endian) (m : ClientManager) (fd p : ℕ) (s : ClientSession) (c : ChatClient)
    → IsValid m
    → Connected m fd p s
    → m.next_client_id ≤ 2 ^ 32
    → ((k : ℕ) (t : ClientSession) → session_at m k ≡ some t → IsPlain t.username)
    → (request_list_of_users c ≡ request c (send (ask c)))
      × ((final : ClientManager) × (process_message host m p (ask c) ≡ ok final)
          × Answered m final fd s c)
unfolding request_list_of_users
users_listed host m fd p s c v d room plain =
    let (ss, exact, o) = asked-Outcome host c v d in
    (refl, (o.final, o.returns, list-Answered m fd s c ss o.final v room plain exact o.sends))
