-- ===== src/Server/Outcome.antt =====
-- How the handlers' theorems speak of the server: by the session at each descriptor, the names
-- that are taken, and what each descriptor is sent, with no address and no order of the maps.
use axn_chat_app.Prelude.{
  ℕ, ◌≡◌, refl, ap, sym, ◌∙◌, Option, none, some, List, [], ◌∷◌, ◌++◌, append-nil, append_assoc,
  Bytes, ◌==◌, if◌then◌else◌, Bool, false, Bool-cases, Option-cases, ==_iff, inl, inr, arith,
}
use axn_chat_app.Prelude.Map.{lookup, erase, lookup-insert, lookup-erase}
use axn_chat_app.Server.State.{Result, ok, ClientSession, ClientManager, set_session, Call, send}
use axn_chat_app.Server.Tables.{IsValid}
use axn_chat_app.Server.Watch.{
  watched, watched_from, watched_from-append, IsQuiet, still, still_same, still_stays,
}
use axn_chat_app.Server.Broadcast.{once_if, told, session_at, sent_to, sent_to-append}

-- A call that starts from `m` returns, keeps the invariant, and ends with these sessions and names;
-- on the way it sends these packets. A session that stays is the same object.
pub record Outcome (m : ClientManager) (result : Result ClientManager)
    (table : ℕ → Option ClientSession) (names : List Bytes) (sent : ℕ → List Bytes) : Type 0 where
  pub final : ClientManager
  pub returns : result ≡ ok final
  pub valid : IsValid final
  pub session : (k : ℕ) → session_at final k ≡ table k
  pub usernames : final.usernames ≡ names
  pub pointers :
      (k q : ℕ) → lookup k final.session_by_fd ≡ some q → lookup k m.session_by_fd ≡ some q
  pub sends : (k : ℕ) → sent_to k final.calls ≡ sent_to k m.calls ++ sent k
  pub watch : (k : ℕ) → watched k final ≡ still (session_at m k) (table k) (watched k m)

-- The session of a descriptor, with the pointer that leads to it.
pub record Connected (m : ClientManager) (fd p : ℕ) (s : ClientSession) : Type 0 where
  pub pointer : lookup fd m.session_by_fd ≡ some p
  pub object : lookup p m.sessions ≡ some s
  pub socket : s.socket ≡ fd

-- A table with one descriptor's entry replaced.
abbrev pub with_entry :
    (ℕ → Option ClientSession) → ℕ → Option ClientSession → ℕ → Option ClientSession
with_entry table fd entry k = if fd == k then entry else table k

pub connected :
    (m : ClientManager) (fd p : ℕ)
    → IsValid m
    → lookup fd m.session_by_fd ≡ some p
    → (s : ClientSession) × Connected m fd p s
connected m fd p v h =
    let (s, found, at) = v.fd_live fd p h in
    (s, record { pointer = h; object = found; socket = at })

pub session_at-Connected :
    {m : ClientManager} {fd p : ℕ} {s : ClientSession}
    → Connected m fd p s
    → session_at m fd ≡ some s
unfolding session_at
session_at-Connected {m} {fd} {p} {s} c = rw (c.pointer, c.object)

module _ {m : ClientManager} {fd p : ℕ} {s : ClientSession} (v : IsValid m)
    (c : Connected m fd p s) where
  -- Another descriptor leads to another session.
  pub other_pointer : (k q : ℕ) → lookup k m.session_by_fd ≡ some q → (p == q) ≡ (fd == k)
  other_pointer k q h =
      let (u, found, at) = v.fd_live k q h in
      ground (arith, c.pointer, c.object, c.socket, v.has_fd p s c.object)

  pub session_at-write :
      (t : ClientSession) (k : ℕ)
      → session_at (set_session m p t) k ≡ with_entry (session_at m) fd (some t) k
  unfolding session_at
  session_at-write t k = elim (Option-cases (lookup k m.session_by_fd)) [
    | inl none_at ↦ ground (arith, c.pointer)
    | inr (q, q_at) ↦ rw (q_at, lookup-insert p q t m.sessions, other_pointer k q q_at) refl
  ]

  -- The maps without the session.
  pub session_at-removed :
      (n : ClientManager) (k : ℕ)
      → n.session_by_fd ≡ erase fd m.session_by_fd
      → n.sessions ≡ erase p m.sessions
      → session_at n k ≡ with_entry (session_at m) fd none k
  unfolding session_at
  session_at-removed n k e f =
      rw (e, f, lookup-erase fd k m.session_by_fd)
        (elim (Bool-cases (fd == k)) [
          | inl hit ↦ rw hit refl
          | inr miss ↦ elim (Option-cases (lookup k m.session_by_fd)) [
            | inl none_at ↦ rw (miss, none_at) refl
            | inr (q, q_at) ↦
                rw (miss, q_at, lookup-erase p q m.sessions, other_pointer k q q_at, miss) refl
          ]
        ])

pub watched-told :
    (m : ClientManager) (cs : List Call)
    → IsQuiet cs
    → (k : ℕ) → watched k (told m cs) ≡ watched k m
watched-told m cs quiet k = watched_from-append k false m.calls cs ∙ quiet k (watched k m)

-- Replacing a session makes none appear elsewhere.
pub with_entry-none :
    (m : ClientManager) (fd : ℕ) (s : ClientSession) (entry : Option ClientSession)
    → session_at m fd ≡ some s
    → (k : ℕ) → session_at m k ≡ none
    → with_entry (session_at m) fd entry k ≡ none
with_entry-none m fd s entry at k free = elim (Bool-cases (fd == k)) [
  | inl here ↦
      let there : session_at m k ≡ some s = ap (session_at m) (sym ((==_iff fd k).0 here)) ∙ at in
      absurd (cc (there, free))
  | inr elsewhere ↦ rw elsewhere free
]

-- A session that changes is watched as before.
pub still-entry :
    (m : ClientManager) (fd k : ℕ) (t : ClientSession) (w : Bool)
    → still (session_at m k) (with_entry (session_at m) fd (some t) k) w ≡ w
still-entry m fd k t w = elim (Bool-cases (fd == k)) [
  | inl here ↦ rw here (still_stays (session_at m k) t w)
  | inr elsewhere ↦ rw elsewhere (still_same (session_at m k) w)
]

-- A removed session's descriptor is not watched, however often it is taken off the list.
module _ (m : ClientManager) (fd : ℕ) (s : ClientSession) (at : session_at m fd ≡ some s) (k : ℕ)
    (w : Bool) where
  pub still-removed :
      (if fd == k then false else w)
      ≡ still (session_at m k) (with_entry (session_at m) fd none k) w
  still-removed = elim (Bool-cases (fd == k)) [
    | inl here ↦
        let there : session_at m k ≡ some s = ap (session_at m) (sym ((==_iff fd k).0 here)) ∙ at in
        rw (here, there) refl
    | inr elsewhere ↦ rw elsewhere (sym (still_same (session_at m k) w))
  ]

  pub still-removed_twice :
      still (session_at m k) (with_entry (session_at m) fd none k) (if fd == k then false else w)
      ≡ still (session_at m k) (with_entry (session_at m) fd none k) w
  still-removed_twice = elim (Bool-cases (fd == k)) [
    | inl here ↦
        let there : session_at m k ≡ some s = ap (session_at m) (sym ((==_iff fd k).0 here)) ∙ at in
        rw (here, there) refl
    | inr elsewhere ↦ rw elsewhere refl
  ]

-- Calls that have been made before count as sent.
pub after_calls :
    {m : ClientManager} {result : Result ClientManager} {table : ℕ → Option ClientSession}
    {names : List Bytes} {sent : ℕ → List Bytes} (cs : List Call)
    → IsQuiet cs
    → Outcome (told m cs) result table names sent
    → Outcome m result table names (λ k. sent_to k cs ++ sent k)
unfolding session_at
after_calls {m} {table = table} {sent = sent} cs quiet o = record {
  final = o.final;
  returns = o.returns;
  valid = o.valid;
  session = o.session;
  usernames = o.usernames;
  pointers = o.pointers;
  sends = λ k.
      o.sends k
      ∙ ap (λ t. t ++ sent k) (sent_to-append k m.calls cs)
      ∙ append_assoc (sent_to k m.calls) (sent_to k cs) (sent k);
  watch = λ k. o.watch k ∙ ap (still (session_at m k) (table k)) (watched-told m cs quiet k);
}

pub same_sends :
    {m : ClientManager} {result : Result ClientManager} {table : ℕ → Option ClientSession}
    {names : List Bytes} {sent sent' : ℕ → List Bytes}
    → ((k : ℕ) → sent k ≡ sent' k)
    → Outcome m result table names sent
    → Outcome m result table names sent'
same_sends {m} e o = record {
  final = o.final;
  returns = o.returns;
  valid = o.valid;
  session = o.session;
  usernames = o.usernames;
  pointers = o.pointers;
  sends = λ k. o.sends k ∙ ap (λ t. sent_to k m.calls ++ t) (e k);
  watch = o.watch;
}

-- Nothing happens.
pub nothing_happens :
    (m : ClientManager) → IsValid m → Outcome m (ok m) (session_at m) m.usernames (λ _. [])
nothing_happens m v = record {
  final = m;
  returns = refl;
  valid = v;
  session = λ k. refl;
  usernames = refl;
  pointers = λ k q h. h;
  sends = λ k. sym (append-nil (sent_to k m.calls));
  watch = λ k. sym (still_same (session_at m k) (watched k m));
}

-- Only calls are made.
pub only_calls :
    (m : ClientManager) (cs : List Call)
    → IsQuiet cs
    → IsValid m
    → Outcome m (ok (told m cs)) (session_at m) m.usernames (λ k. sent_to k cs)
unfolding session_at
only_calls m cs quiet v = record {
  final = told m cs;
  returns = refl;
  valid = v;
  session = λ k. refl;
  usernames = refl;
  pointers = λ k q h. h;
  sends = λ k. sent_to-append k m.calls cs;
  watch = λ k. watched-told m cs quiet k ∙ sym (still_same (session_at m k) (watched k m));
}

pub send-IsQuiet : (fd : ℕ) (bytes : Bytes) → IsQuiet (send fd bytes ∷ [])
unfolding watched_from
send-IsQuiet fd bytes k b = refl

pub sent_to_one :
    (k fd : ℕ) (bytes : Bytes) → sent_to k (send fd bytes ∷ []) ≡ once_if (fd == k) bytes
unfolding sent_to
sent_to_one k fd bytes = refl

-- A descriptor with a session is connected.
pub Connected-at :
    (m : ClientManager) (fd : ℕ) (s : ClientSession)
    → IsValid m
    → session_at m fd ≡ some s
    → (p : ℕ) × Connected m fd p s
unfolding session_at
Connected-at m fd s v h = elim (Option-cases (lookup fd m.session_by_fd)) [
  | inl nobody ↦ absurd (ground arith)
  | inr (p, found) ↦
      let (t, object, at) = v.fd_live fd p found in
      let same : lookup p m.sessions ≡ some s = ground arith in
      (p, record { pointer = found; object = same; socket = ground arith })
]
