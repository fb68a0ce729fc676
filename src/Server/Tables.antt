-- ===== src/Server/Tables.antt =====
-- The invariant of `ClientManager`'s two maps and the sessions that they point to, and what each
-- way of changing them does to it.
use axn_chat_app.Prelude.{ℕ, ◌+◌, ◌<◌, ◌≡◌, none, some, arith, ◌==◌, Bool-cases, inl, inr}
use axn_chat_app.Prelude.Map.{
  Map, lookup, insert, erase, Distinct, lookup-erase, lookup-erase-some, lookup-insert,
  erase-Distinct, insert-Distinct,
}
use axn_chat_app.Server.State.{ClientSession, ClientManager}

-- Both maps lead to live sessions, each under its own descriptor and id; every live session is in
-- both; addresses and ids are below the counters.
pub record Tables (by_fd by_id : Map ℕ) (sessions : Map ClientSession) (next_address next_id : ℕ)
    : Type 0 where
  pub fd_live :
      (fd p : ℕ)
      → lookup fd by_fd ≡ some p
      → (s : ClientSession) × (lookup p sessions ≡ some s) × (s.socket ≡ fd)
  pub id_live :
      (id p : ℕ)
      → lookup id by_id ≡ some p
      → (s : ClientSession) × (lookup p sessions ≡ some s) × (s.id ≡ id)
  pub has_fd :
      (p : ℕ) (s : ClientSession) → lookup p sessions ≡ some s → lookup s.socket by_fd ≡ some p
  pub has_id : (p : ℕ) (s : ClientSession) → lookup p sessions ≡ some s → lookup s.id by_id ≡ some p
  pub address_below : (p : ℕ) (s : ClientSession) → lookup p sessions ≡ some s → p < next_address
  pub id_below : (p : ℕ) (s : ClientSession) → lookup p sessions ≡ some s → s.id < next_id
  pub one_fd : Distinct by_fd
  pub one_id : Distinct by_id

abbrev pub IsValid : ClientManager → Type 0
IsValid m = Tables m.session_by_fd m.session_by_id m.sessions m.next_address m.next_client_id

module _ {by_fd by_id : Map ℕ} {sessions : Map ClientSession} {next_address next_id : ℕ}
    (v : Tables by_fd by_id sessions next_address next_id) where
  -- A session may be written to, if it keeps its id and its socket.
  pub write-Tables :
      (p : ℕ) (s t : ClientSession)
      → lookup p sessions ≡ some s
      → t.id ≡ s.id
      → t.socket ≡ s.socket
      → Tables by_fd by_id (insert p t sessions) next_address next_id
  write-Tables p s t live same_id same_socket = record {
    fd_live = λ fd q h.
        let (u, e, f) = v.fd_live fd q h in
        elim (Bool-cases (p == q)) [
          | inl same ↦ (t, ground (arith, lookup-insert p q t sessions), ground arith)
          | inr other ↦ (u, ground (arith, lookup-insert p q t sessions), f)
        ];
    id_live = λ id q h.
        let (u, e, f) = v.id_live id q h in
        elim (Bool-cases (p == q)) [
          | inl same ↦ (t, ground (arith, lookup-insert p q t sessions), ground arith)
          | inr other ↦ (u, ground (arith, lookup-insert p q t sessions), f)
        ];
    has_fd = λ q u h. ground (arith, lookup-insert p q t sessions, v.has_fd q u, v.has_fd p s live);
    has_id = λ q u h. ground (arith, lookup-insert p q t sessions, v.has_id q u, v.has_id p s live);
    address_below = λ q u h.
        ground (arith, lookup-insert p q t sessions, v.address_below q u, v.address_below p s);
    id_below =
        λ q u h. ground (arith, lookup-insert p q t sessions, v.id_below q u, v.id_below p s);
    one_fd = v.one_fd;
    one_id = v.one_id;
  }

  -- A live session is taken out of both maps and destroyed.
  pub remove-Tables :
      (p : ℕ) (s : ClientSession)
      → lookup p sessions ≡ some s
      → Tables (erase s.socket by_fd) (erase s.id by_id) (erase p sessions) next_address next_id
  remove-Tables p s live = record {
    fd_live = λ fd q h.
        let (ne, found) = lookup-erase-some s.socket fd q by_fd h in
        let (u, e, f) = v.fd_live fd q found in (u, ground (arith, lookup-erase p q sessions), f);
    id_live = λ id q h.
        let (ne, found) = lookup-erase-some s.id id q by_id h in
        let (u, e, f) = v.id_live id q found in (u, ground (arith, lookup-erase p q sessions), f);
    has_fd = λ q u h. ground (
      arith,
      lookup-erase p q sessions,
      lookup-erase s.socket u.socket by_fd,
      v.has_fd q u,
      v.has_fd p s,
    );
    has_id = λ q u h. ground (
      arith,
      lookup-erase p q sessions,
      lookup-erase s.id u.id by_id,
      v.has_id q u,
      v.has_id p s,
    );
    address_below = λ q u h. ground (arith, lookup-erase p q sessions, v.address_below q u);
    id_below = λ q u h. ground (arith, lookup-erase p q sessions, v.id_below q u);
    one_fd = erase-Distinct s.socket by_fd v.one_fd;
    one_id = erase-Distinct s.id by_id v.one_id;
  }

  -- A new session under a descriptor that no session has, with the counters' next values.
  pub add-Tables :
      (s : ClientSession)
      → lookup s.socket by_fd ≡ none
      → s.id ≡ next_id
      → Tables
          (insert s.socket next_address by_fd)
          (insert s.id next_address by_id)
          (insert next_address s sessions)
          (next_address + 1)
          (next_id + 1)
  add-Tables s free numbered = record {
    fd_live = λ fd q h. elim (Bool-cases (s.socket == fd)) [
      | inl same ↦ (
        s,
        ground (
          arith,
          lookup-insert s.socket fd next_address by_fd,
          lookup-insert next_address q s sessions,
        ),
        ground arith,
      )
      | inr other ↦
          let (u, e, f) =
            v.fd_live fd q (ground (arith, lookup-insert s.socket fd next_address by_fd)) in
          (u, ground (arith, lookup-insert next_address q s sessions, v.address_below q u e), f)
    ];
    id_live = λ id q h. elim (Bool-cases (s.id == id)) [
      | inl same ↦ (
        s,
        ground (
          arith,
          lookup-insert s.id id next_address by_id,
          lookup-insert next_address q s sessions,
        ),
        ground arith,
      )
      | inr other ↦
          let (u, e, f) =
            v.id_live id q (ground (arith, lookup-insert s.id id next_address by_id)) in
          (u, ground (arith, lookup-insert next_address q s sessions, v.address_below q u e), f)
    ];
    has_fd = λ q u h. ground (
      arith,
      lookup-insert next_address q s sessions,
      lookup-insert s.socket u.socket next_address by_fd,
      v.has_fd q u,
    );
    has_id = λ q u h. ground (
      arith,
      lookup-insert next_address q s sessions,
      lookup-insert s.id u.id next_address by_id,
      v.has_id q u,
      v.id_below q u,
    );
    address_below =
        λ q u h. ground (arith, lookup-insert next_address q s sessions, v.address_below q u);
    id_below = λ q u h. ground (arith, lookup-insert next_address q s sessions, v.id_below q u);
    one_fd = insert-Distinct s.socket next_address by_fd v.one_fd;
    one_id = insert-Distinct s.id next_address by_id v.one_id;
  }
