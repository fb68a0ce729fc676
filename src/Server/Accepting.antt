-- ===== src/Server/Accepting.antt =====
-- `ClientManager::add_client` and `Server::handle_new_connection`. The kernel gives a new
-- connection a descriptor that is not open, so none that a session has.
use axn_chat_app.Prelude.{
  ℕ, ◌+◌, ◌<◌, ◌^◌, ◌%◌, ◌≡◌, refl, none, some, ◌==◌, Bool-cases, Option-cases, inl, inr, arith,
}
use axn_chat_app.Prelude.Map.{lookup, insert, lookup-insert}
use axn_chat_app.Server.State.{ClientManager}
use axn_chat_app.Server.Manager.{new_session, add_client}
use axn_chat_app.Server.Tables.{IsValid, add-Tables}
use axn_chat_app.Server.Broadcast.{session_at, sent_to}
use axn_chat_app.Server.Outcome.{with_entry}

-- A new client: an unauthenticated session with the next id stands at its descriptor, all else is
-- as it was, and nothing is sent. Ids must not have run out.
pub record Accepted (m final : ClientManager) (fd : ℕ) : Type 0 where
  pub valid : IsValid final
  pub session :
      (k : ℕ)
      → session_at final k ≡ with_entry (session_at m) fd (some (new_session m.next_client_id fd)) k
  pub usernames : final.usernames ≡ m.usernames
  pub next_id : final.next_client_id ≡ m.next_client_id + 1
  pub sends : (k : ℕ) → sent_to k final.calls ≡ sent_to k m.calls
  pub same_calls : final.calls ≡ m.calls

abbrev added : ClientManager → ℕ → ClientManager
added m fd = record m {
  next_client_id = m.next_client_id + 1;
  session_by_fd = insert fd m.next_address m.session_by_fd;
  session_by_id = insert m.next_client_id m.next_address m.session_by_id;
  sessions = insert m.next_address (new_session m.next_client_id fd) m.sessions;
  next_address = m.next_address + 1;
}

add_client-added :
    (m : ClientManager) (fd : ℕ)
    → lookup fd m.session_by_fd ≡ none
    → m.next_client_id + 1 < 2 ^ 32
    → (add_client m fd).0 ≡ added m fd
unfolding add_client
add_client-added m fd free room =
    let counts : (m.next_client_id + 1) % 2 ^ 32 ≡ m.next_client_id + 1 = omega arith in
    rw (free, counts) refl

session_at-added :
    (m : ClientManager) (fd k : ℕ)
    → IsValid m
    → session_at (added m fd) k
      ≡ with_entry (session_at m) fd (some (new_session m.next_client_id fd)) k
unfolding session_at
session_at-added m fd k v =
    rw (lookup-insert fd k m.next_address m.session_by_fd) (elim (Bool-cases (fd == k)) [
      | inl here ↦
          rw
            (
              here,
              lookup-insert m.next_address m.next_address (new_session m.next_client_id fd)
                  m.sessions,
            )
            (ground arith)
      | inr there ↦ rw there (elim (Option-cases (lookup k m.session_by_fd)) [
        | inl nobody ↦ rw nobody refl
        | inr (q, found) ↦
            let (s, object, at) = v.fd_live k q found in
            let below = v.address_below q s object in
            rw (found, lookup-insert m.next_address q (new_session m.next_client_id fd) m.sessions)
              (ground arith)
      ])
    ])

unlisted :
    (m : ClientManager) (fd : ℕ)
    → IsValid m
    → session_at m fd ≡ none
    → lookup fd m.session_by_fd ≡ none
unfolding session_at
unlisted m fd v h = elim (Option-cases (lookup fd m.session_by_fd)) [
  | inl nobody ↦ nobody
  | inr (q, found) ↦ let (s, object, at) = v.fd_live fd q found in absurd (ground arith)
]

-- A client added at a descriptor that has no session, while ids have not run out, has an
-- unauthenticated session with the next id there; other sessions and names stay, the id counter
-- grows by one, and nothing is sent.
pub add_client-Accepted :
    (m : ClientManager) (fd : ℕ)
    → IsValid m
    → session_at m fd ≡ none
    → m.next_client_id + 1 < 2 ^ 32
    → Accepted m (add_client m fd).0 fd
add_client-Accepted m fd v free room =
    let absent = unlisted m fd v free in
    rw (add_client-added m fd absent room) (record {
      valid = add-Tables v (new_session m.next_client_id fd) absent refl;
      session = λ k. session_at-added m fd k v;
      usernames = refl;
      next_id = refl;
      sends = λ k. refl;
      same_calls = refl;
    })
