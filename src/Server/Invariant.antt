-- ===== src/Server/Invariant.antt =====
-- What holds of the server's state after any history of connections, messages and disconnections.
use axn_chat_app.Prelude.{
  ℕ, ◌≡◌, ◌≢◌, refl, ap, sym, ◌∙◌, true, none, some, Option, List, Bytes, Bool-cases, ◌==◌, ==_iff,
  inl, inr,
}
use axn_chat_app.Protocol.Words.{Endian}
use axn_chat_app.Protocol.{Message, MessageType, c2s_join, c2s_leave}
use axn_chat_app.Server.State.{Result, ok, ClientSession, ClientManager}
use axn_chat_app.Server.Manager.{is_username_taken}
use axn_chat_app.Server.Handlers.{
  process_message, process_join_message, handle_client_disconnection,
}
use axn_chat_app.Server.Reading.{set_read_buffer}
use axn_chat_app.Server.Tables.{IsValid}
use axn_chat_app.Server.Watch.{watched, is_client, still, still-is_client}
use axn_chat_app.Server.Broadcast.{session_at}
use axn_chat_app.Server.Outcome.{
  Outcome, Connected, session_at-write, session_at-Connected, with_entry, with_entry-none,
}
use axn_chat_app.Server.Connections.{disconnection-Outcome}
use axn_chat_app.Server.Joining.{join_again, join_rejected, join_accepted}
use axn_chat_app.Server.Dispatch.{
  IsHarmless, process_message_harmless, process_message_leave, process_message_join,
}
use axn_chat_app.Server.Draining.{set_read_buffer-IsValid, buffered}
use axn_chat_app.Server.Usernames.{
  NamesAgree, NamesAgree-same, join-NamesAgree, remove-NamesAgree, keep-NamesAgree,
}

-- But for two descriptors, those are watched that have a client: the two are the listener's and the
-- one of the server's events.
pub record Watches (m : ClientManager) : Type 0 where
  pub listener : ℕ
  pub server_event_fd : ℕ
  pub clients :
      (k : ℕ) → k ≢ listener → k ≢ server_event_fd → watched k m ≡ is_client (session_at m k)

pub record Inv (m : ClientManager) : Type 0 where
  pub valid : IsValid m
  pub names : NamesAgree (session_at m) m.usernames
  pub watches : Watches m

-- A call returns, and the invariant holds of what it leaves.
abbrev pub Keeps : Result ClientManager → Type 0
Keeps result = (final : ClientManager) × (result ≡ ok final) × Inv final

-- A session does not come about by a message.
abbrev pub NoneAppears : (ℕ → Option ClientSession) → (ℕ → Option ClientSession) → Type 0
NoneAppears before after = (k : ℕ) → before k ≡ none → after k ≡ none

pub Outcome-Watches :
    {m : ClientManager} {result : Result ClientManager} {table : ℕ → Option ClientSession}
    {names : List Bytes} {sent : ℕ → List Bytes}
    → Watches m
    → NoneAppears (session_at m) table
    → (o : Outcome m result table names sent) → Watches o.final
Outcome-Watches {m} {table = table} w none_appears o = record {
  listener = w.listener;
  server_event_fd = w.server_event_fd;
  clients = λ k ne ne'.
      o.watch k
      ∙ ap (still (session_at m k) (table k)) (w.clients k ne ne')
      ∙ still-is_client (session_at m k) (table k) (none_appears k)
      ∙ ap is_client (sym (o.session k));
}

pub Outcome-Keeps :
    {m : ClientManager} {result : Result ClientManager} {table : ℕ → Option ClientSession}
    {names : List Bytes} {sent : ℕ → List Bytes}
    → Watches m
    → NoneAppears (session_at m) table
    → Outcome m result table names sent
    → NamesAgree table names
    → Keeps result
Outcome-Keeps w none_appears o a = (
  o.final,
  o.returns,
  record {
    valid = o.valid;
    names = NamesAgree-same o.session o.usernames a;
    watches = Outcome-Watches w none_appears o;
  },
)

is_client-entry :
    (m : ClientManager) (fd : ℕ) (s t : ClientSession)
    → session_at m fd ≡ some s
    → (k : ℕ) → is_client (with_entry (session_at m) fd (some t) k) ≡ is_client (session_at m k)
is_client-entry m fd s t at k = elim (Bool-cases (fd == k)) [
  | inl here ↦
      let there : session_at m k ≡ some s = ap (session_at m) (sym ((==_iff fd k).0 here)) ∙ at in
      rw (here, there) refl
  | inr elsewhere ↦ rw elsewhere refl
]

module _ (host : Endian) {m : ClientManager} {fd p : ℕ} {s : ClientSession} (i : Inv m)
    (c : Connected m fd p s) where
  join-Keeps : (message : Message) → Keeps (process_join_message host m p message)
  join-Keeps message = elim (Bool-cases s.is_authenticated) [
    | inl auth ↦ Outcome-Keeps i.watches (λ k h. h) (join_again host i.valid c message auth) i.names
    | inr anonymous ↦ elim (Bool-cases (is_username_taken m message.payload)) [
      | inl taken ↦
          Outcome-Keeps i.watches (with_entry-none m fd s none (session_at-Connected c))
            (join_rejected host i.valid c message anonymous taken)
            (remove-NamesAgree i.names fd s (session_at-Connected c))
      | inr free ↦
          Outcome-Keeps i.watches (with_entry-none m fd s _ (session_at-Connected c))
            (join_accepted host i.valid c message anonymous free)
            (join-NamesAgree i.names fd
              (record s { username = message.payload; is_authenticated = true }) refl free)
    ]
  ]

  harmless-Keeps :
      (message : Message)
      → IsHarmless s message.header.type
      → Keeps (process_message host m p message)
  harmless-Keeps message h =
      let (sent, o) = process_message_harmless host i.valid c message h in
      Outcome-Keeps i.watches (λ k h. h) o i.names

  typed-Keeps :
      (t : MessageType) (message : Message)
      → message.header.type ≡ t
      → Keeps (process_message host m p message)
  typed-Keeps c2s_join message e = rw (process_message_join host m p message e) (join-Keeps message)
  typed-Keeps c2s_leave message e =
      Outcome-Keeps i.watches (with_entry-none m fd s none (session_at-Connected c))
        (process_message_leave host i.valid c message e)
        (remove-NamesAgree i.names fd s (session_at-Connected c))
  typed-Keeps _ message e = harmless-Keeps message ((λ l. cc), inl (λ l. cc))

  -- Every message from a connected client, of whatever type, is processed without a fault, and
  -- keeps the invariant.
  pub process_message-Keeps : (message : Message) → Keeps (process_message host m p message)
  process_message-Keeps message = typed-Keeps message.header.type message refl

  pub disconnection-Keeps : Keeps (handle_client_disconnection host m fd)
  disconnection-Keeps =
      Outcome-Keeps i.watches (with_entry-none m fd s none (session_at-Connected c))
        (disconnection-Outcome host i.valid c)
        (remove-NamesAgree i.names fd s (session_at-Connected c))

  pub set_read_buffer-Inv : (buffer : Bytes) → Inv (set_read_buffer m p s buffer)
  set_read_buffer-Inv buffer = record {
    valid = set_read_buffer-IsValid host i.valid c buffer;
    names =
        NamesAgree-same (session_at-write i.valid c (buffered s buffer)) refl
          (keep-NamesAgree i.names fd s (buffered s buffer) (session_at-Connected c) refl refl);
    watches = record {
      listener = i.watches.listener;
      server_event_fd = i.watches.server_event_fd;
      clients = λ k ne ne'.
          i.watches.clients k ne ne'
          ∙ sym (
              ap is_client (session_at-write i.valid c (buffered s buffer) k)
              ∙ is_client-entry m fd s (buffered s buffer) (session_at-Connected c) k);
    };
  }
