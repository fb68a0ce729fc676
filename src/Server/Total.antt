-- ===== src/Server/Total.antt =====
-- `Server::handle_client_message` on any bytes: its loops end and stay within their buffers.
use axn_chat_app.Prelude.{
  ℕ, zero, suc, ◌<◌, ◌≤◌, ◌≡◌, ◌⊎◌, refl, ap, sym, ◌∙◌, Option, none, some, List, ◌++◌, Bytes,
  length, length-append, All, ==_self, Bool-cases, Option-cases, inl, inr, arith,
}
use axn_chat_app.Prelude.Map.{lookup}
use axn_chat_app.Protocol.Words.{Endian, IsByte, behind-IsByte, both-IsByte}
use axn_chat_app.Protocol.{Message, MessageType, deserialize_message, c2s_join, c2s_leave}
use axn_chat_app.Protocol.Wire.{wire, length-wire}
use axn_chat_app.Protocol.Buffer.{deserialize-cases}
use axn_chat_app.Socket.{Reads, chunk, blocked, ended}
use axn_chat_app.ReadBuffer.{initial_buffer_size}
use axn_chat_app.Server.State.{Result, ok, err, use_after_free, ClientSession, ClientManager}
use axn_chat_app.Server.Manager.{is_username_taken}
use axn_chat_app.Server.Handlers.{process_message, process_join_message}
use axn_chat_app.Server.Reading.{set_read_buffer, process_loop, handle_client_message}
use axn_chat_app.Server.Tables.{IsValid}
use axn_chat_app.Server.Broadcast.{session_at}
use axn_chat_app.Server.Outcome.{
  Outcome, Connected, with_entry, with_entry-none, session_at-Connected,
}
use axn_chat_app.Server.Joining.{join_again, join_rejected, join_accepted}
use axn_chat_app.Server.Dispatch.{
  process_message_harmless, process_message_leave, process_message_join,
}
use axn_chat_app.Server.Draining.{
  buffered, process_loop-done, process_loop-message, process_loop-freed, set_read_buffer-Connected,
}
use axn_chat_app.Server.ReadLoop.{received_bytes, Blocks, Fails}
use axn_chat_app.Server.Receiving.{handle_client_message-loop, handle_client_message_closed}
use axn_chat_app.Server.Usernames.{remove-NamesAgree}
use axn_chat_app.Server.Invariant.{Inv, process_message-Keeps, set_read_buffer-Inv, Outcome-Keeps}
use axn_chat_app.Server.History.{owner}

-- The object at `p`, if it is still there, has this buffer.
abbrev pub Holds : ℕ → Bytes → ClientManager → Type 0
Holds p buffer m = (t : ClientSession) → lookup p m.sessions ≡ some t → t.read_buffer ≡ buffer

module _ {m : ClientManager} {fd p : ℕ} {s : ClientSession} (v : IsValid m)
    (c : Connected m fd p s) where
  Outcome-Holds :
      {result : Result ClientManager} {table : ℕ → Option ClientSession} {names : List Bytes}
      {sent : ℕ → List Bytes}
      → (final : ClientManager)
      → ((t : ClientSession) → table fd ≡ some t → t.read_buffer ≡ s.read_buffer)
      → Outcome m result table names sent
      → result ≡ ok final
      → Holds p s.read_buffer final
  Outcome-Holds {table = table} final keeps o e t object =
      let same : o.final ≡ final = cc (o.returns, e) in
      let there : lookup p o.final.sessions ≡ some t = rw same object in
      let before = o.pointers t.socket p (o.valid.has_fd p t there) in
      let (u, found, at) = v.fd_live t.socket p before in
      let here : t.socket ≡ fd = cc (found, at, c.object, c.socket) in
      let d : Connected o.final t.socket p t = record {
        pointer = o.valid.has_fd p t there;
        object = there;
        socket = refl;
      } in
      let entry = sym (o.session t.socket) ∙ session_at-Connected d in
      keeps t (ap table (sym here) ∙ entry)

module _ (host : Endian) {m : ClientManager} {fd p : ℕ} {s : ClientSession} (v : IsValid m)
    (c : Connected m fd p s) where
  removed_here :
      (t : ClientSession)
      → with_entry (session_at m) fd none fd ≡ some t
      → t.read_buffer ≡ s.read_buffer
  removed_here t h = ground (arith, ==_self fd)

  same_here : (t : ClientSession) → session_at m fd ≡ some t → t.read_buffer ≡ s.read_buffer
  same_here t h = ground (arith, session_at-Connected c)

  join-Holds :
      (message : Message) (final : ClientManager)
      → process_join_message host m p message ≡ ok final
      → Holds p s.read_buffer final
  join-Holds message final e = elim (Bool-cases s.is_authenticated) [
    | inl auth ↦ Outcome-Holds v c final same_here (join_again host v c message auth) e
    | inr anonymous ↦ elim (Bool-cases (is_username_taken m message.payload)) [
      | inl taken ↦
          Outcome-Holds v c final removed_here (join_rejected host v c message anonymous taken) e
      | inr free ↦
          Outcome-Holds v c final (λ t h. ground (arith, ==_self fd))
            (join_accepted host v c message anonymous free) e
    ]
  ]

  pub typed-Holds :
      (t : MessageType) (message : Message) (final : ClientManager)
      → message.header.type ≡ t
      → process_message host m p message ≡ ok final
      → Holds p s.read_buffer final
  typed-Holds c2s_join message final e r =
      join-Holds message final (sym (process_message_join host m p message e) ∙ r)
  typed-Holds c2s_leave message final e r =
      Outcome-Holds v c final removed_here (process_message_leave host v c message e) r
  typed-Holds _ message final e r =
      let (sent, o) = process_message_harmless host v c message ((λ l. cc), inl (λ l. cc)) in
      Outcome-Holds v c final same_here o r

-- A call of a loop returns and keeps the invariant, or reads an object that it has destroyed.
abbrev pub ReturnsOrFrees : Result ClientManager → Type 0
ReturnsOrFrees result =
    ((final : ClientManager) × (result ≡ ok final) × Inv final) ⊎ (result ≡ err use_after_free)

-- A round consumes a byte at least, so the fuel is enough that counts the bytes.
process_loop-ReturnsOrFrees :
    (host : Endian) (fuel : ℕ) (m : ClientManager) (p : ℕ) (buffer : Bytes)
    → Inv m
    → Holds p buffer m
    → All IsByte buffer
    → length buffer < fuel
    → ReturnsOrFrees (process_loop host fuel m p)
process_loop-ReturnsOrFrees host zero m p buffer i holds bytes enough = elim enough [ ]
process_loop-ReturnsOrFrees host (suc fuel) m p buffer i holds bytes enough =
    elim (Option-cases (lookup p m.sessions)) [
      | inl gone ↦ inr (process_loop-freed host fuel m p gone)
      | inr (s, object) ↦
          let c = owner m p s i.valid object in
          let same = holds s object in
          elim (deserialize-cases host buffer bytes) [
            | inl incomplete ↦ inl (
              m,
              process_loop-done host i.valid c fuel
                  (ap (deserialize_message host) same ∙ incomplete),
              i,
            )
            | inr (message, rest, split, valid, read) ↦
                let (processed, returns, j) =
                  process_message-Keeps host (set_read_buffer-Inv host i c rest)
                    (set_read_buffer-Connected host i.valid c rest) message in
                let left =
                  typed-Holds host (set_read_buffer-Inv host i c rest).valid
                    (set_read_buffer-Connected host i.valid c rest) message.header.type message
                    processed refl returns in
                let smaller : length rest < fuel = omega (
                  arith,
                  ap length split,
                  length-append (wire message) rest,
                  length-wire message,
                ) in
                let behind : All IsByte rest =
                  behind-IsByte (wire message) rest (rw split at bytes) in
                let round =
                  process_loop-message host i.valid c fuel message rest (same ∙ split) valid in
                rw (round, returns)
                  (process_loop-ReturnsOrFrees host fuel processed p rest j left behind smaller)
          ]
    ]

-- No read gives more than was asked for, and what it gives is bytes.
abbrev pub AreReads : Reads → Type 0
AreReads (chunk received reads) =
    (length received ≤ initial_buffer_size) × All IsByte received × AreReads reads
AreReads blocked = Unit {0}
AreReads (ended status) = Unit {0}

reads-cases : (reads : Reads) → AreReads reads → Blocks reads ⊎ Fails reads
reads-cases (chunk received reads) h = elim (reads-cases reads h.2) [
  | inl blocks ↦ inl (h.0, blocks)
  | inr fails ↦ inr (h.0, fails)
]
reads-cases blocked h = inl tt
reads-cases (ended status) h = inr tt

received-IsByte : (reads : Reads) → AreReads reads → All IsByte (received_bytes reads)
unfolding received_bytes
received-IsByte (chunk received reads) h =
    both-IsByte received (received_bytes reads) h.1 (received-IsByte reads h.2)
received-IsByte blocked h = tt
received-IsByte (ended status) h = tt

-- Where the invariant of the tables and of the names holds, a call for a connected client returns
-- and keeps the invariant, or reads the session after destroying it; it never runs out of rounds
-- or of its buffer, whatever bytes arrive, if no read gives more than was asked for.
pub handle_client_message-ReturnsOrFrees :
    (host : Endian) (reads : Reads) (m : ClientManager) (fd p : ℕ) (s : ClientSession)
    → Inv m
    → Connected m fd p s
    → All IsByte s.read_buffer
    → AreReads reads
    → ReturnsOrFrees (handle_client_message host m fd reads)
handle_client_message-ReturnsOrFrees host reads m fd p s i c bytes reads_ok =
    elim (reads-cases reads reads_ok) [
      | inl blocks ↦
          let full = s.read_buffer ++ received_bytes reads in
          let d = set_read_buffer-Connected host i.valid c full in
          let holds : Holds p full (set_read_buffer m p s full) = λ t object.
            let both : some t ≡ some (buffered s full) = sym object ∙ d.object in
            let at : t ≡ buffered s full = cc in ap (λ x. x.read_buffer) at in
          rw (handle_client_message-loop host reads i.valid c blocks) (
            process_loop-ReturnsOrFrees host (suc (length full)) (set_read_buffer m p s full) p full
              (set_read_buffer-Inv host i c full) holds
              (both-IsByte s.read_buffer (received_bytes reads) bytes
                (received-IsByte reads reads_ok))
              (omega arith))
      | inr fails ↦ inl (
          Outcome-Keeps i.watches (with_entry-none m fd s none (session_at-Connected c))
            (handle_client_message_closed host reads i.valid c fails)
            (remove-NamesAgree i.names fd s (session_at-Connected c)))
    ]
