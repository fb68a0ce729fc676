-- ===== src/Server/History.antt =====
-- The server as a state machine: connections, reads and hang-ups in any order, as the events of
-- `Server::run` bring them.
use axn_chat_app.Prelude.{
  ℕ, zero, suc, ◌≡◌, refl, sym, ◌∙◌, Option, none, some, drop, length, Option-cases, inl, inr,
}
use axn_chat_app.Prelude.Map.{lookup}
use axn_chat_app.Protocol.Words.{Endian}
use axn_chat_app.Protocol.{Message, deserialize_message}
use axn_chat_app.Socket.{Reads, chunk, blocked, ended}
use axn_chat_app.ReadBuffer.{initial_buffer_size, receive_ok, receive_failed}
use axn_chat_app.Server.State.{Result, ok, ClientSession, ClientManager, deref}
use axn_chat_app.Server.Reading.{
  set_read_buffer, process_next, process_loop, process_buffer, read_loop,
}
use axn_chat_app.Server.Tables.{IsValid}
use axn_chat_app.Server.Outcome.{Connected}
use axn_chat_app.Server.ReadLoop.{process_buffer-loop}
use axn_chat_app.Server.Draining.{set_read_buffer-Connected, buffered}
use axn_chat_app.Server.Invariant.{
  Inv, process_message-Keeps, disconnection-Keeps, set_read_buffer-Inv,
}

-- The owner of a live object.
pub owner :
    (m : ClientManager) (p : ℕ) (s : ClientSession)
    → IsValid m
    → lookup p m.sessions ≡ some s
    → Connected m s.socket p s
owner m p s v object = record { pointer = v.has_fd p s object; object = object; socket = refl }

module _ (host : Endian) where
  -- A round, if the rounds after it keep the invariant.
  process_round-Inv :
      (next : ClientManager → ℕ → Result ClientManager)
      → ((m final : ClientManager) (p : ℕ) → Inv m → next m p ≡ ok final → Inv final)
      → (m final : ClientManager) (p : ℕ) (s : ClientSession) (o : Option Message) (n : ℕ) → Inv m
      → lookup p m.sessions ≡ some s
      → process_next host next m p s o n ≡ ok final
      → Inv final
  process_round-Inv next keeps m final p s none n i object e =
      let same : m ≡ final = cc in rw same at i
  process_round-Inv next keeps m final p s (some message) n i object e =
      let left = drop n s.read_buffer in
      let c = owner m p s i.valid object in
      let i' = set_read_buffer-Inv host i c left in
      let c' = set_read_buffer-Connected host i.valid c left in
      let (processed, returns, j) = process_message-Keeps host i' c' message in
      keeps processed final p j (rw returns at e)

  process_loop-Inv :
      (fuel : ℕ) (m final : ClientManager) (p : ℕ)
      → Inv m
      → process_loop host fuel m p ≡ ok final
      → Inv final
  unfolding process_loop deref
  process_loop-Inv zero m final p i e = cc
  process_loop-Inv (suc fuel) m final p i e = elim (Option-cases (lookup p m.sessions)) [
    | inl gone ↦ let fault = rw gone at e in cc
    | inr (s, object) ↦
        process_round-Inv (process_loop host fuel) (process_loop-Inv fuel) m final p s
          (deserialize_message host s.read_buffer).0 (deserialize_message host s.read_buffer).1 i
          object (rw object at e)
  ]

  process_buffer-Inv :
      (m final : ClientManager) (fd p : ℕ) (s : ClientSession)
      → Inv m
      → Connected m fd p s
      → process_buffer host m p ≡ ok final
      → Inv final
  process_buffer-Inv m final fd p s i c e =
      process_loop-Inv (suc (length s.read_buffer)) m final p i
        (sym (process_buffer-loop host c) ∙ e)

  pub read_loop-Inv :
      (reads : Reads) (m final : ClientManager) (fd p : ℕ) (s : ClientSession)
      → Inv m
      → Connected m fd p s
      → read_loop host m p fd reads ≡ ok final
      → Inv final
  unfolding read_loop deref
  read_loop-Inv (chunk b reads) m final fd p s i c e =
      let e' = rw c.object at e in
      elim (Option-cases (receive_ok initial_buffer_size s.read_buffer b)) [
        | inl outside ↦ let fault = rw outside at e' in cc
        | inr (buffer, within) ↦
            read_loop-Inv reads (set_read_buffer m p s buffer) final fd p (buffered s buffer)
              (set_read_buffer-Inv host i c buffer)
              (set_read_buffer-Connected host i.valid c buffer) (rw within at e')
      ]
  read_loop-Inv blocked m final fd p s i c e =
      let left = receive_failed initial_buffer_size s.read_buffer in
      process_buffer-Inv (set_read_buffer m p s left) final fd p (buffered s left)
        (set_read_buffer-Inv host i c left) (set_read_buffer-Connected host i.valid c left)
        (rw c.object at e)
  read_loop-Inv (ended status) m final fd p s i c e =
      let left = receive_failed initial_buffer_size s.read_buffer in
      let (done, returns, j) =
        disconnection-Keeps host (set_read_buffer-Inv host i c left)
          (set_read_buffer-Connected host i.valid c left) in
      let same : done ≡ final = cc (returns, rw c.object at e) in rw same at j
