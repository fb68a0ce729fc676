-- ===== src/Server/Freed.antt =====
-- `handle_client_message` keeps a reference into a session that a message of the same read can
-- destroy.
use axn_chat_app.Prelude.{
  ℕ, zero, suc, ◌+◌, ◌<◌, ◌≡◌, refl, ap, sym, ◌∙◌, true, false, Option, none, some, List, [], ◌∷◌,
  ◌++◌, append_assoc, Bytes, length, All, Option-cases, inl, inr, arith,
}
use axn_chat_app.Prelude.Map.{lookup}
use axn_chat_app.Protocol.Words.{Endian}
use axn_chat_app.Protocol.{Message, c2s_join, c2s_leave}
use axn_chat_app.Protocol.Wire.{wire, IsMessage}
use axn_chat_app.Protocol.Frames.{wires, Framed}
use axn_chat_app.Server.State.{Result, err, use_after_free, ClientSession, ClientManager}
use axn_chat_app.Server.Manager.{is_username_taken}
use axn_chat_app.Server.Handlers.{process_message}
use axn_chat_app.Server.Reading.{set_read_buffer, process_loop}
use axn_chat_app.Server.Tables.{IsValid}
use axn_chat_app.Server.Broadcast.{session_at}
use axn_chat_app.Server.Outcome.{Outcome, Connected, with_entry, session_at-Connected}
use axn_chat_app.Server.Joining.{join_rejected}
use axn_chat_app.Server.Dispatch.{
  IsHarmless, process_message_harmless, process_message_leave, process_message_join,
}
use axn_chat_app.Server.Draining.{
  buffered, set_read_buffer-IsValid, set_read_buffer-Connected, process_loop-message,
  process_loop-freed, still-Connected,
}

-- A client whose descriptor has no session any more: its object is gone.
object_gone :
    {m : ClientManager} {fd p : ℕ} {s : ClientSession} {result : Result ClientManager}
    {table : ℕ → Option ClientSession} {names : List Bytes} {sent : ℕ → List Bytes}
    → IsValid m
    → Connected m fd p s
    → (o : Outcome m result table names sent) → table fd ≡ none
    → lookup p o.final.sessions ≡ none
object_gone {m} {fd} {p} {s} v c o gone = elim (Option-cases (lookup p o.final.sessions)) [
  | inl e ↦ e
  | inr (t, found) ↦
      let pointer = o.valid.has_fd p t found in
      let (u, object, at) = v.fd_live t.socket p (o.pointers t.socket p pointer) in
      let there : session_at o.final t.socket ≡ some t =
        session_at-Connected (record { pointer = pointer; object = found; socket = refl }) in
      let same : t.socket ≡ fd = ground (arith, c.object, c.socket) in
      let here : session_at o.final fd ≡ some t = ap (session_at o.final) (sym same) ∙ there in
      absurd (ground (arith, o.session fd))
]

-- If the message at the front of the buffer ends the connection, the round after it faults.
process_loop-ended :
    (host : Endian) {m : ClientManager} {fd p : ℕ} {s : ClientSession}
    {table : ℕ → Option ClientSession} {names : List Bytes} {sent : ℕ → List Bytes}
    → IsValid m
    → Connected m fd p s
    → (fuel : ℕ) (message : Message) (rest : Bytes) → s.read_buffer ≡ wire message ++ rest
    → IsMessage message
    → Outcome
        (set_read_buffer m p s rest)
        (process_message host (set_read_buffer m p s rest) p message)
        table
        names
        sent
    → table fd ≡ none
    → process_loop host (suc (suc fuel)) m p ≡ err use_after_free
process_loop-ended host {m} {fd} {p} {s} v c fuel message rest holds valid o gone =
    process_loop-message host v c (suc fuel) message rest holds valid
    ∙ rw o.returns (
        process_loop-freed host fuel o.final p (
          object_gone (set_read_buffer-IsValid host v c rest)
            (set_read_buffer-Connected host v c rest) o gone))

entry_gone : (table : ℕ → Option ClientSession) (fd : ℕ) → with_entry table fd none fd ≡ none
entry_gone table fd = ground arith

-- A LEAVE message behind any number of harmless ones: the session is destroyed, and the next round
-- of the loop reads it.
pub process_loop_leave :
    (host : Endian) (ms more : List Message) (leave : Message) (rest : Bytes) (fuel : ℕ)
    {m : ClientManager} {fd p : ℕ} {s : ClientSession}
    → IsValid m
    → Connected m fd p s
    → Framed host s.read_buffer (ms ++ leave ∷ more) rest
    → All (λ message. IsHarmless s message.header.type) ms
    → leave.header.type ≡ c2s_leave
    → length ms + 1 < fuel
    → process_loop host fuel m p ≡ err use_after_free
process_loop_leave host ms more leave rest zero v c f harmless e enough = elim enough [ ]
process_loop_leave host ms more leave rest (suc zero) v c f harmless e enough = absurd (omega arith)
process_loop_leave host [] more leave rest (suc (suc fuel)) {m} {fd} {p} {s} v c f harmless e
      enough =
    let left = wires more ++ rest in
    process_loop-ended host v c fuel leave left
      (f.split ∙ append_assoc (wire leave) (wires more) rest) f.valid.0
      (process_message_leave host (set_read_buffer-IsValid host v c left)
        (set_read_buffer-Connected host v c left) leave e)
      (entry_gone (session_at (set_read_buffer m p s left)) fd)
process_loop_leave host (message ∷ ms) more leave rest (suc (suc fuel)) {m} {fd} {p} {s} v c f
      harmless e enough =
    let left = wires (ms ++ leave ∷ more) ++ rest in
    let c' = set_read_buffer-Connected host v c left in
    let (sent, o) =
      process_message_harmless host (set_read_buffer-IsValid host v c left) c' message harmless.0 in
    process_loop-message host v c (suc fuel) message left
      (f.split ∙ append_assoc (wire message) (wires (ms ++ leave ∷ more)) rest) f.valid.0
    ∙ rw o.returns (
        process_loop_leave host ms more leave rest (suc fuel) {m = o.final} {fd = fd} {p = p}
          {s = buffered s left} o.valid (still-Connected c' o)
          (record { split = refl; valid = f.valid.1; incomplete = f.incomplete }) harmless.1 e
          (omega arith))

-- So too a JOIN under a name that is taken, from a client that has not joined.
pub process_loop_rejected :
    (host : Endian) (more : List Message) (join : Message) (rest : Bytes) (fuel : ℕ)
    {m : ClientManager} {fd p : ℕ} {s : ClientSession}
    → IsValid m
    → Connected m fd p s
    → Framed host s.read_buffer (join ∷ more) rest
    → join.header.type ≡ c2s_join
    → s.is_authenticated ≡ false
    → is_username_taken m join.payload ≡ true
    → 1 < fuel
    → process_loop host fuel m p ≡ err use_after_free
process_loop_rejected host more join rest zero v c f e anonymous taken enough = elim enough [ ]
process_loop_rejected host more join rest (suc zero) v c f e anonymous taken enough =
    absurd (omega arith)
process_loop_rejected host more join rest (suc (suc fuel)) {m} {fd} {p} {s} v c f e anonymous taken
      enough =
    let left = wires more ++ rest in
    let v' = set_read_buffer-IsValid host v c left in
    let c' = set_read_buffer-Connected host v c left in
    process_loop-ended host v c fuel join left
      (f.split ∙ append_assoc (wire join) (wires more) rest) f.valid.0
      (rw (← process_message_join host (set_read_buffer m p s left) p join e) at
        (join_rejected host v' c' join anonymous taken))
      (entry_gone (session_at (set_read_buffer m p s left)) fd)
