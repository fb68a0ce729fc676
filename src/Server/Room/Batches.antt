-- ===== src/Server/Room/Batches.antt =====
-- `Server::handle_client_message` against the room: a batch of a member's messages.
use axn_chat_app.Prelude.{
  ℕ, zero, suc, ◌<◌, ◌≡◌, ◌⊎◌, refl, ◌∙◌, none, some, List, [], ◌∷◌, ◌++◌, Bytes, append_assoc,
  length, Option-cases, inl, inr, arith,
}
use axn_chat_app.Prelude.Map.{lookup}
use axn_chat_app.Protocol.Words.{Endian}
use axn_chat_app.Protocol.{Message}
use axn_chat_app.Protocol.Wire.{wire}
use axn_chat_app.Protocol.Frames.{wires, Framed, Framed-length}
use axn_chat_app.Socket.{Reads}
use axn_chat_app.Server.State.{err, use_after_free, ClientSession, ClientManager}
use axn_chat_app.Server.Reading.{set_read_buffer, process_loop, handle_client_message}
use axn_chat_app.Server.Outcome.{Connected}
use axn_chat_app.Server.Draining.{
  buffered, process_loop-done, process_loop-message, process_loop-freed, set_read_buffer-Connected,
}
use axn_chat_app.Server.ReadLoop.{received_bytes, Blocks}
use axn_chat_app.Server.Receiving.{handle_client_message-loop}
use axn_chat_app.Server.Invariant.{Inv, process_message-Keeps, set_read_buffer-Inv}
use axn_chat_app.Server.Total.{typed-Holds}
use axn_chat_app.Server.Room.Abstraction.{seen, room, member_seen}
use axn_chat_app.Server.Room.Refine.{process_message-Taken}
use axn_chat_app.Server.Room.Conversed.{
  Conversed, Ejected, unread, unread-Ejected, gone-none, still_there, no_turns, first_turn,
  first_turn-Ejected, no_more_turns,
}

loop_freed :
    (host : Endian) (fuel : ℕ) (m : ClientManager) (p : ℕ)
    → 0 < fuel
    → lookup p m.sessions ≡ none
    → process_loop host fuel m p ≡ err use_after_free
loop_freed host zero m p enough gone = elim enough [ ]
loop_freed host (suc fuel) m p enough gone = process_loop-freed host fuel m p gone

process_loop_turns :
    (host : Endian) (ms : List Message) (rest : Bytes) (fuel : ℕ) {m : ClientManager} {fd p : ℕ}
    {s : ClientSession}
    → Inv m
    → Connected m fd p s
    → Framed host s.read_buffer ms rest
    → length ms < fuel
    → Conversed m (process_loop host fuel m p) fd ms ⊎ Ejected m (process_loop host fuel m p) fd ms
process_loop_turns host ms rest zero i c f enough = elim enough [ ]
process_loop_turns host [] rest (suc fuel) {fd = fd} i c f enough =
    inl (no_turns fd i (process_loop-done host i.valid c fuel (rw f.split f.incomplete)))
process_loop_turns host (x ∷ ms) rest (suc fuel) {m} {fd} {p} {s} i c f enough =
    let behind = wires ms ++ rest in
    let i' = set_read_buffer-Inv host i c behind in
    let c' = set_read_buffer-Connected host i.valid c behind in
    let o = process_message-Taken host i'.valid c' x in
    let (processed, returns, j) = process_message-Keeps host i' c' x in
    let same : processed ≡ o.final = cc (returns, o.returns) in
    let kept : Inv o.final = rw same at j in
    let round =
      process_loop-message host i.valid c fuel x behind
        (f.split ∙ append_assoc (wire x) (wires ms) rest) f.valid.0 in
    let at : (room (set_read_buffer m p s behind)).member fd ≡ some (seen s) = member_seen c' in
    elim (Option-cases (lookup p o.final.sessions)) [
      | inl gone ↦ inr (
          unread-Ejected host i c behind
            (round ∙ rw o.returns (loop_freed host fuel o.final p (omega arith) gone))
            (first_turn-Ejected o at
              (no_more_turns fd ms (gone-none o.final i'.valid c' o.valid o.pointers gone) refl)))
      | inr (t, object) ↦
          let d = still_there o.final i'.valid c' o.valid o.pointers t object in
          let held : t.read_buffer ≡ behind =
            typed-Holds host i'.valid c' x.header.type x o.final refl o.returns t object in
          elim (process_loop_turns host ms rest fuel {m = o.final} {fd = fd} {p = p} {s = t} kept d
            (record { split = held; valid = f.valid.1; incomplete = f.incomplete }) (omega arith)) [
              | inl later ↦
                  inl (unread host i c behind (round ∙ rw o.returns refl) (first_turn o at later))
              | inr later ↦ inr (
                  unread-Ejected host i c behind (round ∙ rw o.returns refl)
                    (first_turn-Ejected o at later))
            ]
    ]

module _ (host : Endian) (reads : Reads) {m : ClientManager} {fd p : ℕ} {s : ClientSession}
    (i : Inv m) (c : Connected m fd p s) where
  -- Where the invariant of the tables and of the names holds, and a call's reads end because the
  -- socket would block and none gives more than the buffer's step: the call returns with the
  -- invariant and does what the turns of all the messages do that were held and arrived, or some
  -- of these messages, in turn, end the member's stay, and then the call reads the session after
  -- destroying it.
  pub handle_client_message_turns :
      (ms : List Message) (rest : Bytes)
      → Blocks reads
      → Framed host (s.read_buffer ++ received_bytes reads) ms rest
      → Conversed m (handle_client_message host m fd reads) fd ms
        ⊎ Ejected m (handle_client_message host m fd reads) fd ms
  handle_client_message_turns ms rest h f =
      let full = s.read_buffer ++ received_bytes reads in
      let start = handle_client_message-loop host reads i.valid c h in
      elim (process_loop_turns host ms rest (suc (length full)) {s = buffered s full}
        (set_read_buffer-Inv host i c full) (set_read_buffer-Connected host i.valid c full) f
        (Framed-length host ms f)) [
          | inl t ↦ inl (unread host i c full start t)
          | inr t ↦ inr (unread-Ejected host i c full start t)
        ]
