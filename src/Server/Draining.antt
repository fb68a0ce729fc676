-- ===== src/Server/Draining.antt =====
-- The loops of `Server::handle_client_message`: the messages that a read leaves in the buffer, one
-- after the other, and what happens when one of them ends the connection.
use axn_chat_app.Prelude.{
  ℕ, zero, suc, ◌+◌, ◌<◌, ◌≡◌, refl, ap, ◌∙◌, Option, none, some, List, [], ◌∷◌, ◌++◌, append_assoc,
  Bytes, length, drop, All, drop-length_append, arith,
}
use axn_chat_app.Prelude.Map.{lookup, lookup-insert}
use axn_chat_app.Protocol.Words.{Endian}
use axn_chat_app.Protocol.{Message, deserialize_message}
use axn_chat_app.Protocol.Wire.{wire, IsMessage, deserialize-wire, length-wire}
use axn_chat_app.Protocol.Frames.{wires, Framed}
use axn_chat_app.Server.State.{
  Result, ok, err, use_after_free, ◌>>=◌, ClientSession, ClientManager, deref,
}
use axn_chat_app.Server.Handlers.{process_message}
use axn_chat_app.Server.Reading.{set_read_buffer, process_loop}
use axn_chat_app.Server.Tables.{IsValid, write-Tables}
use axn_chat_app.Server.Broadcast.{session_at}
use axn_chat_app.Server.Outcome.{
  Outcome, Connected, with_entry, Connected-at, session_at-write, session_at-Connected,
}
use axn_chat_app.Server.Dispatch.{IsHarmless, process_message_harmless}

abbrev pub buffered : ClientSession → Bytes → ClientSession
buffered s buffer = record s { read_buffer = buffer }

drop-wire :
    (message : Message) (rest : Bytes)
    → drop (13 + length message.payload) (wire message ++ rest) ≡ rest
drop-wire message rest = rw (← length-wire message) (drop-length_append (wire message) rest)

module _ (host : Endian) {m : ClientManager} {fd p : ℕ} {s : ClientSession} (v : IsValid m)
    (c : Connected m fd p s) where
  pub set_read_buffer-IsValid : (buffer : Bytes) → IsValid (set_read_buffer m p s buffer)
  set_read_buffer-IsValid buffer = write-Tables v p s (buffered s buffer) c.object refl refl

  pub set_read_buffer-Connected :
      (buffer : Bytes) → Connected (set_read_buffer m p s buffer) fd p (buffered s buffer)
  set_read_buffer-Connected buffer = record {
    pointer = c.pointer;
    object = lookup-insert p p (buffered s buffer) m.sessions ∙ ground arith;
    socket = c.socket;
  }

  -- A round on a buffer that begins with a message takes it off and processes it.
  pub process_loop-message :
      (fuel : ℕ) (message : Message) (rest : Bytes)
      → s.read_buffer ≡ wire message ++ rest
      → IsMessage message
      → process_loop host (suc fuel) m p ≡ (
          process_message host (set_read_buffer m p s rest) p message >>= λ processed.
          process_loop host fuel processed p)
  unfolding process_loop deref
  process_loop-message fuel message rest holds valid =
      rw (c.object, holds, deserialize-wire host message rest valid, drop-wire message rest) refl

  pub process_loop-done :
      (fuel : ℕ)
      → deserialize_message host s.read_buffer ≡ (none, 0)
      → process_loop host (suc fuel) m p ≡ ok m
  unfolding process_loop deref
  process_loop-done fuel incomplete = rw (c.object, incomplete) refl

-- A session that is gone is still read by the next round.
pub process_loop-freed :
    (host : Endian) (fuel : ℕ) (m : ClientManager) (p : ℕ)
    → lookup p m.sessions ≡ none
    → process_loop host (suc fuel) m p ≡ err use_after_free
unfolding process_loop deref
process_loop-freed host fuel m p gone = rw gone refl

-- Afterwards the client is still connected, as `s`; the other sessions and the names are as they
-- were, and the invariant holds.
pub record Drained (m : ClientManager) (result : Result ClientManager) (fd p : ℕ)
    (s : ClientSession) : Type 0 where
  pub final : ClientManager
  pub returns : result ≡ ok final
  pub valid : IsValid final
  pub connection : Connected final fd p s
  pub session : (k : ℕ) → session_at final k ≡ with_entry (session_at m) fd (some s) k
  pub usernames : final.usernames ≡ m.usernames

-- The client that sent a harmless message stays connected through the same object.
pub still-Connected :
    {m : ClientManager} {fd p : ℕ} {s : ClientSession} {result : Result ClientManager}
    {sent : ℕ → List Bytes}
    → Connected m fd p s
    → (o : Outcome m result (session_at m) m.usernames sent) → Connected o.final fd p s
still-Connected {m} {fd} {p} {s} c o =
    let (q, d) = Connected-at o.final fd s o.valid (o.session fd ∙ session_at-Connected c) in
    let same : q ≡ p = ground (arith, o.pointers fd q d.pointer, c.pointer) in rw same at d

entry_same :
    (table : ℕ → Option ClientSession) (fd k : ℕ) (s : ClientSession)
    → table fd ≡ some s
    → table k ≡ with_entry table fd (some s) k
entry_same table fd k s h = ground (arith, h)

pub entry_over :
    (table table' : ℕ → Option ClientSession) (fd k : ℕ) (x y : Option ClientSession)
    → table k ≡ with_entry table' fd x k
    → with_entry table fd y k ≡ with_entry table' fd y k
entry_over table table' fd k x y h = ground (arith, h)

-- As long as no message ends the connection, the loop processes all the messages that the buffer
-- holds and returns, leaving in it the rest that is no whole message. A round for each message and
-- one more are enough.
pub process_loop_harmless :
    (host : Endian) (ms : List Message) (rest : Bytes) (fuel : ℕ) {m : ClientManager} {fd p : ℕ}
    {s : ClientSession}
    → IsValid m
    → Connected m fd p s
    → Framed host s.read_buffer ms rest
    → All (λ message. IsHarmless s message.header.type) ms
    → length ms < fuel
    → Drained m (process_loop host fuel m p) fd p (buffered s rest)
process_loop_harmless host ms rest zero v c f harmless enough = elim enough [ ]
process_loop_harmless host [] rest (suc fuel) {m} {fd} {p} {s} v c f harmless enough =
    let same : s ≡ buffered s rest = ap (buffered s) f.split in
    record {
      final = m;
      returns = process_loop-done host v c fuel (rw f.split f.incomplete);
      valid = v;
      connection = rw same at c;
      session = λ k.
          entry_same (session_at m) fd k (buffered s rest) (session_at-Connected (rw same at c));
      usernames = refl;
    }
process_loop_harmless host (message ∷ ms) rest (suc fuel) {m} {fd} {p} {s} v c f harmless enough =
    let left = wires ms ++ rest in
    let c' = set_read_buffer-Connected host v c left in
    let (sent, o) =
      process_message_harmless host (set_read_buffer-IsValid host v c left) c' message harmless.0 in
    let r =
      process_loop_harmless host ms rest fuel {m = o.final} {fd = fd} {p = p} {s = buffered s left}
        o.valid (still-Connected c' o)
        (record { split = refl; valid = f.valid.1; incomplete = f.incomplete }) harmless.1
        (omega arith) in
    record {
      final = r.final;
      returns =
          process_loop-message host v c fuel message left
            (f.split ∙ append_assoc (wire message) (wires ms) rest) f.valid.0
          ∙ rw o.returns r.returns;
      valid = r.valid;
      connection = r.connection;
      session = λ k.
          r.session k
          ∙ entry_over (session_at o.final) (session_at m) fd k (some (buffered s left))
              (some (buffered s rest)) (o.session k ∙ session_at-write v c (buffered s left) k);
      usernames = r.usernames ∙ o.usernames;
    }
