-- ===== src/Server/Messages.antt =====
-- The second loop of `Server::handle_client_message` against its messages, one after the other.
use axn_chat_app.Prelude.{
  ℕ, zero, suc, ◌<◌, ◌≡◌, refl, ◌∙◌, List, [], ◌∷◌, ◌++◌, append_assoc, Bytes, length, All, arith,
}
use axn_chat_app.Protocol.Words.{Endian}
use axn_chat_app.Protocol.{Message}
use axn_chat_app.Protocol.Wire.{wire}
use axn_chat_app.Protocol.Frames.{wires, Framed}
use axn_chat_app.Server.State.{Result, ok, ◌>>=◌, ClientSession, ClientManager, deref}
use axn_chat_app.Server.Handlers.{process_message}
use axn_chat_app.Server.Reading.{set_read_buffer, process_loop}
use axn_chat_app.Server.Tables.{IsValid}
use axn_chat_app.Server.Outcome.{Connected}
use axn_chat_app.Server.Dispatch.{IsHarmless, process_message_harmless}
use axn_chat_app.Server.Draining.{
  buffered, process_loop-done, process_loop-message, set_read_buffer-IsValid,
  set_read_buffer-Connected, still-Connected,
}

-- Each message is processed, with those behind it and the rest left in the buffer.
unfoldable pub process_messages :
    Endian → ClientManager → ℕ → List Message → Bytes → Result ClientManager
process_messages host m p [] rest = ok m
process_messages host m p (message ∷ ms) rest = do
  session ← deref m p
  processed ← process_message host (set_read_buffer m p session (wires ms ++ rest)) p message
  process_messages host processed p ms rest

pub process_loop-messages :
    (host : Endian) (ms : List Message) (rest : Bytes) (fuel : ℕ) {m : ClientManager} {fd p : ℕ}
    {s : ClientSession}
    → IsValid m
    → Connected m fd p s
    → Framed host s.read_buffer ms rest
    → All (λ message. IsHarmless s message.header.type) ms
    → length ms < fuel
    → process_loop host fuel m p ≡ process_messages host m p ms rest
unfolding process_messages deref
process_loop-messages host ms rest zero v c f harmless enough = elim enough [ ]
process_loop-messages host [] rest (suc fuel) v c f harmless enough =
    process_loop-done host v c fuel (rw f.split f.incomplete)
process_loop-messages host (message ∷ ms) rest (suc fuel) {m} {fd} {p} {s} v c f harmless enough =
    let left = wires ms ++ rest in
    let c' = set_read_buffer-Connected host v c left in
    let (sent, o) =
      process_message_harmless host (set_read_buffer-IsValid host v c left) c' message harmless.0 in
    let later =
      process_loop-messages host ms rest fuel {m = o.final} {fd = fd} {p = p} {s = buffered s left}
        o.valid (still-Connected c' o)
        (record { split = refl; valid = f.valid.1; incomplete = f.incomplete }) harmless.1
        (omega arith) in
    process_loop-message host v c fuel message left
      (f.split ∙ append_assoc (wire message) (wires ms) rest) f.valid.0
    ∙ rw (c.object, o.returns) later
