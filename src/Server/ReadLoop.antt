-- ===== src/Server/ReadLoop.antt =====
-- The read loop of `Server::handle_client_message`: what the buffer holds when the loop ends.
use axn_chat_app.Prelude.{
  ℕ, suc, ◌≤◌, ◌≡◌, refl, ap, ◌∙◌, [], ◌++◌, append_assoc, append-nil, Bytes, length,
}
use axn_chat_app.Prelude.Map.{insert-insert}
use axn_chat_app.Protocol.Words.{Endian}
use axn_chat_app.Socket.{Reads, chunk, blocked, ended}
use axn_chat_app.ReadBuffer.{initial_buffer_size, receive_ok-append, receive_failed-same}
use axn_chat_app.Server.State.{ClientSession, ClientManager, deref}
use axn_chat_app.Server.Handlers.{handle_client_disconnection}
use axn_chat_app.Server.Reading.{set_read_buffer, process_loop, process_buffer, read_loop}
use axn_chat_app.Server.Tables.{IsValid}
use axn_chat_app.Server.Outcome.{Connected}
use axn_chat_app.Server.Draining.{buffered, set_read_buffer-IsValid, set_read_buffer-Connected}

-- The bytes of one call's reads.
unfoldable pub received_bytes : Reads → Bytes
received_bytes (chunk b reads) = b ++ received_bytes reads
received_bytes _ = []

-- The reads end because no more data is there, and none of them gave more than its buffer holds.
abbrev pub Blocks : Reads → Type 0
Blocks (chunk b reads) = (length b ≤ initial_buffer_size) × Blocks reads
Blocks blocked = Unit {0}
Blocks (ended status) = ⊥

-- The reads end with any other failure: the peer has closed the connection, or an error.
abbrev pub Fails : Reads → Type 0
Fails (chunk b reads) = (length b ≤ initial_buffer_size) × Fails reads
Fails blocked = ⊥
Fails (ended status) = Unit {0}

-- A buffer that is set twice.
set_read_buffer_twice :
    (m : ClientManager) (p : ℕ) (s : ClientSession) (a b : Bytes)
    → set_read_buffer (set_read_buffer m p s a) p (buffered s a) b ≡ set_read_buffer m p s b
set_read_buffer_twice m p s a b =
    ap (λ t. record m { sessions = t }) (insert-insert p (buffered s b) (buffered s a) m.sessions)

set_read_buffer_more :
    (m : ClientManager) (p : ℕ) (s : ClientSession) (b more : Bytes)
    → set_read_buffer
        (set_read_buffer m p s (s.read_buffer ++ b))
        p
        (buffered s (s.read_buffer ++ b))
        ((s.read_buffer ++ b) ++ more)
      ≡ set_read_buffer m p s (s.read_buffer ++ (b ++ more))
set_read_buffer_more m p s b more =
    set_read_buffer_twice m p s (s.read_buffer ++ b) ((s.read_buffer ++ b) ++ more)
    ∙ ap (set_read_buffer m p s) (append_assoc s.read_buffer b more)

pub read_loop-blocked :
    (host : Endian) (reads : Reads) {m : ClientManager} {fd p : ℕ} {s : ClientSession}
    → IsValid m
    → Connected m fd p s
    → Blocks reads
    → read_loop host m p fd reads
      ≡ process_buffer host (set_read_buffer m p s (s.read_buffer ++ received_bytes reads)) p
unfolding read_loop received_bytes deref
read_loop-blocked host (chunk b reads) {m} {fd} {p} {s} v c h =
    let left = s.read_buffer ++ b in
    let rest =
      read_loop-blocked host reads {m = set_read_buffer m p s left} {fd = fd} {p = p}
        {s = buffered s left} (set_read_buffer-IsValid host v c left)
        (set_read_buffer-Connected host v c left) h.1 in
    rw (c.object, receive_ok-append initial_buffer_size s.read_buffer b h.0)
      (rest
        ∙ ap (λ t. process_buffer host t p) (set_read_buffer_more m p s b (received_bytes reads)))
read_loop-blocked host blocked {m} {fd} {p} {s} v c h =
    rw (c.object, receive_failed-same initial_buffer_size s.read_buffer, append-nil s.read_buffer)
      refl
read_loop-blocked host (ended status) v c h = absurd h

pub read_loop-ended :
    (host : Endian) (reads : Reads) {m : ClientManager} {fd p : ℕ} {s : ClientSession}
    → IsValid m
    → Connected m fd p s
    → Fails reads
    → read_loop host m p fd reads
      ≡ handle_client_disconnection host
          (set_read_buffer m p s (s.read_buffer ++ received_bytes reads))
          fd
unfolding read_loop received_bytes deref
read_loop-ended host (chunk b reads) {m} {fd} {p} {s} v c h =
    let left = s.read_buffer ++ b in
    let rest =
      read_loop-ended host reads {m = set_read_buffer m p s left} {fd = fd} {p = p}
        {s = buffered s left} (set_read_buffer-IsValid host v c left)
        (set_read_buffer-Connected host v c left) h.1 in
    rw (c.object, receive_ok-append initial_buffer_size s.read_buffer b h.0)
      (rest
        ∙ ap (λ t. handle_client_disconnection host t fd)
            (set_read_buffer_more m p s b (received_bytes reads)))
read_loop-ended host blocked v c h = absurd h
read_loop-ended host (ended status) {m} {fd} {p} {s} v c h =
    rw (c.object, receive_failed-same initial_buffer_size s.read_buffer, append-nil s.read_buffer)
      refl

pub process_buffer-loop :
    (host : Endian) {m : ClientManager} {fd p : ℕ} {s : ClientSession}
    → Connected m fd p s
    → process_buffer host m p ≡ process_loop host (suc (length s.read_buffer)) m p
unfolding process_buffer deref
process_buffer-loop host c = rw c.object refl
