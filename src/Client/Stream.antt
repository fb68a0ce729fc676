-- ===== src/Client/Stream.antt =====
-- `ServerConnection::receiver_loop` against the messages of the stream that it reads.
use axn_chat_app.Prelude.{
  ℕ, zero, suc, ◌+◌, ◌<◌, ◌≤◌, ◌≡◌, refl, ap, sym, ◌∙◌, none, some, List, [], ◌∷◌, ◌++◌,
  append_assoc, append-nil, map, Bytes, codes, false, length, drop, drop-length_append, All, arith,
}
use axn_chat_app.Protocol.Words.{Endian, IsByte, front-IsByte, behind-IsByte, both-IsByte}
use axn_chat_app.Protocol.{Message, deserialize_message}
use axn_chat_app.Protocol.Wire.{wire, length-wire, deserialize-wire}
use axn_chat_app.Protocol.Frames.{
  wires, Framed, Framed-append, Framed-length, Framed-unique, frames_exist,
}
use axn_chat_app.Socket.{ok, would_block, closed, error}
use axn_chat_app.ReadBuffer.{initial_buffer_size, receive_ok-append}
use axn_chat_app.Client.State.{Handled, done, ChatClient}
use axn_chat_app.Client.Handlers.{on_message_received, deliver, process_user_left}
use axn_chat_app.Client.Binds.{bind_assoc, bind-cong}
use axn_chat_app.Client.Connection.{
  Round, received, failed, disconnected, Receiver, terminated, deliver_loop, receiver_loop,
}
use axn_chat_app.Client.State.{◌>>=◌}

-- All that is received.
unfoldable pub concat : List Bytes → Bytes
concat [] = []
concat (chunk ∷ chunks) = chunk ++ concat chunks

-- The end of the thread: the user is told, and the client does not run.
abbrev pub shows_end : ChatClient → Handled Receiver
shows_end client = done (
    terminated (record client {
      shown = client.shown ++ codes "You have left the chat." ∷ [];
      is_running = false;
    }))

-- A round that ends the loop.
abbrev pub Ends : Round → Type 0
Ends disconnected = Unit
Ends (failed closed) = Unit
Ends (failed error) = Unit
Ends _ = ⊥

deliver_loop-message :
    (host : Endian) (fuel : ℕ) (message : Message) (buffer left : Bytes) (client : ChatClient)
    → buffer ≡ wire message ++ left
    → deserialize_message host buffer ≡ (some message, 13 + length message.payload)
    → deliver_loop host (suc fuel) buffer client
      ≡ (on_message_received client message >>= λ handled. deliver_loop host fuel left handled)
unfolding deliver_loop
deliver_loop-message host fuel message buffer left client split e =
    let consumed : drop (13 + length message.payload) buffer ≡ left =
      ap (λ b. drop (13 + length message.payload) b) split
      ∙ ap (λ n. drop n (wire message ++ left)) (sym (length-wire message))
      ∙ drop-length_append (wire message) left in
    rw (e, consumed) refl

deliver_loop-frames :
    (host : Endian) (ms : List Message) (rest : Bytes) (fuel : ℕ) (buffer : Bytes)
    (client : ChatClient)
    → Framed host buffer ms rest
    → length ms < fuel
    → deliver_loop host fuel buffer client ≡ (deliver ms client >>= λ handled. done (rest, handled))
unfolding deliver_loop deliver
deliver_loop-frames host ms rest zero buffer client f enough = elim enough [ ]
deliver_loop-frames host [] rest (suc fuel) buffer client f enough =
    let none_left : deserialize_message host buffer ≡ (none, 0) = rw f.split f.incomplete in
    rw none_left (ap (λ b. done (b, client)) f.split)
deliver_loop-frames host (message ∷ ms) rest (suc fuel) buffer client f enough =
    let left = wires ms ++ rest in
    let split = f.split ∙ append_assoc (wire message) (wires ms) rest in
    let read = ap (deserialize_message host) split ∙ deserialize-wire host message left f.valid.0 in
    deliver_loop-message host fuel message buffer left client split read
    ∙ bind-cong (on_message_received client message) (λ handled.
      deliver_loop-frames host ms rest fuel left handled
        (record { split = refl; valid = f.valid.1; incomplete = f.incomplete }) (omega arith))
    ∙ sym (
        bind_assoc (on_message_received client message) (deliver ms)
          (λ handled. done (rest, handled)))

receiver_loop-Ends :
    (host : Endian) (last : Round) (more : List Round) (buffer : Bytes) (client : ChatClient)
    → Ends last
    → receiver_loop host (last ∷ more) buffer client ≡ shows_end client
unfolding receiver_loop on_message_received process_user_left
receiver_loop-Ends host disconnected more buffer client e = refl
receiver_loop-Ends host (failed closed) more buffer client e = refl
receiver_loop-Ends host (failed error) more buffer client e = refl
receiver_loop-Ends host (failed ok) more buffer client e = absurd e
receiver_loop-Ends host (failed would_block) more buffer client e = absurd e
receiver_loop-Ends host (received bytes) more buffer client e = absurd e

deliver-append :
    (xs ys : List Message) (client : ChatClient)
    → deliver (xs ++ ys) client ≡ (deliver xs client >>= deliver ys)
unfolding deliver
deliver-append [] ys client = refl
deliver-append (x ∷ xs) ys client =
    bind-cong (on_message_received client x) (deliver-append xs ys)
    ∙ sym (bind_assoc (on_message_received client x) (deliver xs) (deliver ys))

receiver_loop-received :
    (host : Endian) (bytes : Bytes) (rounds : List Round) (buffer rest : Bytes) (ms : List Message)
    (client : ChatClient)
    → length bytes ≤ initial_buffer_size
    → Framed host (buffer ++ bytes) ms rest
    → receiver_loop host (received bytes ∷ rounds) buffer client
      ≡ (deliver ms client >>= λ handled. receiver_loop host rounds rest handled)
unfolding receiver_loop
receiver_loop-received host bytes rounds buffer rest ms client within f =
    rw
      (
        receive_ok-append initial_buffer_size buffer bytes within,
        deliver_loop-frames host ms rest (suc (length (buffer ++ bytes))) (buffer ++ bytes) client f
            (Framed-length host ms f),
      )
      (bind_assoc (deliver ms client) (λ handled. done (rest, handled))
        (λ x. receiver_loop host rounds x.0 x.1))

-- However the server's stream is cut into reads, the client handles the messages that the whole
-- stream frames, one after the other, and the notice of the end behind them, when the connection
-- is closed, fails or is disconnected. No read gives more than was asked for, and the buffer
-- holds no whole message at the start.
pub receiver_loop_stream :
    (host : Endian) (chunks : List Bytes) (last : Round) (more : List Round) (buffer rest : Bytes)
    (ms : List Message) (client : ChatClient)
    → Ends last
    → All (λ chunk. length chunk ≤ initial_buffer_size) chunks
    → All IsByte (buffer ++ concat chunks)
    → deserialize_message host buffer ≡ (none, 0)
    → Framed host (buffer ++ concat chunks) ms rest
    → receiver_loop host (map received chunks ++ last ∷ more) buffer client
      ≡ (deliver ms client >>= shows_end)
unfolding concat deliver
receiver_loop_stream host [] last more buffer rest ms client ends within bytes incomplete f =
    let nothing : Framed host (buffer ++ []) [] buffer = record {
      split = append-nil buffer;
      valid = tt;
      incomplete = incomplete;
    } in
    let none_held = (Framed-unique host ms [] f nothing).0 in
    receiver_loop-Ends host last more buffer client ends
    ∙ ap (λ t. deliver t client >>= shows_end) (sym none_held)
receiver_loop_stream host (chunk ∷ chunks) last more buffer rest ms client ends within bytes
      incomplete f =
    let whole = append_assoc buffer chunk (concat chunks) in
    let all : All IsByte ((buffer ++ chunk) ++ concat chunks) = rw whole bytes in
    let (ms1, rest1, f1) =
      frames_exist host (buffer ++ chunk) (front-IsByte (buffer ++ chunk) (concat chunks) all) in
    let front : All IsByte (wires ms1 ++ rest1) =
      rw f1.split at (front-IsByte (buffer ++ chunk) (concat chunks) all) in
    let all1 : All IsByte (rest1 ++ concat chunks) =
      both-IsByte rest1 (concat chunks) (behind-IsByte (wires ms1) rest1 front)
        (behind-IsByte (buffer ++ chunk) (concat chunks) all) in
    let (ms2, rest2, f2) = frames_exist host (rest1 ++ concat chunks) all1 in
    let joined : Framed host (buffer ++ (chunk ++ concat chunks)) (ms1 ++ ms2) rest2 =
      rw whole at (Framed-append host (concat chunks) f1 f2) in
    let same = (Framed-unique host ms (ms1 ++ ms2) f joined).0 in
    receiver_loop-received host chunk (map received chunks ++ last ∷ more) buffer rest1 ms1 client
      within.0 f1
    ∙ bind-cong (deliver ms1 client) (λ handled.
      receiver_loop_stream host chunks last more rest1 rest2 ms2 handled ends within.1 all1
        f1.incomplete f2)
    ∙ sym (bind_assoc (deliver ms1 client) (deliver ms2) shows_end)
    ∙ ap (λ t. t >>= shows_end) (sym (deliver-append ms1 ms2 client))
    ∙ ap (λ t. deliver t client >>= shows_end) (sym same)
