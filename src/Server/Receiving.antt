-- ===== src/Server/Receiving.antt =====
-- `Server::handle_client_message` as a whole: what was received in one call, on each way it ends.
use axn_chat_app.Prelude.{
  ℕ, suc, ◌≡◌, refl, ap, sym, ◌∙◌, none, some, List, ◌++◌, Bytes, length, All, ◌==◌, Bool-cases,
  ==_iff, inl, inr,
}
use axn_chat_app.Prelude.Names
use axn_chat_app.Protocol.Words.{Endian}
use axn_chat_app.Protocol.{Message}
use axn_chat_app.Protocol.Frames.{Framed, Framed-length}
use axn_chat_app.Socket.{Reads}
use axn_chat_app.Server.State.{ClientSession, ClientManager}
use axn_chat_app.Server.Reading.{set_read_buffer, process_loop, handle_client_message}
use axn_chat_app.Server.Tables.{IsValid}
use axn_chat_app.Server.Watch.{watched}
use axn_chat_app.Server.Broadcast.{session_at, sent_to, once_if}
use axn_chat_app.Server.Outcome.{
  Outcome, Connected, with_entry, session_at-write, session_at-Connected, still-removed,
}
use axn_chat_app.Server.Connections.{disconnection-Outcome, told_of_leaving, left_packet}
use axn_chat_app.Server.Dispatch.{IsHarmless}
use axn_chat_app.Server.Draining.{
  buffered, Drained, process_loop_harmless, set_read_buffer-IsValid, set_read_buffer-Connected,
  entry_over,
}
use axn_chat_app.Server.Messages.{process_messages, process_loop-messages}
use axn_chat_app.Server.ReadLoop.{
  received_bytes, Blocks, Fails, read_loop-blocked, read_loop-ended, process_buffer-loop,
}

module _ (host : Endian) (reads : Reads) {m : ClientManager} {fd p : ℕ} {s : ClientSession}
    (v : IsValid m) (c : Connected m fd p s) where
  abbrev full : Bytes
  full = s.read_buffer ++ received_bytes reads

  pub handle_client_message-loop :
      Blocks reads
      → handle_client_message host m fd reads
        ≡ process_loop host (suc (length full)) (set_read_buffer m p s full) p
  unfolding handle_client_message
  handle_client_message-loop h = rw c.pointer (
      read_loop-blocked host reads v c h
      ∙ process_buffer-loop host (set_read_buffer-Connected host v c full))

  pub handle_client_message_harmless :
      (ms : List Message) (rest : Bytes)
      → Blocks reads
      → Framed host (s.read_buffer ++ received_bytes reads) ms rest
      → All (λ message. IsHarmless s message.header.type) ms
      → (handle_client_message host m fd reads
          ≡ process_messages host
              (set_read_buffer m p s (s.read_buffer ++ received_bytes reads))
              p
              ms
              rest)
        × Drained m (handle_client_message host m fd reads) fd p (buffered s rest)
  handle_client_message_harmless ms rest h f harmless =
      let r =
        process_loop_harmless host ms rest (suc (length full)) {m = set_read_buffer m p s full}
          {fd = fd} {p = p} {s = buffered s full} (set_read_buffer-IsValid host v c full)
          (set_read_buffer-Connected host v c full) f harmless (Framed-length host ms f) in
      (
        handle_client_message-loop h
            ∙ process_loop-messages host ms rest (suc (length full))
                {m = set_read_buffer m p s full} {fd = fd} {p = p} {s = buffered s full}
                (set_read_buffer-IsValid host v c full) (set_read_buffer-Connected host v c full) f
                harmless (Framed-length host ms f),
        record {
          final = r.final;
          returns = handle_client_message-loop h ∙ r.returns;
          valid = r.valid;
          connection = r.connection;
          session = λ k.
              r.session k
              ∙ entry_over (session_at (set_read_buffer m p s full)) (session_at m) fd k
                  (some (buffered s full)) (some (buffered s rest))
                  (session_at-write v c (buffered s full) k);
          usernames = r.usernames;
        },
      )

  -- Other sessions and what they are told do not depend on the buffer.
  told_of_leaving-buffered :
      (k : ℕ)
      → told_of_leaving (buffered s full) (session_at (set_read_buffer m p s full) k)
        ≡ told_of_leaving s (session_at m k)
  told_of_leaving-buffered k =
      rw (session_at-write v c (buffered s full) k) (elim (Bool-cases (fd == k)) [
        | inl self ↦
            let here : session_at m k ≡ some s =
              ap (session_at m) (sym ((==_iff fd k).0 self)) ∙ session_at-Connected c in
            rw (self, here) refl
        | inr other ↦ rw other refl
      ])

  -- If the reads of a call end with a closed connection or an error, the client is disconnected
  -- and the others are told as by a disconnection; none of what arrived in the same call is
  -- processed.
  pub handle_client_message_closed :
      Fails reads
      → Outcome m
          (handle_client_message host m fd reads)
          (with_entry (session_at m) fd none)
          (Names.erase s.username m.usernames)
          (λ k. once_if (told_of_leaving s (session_at m k)) (left_packet s))
  unfolding handle_client_message
  handle_client_message_closed h =
      let o =
        disconnection-Outcome host (set_read_buffer-IsValid host v c full)
          (set_read_buffer-Connected host v c full) in
      record {
        final = o.final;
        returns = rw c.pointer (read_loop-ended host reads v c h ∙ o.returns);
        valid = o.valid;
        session = λ k.
            o.session k
            ∙ entry_over (session_at (set_read_buffer m p s full)) (session_at m) fd k
                (some (buffered s full)) none (session_at-write v c (buffered s full) k);
        usernames = o.usernames;
        pointers = o.pointers;
        sends = λ k.
            o.sends k
            ∙ ap (λ b. sent_to k m.calls ++ once_if b (left_packet s)) (told_of_leaving-buffered k);
        watch = λ k.
            let c' = set_read_buffer-Connected host v c full in
            o.watch k
            ∙ sym (
                still-removed (set_read_buffer m p s full) fd (buffered s full)
                  (session_at-Connected c') k (watched k m))
            ∙ still-removed m fd s (session_at-Connected c) k (watched k m);
      }
