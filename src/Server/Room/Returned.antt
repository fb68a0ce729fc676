-- ===== src/Server/Room/Returned.antt =====
-- The second loop of `Server::handle_client_message` where it returns, whatever its buffer holds.
use axn_chat_app.Prelude.{
  ℕ, zero, suc, ◌≡◌, refl, sym, ◌∙◌, Option, none, some, List, [], ◌∷◌, ◌≢◌, Bytes, drop, length,
  Option-cases, inl, inr,
}
use axn_chat_app.Prelude.Map.{lookup}
use axn_chat_app.Protocol.Words.{Endian}
use axn_chat_app.Protocol.{Message, deserialize_message}
use axn_chat_app.Server.State.{Result, ok, ClientSession, ClientManager, deref}
use axn_chat_app.Server.Reading.{set_read_buffer, process_next, process_loop, process_buffer}
use axn_chat_app.Server.Outcome.{Connected}
use axn_chat_app.Server.ReadLoop.{process_buffer-loop}
use axn_chat_app.Server.Draining.{set_read_buffer-Connected, buffered, process_loop-freed}
use axn_chat_app.Server.Invariant.{Inv, process_message-Keeps, set_read_buffer-Inv}
use axn_chat_app.Server.Room.Abstraction.{seen, room, member_seen, Taken}
use axn_chat_app.Server.Room.Refine.{process_message-Taken}
use axn_chat_app.Server.Room.Conversed.{Conversed, unread, still_there, no_turns, first_turn}

loop_gone :
    (host : Endian) (fuel : ℕ) (m final : ClientManager) (p : ℕ)
    → lookup p m.sessions ≡ none
    → process_loop host fuel m p ≢ ok final
unfolding process_loop
loop_gone host zero m final p gone e = cc
loop_gone host (suc fuel) m final p gone e = cc (process_loop-freed host fuel m p gone, e)

-- What a loop does to a connected client's messages, if it returns.
abbrev Turned : Endian → ℕ → Type 0
Turned host fuel =
    (m final : ClientManager) (fd p : ℕ) (s : ClientSession)
    → Inv m
    → Connected m fd p s
    → process_loop host fuel m p ≡ ok final
    → (ms : List Message) × Conversed m (process_loop host fuel m p) fd ms

module _ (host : Endian) {m : ClientManager} {fd p : ℕ} {s : ClientSession} {x : Message}
    {result more result' : Result ClientManager} (i : Inv m) (c : Connected m fd p s) (left : Bytes)
    (o : Taken (set_read_buffer m p s left) result fd (buffered s left) x) where
  -- A turn in front of others.
  one_more :
      (room (set_read_buffer m p s left)).member fd ≡ some (seen s)
      → result' ≡ more
      → (ms : List Message) × Conversed o.final more fd ms
      → (ms : List Message) × Conversed m result' fd ms
  one_more at e (ms, t) = (x ∷ ms, unread host i c left e (first_turn o at t))

module _ (host : Endian) where
  next-Turned :
      (fuel : ℕ)
      → Turned host fuel
      → (m final : ClientManager) (fd p : ℕ) (s : ClientSession) (found : Option Message) (n : ℕ)
      → Inv m
      → Connected m fd p s
      → process_next host (process_loop host fuel) m p s found n ≡ ok final
      → (ms : List Message) × Conversed m
          (process_next host (process_loop host fuel) m p s found n)
          fd
          ms
  next-Turned fuel turned m final fd p s none n i c e = ([], no_turns fd i refl)
  next-Turned fuel turned m final fd p s (some x) n i c e =
      let left = drop n s.read_buffer in
      let i' = set_read_buffer-Inv host i c left in
      let c' = set_read_buffer-Connected host i.valid c left in
      let o = process_message-Taken host i'.valid c' x in
      let (processed, returns, j) = process_message-Keeps host i' c' x in
      let same : processed ≡ o.final = cc (returns, o.returns) in
      let kept : Inv o.final = rw same at j in
      let later = rw o.returns at e in
      elim (Option-cases (lookup p o.final.sessions)) [
        | inl gone ↦ absurd (loop_gone host fuel o.final final p gone later)
        | inr (t, object) ↦
            let d = still_there o.final i'.valid c' o.valid o.pointers t object in
            one_more host i c left o (member_seen c') (rw o.returns refl)
              (turned o.final final fd p t kept d later)
      ]

  process_loop-Turned : (fuel : ℕ) → Turned host fuel
  unfolding process_loop deref
  process_loop-Turned zero m final fd p s i c e = cc
  process_loop-Turned (suc fuel) m final fd p s i c e = rw c.object (
      next-Turned fuel (process_loop-Turned fuel) m final fd p s
        (deserialize_message host s.read_buffer).0 (deserialize_message host s.read_buffer).1 i c
        (rw c.object at e))

  pub buffer_turned :
      (m final : ClientManager) (fd p : ℕ) (s : ClientSession)
      → Inv m
      → Connected m fd p s
      → process_buffer host m p ≡ ok final
      → (ms : List Message) × Conversed m (process_buffer host m p) fd ms
  buffer_turned m final fd p s i c e =
      let loop = process_buffer-loop host c in
      rw loop (process_loop-Turned (suc (length s.read_buffer)) m final fd p s i c (sym loop ∙ e))
