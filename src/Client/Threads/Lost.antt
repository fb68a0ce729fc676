-- ===== src/Client/Threads/Lost.antt =====
-- Interleavings that the client does not keep out: a failure that is forgotten, and a map that is
-- read and written at once.
use axn_chat_app.Prelude.{◌≡◌, refl, true, false, some, [], ◌∷◌, ◌++◌, Bytes, codes, if◌then◌else◌}
use axn_chat_app.Protocol.{Message, s2c_join_success, s2c_join_failure}
use axn_chat_app.Client.State.{done, new_client}
use axn_chat_app.Client.Handlers.{on_message_received, process_join_failure, send_join_request}
use axn_chat_app.Client.Threads.{
  Client, Reach, start, later, Step, starts, runs, reads_line, enters_name, locks_map, receives,
  has_acted, locks, names_receiver, initial, started, run_flag, receiving, acts, looks_up,
  wants_lock, wants_update, joining, reading, at_loop, main_thread,
}

takes_no_lock :
    (s : Client) (x : Message)
    → locks x.header.type x.header.sender_id ≡ false
    → s.receiver ≡ receiving
    → Step s (record s { receiver = acts x })
takes_no_lock s x free at =
    let step : Step s (record s {
      receiver = if locks x.header.type x.header.sender_id then wants_update x else acts x;
    }) =
      receives x at in
    rw free at step

connected_client : Bytes → Client
connected_client username = record (initial username) {
  client = started (new_client username);
  connected = true;
  main = joining;
  receiver = receiving;
}

connected_reached : (username : Bytes) → Reach username (connected_client username)
unfolding connected_client
connected_reached username =
    later (initial username) (connected_client username) start (starts refl)

-- For every name and every refusal of a JOIN, some interleaving shows the refusal and has the
-- client run on.
pub failure_forgotten :
    (username : Bytes) (x : Message)
    → x.header.type ≡ s2c_join_failure
    → (s : Client) × Reach username s
      × (s.receiver ≡ receiving)
      × (s.client.shown ≡ (codes "[Server Error]: " ++ x.payload) ∷ [])
      × (s.client.is_running ≡ true)
unfolding connected_client on_message_received process_join_failure locks send_join_request
failure_forgotten username x e =
    let c = connected_client username in
    let told : Client = record c { receiver = acts x } in
    let failed : Client = record c { client = process_join_failure c.client x } in
    let running : Client = record failed { client = run_flag failed.client true; main = at_loop } in
    let handled : on_message_received c.client x ≡ done (process_join_failure c.client x) =
      rw e refl in
    (
      running,
      later failed running
          (later told failed
            (later c told (connected_reached username) (takes_no_lock c x (rw e refl) refl))
            (has_acted x (process_join_failure c.client x) refl handled))
          (runs refl),
      refl,
      refl,
      refl,
    )

-- For every line that looks a name up and every welcome, some interleaving has the input thread
-- read the map while the receiver is in the handler that writes it without the lock.
pub lookup_meets_welcome :
    (username input : Bytes) (x : Message)
    → x.header.type ≡ s2c_join_success
    → names_receiver input ≡ true
    → (s : Client) × Reach username s × (s.main ≡ looks_up input) × (s.receiver ≡ acts x)
unfolding connected_client locks
lookup_meets_welcome username input x e named =
    let c = connected_client username in
    let running : Client = record c { client = run_flag c.client true; main = at_loop } in
    let read : Client = record running { main = reading } in
    let wants : Client = record running { main = wants_lock input } in
    let holds : Client = record running { count_mutex = some main_thread; main = looks_up input } in
    let meets : Client = record holds { receiver = acts x } in
    (
      meets,
      later holds meets
          (later wants holds
            (later read wants
              (later running read (later c running (connected_reached username) (runs refl))
                (reads_line refl refl))
              (enters_name input refl named))
            (locks_map input refl refl))
          (takes_no_lock holds x (rw e refl) refl),
      refl,
      refl,
    )
