-- ===== src/Client/Threads/Lookup.antt =====
-- The map of names while the input thread looks one up, in every interleaving.
use axn_chat_app.Prelude.{◌≡◌, ◌≢◌, ◌⊎◌, refl, false, some, Bytes, inl, inr, Bool-cases, arith}
use axn_chat_app.Protocol.{
  Message, MessageType, s2c_join_success, s2c_join_failure, s2c_user_joined, s2c_user_left,
  s2c_broadcast, s2c_private, s2c_user_joined_list,
}
use axn_chat_app.Client.State.{done, ChatClient}
use axn_chat_app.Client.Handlers.{
  receive, on_message_received, process_join_failure, process_user_left, process_chat_message,
}
use axn_chat_app.Client.Threads.{
  Client, Reach, start, later, Step, locks, wants_update, acts, has_updated, locks_map,
  locks_update, receives, fails_to_connect, terminates, has_acted, looks_name_up, main_thread,
  receiver_thread, looks_up, updates,
}
use axn_chat_app.Prelude.{ℕ, ◌+◌, ◌-◌, ◌==◌, Option, none, [], ◌∷◌, length}
use axn_chat_app.Client.Strings.{find, substr}
use axn_chat_app.Client.Handlers.{get_user_id_by_name}
use axn_chat_app.Client.Input.{handle_line, private_input, send_private}
use axn_chat_app.Client.Connection.{shutdown_msg}
use axn_chat_app.Client.Threads.{starts, runs, reads_line, enters_line}

-- The lock is held where the code says so.
record Locked (s : Client) : Type 0 where
  main_holds : (input : Bytes) → s.main ≡ looks_up input → s.count_mutex ≡ some main_thread
  receiver_holds :
      (message : Message) → s.receiver ≡ updates message → s.count_mutex ≡ some receiver_thread

main_holds-Step :
    {s t : Client}
    → Locked s
    → Step s t
    → (input : Bytes) → t.main ≡ looks_up input
    → t.count_mutex ≡ some main_thread
main_holds-Step i (has_updated message handled at e) input h =
    cc (i.main_holds input h, i.receiver_holds message at)
main_holds-Step i (locks_map name at free) input h = refl
main_holds-Step i (locks_update message at free) input h = ground (arith, i.main_holds input)
main_holds-Step i _ input h = ground (arith, i.main_holds input)

receiver_holds-Step :
    {s t : Client}
    → Locked s
    → Step s t
    → (message : Message) → t.receiver ≡ updates message
    → t.count_mutex ≡ some receiver_thread
receiver_holds-Step i (looks_name_up input at) message h =
    ground (arith, i.main_holds input, i.receiver_holds message)
receiver_holds-Step i (locks_map name at free) message h = ground (arith, i.receiver_holds message)
receiver_holds-Step i (receives x at) message h =
    elim (Bool-cases (locks x.header.type x.header.sender_id)) [
      | inl takes ↦ let h' : wants_update x ≡ updates message = rw takes at h in absurd (cc h')
      | inr not_taken ↦ let h' : acts x ≡ updates message = rw not_taken at h in absurd (cc h')
    ]
receiver_holds-Step i _ message h = ground (arith, i.receiver_holds message)

Reach-Locked : {username : Bytes} {s : Client} → Reach username s → Locked s
Reach-Locked start = record { main_holds = λ input e. cc; receiver_holds = λ message e. cc }
Reach-Locked (later s t r step) =
    let i = Reach-Locked r in
    record { main_holds = main_holds-Step i step; receiver_holds = receiver_holds-Step i step }

-- A handler without the lock is that of a message that takes none.
acts-Step :
    {s t : Client}
    → ((x : Message) → s.receiver ≡ acts x → locks x.header.type x.header.sender_id ≡ false)
    → Step s t
    → (x : Message) → t.receiver ≡ acts x
    → locks x.header.type x.header.sender_id ≡ false
acts-Step i (receives y at) x h = elim (Bool-cases (locks y.header.type y.header.sender_id)) [
  | inl takes ↦ let h' : wants_update y ≡ acts x = rw takes at h in absurd (cc h')
  | inr not_taken ↦
      let h' : acts y ≡ acts x = rw not_taken at h in let same : y ≡ x = cc in rw same at not_taken
]
acts-Step i _ x h = ground (arith, i x)

Reach-acts :
    {username : Bytes} {s : Client}
    → Reach username s
    → (x : Message) → s.receiver ≡ acts x
    → locks x.header.type x.header.sender_id ≡ false
Reach-acts start x h = cc
Reach-acts (later s t r step) x h = acts-Step (Reach-acts r) step x h

-- Of the messages that take no lock, the welcome alone changes the map.
receive-map :
    (t : MessageType) (c handled : ChatClient) (x : Message)
    → locks t x.header.sender_id ≡ false
    → t ≢ s2c_join_success
    → receive t c x ≡ done handled
    → handled.user_map ≡ c.user_map
unfolding locks process_join_failure process_user_left process_chat_message
receive-map s2c_join_success c handled x free other e = absurd (other refl)
receive-map s2c_join_failure c handled x free other e = cc
receive-map s2c_user_joined c handled x free other e = cc
receive-map s2c_user_left c handled x free other e = ground arith
receive-map s2c_broadcast c handled x free other e = cc
receive-map s2c_private c handled x free other e = cc
receive-map s2c_user_joined_list c handled x free other e = cc
receive-map _ c handled x free other e = cc

private-map :
    (c : ChatClient) (text : Bytes) (o : Option ℕ) → (send_private c text o).user_map ≡ c.user_map
private-map c text none = refl
private-map c text (some id) = refl

private_input-map :
    (c : ChatClient) (input : Bytes) (o : Option ℕ)
    → (private_input c input o).user_map ≡ c.user_map
private_input-map c input none = refl
private_input-map c input (some space) =
    private-map c (substr input (space + 1) (length input))
      (get_user_id_by_name c (substr input 1 (space - 1)))

handle_line-map : (c : ChatClient) (input : Bytes) → (handle_line c input).user_map ≡ c.user_map
unfolding handle_line
handle_line-map c [] = refl
handle_line-map c (b ∷ bs) = elim (Bool-cases (b == b'@')) [
  | inl at ↦ rw at (private_input-map c (b ∷ bs) (find b' ' (b ∷ bs)))
  | inr other ↦ rw other refl
]

is_welcome : (t : MessageType) → (t ≡ s2c_join_success) ⊎ (t ≢ s2c_join_success)
is_welcome s2c_join_success = inl refl
is_welcome _ = inr (λ e. cc)

notice-map :
    (c handled : ChatClient)
    → on_message_received c shutdown_msg ≡ done handled
    → handled.user_map ≡ c.user_map
unfolding on_message_received process_user_left
notice-map c handled e = cc

acted-map :
    (s : Client) (x : Message) (handled : ChatClient)
    → locks x.header.type x.header.sender_id ≡ false
    → s.receiver ≡ acts x
    → on_message_received s.client x ≡ done handled
    → (handled.user_map ≡ s.client.user_map)
      ⊎ ((y : Message) × (s.receiver ≡ acts y) × (y.header.type ≡ s2c_join_success))
unfolding on_message_received
acted-map s x handled free at e = elim (is_welcome x.header.type) [
  | inl welcome ↦ inr (x, at, welcome)
  | inr other ↦ inl (receive-map x.header.type s.client handled x free other e)
]

-- However the client's two threads interleave, where the input thread looks a name up no step
-- changes the map of names, unless the receiver is in the handler of a welcome.
pub lookup_undisturbed :
    (username input : Bytes) (s t : Client)
    → Reach username s
    → s.main ≡ looks_up input
    → Step s t
    → (t.client.user_map ≡ s.client.user_map)
      ⊎ ((x : Message) × (s.receiver ≡ acts x) × (x.header.type ≡ s2c_join_success))
lookup_undisturbed username input s t r h (fails_to_connect at) = inl refl
lookup_undisturbed username input s t r h (starts at) = cc
lookup_undisturbed username input s t r h (runs at) = inl refl
lookup_undisturbed username input s t r h (reads_line at on) = inl refl
lookup_undisturbed username input s t r h (enters_line line at stays unnamed) = cc
lookup_undisturbed username input s t r h (looks_name_up line at) =
    inl (handle_line-map s.client line)
lookup_undisturbed username input s t r h (has_updated x handled at e) =
    let i = Reach-Locked r in absurd (cc (i.main_holds input h, i.receiver_holds x at))
lookup_undisturbed username input s t r h (has_acted x handled at e) =
    acted-map s x handled (Reach-acts r x at) at e
lookup_undisturbed username input s t r h (terminates handled at e) =
    inl (notice-map s.client handled e)
lookup_undisturbed username input s t r h _ = inl refl
