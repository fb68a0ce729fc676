-- ===== src/Main/Ports.antt =====
-- What the two programs make of their arguments.
use axn_chat_app.Prelude.{
  ℕ, ◌<◌, ◌≤◌, ◌^◌, ◌≡◌, ◌∙◌, ◌↔◌, ap, true, false, ◌||◌, Bool, some, List, [], ◌∷◌, ◌++◌, Bytes,
  codes, length, All, ltb, ◌==◌, arith,
}
use axn_chat_app.Prelude.Decimal.{to_string}
use axn_chat_app.Protocol.{new_message, invalid_id, server_id, c2s_join, c2s_user_joined_list}
use axn_chat_app.Client.Strings.{is_digit, skip_spaces, read_digits}
use axn_chat_app.Client.Numbers.{to_string_front}
use axn_chat_app.Protocol.{Message}
use axn_chat_app.Client.State.{
  done, ◌>>=◌, ChatClient, new_client, send, connect, start_receiving, disconnect,
}
use axn_chat_app.Client.Binds.{bind_assoc, bind-cong, bind_known}
use axn_chat_app.Client.Handlers.{
  deliver, connect_and_join, request_list_of_users, send_join_request,
}
use axn_chat_app.Client.Input.{InputRound}
use axn_chat_app.Client.Rounds.{IsHarmless, RunsOn, handle_rounds, goodbye, deliver-running}
use axn_chat_app.Client.Leaving.{run_until_exit}
use axn_chat_app.Main.{
  ℤ, pos, negsuc, Stoi, value, invalid_argument, out_of_range, stoi, stoi_digits,
}
use axn_chat_app.Main.Server
use axn_chat_app.Main.Server.{ServerExit, serve, serve_parsed}
use axn_chat_app.Main.Client
use axn_chat_app.Main.Client.{ClientRun, returned, refused, after_input}

stoi-front :
    (n b : ℕ) (bs : Bytes)
    → is_digit b ≡ true
    → read_digits 0 (b ∷ bs) ≡ n
    → n < 2 ^ 31
    → stoi (b ∷ bs) ≡ value (pos n)
unfolding stoi skip_spaces stoi_digits
stoi-front n b bs d e fits = ground (arith, e)

pub stoi-to_string : (n : ℕ) → n < 2 ^ 31 → stoi (to_string n) ≡ value (pos n)
stoi-to_string n fits =
    let (b, bs, e, d, number) = to_string_front n in rw e (stoi-front n b bs d number fits)

serve-some :
    (port : ℤ) (n : ℕ) → (serve port).served ≡ some n → (port ≡ pos n) × (1 ≤ n) × (n ≤ 65535)
serve-some (pos k) n h = ground arith
serve-some (negsuc k) n h = cc

parsed-some :
    (what : Stoi → Bytes) (parsed : Stoi) (n : ℕ)
    → (serve_parsed what parsed).served ≡ some n
    → (parsed ≡ value (pos n)) × (1 ≤ n) × (n ≤ 65535)
parsed-some what (value port) n h =
    let (e, low, high) = serve-some port n h in (ap value e, low, high)
parsed-some what invalid_argument n h = cc
parsed-some what out_of_range n h = cc

-- The server's program with one argument serves a port exactly when `std::stoi` reads that number
-- from the argument and it is from 1 to 65535.
pub served_port :
    (what : Stoi → Bytes) (name text : Bytes) (n : ℕ)
    → ((Server.main what (name ∷ text ∷ [])).served ≡ some n)
      ↔ ((stoi text ≡ value (pos n)) × (1 ≤ n) × (n ≤ 65535))
unfolding Server.main
served_port what name text n =
    (λ h. parsed-some what (stoi text) n h, λ h. let (e, low, high) = h in rw e (ground arith))

-- A client that has connected, asked to join and connected_client the receiver.
abbrev pub connected_client : Bytes → ChatClient
connected_client username = record (new_client username) {
  requests =
      connect ∷ send (new_message c2s_join invalid_id server_id username) ∷ start_receiving ∷ [];
}

-- The client runs, and its user has been shown the guide.
abbrev pub guided : ChatClient → ChatClient
guided c = record c {
  is_running = true;
  shown =
      (c.shown ++ codes "To send a private message, type '@<username> <message>'" ∷ [])
      ++ codes "Example: '@john Hello, how are you?'" ∷ [];
}

-- It has asked for the users, under the id that it has by then.
abbrev pub asking : ChatClient → ChatClient
asking c = record c {
  requests = c.requests ++ send (new_message c2s_user_joined_list c.user_id server_id []) ∷ [];
}

after_input-goodbye :
    (last : List Message) (c : ChatClient)
    → (goodbye last c >>= λ input. done (after_input input)) ≡ (
        deliver last (record c { requests = c.requests ++ disconnect ∷ [] }) >>= λ d.
        done (returned (record d { is_running = false })))
after_input-goodbye last c = bind_assoc (deliver last _) _ _

leaving_input :
    (last : List Message) (exit : InputRound) (rounds : List InputRound) (b : ChatClient)
    → ((handle_rounds rounds b >>= λ c.
          deliver exit.heard c >>= λ d. deliver exit.meanwhile d >>= goodbye last)
        >>= λ input. done (after_input input))
      ≡ (handle_rounds rounds b >>= λ c. deliver exit.heard c >>= λ d.
          deliver exit.meanwhile d >>= λ e.
          deliver last (record e { requests = e.requests ++ disconnect ∷ [] }) >>= λ f.
          done (returned (record f { is_running = false })))
leaving_input last exit rounds b =
    bind_assoc (handle_rounds rounds b) _ _
    ∙ bind-cong (handle_rounds rounds b) (λ c.
      bind_assoc (deliver exit.heard c) _ _
      ∙ bind-cong (deliver exit.heard c) (λ d.
        bind_assoc (deliver exit.meanwhile d) _ _
        ∙ bind-cong (deliver exit.meanwhile d) (λ e. after_input-goodbye last e)))

module _ (connects : Bytes → ℤ → Bool) (name host username : Bytes) (n : ℕ) where
  -- The client's program with a host, a port in decimal that an `int` holds and a name of 1 to 32
  -- bytes, where connecting succeeds, does this whatever the receiver handles before the client
  -- is marked as running: it connects, joins, starts the receiver and handles these messages,
  -- runs, shows the guide, handles more, asks for the users under the id that it then has, does
  -- the rounds of the input loop, and at the command to leave handles what has come, asks to
  -- disconnect, handles the last messages, is no longer running and returns; an exception on the
  -- way is the result. Of what is handled while it runs, up to the command, nothing is a refusal
  -- of a JOIN or a notice of the end.
  pub main_session :
      n < 2 ^ 31
      → 1 ≤ length username
      → length username ≤ 32
      → connects host (pos n) ≡ true
      → (early opening last : List Message) (rounds more : List InputRound) (exit : InputRound)
      → All IsHarmless opening
      → All RunsOn rounds
      → All IsHarmless exit.heard
      → exit.input ≡ codes "/exit"
      → Client.main connects
          (name ∷ host ∷ to_string n ∷ username ∷ [])
          (record { early = early; opening = opening; rounds = rounds ++ exit ∷ more; last = last })
        ≡ (deliver early (connected_client username) >>= λ a. deliver opening (guided a) >>= λ b.
            handle_rounds rounds (asking b) >>= λ c. deliver exit.heard c >>= λ d.
            deliver exit.meanwhile d >>= λ e.
            deliver last (record e { requests = e.requests ++ disconnect ∷ [] }) >>= λ f.
            done (returned (record f { is_running = false })))
  unfolding Client.main connect_and_join request_list_of_users send_join_request
  main_session fits low high up early opening last rounds more exit quiet h harmless leave =
      let named : (length username == 0 || ltb 32 (length username)) ≡ false = ground arith in
      rw (stoi-to_string n fits, named, up)
        (bind_assoc (deliver early (connected_client username)) _ _
          ∙ bind-cong (deliver early (connected_client username)) (λ a.
            bind_known (deliver opening (guided a)) (λ b at.
              rw
                (run_until_exit last rounds more exit (asking b)
                  (deliver-running opening (guided a) b quiet at) h harmless leave)
                (leaving_input last exit rounds (asking b)))))
