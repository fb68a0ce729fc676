-- ===== src/Tests/Threads.antt =====
-- The client's threads at concrete inputs.
use axn_chat_app.Prelude.{◌≡◌, ◌⊎◌, refl, true, false, [], ◌∷◌, ◌++◌, Bytes, codes}
use axn_chat_app.Protocol.{Message, new_message, server_id, s2c_join_success, s2c_join_failure}
use axn_chat_app.Client.Strings.{find}
use axn_chat_app.Client.State.{request, connect}
use axn_chat_app.Client.Threads.{
  Client, Reach, start, later, initial, fails_to_connect, names_receiver, looks_up, acts, receiving,
  finished, terminated, not_started,
}
use axn_chat_app.Client.Threads.Safety.{finished_quiet}
use axn_chat_app.Client.Threads.Lookup.{lookup_undisturbed}
use axn_chat_app.Client.Input.{handle_line}
use axn_chat_app.Client.Threads.{looks_name_up, at_loop}
use axn_chat_app.Prelude.{none}
use axn_chat_app.Client.Threads.Lost.{failure_forgotten, lookup_meets_welcome}

abbrev failure : Message
failure = new_message s2c_join_failure server_id 1 (codes "Username already exists")

abbrev welcome : Message
welcome = new_message s2c_join_success server_id 1 (codes "Welcome")

abbrev line : Bytes
line = codes "@bo hi"

failure_forgotten_example :
    (s : Client) × Reach (codes "al") s
    × (s.receiver ≡ receiving)
    × (s.client.shown ≡ (codes "[Server Error]: " ++ failure.payload) ∷ [])
    × (s.client.is_running ≡ true)
unfolding new_message
failure_forgotten_example = failure_forgotten (codes "al") failure refl

lookup_meets_welcome_example :
    (s : Client) × Reach (codes "al") s × (s.main ≡ looks_up line) × (s.receiver ≡ acts welcome)
unfolding new_message names_receiver find
lookup_meets_welcome_example = lookup_meets_welcome (codes "al") line welcome refl refl

line_named : names_receiver line ≡ true
unfolding names_receiver find
line_named = refl

welcome_type : welcome.header.type ≡ s2c_join_success
unfolding new_message
welcome_type = refl

abbrev meets : Client
meets = (lookup_meets_welcome (codes "al") line welcome welcome_type line_named).0

lookup_undisturbed_example :
    ((record meets {
      client = handle_line meets.client line;
      count_mutex = none;
      main = at_loop;
    }).client.user_map
      ≡ meets.client.user_map)
    ⊎ ((x : Message) × (meets.receiver ≡ acts x) × (x.header.type ≡ s2c_join_success))
lookup_undisturbed_example =
    lookup_undisturbed (codes "al") line meets
      (record meets { client = handle_line meets.client line; count_mutex = none; main = at_loop })
      (lookup_meets_welcome (codes "al") line welcome welcome_type line_named).1
      (lookup_meets_welcome (codes "al") line welcome welcome_type line_named).2
      (looks_name_up line
        (lookup_meets_welcome (codes "al") line welcome welcome_type line_named).2)

abbrev alone : Client
alone = record (initial (codes "al")) {
  client = request (initial (codes "al")).client connect;
  main = finished;
}

alone_reached : Reach (codes "al") alone
alone_reached = later (initial (codes "al")) alone start (fails_to_connect refl)

finished_quiet_example :
    ((alone.receiver ≡ terminated) ⊎ (alone.receiver ≡ not_started))
    × (alone.client.is_running ≡ false)
finished_quiet_example = finished_quiet (codes "al") alone alone_reached refl
