-- ===== src/Tests/Sessions.antt =====
-- The input loop and the client's program, with messages between the lines.
use axn_chat_app.Prelude.{◌≡◌, refl, true, false, [], ◌∷◌, ◌++◌, codes, same, arith, inl, inr}
use axn_chat_app.Prelude.Decimal.{to_string}
use axn_chat_app.Protocol.{
  Message, new_message, server_id, s2c_broadcast, s2c_join_success, s2c_join_failure,
}
use axn_chat_app.Client.State.{done, ◌>>=◌, ChatClient, new_client, disconnect}
use axn_chat_app.Client.Handlers.{deliver}
use axn_chat_app.Client.Input.{InputRound, run_user_input_handler}
use axn_chat_app.Client.Rounds.{IsHarmless, RunsOn, handle_rounds, goodbye}
use axn_chat_app.Client.Leaving.{run_until_exit, run_until_stopped}
use axn_chat_app.Client.Connection.{shutdown_msg}
use axn_chat_app.Main.Client
use axn_chat_app.Main.Client.{returned}
use axn_chat_app.Main.Ports.{main_session, connected_client, guided, asking}

abbrev running : ChatClient
running = record (new_client (codes "al")) { is_running = true }

abbrev welcome : Message
welcome = new_message s2c_join_success server_id 1 (codes "Welcome")

abbrev refusal : Message
refusal = new_message s2c_join_failure server_id 1 (codes "Username already exists")

abbrev hi : Message
hi = new_message s2c_broadcast 2 0 (codes "hi")

abbrev hello : InputRound
hello = record { heard = welcome ∷ []; meanwhile = hi ∷ []; input = codes "hello" }

abbrev exit : InputRound
exit = record { heard = []; meanwhile = hi ∷ []; input = codes "/exit" }

abbrev unread : InputRound
unread = record { heard = []; meanwhile = []; input = codes "more" }

-- The refusal, and then the notice of the end.
abbrev cut : InputRound
cut = record { heard = refusal ∷ shutdown_msg ∷ []; meanwhile = []; input = codes "more" }

welcome-IsHarmless : IsHarmless welcome
unfolding new_message
welcome-IsHarmless = (λ e. cc, inl (λ e. cc))

hi-IsHarmless : IsHarmless hi
unfolding new_message
hi-IsHarmless = (λ e. cc, inl (λ e. cc))

hello-RunsOn : RunsOn hello
unfolding same
hello-RunsOn = ((welcome-IsHarmless, tt), (hi-IsHarmless, tt), refl)

run_until_exit_example :
    run_user_input_handler (shutdown_msg ∷ []) ((hello ∷ []) ++ exit ∷ unread ∷ []) running ≡ (
      handle_rounds (hello ∷ []) running >>= λ d.
      deliver [] d >>= λ heard. deliver (hi ∷ []) heard >>= goodbye (shutdown_msg ∷ []))
run_until_exit_example =
    run_until_exit (shutdown_msg ∷ []) (hello ∷ []) (unread ∷ []) exit running refl
      (hello-RunsOn, tt) tt refl

run_until_stopped_example :
    run_user_input_handler [] ((hello ∷ []) ++ cut ∷ unread ∷ []) running ≡ (
      handle_rounds (hello ∷ []) running >>= λ d.
      deliver ((refusal ∷ []) ++ shutdown_msg ∷ []) d >>= goodbye [])
run_until_stopped_example =
    run_until_stopped [] (hello ∷ []) (unread ∷ []) cut (refusal ∷ []) shutdown_msg running refl
      (hello-RunsOn, tt) refl (inr (refl, refl))

main_session_example :
    Client.main
      (λ host port. true)
      (codes "client" ∷ codes "127.0.0.1" ∷ to_string 8080 ∷ codes "al" ∷ [])
      (record {
        early = refusal ∷ [];
        opening = welcome ∷ [];
        rounds = (hello ∷ []) ++ exit ∷ unread ∷ [];
        last = shutdown_msg ∷ [];
      })
    ≡ (deliver (refusal ∷ []) (connected_client (codes "al")) >>= λ a.
        deliver (welcome ∷ []) (guided a) >>= λ b. handle_rounds (hello ∷ []) (asking b) >>= λ c.
        deliver [] c >>= λ d. deliver (hi ∷ []) d >>= λ e.
        deliver (shutdown_msg ∷ []) (record e { requests = e.requests ++ disconnect ∷ [] }) >>= λ f.
        done (returned (record f { is_running = false })))
main_session_example =
    main_session (λ host port. true) (codes "client") (codes "127.0.0.1") (codes "al") 8080
      (omega arith) (omega arith) (omega arith) refl (refusal ∷ []) (welcome ∷ [])
      (shutdown_msg ∷ []) (hello ∷ []) (unread ∷ []) exit (welcome-IsHarmless, tt)
      (hello-RunsOn, tt) tt refl
