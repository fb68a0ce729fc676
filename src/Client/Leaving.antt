-- ===== src/Client/Leaving.antt =====
-- `ChatClient::run_user_input_handler`: how its loop ends.
use axn_chat_app.Prelude.{
  ◌≡◌, ◌∙◌, refl, sym, Bool, Option, true, false, List, [], ◌∷◌, ◌++◌, codes, same, same_self, All,
  if◌then◌else◌,
}
use axn_chat_app.Protocol.{Message}
use axn_chat_app.Client.State.{Handled, ◌>>=◌, ChatClient, request, disconnect}
use axn_chat_app.Client.Binds.{bind_assoc, bind_known}
use axn_chat_app.Client.Handlers.{deliver}
use axn_chat_app.Client.Input.{
  InputRound, handle_line, ended, read_line, next_round, run_user_input_handler,
}
use axn_chat_app.Client.Rounds.{
  IsHarmless, IsFinal, RunsOn, handle_rounds, goodbye, deliver-running, deliver-stops,
  handle_line-running,
}

ended-goodbye : (last : List Message) (c : ChatClient) → ended last c ≡ goodbye last c
ended-goodbye last c = bind_assoc (deliver last (request c disconnect)) _ _

otherwise : {A : Type 0} (b : Bool) (x y : A) → b ≡ false → (if b then x else y) ≡ y
otherwise b x y e = rw e refl

read_on :
    (next : ChatClient → Handled (Option ChatClient)) (last : List Message) (round : InputRound)
    (c : ChatClient)
    → c.is_running ≡ true
    → All IsHarmless round.heard
    → next_round next last round c
      ≡ (deliver round.heard c >>= λ heard. read_line next last round heard)
read_on next last round c on harmless =
    bind_known (deliver round.heard c)
      (λ heard e. rw (deliver-running round.heard c heard harmless e ∙ on) refl)

-- Rounds in front of others.
run_rounds :
    (last : List Message) (rounds rest : List InputRound) (c : ChatClient)
    (end : ChatClient → Handled (Option ChatClient))
    → c.is_running ≡ true
    → All RunsOn rounds
    → ((d : ChatClient) → d.is_running ≡ true → run_user_input_handler last rest d ≡ end d)
    → run_user_input_handler last (rounds ++ rest) c ≡ (handle_rounds rounds c >>= end)
unfolding run_user_input_handler handle_rounds
run_rounds last [] rest c end on h e = e c on
run_rounds last (round ∷ rounds) rest c end on ((heard, meanwhile, stays), h) e =
    let next = run_user_input_handler last (rounds ++ rest) in
    read_on next last round c on heard
    ∙ bind_known (deliver round.heard c) (λ a at.
      bind_known (deliver round.meanwhile a) (λ b at'.
        let running =
          handle_line-running b round.input
          ∙ deliver-running round.meanwhile a b meanwhile at'
          ∙ deliver-running round.heard c a heard at
          ∙ on in
        rw stays (run_rounds last rounds rest (handle_line b round.input) end running h e))
      ∙ sym (bind_assoc (deliver round.meanwhile a) _ end))
    ∙ sym (bind_assoc (deliver round.heard c) _ end)

-- Where the client runs, in rounds whose lines are not the command to leave and in which the
-- receiver handles no refusal of a JOIN and no notice of the end, and then a round with the
-- command, in front of which none is handled either: messages and lines are handled in order, the
-- command asks the connection to disconnect, the last messages are handled and the client does
-- not run; what the user would enter after it is not read. An exception on the way is the result.
pub run_until_exit :
    (last : List Message) (rounds more : List InputRound) (exit : InputRound) (c : ChatClient)
    → c.is_running ≡ true
    → All RunsOn rounds
    → All IsHarmless exit.heard
    → exit.input ≡ codes "/exit"
    → run_user_input_handler last (rounds ++ exit ∷ more) c ≡ (
        handle_rounds rounds c >>= λ d.
        deliver exit.heard d >>= λ heard. deliver exit.meanwhile heard >>= goodbye last)
unfolding run_user_input_handler
run_until_exit last rounds more exit c on h harmless e =
    let same_line : same exit.input (codes "/exit") ≡ true = rw e (same_self (codes "/exit")) in
    run_rounds last rounds (exit ∷ more) c _ on h (λ d running.
      read_on (run_user_input_handler last more) last exit d running harmless
      ∙ bind_known (deliver exit.heard d) (λ heard at.
        bind_known (deliver exit.meanwhile heard)
          (λ later at'. rw same_line (ended-goodbye last later))))

-- Where the client runs, after rounds in which it runs on, if the receiver handles a refusal of a
-- JOIN or a notice of the end as the last message in front of a round: the line of that round is
-- not read, the connection is asked to disconnect, the last messages are handled and the client
-- does not run. An exception on the way is the result.
pub run_until_stopped :
    (last : List Message) (rounds more : List InputRound) (cut : InputRound) (before : List Message)
    (x : Message) (c : ChatClient)
    → c.is_running ≡ true
    → All RunsOn rounds
    → cut.heard ≡ before ++ x ∷ []
    → IsFinal x
    → run_user_input_handler last (rounds ++ cut ∷ more) c
      ≡ (handle_rounds rounds c >>= λ d. deliver (before ++ x ∷ []) d >>= goodbye last)
unfolding run_user_input_handler
run_until_stopped last rounds more cut before x c on h e final =
    run_rounds last rounds (cut ∷ more) c _ on h (λ d running. rw e (
      bind_known (deliver (before ++ x ∷ []) d) (λ heard at.
        otherwise heard.is_running _ _ (deliver-stops before x d heard final at)
        ∙ ended-goodbye last heard)))
