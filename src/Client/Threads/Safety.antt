-- ===== src/Client/Threads/Safety.antt =====
-- How the two threads of the client end, in every interleaving.
use axn_chat_app.Prelude.{◌≡◌, ◌⊎◌, refl, false, Bytes, inl, inr, arith}
use axn_chat_app.Client.Threads.{
  Client, Reach, start, later, Step, has_updated, locks_update, receives, fails_to_connect,
  terminates, leaves, has_acted, not_connected, finished, terminated, not_started,
}

-- Before the connection nothing runs, and after the end nothing runs any more.
record Quiet (s : Client) : Type 0 where
  before : s.main ≡ not_connected → (s.receiver ≡ not_started) × (s.client.is_running ≡ false)
  behind :
      s.main ≡ finished
      → ((s.receiver ≡ terminated) ⊎ (s.receiver ≡ not_started)) × (s.client.is_running ≡ false)

before-Step :
    {s t : Client}
    → Quiet s
    → Step s t
    → t.main ≡ not_connected
    → (t.receiver ≡ not_started) × (t.client.is_running ≡ false)
before-Step i (receives x at) h = absurd (cc (at, (i.before h).0))
before-Step i (locks_update x at free) h = absurd (cc (at, (i.before h).0))
before-Step i (has_updated x handled at e) h = absurd (cc (at, (i.before h).0))
before-Step i (has_acted x handled at e) h = absurd (cc (at, (i.before h).0))
before-Step i (terminates handled at e) h = absurd (cc (at, (i.before h).0))
before-Step i _ h = ground (arith, i.before)

behind-Step :
    {s t : Client}
    → Quiet s
    → Step s t
    → t.main ≡ finished
    → ((t.receiver ≡ terminated) ⊎ (t.receiver ≡ not_started)) × (t.client.is_running ≡ false)
behind-Step i (fails_to_connect at) h = (inr (i.before at).0, (i.before at).1)
behind-Step i (receives x at) h = ground (arith, i.behind)
behind-Step i (leaves at ended) h = (inl ended, refl)
behind-Step i (locks_update x at free) h = ground (arith, i.behind)
behind-Step i (has_updated x handled at e) h = ground (arith, i.behind)
behind-Step i (has_acted x handled at e) h = ground (arith, i.behind)
behind-Step i (terminates handled at e) h = ground (arith, i.behind)
behind-Step i _ h = ground (arith, i.behind)

Reach-Quiet : {username : Bytes} {s : Client} → Reach username s → Quiet s
Reach-Quiet start = record { before = λ e. (refl, refl); behind = λ e. cc }
Reach-Quiet (later s t r step) =
    let i = Reach-Quiet r in record { before = before-Step i step; behind = behind-Step i step }

-- However the client's two threads interleave, when `main` is done the receiver has ended or was
-- never started, and the client does not run.
pub finished_quiet :
    (username : Bytes) (s : Client)
    → Reach username s
    → s.main ≡ finished
    → ((s.receiver ≡ terminated) ⊎ (s.receiver ≡ not_started)) × (s.client.is_running ≡ false)
finished_quiet username s r = (Reach-Quiet r).behind
