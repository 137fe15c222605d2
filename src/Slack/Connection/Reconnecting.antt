-- ===== src/Slack/Connection/Reconnecting.antt =====
-- The reconnections of `rtmAPIAdapter.run`, and what they mean for the bot under its runner.
use go_sarah.Shared.{
  ℕ, ◌+◌, ◌≡◌, ap, ◌∙◌, true, false, none, some, List, [], ◌∷◌, arith, nat_eq, length, Text,
  text_eq, returns,
}
use go_sarah.Errors.{Error, bot_non_continuable}
use go_sarah.Runner.{
  Supervisor, supervised, BotRun, run_bot, ended, notify, notify_all, handle_error,
}
use go_sarah.Slack.Connection.{Attempt, refused, connected, RtmRun, new_run, closed_once, run}

-- Connections that ended with the errors of their supervision.
unfoldable pub broken_connections : List Error → List Attempt → List Attempt
broken_connections [] rest = rest
broken_connections (e ∷ es) rest = connected (some e) ∷ broken_connections es rest

-- After `n` connections, all closed.
abbrev pub after : ℕ → RtmRun
after n = record { notified = []; connections = n; closed = n; returned = false }

run-broken_connections :
    (n : ℕ) (es : List Error) (rest : List Attempt)
    → run (broken_connections es rest) (after n) ≡ run rest (after (n + length es))
unfolding run broken_connections closed_once
run-broken_connections n [] rest = ap (λ k. run rest (after k)) (omega arith)
run-broken_connections n (e ∷ es) rest =
    run-broken_connections (n + 1) es rest ∙ ap (λ k. run rest (after k)) (omega arith)

from_start :
    (es : List Error) (rest : List Attempt)
    → run (broken_connections es rest) new_run ≡ run rest (after (length es))
from_start es rest = run-broken_connections 0 es rest ∙ ap (λ k. run rest (after k)) (omega arith)

-- However many connections break: the RTM adapter has not returned and has escalated nothing while it has another turn to go; it returns when it gets no connection, with one BotNonContinuableError, and when a supervision ends without an error, with none; every connection has been closed by then.
pub run-returns :
    (es : List Error) (message : Text) (rest : List Attempt)
    → (run (broken_connections es []) new_run ≡ after (length es))
      × (run (broken_connections es (refused message ∷ rest)) new_run ≡ record (after (length es)) {
        notified = bot_non_continuable message ∷ [];
        returned = true;
      })
      × (run (broken_connections es (connected none ∷ rest)) new_run
          ≡ record (after (length es + 1)) { returned = true })
unfolding run closed_once
run-returns es message rest = (
  from_start es [],
  from_start es (refused message ∷ rest),
  from_start es (connected none ∷ rest),
)

-- `Bot.Run` of a bot whose adapter escalates errors and returns.
abbrev pub adapter_run : List Error → BotRun
adapter_run es = record { escalated = es; ending = returns tt; stack = [] }

-- A bot whose RTM adapter gets no connection any more, however many broke before, is stopped by its runner: its context is cancelled, and the alerters are sent the error of the last connection and nothing else.
pub run_bot-refused :
    (supervise : Supervisor) (b : Text) (es : List Error) (message : Text) (rest : List Attempt)
    → (run_bot supervise b
        (adapter_run (run (broken_connections es (refused message ∷ rest)) new_run).notified)
        supervised).supervision
      ≡ record { cancelled = true; alerts = bot_non_continuable message ∷ [] }
unfolding run_bot ended notify_all notify handle_error supervised
run_bot-refused supervise b es message rest =
    ap (λ r. (run_bot supervise b (adapter_run r.notified) supervised).supervision)
      (run-returns es message rest).1
