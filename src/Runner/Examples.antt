-- ===== src/Runner/Examples.antt =====
-- A bot with a supervising function, a busy worker, and options.
use go_sarah.Shared.{
  ℕ, ◌≡◌, refl, true, Option, none, some, List, [], ◌∷◌, nat_eq, Text, codes, text_beq, text_eq,
  Result, ok, err, panics,
}
use go_sarah.Errors.{Error, plain}
use go_sarah.Runner.{Supervisor, BotRun}
use go_sarah.Runner.Registration.{
  Kinds, Registration, Runner, alerter, bot, command, worker, new_runner, bad_timezone,
}
use go_sarah.Runner.Registration.Options.{Registered, new_runner-Registered}
use go_sarah.Runner.Registration.Starting.{run, no_runner, run-bad_timezone}
use go_sarah.Status.{initial, running}

abbrev slack : Text
slack = codes "slack"

abbrev slow : Error
slow = plain (codes "slow")

abbrev lost : Error
lost = plain (codes "lost")

-- Every plain error is told to the alerters, and a lost connection stops the bot.
abbrev judge : Supervisor
judge = some (λ b e. elim e [
  | plain t ↦ some (record { stop_bot = text_beq t (codes "lost"); alerting_err = some (plain t) })
  | _ ↦ none
])

abbrev run_of_bot : BotRun
run_of_bot = record { escalated = slow ∷ lost ∷ slow ∷ []; ending = panics; stack = codes "panic" }

abbrev busy : List (Option Error)
busy = some slow ∷ none ∷ some slow ∷ some lost ∷ []

abbrev kinds : Kinds
kinds = record {
  Bot = Text;
  Command = ℕ;
  CommandProps = Text;
  Task = ℕ;
  TaskProps = Text;
  Alerter = ℕ;
  Watcher = ℕ;
  Worker = ℕ;
  Supervisor = ℕ;
  command_bot_type = λ p. p;
  task_bot_type = λ p. p;
}

abbrev options : List (Registration kinds)
options = bot slack ∷ command slack 1 ∷ alerter 5 ∷ worker 7 ∷ command slack 2 ∷ worker 8 ∷ []

abbrev load : Text → Result Error ℕ
load [] = err (plain (codes "unknown time zone"))
load (c ∷ t) = ok c

new_runner-Registered_example :
    (r : Runner kinds ℕ) × (new_runner load 0 1 options (codes "UTC") ≡ ok r)
    × Registered 0 1 options slack r
new_runner-Registered_example = new_runner-Registered load 0 1 options (codes "UTC") 85 slack refl

run-bad_timezone_example :
    ((run load 0 1 options [] initial).1
      ≡ err (no_runner (bad_timezone [] (plain (codes "unknown time zone")))))
    × (running (run load 0 1 options [] initial).0 ≡ true)
run-bad_timezone_example =
    run-bad_timezone load 0 1 options [] (plain (codes "unknown time zone")) refl
