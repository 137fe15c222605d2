-- ===== src/Runner/Registration/Starting.antt =====
-- runner.go: `Run`, the status and the runner together.
use go_sarah.Shared.{
  ◌≡◌, ap, ◌∙◌, true, Option, none, some, List, nat_eq, Text, text_eq, Result, ok, err,
}
use go_sarah.Errors.{Error}
use go_sarah.Status.{runner_already_running, initial, running, RunnerStatus, StatusError, start}
use go_sarah.Status.Starting.{start_again, start-initial, running-start-initial}
use go_sarah.Runner.Registration.{bad_timezone, located, Kinds, Registration, Runner, new_runner}

-- `failed to start bot process: %w`, by what it wraps.
pub data RunError : Type 0 where
  not_started : StatusError → RunError
  no_runner : Error → RunError

module _ {k : Kinds} {L : Type 0} where
  unfoldable pub made : Result Error (Runner k L) → Result RunError (Runner k L)
  made (ok r) = ok r
  made (err e) = err (no_runner e)

  unfoldable pub ran : Option StatusError → Result Error (Runner k L) → Result RunError (Runner k L)
  unfolding made
  ran none r = made r
  ran (some e) r = err (not_started e)

  -- `Run`, with the runner that its goroutine runs.
  unfoldable pub run :
      (Text → Result Error L)
      → k.Watcher
      → k.Worker
      → List (Registration k)
      → Text
      → RunnerStatus
      → RunnerStatus × Result RunError (Runner k L)
  unfolding ran
  run load null w xs tz s = ((start s).0, ran (start s).1 (new_runner load null w xs tz))

  run_at :
      (load : Text → Result Error L) (null : k.Watcher) (w : k.Worker) (xs : List (Registration k))
      (tz : Text) (s : RunnerStatus) (t : RunnerStatus × Option StatusError)
      → start s ≡ t
      → run load null w xs tz s ≡ (t.0, ran t.1 (new_runner load null w xs tz))
  unfolding run
  run_at load null w xs tz s t h =
      ap (λ (u : RunnerStatus × Option StatusError). (u.0, ran u.1 (new_runner load null w xs tz)))
        h

  -- After a call of `Run`, however it ended, every further call fails and changes nothing.
  pub run_again :
      (load load' : Text → Result Error L) (null null' : k.Watcher) (w w' : k.Worker)
      (xs xs' : List (Registration k)) (tz tz' : Text) (s : RunnerStatus)
      → let s' = (run load null w xs tz s).0 in
        run load' null' w' xs' tz' s' ≡ (s', err (not_started runner_already_running))
  unfolding run ran
  run_again load load' null null' w w' xs xs' tz tz' s =
      run_at load' null' w' xs' tz' (start s).0 _ (start_again s)

  -- A first `Run` with a time zone that cannot be loaded fails, and yet Sarah counts as running: the
  -- status has been and nothing takes that back.
  pub run-bad_timezone :
      (load : Text → Result Error L) (null : k.Watcher) (w : k.Worker) (xs : List (Registration k))
      (tz : Text) (e : Error)
      → load tz ≡ err e
      → ((run load null w xs tz initial).1 ≡ err (no_runner (bad_timezone tz e)))
        × (running (run load null w xs tz initial).0 ≡ true)
  unfolding run ran made start initial running new_runner located
  run-bad_timezone load null w xs tz e h = (
    ap (λ o. ran o (new_runner load null w xs tz)) start-initial
        ∙ ap (λ r. made (located null w xs tz r)) h,
    running-start-initial,
  )
