-- ===== src/Errors.antt =====
-- error.go and the error values of the root package: an error is a value by which the code branches.
use go_sarah.Shared.{ℕ, Bool, true, false, Text}

pub data Error : Type 0 where
  -- An error of code outside the package, or of `errors.New`, with its message.
  plain : Text → Error
  -- `fmt.Errorf("…%w", err)`.
  wrapped : Text → Error → Error
  bot_non_continuable : Text → Error
  blocked_input : ℕ → Error
  config_not_found : Text → Text → Error
  watcher_not_running already_subscribing : Error
  command_insufficient_argument : Error
  task_insufficient_argument task_schedule_not_given : Error

-- `switch err.(type) { case *BotNonContinuableError: … }`, which looks at the value itself.
abbrev pub is_non_continuable : Error → Bool
is_non_continuable (bot_non_continuable content) = true
is_non_continuable _ = false

-- `errors.As(err, &notFoundErr)`, which follows the wrapped errors.
unfoldable pub is_not_found : Error → Bool
is_not_found (config_not_found bot_type id) = true
is_not_found (wrapped message e) = is_not_found e
is_not_found _ = false
