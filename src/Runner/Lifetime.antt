-- ===== src/Runner/Lifetime.antt =====
-- The end of a bot: what `runBot` leaves behind when `Bot.Run` returns or panics.
use go_sarah.Shared.{◌≡◌, ◌↔◌, true, arith, nat_eq, Text, text_eq, Outcome, returns, panics}
use go_sarah.Errors.{Error, bot_non_continuable}
use go_sarah.Runner.{
  handle_error, Supervisor, Supervised, notify, notify_all, BotRun, run_bot, ended, shutdown_error,
}

last_of : Text → BotRun → Outcome (Unit {0}) → Error
last_of b run (returns u) = shutdown_error b
last_of b run panics = bot_non_continuable run.stack

-- The error that ends a bot if nothing cancelled its context before.
unfoldable pub last_error : Text → BotRun → Error
unfolding last_of
last_error b run = last_of b run run.ending

notify_non_continuable :
    (v : Supervisor) (b content : Text) (s : Supervised)
    → (notify v b (bot_non_continuable content) s).cancelled ≡ true
unfolding notify handle_error
notify_non_continuable v b content s = ground arith

-- However `Bot.Run` ends and whatever it escalated, the bot's context is cancelled afterwards.
pub run_bot_cancelled :
    (v : Supervisor) (b : Text) (run : BotRun) (s : Supervised)
    → (run_bot v b run s).supervision.cancelled ≡ true
unfolding run_bot
run_bot_cancelled v b run s = by_ending run.ending
  where
    by_ending :
        (o : Outcome (Unit {0}))
        → (ended v b run o (notify_all v b run.escalated s)).supervision.cancelled ≡ true
    by_ending (returns u) = notify_non_continuable v b _ _
    by_ending panics = notify_non_continuable v b _ _

-- `Unwatch` is called exactly if `Bot.Run` returned: after a panic the subscriptions stay.
pub run_bot-unwatched :
    (v : Supervisor) (b : Text) (run : BotRun) (s : Supervised)
    → ((run_bot v b run s).unwatched ≡ true) ↔ (run.ending ≡ returns tt)
unfolding run_bot ended
run_bot-unwatched v b run s = ground arith
