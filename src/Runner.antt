-- ===== src/Runner.antt =====
-- runner.go: the life of one bot under the runner. What a bot sends to the alerters by `go sendAlert`
-- is listed in the order in which it is handed over.
pub mod Escalation
pub mod Lifetime
pub mod Receiver
pub mod Registration
pub mod Plugins
mod Examples
use go_sarah.Shared.{
  ℕ, zero, suc, ◌+◌, ◌-◌, ◌*◌, ◌/◌, ◌%◌, ◌≤◌, ◌<◌, ◌≡◌, refl, sym, ap, subst, ◌∙◌, fun_ext, ◌≢◌,
  ◌↔◌, ◌⊎◌, inl, inr, Bool, true, false, not, ◌&&◌, ◌||◌, Option, none, some, List, [], ◌∷◌, ◌++◌,
  map, append-nil, append_assoc, map-append, arith, add_assoc, add_comm, add-zero, ltb, leb,
  nat_beq, if◌then◌else◌, nat_beq_iff, if_same, Bool-cases, Option-cases, is_nil, Eq, ◌==◌, nat_eq,
  ==_iff, ==_self, length, get_elem?, set, index_func, keep, any, tally, tally-append, tally_middle,
  length-append, keep-append, All, All-append, Text, codes, text_beq, text_eq, is_empty, Lacks,
  split_unique, Map, lookup, insert, delete, lookup-insert, lookup-delete, Result, ok, err, Outcome,
  returns, panics,
}
use go_sarah.Errors.{Error, plain, bot_non_continuable, blocked_input, is_non_continuable}

-- `SupervisionDirective`; nil is `none`.
pub record SupervisionDirective : Type 0 where
  pub stop_bot : Bool
  pub alerting_err : Option Error

-- The function that `RegisterBotErrorSupervisor` registers, if it was called.
abbrev pub Supervisor : Type 0
Supervisor = Option (Text → Error → Option SupervisionDirective)

-- The bot's context and the alerts. The context is also cancelled with the runner's.
pub record Supervised : Type 0 where
  pub cancelled : Bool
  pub alerts : List Error

-- `superviseBot` starts with a new context under the runner's.
unfoldable pub supervised : Supervised
supervised = record { cancelled = false; alerts = [] }

cancel : Supervised → Supervised
cancel s = record s { cancelled = true }

send_alert : Error → Supervised → Supervised
send_alert e s = record s { alerts = s.alerts ++ e ∷ [] }

alerted : Option Error → Supervised → Supervised
unfolding send_alert
alerted none s = s
alerted (some e) s = send_alert e s

directed : Option SupervisionDirective → Supervised → Supervised
unfolding alerted cancel
directed none s = s
directed (some d) s = alerted d.alerting_err (if d.stop_bot then cancel s else s)

judged : Supervisor → Text → Error → Supervised → Supervised
unfolding directed
judged none b e s = s
judged (some supervise) b e s = directed (supervise b e) s

-- `handleError` of `superviseBot`.
unfoldable pub handle_error : Supervisor → Text → Error → Supervised → Supervised
unfolding judged cancel send_alert
handle_error v b e s = if is_non_continuable e then send_alert e (cancel s) else judged v b e s

-- `errNotifier` of `superviseBot`: nothing is handled once the context is cancelled.
unfoldable pub notify : Supervisor → Text → Error → Supervised → Supervised
notify v b e s = if s.cancelled then s else handle_error v b e s

-- The runner's own context is cancelled.
unfoldable pub cancel_runner : Supervised → Supervised
unfolding cancel
cancel_runner s = cancel s

-- What `Bot.Run` does: it escalates errors, and then it returns, or panics with a message.
pub record BotRun : Type 0 where
  pub escalated : List Error
  pub ending : Outcome (Unit {0})
  pub stack : Text

unfoldable pub notify_all : Supervisor → Text → List Error → Supervised → Supervised
notify_all v b [] s = s
notify_all v b (e ∷ es) s = notify_all v b es (notify v b e s)

-- The state of a bot that has ended: its supervision, and whether `Unwatch` was called.
pub record Ended : Type 0 where
  pub supervision : Supervised
  pub unwatched : Bool

unfoldable pub shutdown_error : Text → Error
shutdown_error b = bot_non_continuable (codes "shutdown bot: " ++ b)

-- The deferred function and what stands after `bot.Run` in the function literal of `runBot`.
unfoldable pub ended : Supervisor → Text → BotRun → Outcome (Unit {0}) → Supervised → Ended
unfolding shutdown_error
ended v b run (returns u) s = record {
  supervision = notify v b (shutdown_error b) s;
  unwatched = true;
}
ended v b run panics s = record {
  supervision = notify v b (shutdown_error b) (notify v b (bot_non_continuable run.stack) s);
  unwatched = false;
}

-- `runBot`, from the start of the supervision.
unfoldable pub run_bot : Supervisor → Text → BotRun → Supervised → Ended
unfolding ended
run_bot v b run s = ended v b run run.ending (notify_all v b run.escalated s)
