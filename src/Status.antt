-- ===== src/Status.antt =====
-- status.go: the status of the process and of its bots. A method returns the new state. The mutex
-- makes each method one step, so histories are lists of calls.
pub mod Starting
pub mod Stopping
pub mod History
pub mod Process
mod Examples
use go_sarah.Shared.{
  ℕ, zero, suc, ◌+◌, ◌-◌, ◌*◌, ◌/◌, ◌%◌, ◌≤◌, ◌<◌, ◌≡◌, refl, sym, ap, subst, ◌∙◌, fun_ext, ◌≢◌,
  ◌↔◌, ◌⊎◌, inl, inr, Bool, true, false, not, ◌&&◌, ◌||◌, Option, none, some, List, [], ◌∷◌, ◌++◌,
  map, append-nil, append_assoc, map-append, arith, add_assoc, add_comm, add-zero, ltb, leb,
  nat_beq, if◌then◌else◌, nat_beq_iff, if_same, Bool-cases, Option-cases, is_nil, Eq, ◌==◌, nat_eq,
  ==_iff, ==_self, length, get_elem?, set, index_func, keep, any, tally, tally-append, tally_middle,
  length-append, keep-append, All, All-append, Text, codes, text_beq, text_eq, is_empty, Lacks,
  split_unique, Map, lookup, insert, delete, lookup-insert, lookup-delete, Result, ok, err, Outcome,
  returns, panics,
}

-- A `chan struct{}` that is only ever closed: nil, made, or closed.
pub data Signal : Type 0 where
  nil_chan open_chan closed_chan : Signal

-- `close(ch)`: closing a nil or a closed channel panics.
pub close_chan : Signal → Outcome Signal
close_chan open_chan = returns closed_chan
close_chan nil_chan = panics
close_chan closed_chan = panics

-- `defer func() { recover() }()` around `close`: the channel is as it was where `close` panicked.
recovered : Signal → Outcome Signal → Signal
recovered c (returns d) = d
recovered c panics = c

-- `botStatus` and `status`.
pub record BotState : Type 0 where
  pub bot_type : Text
  pub finished : Signal

pub record RunnerStatus : Type 0 where
  pub bots : List BotState
  pub finished : Signal

-- `BotStatus` and `Status`, the snapshot that the users see.
pub record BotStatus : Type 0 where
  pub type : Text
  pub running : Bool

pub record Status : Type 0 where
  pub running : Bool
  pub bots : List BotStatus

pub data StatusError : Type 0 where
  runner_already_running : StatusError

-- `var runnerStatus = &status{}`.
unfoldable pub initial : RunnerStatus
initial = record { bots = []; finished = nil_chan }

-- `select { case <-finished: return false; default: return true }`, with the test for nil first.
is_open : Signal → Bool
is_open nil_chan = false
is_open open_chan = true
is_open closed_chan = false

unfoldable pub running : RunnerStatus → Bool
unfolding is_open
running s = is_open s.finished

started : RunnerStatus → Signal → RunnerStatus × Option StatusError
started s nil_chan = (record s { finished = open_chan }, none)
started s open_chan = (s, some runner_already_running)
started s closed_chan = (s, some runner_already_running)

unfoldable pub start : RunnerStatus → RunnerStatus × Option StatusError
unfolding started
start s = started s s.finished

unfoldable pub add_bot : Text → RunnerStatus → RunnerStatus
add_bot b s = record s { bots = s.bots ++ record { bot_type = b; finished = open_chan } ∷ [] }

-- The channel of a `botStatus` is never nil: receiving from a nil one would take `default` too.
bot_open : Signal → Bool
bot_open closed_chan = false
bot_open open_chan = true
bot_open nil_chan = true

unfoldable pub bot_running : BotState → Bool
unfolding bot_open
bot_running bs = bot_open bs.finished

unfoldable pub bot_stop : BotState → BotState
unfolding close_chan recovered
bot_stop bs = record bs { finished = recovered bs.finished (close_chan bs.finished) }

-- The loop of `stopBot`: every entry of the bot's type is stopped.
unfoldable pub stop_if : Text → BotState → BotState
stop_if b bs = if bs.bot_type == b then bot_stop bs else bs

unfoldable pub stop_bot : Text → RunnerStatus → RunnerStatus
stop_bot b s = record s { bots = map (stop_if b) s.bots }

unfoldable pub snapshot : RunnerStatus → Status
unfolding running bot_running
snapshot s = record {
  running = running s;
  bots = map (λ bs. record { type = bs.bot_type; running = bot_running bs }) s.bots;
}

unfoldable pub stop : RunnerStatus → RunnerStatus
unfolding close_chan recovered
stop s = record s { finished = recovered s.finished (close_chan s.finished) }
