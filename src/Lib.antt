-- ===== src/Lib.antt =====
-- Verification library of go-sarah, a framework for chat bots in Go.
--
-- The program. A user of the framework registers bots, commands, scheduled tasks, alerters and a
-- configuration watcher, and calls Run (runner.go). The runner starts a goroutine for each bot
-- (runner.run), supervises it (runBot, superviseBot), builds its plugins (registerCommands,
-- registerScheduledTasks) and hands its inputs to a worker (setupInputReceiver). A bot (bot.go) answers
-- an input with the first command that matches, or goes on with the function that the user's last
-- response left in the context storage (storage.go). Scheduled tasks (task.go) are run by the scheduler
-- (scheduler.go). Configurations of plugins are read under a lock of their own (locker.go), from the files
-- that the file watcher finds, which also reports their changes (watchers). The adapters (slack, gitter)
-- make inputs of what a chat service sends, and messages of the bot's outputs.
--
-- Files and code. A directory's file declares the definitions of a component, its children hold the
-- proofs, and its child Examples the tests and the witnesses.
--   Shared                 tests, lists, texts, maps, results: the helpers of all files
--   Errors                 error.go and the error values of watcher.go
--   Messages               input.go, output.go
--   Status                 status.go; Status.Process is runner.run of runner.go
--   Storage                storage.go; Storage.GoCache is the interface of go-cache
--   Commands               command.go: Commands; Commands.Props: CommandPropsBuilder, buildCommand
--   Locker                 locker.go
--   Config                 the reading of configurations in buildCommand and buildScheduledTask
--   Bot                    bot.go: defaultBot
--   Alerts                 alert.go
--   Tasks                  task.go; Tasks.Delivery is executeScheduledTask of runner.go
--   Scheduler              scheduler.go; Scheduler.CronLibrary is the interface of robfig/cron
--   Runner                 runner.go: superviseBot, runBot
--   Runner.Receiver        runner.go: setupInputReceiver
--   Runner.Registration    runner.go: the stashed options, newRunner, Run (in Starting)
--   Runner.Plugins         runner.go: registerCommands, registerScheduledTasks; Runner.Plugins.Watching is
--                          their calls of Watch
--   Watchers               watchers/filewatcher.go: doSubscribe, doUnsubscribe, doHandleEvent
--   Watchers.ConfigFiles   watchers/filewatcher.go: Read, findPluginConfigFile, plainPathToFile
--   Watchers.Loop          watchers/filewatcher.go: Watch, Unwatch, the rounds of run
--   Paths                  path/filepath on Unix, and path.Join, as far as the code uses them
--   Slack                  slack: inputs and payload handlers; Slack.Responses is NewResponse and
--                          SendMessage, Slack.Connection the two goroutines of a connection and the
--                          runs of the two adapters, Slack.Adapter is NewAdapter; Slack.Conversation
--                          puts the handlers, bot.go and SendMessage together
--   Gitter                 gitter: payloads; Gitter.Stream is the reading of a room's stream,
--                          Gitter.Adapter the adapter, Gitter.Rest the clients of the APIs
--   Samples                two of the sample programs under _examples: the todo command, and the statistics
--                          of the workers
--   Http                   net/http as the clients use it; Http.Line is alerter/line/client.go
-- A method of the code is a function of the state that returns the new state; an error is a value, and a
-- panic is the outcome `panics`. What a mutex or a single goroutine makes one step is one step here;
-- the goroutines of runner.run are interleaved step by step (Status.Process), as are those of a Slack
-- connection (Slack.Connection). The rounds of the file watcher's goroutine are an indexed relation
-- (Watchers.Loop). What a service or a connection does next is given by a list, so that a loop that
-- reconnects for ever is a function of the list.
--
-- Bounds. Numbers are natural numbers without a bound, but the counter of refused inputs, which is a
-- 64-bit word. Only the loop over a Gitter stream has fuel, one more than the chunks of the stream, since
-- each turn but the last takes a chunk; the other loops go over lists.
--
-- Parameters. The cache, cron, time zones, workers, alerters, decoders, the file system, golack, net/http
-- and the methods of configurations are arguments; the laws of the cache, of cron and of golack's
-- messages are their documented behaviour, and a concrete cache (Storage.TimedCache), a concrete cron
-- (Scheduler.SlotCron) and concrete messages (Slack.Examples) satisfy them.
--
-- Not modelled: logging of the framework itself, the goroutines' own scheduling where a component has
-- one goroutine only, texts outside ASCII where the code trims or lower-cases them, and the other
-- sample programs (_examples), which only wire the library or call a service.
pub mod Shared
pub mod Status
pub mod Errors
pub mod Messages
pub mod Storage
pub mod Commands
pub mod Locker
pub mod Config
pub mod Bot
pub mod Alerts
pub mod Runner
pub mod Scheduler
pub mod Tasks
pub mod Watchers
pub mod Paths
pub mod Http
pub mod Slack
pub mod Gitter
pub mod Samples
