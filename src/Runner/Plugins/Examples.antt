-- ===== src/Runner/Plugins/Examples.antt =====
-- A bot with two commands and two tasks.
use go_sarah.Shared.{
  ℕ, ◌+◌, ◌≡◌, true, Option, none, some, List, [], ◌∷◌, ◌++◌, if◌then◌else◌, ◌==◌, nat_eq, Text,
  codes, text_beq, text_eq, ok, returns,
}
use go_sarah.Errors.{plain}
use go_sarah.Messages.{Input}
use go_sarah.Locker.{empty}
use go_sarah.Commands.{Command, Execution}
use go_sarah.Commands.Collection.{by_identifier, last_of}
use go_sarah.Commands.Props.{CommandProps, DefaultCommand, execute}
use go_sarah.Config.{value, Read, Plugins}
use go_sarah.Tasks.{ConfigMethods, ScheduledTask, ScheduledTaskProps}
use go_sarah.Scheduler.{run_scheduler, serve_all}
use go_sarah.Scheduler.CronLibrary.{Cron, CronLaws}
use go_sarah.Scheduler.SlotCron.{slot_cron, slot_cron-CronLaws}
use go_sarah.Runner.Plugins.{Job, TaskState, CommandState, register_commands}
use go_sarah.Runner.Plugins.Registering.{built_commands, by_identifier-register_commands}

abbrev slack : Text
slack = codes "slack"

abbrev methods : ConfigMethods ℕ Text
methods = record {
  schedule = λ ptr v. some (if v == 0 then [] else codes "@daily");
  default_destination = λ ptr v. none;
}

-- Reading the configuration of the identifier `bad` fails.
abbrev read : Read ℕ
read b id v =
    if text_beq id (codes "bad") then (v, some (plain (codes "malformed"))) else (v + 1, none)

abbrev props : Text → ScheduledTaskProps ℕ Text ℕ
props id = record {
  bot_type = slack;
  identifier = id;
  task_func = some (λ vs. returns (ok []));
  schedule = [];
  default_destination = some (codes "#general");
  config = some (value 0);
}

abbrev hourly : ScheduledTask Text ℕ
hourly = record {
  identifier = codes "hourly";
  execute = returns (ok []);
  default_destination = none;
  schedule = codes "@hourly";
}

abbrev JobsOfBot : Type 0
JobsOfBot = Job ℕ Text ℕ

abbrev cron : Cron (List (Option JobsOfBot)) JobsOfBot
cron = slot_cron

abbrev laws : CronLaws cron
laws = slot_cron-CronLaws

abbrev plugins : Plugins ℕ
plugins = record { heap = λ a. 0; locker = empty }

abbrev at_start : TaskState ℕ (List (Option JobsOfBot))
at_start = record { plugins = plugins; scheduler = serve_all cron [] (run_scheduler cron) }

abbrev tasks : List (ScheduledTaskProps ℕ Text ℕ)
tasks = props (codes "news") ∷ props (codes "bad") ∷ []

abbrev silent : Input Text → Execution ℕ ℕ
silent i = returns (ok none)

-- A built command as a command, over a heap where every configuration is 0.
abbrev interface : DefaultCommand Text ℕ ℕ → Command Text ℕ ℕ
interface c = record {
  identifier = c.identifier;
  execute = λ i. execute (λ a. 0) c i;
  instruction = λ i. c.identifier;
  does_match = λ i. true;
}

abbrev command_props : Text → CommandProps Text ℕ ℕ
command_props id = record {
  bot_type = slack;
  identifier = id;
  config = some (value 0);
  command_func = some (λ i vs. silent i);
  match_func = some (λ i. true);
  instruction_func = some (λ i. id);
}

abbrev echo : Command Text ℕ ℕ
echo = record {
  identifier = codes "echo";
  execute = silent;
  instruction = λ i. codes "echo";
  does_match = λ i. true;
}

abbrev no_commands : CommandState Text ℕ ℕ
no_commands = record { plugins = plugins; commands = [] }

abbrev built_of : List (CommandProps Text ℕ ℕ)
built_of = command_props (codes "echo") ∷ command_props (codes "bad") ∷ []

by_identifier-register_commands_example :
    by_identifier
      (codes "echo")
      (register_commands read interface built_of (echo ∷ []) no_commands).commands
    ≡ last_of (codes "echo") (built_commands read interface built_of plugins ++ echo ∷ []) none
unfolding go_sarah.Commands.Collection.first
by_identifier-register_commands_example =
    by_identifier-register_commands read interface (codes "echo") built_of (echo ∷ []) no_commands
