-- ===== src/Runner/Plugins.antt =====
-- runner.go: `registerCommands` and `registerScheduledTasks`, which build the plugins of a bot at its
-- start, and again one by one when the configuration watcher reports a change.
pub mod Reloading
pub mod Registering
pub mod Watching
mod Examples
use go_sarah.Shared.{
  ℕ, zero, suc, ◌+◌, ◌-◌, ◌*◌, ◌/◌, ◌%◌, ◌≤◌, ◌<◌, ◌≡◌, refl, sym, ap, subst, ◌∙◌, fun_ext, ◌≢◌,
  ◌↔◌, ◌⊎◌, inl, inr, Bool, true, false, not, ◌&&◌, ◌||◌, Option, none, some, List, [], ◌∷◌, ◌++◌,
  map, append-nil, append_assoc, map-append, reverse, reverse_aux, reverse-reverse, arith,
  add_assoc, add_comm, add-zero, ltb, leb, nat_beq, if◌then◌else◌, nat_beq_iff, if_same, Bool-cases,
  Option-cases, is_nil, Eq, ◌==◌, nat_eq, ==_iff, ==_self, length, get_elem?, set, index_func, keep,
  any, tally, tally-append, tally_middle, length-append, keep-append, All, All-append, Text, codes,
  text_beq, text_eq, is_empty, Lacks, Lacks-append, split_unique, Map, lookup, insert, delete,
  lookup-insert, lookup-delete, Result, ok, err, Outcome, returns, panics, is_space, trim_left,
  trim_space, IsTrimmed, Blank, trim_space-surrounded, is_empty-IsTrimmed,
}
use go_sarah.Errors.{Error}
use go_sarah.Commands.{Command, append}
use go_sarah.Commands.Props.{CommandProps, DefaultCommand, build_command}
use go_sarah.Config.{Read, Plugins}
use go_sarah.Scheduler.CronLibrary.{Cron}
use go_sarah.Scheduler.{Scheduler, Request, removing, updating, serve}
use go_sarah.Tasks.{
  ConfigMethods, ScheduledTask, ScheduledTaskProps, BuiltTask, build_scheduled_task, as_task,
}

-- What `registerCommands` works on: the configurations, and the commands of the bot.
pub record CommandState (D V F : Type 0) : Type 0 where
  pub plugins : Plugins V
  pub commands : List (Command D V F)

-- `interface` is a `*defaultCommand` as a `Command`.
module _ {D V F : Type 0} (read : Read V) (interface : DefaultCommand D V F → Command D V F) where
  command_built :
      Plugins V → Result Error (DefaultCommand D V F) → CommandState D V F → CommandState D V F
  command_built plugins (ok c) s = record {
    plugins = plugins;
    commands = append (interface c) s.commands;
  }
  command_built plugins (err e) s = record s { plugins = plugins }

  -- `reg` of `registerCommands`, which is also what the callback of the watcher calls.
  unfoldable pub register_command : CommandProps D V F → CommandState D V F → CommandState D V F
  unfolding command_built
  register_command p s =
      let (plugins, r) = build_command read p s.plugins in command_built plugins r s

  -- The first loop. An error of `Watch` is logged.
  unfoldable pub register_command_props :
      List (CommandProps D V F) → CommandState D V F → CommandState D V F
  register_command_props [] s = s
  register_command_props (p ∷ ps) s = register_command_props ps (register_command p s)

-- The second loop.
unfoldable pub append_commands :
    {D V F : Type 0} → List (Command D V F) → CommandState D V F → CommandState D V F
append_commands [] s = s
append_commands (c ∷ cs) s = append_commands cs (record s { commands = append c s.commands })

module _ {D V F : Type 0} (read : Read V) (interface : DefaultCommand D V F → Command D V F) where
  unfoldable pub register_commands :
      List (CommandProps D V F) → List (Command D V F) → CommandState D V F → CommandState D V F
  register_commands ps cs s = append_commands cs (register_command_props read interface ps s)

-- What `registerScheduledTasks` works on: the configurations, and the scheduler.
pub record TaskState (V C : Type 0) : Type 0 where
  pub plugins : Plugins V
  pub scheduler : Scheduler C

-- A job of cron runs `executeScheduledTask` for a task: that of an interface value or a built one, which
-- reads its configuration when it runs.
pub data Job (V D R : Type 0) : Type 0 where
  given : ScheduledTask D R → Job V D R
  built : BuiltTask V D R → Job V D R

module _ {V D R C : Type 0} (cron : Cron C (Job V D R)) where
  -- `r.scheduler.remove` and `r.scheduler.update`; an error is logged.
  unfoldable pub request : Request (Job V D R) → TaskState V C → TaskState V C
  request r s = record s { scheduler = (serve cron r s.scheduler).0 }

  task_built : Text → Result Error (BuiltTask V D R) → TaskState V C → TaskState V C
  unfolding request
  task_built b (ok t) s = request (updating b t.identifier t.schedule (built t)) s
  task_built b (err e) s = s

  build_task :
      ConfigMethods V D → Read V → Text → ScheduledTaskProps V D R → TaskState V C → TaskState V C
  unfolding task_built
  build_task methods read b p s =
      let (plugins, r) = build_scheduled_task methods read p s.plugins in
      task_built b r (record s { plugins = plugins })

  -- `reg` of `registerScheduledTasks`, which is also what the callback of the watcher calls.
  unfoldable pub register_task :
      ConfigMethods V D → Read V → Text → ScheduledTaskProps V D R → TaskState V C → TaskState V C
  unfolding build_task request
  register_task methods read b p s =
      build_task methods read b p (request (removing b p.identifier) s)

  -- The first loop.
  unfoldable pub register_task_props :
      ConfigMethods V D
      → Read V
      → Text
      → List (ScheduledTaskProps V D R)
      → TaskState V C
      → TaskState V C
  register_task_props methods read b [] s = s
  register_task_props methods read b (p ∷ ps) s =
      register_task_props methods read b ps (register_task methods read b p s)

  -- The second loop: a task without a schedule is logged.
  unfoldable pub register_given : Text → List (ScheduledTask D R) → TaskState V C → TaskState V C
  unfolding request
  register_given b [] s = s
  register_given b (t ∷ ts) s =
      register_given b ts (
        if is_empty t.schedule then s else request (updating b t.identifier t.schedule (given t)) s)

  unfoldable pub register_scheduled_tasks :
      ConfigMethods V D
      → Read V
      → Text
      → List (ScheduledTaskProps V D R)
      → List (ScheduledTask D R)
      → TaskState V C
      → TaskState V C
  register_scheduled_tasks methods read b ps ts s =
      register_given b ts (register_task_props methods read b ps s)
