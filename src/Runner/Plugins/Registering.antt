-- ===== src/Runner/Plugins/Registering.antt =====
-- All the plugins of a bot at its start.
use go_sarah.Shared.{
  ◌≡◌, refl, sym, ap, ◌∙◌, List, [], ◌∷◌, ◌++◌, if◌then◌else◌, nat_eq, Text, text_eq, is_empty,
  Result, ok, err,
}
use go_sarah.Errors.{Error}
use go_sarah.Commands.{Command, append}
use go_sarah.Commands.Collection.{append_all, last_of, by_identifier, by_identifier-append_all}
use go_sarah.Commands.Props.{CommandProps, DefaultCommand, build_command}
use go_sarah.Config.{Read, Plugins}
use go_sarah.Scheduler.CronLibrary.{Cron, CronLaws}
use go_sarah.Scheduler.{updating}
use go_sarah.Scheduler.Entries.{Jobs}
use go_sarah.Scheduler.Jobs
use go_sarah.Tasks.{ScheduledTask}
use go_sarah.Runner.Plugins.{
  CommandState, TaskState, Job, given, request, command_built, register_command,
  register_command_props, append_commands, register_commands,
}

module _ {V D R C : Type 0} (cron : Cron C (Job V D R)) (laws : CronLaws cron) where
  given_next : Text → ScheduledTask D R → TaskState V C → TaskState V C
  unfolding request
  given_next b t s =
      if is_empty t.schedule
      then s
      else request cron (updating b t.identifier t.schedule (given t)) s

module _ {D V F : Type 0} (read : Read V) (interface : DefaultCommand D V F → Command D V F) where
  -- The commands that are built of properties, one after the other.
  unfoldable pub built_commands : List (CommandProps D V F) → Plugins V → List (Command D V F)
  built_commands [] s = []
  built_commands (p ∷ ps) s =
      let (s', r) = build_command read p s in
      let rest = built_commands ps s' in elim r [ ok c ↦ interface c ∷ rest | err e ↦ rest ]

append_commands-append_all :
    {D V F : Type 0} (cs : List (Command D V F)) (s : CommandState D V F)
    → (append_commands cs s).commands ≡ append_all cs s.commands
unfolding append_commands append_all
append_commands-append_all [] s = refl
append_commands-append_all (c ∷ cs) s =
    append_commands-append_all cs (record s { commands = append c s.commands })

append_all-append :
    {D V F : Type 0} (xs ys cs : List (Command D V F))
    → append_all (xs ++ ys) cs ≡ append_all ys (append_all xs cs)
unfolding append_all
append_all-append [] ys cs = refl
append_all-append (x ∷ xs) ys cs = append_all-append xs ys (append x cs)

module _ {D V F : Type 0} (read : Read V) (interface : DefaultCommand D V F → Command D V F) where
  register_command_props-append_all :
      (ps : List (CommandProps D V F)) (s : CommandState D V F)
      → (register_command_props read interface ps s).commands
        ≡ append_all (built_commands read interface ps s.plugins) s.commands
  unfolding register_command_props append_all built_commands register_command command_built
  register_command_props-append_all [] s = refl
  register_command_props-append_all (p ∷ ps) s =
      by_result (λ s'. register_command_props-append_all ps s') (build_command read p s.plugins).0
        (build_command read p s.plugins).1
    where
      by_result :
          ((s' : CommandState D V F)
            → (register_command_props read interface ps s').commands
              ≡ append_all (built_commands read interface ps s'.plugins) s'.commands)
          → (q : Plugins V) (r : Result Error (DefaultCommand D V F))
          → (register_command_props read interface ps (command_built read interface q r s)).commands
            ≡ append_all
                (elim r [
                  | ok c ↦ interface c ∷ built_commands read interface ps q
                  | err e ↦ built_commands read interface ps q
                ])
                s.commands
      by_result rest q (ok c) =
          rest (record { plugins = q; commands = append (interface c) s.commands })
      by_result rest q (err e) = rest (record s { plugins = q })

  -- After the registration of a bot's commands, the command under an identifier is the last one of it
  -- among those that were built of properties and those that were registered as commands, in this
  -- order; properties that cannot be built leave out their own command only.
  pub by_identifier-register_commands :
      (id : Text) (ps : List (CommandProps D V F)) (cs : List (Command D V F))
      (s : CommandState D V F)
      → by_identifier id (register_commands read interface ps cs s).commands
        ≡ last_of id
            (built_commands read interface ps s.plugins ++ cs)
            (by_identifier id s.commands)
  unfolding register_commands
  by_identifier-register_commands id ps cs s =
      ap (by_identifier id) (
        append_commands-append_all cs _
        ∙ (ap (append_all cs) (register_command_props-append_all ps s)
            ∙ sym (append_all-append (built_commands read interface ps s.plugins) cs s.commands)))
      ∙ by_identifier-append_all id (built_commands read interface ps s.plugins ++ cs) s.commands
