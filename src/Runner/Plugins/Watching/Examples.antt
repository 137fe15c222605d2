-- ===== src/Runner/Plugins/Watching/Examples.antt =====
-- A command and a scheduled task with the same identifier.
use go_sarah.Shared.{
  ℕ, ◌≡◌, refl, ap, ◌∙◌, Bool, Option, none, some, List, [], ◌∷◌, arith, ◌==◌, nat_eq, Text, codes,
  text_beq, text_eq, Result, err, to_lower,
}
use go_sarah.Errors.{Error, plain}
use go_sarah.Paths.{join, path_of}
use go_sarah.Paths.Parts.{IsPart, IsPart-is_part, is_part}
use go_sarah.Paths.Clean.{abs_path}
use go_sarah.Config.{value}
use go_sarah.Commands.Props.{CommandProps}
use go_sarah.Tasks.{ScheduledTaskProps}
use go_sarah.Watchers.{subscribe_all}
use go_sarah.Watchers.ConfigFiles.{yaml_file, PluginConfigFile, find_plugin_config_file}
use go_sarah.Watchers.ConfigFiles.Found.{
  the_file, first_existing, join-abs_path, find_plugin_config_file-first_existing,
}
use go_sarah.Watchers.Loop.{handle_path}
use go_sarah.Watchers.Loop.Files.{watch_all}
use go_sarah.Runner.Plugins.Watching.{
  callbacks, watch_calls, called_back, updated, handle_path-updated,
}

abbrev cwd : Result Error Text
cwd = err (plain (codes "getwd"))

abbrev base : List Text
base = codes "c" ∷ []

abbrev slack : Text
slack = codes "slack"

abbrev hello : Text
hello = codes "hello"

abbrev command : CommandProps Text ℕ ℕ
command = record {
  bot_type = slack;
  identifier = hello;
  config = some (value 0);
  command_func = none;
  match_func = none;
  instruction_func = none;
}

abbrev task : ScheduledTaskProps ℕ Text ℕ
task = record {
  bot_type = slack;
  identifier = hello;
  task_func = none;
  schedule = codes "@daily";
  default_destination = none;
  config = some (value 0);
}

abbrev file : PluginConfigFile
file =
    the_file (codes "c" ∷ slack ∷ []) hello (record { ext = codes ".yml"; file_type = yaml_file })

abbrev exists : Text → Bool
exists path = path == codes "/c/slack/hello.yml"

abbrev add : Text → Option Error
add d = none

c-IsPart : IsPart (codes "c")
c-IsPart = IsPart-is_part (codes "c") (unfold is_part text_beq in refl)

slack-IsPart : IsPart slack
slack-IsPart = IsPart-is_part (slack) (unfold is_part text_beq in refl)

handle_path-updated_example :
    called_back (callbacks (command ∷ []) (task ∷ [])) (
      handle_path cwd file.abs_path (
        subscribe_all add
          (watch_all cwd
            (abs_path base)
            (watch_calls slack 0 (callbacks (command ∷ []) (task ∷ []))))
          []))
    ≡ updated hello (command ∷ []) (task ∷ [])
unfolding find_plugin_config_file path_of go_sarah.Paths.joined
handle_path-updated_example =
    handle_path-updated cwd base slack hello add exists (command ∷ []) (task ∷ []) file
      (c-IsPart, tt) slack-IsPart (omega arith) refl refl found
  where
    found :
        find_plugin_config_file cwd exists (join (abs_path base) (to_lower slack)) hello ≡ some file
    found =
        ap (λ d. find_plugin_config_file cwd exists d hello)
          (join-abs_path base slack (c-IsPart, tt) slack-IsPart)
        ∙ find_plugin_config_file-first_existing cwd exists (codes "c" ∷ slack ∷ []) hello
            (c-IsPart, (slack-IsPart, tt)) (omega arith)
        ∙ unfold first_existing text_beq path_of in refl
