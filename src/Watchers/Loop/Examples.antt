-- ===== src/Watchers/Loop/Examples.antt =====
-- Two calls of `Watch`, and the rounds of `run` for one subscription.
use go_sarah.Shared.{
  ℕ, ◌≡◌, refl, ap, ◌∙◌, Bool, Option, none, some, List, [], ◌∷◌, arith, ◌==◌, nat_eq, Text, codes,
  text_beq, text_eq, Result, err, to_lower,
}
use go_sarah.Errors.{Error, plain}
use go_sarah.Paths.{join, path_of}
use go_sarah.Paths.Parts.{IsPart, IsPart-is_part, is_part}
use go_sarah.Paths.Clean.{abs_path}
use go_sarah.Watchers.{Subscription, subscribe_all}
use go_sarah.Watchers.Events.{given}
use go_sarah.Watchers.ConfigFiles.{yaml_file, PluginConfigFile, find_plugin_config_file}
use go_sarah.Watchers.ConfigFiles.Found.{
  the_file, first_existing, join-abs_path, find_plugin_config_file-first_existing,
}
use go_sarah.Watchers.Loop.{FileWatcher, new_file_watcher, subscribe, handle_path}
use go_sarah.Watchers.Loop.Files.{Call, watch_all, first_call, handle_path-first_call}

abbrev cwd : Result Error Text
cwd = err (plain (codes "getwd"))

abbrev echo : Subscription
echo = record {
  bot_type = codes "slack";
  id = codes "echo";
  abs_dir = codes "/c/slack";
  callback = 1;
}

abbrev add : Text → Option Error
add d = none

abbrev subscribed_once : FileWatcher
subscribed_once = subscribe add echo new_file_watcher

abbrev base : List Text
base = codes "c" ∷ []

abbrev call : Text → ℕ → Call
call id callback = record { bot_type = codes "slack"; id = id; callback = callback }

abbrev calls : List Call
calls = call (codes "echo") 1 ∷ call (codes "hello") 2 ∷ call (codes "hello") 3 ∷ []

abbrev hello : PluginConfigFile
hello =
    the_file (codes "c" ∷ codes "slack" ∷ []) (codes "hello")
      (record { ext = codes ".yml"; file_type = yaml_file })

abbrev exists : Text → Bool
exists path = path == codes "/c/slack/hello.yml"

c-IsPart : IsPart (codes "c")
c-IsPart = IsPart-is_part (codes "c") (unfold is_part text_beq in refl)

slack-IsPart : IsPart (codes "slack")
slack-IsPart = IsPart-is_part (codes "slack") (unfold is_part text_beq in refl)

handle_path-first_call_example :
    handle_path cwd hello.abs_path (subscribe_all add (watch_all cwd (abs_path base) calls) [])
    ≡ given (first_call (codes "slack") (codes "hello") calls)
unfolding find_plugin_config_file path_of go_sarah.Paths.joined
handle_path-first_call_example =
    handle_path-first_call cwd base (codes "slack") (codes "hello") add exists calls hello
      (c-IsPart, tt) slack-IsPart (omega arith) (slack-IsPart, (slack-IsPart, (slack-IsPart, tt)))
      refl refl found
  where
    found :
        find_plugin_config_file cwd exists
          (join (abs_path base) (to_lower (codes "slack")))
          (codes "hello")
        ≡ some hello
    found =
        ap (λ d. find_plugin_config_file cwd exists d (codes "hello"))
          (join-abs_path base (codes "slack") (c-IsPart, tt) slack-IsPart)
        ∙ find_plugin_config_file-first_existing cwd exists (codes "c" ∷ codes "slack" ∷ [])
            (codes "hello") (c-IsPart, (slack-IsPart, tt)) (omega arith)
        ∙ unfold first_existing text_beq path_of in refl
