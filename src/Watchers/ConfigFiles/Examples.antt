-- ===== src/Watchers/ConfigFiles/Examples.antt =====
-- A configuration file in /config.
use go_sarah.Shared.{
  ℕ, ◌+◌, ◌≡◌, refl, ◌∙◌, Bool, Option, none, some, List, [], ◌∷◌, ◌++◌, arith, ◌==◌, nat_eq,
  length, All, Text, codes, text_beq, text_eq, Result, ok, err, to_lower,
}
use go_sarah.Errors.{Error, plain}
use go_sarah.Paths.{path_of}
use go_sarah.Paths.Parts.{IsPart, IsPart-is_part, is_part}
use go_sarah.Paths.Clean.{abs_path}
use go_sarah.Watchers.ConfigFiles.{
  yaml_file, Candidate, find_plugin_config_file, plain_path_to_file, Decode, read,
}
use go_sarah.Watchers.ConfigFiles.Found.{
  the_file, first_existing, find_plugin_config_file-first_existing,
}
use go_sarah.Watchers.ConfigFiles.Reading.{
  read_first, read-read_first, plain_path_to_file-find_plugin_config_file,
}

abbrev cwd : Result Error Text
cwd = err (plain (codes "getwd"))

abbrev config : List Text
config = codes "config" ∷ []

abbrev yml : Candidate
yml = record { ext = codes ".yml"; file_type = yaml_file }

config-IsPart : All IsPart config
config-IsPart = (IsPart-is_part (codes "config") (unfold is_part text_beq in refl), tt)

slack-IsPart : IsPart (to_lower (codes "Slack"))
slack-IsPart = IsPart-is_part (to_lower (codes "Slack")) (unfold is_part text_beq in refl)

abbrev exists : Text → Bool
exists path = path == codes "/config/hello.yml"

plain_path_to_file-find_plugin_config_file_example :
    plain_path_to_file cwd (codes "/config/hello.yml") ≡ ok (the_file config (codes "hello") yml)
unfolding path_of
plain_path_to_file-find_plugin_config_file_example =
    plain_path_to_file-find_plugin_config_file cwd exists config (codes "hello")
      (the_file config (codes "hello") yml) config-IsPart (omega arith) found
  where
    found :
        find_plugin_config_file cwd exists (abs_path config) (codes "hello")
        ≡ some (the_file config (codes "hello") yml)
    found =
        find_plugin_config_file-first_existing cwd exists config (codes "hello") config-IsPart
          (omega arith)
        ∙ unfold first_existing text_beq path_of in refl

abbrev openable : Text → Option Error
openable path = none

abbrev decode : Decode ℕ
decode t path v = (v + length path, none)

read-read_first_example :
    read cwd exists openable decode (abs_path config) (codes "Slack") (codes "hello") 1
    ≡ read_first openable decode exists
        (config ++ to_lower (codes "Slack") ∷ [])
        (codes "Slack")
        (codes "hello")
        1
read-read_first_example =
    read-read_first openable decode cwd exists config (codes "Slack") (codes "hello") 1
      config-IsPart slack-IsPart (omega arith)
