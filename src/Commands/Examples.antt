-- ===== src/Commands/Examples.antt =====
-- Commands of a bot, registered and built.
use go_sarah.Shared.{
  ℕ, ◌≡◌, refl, some, List, [], ◌∷◌, if◌then◌else◌, nat_eq, Text, codes, text_beq, text_eq, ok, err,
  returns,
}
use go_sarah.Errors.{plain, config_not_found}
use go_sarah.Messages.{Input, regular}
use go_sarah.Locker.{empty}
use go_sarah.Config.{Config, pointer, Read, Plugins}
use go_sarah.Commands.{Execution}
use go_sarah.Config.Reading.{seen}
use go_sarah.Commands.Props.{
  CommandProps, DefaultCommand, Setter, configurable_func, set_prop, set_props,
  new_command_props_builder, build_command, execute,
}
use go_sarah.Commands.Props.Building.{chosen, choose, execute-configurable_func}

abbrev echo : Text
echo = codes "echo"

abbrev question : Input Text
question = regular (record {
  sender_key = codes "room|alice";
  message = codes ".echo";
  sent_at = 5;
  reply_to = codes "room";
})

-- A configuration is not found for the identifier `echo`, and is malformed for any other.
abbrev read : Read ℕ
read b id v =
    if text_beq id echo
    then (v, some (config_not_found b id))
    else (v, some (plain (codes "malformed")))

abbrev plugins : Plugins ℕ
plugins = record { heap = λ a. 4; locker = empty }

abbrev counting : Input Text → ℕ → Execution ℕ ℕ
counting i v = returns (err (plain (v ∷ [])))

abbrev setters : List (Setter Text ℕ ℕ)
setters =
    Setter.bot_type (codes "slack")
    ∷ Setter.identifier echo
    ∷ configurable_func (some (pointer 9)) counting
    ∷ []

abbrev props : CommandProps Text ℕ ℕ
props = set_props setters new_command_props_builder

abbrev config : Config ℕ
config = pointer 9

execute-configurable_func_example :
    (c : DefaultCommand Text ℕ ℕ) × ((build_command read props plugins).1 ≡ ok c)
    × (execute (build_command read props plugins).0.heap c question
        ≡ counting question (seen read props.bot_type props.identifier config plugins.heap))
unfolding set_props new_command_props_builder set_prop chosen choose text_beq
    go_sarah.Errors.is_not_found
execute-configurable_func_example =
    execute-configurable_func read setters props config counting plugins question refl refl refl
