-- ===== src/Commands/Props.antt =====
-- command.go: building commands. `CommandPropsBuilder` collects the properties, and `buildCommand`
-- makes a command of them, with its configuration read.
pub mod Building
use go_sarah.Shared.{
  ℕ, zero, suc, ◌+◌, ◌-◌, ◌*◌, ◌/◌, ◌%◌, ◌≤◌, ◌<◌, ◌≡◌, refl, sym, ap, subst, ◌∙◌, fun_ext, ◌≢◌,
  ◌↔◌, ◌⊎◌, inl, inr, Bool, true, false, not, ◌&&◌, ◌||◌, Option, none, some, List, [], ◌∷◌, ◌++◌,
  map, append-nil, append_assoc, map-append, arith, add_assoc, add_comm, add-zero, ltb, leb,
  nat_beq, if◌then◌else◌, nat_beq_iff, Bool-cases, Option-cases, is_nil, Eq, ◌==◌, nat_eq, ==_iff,
  ==_self, length, get_elem?, set, index_func, keep, any, tally, tally-append, tally_middle,
  length-append, keep-append, All, All-append, Text, codes, text_beq, text_eq, is_empty, Lacks,
  split_unique, Map, lookup, insert, delete, lookup-insert, lookup-delete, Result, ok, err, Outcome,
  returns, panics,
}
use go_sarah.Errors.{Error, command_insufficient_argument}
use go_sarah.Messages.{Input, message}
use go_sarah.Commands.{Command, Execution}
use go_sarah.Config.{Config, Read, Plugins, ConfigWrapper, Heap, deref, load_config}

-- `commandFunc`: a function of the input and of as many configurations as it is given.
abbrev pub CommandFunc : Type 0 → Type 0 → Type 0 → Type 0
CommandFunc D V F = Input D → List V → Execution V F

-- Func and interface fields that are nil before they are set are `none`.
pub record CommandProps (D V F : Type 0) : Type 0 where
  pub bot_type : Text
  pub identifier : Text
  pub config : Option (Config V)
  pub command_func : Option (CommandFunc D V F)
  pub match_func : Option (Input D → Bool)
  pub instruction_func : Option (Input D → Text)

-- `defaultCommand`.
pub record DefaultCommand (D V F : Type 0) : Type 0 where
  pub identifier : Text
  pub match_func : Option (Input D → Bool)
  pub instruction_func : Option (Input D → Text)
  pub command_func : Option (CommandFunc D V F)
  pub config_wrapper : Option (ConfigWrapper V)

-- The setters of the builder. `MatchPattern` takes the test of its regular expression.
pub data Setter (D V F : Type 0) : Type 0 where
  bot_type identifier : Text → Setter D V F
  match_pattern : (Text → Bool) → Setter D V F
  match_func : (Input D → Bool) → Setter D V F
  func : (Input D → Execution V F) → Setter D V F
  configurable_func : Option (Config V) → (Input D → V → Execution V F) → Setter D V F
  instruction : Text → Setter D V F
  instruction_func : (Input D → Text) → Setter D V F

-- The configuration that a call hands over, if there is one.
unfoldable pub arguments : {V : Type 0} → Heap V → Option (ConfigWrapper V) → List V
arguments h none = []
arguments h (some w) = deref h w.value ∷ []

module _ {D V F : Type 0} where
  unfoldable pub new_command_props_builder : CommandProps D V F
  new_command_props_builder = record {
    bot_type = [];
    identifier = [];
    config = none;
    command_func = none;
    match_func = none;
    instruction_func = none;
  }

  ignore_config : (Input D → Execution V F) → CommandFunc D V F
  ignore_config fn i cfg = fn i

  -- `fn(ctx, input, cfg[0])`: the index panics if there is no configuration.
  with_config : (Input D → V → Execution V F) → CommandFunc D V F
  with_config fn i [] = panics
  with_config fn i (v ∷ vs) = fn i v

  unfoldable pub set_prop : Setter D V F → CommandProps D V F → CommandProps D V F
  unfolding ignore_config with_config
  set_prop (bot_type b) p = record p { bot_type = b }
  set_prop (identifier id) p = record p { identifier = id }
  set_prop (match_pattern test) p = record p { match_func = some (λ i. test (message i)) }
  set_prop (match_func f) p = record p { match_func = some f }
  set_prop (func fn) p = record p { config = none; command_func = some (ignore_config fn) }
  set_prop (configurable_func cfg fn) p = record p {
    config = cfg;
    command_func = some (with_config fn);
  }
  set_prop (instruction t) p = record p { instruction_func = some (λ i. t) }
  set_prop (instruction_func f) p = record p { instruction_func = some f }

  unfoldable pub set_props : List (Setter D V F) → CommandProps D V F → CommandProps D V F
  set_props [] p = p
  set_props (x ∷ xs) p = set_props xs (set_prop x p)

  -- `CommandPropsBuilder.Build`.
  unfoldable pub build : CommandProps D V F → Result Error (CommandProps D V F)
  build p =
      if is_empty p.bot_type
        || (is_empty p.identifier
            || (is_nil p.instruction_func || (is_nil p.match_func || is_nil p.command_func)))
      then err command_insufficient_argument
      else ok p

  -- `CommandPropsBuilder.MustBuild`.
  unfoldable pub must_build : CommandProps D V F → Outcome (CommandProps D V F)
  must_build p = elim (build p) [ ok q ↦ returns q | err e ↦ panics ]

  with_wrapper : CommandProps D V F → Option (ConfigWrapper V) → DefaultCommand D V F
  with_wrapper p w = record {
    identifier = p.identifier;
    match_func = p.match_func;
    instruction_func = p.instruction_func;
    command_func = p.command_func;
    config_wrapper = w;
  }

  wrapped_command :
      CommandProps D V F → Result Error (ConfigWrapper V) → Result Error (DefaultCommand D V F)
  wrapped_command p (ok w) = ok (with_wrapper p (some w))
  wrapped_command p (err e) = err e

  build_with :
      Read V
      → CommandProps D V F
      → Option (Config V)
      → Plugins V
      → Plugins V × Result Error (DefaultCommand D V F)
  unfolding with_wrapper wrapped_command
  build_with read p none s = (s, ok (with_wrapper p none))
  build_with read p (some cfg) s =
      let (s', r) = load_config read p.bot_type p.identifier cfg s in (s', wrapped_command p r)

  -- `buildCommand`.
  unfoldable pub build_command :
      Read V → CommandProps D V F → Plugins V → Plugins V × Result Error (DefaultCommand D V F)
  unfolding build_with
  build_command read p s = build_with read p p.config s

  -- Calling a function value that is nil panics.
  unfoldable pub match_input : DefaultCommand D V F → Input D → Outcome Bool
  match_input c i = elim c.match_func [ none ↦ panics | some f ↦ returns (f i) ]

  unfoldable pub instruct : DefaultCommand D V F → Input D → Outcome Text
  instruct c i = elim c.instruction_func [ none ↦ panics | some f ↦ returns (f i) ]

  -- `defaultCommand.Execute`: the configuration is read from the heap at the time of the call.
  unfoldable pub execute : Heap V → DefaultCommand D V F → Input D → Execution V F
  unfolding arguments
  execute h c i = elim c.command_func [
    | none ↦ panics
    | some f ↦ f i (arguments h c.config_wrapper)
  ]
