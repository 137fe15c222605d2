-- ===== src/Tasks.antt =====
-- task.go: scheduled tasks, their builder, and `buildScheduledTask`. `V` stands for the configuration
-- structs, `D` for destinations and `C` for contents.
pub mod Building
pub mod Delivery
mod Examples
use go_sarah.Shared.{
  ℕ, zero, suc, ◌+◌, ◌-◌, ◌*◌, ◌/◌, ◌%◌, ◌≤◌, ◌<◌, ◌≡◌, refl, sym, ap, subst, ◌∙◌, fun_ext, ◌≢◌,
  ◌↔◌, ◌⊎◌, inl, inr, Bool, true, false, not, ◌&&◌, ◌||◌, Option, none, some, List, [], ◌∷◌, ◌++◌,
  map, append-nil, append_assoc, map-append, arith, add_assoc, add_comm, add-zero, ltb, leb,
  nat_beq, if◌then◌else◌, nat_beq_iff, if_same, Bool-cases, Option-cases, is_nil, Eq, ◌==◌, nat_eq,
  ==_iff, ==_self, length, get_elem?, set, index_func, keep, any, tally, tally-append, tally_middle,
  length-append, keep-append, All, All-append, Text, codes, text_beq, text_eq, is_empty, Lacks,
  split_unique, Map, lookup, insert, delete, lookup-insert, lookup-delete, Result, ok, err, Outcome,
  returns, panics,
}
use go_sarah.Errors.{Error, task_insufficient_argument, task_schedule_not_given}
use go_sarah.Messages.{Output, new_output_message}
use go_sarah.Config.{
  Config, pointer, value, Read, Plugins, ConfigWrapper, Heap, deref, is_pointer, load_config,
}

-- `ScheduledTaskResult`.
pub record ScheduledTaskResult (D C : Type 0) : Type 0 where
  pub content : C
  pub destination : Option D

-- `([]*ScheduledTaskResult, error)` of a task, which may panic. A nil slice is an empty list.
abbrev pub Execution : Type 0 → Type 0 → Type 0
Execution D C = Outcome (Result Error (List (ScheduledTaskResult D C)))

-- `taskFunc`.
abbrev pub TaskFunc : Type 0 → Type 0 → Type 0 → Type 0
TaskFunc V D C = List V → Execution D C

-- The methods of `ScheduledConfig` and `DestinatedConfig` of a configuration, `none` where its type has
-- none. A pointer type (`true`) may have methods that its element type has not.
pub record ConfigMethods (V D : Type 0) : Type 0 where
  pub schedule : Bool → V → Option Text
  pub default_destination : Bool → V → Option (Option D)

-- The interface `ScheduledTask`.
pub record ScheduledTask (D C : Type 0) : Type 0 where
  pub identifier : Text
  pub execute : Execution D C
  pub default_destination : Option D
  pub schedule : Text

-- The struct `scheduledTask`.
pub record BuiltTask (V D C : Type 0) : Type 0 where
  pub identifier : Text
  pub task_func : Option (TaskFunc V D C)
  pub schedule : Text
  pub default_destination : Option D
  pub config_wrapper : Option (ConfigWrapper V)

pub record ScheduledTaskProps (V D C : Type 0) : Type 0 where
  pub bot_type : Text
  pub identifier : Text
  pub task_func : Option (TaskFunc V D C)
  pub schedule : Text
  pub default_destination : Option D
  pub config : Option (Config V)

-- The setters of `ScheduledTaskPropsBuilder`.
pub data Setter (V D C : Type 0) : Type 0 where
  bot_type identifier schedule : Text → Setter V D C
  func : Execution D C → Setter V D C
  default_destination : Option D → Setter V D C
  configurable_func : Option (Config V) → (V → Execution D C) → Setter V D C

-- The configuration that a call hands over, if there is one.
arguments : {V : Type 0} → Heap V → Option (ConfigWrapper V) → List V
arguments h none = []
arguments h (some w) = deref h w.value ∷ []

module _ {V D C : Type 0} where
  unfoldable pub new_scheduled_task_props_builder : ScheduledTaskProps V D C
  new_scheduled_task_props_builder = record {
    bot_type = [];
    identifier = [];
    task_func = none;
    schedule = [];
    default_destination = none;
    config = none;
  }

  -- `fn(ctx, cfg[0])`: the index panics if there is no configuration.
  with_config : (V → Execution D C) → TaskFunc V D C
  with_config fn [] = panics
  with_config fn (v ∷ vs) = fn v

  unfoldable pub set_prop : Setter V D C → ScheduledTaskProps V D C → ScheduledTaskProps V D C
  unfolding with_config
  set_prop (bot_type b) p = record p { bot_type = b }
  set_prop (identifier id) p = record p { identifier = id }
  set_prop (schedule s) p = record p { schedule = s }
  set_prop (func fn) p = record p { config = none; task_func = some (λ cfg. fn) }
  set_prop (default_destination d) p = record p { default_destination = d }
  set_prop (configurable_func cfg fn) p = record p {
    config = cfg;
    task_func = some (with_config fn);
  }

  unfoldable pub set_props :
      List (Setter V D C) → ScheduledTaskProps V D C → ScheduledTaskProps V D C
  set_props [] p = p
  set_props (x ∷ xs) p = set_props xs (set_prop x p)

  -- `scheduledTask.Execute`: the configuration is read at the time of the call.
  unfoldable pub execute : Heap V → BuiltTask V D C → Execution D C
  unfolding arguments
  execute h t = elim t.task_func [ none ↦ panics | some f ↦ f (arguments h t.config_wrapper) ]

  -- A `*scheduledTask` as a `ScheduledTask`.
  unfoldable pub as_task : Heap V → BuiltTask V D C → ScheduledTask D C
  as_task h t = record {
    identifier = t.identifier;
    execute = execute h t;
    default_destination = t.default_destination;
    schedule = t.schedule;
  }

  task_of : ScheduledTaskProps V D C → Text → Option D → Option (ConfigWrapper V) → BuiltTask V D C
  task_of p s d w = record {
    identifier = p.identifier;
    task_func = p.task_func;
    schedule = s;
    default_destination = d;
    config_wrapper = w;
  }

  scheduled_task :
      ScheduledTaskProps V D C
      → Text
      → Option D
      → Option (ConfigWrapper V)
      → Result Error (BuiltTask V D C)
  unfolding task_of
  scheduled_task p s d w = if is_empty s then err task_schedule_not_given else ok (task_of p s d w)

module _ {V D : Type 0} (methods : ConfigMethods V D) where
  schedule_method : Heap V → Config V → Option Text
  schedule_method h cfg = methods.schedule (is_pointer cfg) (deref h cfg)

  destination_method : Heap V → Config V → Option (Option D)
  destination_method h cfg = methods.default_destination (is_pointer cfg) (deref h cfg)

  -- The tests of `Build` on the schedule: without one, the configuration must be a `ScheduledConfig`.
  unscheduled : Heap V → Text → Option (Config V) → Bool
  unfolding schedule_method
  unscheduled h s none = is_empty s
  unscheduled h s (some cfg) = is_nil (schedule_method h cfg) && is_empty s

-- `if s := scheduledConfig.Schedule(); s != ""`.
unfoldable pub effective_schedule : Text → Option Text → Text
effective_schedule s none = s
effective_schedule s (some t) = if is_empty t then s else t

-- `if d := destConfig.DefaultDestination(); d != nil`.
unfoldable pub effective_destination : {D : Type 0} → Option D → Option (Option D) → Option D
effective_destination d none = d
effective_destination d (some none) = d
effective_destination d (some (some e)) = some e

module _ {V D C : Type 0} (methods : ConfigMethods V D) where
  -- `ScheduledTaskPropsBuilder.Build`.
  unfoldable pub build : Heap V → ScheduledTaskProps V D C → Result Error (ScheduledTaskProps V D C)
  unfolding unscheduled
  build h p =
      if is_empty p.bot_type || (is_empty p.identifier || is_nil p.task_func)
      then err task_insufficient_argument
      else if unscheduled methods h p.schedule p.config
      then err task_schedule_not_given
      else ok p

  -- `ScheduledTaskPropsBuilder.MustBuild`.
  unfoldable pub must_build : Heap V → ScheduledTaskProps V D C → Outcome (ScheduledTaskProps V D C)
  must_build h p = elim (build h p) [ ok q ↦ returns q | err e ↦ panics ]

  configured_task :
      ScheduledTaskProps V D C
      → Heap V
      → Result Error (ConfigWrapper V)
      → Result Error (BuiltTask V D C)
  unfolding scheduled_task effective_schedule effective_destination destination_method
      schedule_method
  configured_task p h (err e) = err e
  configured_task p h (ok w) =
      scheduled_task p (effective_schedule p.schedule (schedule_method methods h w.value))
        (effective_destination p.default_destination (destination_method methods h w.value))
        (some w)

  build_with :
      Read V
      → ScheduledTaskProps V D C
      → Option (Config V)
      → Plugins V
      → Plugins V × Result Error (BuiltTask V D C)
  unfolding scheduled_task configured_task
  build_with read p none s = (s, scheduled_task p p.schedule p.default_destination none)
  build_with read p (some cfg) s =
      let (s', r) = load_config read p.bot_type p.identifier cfg s in
      (s', configured_task p s'.heap r)

  -- `buildScheduledTask`.
  unfoldable pub build_scheduled_task :
      Read V → ScheduledTaskProps V D C → Plugins V → Plugins V × Result Error (BuiltTask V D C)
  unfolding build_with
  build_scheduled_task read p s = build_with read p p.config s
