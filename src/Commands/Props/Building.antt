-- ===== src/Commands/Props/Building.antt =====
-- What `CommandPropsBuilder` and `buildCommand` promise of the command that they make.
use go_sarah.Shared.{
  ◌≡◌, refl, sym, ap, subst, ◌∙◌, false, Option, none, some, List, [], ◌∷◌, arith, is_nil, nat_eq,
  text_eq, is_empty, Result, ok, err, panics,
}
use go_sarah.Errors.{Error, is_not_found}
use go_sarah.Messages.{Input}
use go_sarah.Commands.{Execution}
use go_sarah.Config.{Config, Read, Plugins, ConfigWrapper, Heap, deref, load_config, read_failed}
use go_sarah.Config.Reading.{Acceptable, seen, load_config_accepted, load_config_refused}
use go_sarah.Commands.Props.{
  CommandProps, DefaultCommand, Setter, func, configurable_func, new_command_props_builder,
  set_prop, set_props, build, build_command, build_with, wrapped_command, with_wrapper, execute,
  arguments, with_config, ignore_config,
}

-- The last of `Func` and `ConfigurableFunc` that was called.
pub data Chosen (D V F : Type 0) : Type 0 where
  unset : Chosen D V F
  simple : (Input D → Execution V F) → Chosen D V F
  configured : Option (Config V) → (Input D → V → Execution V F) → Chosen D V F

module _ {D V F : Type 0} where
  -- All that a command needs is given.
  pub record IsComplete (p : CommandProps D V F) : Type 0 where
    pub bot_type : is_empty p.bot_type ≡ false
    pub identifier : is_empty p.identifier ≡ false
    pub instruction_func : is_nil p.instruction_func ≡ false
    pub match_func : is_nil p.match_func ≡ false
    pub command_func : is_nil p.command_func ≡ false

  build_complete : (p : CommandProps D V F) → IsComplete p → build p ≡ ok p
  unfolding build
  build_complete p h =
      rw (h.bot_type, h.identifier, h.instruction_func, h.match_func, h.command_func)

  build-IsComplete : (p : CommandProps D V F) → build p ≡ ok p → IsComplete p
  unfolding build
  build-IsComplete p = ground arith

  unfoldable pub choose : Setter D V F → Chosen D V F → Chosen D V F
  choose (func fn) k = simple fn
  choose (configurable_func cfg fn) k = configured cfg fn
  choose (Setter.bot_type b) k = k
  choose (Setter.identifier b) k = k
  choose (Setter.match_pattern b) k = k
  choose (Setter.match_func b) k = k
  choose (Setter.instruction b) k = k
  choose (Setter.instruction_func b) k = k

  unfoldable pub chosen : List (Setter D V F) → Chosen D V F → Chosen D V F
  chosen [] k = k
  chosen (x ∷ xs) k = chosen xs (choose x k)

  -- The properties hold the choice.
  abbrev config_of : Chosen D V F → Option (Config V)
  config_of unset = none
  config_of (simple fn) = none
  config_of (configured cfg fn) = cfg

  abbrev func_of : Chosen D V F → Option (Input D → List V → Execution V F)
  func_of unset = none
  func_of (simple fn) = some (ignore_config fn)
  func_of (configured cfg fn) = some (with_config fn)

  abbrev Holds : Chosen D V F → CommandProps D V F → Type 0
  Holds k p = (p.config ≡ config_of k) × (p.command_func ≡ func_of k)

  set_prop-Holds :
      (x : Setter D V F) (k : Chosen D V F) (p : CommandProps D V F)
      → Holds k p
      → Holds (choose x k) (set_prop x p)
  unfolding choose set_prop
  set_prop-Holds (func fn) k p h = (refl, refl)
  set_prop-Holds (configurable_func cfg fn) k p h = (refl, refl)
  set_prop-Holds (Setter.bot_type b) k p h = h
  set_prop-Holds (Setter.identifier b) k p h = h
  set_prop-Holds (Setter.match_pattern b) k p h = h
  set_prop-Holds (Setter.match_func b) k p h = h
  set_prop-Holds (Setter.instruction b) k p h = h
  set_prop-Holds (Setter.instruction_func b) k p h = h

  set_props-Holds :
      (xs : List (Setter D V F)) (k : Chosen D V F) (p : CommandProps D V F)
      → Holds k p
      → Holds (chosen xs k) (set_props xs p)
  unfolding chosen set_props
  set_props-Holds [] k p h = h
  set_props-Holds (x ∷ xs) k p h =
      set_props-Holds xs (choose x k) (set_prop x p) (set_prop-Holds x k p h)

  collected-Holds :
      (xs : List (Setter D V F)) → Holds (chosen xs unset) (set_props xs new_command_props_builder)
  unfolding new_command_props_builder
  collected-Holds xs = set_props-Holds xs unset new_command_props_builder (refl, refl)

  -- What a call of the chosen function does with its configurations.
  called : Chosen D V F → Input D → List V → Execution V F
  called unset i vs = panics
  called (simple fn) i vs = fn i
  called (configured cfg fn) i [] = panics
  called (configured cfg fn) i (v ∷ vs) = fn i v

  called_func :
      (k : Chosen D V F) (i : Input D) (vs : List V)
      → (elim (func_of k) [ none ↦ panics | some f ↦ f i vs ]) ≡ called k i vs
  unfolding called ignore_config with_config
  called_func unset i vs = refl
  called_func (simple fn) i vs = refl
  called_func (configured cfg fn) i [] = refl
  called_func (configured cfg fn) i (v ∷ vs) = refl

  execute-called :
      (k : Chosen D V F) (p : CommandProps D V F) (w : Option (ConfigWrapper V)) (h : Heap V)
      (i : Input D)
      → Holds k p
      → execute h (with_wrapper p w) i ≡ called k i (arguments h w)
  unfolding execute with_wrapper
  execute-called k p w h i (cfg, f) = rw (f, execute) (called_func k i (arguments h w))

  -- A command whose last function setter is `Func` has no configuration: it is built whatever `Read`
  -- does, nothing is read or locked, and executing it calls the function.
  pub execute-func :
      (read : Read V) (xs : List (Setter D V F)) (fn : Input D → Execution V F) (s : Plugins V)
      → chosen xs unset ≡ simple fn
      → let p = set_props xs new_command_props_builder in
        (c : DefaultCommand D V F) × (build_command read p s ≡ (s, ok c))
        × ((h : Heap V) (i : Input D) → execute h c i ≡ fn i)
  unfolding build_command called
  execute-func read xs fn s e =
      let p = set_props xs new_command_props_builder in
      let holds = subst (λ (k : Chosen D V F). Holds k p) e (collected-Holds xs) in
      (
        with_wrapper p none,
        rw (holds.0, build_command),
        λ h i. execute-called (simple fn) p none h i holds,
      )

  build_command-load :
      (read : Read V) (p : CommandProps D V F) (cfg : Config V) (s : Plugins V)
      → p.config ≡ some cfg
      → let (s', r) = load_config read p.bot_type p.identifier cfg s in
        build_command read p s ≡ (s', wrapped_command p r)
  unfolding build_command
  build_command-load read p cfg s e = ap (λ (o : Option (Config V)). build_with read p o s) e

  -- A command whose last function setter is `ConfigurableFunc` with a configuration: if `Read`
  -- succeeds or finds no configuration, the command is built, and executing it then calls the
  -- function with the configuration as it was read, or as it was if a value was not found.
  pub execute-configurable_func :
      (read : Read V) (xs : List (Setter D V F)) (p : CommandProps D V F) (cfg : Config V)
      (fn : Input D → V → Execution V F) (s : Plugins V) (i : Input D)
      → p ≡ set_props xs new_command_props_builder
      → chosen xs unset ≡ configured (some cfg) fn
      → Acceptable read p.bot_type p.identifier (read p.bot_type p.identifier (deref s.heap cfg)).1
      → let (s', r) = build_command read p s in
        (c : DefaultCommand D V F) × (r ≡ ok c)
        × (execute s'.heap c i ≡ fn i (seen read p.bot_type p.identifier cfg s.heap))
  unfolding called arguments wrapped_command
  execute-configurable_func read xs p cfg fn s i q e h =
      let holds =
        subst (λ (k : Chosen D V F). Holds k p) e
          (subst (λ (r : CommandProps D V F). Holds (chosen xs unset) r) (sym q)
            (collected-Holds xs)) in
      let (w, built, value, mutex, kind) =
        load_config_accepted read p.bot_type p.identifier cfg s h in
      let s' = (load_config read p.bot_type p.identifier cfg s).0 in
      rw (build_command-load read p cfg s holds.0) (
        with_wrapper p (some w),
        ap (wrapped_command p) built,
        execute-called (configured (some cfg) fn) p (some w) s'.heap i holds ∙ ap (fn i) value,
      )

  -- Any other error of `Read` is the result of building a command with a configuration, wrapped.
  pub build_command_refused :
      (read : Read V) (p : CommandProps D V F) (cfg : Config V) (s : Plugins V) (x : Error)
      → p.config ≡ some cfg
      → (read p.bot_type p.identifier (deref s.heap cfg)).1 ≡ some x
      → is_not_found x ≡ false
      → (build_command read p s).1 ≡ err (read_failed p.bot_type p.identifier x)
  unfolding wrapped_command
  build_command_refused read p cfg s x q e h =
      ap (λ (r : Plugins V × Result Error (DefaultCommand D V F)). r.1)
        (build_command-load read p cfg s q)
      ∙ ap (wrapped_command p) (load_config_refused read p.bot_type p.identifier cfg s x e h)

  -- `ConfigurableFunc` with a nil configuration passes `Build`, and the command that comes of it
  -- panics on every input.
  pub execute-configurable_nil :
      (read : Read V) (xs : List (Setter D V F)) (fn : Input D → V → Execution V F) (s : Plugins V)
      → chosen xs unset ≡ configured none fn
      → let p = set_props xs new_command_props_builder in
        (c : DefaultCommand D V F) × (build_command read p s ≡ (s, ok c))
        × ((h : Heap V) (i : Input D) → execute h c i ≡ panics)
  unfolding build_command called arguments
  execute-configurable_nil read xs fn s e =
      let p = set_props xs new_command_props_builder in
      let holds = subst (λ (k : Chosen D V F). Holds k p) e (collected-Holds xs) in
      (
        with_wrapper p none,
        rw (holds.0, build_command),
        λ h i. execute-called (configured none fn) p none h i holds,
      )
