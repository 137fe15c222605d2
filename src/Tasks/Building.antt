-- ===== src/Tasks/Building.antt =====
-- What `ScheduledTaskPropsBuilder` and `buildScheduledTask` promise of the task that they make.
use go_sarah.Shared.{
  ℕ, ◌≡◌, ◌⊎◌, Bool, false, Option, none, some, List, [], ◌∷◌, arith, if◌then◌else◌, nat_eq, Text,
  text_eq, is_empty, Result, ok, err,
}
use go_sarah.Errors.{Error, task_schedule_not_given}
use go_sarah.Locker
use go_sarah.Config.{Config, Read, Plugins, ConfigWrapper, Heap, deref}
use go_sarah.Tasks.{
  ConfigMethods, ScheduledTaskProps, BuiltTask, build_scheduled_task, build_with, configured_task,
  scheduled_task, task_of,
}

-- What a configuration's method answers, if there is one, and then what the properties say.
abbrev pub candidates {ℓ} : {A : Type ℓ} → Option A → A → List A
candidates none a = a ∷ []
candidates (some b) a = b ∷ a ∷ []

-- The first text that is not empty.
unfoldable pub first_given : List Text → Text
first_given [] = []
first_given (t ∷ ts) = if is_empty t then first_given ts else t

-- The first value that is there.
unfoldable pub first_some : {A : Type 0} → List (Option A) → Option A
first_some [] = none
first_some (none ∷ os) = first_some os
first_some (some a ∷ os) = some a

module _ {V D C : Type 0} (methods : ConfigMethods V D) (read : Read V) where
  scheduled_task-scheduled :
      (p : ScheduledTaskProps V D C) (s : Text) (d : Option D) (w : Option (ConfigWrapper V))
      (t : BuiltTask V D C)
      → scheduled_task p s d w ≡ ok t
      → is_empty t.schedule ≡ false
  unfolding scheduled_task task_of
  scheduled_task-scheduled p s d w t = ground arith

  configured_task-scheduled :
      (p : ScheduledTaskProps V D C) (t : BuiltTask V D C) (h : Heap V)
      (r : Result Error (ConfigWrapper V))
      → configured_task methods p h r ≡ ok t
      → is_empty t.schedule ≡ false
  unfolding configured_task
  configured_task-scheduled p t h (ok w) e = scheduled_task-scheduled p _ _ _ t e
  configured_task-scheduled p t h (err x) e = absurd (ground (arith, e))

  build_with-scheduled :
      (p : ScheduledTaskProps V D C) (s : Plugins V) (t : BuiltTask V D C) (o : Option (Config V))
      → (build_with methods read p o s).1 ≡ ok t
      → is_empty t.schedule ≡ false
  unfolding build_with
  build_with-scheduled p s t none e = scheduled_task-scheduled p _ _ _ t e
  build_with-scheduled p s t (some cfg) e = configured_task-scheduled p t _ _ e

  -- A task that is built has a schedule, wherever it comes from.
  pub build_scheduled_task-scheduled :
      (p : ScheduledTaskProps V D C) (s : Plugins V) (t : BuiltTask V D C)
      → (build_scheduled_task methods read p s).1 ≡ ok t
      → is_empty t.schedule ≡ false
  unfolding build_scheduled_task
  build_scheduled_task-scheduled p s t = build_with-scheduled p s t p.config

  configured_task-identifier :
      (p : ScheduledTaskProps V D C) (t : BuiltTask V D C) (h : Heap V)
      (r : Result Error (ConfigWrapper V))
      → configured_task methods p h r ≡ ok t
      → t.identifier ≡ p.identifier
  unfolding configured_task scheduled_task task_of
  configured_task-identifier p t h (ok w) e = ground (arith, e)
  configured_task-identifier p t h (err x) e = absurd (ground (arith, e))

  build_with-identifier :
      (p : ScheduledTaskProps V D C) (s : Plugins V) (t : BuiltTask V D C) (o : Option (Config V))
      → (build_with methods read p o s).1 ≡ ok t
      → t.identifier ≡ p.identifier
  unfolding build_with scheduled_task task_of
  build_with-identifier p s t none e = ground (arith, e)
  build_with-identifier p s t (some cfg) e = configured_task-identifier p t _ _ e

  -- A task that is built stands under the identifier of its properties.
  pub build_scheduled_task-identifier :
      (p : ScheduledTaskProps V D C) (s : Plugins V) (t : BuiltTask V D C)
      → (build_scheduled_task methods read p s).1 ≡ ok t
      → t.identifier ≡ p.identifier
  unfolding build_scheduled_task
  build_scheduled_task-identifier p s t = build_with-identifier p s t p.config

  -- The schedules and the destinations of a configuration and of the properties, the first first.
  abbrev pub schedules : ScheduledTaskProps V D C → Bool → V → List Text
  schedules p ptr v = candidates (methods.schedule ptr v) p.schedule

  abbrev pub destinations : ScheduledTaskProps V D C → Bool → V → List (Option D)
  destinations p ptr v = candidates (methods.default_destination ptr v) p.default_destination

  -- What is built of a configuration that was read: `v` is the configuration, `m` its lock.
  abbrev pub BuiltFrom :
      ScheduledTaskProps V D C → Bool → V → ℕ → Heap V → Result Error (BuiltTask V D C) → Type 0
  BuiltFrom p ptr v m h r =
      ((first_given (schedules p ptr v) ≡ []) × (r ≡ err task_schedule_not_given))
      ⊎ ((w : ConfigWrapper V) × (deref h w.value ≡ v)
          × (w.mutex ≡ m)
          × (r
              ≡ ok (record {
                identifier = p.identifier;
                task_func = p.task_func;
                schedule = first_given (schedules p ptr v);
                default_destination = first_some (destinations p ptr v);
                config_wrapper = some w;
              })))
