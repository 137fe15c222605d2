-- ===== src/Tasks/Examples.antt =====
-- A task with a configuration that brings its own schedule.
use go_sarah.Shared.{
  ℕ, ◌+◌, ◌≡◌, refl, none, some, List, [], ◌∷◌, map, if◌then◌else◌, ◌==◌, nat_eq, keep, Text, codes,
  text_eq, ok, returns,
}
use go_sarah.Locker
use go_sarah.Locker.{empty}
use go_sarah.Config.{value, Read, Plugins}
use go_sarah.Tasks.{ConfigMethods, ScheduledTask, ScheduledTaskResult, ScheduledTaskProps}
use go_sarah.Tasks.Delivery.{
  execute_scheduled_task, message_to, own_destination, execute_scheduled_task-results,
}

-- The configurations are numbers; one that is not zero has the schedule `@daily`.
abbrev methods : ConfigMethods ℕ Text
methods = record {
  schedule = λ ptr v. some (if v == 0 then [] else codes "@daily");
  default_destination = λ ptr v. none;
}

abbrev read : Read ℕ
read b id v = (v + 1, none)

abbrev props : ScheduledTaskProps ℕ Text ℕ
props = record {
  bot_type = codes "slack";
  identifier = codes "news";
  task_func = some (λ vs. returns (ok []));
  schedule = [];
  default_destination = some (codes "#general");
  config = some (value 0);
}

abbrev plugins : Plugins ℕ
plugins = record { heap = λ a. 0; locker = empty }

abbrev results : List (ScheduledTaskResult Text ℕ)
results =
    record { content = 1; destination = none }
    ∷ record { content = 2; destination = some (codes "#news") }
    ∷ []

abbrev task : ScheduledTask Text ℕ
task = record {
  identifier = codes "news";
  execute = returns (ok results);
  default_destination = none;
  schedule = codes "@daily";
}

execute_scheduled_task-results_example :
    execute_scheduled_task task ≡ returns (map (message_to []) (keep own_destination results))
execute_scheduled_task-results_example = execute_scheduled_task-results task results [] refl
