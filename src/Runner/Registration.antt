-- ===== src/Runner/Registration.antt =====
-- runner.go: the options that are stashed before `Run`, what `newRunner` makes of them, and `Run`.
pub mod Options
pub mod Starting
use go_sarah.Shared.{
  ℕ, zero, suc, ◌+◌, ◌-◌, ◌*◌, ◌/◌, ◌%◌, ◌≤◌, ◌<◌, ◌≡◌, refl, sym, ap, subst, ◌∙◌, fun_ext, ◌≢◌,
  ◌↔◌, ◌⊎◌, inl, inr, Bool, true, false, not, ◌&&◌, ◌||◌, Option, none, some, List, [], ◌∷◌, ◌++◌,
  map, append-nil, append_assoc, map-append, arith, add_assoc, add_comm, add-zero, ltb, leb,
  nat_beq, if◌then◌else◌, nat_beq_iff, if_same, Bool-cases, Option-cases, is_nil, Eq, ◌==◌, nat_eq,
  ==_iff, ==_self, length, get_elem?, set, index_func, keep, any, tally, tally-append, tally_middle,
  length-append, keep-append, All, All-append, Text, codes, text_beq, text_eq, is_empty, Lacks,
  split_unique, Map, lookup, insert, delete, lookup-insert, lookup-delete, Result, ok, err, Outcome,
  returns, panics,
}
use go_sarah.Errors.{Error, wrapped}

-- What the registering functions are given. The properties name their bot type themselves.
pub record Kinds : Type 1 where
  pub Bot : Type 0
  pub Command : Type 0
  pub CommandProps : Type 0
  pub Task : Type 0
  pub TaskProps : Type 0
  pub Alerter : Type 0
  pub Watcher : Type 0
  pub Worker : Type 0
  pub Supervisor : Type 0
  pub command_bot_type : CommandProps → Text
  pub task_bot_type : TaskProps → Text

-- A call of one of the registering functions: the option that `options.register` stashes.
pub data Registration (k : Kinds) : Type 0 where
  alerter : k.Alerter → Registration k
  bot : k.Bot → Registration k
  command : Text → k.Command → Registration k
  command_props : k.CommandProps → Registration k
  scheduled_task : Text → k.Task → Registration k
  scheduled_task_props : k.TaskProps → Registration k
  config_watcher : k.Watcher → Registration k
  worker : k.Worker → Registration k
  bot_error_supervisor : k.Supervisor → Registration k

-- The struct `runner`; without a registered watcher it has the `nullConfigWatcher`. `L` stands for
-- the `time.Location` of the scheduler.
pub record Runner (k : Kinds) (L : Type 0) : Type 0 where
  pub bots : List k.Bot
  pub worker : Option k.Worker
  pub config_watcher : k.Watcher
  pub commands : Map Text (List k.Command)
  pub command_props : Map Text (List k.CommandProps)
  pub scheduled_tasks : Map Text (List k.Task)
  pub scheduled_task_props : Map Text (List k.TaskProps)
  pub alerters : List k.Alerter
  pub location : L
  pub supervise_error : Option k.Supervisor

module _ {ℓ} {A : Type ℓ} where
  -- The list of a bot type, empty if there is none: `botCommands` and its like.
  abbrev pub listed : Option (List A) → List A
  listed none = []
  listed (some items) = items

  unfoldable pub bot_items : Text → Map Text (List A) → List A
  bot_items b m = listed (lookup b m)

  unfoldable pub add_item : Text → A → Map Text (List A) → Map Text (List A)
  unfolding bot_items
  add_item b a m = insert b (bot_items b m ++ a ∷ []) m

unfoldable pub default_worker {ℓ} : {W : Type ℓ} → W → Option W → W
default_worker w none = w
default_worker w (some registered) = registered

unfoldable pub bad_timezone : Text → Error → Error
bad_timezone tz e =
    wrapped (codes "given timezone \"" ++ (tz ++ codes "\" cannot be converted to time.Location")) e

module _ {k : Kinds} {L : Type 0} where
  -- The function literals of the registering functions.
  unfoldable pub apply_option : Registration k → Runner k L → Runner k L
  apply_option (alerter a) r = record r { alerters = r.alerters ++ a ∷ [] }
  apply_option (bot b) r = record r { bots = r.bots ++ b ∷ [] }
  apply_option (command b c) r = record r { commands = add_item b c r.commands }
  apply_option (command_props p) r = record r {
    command_props = add_item (k.command_bot_type p) p r.command_props;
  }
  apply_option (scheduled_task b t) r = record r {
    scheduled_tasks = add_item b t r.scheduled_tasks;
  }
  apply_option (scheduled_task_props p) r = record r {
    scheduled_task_props = add_item (k.task_bot_type p) p r.scheduled_task_props;
  }
  apply_option (config_watcher w) r = record r { config_watcher = w }
  apply_option (worker w) r = record r { worker = some w }
  apply_option (bot_error_supervisor f) r = record r { supervise_error = some f }

  -- `optionHolder.apply`, for the options in the order in which they were registered.
  unfoldable pub apply : List (Registration k) → Runner k L → Runner k L
  apply [] r = r
  apply (x ∷ xs) r = apply xs (apply_option x r)

  -- The runner before the options.
  unfoldable pub empty_runner : k.Watcher → L → Runner k L
  empty_runner null loc = record {
    bots = [];
    worker = none;
    config_watcher = null;
    commands = [];
    command_props = [];
    scheduled_tasks = [];
    scheduled_task_props = [];
    alerters = [];
    location = loc;
    supervise_error = none;
  }

  unfoldable pub with_worker : k.Worker → Runner k L → Runner k L
  unfolding default_worker
  with_worker w r = record r { worker = some (default_worker w r.worker) }

  unfoldable pub located :
      k.Watcher
      → k.Worker
      → List (Registration k)
      → Text
      → Result Error L
      → Result Error (Runner k L)
  unfolding with_worker bad_timezone
  located null w xs tz (ok loc) = ok (with_worker w (apply xs (empty_runner null loc)))
  located null w xs tz (err e) = err (bad_timezone tz e)

  -- `newRunner`: `load` is `time.LoadLocation`, and `w` the worker that `worker.Run` starts.
  unfoldable pub new_runner :
      (Text → Result Error L)
      → k.Watcher
      → k.Worker
      → List (Registration k)
      → Text
      → Result Error (Runner k L)
  unfolding located
  new_runner load null w xs tz = located null w xs tz (load tz)
