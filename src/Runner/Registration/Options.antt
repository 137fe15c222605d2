-- ===== src/Runner/Registration/Options.antt =====
-- The runner that the options make, against the lists of what was registered.
use go_sarah.Shared.{
  ◌≡◌, refl, sym, ap, ◌∙◌, Bool, true, false, Option, none, some, List, [], ◌∷◌, ◌++◌, append-nil,
  append_assoc, if◌then◌else◌, ◌==◌, nat_eq, ==_iff, Text, text_eq, Map, lookup, lookup-insert,
  Result, ok,
}
use go_sarah.Errors.{Error}
use go_sarah.Runner.Registration.{
  Kinds, Registration, Runner, apply, apply_option, add_item, bot_items, listed, empty_runner,
  new_runner, located, with_worker, default_worker, alerter, bot, command, command_props,
  scheduled_task, scheduled_task_props, config_watcher, worker, bot_error_supervisor,
}

abbrev pub given {ℓ} : {Y : Type ℓ} → Option Y → List Y
given none = []
given (some y) = y ∷ []

-- What a selection takes of a list, in its order.
abbrev pub collect {ℓ κ} : {X : Type ℓ} {Y : Type κ} → (X → Option Y) → List X → List Y
collect f [] = []
collect f (x ∷ xs) = given (f x) ++ collect f xs

abbrev pub last {ℓ} : {Y : Type ℓ} → Y → List Y → Y
last y [] = y
last y (z ∷ zs) = last z zs

module _ {k : Kinds} where
  abbrev pub bot_of : Registration k → Option k.Bot
  bot_of (bot b) = some b
  bot_of _ = none

  abbrev pub alerter_of : Registration k → Option k.Alerter
  alerter_of (alerter a) = some a
  alerter_of _ = none

  abbrev pub command_of : Text → Registration k → Option k.Command
  command_of b (command b' c) = if b' == b then some c else none
  command_of b _ = none

  abbrev pub command_props_of : Text → Registration k → Option k.CommandProps
  command_props_of b (command_props p) = if k.command_bot_type p == b then some p else none
  command_props_of b _ = none

  abbrev pub task_of : Text → Registration k → Option k.Task
  task_of b (scheduled_task b' t) = if b' == b then some t else none
  task_of b _ = none

  abbrev pub task_props_of : Text → Registration k → Option k.TaskProps
  task_props_of b (scheduled_task_props p) = if k.task_bot_type p == b then some p else none
  task_props_of b _ = none

  abbrev pub worker_of : Registration k → Option k.Worker
  worker_of (worker w) = some w
  worker_of _ = none

  abbrev pub supervisor_of : Registration k → Option (Option k.Supervisor)
  supervisor_of (bot_error_supervisor f) = some (some f)
  supervisor_of _ = none

  abbrev pub watcher_of : Registration k → Option k.Watcher
  watcher_of (config_watcher w) = some w
  watcher_of _ = none

listed_if :
    {A : Type 0} (c : Bool) (a : A) (items : List A) (o : Option (List A))
    → (c ≡ true → items ≡ listed o)
    → listed (if c then some (items ++ a ∷ []) else o)
      ≡ listed o ++ given (if c then some a else none)
listed_if true a items o h = rw (h refl)
listed_if false a items o h = sym (append-nil (listed o))

bot_items-add_item :
    {A : Type 0} (b b' : Text) (a : A) (m : Map Text (List A))
    → bot_items b (add_item b' a m) ≡ bot_items b m ++ given (if b' == b then some a else none)
unfolding bot_items add_item
bot_items-add_item b b' a m =
    ap listed (lookup-insert b' b (bot_items b' m ++ a ∷ []) m)
    ∙ listed_if (b' == b) a (bot_items b' m) (lookup b m)
        (λ same. ap (λ c. bot_items c m) ((==_iff b' b).0 same))

module _ {k : Kinds} {L : Type 0} where
  -- A field to which each option adds.
  apply-collect :
      {Y : Type 0} (field : Runner k L → List Y) (select : Registration k → Option Y)
      → ((x : Registration k) (r : Runner k L)
          → field (apply_option x r) ≡ field r ++ given (select x))
      → (xs : List (Registration k)) (r : Runner k L)
      → field (apply xs r) ≡ field r ++ collect select xs
  unfolding apply
  apply-collect field select h [] r = sym (append-nil (field r))
  apply-collect field select h (x ∷ xs) r =
      apply-collect field select h xs (apply_option x r)
      ∙ (ap (λ ys. ys ++ collect select xs) (h x r)
          ∙ append_assoc (field r) (given (select x)) (collect select xs))

  -- A field that the options overwrite.
  apply-last :
      {Y : Type 0} (field : Runner k L → Y) (select : Registration k → Option Y)
      → ((x : Registration k) (r : Runner k L)
          → field (apply_option x r) ≡ last (field r) (given (select x)))
      → (xs : List (Registration k)) (r : Runner k L)
      → field (apply xs r) ≡ last (field r) (collect select xs)
  unfolding apply
  apply-last field select h [] r = refl
  apply-last field select h (x ∷ xs) r =
      apply-last field select h xs (apply_option x r)
      ∙ (ap (λ y. last y (collect select xs)) (h x r)
          ∙ last_given (field r) (select x) (collect select xs))
    where
      last_given :
          {Z : Type 0} (y : Z) (o : Option Z) (zs : List Z)
          → last (last y (given o)) zs ≡ last y (given o ++ zs)
      last_given y none zs = refl
      last_given y (some z) zs = refl

  step-bots :
      (x : Registration k) (r : Runner k L) → (apply_option x r).bots ≡ r.bots ++ given (bot_of x)
  unfolding apply_option
  step-bots (bot b) r = refl
  step-bots _ r = sym (append-nil r.bots)

  step-alerters :
      (x : Registration k) (r : Runner k L)
      → (apply_option x r).alerters ≡ r.alerters ++ given (alerter_of x)
  unfolding apply_option
  step-alerters (alerter a) r = refl
  step-alerters _ r = sym (append-nil r.alerters)

  step-commands :
      (b : Text) (x : Registration k) (r : Runner k L)
      → bot_items b (apply_option x r).commands ≡ bot_items b r.commands ++ given (command_of b x)
  unfolding apply_option
  step-commands b (command b' c) r = bot_items-add_item b _ _ r.commands
  step-commands b _ r = sym (append-nil (bot_items b r.commands))

  step-command_props :
      (b : Text) (x : Registration k) (r : Runner k L)
      → bot_items b (apply_option x r).command_props
        ≡ bot_items b r.command_props ++ given (command_props_of b x)
  unfolding apply_option
  step-command_props b (command_props p) r = bot_items-add_item b _ _ r.command_props
  step-command_props b _ r = sym (append-nil (bot_items b r.command_props))

  step-scheduled_tasks :
      (b : Text) (x : Registration k) (r : Runner k L)
      → bot_items b (apply_option x r).scheduled_tasks
        ≡ bot_items b r.scheduled_tasks ++ given (task_of b x)
  unfolding apply_option
  step-scheduled_tasks b (scheduled_task b' t) r = bot_items-add_item b _ _ r.scheduled_tasks
  step-scheduled_tasks b _ r = sym (append-nil (bot_items b r.scheduled_tasks))

  step-scheduled_task_props :
      (b : Text) (x : Registration k) (r : Runner k L)
      → bot_items b (apply_option x r).scheduled_task_props
        ≡ bot_items b r.scheduled_task_props ++ given (task_props_of b x)
  unfolding apply_option
  step-scheduled_task_props b (scheduled_task_props p) r =
      bot_items-add_item b _ _ r.scheduled_task_props
  step-scheduled_task_props b _ r = sym (append-nil (bot_items b r.scheduled_task_props))

  step-config_watcher :
      (x : Registration k) (r : Runner k L)
      → (apply_option x r).config_watcher ≡ last r.config_watcher (given (watcher_of x))
  unfolding apply_option
  step-config_watcher (config_watcher w) r = refl
  step-config_watcher _ r = refl

  step-supervise_error :
      (x : Registration k) (r : Runner k L)
      → (apply_option x r).supervise_error ≡ last r.supervise_error (given (supervisor_of x))
  unfolding apply_option
  step-supervise_error (bot_error_supervisor f) r = refl
  step-supervise_error _ r = refl

  step-worker :
      (w : k.Worker) (x : Registration k) (r : Runner k L)
      → default_worker w (apply_option x r).worker
        ≡ last (default_worker w r.worker) (given (worker_of x))
  unfolding apply_option default_worker
  step-worker w (worker v) r = refl
  step-worker w _ r = refl

  -- The runner holds what was registered: the bots and the alerters in the order of their registration,
  -- and so for each bot type its commands, its tasks and their properties; of the watchers, the workers
  -- and the supervising functions the one that was registered last, or the default.
  abbrev pub Registered : k.Watcher → k.Worker → List (Registration k) → Text → Runner k L → Type 0
  Registered null w xs b r =
      (r.bots ≡ collect bot_of xs)
      × (r.alerters ≡ collect alerter_of xs)
      × (bot_items b r.commands ≡ collect (command_of b) xs)
      × (bot_items b r.command_props ≡ collect (command_props_of b) xs)
      × (bot_items b r.scheduled_tasks ≡ collect (task_of b) xs)
      × (bot_items b r.scheduled_task_props ≡ collect (task_props_of b) xs)
      × (r.worker ≡ some (last w (collect worker_of xs)))
      × (r.config_watcher ≡ last null (collect watcher_of xs))
      × (r.supervise_error ≡ last none (collect supervisor_of xs))

  located-Registered :
      (null : k.Watcher) (w : k.Worker) (xs : List (Registration k)) (loc : L) (b : Text)
      → Registered null w xs b (with_worker w (apply xs (empty_runner null loc)))
  unfolding with_worker empty_runner bot_items default_worker lookup
  located-Registered null w xs loc b =
      let r : Runner k L = empty_runner null loc in
      (
        apply-collect (λ r. r.bots) bot_of step-bots xs r,
        apply-collect (λ r. r.alerters) alerter_of step-alerters xs r,
        apply-collect (λ r. bot_items b r.commands) (command_of b) (step-commands b) xs r,
        apply-collect (λ r. bot_items b r.command_props) (command_props_of b) (step-command_props b)
            xs r,
        apply-collect (λ r. bot_items b r.scheduled_tasks) (task_of b) (step-scheduled_tasks b) xs
            r,
        apply-collect (λ r. bot_items b r.scheduled_task_props) (task_props_of b)
            (step-scheduled_task_props b) xs r,
        ap some (apply-last (λ r. default_worker w r.worker) worker_of (step-worker w) xs r),
        apply-last (λ r. r.config_watcher) watcher_of step-config_watcher xs r,
        apply-last (λ r. r.supervise_error) supervisor_of step-supervise_error xs r,
      )

  -- If the time zone is known, `newRunner` gives a runner that holds what was registered: the bots and
  -- the alerters in order, for each bot type its commands, its tasks and their properties in order, and
  -- of watchers, workers and supervising functions the last one, or the default.
  pub new_runner-Registered :
      (load : Text → Result Error L) (null : k.Watcher) (w : k.Worker) (xs : List (Registration k))
      (tz : Text) (loc : L) (b : Text)
      → load tz ≡ ok loc
      → (r : Runner k L) × (new_runner load null w xs tz ≡ ok r) × Registered null w xs b r
  unfolding new_runner located
  new_runner-Registered load null w xs tz loc b h = (
    with_worker w (apply xs (empty_runner null loc)),
    ap (located null w xs tz) h,
    located-Registered null w xs loc b,
  )
