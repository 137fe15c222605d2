-- ===== src/Watchers/Loop.antt =====
-- watchers/filewatcher.go: `Watch`, `Unwatch` and the goroutine of `run`, which owns the subscriptions and
-- the directories of the file system watcher. A step is one round of its select.
pub mod Directories
pub mod Subscribing
pub mod Unsubscribing
pub mod Invariant
pub mod Files
mod Examples
use go_sarah.Shared.{
  ℕ, zero, suc, ◌+◌, ◌-◌, ◌*◌, ◌/◌, ◌%◌, ◌≤◌, ◌<◌, ◌≡◌, refl, sym, ap, subst, ◌∙◌, fun_ext, ◌≢◌,
  ◌↔◌, ◌⊎◌, inl, inr, Bool, true, false, not, ◌&&◌, ◌||◌, Option, none, some, List, [], ◌∷◌, ◌++◌,
  map, append-nil, append_assoc, map-append, reverse, reverse_aux, reverse-reverse, arith,
  add_assoc, add_comm, add-zero, ltb, leb, nat_beq, if◌then◌else◌, nat_beq_iff, if_same, Bool-cases,
  Option-cases, is_nil, Eq, ◌==◌, nat_eq, ==_iff, ==_self, length, get_elem?, set, index_func, keep,
  any, tally, tally-append, tally_middle, length-append, keep-append, All, All-append, Text, codes,
  text_beq, text_eq, is_empty, Lacks, Lacks-append, split_unique, Map, lookup, insert, delete,
  lookup-insert, lookup-delete, Result, ok, err, Outcome, returns, panics,
}
use go_sarah.Errors.{Error, wrapped, watcher_not_running}
use go_sarah.Paths.{abs, join}
use go_sarah.Watchers.{Subscription, Subscriptions, do_subscribe, do_unsubscribe, handle_event}
use go_sarah.Watchers.ConfigFiles.{PathError, PluginConfigFile, plain_path_to_file}

sent : Text → Text → ℕ → Result Error Text → Result Error Subscription
sent b id callback (err e) =
    err (wrapped (codes "failed to construct absolute config absPath for " ++ b) e)
sent b id callback (ok dir) =
    ok (record { bot_type = b; id = id; abs_dir = dir; callback = callback })

-- The subscription that `Watch` sends, or its error.
unfoldable pub watch : Result Error Text → Text → Text → Text → ℕ → Result Error Subscription
unfolding sent
watch cwd base b id callback = sent b id callback (abs cwd (join base b))

located : Subscriptions → Result PathError PluginConfigFile → List ℕ
located m (err e) = []
located m (ok f) = handle_event f.abs_dir f.id m

-- `doHandleEvent` for the path of an event: the callbacks that it calls.
unfoldable pub handle_path : Result Error Text → Text → Subscriptions → List ℕ
unfolding located
handle_path cwd path m = located m (plain_path_to_file cwd path)

-- `fsnotify.Event`, with the two bits of its operation that are tested.
pub record Event : Type 0 where
  pub name : Text
  pub write : Bool
  pub create : Bool

-- The case of an event.
unfoldable pub receive : Result Error Text → Event → Subscriptions → List ℕ
receive cwd event m =
    let called = handle_path cwd event.name m in if event.write || event.create then called else []

-- What `run` owns; `dirs` are the directories that the file system watcher watches, and `closed` is
-- whether the channel of `Unwatch` is closed.
pub record FileWatcher : Type 0 where
  pub subscriptions : Subscriptions
  pub dirs : List Text
  pub closed : Bool

abbrev pub new_file_watcher : FileWatcher
new_file_watcher = record { subscriptions = []; dirs = []; closed = false }

accepted : Option Error → Text → List Text → List Text
accepted none dir dirs = dir ∷ dirs
accepted (some e) dir dirs = dirs

-- The call of `Add` in `doSubscribe`.
unfoldable pub add_dir :
    (Text → Option Error) → Option (List Subscription) → Text → List Text → List Text
unfolding accepted
add_dir add none dir dirs = accepted (add dir) dir dirs
add_dir add (some watches) dir dirs = dirs

-- The call of `Remove` in `doUnsubscribe`.
removed : Text → List Subscription → Option Text → Option Text
removed dir [] rest = some dir
removed dir (w ∷ remains) rest = rest

unfoldable pub removed_dir : Text → Subscriptions → Option Text
unfolding removed
removed_dir b [] = none
removed_dir b ((dir, ws) ∷ rest) =
    removed dir (keep (λ w. not (w.bot_type == b)) ws) (removed_dir b rest)

unfoldable pub remove_dir : Option Text → List Text → List Text
remove_dir none dirs = dirs
remove_dir (some dir) dirs = keep (λ d. not (d == dir)) dirs

-- No directory has two entries.
abbrev pub Distinct : Subscriptions → Type 0
Distinct [] = Unit {0}
Distinct ((dir, ws) ∷ m) = (lookup dir m ≡ none) × Distinct m

-- The entries of the map `m` in some order, as a range gives them.
abbrev pub Ranges : Subscriptions → Subscriptions → Type 0
Ranges entries m = Distinct entries × ((dir : Text) → lookup dir entries ≡ lookup dir m)

unfoldable pub subscribe : (Text → Option Error) → Subscription → FileWatcher → FileWatcher
subscribe add s w = record {
  subscriptions = (do_subscribe add s w.subscriptions).0;
  dirs = add_dir add (lookup s.abs_dir w.subscriptions) s.abs_dir w.dirs;
  closed = w.closed;
}

unfoldable pub unsubscribe : Text → Subscriptions → FileWatcher → FileWatcher
unsubscribe b entries w = record {
  subscriptions = do_unsubscribe b entries;
  dirs = remove_dir (removed_dir b entries) w.dirs;
  closed = w.closed;
}

unfoldable pub close : FileWatcher → FileWatcher
close w = record { subscriptions = w.subscriptions; dirs = []; closed = true }

-- One round of the select of `run`, with the callbacks that it calls.
pub data Step (cwd : Result Error Text) : FileWatcher → List ℕ → FileWatcher → Type 0 where
  context_done : (w : FileWatcher) → w.closed ≡ false → Step cwd w [] (close w)
  received :
      (event : Event) (w : FileWatcher)
      → w.closed ≡ false
      → Step cwd w (receive cwd event w.subscriptions) w
  subscribed :
      (add : Text → Option Error) (s : Subscription) (w : FileWatcher)
      → w.closed ≡ false
      → Step cwd w [] (subscribe add s w)
  unsubscribed :
      (b : Text) (entries : Subscriptions) (w : FileWatcher)
      → w.closed ≡ false
      → Ranges entries w.subscriptions
      → Step cwd w [] (unsubscribe b entries w)
  failed : (e : Error) (w : FileWatcher) → w.closed ≡ false → Step cwd w [] w

-- The rounds of `run`, with all the callbacks in their order.
pub data Run (cwd : Result Error Text) : FileWatcher → List ℕ → FileWatcher → Type 0 where
  started : (w : FileWatcher) → Run cwd w [] w
  then_step :
      {v w u : FileWatcher} {cs ds : List ℕ}
      → Run cwd v cs w
      → Step cwd w ds u
      → Run cwd v (cs ++ ds) u

-- `Unwatch`: what it answers, `none` where it waits for `run` to take the bot type.
unfoldable pub unwatch : FileWatcher → Option Error
unwatch w = if w.closed then some watcher_not_running else none
