-- ===== src/Runner/Plugins/Watching.antt =====
-- The calls of `Watch` in `registerCommands` and `registerScheduledTasks`, with the callbacks, and what a
-- change of a configuration file then updates. The callback of a call is named by its place.
mod Examples
use go_sarah.Shared.{
  ℕ, zero, suc, ◌+◌, ◌-◌, ◌*◌, ◌/◌, ◌%◌, ◌≤◌, ◌<◌, ◌≡◌, refl, sym, ap, subst, ◌∙◌, fun_ext, ◌≢◌,
  ◌↔◌, ◌⊎◌, inl, inr, Bool, true, false, not, ◌&&◌, ◌||◌, Option, none, some, List, [], ◌∷◌, ◌++◌,
  map, append-nil, append_assoc, map-append, reverse, reverse_aux, reverse-reverse, arith,
  add_assoc, add_comm, add-zero, ltb, leb, nat_beq, if◌then◌else◌, nat_beq_iff, if_same, Bool-cases,
  Option-cases, is_nil, Eq, ◌==◌, nat_eq, ==_iff, ==_self, length, get_elem?, set, index_func, keep,
  any, tally, tally-append, tally_middle, length-append, keep-append, All, All-append, Text, codes,
  text_beq, text_eq, is_empty, Lacks, Lacks-append, split_unique, Map, lookup, insert, delete,
  lookup-insert, lookup-delete, Result, ok, err, Outcome, returns, panics, is_space, trim_left,
  trim_space, IsTrimmed, Blank, trim_space-surrounded, is_empty-IsTrimmed, lower, to_lower,
}
use go_sarah.Errors.{Error}
use go_sarah.Paths.{slash, join}
use go_sarah.Paths.Parts.{IsPart}
use go_sarah.Paths.Clean.{abs_path}
use go_sarah.Commands.Props.{CommandProps}
use go_sarah.Tasks.{ScheduledTaskProps}
use go_sarah.Watchers.{subscribe_all}
use go_sarah.Watchers.Events.{given}
use go_sarah.Watchers.ConfigFiles.{PluginConfigFile, find_plugin_config_file}
use go_sarah.Watchers.Loop.{handle_path}
use go_sarah.Watchers.Loop.Files.{Call, watch_all, first_call, handle_path-first_call}

-- The two function literals `callback`: each calls `reg` for its properties.
pub data Callback (D V F R : Type 0) : Type 0 where
  update_command : CommandProps D V F → Callback D V F R
  update_task : ScheduledTaskProps V D R → Callback D V F R

module _ {D V F R : Type 0} where
  abbrev pub identifier_of : Callback D V F R → Text
  identifier_of (update_command p) = p.identifier
  identifier_of (update_task p) = p.identifier

  -- The callbacks of a bot in the order of their calls of `Watch`: those of the commands go first.
  unfoldable pub callbacks :
      List (CommandProps D V F) → List (ScheduledTaskProps V D R) → List (Callback D V F R)
  callbacks ps ts = map update_command ps ++ map update_task ts

  -- The calls of `Watch`; `n` names the first callback.
  unfoldable pub watch_calls : Text → ℕ → List (Callback D V F R) → List Call
  watch_calls b n [] = []
  watch_calls b n (c ∷ cs) =
      record { bot_type = b; id = identifier_of c; callback = n } ∷ watch_calls b (n + 1) cs

  -- The callbacks that an event calls, by their names.
  unfoldable pub called_back : List (Callback D V F R) → List ℕ → List (Option (Callback D V F R))
  called_back cs ns = map (λ n. get_elem? cs n) ns

  -- The first callback for an identifier.
  unfoldable pub first_for : Text → List (Callback D V F R) → List (Option (Callback D V F R))
  first_for id [] = []
  first_for id (c ∷ cs) =
      let rest = first_for id cs in if identifier_of c == id then some c ∷ [] else rest

  -- What an event for an identifier updates: the first command with it, and else the first task.
  unfoldable pub updated :
      Text
      → List (CommandProps D V F)
      → List (ScheduledTaskProps V D R)
      → List (Option (Callback D V F R))
  updated id [] [] = []
  updated id [] (t ∷ ts) =
      let rest = updated id [] ts in if t.identifier == id then some (update_task t) ∷ [] else rest
  updated id (p ∷ ps) ts =
      let rest = updated id ps ts in
      if p.identifier == id then some (update_command p) ∷ [] else rest

  first_for-updated :
      (id : Text) (ps : List (CommandProps D V F)) (ts : List (ScheduledTaskProps V D R))
      → first_for id (callbacks ps ts) ≡ updated id ps ts
  unfolding first_for callbacks updated
  first_for-updated id [] [] = refl
  first_for-updated id [] (t ∷ ts) =
      ap (λ l. if t.identifier == id then some (update_task t) ∷ [] else l)
        (first_for-updated id [] ts)
  first_for-updated id (p ∷ ps) ts =
      ap (λ l. if p.identifier == id then some (update_command p) ∷ [] else l)
        (first_for-updated id ps ts)

  get_elem_middle :
      (front : List (Callback D V F R)) (c : Callback D V F R) (cs : List (Callback D V F R))
      → get_elem? (front ++ c ∷ cs) (length front) ≡ some c
  get_elem_middle [] c cs = refl
  get_elem_middle (d ∷ front) c cs = get_elem_middle front c cs

  called_back-first_call :
      (b id : Text) (front cs : List (Callback D V F R)) (n : ℕ)
      → length front ≡ n
      → called_back (front ++ cs) (given (first_call b id (watch_calls b n cs))) ≡ first_for id cs
  unfolding called_back first_call watch_calls first_for
  called_back-first_call b id front [] n h = refl
  called_back-first_call b id front (c ∷ cs) n h = elim (Bool-cases (identifier_of c == id)) [
    | inl this ↦
        rw (==_self b, this)
          (ap (λ k. get_elem? (front ++ c ∷ cs) k ∷ []) (sym h)
            ∙ ap (λ o. o ∷ []) (get_elem_middle front c cs))
    | inr other ↦
        rw (==_self b, other)
          (ap (λ l. called_back l (given (first_call b id (watch_calls b (n + 1) cs))))
              (sym (append_assoc front (c ∷ []) cs))
            ∙ called_back-first_call b id (front ++ c ∷ []) cs (n + 1)
                (omega (arith, h, length-append front (c ∷ []))))
  ]

all_parts :
    {D V F R : Type 0} (b : Text) (n : ℕ) (cs : List (Callback D V F R))
    → IsPart b
    → All (λ c. IsPart c.bot_type) (watch_calls b n cs)
unfolding watch_calls
all_parts b n [] h = tt
all_parts b n (c ∷ cs) h = (h, all_parts b (n + 1) cs h)

module _ {D V F R : Type 0} (cwd : Result Error Text) (base : List Text) (b id : Text) where
  -- For an absolute base directory without empty parts, a bot type that names a directory and has no upper-case letter, and a directory that the file system watcher accepts: after the plugins of the bot were registered, an event for the file from which an identifier's configuration is read updates the first command with this identifier and nothing else; without such a command it updates the first scheduled task with it, and without one nothing.
  pub handle_path-updated :
      (add : Text → Option Error) (exists : Text → Bool) (ps : List (CommandProps D V F))
      (ts : List (ScheduledTaskProps V D R)) (f : PluginConfigFile)
      → All IsPart base
      → IsPart b
      → Lacks slash id
      → to_lower b ≡ b
      → add (join (abs_path base) b) ≡ none
      → find_plugin_config_file cwd exists (join (abs_path base) (to_lower b)) id ≡ some f
      → called_back (callbacks ps ts) (
          handle_path cwd f.abs_path (
            subscribe_all add
              (watch_all cwd (abs_path base) (watch_calls b 0 (callbacks ps ts)))
              []))
        ≡ updated id ps ts
  handle_path-updated add exists ps ts f h k l low accepted found =
      let cs : List (Callback D V F R) = callbacks ps ts in
      ap (called_back cs) (
        handle_path-first_call cwd base b id add exists (watch_calls b 0 cs) f h k l
          (all_parts b 0 cs k) low accepted found)
      ∙ called_back-first_call b id [] cs 0 refl
      ∙ first_for-updated id ps ts
