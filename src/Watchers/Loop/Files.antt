-- ===== src/Watchers/Loop/Files.antt =====
-- `Watch`, `Read` and the events together: a change of the file that `Read` finds for a plugin.
use go_sarah.Shared.{
  ℕ, ◌≡◌, refl, sym, ap, ◌∙◌, Bool, true, false, ◌&&◌, Option, none, some, List, [], ◌∷◌, ◌++◌,
  arith, if◌then◌else◌, ◌==◌, nat_eq, ==_iff, All, All-append, Text, text_eq, Lacks, Result, ok,
  err, to_lower,
}
use go_sarah.Errors.{Error}
use go_sarah.Paths.{slash, abs, join, path_of}
use go_sarah.Paths.Parts.{IsPart}
use go_sarah.Paths.Clean.{abs_path}
use go_sarah.Paths.Files.{file_path, file_path-abs_path, abs-file_path}
use go_sarah.Watchers.{Subscription, subscribe_all, handle_event}
use go_sarah.Watchers.Events.{given, first_callback, handle_event-first_callback}
use go_sarah.Watchers.ConfigFiles.{
  PluginConfigFile, find_plugin_config_file, plain_path_to_file, config_file_candidates,
}
use go_sarah.Watchers.ConfigFiles.Found.{
  candidates, first_existing, find_plugin_config_file-first_existing, plain_path_to_file-the_file,
  join-abs_path,
}
use go_sarah.Watchers.ConfigFiles.Reading.{first_existing-the_file}
use go_sarah.Watchers.Loop.{watch, sent, handle_path, located}

-- A call of `Watch`.
pub record Call : Type 0 where
  pub bot_type : Text
  pub id : Text
  pub callback : ℕ

-- The subscriptions that calls of `Watch` send.
enqueued : Result Error Subscription → List Subscription → List Subscription
enqueued (err e) rest = rest
enqueued (ok s) rest = s ∷ rest

unfoldable pub watch_all : Result Error Text → Text → List Call → List Subscription
unfolding enqueued
watch_all cwd base [] = []
watch_all cwd base (c ∷ cs) =
    enqueued (watch cwd base c.bot_type c.id c.callback) (watch_all cwd base cs)

-- The callback of the first call for a bot type and an identifier.
unfoldable pub first_call : Text → Text → List Call → Option ℕ
first_call b id [] = none
first_call b id (c ∷ cs) =
    let rest = first_call b id cs in
    if (c.bot_type == b) && (c.id == id) then some c.callback else rest

abbrev subscription_of : List Text → Call → Subscription
subscription_of ps c = record {
  bot_type = c.bot_type;
  id = c.id;
  abs_dir = file_path ps c.bot_type;
  callback = c.callback;
}

watch-subscription_of :
    (cwd : Result Error Text) (ps : List Text) (c : Call)
    → All IsPart ps
    → IsPart c.bot_type
    → watch cwd (abs_path ps) c.bot_type c.id c.callback ≡ ok (subscription_of ps c)
unfolding watch sent
watch-subscription_of cwd ps c h k =
    ap (sent c.bot_type c.id c.callback)
      (ap (abs cwd) (join-abs_path ps c.bot_type h k) ∙ abs-file_path cwd ps c.bot_type h k)

same_tail : (xs ys zs : Text) → xs ++ ys ≡ xs ++ zs → ys ≡ zs
same_tail [] ys zs e = e
same_tail (x ∷ xs) ys zs e = same_tail xs ys zs (cc)

file_path-injective : (ps : List Text) (x y : Text) → (file_path ps x == file_path ps y) ≡ (x == y)
file_path-injective ps x y =
    let back : file_path ps x ≡ file_path ps y → x ≡ y =
      λ e. cc (same_tail (path_of ps) (slash ∷ x) (slash ∷ y) e) in
    ground (arith, back, ==_iff (file_path ps x) (file_path ps y), ==_iff x y)

module _ (cwd : Result Error Text) (ps : List Text) (b id : Text) where
  first_callback-some :
      (ss : List Subscription) (c : ℕ) → first_callback (file_path ps b) id ss (some c) ≡ some c
  unfolding first_callback
  first_callback-some ss c = refl

  first_callback-first_call :
      (cs : List Call)
      → All IsPart ps
      → All (λ c. IsPart c.bot_type) cs
      → first_callback (file_path ps b) id (watch_all cwd (abs_path ps) cs) none
        ≡ first_call b id cs
  unfolding first_callback watch_all enqueued first_call
  first_callback-first_call [] h k = refl
  first_callback-first_call (c ∷ cs) h (k, ks) =
      ap
        (λ r. first_callback (file_path ps b) id (enqueued r (watch_all cwd (abs_path ps) cs)) none)
        (watch-subscription_of cwd ps c h k)
      ∙ ap
          (λ x.
            first_callback (file_path ps b) id (watch_all cwd (abs_path ps) cs)
              (if x && (c.id == id) then some c.callback else none))
          (file_path-injective ps c.bot_type b)
      ∙ by_test ((c.bot_type == b) && (c.id == id)) (first_callback-first_call cs h ks)
    where
      by_test :
          (t : Bool)
          → first_callback (file_path ps b) id (watch_all cwd (abs_path ps) cs) none
            ≡ first_call b id cs
          → first_callback
              (file_path ps b)
              id
              (watch_all cwd (abs_path ps) cs)
              (if t then some c.callback else none)
            ≡ (if t then some c.callback else first_call b id cs)
      by_test true ih = first_callback-some (watch_all cwd (abs_path ps) cs) c.callback
      by_test false ih = ih

  -- For an absolute base directory without empty parts, bot types that name directories and an identifier without a slash, after any calls of `Watch` whose directories the file system watcher accepts: when the bot type has no upper-case letter, an event for the file that `Read` finds for the plugin calls the callback of the first call for this bot type and identifier, once, and no other; without such a call it calls none.
  pub handle_path-first_call :
      (add : Text → Option Error) (exists : Text → Bool) (cs : List Call) (f : PluginConfigFile)
      → All IsPart ps
      → IsPart b
      → Lacks slash id
      → All (λ c. IsPart c.bot_type) cs
      → to_lower b ≡ b
      → add (join (abs_path ps) b) ≡ none
      → find_plugin_config_file cwd exists (join (abs_path ps) (to_lower b)) id ≡ some f
      → handle_path cwd f.abs_path (subscribe_all add (watch_all cwd (abs_path ps) cs) [])
        ≡ given (first_call b id cs)
  unfolding handle_path located
  handle_path-first_call add exists cs f h k l ks low accepted found =
      let dir : join (abs_path ps) b ≡ file_path ps b = join-abs_path ps b h k in
      let parts = All-append IsPart ps (b ∷ []) h (k, tt) in
      let m = subscribe_all add (watch_all cwd (abs_path ps) cs) [] in
      let at : first_existing exists (ps ++ b ∷ []) id config_file_candidates ≡ some f =
        sym (find_plugin_config_file-first_existing cwd exists (ps ++ b ∷ []) id parts l)
        ∙ ap (λ d. find_plugin_config_file cwd exists d id)
            (sym (ap (join (abs_path ps)) low ∙ dir ∙ file_path-abs_path ps b))
        ∙ found in
      let (c, t, same) =
        first_existing-the_file exists (ps ++ b ∷ []) id config_file_candidates f candidates at in
      let back = plain_path_to_file-the_file cwd exists (ps ++ b ∷ []) id c t parts l in
      ap (λ g. located m (plain_path_to_file cwd g.abs_path)) same
      ∙ ap (located m) back
      ∙ ap (λ d. handle_event d id m) (sym (file_path-abs_path ps b))
      ∙ handle_event-first_callback add (file_path ps b) id (watch_all cwd (abs_path ps) cs)
          (ap add (sym dir) ∙ accepted)
      ∙ ap given (first_callback-first_call cs h ks)
