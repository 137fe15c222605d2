-- ===== src/Watchers.antt =====
-- watchers/filewatcher.go: the subscriptions that the goroutine of `run` owns. A callback is named by a
-- number; `add` is what `Add` of the file system watcher answers for a directory.
pub mod Events
pub mod Unsubscribing
pub mod ConfigFiles
pub mod Loop
mod Examples
use go_sarah.Shared.{
  ℕ, zero, suc, ◌+◌, ◌-◌, ◌*◌, ◌/◌, ◌%◌, ◌≤◌, ◌<◌, ◌≡◌, refl, sym, ap, subst, ◌∙◌, fun_ext, ◌≢◌,
  ◌↔◌, ◌⊎◌, inl, inr, Bool, true, false, not, ◌&&◌, ◌||◌, Option, none, some, List, [], ◌∷◌, ◌++◌,
  map, append-nil, append_assoc, map-append, reverse, reverse_aux, reverse-reverse, arith,
  add_assoc, add_comm, add-zero, ltb, leb, nat_beq, if◌then◌else◌, nat_beq_iff, if_same, Bool-cases,
  Option-cases, is_nil, Eq, ◌==◌, nat_eq, ==_iff, ==_self, length, get_elem?, set, index_func, keep,
  any, tally, tally-append, tally_middle, length-append, keep-append, All, All-append, Text, codes,
  text_beq, text_eq, is_empty, Lacks, split_unique, Map, lookup, insert, delete, lookup-insert,
  lookup-delete, Result, ok, err, Outcome, returns, panics,
}
use go_sarah.Errors.{Error, already_subscribing}

pub record Subscription : Type 0 where
  pub bot_type : Text
  pub id : Text
  pub abs_dir : Text
  pub callback : ℕ

abbrev pub Subscriptions : Type 0
Subscriptions = Map Text (List Subscription)

-- What follows the directory's own subscription: an identifier is subscribed once.
appended : List Subscription → Subscription → Subscriptions → Subscriptions × Option Error
appended watches s m =
    if any (λ w. w.id == s.id) watches
    then (m, some already_subscribing)
    else (insert s.abs_dir (watches ++ s ∷ []) m, none)

added : Option Error → Subscription → Subscriptions → Subscriptions × Option Error
unfolding appended
added (some e) s m = (m, some e)
added none s m = appended [] s m

subscribed :
    (Text → Option Error)
    → Option (List Subscription)
    → Subscription
    → Subscriptions
    → Subscriptions × Option Error
unfolding added appended
subscribed add none s m = added (add s.abs_dir) s m
subscribed add (some watches) s m = appended watches s m

-- `doSubscribe`.
unfoldable pub do_subscribe :
    (Text → Option Error) → Subscription → Subscriptions → Subscriptions × Option Error
unfolding subscribed
do_subscribe add s m = subscribed add (lookup s.abs_dir m) s m

-- The loop of `doHandleEvent`: the callbacks that it calls.
unfoldable pub called : Text → List Subscription → List ℕ
called id [] = []
called id (w ∷ ws) = let rest = called id ws in if w.id == id then w.callback ∷ rest else rest

watched : Text → Option (List Subscription) → List ℕ
unfolding called
watched id none = []
watched id (some watches) = called id watches

-- `doHandleEvent`, for the directory and the identifier that `plainPathToFile` finds.
unfoldable pub handle_event : Text → Text → Subscriptions → List ℕ
unfolding watched
handle_event dir id m = watched id (lookup dir m)

-- The subscriptions in the order in which `run` receives them.
unfoldable pub subscribe_all :
    (Text → Option Error) → List Subscription → Subscriptions → Subscriptions
subscribe_all add [] m = m
subscribe_all add (s ∷ ss) m = subscribe_all add ss (do_subscribe add s m).0

kept : Text → List Subscription → Subscriptions → Subscriptions → Subscriptions
kept dir [] rest after = rest
kept dir (r ∷ remains) rest after = (dir, r ∷ remains) ∷ after

-- `doUnsubscribe`, for the entries in the order in which the range over the map gives them: the loop
-- returns at the first directory of which nothing remains.
unfoldable pub do_unsubscribe : Text → Subscriptions → Subscriptions
unfolding kept
do_unsubscribe b [] = []
do_unsubscribe b ((dir, ws) ∷ rest) =
    kept dir (keep (λ w. not (w.bot_type == b)) ws) rest (do_unsubscribe b rest)
