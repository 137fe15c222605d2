-- ===== src/Config.antt =====
-- Reading a plugin's configuration: the part that buildCommand (command.go) and buildScheduledTask
-- (task.go) share. `V` stands for the configuration structs.
pub mod Reading
use go_sarah.Shared.{
  ℕ, zero, suc, ◌+◌, ◌-◌, ◌*◌, ◌/◌, ◌%◌, ◌≤◌, ◌<◌, ◌≡◌, refl, sym, ap, subst, ◌∙◌, fun_ext, ◌≢◌,
  ◌↔◌, ◌⊎◌, inl, inr, Bool, true, false, not, ◌&&◌, ◌||◌, Option, none, some, List, [], ◌∷◌, ◌++◌,
  map, append-nil, append_assoc, map-append, arith, add_assoc, add_comm, add-zero, ltb, leb,
  nat_beq, if◌then◌else◌, nat_beq_iff, if_same, Bool-cases, Option-cases, is_nil, Eq, ◌==◌, nat_eq,
  ==_iff, ==_self, length, get_elem?, set, index_func, keep, any, tally, tally-append, tally_middle,
  length-append, keep-append, All, All-append, Text, codes, text_beq, text_eq, is_empty, Lacks,
  split_unique, Map, lookup, insert, delete, lookup-insert, lookup-delete, Result, ok, err, Outcome,
  returns, panics,
}
use go_sarah.Errors.{Error, wrapped, is_not_found}
use go_sarah.Locker
use go_sarah.Locker.{Locker}

-- A configuration that is a pointer or a map is shared through the heap; any other is a value.
pub data Config (V : Type 0) : Type 0 where
  pointer : ℕ → Config V
  value : V → Config V

-- `rv.Kind() == reflect.Ptr || rv.Kind() == reflect.Map`.
abbrev pub is_pointer : {V : Type 0} → Config V → Bool
is_pointer (pointer a) = true
is_pointer (value v) = false

abbrev pub Heap : Type 0 → Type 0
Heap V = ℕ → V

abbrev pub update : {V : Type 0} → Heap V → ℕ → V → Heap V
update h a v b = if a == b then v else h b

-- `ConfigWatcher.Read`: what it leaves in the struct that it is given, and its error.
abbrev pub Read : Type 0 → Type 0
Read V = Text → Text → V → V × Option Error

-- `nullConfigWatcher.Read`.
unfoldable pub null_read : {V : Type 0} → Read V
null_read b id v = (v, none)

-- What the plugins share: the configuration structs behind pointers, and the locks.
pub record Plugins (V : Type 0) : Type 0 where
  pub heap : Heap V
  pub locker : Locker

-- `commandConfigWrapper` and `taskConfigWrapper`.
pub record ConfigWrapper (V : Type 0) : Type 0 where
  pub value : Config V
  pub mutex : ℕ

unfoldable pub read_failed : Text → Text → Error → Error
read_failed b id e = wrapped (codes "failed to read config for " ++ (b ++ (codes ":" ++ id))) e

module _ {V : Type 0} where
  unfoldable pub deref : Heap V → Config V → V
  deref h (pointer a) = h a
  deref h (value v) = v

  -- The copy replaces the old value only if `Read` succeeded.
  replaced : V → V → Option Error → Config V
  replaced old new none = value new
  replaced old new (some e) = value old

  -- The function literal under the lock: a pointer is handed to `Read` as it is, a value by a
  -- pointer to a copy.
  unfoldable pub read_config :
      Read V → Text → Text → Config V → Heap V → Config V × Heap V × Option Error
  unfolding replaced
  read_config read b id (pointer a) h = let (v, e) = read b id (h a) in (pointer a, update h a v, e)
  read_config read b id (value v) h = let (w, e) = read b id v in (replaced v w e, h, e)

  -- `err != nil && !errors.As(err, &notFoundErr)`.
  checked : Text → Text → ConfigWrapper V → Option Error → Result Error (ConfigWrapper V)
  checked b id w none = ok w
  checked b id w (some e) = if is_not_found e then ok w else err (read_failed b id e)

  unfoldable pub load_config :
      Read V → Text → Text → Config V → Plugins V → Plugins V × Result Error (ConfigWrapper V)
  unfolding checked
  load_config read b id cfg s =
      let (locker', mutex) = Locker.get b id s.locker in
      let (cfg', heap', e) = read_config read b id cfg s.heap in
      (
        record { heap = heap'; locker = locker' },
        checked b id (record { value = cfg'; mutex = mutex }) e,
      )
