-- ===== src/Storage.antt =====
-- storage.go: users' conversational contexts. `F` stands for the functions that a context may hold
-- (`ContextualFunc`), `V` for values of `interface{}`.
pub mod GoCache
pub mod History
pub mod TimedCache
mod Examples
use go_sarah.Shared.{ℕ, ◌*◌, Option, none, some, Text, codes, Result, ok, err}
use go_sarah.Errors.{Error, plain}
use GoCache.{Cache}

pub record CacheConfig : Type 0 where
  pub expires_in : ℕ
  pub cleanup_interval : ℕ

-- Durations in seconds.
unfoldable pub new_cache_config : CacheConfig
new_cache_config = record { expires_in = 3 * 60; cleanup_interval = 10 * 60 }

pub record SerializableArgument (V : Type 0) : Type 0 where
  pub func_identifier : Text
  pub argument : V

pub record UserContext (V F : Type 0) : Type 0 where
  pub next : Option F
  pub serializable : Option (SerializableArgument V)

unfoldable pub new_user_context : {V F : Type 0} → F → UserContext V F
new_user_context f = record { next = some f; serializable = none }

-- The interface `UserContextStorage`, over the states `S` of the storage. A method that writes
-- returns the new state and its error.
pub record UserContextStorage (V F S : Type 0) : Type 0 where
  pub get : Text → S → Result Error (Option F)
  pub set : Text → UserContext V F → S → S × Option Error
  pub delete : Text → S → S × Option Error
  pub flush : S → S × Option Error

-- The dynamic type of a cached value: `*UserContext`, nil, or another one.
pub data Cached (V F : Type 0) : Type 0 where
  context : UserContext V F → Cached V F
  nil_value : Cached V F
  foreign : Cached V F

-- The state of `defaultUserContextStorage`: its cache, and the time at which it is used.
pub record Stored (Store : Type 0) : Type 0 where
  pub now : ℕ
  pub cache : Store

module _ {V F : Type 0} {d : ℕ} (c : Cache (Cached V F) d) where
  unfoldable pub new_user_context_storage : ℕ → Stored c.Store
  new_user_context_storage now = record { now = now; cache = c.new }

  cached_context : Option (Cached V F) → Result Error (Option F)
  cached_context none = ok none
  cached_context (some nil_value) = ok none
  cached_context (some (context u)) = ok u.next
  cached_context (some foreign) = err (plain (codes "cached value has illegal type"))

  unfoldable pub get : Text → Stored c.Store → Result Error (Option F)
  unfolding cached_context
  get key s = cached_context (c.get s.now key s.cache)

  unfoldable pub delete : Text → Stored c.Store → Stored c.Store × Option Error
  delete key s = (record s { cache = c.delete key s.cache }, none)

  set_next : Option F → Text → UserContext V F → Stored c.Store → Stored c.Store × Option Error
  set_next none key u s = (s, some (plain (codes "required UserContext.Next is not set")))
  set_next (some f) key u s = (record s { cache = c.set s.now key (context u) s.cache }, none)

  unfoldable pub set : Text → UserContext V F → Stored c.Store → Stored c.Store × Option Error
  unfolding set_next
  set key u s = set_next u.next key u s

  unfoldable pub flush : Stored c.Store → Stored c.Store × Option Error
  flush s = (record s { cache = c.flush s.cache }, none)

  abbrev pub default_storage : UserContextStorage V F (Stored c.Store)
  default_storage = record { get = get; set = set; delete = delete; flush = flush }
