-- ===== src/Locker.antt =====
-- locker.go: one lock for each plugin. A lock is named by a number, the address of its mutex.
pub mod Identity
mod Examples
use go_sarah.Shared.{
  ℕ, ◌+◌, Option, none, some, [], ◌++◌, Text, codes, text_eq, Map, lookup, insert,
}

-- `configRWLocker`, and the next address that `&sync.RWMutex{}` gives.
pub record Locker : Type 0 where
  pub plugin_mutex : Map Text ℕ
  pub fresh : ℕ

unfoldable pub empty : Locker
empty = record { plugin_mutex = []; fresh = 0 }

unfoldable pub lock_id : Text → Text → Text
lock_id bot_type id = codes "botType:" ++ (bot_type ++ (codes "::id:" ++ id))

lock_found : Option ℕ → Text → Locker → Locker × ℕ
lock_found none id l =
    (record { plugin_mutex = insert id l.fresh l.plugin_mutex; fresh = l.fresh + 1 }, l.fresh)
lock_found (some lock) id l = (l, lock)

unfoldable pub get : Text → Text → Locker → Locker × ℕ
unfolding lock_found
get bot_type plugin_id l =
    let id = lock_id bot_type plugin_id in lock_found (lookup id l.plugin_mutex) id l
