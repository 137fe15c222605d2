-- ===== src/Storage/GoCache.antt =====
-- github.com/patrickmn/go-cache as storage.go uses it: an interface with its documented behaviour.
use go_sarah.Shared.{ℕ, ◌+◌, ◌≤◌, ◌<◌, ◌≡◌, Option, none, some, Text, ◌==◌, text_eq, if◌then◌else◌}

-- `cache.New(d, …)`, and what storage.go calls of the cache. A time comes with each read, and with
-- each write, which uses `cache.DefaultExpiration`. The cleanup drops only expired entries, which
-- no read returns, so it is not visible here.
pub record Cache (A : Type 0) (d : ℕ) : Type 1 where
  pub Store : Type 0
  pub new : Store
  pub get : ℕ → Text → Store → Option A
  pub set : ℕ → Text → A → Store → Store
  pub delete : Text → Store → Store
  pub flush : Store → Store

-- The documented behaviour: an entry is read back until its time to live is over, and each call
-- concerns its own key only.
pub record CacheLaws {A : Type 0} {d : ℕ} (c : Cache A d) : Type 0 where
  pub get-new : (now : ℕ) (k : Text) → c.get now k c.new ≡ none
  pub get-set_fresh :
      (now t : ℕ) (k : Text) (a : A) (s : c.Store)
      → now ≤ t + d
      → c.get now k (c.set t k a s) ≡ some a
  pub get-set_expired :
      (now t : ℕ) (k : Text) (a : A) (s : c.Store)
      → 0 < d
      → t + d < now
      → c.get now k (c.set t k a s) ≡ none
  -- A default expiration of zero means that entries stay for ever.
  pub get-set_forever :
      (now t : ℕ) (k : Text) (a : A) (s : c.Store) → d ≡ 0 → c.get now k (c.set t k a s) ≡ some a
  pub get-set_other :
      (now t : ℕ) (j k : Text) (a : A) (s : c.Store)
      → ¬ (j ≡ k)
      → c.get now k (c.set t j a s) ≡ c.get now k s
  pub get-delete :
      (now : ℕ) (j k : Text) (s : c.Store)
      → c.get now k (c.delete j s) ≡ (if j == k then none else c.get now k s)
  pub get-flush : (now : ℕ) (k : Text) (s : c.Store) → c.get now k (c.flush s) ≡ none
