-- ===== src/Storage/TimedCache.antt =====
-- A cache with the documented behaviour: an association list of entries with their times.
use go_sarah.Shared.{
  ℕ, ◌+◌, ◌≡◌, refl, ◌||◌, Option, none, some, [], Text, ◌==◌, text_eq, ==_iff, ==_self,
  if◌then◌else◌, leb, nat_beq, Map, lookup, insert, delete, lookup-insert, lookup-delete, arith,
}
use go_sarah.Storage.GoCache.{Cache, CacheLaws}

module _ {A : Type 0} (d : ℕ) where
  unfoldable pub aged : ℕ → Option (ℕ × A) → Option A
  aged now none = none
  aged now (some (t, a)) = if leb now (t + d) || nat_beq d 0 then some a else none

  abbrev pub timed_cache : Cache A d
  timed_cache = record {
    Store = Map Text (ℕ × A);
    new = [];
    get = λ now k s. aged now (lookup k s);
    set = λ now k a s. insert k (now, a) s;
    delete = λ k s. delete k s;
    flush = λ s. [];
  }

  aged-insert :
      (now t : ℕ) (j k : Text) (a : A) (s : Map Text (ℕ × A))
      → aged now (lookup k (insert j (t, a) s))
        ≡ aged now (if j == k then some (t, a) else lookup k s)
  aged-insert now t j k a s = rw (lookup-insert j k (t, a) s)

  pub timed_cache-CacheLaws : CacheLaws timed_cache
  unfolding aged lookup
  timed_cache-CacheLaws = record {
    get-new = λ now k. refl;
    get-set_fresh = λ now t k a s h. rw (lookup-insert k k (t, a) s, ==_self k) (ground arith);
    get-set_expired = λ now t k a s p h. rw (lookup-insert k k (t, a) s, ==_self k) (ground arith);
    get-set_forever = λ now t k a s h. rw (lookup-insert k k (t, a) s, ==_self k) (ground arith);
    get-set_other =
        λ now t j k a s h. rw (lookup-insert j k (t, a) s) (ground (arith, ==_iff j k, h));
    get-delete = λ now j k s. rw (lookup-delete j k s) (ground arith);
    get-flush = λ now k s. refl;
  }
