-- ===== src/Storage/History.antt =====
-- The default storage against its history: what `Get` answers, by the calls that came before.
use go_sarah.Shared.{
  ℕ, ◌+◌, ◌≡◌, refl, inl, inr, ◌||◌, Option, none, some, List, [], ◌∷◌, arith, add_assoc, add-zero,
  leb, nat_beq, if◌then◌else◌, Bool-cases, ◌==◌, nat_eq, ==_iff, Text, text_eq, ok,
}
use go_sarah.Storage.GoCache.{Cache, CacheLaws}
use go_sarah.Storage.{
  UserContext, Cached, context, Stored, new_user_context_storage, get, set, delete, flush, set_next,
}

-- A call at its time: time only grows, so a call carries the time since the last one.
pub data Call (V F : Type 0) : Type 0 where
  sets : Text → UserContext V F → Call V F
  deletes : Text → Call V F
  flushes : Call V F
  waits : ℕ → Call V F

-- What is remembered of a key: the function that was stored last and how long ago that was.
abbrev pub Memory : Type 0 → Type 0
Memory F = Option (F × ℕ)

module _ {F : Type 0} where
  unfoldable pub stored : Option F → Memory F → Memory F
  stored none m = m
  stored (some f) m = some (f, 0)

  unfoldable pub older : ℕ → Memory F → Memory F
  older n none = none
  older n (some (f, age)) = some (f, age + n)

  older_zero : (m : Memory F) → older 0 m ≡ m
  unfolding older
  older_zero none = refl
  older_zero (some (f, age)) = rw add-zero

  -- The answer to `Get`: the function, unless its time to live `d` is over.
  unfoldable pub answer : ℕ → Memory F → Option F
  answer d none = none
  answer d (some (f, age)) = if leb age d || nat_beq d 0 then some f else none

module _ {V F : Type 0} where
  -- The effect of one call on what is remembered of a key.
  unfoldable pub remember : Text → Call V F → Memory F → Memory F
  unfolding stored older
  remember k (sets j u) m = if j == k then stored u.next m else m
  remember k (deletes j) m = if j == k then none else m
  remember k flushes m = none
  remember k (waits n) m = older n m

  unfoldable pub recall : Text → List (Call V F) → Memory F → Memory F
  recall k [] m = m
  recall k (c ∷ cs) m = recall k cs (remember k c m)

module _ {V F : Type 0} {d : ℕ} (c : Cache (Cached V F) d) where
  unfoldable pub perform : Call V F → Stored c.Store → Stored c.Store
  perform (sets k u) s = (set c k u s).0
  perform (deletes k) s = (delete c k s).0
  perform flushes s = (flush c s).0
  perform (waits n) s = record s { now = s.now + n }

  unfoldable pub perform_all : List (Call V F) → Stored c.Store → Stored c.Store
  perform_all [] s = s
  perform_all (call ∷ cs) s = perform_all cs (perform call s)

  module _ (laws : CacheLaws c) (k : Text) where
    -- The cache agrees with what is remembered of the key, now and at every later time.
    abbrev pub Agrees : Memory F → Stored c.Store → Type 0
    Agrees m s = (n : ℕ) → get c k (record s { now = s.now + n }) ≡ ok (answer d (older n m))

    -- What the cache answers for an entry of a known age.
    get-set_aged :
        (n t : ℕ) (a : Cached V F) (s : c.Store)
        → c.get (t + n) k (c.set t k a s) ≡ (if leb n d || nat_beq d 0 then some a else none)
    get-set_aged n t a s = elim (Bool-cases (leb n d)) [
      | inl fresh ↦ rw fresh (laws.get-set_fresh (t + n) t k a s (ground arith))
      | inr late ↦ elim (Bool-cases (nat_beq d 0)) [
        | inl forever ↦ rw (late, forever) (laws.get-set_forever (t + n) t k a s (ground arith))
        | inr ends ↦
            rw (late, ends) (laws.get-set_expired (t + n) t k a s (ground arith) (ground arith))
      ]
    ]

    set_next-Agrees :
        (o : Option F) (j : Text) (u : UserContext V F) (m : Memory F) (s : Stored c.Store)
        → u.next ≡ o
        → Agrees m s
        → Agrees (if j == k then stored o m else m) (set_next c o j u s).0
    unfolding set_next get answer older stored
    set_next-Agrees none j u m s q h n = ground (arith, h n)
    set_next-Agrees (some f) j u m s q h n = elim (Bool-cases (j == k)) [
      | inl same ↦
          rw (same, (==_iff j k).0 same, get-set_aged n s.now (context u) s.cache)
            (ground (arith, q))
      | inr other ↦
          rw
            (
              other,
              laws.get-set_other (s.now + n) s.now j k (context u) s.cache
                  (λ e. cc (other, (==_iff j k).1 e)),
            )
            (h n)
    ]

    pub delete-Agrees :
        (j : Text) (m : Memory F) (s : Stored c.Store)
        → Agrees m s
        → Agrees (if j == k then none else m) (delete c j s).0
    unfolding delete get answer older
    delete-Agrees j m s h n = rw (laws.get-delete _ j k _) (ground (arith, h n))

    pub set-Agrees :
        (j : Text) (u : UserContext V F) (m : Memory F) (s : Stored c.Store)
        → Agrees m s
        → Agrees (if j == k then stored u.next m else m) (set c j u s).0
    unfolding set
    set-Agrees j u m s h = set_next-Agrees u.next j u m s refl h

    pub waits-Agrees :
        (p : ℕ) (m : Memory F) (s : Stored c.Store)
        → Agrees m s
        → Agrees (older p m) (record s { now = s.now + p })
    unfolding older
    waits-Agrees p none s h n = rw add_assoc (h (p + n))
    waits-Agrees p (some (f, age)) s h n = rw (add_assoc, add_assoc) (h (p + n))

    flush-Agrees : (m : Memory F) (s : Stored c.Store) → Agrees none (flush c s).0
    unfolding flush get answer older
    flush-Agrees m s n = rw laws.get-flush

    perform-Agrees :
        (call : Call V F) (m : Memory F) (s : Stored c.Store)
        → Agrees m s
        → Agrees (remember k call m) (perform call s)
    unfolding remember perform set
    perform-Agrees (sets j u) m s h = set_next-Agrees u.next j u m s refl h
    perform-Agrees (deletes j) m s h = delete-Agrees j m s h
    perform-Agrees flushes m s h = flush-Agrees m s
    perform-Agrees (waits p) m s h = waits-Agrees p m s h

    perform_all-Agrees :
        (cs : List (Call V F)) (m : Memory F) (s : Stored c.Store)
        → Agrees m s
        → Agrees (recall k cs m) (perform_all cs s)
    unfolding recall perform_all
    perform_all-Agrees [] m s h = h
    perform_all-Agrees (call ∷ cs) m s h =
        perform_all-Agrees cs (remember k call m) (perform call s) (perform-Agrees call m s h)

    pub new-Agrees : (t : ℕ) → Agrees none (new_user_context_storage c t)
    unfolding new_user_context_storage get answer older
    new-Agrees t n = rw laws.get-new

    pub Agrees-now : (m : Memory F) (s : Stored c.Store) → Agrees m s → get c k s ≡ ok (answer d m)
    Agrees-now m s h =
        let now : (get c k (record s { now = s.now + 0 }) ≡ ok (answer d (older 0 m))) = h 0 in
        rw (add-zero, older_zero) at now

    -- For a cache with the documented behaviour and every history of calls on a new storage: `Get`
    -- never fails, and answers the function that was stored last under the key if no `Delete` of
    -- the key and no `Flush` came since and its time to live `d` is not over (0 stands for no end),
    -- and otherwise nothing. A `Set` without a function leaves the storage as it was.
    pub get-perform_all :
        (cs : List (Call V F)) (t : ℕ)
        → get c k (perform_all cs (new_user_context_storage c t)) ≡ ok (answer d (recall k cs none))
    get-perform_all cs t =
        Agrees-now (recall k cs none) (perform_all cs (new_user_context_storage c t))
          (perform_all-Agrees cs none (new_user_context_storage c t) (new-Agrees t))
