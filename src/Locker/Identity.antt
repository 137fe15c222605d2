-- ===== src/Locker/Identity.antt =====
-- Which calls of `configRWLocker.get` answer the same lock.
use go_sarah.Shared.{
  ℕ, ◌≤◌, ◌<◌, ◌≡◌, sym, ap, ◌∙◌, ◌↔◌, inl, inr, some, List, [], ◌∷◌, ◌++◌, arith, if◌then◌else◌,
  Bool-cases, Option-cases, ◌==◌, nat_eq, ==_iff, ==_self, Text, codes, text_eq, Lacks,
  split_unique, lookup, lookup-insert,
}
use go_sarah.Locker.{some, lookup, Text, Locker, empty, lock_id, get}

abbrev pub Request : Type 0
Request = Text × Text

unfoldable pub get_all : List Request → Locker → Locker
get_all [] l = l
get_all (r ∷ rs) l = get_all rs (get r.0 r.1 l).0

-- The locks of different names differ, and all are older than the next one.
pub record Inv (l : Locker) : Type 0 where
  pub older : (i : Text) (m : ℕ) → lookup i l.plugin_mutex ≡ some m → m < l.fresh
  pub apart :
      (i j : Text) (m : ℕ)
      → lookup i l.plugin_mutex ≡ some m
      → lookup j l.plugin_mutex ≡ some m
      → i ≡ j

empty-Inv : Inv empty
unfolding empty lookup
empty-Inv = record { older = λ i m h. cc; apart = λ i j m h k. cc }

-- What a call does to the locks by name.
lookup-get :
    (b id i : Text) (l : Locker)
    → lookup i (get b id l).0.plugin_mutex
      ≡ (if lock_id b id == i then some (get b id l).1 else lookup i l.plugin_mutex)
unfolding get
lookup-get b id i l = elim (Option-cases (lookup (lock_id b id) l.plugin_mutex)) [
  | inl e ↦ rw (e, get) (lookup-insert (lock_id b id) i l.fresh l.plugin_mutex)
  | inr (m, e) ↦ rw (e, get) (ground (arith, ==_iff (lock_id b id) i))
]

fresh-get :
    (b id : Text) (l : Locker)
    → Inv l
    → ((get b id l).1 < (get b id l).0.fresh) × (l.fresh ≤ (get b id l).0.fresh)
unfolding get
fresh-get b id l v = elim (Option-cases (lookup (lock_id b id) l.plugin_mutex)) [
  | inl e ↦ rw (e, get) (omega arith)
  | inr (m, e) ↦ rw (e, get) (v.older (lock_id b id) m e, omega arith)
]

-- A lock that was handed out stands under no other name.
get_own :
    (b id i : Text) (l : Locker)
    → Inv l
    → lookup i l.plugin_mutex ≡ some (get b id l).1
    → lock_id b id ≡ i
unfolding get
get_own b id i l v = elim (Option-cases (lookup (lock_id b id) l.plugin_mutex)) [
  | inl e ↦ rw (e, get) (λ h. absurd (omega (arith, v.older i l.fresh h)))
  | inr (m, e) ↦ rw (e, get) (λ h. v.apart (lock_id b id) i m e h)
]

get-Inv : (b id : Text) (l : Locker) → Inv l → Inv (get b id l).0
get-Inv b id l v = record {
  older = λ i m h. ground (arith, rw (lookup-get b id i l) at h, fresh-get b id l v, v.older i m);
  apart = λ i j m h k. ground (
    arith,
    ==_iff (lock_id b id) i,
    ==_iff (lock_id b id) j,
    rw (lookup-get b id i l) at h,
    rw (lookup-get b id j l) at k,
    get_own b id i l v,
    get_own b id j l v,
    v.apart i j m,
  );
}

get_all-Inv : (rs : List Request) (l : Locker) → Inv l → Inv (get_all rs l)
unfolding get_all
get_all-Inv [] l v = v
get_all-Inv (r ∷ rs) l v = get_all-Inv rs (get r.0 r.1 l).0 (get-Inv r.0 r.1 l v)

get_found :
    (b id : Text) (m : ℕ) (l : Locker)
    → lookup (lock_id b id) l.plugin_mutex ≡ some m
    → (get b id l).1 ≡ m
unfolding get
get_found b id m l h = rw (h, get)

get_keeps :
    (b id i : Text) (m : ℕ) (l : Locker)
    → lookup i l.plugin_mutex ≡ some m
    → lookup i (get b id l).0.plugin_mutex ≡ some m
get_keeps b id i m l h = rw (lookup-get b id i l) (elim (Bool-cases (lock_id b id == i)) [
  | inl same ↦ rw same (ap some (get_found b id m l (rw ((==_iff (lock_id b id) i).0 same) h)))
  | inr other ↦ rw other h
])

-- A lock stays under its name whatever is asked for later.
get_all_keeps :
    (rs : List Request) (i : Text) (m : ℕ) (l : Locker)
    → lookup i l.plugin_mutex ≡ some m
    → lookup i (get_all rs l).plugin_mutex ≡ some m
unfolding get_all
get_all_keeps [] i m l h = h
get_all_keeps (r ∷ rs) i m l h = get_all_keeps rs i m (get r.0 r.1 l).0 (get_keeps r.0 r.1 i m l h)

lookup-get_self :
    (b id : Text) (l : Locker)
    → lookup (lock_id b id) (get b id l).0.plugin_mutex ≡ some (get b id l).1
lookup-get_self b id l = rw (lookup-get b id (lock_id b id) l, ==_self (lock_id b id))

-- Two names of locks are equal only for the same bot type and identifier, if no bot type holds a
-- colon.
lock_id-injective :
    (b c id jd : Text) → Lacks 58 b → Lacks 58 c → lock_id b id ≡ lock_id c jd → (b ≡ c) × (id ≡ jd)
unfolding lock_id
lock_id-injective b c id jd hb hc e =
    let cut : (b ++ 58 ∷ (codes ":id:" ++ id) ≡ c ++ 58 ∷ (codes ":id:" ++ jd)) = cc in
    let (same, rest) = split_unique 58 b c _ _ hb hc cut in (same, cc)

-- From an empty locker, and with any other requests before and between: two requests are answered
-- by the same lock exactly if they name the same bot type and identifier. The bot types hold no
-- colon, by which the name of a lock is put together.
pub get-same_lock :
    (before between : List Request) (b c id jd : Text)
    → Lacks 58 b
    → Lacks 58 c
    → let l = get_all before empty in
      ((get b id l).1 ≡ (get c jd (get_all between (get b id l).0)).1) ↔ ((b ≡ c) × (id ≡ jd))
get-same_lock before between b c id jd hb hc =
    let l = get_all before empty in
    let m = (get b id l).0 in
    let n = get_all between m in
    let stays : (lookup (lock_id b id) n.plugin_mutex ≡ some (get b id l).1) =
      get_all_keeps between (lock_id b id) (get b id l).1 m (lookup-get_self b id l) in
    let inv = get_all-Inv between m (get-Inv b id l (get_all-Inv before empty empty-Inv)) in
    (
      λ e.
          lock_id-injective b c id jd hb hc
            (sym (get_own c jd (lock_id b id) n inv (stays ∙ ap some e))),
      λ e. sym (get_found c jd (get b id l).1 n (rw (← e.0, ← e.1) stays)),
    )
