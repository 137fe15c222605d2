-- ===== src/Watchers/Loop/Directories.antt =====
-- What holds of the subscriptions and of the watched directories between the rounds of `run`.
use go_sarah.Shared.{
  ◌≡◌, refl, subst, ◌∙◌, ◌≢◌, inl, inr, Bool, false, not, none, some, List, [], ◌∷◌, ◌++◌, arith,
  Bool-cases, is_nil, ◌==◌, nat_eq, ==_iff, ==_self, keep, any, All, Text, text_eq, lookup, insert,
  lookup-insert,
}
use go_sarah.Watchers.{Subscription, Subscriptions}
use go_sarah.Watchers.Loop.{FileWatcher, Distinct}

-- No identifier is subscribed twice.
abbrev pub OnceEach : List Subscription → Type 0
OnceEach [] = Unit {0}
OnceEach (w ∷ ws) = (any (λ v. v.id == w.id) ws ≡ false) × OnceEach ws

-- An entry of the map: it is not empty, its subscriptions are for its directory.
abbrev pub Entry : Text → List Subscription → Type 0
Entry dir ws = (ws ≢ []) × All (λ w. w.abs_dir ≡ dir) ws × OnceEach ws

abbrev pub Entries : Subscriptions → Type 0
Entries m = All (λ e. Entry e.0 e.1) m

-- Exactly the directories of the entries are watched.
abbrev pub Watches : List Text → Subscriptions → Type 0
Watches dirs m = (dir : Text) → any (λ d. d == dir) dirs ≡ not (is_nil (lookup dir m))

abbrev pub Consistent : FileWatcher → Type 0
Consistent w = Distinct w.subscriptions × Entries w.subscriptions × Watches w.dirs w.subscriptions

pub OnceEach-append :
    (ws : List Subscription) (s : Subscription)
    → OnceEach ws
    → any (λ w. w.id == s.id) ws ≡ false
    → OnceEach (ws ++ s ∷ [])
OnceEach-append [] s h k = (refl, tt)
OnceEach-append (w ∷ ws) s (h, hs) k = (
  apart ws h (ground (arith, k, ==_iff w.id s.id, ==_iff s.id w.id)),
  OnceEach-append ws s hs (ground (arith, k)),
)
  where
    apart :
        (vs : List Subscription)
        → any (λ v. v.id == w.id) vs ≡ false
        → (s.id == w.id) ≡ false
        → any (λ v. v.id == w.id) (vs ++ s ∷ []) ≡ false
    apart [] a b = rw b
    apart (v ∷ vs) a b = ground (arith, a, apart vs (ground (arith, a)) b)

keep-absent :
    (p q : Subscription → Bool) (ws : List Subscription)
    → any p ws ≡ false
    → any p (keep q ws) ≡ false
keep-absent p q [] h = refl
keep-absent p q (w ∷ ws) h = ground (arith, h, keep-absent p q ws)

pub keep-OnceEach :
    (q : Subscription → Bool) (ws : List Subscription) → OnceEach ws → OnceEach (keep q ws)
keep-OnceEach q [] h = tt
keep-OnceEach q (w ∷ ws) (h, hs) = elim (Bool-cases (q w)) [
  | inl yes_ ↦ rw yes_ (keep-absent (λ v. v.id == w.id) q ws h, keep-OnceEach q ws hs)
  | inr no_ ↦ rw no_ (keep-OnceEach q ws hs)
]

pub keep-All :
    (P : Subscription → Type 0) (q : Subscription → Bool) (ws : List Subscription)
    → All P ws
    → All P (keep q ws)
keep-All P q [] h = tt
keep-All P q (w ∷ ws) (h, hs) = elim (Bool-cases (q w)) [
  | inl yes_ ↦ rw yes_ (h, keep-All P q ws hs)
  | inr no_ ↦ rw no_ (keep-All P q ws hs)
]

pub Entry-lookup :
    (dir : Text) (ws : List Subscription) (m : Subscriptions)
    → Entries m
    → lookup dir m ≡ some ws
    → Entry dir ws
unfolding lookup
Entry-lookup dir ws [] h e = cc
Entry-lookup dir ws ((d, vs) ∷ m) (h, hs) e = elim (Bool-cases (d == dir)) [
  | inl here ↦ subst (λ x. Entry x ws) ((==_iff d dir).0 here) (subst (Entry d) (cc) h)
  | inr there ↦ Entry-lookup dir ws m hs (cc)
]

lookup-behind :
    (d dir : Text) (vs ws : List Subscription) (m : Subscriptions)
    → lookup d m ≡ none
    → lookup dir m ≡ some ws
    → lookup dir ((d, vs) ∷ m) ≡ some ws
unfolding lookup
lookup-behind d dir vs ws m h e = elim (Bool-cases (d == dir)) [
  | inl here ↦ absurd (ground (arith, h, e, (==_iff d dir).0 here))
  | inr there ↦ rw there e
]

pub Entries-lookups :
    (m : Subscriptions)
    → Distinct m
    → ((dir : Text) (ws : List Subscription) → lookup dir m ≡ some ws → Entry dir ws)
    → Entries m
unfolding lookup
Entries-lookups [] h e = tt
Entries-lookups ((d, vs) ∷ m) (h, hs) e = (
  e d vs (rw (==_self d)),
  Entries-lookups m hs (λ dir ws at. e dir ws (lookup-behind d dir vs ws m h at)),
)

pub insert-Distinct :
    (dir : Text) (ws : List Subscription) (m : Subscriptions)
    → Distinct m
    → Distinct (insert dir ws m)
unfolding insert lookup
insert-Distinct dir ws [] h = (refl, tt)
insert-Distinct dir ws ((d, vs) ∷ m) (h, hs) = elim (Bool-cases (d == dir)) [
  | inl here ↦ rw here (subst (λ x. lookup x m ≡ none) ((==_iff d dir).0 here) h, hs)
  | inr there ↦ rw there (
    lookup-insert dir d ws m ∙ ground (arith, h, there, ==_iff d dir, ==_iff dir d),
    insert-Distinct dir ws m hs,
  )
]

pub insert-Entries :
    (dir : Text) (ws : List Subscription) (m : Subscriptions)
    → Entry dir ws
    → Entries m
    → Entries (insert dir ws m)
unfolding insert
insert-Entries dir ws [] e h = (e, tt)
insert-Entries dir ws ((d, vs) ∷ m) e (h, hs) = elim (Bool-cases (d == dir)) [
  | inl here ↦ rw here (e, hs)
  | inr there ↦ rw there (h, insert-Entries dir ws m e hs)
]
