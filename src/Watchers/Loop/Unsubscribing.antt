-- ===== src/Watchers/Loop/Unsubscribing.antt =====
-- `doUnsubscribe` keeps the subscriptions and the watched directories consistent.
use go_sarah.Shared.{
  ◌≡◌, refl, sym, ap, subst, ◌∙◌, ◌≢◌, ◌⊎◌, inl, inr, Bool, true, false, not, ◌&&◌, Option, none,
  some, List, [], ◌∷◌, arith, if◌then◌else◌, Bool-cases, is_nil, ◌==◌, nat_eq, ==_iff, keep, any,
  Text, text_eq, lookup,
}
use go_sarah.Watchers.{Subscription, Subscriptions, do_unsubscribe, kept}
use go_sarah.Watchers.Loop.{
  FileWatcher, removed, removed_dir, remove_dir, Distinct, Ranges, unsubscribe,
}
use go_sarah.Watchers.Loop.Directories.{
  Entry, Entries, Consistent, keep-OnceEach, keep-All, Entry-lookup, Entries-lookups,
}

keep-Entry :
    (q : Subscription → Bool) (dir : Text) (ws : List Subscription)
    → keep q ws ≢ []
    → Entry dir ws
    → Entry dir (keep q ws)
keep-Entry q dir ws filled (_, own, once) =
    (filled, keep-All (λ v. v.abs_dir ≡ dir) q ws own, keep-OnceEach q ws once)

do_unsubscribe-absent :
    (b dir : Text) (m : Subscriptions)
    → lookup dir m ≡ none
    → lookup dir (do_unsubscribe b m) ≡ none
unfolding do_unsubscribe kept lookup
do_unsubscribe-absent b dir [] h = h
do_unsubscribe-absent b dir ((d, ws) ∷ m) h =
    let rest : lookup dir m ≡ none = ground (arith, h) in
    let after = do_unsubscribe-absent b dir m rest in
    by_rest (keep (λ w. not (w.bot_type == b)) ws) rest (ground (arith, h)) after
  where
    by_rest :
        (remains : List Subscription)
        → lookup dir m ≡ none
        → (d == dir) ≡ false
        → lookup dir (do_unsubscribe b m) ≡ none
        → lookup dir (kept d remains m (do_unsubscribe b m)) ≡ none
    by_rest [] r o a = r
    by_rest (v ∷ vs) r o a = rw o a

do_unsubscribe-Distinct :
    (b : Text) (m : Subscriptions) → Distinct m → Distinct (do_unsubscribe b m)
unfolding do_unsubscribe kept
do_unsubscribe-Distinct b [] h = tt
do_unsubscribe-Distinct b ((d, ws) ∷ m) (h, hs) =
    by_rest (keep (λ w. not (w.bot_type == b)) ws) (do_unsubscribe-Distinct b m hs)
  where
    by_rest :
        (remains : List Subscription)
        → Distinct (do_unsubscribe b m)
        → Distinct (kept d remains m (do_unsubscribe b m))
    by_rest [] after = hs
    by_rest (v ∷ vs) after = (do_unsubscribe-absent b d m h, after)

do_unsubscribe-Entries : (b : Text) (m : Subscriptions) → Entries m → Entries (do_unsubscribe b m)
unfolding do_unsubscribe kept
do_unsubscribe-Entries b [] h = tt
do_unsubscribe-Entries b ((d, ws) ∷ m) (h, hs) =
    let q = λ (w : Subscription). not (w.bot_type == b) in
    by_rest (keep q ws) (λ f. keep-Entry q d ws f h) (do_unsubscribe-Entries b m hs)
  where
    by_rest :
        (remains : List Subscription)
        → (remains ≢ [] → Entry d remains)
        → Entries (do_unsubscribe b m)
        → Entries (kept d remains m (do_unsubscribe b m))
    by_rest [] e after = hs
    by_rest (v ∷ vs) e after = (e (λ x. cc), after)

abbrev is_dir : Option Text → Text → Bool
is_dir none dir = false
is_dir (some d) dir = d == dir

removed_dir-present :
    (b x : Text) (m : Subscriptions) → lookup x m ≡ none → is_dir (removed_dir b m) x ≡ false
unfolding removed_dir removed lookup
removed_dir-present b x [] h = refl
removed_dir-present b x ((d, ws) ∷ m) h =
    by_rest (keep (λ w. not (w.bot_type == b)) ws) (ground (arith, h))
      (removed_dir-present b x m (ground (arith, h)))
  where
    by_rest :
        (remains : List Subscription)
        → (d == x) ≡ false
        → is_dir (removed_dir b m) x ≡ false
        → is_dir (removed d remains (removed_dir b m)) x ≡ false
    by_rest [] o r = o
    by_rest (v ∷ vs) o r = r

-- The directories that have an entry afterwards.
do_unsubscribe-lookup :
    (b x : Text) (m : Subscriptions)
    → Distinct m
    → not (is_nil (lookup x (do_unsubscribe b m)))
      ≡ not (is_nil (lookup x m)) && not (is_dir (removed_dir b m) x)
unfolding do_unsubscribe kept removed_dir removed lookup
do_unsubscribe-lookup b x [] h = refl
do_unsubscribe-lookup b x ((d, ws) ∷ m) (h, hs) =
    by_rest (keep (λ w. not (w.bot_type == b)) ws) (do_unsubscribe-lookup b x m hs)
      (Bool-cases (d == x))
  where
    by_rest :
        (remains : List Subscription)
        → not (is_nil (lookup x (do_unsubscribe b m)))
          ≡ not (is_nil (lookup x m)) && not (is_dir (removed_dir b m) x)
        → ((d == x) ≡ true) ⊎ ((d == x) ≡ false)
        → not (is_nil (lookup x (kept d remains m (do_unsubscribe b m))))
          ≡ not (is_nil (if d == x then some ws else lookup x m))
            && not (is_dir (removed d remains (removed_dir b m)) x)
    by_rest [] ih (inl here) =
        rw (here, subst (λ y. lookup y m ≡ none) ((==_iff d x).0 here) h) refl
    by_rest [] ih (inr there) = rw there (ground arith)
    by_rest (v ∷ vs) ih (inl here) =
        rw
          (here, removed_dir-present b x m (subst (λ y. lookup y m ≡ none) ((==_iff d x).0 here) h))
          refl
    by_rest (v ∷ vs) ih (inr there) = rw there ih

any-keep :
    (d x : Text) (dirs : List Text)
    → any (λ e. e == x) (keep (λ e. not (e == d)) dirs) ≡ any (λ e. e == x) dirs && not (d == x)
any-keep d x [] = refl
any-keep d x (e ∷ dirs) = ground (arith, any-keep d x dirs, ==_iff e x, ==_iff e d, ==_iff d x)

remove_dir-any :
    (o : Option Text) (x : Text) (dirs : List Text)
    → any (λ e. e == x) (remove_dir o dirs) ≡ any (λ e. e == x) dirs && not (is_dir o x)
unfolding remove_dir
remove_dir-any none x dirs = ground arith
remove_dir-any (some d) x dirs = any-keep d x dirs

pub unsubscribe-Consistent :
    (b : Text) (entries : Subscriptions) (w : FileWatcher)
    → Ranges entries w.subscriptions
    → Consistent w
    → Consistent (unsubscribe b entries w)
unfolding unsubscribe
unsubscribe-Consistent b entries w (d, same) (_, e, h) = (
  do_unsubscribe-Distinct b entries d,
  do_unsubscribe-Entries b entries (
      Entries-lookups entries d
        (λ dir ws at. Entry-lookup dir ws w.subscriptions e (sym (same dir) ∙ at))),
  λ x.
      remove_dir-any (removed_dir b entries) x w.dirs
      ∙ ap (λ t. t && not (is_dir (removed_dir b entries) x))
          (h x ∙ ap (λ o. not (is_nil o)) (sym (same x)))
      ∙ sym (do_unsubscribe-lookup b x entries d),
)
