-- ===== src/Watchers/Loop/Subscribing.antt =====
-- `doSubscribe` keeps the subscriptions and the watched directories consistent.
use go_sarah.Shared.{
  ◌≡◌, refl, subst, ◌∙◌, ◌≢◌, inl, inr, Option, none, some, List, [], ◌∷◌, ◌++◌, arith, Bool-cases,
  ◌==◌, nat_eq, ==_iff, any, All-append, Text, text_eq, lookup, insert, lookup-insert,
}
use go_sarah.Errors.{Error}
use go_sarah.Watchers.{Subscription, Subscriptions, do_subscribe, appended, added}
use go_sarah.Watchers.Loop.{accepted, add_dir, Distinct}
use go_sarah.Watchers.Loop.Directories.{
  Entries, Watches, OnceEach-append, Entry-lookup, insert-Distinct, insert-Entries,
}
use go_sarah.Watchers.{subscribed as subscribed_at}

-- The subscriptions and the directories alone.
abbrev pub Kept : Subscriptions → List Text → Type 0
Kept m dirs = Distinct m × Entries m × Watches dirs m

insert-Watches_new :
    (dir : Text) (ws : List Subscription) (m : Subscriptions) (dirs : List Text)
    → Watches dirs m
    → Watches (dir ∷ dirs) (insert dir ws m)
insert-Watches_new dir ws m dirs h x = elim (Bool-cases (dir == x)) [
  | inl here ↦ ground (arith, here, lookup-insert dir x ws m)
  | inr there ↦ rw (there, lookup-insert dir x ws m, there) (h x)
]

insert-Watches :
    (dir : Text) (vs ws : List Subscription) (m : Subscriptions) (dirs : List Text)
    → lookup dir m ≡ some vs
    → Watches dirs m
    → Watches dirs (insert dir ws m)
insert-Watches dir vs ws m dirs at h x = elim (Bool-cases (dir == x)) [
  | inl here ↦
      let same : lookup x m ≡ some vs =
        subst (λ y. lookup y m ≡ some vs) ((==_iff dir x).0 here) at in
      h x ∙ rw (lookup-insert dir x ws m, here, same) refl
  | inr there ↦ rw (lookup-insert dir x ws m, there) (h x)
]

appended-Kept :
    (ws : List Subscription) (s : Subscription) (m : Subscriptions) (dirs : List Text)
    → lookup s.abs_dir m ≡ some ws
    → Kept m dirs
    → Kept (appended ws s m).0 dirs
unfolding appended
appended-Kept ws s m dirs at (d, e, w) =
    let (filled, own, once) = Entry-lookup s.abs_dir ws m e at in
    elim (Bool-cases (any (λ v. v.id == s.id) ws)) [
      | inl dup ↦ rw dup (d, e, w)
      | inr new ↦ rw new (
        insert-Distinct s.abs_dir (ws ++ s ∷ []) m d,
        insert-Entries s.abs_dir (ws ++ s ∷ []) m
            (
              not_empty ws,
              All-append (λ v. v.abs_dir ≡ s.abs_dir) ws (s ∷ []) own (refl, tt),
              OnceEach-append ws s once new,
            )
            e,
        insert-Watches s.abs_dir ws (ws ++ s ∷ []) m dirs at w,
      )
    ]
  where
    not_empty : (vs : List Subscription) → (vs ++ s ∷ []) ≢ []
    not_empty [] = λ x. cc
    not_empty (v ∷ vs) = λ x. cc

subscribe-Kept :
    (add : Text → Option Error) (s : Subscription) (m : Subscriptions) (dirs : List Text)
    (o : Option (List Subscription)) (a : Option Error)
    → lookup s.abs_dir m ≡ o
    → add s.abs_dir ≡ a
    → Kept m dirs
    → Kept (subscribed_at add o s m).0 (add_dir add o s.abs_dir dirs)
unfolding subscribed_at added appended add_dir accepted
subscribe-Kept add s m dirs (some ws) a at answer k = appended-Kept ws s m dirs at k
subscribe-Kept add s m dirs none (some e) at answer k = rw answer k
subscribe-Kept add s m dirs none none at answer (d, e, w) = rw answer (
  insert-Distinct s.abs_dir (s ∷ []) m d,
  insert-Entries s.abs_dir (s ∷ []) m ((λ x. cc), (refl, tt), (refl, tt)) e,
  insert-Watches_new s.abs_dir (s ∷ []) m dirs w,
)

pub do_subscribe-Kept :
    (add : Text → Option Error) (s : Subscription) (m : Subscriptions) (dirs : List Text)
    → Kept m dirs
    → Kept (do_subscribe add s m).0 (add_dir add (lookup s.abs_dir m) s.abs_dir dirs)
unfolding do_subscribe subscribed_at
do_subscribe-Kept add s m dirs k =
    subscribe-Kept add s m dirs (lookup s.abs_dir m) (add s.abs_dir) refl refl k
