-- ===== src/Watchers/Events.antt =====
-- Which callbacks an event calls.
use go_sarah.Shared.{
  ℕ, ◌≡◌, refl, sym, ap, subst, ◌∙◌, ◌≢◌, inl, inr, Bool, true, false, ◌&&◌, Option, none, some,
  List, [], ◌∷◌, ◌++◌, arith, if◌then◌else◌, Bool-cases, ◌==◌, nat_eq, ==_iff, any, Text, text_eq,
  lookup, insert, lookup-insert,
}
use go_sarah.Errors.{Error}
use go_sarah.Watchers.{
  Subscription, Subscriptions, appended, added, subscribed, do_subscribe, called, watched,
  handle_event, subscribe_all,
}

abbrev pub given : Option ℕ → List ℕ
given none = []
given (some c) = c ∷ []

-- The first subscription for a file, unless one is there already.
unfoldable pub first_callback : Text → Text → List Subscription → Option ℕ → Option ℕ
first_callback dir id ss (some c) = some c
first_callback dir id [] none = none
first_callback dir id (s ∷ ss) none =
    first_callback dir id ss (if (s.abs_dir == dir) && (s.id == id) then some s.callback else none)

called_absent :
    (id : Text) (ws : List Subscription) → any (λ w. w.id == id) ws ≡ false → called id ws ≡ []
unfolding called
called_absent id [] h = refl
called_absent id (w ∷ ws) h = ground (arith, h, called_absent id ws)

called_present :
    (id : Text) (ws : List Subscription) → any (λ w. w.id == id) ws ≡ true → called id ws ≢ []
unfolding called
called_present id [] h = absurd (ground (arith, h))
called_present id (w ∷ ws) h = ground (arith, h, called_present id ws)

called-append :
    (id : Text) (ws : List Subscription) (s : Subscription)
    → called id (ws ++ s ∷ []) ≡ called id ws ++ (if s.id == id then s.callback ∷ [] else [])
unfolding called
called-append id [] s = ground arith
called-append id (w ∷ ws) s = ground (arith, called-append id ws s)

module _ (add : Text → Option Error) (dir id : Text) where
  -- An event calls the callback `c`, if there is one.
  abbrev Calls : Option ℕ → Subscriptions → Type 0
  Calls c m = handle_event dir id m ≡ given c

  -- The first callback of the file, after one more subscription.
  next : Subscription → Option ℕ → Option ℕ
  next s (some c) = some c
  next s none = if (s.abs_dir == dir) && (s.id == id) then some s.callback else none

  watched-insert :
      (ws : List Subscription) (s : Subscription) (m : Subscriptions)
      → handle_event dir id (insert s.abs_dir ws m)
        ≡ (if s.abs_dir == dir then called id ws else handle_event dir id m)
  unfolding handle_event watched
  watched-insert ws s m =
      ap (watched id) (lookup-insert s.abs_dir dir ws m) ∙ by_test (s.abs_dir == dir)
    where
      by_test :
          (b : Bool)
          → watched id (if b then some ws else lookup dir m)
            ≡ (if b then called id ws else watched id (lookup dir m))
      by_test true = refl
      by_test false = refl

  fresh :
      (ws : List Subscription) (s : Subscription)
      → any (λ w. w.id == s.id) ws ≡ false
      → (s.id == id) ≡ true
      → called id ws ≡ []
  fresh ws s new same =
      subst (λ i. called i ws ≡ []) ((==_iff s.id id).0 same) (called_absent s.id ws new)

  taken :
      (ws : List Subscription) (s : Subscription)
      → any (λ w. w.id == s.id) ws ≡ true
      → (s.id == id) ≡ true
      → called id ws ≢ []
  taken ws s dup same =
      subst (λ i. called i ws ≢ []) ((==_iff s.id id).0 same) (called_present s.id ws dup)

  appended-Calls :
      (ws : List Subscription) (s : Subscription) (c : Option ℕ) (m : Subscriptions)
      → ((s.abs_dir == dir) ≡ true → called id ws ≡ handle_event dir id m)
      → Calls c m
      → Calls (next s c) (appended ws s m).0
  unfolding appended next
  appended-Calls ws s (some c) m same h = elim (Bool-cases (any (λ w. w.id == s.id) ws)) [
    | inl dup ↦ rw dup h
    | inr new ↦ rw new (
        watched-insert (ws ++ s ∷ []) s m
        ∙ ground (arith, same, h, called-append id ws s, fresh ws s new))
  ]
  appended-Calls ws s none m same h = elim (Bool-cases (any (λ w. w.id == s.id) ws)) [
    | inl dup ↦ rw dup (ground (arith, same, h, taken ws s dup))
    | inr new ↦ rw new (
        watched-insert (ws ++ s ∷ []) s m
        ∙ ground (arith, same, h, called-append id ws s, fresh ws s new))
  ]

  added-Calls :
      (s : Subscription) (c : Option ℕ) (m : Subscriptions) (o : Option Error)
      → ((s.abs_dir == dir) ≡ true → (o ≡ none) × (handle_event dir id m ≡ []))
      → Calls c m
      → Calls (next s c) (added o s m).0
  unfolding added next called
  added-Calls s (some c) m (some e) first h = h
  added-Calls s none m (some e) first h = ground (arith, first, h)
  added-Calls s c m none first h = appended-Calls [] s c m (λ same. sym (first same).1) h

  subscribed-Calls :
      (s : Subscription) (c : Option ℕ) (m : Subscriptions) (o : Option (List Subscription))
      → add dir ≡ none
      → lookup s.abs_dir m ≡ o
      → Calls c m
      → Calls (next s c) (subscribed add o s m).0
  unfolding subscribed handle_event watched called
  subscribed-Calls s c m none accepted at h =
      added-Calls s c m (add s.abs_dir)
        (λ same.
          let here : s.abs_dir ≡ dir = (==_iff s.abs_dir dir).0 same in
          (ap add here ∙ accepted, ap (watched id) (subst (λ d. lookup d m ≡ none) here at)))
        h
  subscribed-Calls s c m (some ws) accepted at h =
      appended-Calls ws s c m
        (λ same.
          let here : s.abs_dir ≡ dir = (==_iff s.abs_dir dir).0 same in
          sym (ap (watched id) (subst (λ d. lookup d m ≡ some ws) here at)))
        h

  first_callback-next :
      (s : Subscription) (ss : List Subscription) (c : Option ℕ)
      → first_callback dir id (s ∷ ss) c ≡ first_callback dir id ss (next s c)
  unfolding first_callback next
  first_callback-next s ss (some c) = refl
  first_callback-next s ss none = refl

  subscribe_all-Calls :
      (ss : List Subscription) (c : Option ℕ) (m : Subscriptions)
      → add dir ≡ none
      → Calls c m
      → Calls (first_callback dir id ss c) (subscribe_all add ss m)
  unfolding subscribe_all do_subscribe first_callback
  subscribe_all-Calls [] none m accepted h = h
  subscribe_all-Calls [] (some c) m accepted h = h
  subscribe_all-Calls (s ∷ ss) c m accepted h =
      subscribe_all-Calls ss (next s c) (do_subscribe add s m).0 accepted
        (subscribed-Calls s c m (lookup s.abs_dir m) accepted refl h)
      ∙ ap given (sym (first_callback-next s ss c))

  -- For a directory that the file system watcher accepts, and after any subscriptions: an event for a
  -- file calls the callback of the first subscription for the file's directory and identifier, once,
  -- and no other; without such a subscription it calls none.
  pub handle_event-first_callback :
      (ss : List Subscription)
      → add dir ≡ none
      → handle_event dir id (subscribe_all add ss []) ≡ given (first_callback dir id ss none)
  unfolding handle_event watched lookup
  handle_event-first_callback ss accepted = subscribe_all-Calls ss none [] accepted refl
