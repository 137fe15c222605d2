-- ===== src/Watchers/Unsubscribing.antt =====
-- `doUnsubscribe` where each directory belongs to one bot, as it does for the directories that `Watch`
-- makes of a base directory and a bot type.
use go_sarah.Shared.{
  ◌≡◌, refl, sym, ap, ◌≢◌, ◌⊎◌, inl, inr, Bool, true, false, not, List, [], ◌∷◌, arith, ◌==◌,
  nat_eq, ==_iff, keep, any, All, Text, text_eq,
}
use go_sarah.Watchers.{Subscription, Subscriptions, kept, do_unsubscribe}

-- Every subscription of an entry is of the bot, or none is.
abbrev Owns : Text → List Subscription → Type 0
Owns b ws = All (λ w. w.bot_type ≡ b) ws

abbrev Foreign : Text → List Subscription → Type 0
Foreign b ws = All (λ w. w.bot_type ≢ b) ws

abbrev filled : List Subscription → Bool
filled [] = false
filled (w ∷ ws) = true

-- At most one entry is of the bot, and it is wholly so; no entry is empty.
abbrev pub OneDirectory : Text → Subscriptions → Type 0
OneDirectory b [] = Unit {0}
OneDirectory b ((dir, ws) ∷ m) =
    (filled ws ≡ true)
    × ((Foreign b ws × OneDirectory b m)
        ⊎ (Owns b ws × All (λ e. (filled e.1 ≡ true) × Foreign b e.1) m))

abbrev pub has_bot : Text → Text × List Subscription → Bool
has_bot b e = any (λ w. w.bot_type == b) e.1

keep-Foreign :
    (b : Text) (ws : List Subscription)
    → Foreign b ws
    → (keep (λ w. not (w.bot_type == b)) ws ≡ ws) × (any (λ w. w.bot_type == b) ws ≡ false)
keep-Foreign b [] h = (refl, refl)
keep-Foreign b (w ∷ ws) (h, hs) =
    let other : (w.bot_type == b) ≡ false = ground (arith, h, ==_iff w.bot_type b) in
    let (same, none_of) = keep-Foreign b ws hs in (rw (other, same), rw (other, none_of))

keep-Owns :
    (b : Text) (ws : List Subscription) → Owns b ws → keep (λ w. not (w.bot_type == b)) ws ≡ []
keep-Owns b [] h = refl
keep-Owns b (w ∷ ws) (h, hs) =
    let own : (w.bot_type == b) ≡ true = (==_iff w.bot_type b).1 h in rw (own, keep-Owns b ws hs)

has_bot-Owns :
    (b : Text) (ws : List Subscription)
    → filled ws ≡ true
    → Owns b ws
    → any (λ w. w.bot_type == b) ws ≡ true
has_bot-Owns b [] f h = absurd (ground (arith, f))
has_bot-Owns b (w ∷ ws) f (h, hs) = rw ((==_iff w.bot_type b).1 h)

keep-Foreign_entries :
    (b : Text) (m : Subscriptions)
    → All (λ e. (filled e.1 ≡ true) × Foreign b e.1) m
    → keep (λ e. not (has_bot b e)) m ≡ m
keep-Foreign_entries b [] h = refl
keep-Foreign_entries b ((dir, ws) ∷ m) ((f, h), hs) =
    rw ((keep-Foreign b ws h).1, keep-Foreign_entries b m hs)

-- If no entry is empty, and a bot has one directory at most, which no other bot shares, then in the order
-- in which the entries come `doUnsubscribe` drops the bot's entry and leaves every other as it is.
pub do_unsubscribe-keep :
    (b : Text) (m : Subscriptions)
    → OneDirectory b m
    → do_unsubscribe b m ≡ keep (λ e. not (has_bot b e)) m
unfolding do_unsubscribe kept
do_unsubscribe-keep b [] h = refl
do_unsubscribe-keep b ((dir, ws) ∷ m) (f, inr (own, foreign)) =
    rw (keep-Owns b ws own, has_bot-Owns b ws f own) (sym (keep-Foreign_entries b m foreign))
do_unsubscribe-keep b ((dir, w ∷ ws) ∷ m) (f, inl (foreign, rest)) =
    rw ((keep-Foreign b (w ∷ ws) foreign).0, (keep-Foreign b (w ∷ ws) foreign).1)
      (ap (λ t. (dir, w ∷ ws) ∷ t) (do_unsubscribe-keep b m rest))
do_unsubscribe-keep b ((dir, []) ∷ m) (f, inl (foreign, rest)) = absurd (ground (arith, f))
