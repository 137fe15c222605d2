-- ===== src/Paths/Clean.antt =====
-- `Clean` leaves a path of parts alone, and drops a slash at its end.
use go_sarah.Shared.{
  ◌≡◌, refl, ap, ◌∙◌, true, List, [], ◌∷◌, ◌++◌, reverse, reverse_aux, reverse-reverse, arith,
  nat_eq, ==_iff, All, Text, codes, text_eq, is_empty,
}
use go_sarah.Paths.{slash, split_slash, path_of, resolve, resolve_all, joined, is_abs, clean}
use go_sarah.Paths.Parts.{IsPart, split_slash-path_of, split_slash-path_of_closed}

resolve-IsPart : (stack : List Text) (p : Text) → IsPart p → resolve true stack p ≡ p ∷ stack
unfolding resolve
resolve-IsPart stack p h = ground (
  arith,
  h.not_empty,
  h.not_dot,
  h.not_dots,
  empty p,
  ==_iff p (codes "."),
  ==_iff p (codes ".."),
)
  where
    empty : (q : Text) → is_empty q ≡ true → q ≡ []
    empty [] e = refl
    empty (c ∷ q) e = cc

resolve_all-IsPart :
    (stack ps : List Text) → All IsPart ps → resolve_all true stack ps ≡ reverse_aux ps stack
unfolding resolve_all
resolve_all-IsPart stack [] h = refl
resolve_all-IsPart stack (p ∷ ps) (h, hs) =
    ap (λ t. resolve_all true t ps) (resolve-IsPart stack p h)
    ∙ resolve_all-IsPart (p ∷ stack) ps hs

resolve_empty : (stack : List Text) → resolve true stack [] ≡ stack
unfolding resolve
resolve_empty stack = refl

resolve_all-append :
    (stack ps qs : List Text)
    → resolve_all true stack (ps ++ qs) ≡ resolve_all true (resolve_all true stack ps) qs
unfolding resolve_all
resolve_all-append stack [] qs = refl
resolve_all-append stack (p ∷ ps) qs = resolve_all-append (resolve true stack p) ps qs

resolved : (ps : List Text) → All IsPart ps → reverse (resolve_all true [] ([] ∷ ps)) ≡ ps
unfolding resolve_all resolve
resolved ps h = ap reverse (resolve_all-IsPart [] ps h) ∙ reverse-reverse ps

resolved_closed :
    (ps : List Text) → All IsPart ps → reverse (resolve_all true [] ([] ∷ (ps ++ [] ∷ []))) ≡ ps
unfolding resolve_all resolve
resolved_closed ps h = ap reverse (resolve_all-append [] ps ([] ∷ [])) ∙ resolved ps h

-- The absolute path of parts.
abbrev pub abs_path : List Text → Text
abs_path ps = joined true ps

is_abs-path_of : (p : Text) (ps : List Text) → is_abs (path_of (p ∷ ps)) ≡ true
unfolding path_of
is_abs-path_of p ps = refl

clean_parts :
    (s : Text) (ps qs : List Text)
    → is_abs s ≡ true
    → split_slash s ≡ qs
    → reverse (resolve_all true [] qs) ≡ ps
    → clean s ≡ abs_path ps
unfolding clean
clean_parts s ps qs rooted parts done = rw (rooted, parts, done)

pub clean-abs_path : (ps : List Text) → All IsPart ps → clean (abs_path ps) ≡ abs_path ps
unfolding joined
clean-abs_path [] h = unfold clean split_slash resolve_all resolve joined in refl
clean-abs_path (p ∷ ps) h =
    clean_parts (path_of (p ∷ ps)) (p ∷ ps) ([] ∷ p ∷ ps) (is_abs-path_of p ps)
      (split_slash-path_of (p ∷ ps) h) (resolved (p ∷ ps) h)

-- With a slash at the end, for any parts.
pub clean_closed : (ps : List Text) → All IsPart ps → clean (path_of ps ++ slash ∷ []) ≡ abs_path ps
unfolding path_of
clean_closed [] h = unfold clean split_slash resolve_all resolve joined in refl
clean_closed (p ∷ ps) h =
    clean_parts (path_of (p ∷ ps) ++ slash ∷ []) (p ∷ ps) ([] ∷ ((p ∷ ps) ++ [] ∷ [])) refl
      (split_slash-path_of_closed (p ∷ ps) h) (resolved_closed (p ∷ ps) h)

-- With one more slash at its start.
pub clean_doubled :
    (p : Text) (ps : List Text)
    → All IsPart (p ∷ ps)
    → clean (slash ∷ path_of (p ∷ ps)) ≡ abs_path (p ∷ ps)
unfolding split_slash resolve_all resolve
clean_doubled p ps h =
    clean_parts (slash ∷ path_of (p ∷ ps)) (p ∷ ps) ([] ∷ [] ∷ p ∷ ps) refl
      (ap (λ t. [] ∷ t) (split_slash-path_of (p ∷ ps) h)) (resolved (p ∷ ps) h)
