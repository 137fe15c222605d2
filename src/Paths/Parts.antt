-- ===== src/Paths/Parts.antt =====
-- Paths that are made of parts, and what `split_slash` finds in them.
use go_sarah.Shared.{
  ℕ, ◌≡◌, refl, sym, ap, ◌∙◌, ◌≢◌, Bool, true, false, not, ◌&&◌, List, [], ◌∷◌, ◌++◌, append-nil,
  append_assoc, arith, ◌==◌, nat_eq, ==_iff, any, All, Text, codes, text_eq, is_empty, Lacks,
}
use go_sarah.Paths.{slash, glued, split_slash, path_of}

-- A part that `Clean` leaves alone.
pub record IsPart (p : Text) : Type 0 where
  pub lacks : Lacks slash p
  pub not_empty : p ≢ []
  pub not_dot : p ≢ codes "."
  pub not_dots : p ≢ codes ".."

split_slash-cons :
    (c : ℕ) (s : Text) → c ≢ slash → split_slash (c ∷ s) ≡ glued false c (split_slash s)
unfolding split_slash
split_slash-cons c s h = ground (arith, h)

pub split_slash-part : (p : Text) → Lacks slash p → split_slash p ≡ p ∷ []
unfolding split_slash
split_slash-part [] h = refl
split_slash-part (c ∷ p) (h, hs) =
    split_slash-cons c p h ∙ ap (glued false c) (split_slash-part p hs)

pub split_slash-append :
    (p s : Text) → Lacks slash p → split_slash (p ++ slash ∷ s) ≡ p ∷ split_slash s
unfolding split_slash
split_slash-append [] s h = refl
split_slash-append (c ∷ p) s (h, hs) =
    split_slash-cons c (p ++ slash ∷ s) h ∙ ap (glued false c) (split_slash-append p s hs)

pub path_of-append : (ps qs : List Text) → path_of (ps ++ qs) ≡ path_of ps ++ path_of qs
unfolding path_of
path_of-append [] qs = refl
path_of-append (p ∷ ps) qs =
    ap (λ t. slash ∷ (p ++ t)) (path_of-append ps qs)
    ∙ ap (λ t. slash ∷ t) (sym (append_assoc p (path_of ps) (path_of qs)))

split_slash-parts :
    (p : Text) (ps : List Text)
    → Lacks slash p
    → All IsPart ps
    → split_slash (p ++ path_of ps) ≡ p ∷ ps
unfolding path_of
split_slash-parts p [] h hs = ap split_slash (append-nil p) ∙ split_slash-part p h
split_slash-parts p (q ∷ ps) h (hq, hs) =
    split_slash-append p (q ++ path_of ps) h ∙ ap (λ t. p ∷ t) (split_slash-parts q ps hq.lacks hs)

-- Behind the first slash stand the parts.
pub split_slash-path_of : (ps : List Text) → All IsPart ps → split_slash (path_of ps) ≡ [] ∷ ps
split_slash-path_of ps h = split_slash-parts [] ps tt h

split_slash_closed :
    (p : Text) (ps : List Text)
    → Lacks slash p
    → All IsPart ps
    → split_slash (p ++ (path_of ps ++ slash ∷ [])) ≡ p ∷ (ps ++ [] ∷ [])
unfolding path_of split_slash
split_slash_closed p [] h hs = split_slash-append p [] h
split_slash_closed p (q ∷ ps) h (hq, hs) =
    split_slash-append p ((q ++ path_of ps) ++ slash ∷ []) h
    ∙ ap (λ t. p ∷ split_slash t) (append_assoc q (path_of ps) (slash ∷ []))
    ∙ ap (λ t. p ∷ t) (split_slash_closed q ps hq.lacks hs)

-- A slash at the end gives one empty part more.
pub split_slash-path_of_closed :
    (ps : List Text) → All IsPart ps → split_slash (path_of ps ++ slash ∷ []) ≡ [] ∷ (ps ++ [] ∷ [])
split_slash-path_of_closed ps h = split_slash_closed [] ps tt h

-- The test for a part.
unfoldable pub is_part : Text → Bool
is_part p =
    not (is_empty p)
    && (not (p == codes ".") && (not (p == codes "..") && not (any (λ c. c == slash) p)))

Lacks-any : (p : Text) → any (λ c. c == slash) p ≡ false → Lacks slash p
Lacks-any [] h = tt
Lacks-any (c ∷ p) h = ((λ e. ground (arith, h, e)), Lacks-any p (ground (arith, h)))

pub IsPart-is_part : (p : Text) → is_part p ≡ true → IsPart p
unfolding is_part
IsPart-is_part p h = record {
  lacks = Lacks-any p (ground (arith, h));
  not_empty = λ e. ground (arith, h, ap is_empty e);
  not_dot = λ e. ground (arith, h, ==_iff p (codes "."), e);
  not_dots = λ e. ground (arith, h, ==_iff p (codes ".."), e);
}
