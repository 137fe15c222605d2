-- ===== src/Shared/Spaces.antt =====
-- Spaces and letters of texts.
use Prim.Native.Nat.{ℕ, ◌+◌}
use mathlib.Core.Path.{◌≡◌, refl, ap, ◌∙◌}
use mathlib.Core.Bool.{Bool, true, false, not, ◌&&◌, ◌||◌}
use mathlib.Core.List.{[], ◌∷◌, ◌++◌, reverse, reverse_aux, reverse-reverse, map}
use native.Mathlib.Omega.{arith}
use go_sarah.Shared.Tests.{leb, if◌then◌else◌, ◌==◌, nat_eq}
use go_sarah.Shared.Lists.{All}
use go_sarah.Shared.Texts.{Text, is_empty}

-- `strings.TrimSpace` and `bytes.TrimSpace`, on ASCII.
abbrev pub is_space : ℕ → Bool
is_space c = (c == 32) || (leb 9 c && leb c 13)

unfoldable pub trim_left : Text → Text
trim_left [] = []
trim_left (c ∷ s) = let rest = trim_left s in if is_space c then rest else c ∷ s

unfoldable pub trim_space : Text → Text
trim_space s = reverse (trim_left (reverse (trim_left s)))

-- Begins with a byte that is not a space.
abbrev visible : Text → Bool
visible [] = false
visible (c ∷ s) = not (is_space c)

abbrev pub IsTrimmed : Text → Type 0
IsTrimmed c = (visible c ≡ true) × (visible (reverse c) ≡ true)

abbrev pub Blank : Text → Type 0
Blank s = All (λ c. is_space c ≡ true) s

trim_left-visible : (s : Text) → visible s ≡ true → trim_left s ≡ s
unfolding trim_left
trim_left-visible [] h = refl
trim_left-visible (c ∷ s) h = let seen : is_space c ≡ false = ground (arith, h) in rw seen refl

trim_left-Blank : (a s : Text) → Blank a → trim_left (a ++ s) ≡ trim_left s
unfolding trim_left
trim_left-Blank [] s h = refl
trim_left-Blank (c ∷ a) s (h, hs) = rw h (trim_left-Blank a s hs)

visible-append : (s t : Text) → visible s ≡ true → visible (s ++ t) ≡ true
visible-append [] t h = absurd (ground (arith, h))
visible-append (c ∷ s) t h = h

reverse_aux-Blank : (s acc : Text) → Blank s → Blank acc → Blank (reverse_aux s acc)
reverse_aux-Blank [] acc h k = k
reverse_aux-Blank (c ∷ s) acc (h, hs) k = reverse_aux-Blank s (c ∷ acc) hs (h, k)

reverse_aux-append : (s t acc : Text) → reverse_aux (s ++ t) acc ≡ reverse_aux t (reverse_aux s acc)
reverse_aux-append [] t acc = refl
reverse_aux-append (c ∷ s) t acc = reverse_aux-append s t (c ∷ acc)

reverse_aux-onto : (s p acc : Text) → reverse_aux s (p ++ acc) ≡ reverse_aux s p ++ acc
reverse_aux-onto [] p acc = refl
reverse_aux-onto (c ∷ s) p acc = reverse_aux-onto s (c ∷ p) acc

-- What stands around a word is trimmed.
pub trim_space-surrounded :
    (a c b : Text) → Blank a → Blank b → IsTrimmed c → trim_space (a ++ (c ++ b)) ≡ c
unfolding trim_space
trim_space-surrounded a c b ha hb (first, last) =
    ap (λ s. reverse (trim_left (reverse s)))
      (trim_left-Blank a (c ++ b) ha ∙ trim_left-visible (c ++ b) (visible-append c b first))
    ∙ ap (λ s. reverse (trim_left s))
        (reverse_aux-append c b [] ∙ reverse_aux-onto b [] (reverse c))
    ∙ ap reverse (
        trim_left-Blank (reverse b) (reverse c) (reverse_aux-Blank b [] hb tt)
        ∙ trim_left-visible (reverse c) last)
    ∙ reverse-reverse c

pub is_empty-IsTrimmed : (w : Text) → IsTrimmed w → is_empty w ≡ false
is_empty-IsTrimmed [] (h, k) = absurd (ground (arith, h))
is_empty-IsTrimmed (c ∷ w) h = refl

-- `strings.ToLower`, on ASCII.
abbrev pub lower : ℕ → ℕ
lower c = if leb 65 c && leb c 90 then c + 32 else c

abbrev pub to_lower : Text → Text
to_lower s = map lower s
