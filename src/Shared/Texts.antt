-- ===== src/Shared/Texts.antt =====
-- Go strings as lists of bytes.
use Prim.Native.Nat.{ℕ}
use Prim.Native.Char.{code}
use Prim.Native.String.{String}
use mathlib.Core.Path.{◌≡◌, refl}
use mathlib.Core.Logic.{◌↔◌, ◌≢◌}
use mathlib.Core.Option.{Option, none, some}
use mathlib.Core.Bool.{Bool, true, false, ◌&&◌}
use mathlib.Core.List.{List, [], ◌∷◌, ◌++◌}
use native.Mathlib.Omega.{arith}
use go_sarah.Shared.Tests.{Eq, nat_beq}

abbrev pub Text : Type 0
Text = List ℕ

-- The bytes of an ASCII literal.
abbrev pub codes : String → Text
codes String.[] = []
codes (String.◌∷◌ letter letters) = code letter ∷ codes letters

unfoldable pub text_beq : Text → Text → Bool
text_beq [] [] = true
text_beq [] (b ∷ t) = false
text_beq (a ∷ s) [] = false
text_beq (a ∷ s) (b ∷ t) = nat_beq a b && text_beq s t

text_eq_of_beq : (s t : Text) → text_beq s t ≡ true → s ≡ t
unfolding text_beq
text_eq_of_beq [] [] h = refl
text_eq_of_beq [] (b ∷ t) h = cc
text_eq_of_beq (a ∷ s) [] h = cc
text_eq_of_beq (a ∷ s) (b ∷ t) h = ground (arith, text_eq_of_beq s t)

text_beq_self : (s : Text) → text_beq s s ≡ true
unfolding text_beq
text_beq_self [] = refl
text_beq_self (a ∷ s) = ground (arith, text_beq_self s)

pub text_beq_iff : (s t : Text) → (text_beq s t ≡ true) ↔ (s ≡ t)
text_beq_iff s t = (text_eq_of_beq s t, λ e. rw e (text_beq_self t))

instance abbrev pub text_eq : Eq Text
text_eq = record { compares = text_beq; compares_iff = text_beq_iff }

-- Go's `s == ""`.
abbrev pub is_empty : Text → Bool
is_empty [] = true
is_empty (c ∷ s) = false

-- A byte does not occur in a text.
abbrev pub Lacks : ℕ → Text → Type 0
Lacks c [] = Unit {0}
Lacks c (a ∷ s) = (a ≢ c) × Lacks c s

pub Lacks-append : (c : ℕ) (s t : Text) → Lacks c s → Lacks c t → Lacks c (s ++ t)
Lacks-append c [] t hs ht = ht
Lacks-append c (a ∷ s) t (h, hs) ht = (h, Lacks-append c s t hs ht)

abbrev uncons : Text → Option (ℕ × Text)
uncons [] = none
uncons (a ∷ s) = some (a, s)

-- What stands before and after the first separator can be read back.
pub split_unique :
    (c : ℕ) (s t u v : Text) → Lacks c s → Lacks c t → s ++ c ∷ u ≡ t ++ c ∷ v → (s ≡ t) × (u ≡ v)
split_unique c [] [] u v hs ht e = (refl, cc)
split_unique c [] (b ∷ t) u v hs ht e = absurd (ht.0 (cc))
split_unique c (a ∷ s) [] u v hs ht e = absurd (hs.0 (cc))
split_unique c (a ∷ s) (b ∷ t) u v hs ht e =
    let (front, back) = split_unique c s t u v hs.1 ht.1 (cc) in (cc, back)
