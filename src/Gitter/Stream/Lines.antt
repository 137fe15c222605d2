-- ===== src/Gitter/Stream/Lines.antt =====
-- The lines of a stream.
use go_sarah.Shared.{
  ◌<◌, ◌≡◌, refl, sym, ap, ◌∙◌, Option, none, some, List, [], ◌∷◌, ◌++◌, append_assoc, arith,
  nat_eq, length, All, Text, text_eq, Lacks,
}
use go_sarah.Gitter.Stream.{newline, up_to_newline, line_in, read_bytes}

up_to_newline-Lacks : (s : Text) → Lacks newline s → up_to_newline s ≡ none
unfolding up_to_newline
up_to_newline-Lacks [] h = refl
up_to_newline-Lacks (c ∷ s) (h, hs) = rw (up_to_newline-Lacks s hs) (ground (arith, h))

up_to_newline-append :
    (s rest : Text)
    → Lacks newline s
    → up_to_newline (s ++ newline ∷ rest) ≡ some (s ++ newline ∷ [])
unfolding up_to_newline
up_to_newline-append [] rest h = refl
up_to_newline-append (c ∷ s) rest (h, hs) = rw (up_to_newline-append s rest hs) (ground (arith, h))

-- Chunks without a newline, one after the other.
abbrev pub joined : List Text → Text
joined [] = []
joined (p ∷ ps) = p ++ joined ps

-- A line whose newline ends its last chunk, in any pieces.
pub record Line : Type 0 where
  pub pieces : List Text
  pub last : Text

abbrev pub IsLine : Line → Type 0
IsLine l = All (Lacks newline) l.pieces × Lacks newline l.last

abbrev pub text_of : Line → Text
text_of l = joined l.pieces ++ l.last

-- The chunks of a line, with more bytes behind the newline.
abbrev pub chunks_with : Line → Text → List Text
chunks_with l behind = l.pieces ++ (l.last ++ newline ∷ behind) ∷ []

-- The line is read, and what is behind its newline in the same chunk is lost.
pub read_bytes-line :
    (acc : Text) (pieces : List Text) (last behind : Text) (rest : List Text)
    → All (Lacks newline) pieces
    → Lacks newline last
    → read_bytes acc (pieces ++ (last ++ newline ∷ behind) ∷ rest)
      ≡ some (acc ++ (joined pieces ++ (last ++ newline ∷ [])), rest)
unfolding read_bytes line_in
read_bytes-line acc [] last behind rest hs h = rw (up_to_newline-append last behind h) refl
read_bytes-line acc (p ∷ ps) last behind rest (h, hs) k =
    rw (up_to_newline-Lacks p h) (read_bytes-line (acc ++ p) ps last behind rest hs k)
    ∙ ap (λ t. some (t, rest))
        (append_assoc acc p (joined ps ++ (last ++ newline ∷ []))
          ∙ ap (λ t. acc ++ t) (sym (append_assoc p (joined ps) (last ++ newline ∷ []))))

line_in-rest :
    (acc : Text) (more : Option (Text × List Text)) (s line : Text) (chunks rest : List Text)
    → line_in acc chunks more (some s) ≡ some (line, rest)
    → chunks ≡ rest
unfolding line_in
line_in-rest acc more s line chunks rest e = ap (λ o. elim o [ none ↦ [] | some t ↦ t.1 ]) e

pub read_bytes-rest :
    (acc : Text) (chunks : List Text) (line : Text) (rest : List Text)
    → read_bytes acc chunks ≡ some (line, rest)
    → length rest < length chunks
unfolding read_bytes
read_bytes-rest acc [] line rest h = cc
read_bytes-rest acc (chunk ∷ chunks) line rest h =
    by_newline (up_to_newline chunk) h (read_bytes-rest (acc ++ chunk) chunks line rest)
  where
    by_newline :
        (o : Option Text)
        → line_in acc chunks (read_bytes (acc ++ chunk) chunks) o ≡ some (line, rest)
        → (read_bytes (acc ++ chunk) chunks ≡ some (line, rest) → length rest < length chunks)
        → length rest < length (chunk ∷ chunks)
    by_newline none e ih = omega (arith, ih e)
    by_newline (some s) e ih = omega (
      arith,
      ap length (line_in-rest acc (read_bytes (acc ++ chunk) chunks) s line chunks rest e),
    )

pub read_bytes-none :
    (acc : Text) (chunks : List Text) → All (Lacks newline) chunks → read_bytes acc chunks ≡ none
unfolding read_bytes line_in
read_bytes-none acc [] h = refl
read_bytes-none acc (chunk ∷ chunks) (h, hs) =
    rw (up_to_newline-Lacks chunk h) (read_bytes-none (acc ++ chunk) chunks hs)
