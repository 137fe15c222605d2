-- ===== src/Paths/Files.antt =====
-- A file in a directory: its path taken apart.
use go_sarah.Shared.{
  ℕ, ◌≡◌, refl, sym, ap, ◌∙◌, ◌≢◌, true, false, List, [], ◌∷◌, ◌++◌, append-nil, arith, ◌==◌,
  nat_eq, ==_iff, ==_self, length, any, length-append, All, All-append, Text, text_eq, Lacks,
  Result, ok,
}
use go_sarah.Errors.{Error}
use go_sarah.Paths.{
  slash, dot, split, extended, dir_of, ext, trim_suffix, path_of, clean, abs, is_abs, joined,
}
use go_sarah.Paths.Parts.{IsPart, path_of-append}
use go_sarah.Paths.Clean.{abs_path, clean_closed, clean-abs_path}

split_file : (f : Text) → Lacks slash f → split f ≡ ([], f)
unfolding split
split_file [] h = refl
split_file (c ∷ f) (h, hs) = ap (extended c) (split_file f hs) ∙ ground (arith, h)

extended-dir : (c d : ℕ) (ds f : Text) → extended c (d ∷ ds, f) ≡ (c ∷ d ∷ ds, f)
extended-dir c d ds f = ground arith

filled : (d : Text) → (c : ℕ) × (s : Text) × (d ++ slash ∷ [] ≡ c ∷ s)
filled [] = (slash, [], refl)
filled (c ∷ d) = (c, d ++ slash ∷ [], refl)

pub split-append : (d f : Text) → Lacks slash f → split (d ++ slash ∷ f) ≡ (d ++ slash ∷ [], f)
unfolding split
split-append [] f h = ap (extended slash) (split_file f h)
split-append (c ∷ d) f h =
    let (e, s, shape) = filled d in
    ap (extended c) (split-append d f h) ∙ rw shape (extended-dir c e s f)

ext_plain : (e : Text) → Lacks dot e → ext e ≡ []
unfolding ext
ext_plain [] h = refl
ext_plain (c ∷ e) (h, hs) = ground (arith, h, ext_plain e hs)

any-slash : (e : Text) → Lacks slash e → any (λ d. d == slash) e ≡ false
any-slash [] h = refl
any-slash (c ∷ e) (h, hs) = ground (arith, h, any-slash e hs)

pub ext-append : (s e : Text) → Lacks dot e → Lacks slash e → ext (s ++ dot ∷ e) ≡ dot ∷ e
unfolding ext
ext-append [] e h k = ground (arith, ext_plain e h, any-slash e k)
ext-append (c ∷ s) e h k = ground (arith, ext-append s e h k)

longer : (c : ℕ) (s t : Text) → (c ∷ (s ++ t)) ≢ t
longer c s t e = omega (arith, ap length e, length-append s t)

pub trim_suffix-append : (s : Text) (c : ℕ) (t : Text) → trim_suffix (s ++ c ∷ t) (c ∷ t) ≡ s
unfolding trim_suffix
trim_suffix-append [] c t = ground (arith, ==_self (c ∷ t))
trim_suffix-append (d ∷ s) c t =
    ground (arith, trim_suffix-append s c t, ==_iff (d ∷ (s ++ c ∷ t)) (c ∷ t), longer d s (c ∷ t))

-- The path of a file in the directory with the parts `ps`.
abbrev pub file_path : List Text → Text → Text
file_path ps file = path_of ps ++ slash ∷ file

pub file_path-abs_path :
    (ps : List Text) (file : Text) → file_path ps file ≡ abs_path (ps ++ file ∷ [])
unfolding joined path_of
file_path-abs_path [] file = ap (λ t. slash ∷ t) (sym (append-nil file))
file_path-abs_path (p ∷ ps) file = sym (
    path_of-append (p ∷ ps) (file ∷ []) ∙ ap (λ t. path_of (p ∷ ps) ++ slash ∷ t) (append-nil file))

is_abs-file_path : (ps : List Text) (file : Text) → is_abs (file_path ps file) ≡ true
unfolding path_of
is_abs-file_path [] file = refl
is_abs-file_path (p ∷ ps) file = refl

pub clean-file_path :
    (ps : List Text) (file : Text)
    → All IsPart ps
    → IsPart file
    → clean (file_path ps file) ≡ file_path ps file
clean-file_path ps file h k =
    rw (file_path-abs_path ps file)
      (clean-abs_path (ps ++ file ∷ []) (All-append IsPart ps (file ∷ []) h (k, tt)))

-- `Abs` of such a path.
pub abs-file_path :
    (cwd : Result Error Text) (ps : List Text) (file : Text)
    → All IsPart ps
    → IsPart file
    → abs cwd (file_path ps file) ≡ ok (file_path ps file)
unfolding abs
abs-file_path cwd ps file h k = rw (is_abs-file_path ps file, clean-file_path ps file h k)

pub split-file_path :
    (ps : List Text) (file : Text)
    → Lacks slash file
    → split (file_path ps file) ≡ (path_of ps ++ slash ∷ [], file)
split-file_path ps file h = split-append (path_of ps) file h

-- `filepath.Dir` of what `Split` gives as a directory.
pub dir_of-closed :
    (ps : List Text) → All IsPart ps → dir_of (path_of ps ++ slash ∷ []) ≡ abs_path ps
unfolding dir_of
dir_of-closed ps h = ap (λ t. clean t.0) (split-append (path_of ps) [] tt) ∙ clean_closed ps h
