-- ===== src/Paths.antt =====
-- path/filepath on Unix, as far as watchers/filewatcher.go uses it, over paths as bytes: 47 is the slash
-- and 46 the dot.
pub mod Parts
pub mod Clean
pub mod Files
use go_sarah.Shared.{
  ℕ, zero, suc, ◌+◌, ◌-◌, ◌*◌, ◌/◌, ◌%◌, ◌≤◌, ◌<◌, ◌≡◌, refl, sym, ap, subst, ◌∙◌, fun_ext, ◌≢◌,
  ◌↔◌, ◌⊎◌, inl, inr, Bool, true, false, not, ◌&&◌, ◌||◌, Option, none, some, List, [], ◌∷◌, ◌++◌,
  map, append-nil, append_assoc, map-append, reverse, reverse_aux, reverse-reverse, arith,
  add_assoc, add_comm, add-zero, ltb, leb, nat_beq, if◌then◌else◌, nat_beq_iff, if_same, Bool-cases,
  Option-cases, is_nil, Eq, ◌==◌, nat_eq, ==_iff, ==_self, length, get_elem?, set, index_func, keep,
  any, tally, tally-append, tally_middle, length-append, keep-append, All, All-append, Text, codes,
  text_beq, text_eq, is_empty, Lacks, Lacks-append, split_unique, Map, lookup, insert, delete,
  lookup-insert, lookup-delete, Result, ok, err, Outcome, returns, panics, is_space, trim_left,
  trim_space, IsTrimmed, Blank, trim_space-surrounded, is_empty-IsTrimmed,
}
use go_sarah.Errors.{Error}

abbrev pub slash : ℕ
slash = 47

abbrev pub dot : ℕ
dot = 46

-- The parts between the slashes.
abbrev pub glued : Bool → ℕ → List Text → List Text
glued true c parts = [] ∷ parts
glued false c [] = (c ∷ []) ∷ []
glued false c (p ∷ parts) = (c ∷ p) ∷ parts

unfoldable pub split_slash : Text → List Text
split_slash [] = [] ∷ []
split_slash (c ∷ s) = glued (c == slash) c (split_slash s)

-- The stack of `Clean`, with its top at the head, after a part `..`.
abbrev pub climbed : Bool → List Text → List Text
climbed true [] = []
climbed false [] = codes ".." ∷ []
climbed rooted (p ∷ stack) = if p == codes ".." then codes ".." ∷ p ∷ stack else stack

unfoldable pub resolve : Bool → List Text → Text → List Text
resolve rooted stack part =
    if is_empty part || part == codes "."
    then stack
    else if part == codes ".."
    then climbed rooted stack
    else part ∷ stack

unfoldable pub resolve_all : Bool → List Text → List Text → List Text
resolve_all rooted stack [] = stack
resolve_all rooted stack (p ∷ parts) = resolve_all rooted (resolve rooted stack p) parts

-- Each part with a slash before it.
unfoldable pub path_of : List Text → Text
path_of [] = []
path_of (p ∷ parts) = slash ∷ (p ++ path_of parts)

unfoldable pub joined : Bool → List Text → Text
joined true [] = slash ∷ []
joined false [] = dot ∷ []
joined true (p ∷ parts) = path_of (p ∷ parts)
joined false (p ∷ parts) = p ++ path_of parts

abbrev pub is_abs : Text → Bool
is_abs [] = false
is_abs (c ∷ s) = c == slash

-- `filepath.Clean`.
unfoldable pub clean : Text → Text
clean s = joined (is_abs s) (reverse (resolve_all (is_abs s) [] (split_slash s)))

-- `filepath.Join` of two elements.
unfoldable pub join : Text → Text → Text
join [] [] = []
join [] (c ∷ t) = clean (c ∷ t)
join (c ∷ s) [] = clean (c ∷ s)
join (c ∷ s) (d ∷ t) = clean ((c ∷ s) ++ slash ∷ (d ∷ t))

-- The elements with slashes between them, without empty ones at the start.
unfoldable pub join_from : Text → List Text → Text
join_from s [] = s
join_from [] (e ∷ es) = join_from e es
join_from (c ∷ s) (e ∷ es) = join_from ((c ∷ s) ++ slash ∷ e) es

-- `path.Join`.
unfoldable pub join_all : List Text → Text
join_all es = let s = join_from [] es in if is_empty s then [] else clean s

-- `filepath.Abs`; `cwd` is what `os.Getwd` answers.
unfoldable pub abs : Result Error Text → Text → Result Error Text
abs cwd s = if is_abs s then ok (clean s) else elim cwd [ ok wd ↦ ok (join wd s) | err e ↦ err e ]

-- `filepath.Split`: up to the last slash, and what follows it.
abbrev pub extended : ℕ → Text × Text → Text × Text
extended c (dir, file) =
    if c == slash then (c ∷ dir, file) else if is_empty dir then ([], c ∷ file) else (c ∷ dir, file)

unfoldable pub split : Text → Text × Text
split [] = ([], [])
split (c ∷ s) = extended c (split s)

-- `filepath.Dir`.
unfoldable pub dir_of : Text → Text
dir_of s = clean (split s).0

-- `filepath.Ext`: from the last dot after the last slash.
unfoldable pub ext : Text → Text
ext [] = []
ext (c ∷ s) =
    let rest = ext s in
    if is_empty rest
    then if (c == dot) && not (any (λ d. d == slash) s) then c ∷ s else []
    else rest

-- `strings.TrimSuffix`.
unfoldable pub trim_suffix : Text → Text → Text
trim_suffix [] suffix = []
trim_suffix (c ∷ s) suffix =
    let rest = trim_suffix s suffix in if (c ∷ s) == suffix then [] else c ∷ rest
