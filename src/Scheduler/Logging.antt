-- ===== src/Scheduler/Logging.antt =====
-- scheduler.go: `cronLogAdapter`, which turns a call of cron's logger into one of the framework's: a
-- format string and its arguments.
use go_sarah.Shared.{
  ℕ, zero, suc, ◌+◌, ◌*◌, ◌/◌, ◌≡◌, refl, ap, inl, inr, List, [], ◌∷◌, ◌++◌, arith, ltb,
  if◌then◌else◌, Bool-cases, ◌==◌, nat_eq, length, tally, Text, codes, text_eq,
}

-- An argument of cron: a time or a `fmt.Stringer`, by the string that the adapter makes of it, or any
-- other value; and what the adapter hands on.
pub data Value (A : Type 0) : Type 0 where
  time stringer : Text → Value A
  other : A → Value A

pub data Argument (A : Type 0) : Type 0 where
  string : Text → Argument A
  value : A → Argument A

module _ {A : Type 0} where
  convert : Value A → Argument A
  convert (time t) = string t
  convert (stringer t) = string t
  convert (other a) = value a

  -- `convertKeyValues`.
  unfoldable pub convert_key_values : List (Value A) → List (Argument A)
  unfolding convert
  convert_key_values [] = []
  convert_key_values (v ∷ vs) = convert v ∷ convert_key_values vs

-- The loop of `formatString`, from the index `i` for `n` rounds.
pairs : ℕ → ℕ → Text
pairs i zero = []
pairs i (suc n) =
    let rest = pairs (i + 1) n in (if ltb 0 i then codes ", %v=%v" else codes "%v=%v") ++ rest

unfoldable pub format_string : ℕ → Text
unfolding pairs
format_string n = codes "%s" ++ ((if ltb 1 n then codes ", " else []) ++ pairs 0 (n / 2))

-- The format and the arguments of `Infof` and `Errorf`.
unfoldable pub info : {A : Type 0} → Text → List (Value A) → Text × List (Argument A)
info msg vs = let args = string msg ∷ convert_key_values vs in (format_string (length args), args)

unfoldable pub error : {A : Type 0} → A → Text → List (Value A) → Text × List (Argument A)
error e msg vs =
    let args = string msg ∷ string (codes "error") ∷ value e ∷ convert_key_values vs in
    (format_string (length args), args)

-- The verbs of a format: its percent signs.
unfoldable pub verbs : Text → ℕ
verbs t = tally (λ c. if c == 37 then 1 else 0) t

verbs-pairs : (i n : ℕ) → verbs (pairs i n) ≡ 2 * n
unfolding verbs pairs
verbs-pairs i zero = refl
verbs-pairs zero (suc n) = omega (arith, verbs-pairs 1 n)
verbs-pairs (suc i) (suc n) = grind (arith, verbs-pairs (suc i + 1) n)

verbs-format_string : (n : ℕ) → verbs (format_string n) ≡ 1 + 2 * (n / 2)
unfolding verbs format_string
verbs-format_string n = elim (Bool-cases (ltb 1 n)) [
  | inl more ↦ rw more (omega (arith, verbs-pairs 0 (n / 2)))
  | inr none_follow ↦ rw none_follow (omega (arith, verbs-pairs 0 (n / 2)))
]

length-convert_key_values :
    {A : Type 0} (vs : List (Value A)) → length (convert_key_values vs) ≡ length vs
unfolding convert_key_values
length-convert_key_values [] = refl
length-convert_key_values (v ∷ vs) = ap suc (length-convert_key_values vs)

-- For keys and values that come in pairs, the format has a verb for each argument, for information and
-- for errors.
pub verbs-info :
    {A : Type 0} (msg : Text) (e : A) (vs : List (Value A)) (k : ℕ)
    → length vs ≡ 2 * k
    → (verbs (info msg vs).0 ≡ length (info msg vs).1)
      × (verbs (error e msg vs).0 ≡ length (error e msg vs).1)
unfolding info error
verbs-info msg e vs k h = (
  omega (
    arith,
    verbs-format_string (suc (length (convert_key_values vs))),
    length-convert_key_values vs,
  ),
  omega (
    arith,
    verbs-format_string (suc (suc (suc (length (convert_key_values vs))))),
    length-convert_key_values vs,
  ),
)
