-- ===== src/Commands/Collection.antt =====
-- The collection of commands: registration, search and helps, against plain recursions.
use go_sarah.Shared.{
  ◌≡◌, refl, sym, ap, ◌≢◌, inl, inr, Bool, true, false, not, Option, none, some, List, [], ◌∷◌,
  ◌++◌, map, arith, if◌then◌else◌, Bool-cases, ◌==◌, nat_eq, ==_iff, index_func, keep, any, All,
  Text, text_eq, is_empty, ok, returns,
}
use go_sarah.Messages.{Input}
use go_sarah.Commands.{
  Command, CommandHelp, append, put_at, find_first_matched, found_at, execute_first_matched,
  collect_helps,
}

module _ {ℓ} {A : Type ℓ} (p : A → Bool) where
  -- The first element that passes a test.
  unfoldable pub first : List A → Option A
  first [] = none
  first (x ∷ xs) = if p x then some x else first xs

  -- Puts `a` in the place of the first element that passes, or at the end.
  unfoldable pub upsert : A → List A → List A
  upsert a [] = a ∷ []
  upsert a (x ∷ xs) = if p x then a ∷ xs else x ∷ upsert a xs

module _ {D V F : Type 0} where
  put_at-upsert :
      (p : Command D V F → Bool) (c : Command D V F) (cs : List (Command D V F))
      → put_at (index_func p cs) c cs ≡ upsert p c cs
  unfolding put_at index_func upsert
  put_at-upsert p c [] = refl
  put_at-upsert p c (x ∷ cs) = ground (arith, put_at-upsert p c cs)

  found_at-first :
      (p : Command D V F → Bool) (cs : List (Command D V F))
      → found_at (index_func p cs) cs ≡ first p cs
  unfolding found_at index_func first
  found_at-first p [] = refl
  found_at-first p (x ∷ cs) = ground (arith, found_at-first p cs)

  abbrev pub identifiers : List (Command D V F) → List Text
  identifiers = map λ c. c.identifier

  -- The command that stands under an identifier.
  abbrev pub by_identifier : Text → List (Command D V F) → Option (Command D V F)
  by_identifier id = first λ c. c.identifier == id

  pub append_lem :
      (c : Command D V F) (cs : List (Command D V F))
      → append c cs ≡ upsert (λ x. x.identifier == c.identifier) c cs
  unfolding append
  append_lem c cs = put_at-upsert (λ x. x.identifier == c.identifier) c cs

  by_identifier-upsert :
      (c : Command D V F) (id : Text) (cs : List (Command D V F))
      → by_identifier id (upsert (λ x. x.identifier == c.identifier) c cs)
        ≡ (if c.identifier == id then some c else by_identifier id cs)
  unfolding first upsert
  by_identifier-upsert c id [] = refl
  by_identifier-upsert c id (x ∷ cs) = ground (
    arith,
    ==_iff c.identifier id,
    ==_iff x.identifier id,
    ==_iff x.identifier c.identifier,
    by_identifier-upsert c id cs,
  )

  -- Appending a command changes what stands under its own identifier, to the new command, and
  -- nothing under any other identifier.
  pub by_identifier-append :
      (c : Command D V F) (id : Text) (cs : List (Command D V F))
      → by_identifier id (append c cs)
        ≡ (if c.identifier == id then some c else by_identifier id cs)
  by_identifier-append c id cs = rw (append_lem c cs) (by_identifier-upsert c id cs)

  identifiers-upsert :
      (c : Command D V F) (cs : List (Command D V F))
      → identifiers (upsert (λ x. x.identifier == c.identifier) c cs) ≡ (
          if any (λ x. x.identifier == c.identifier) cs
          then identifiers cs
          else identifiers cs ++ c.identifier ∷ [])
  unfolding upsert
  identifiers-upsert c [] = refl
  identifiers-upsert c (x ∷ cs) =
      ground (arith, ==_iff x.identifier c.identifier, identifiers-upsert c cs)

  -- Appending keeps the order of registration: the identifiers stay as they are if the command's
  -- own is among them, and otherwise it joins them at the end.
  pub identifiers-append :
      (c : Command D V F) (cs : List (Command D V F))
      → identifiers (append c cs) ≡ (
          if any (λ x. x.identifier == c.identifier) cs
          then identifiers cs
          else identifiers cs ++ c.identifier ∷ [])
  identifiers-append c cs = rw (append_lem c cs) (identifiers-upsert c cs)

  -- No identifier stands twice.
  abbrev pub Distinct : List (Command D V F) → Type 0
  Distinct [] = Unit {0}
  Distinct (c ∷ cs) = All (λ x. x.identifier ≢ c.identifier) cs × Distinct cs

  All-upsert :
      (id : Text) (c : Command D V F) (cs : List (Command D V F))
      → c.identifier ≢ id
      → All (λ x. x.identifier ≢ id) cs
      → All (λ x. x.identifier ≢ id) (upsert (λ x. x.identifier == c.identifier) c cs)
  unfolding upsert
  All-upsert id c [] h hs = (h, tt)
  All-upsert id c (x ∷ cs) h hs = elim (Bool-cases (x.identifier == c.identifier)) [
    | inl same ↦ rw same (h, hs.1)
    | inr other ↦ rw other (hs.0, All-upsert id c cs h hs.1)
  ]

  Distinct-upsert :
      (c : Command D V F) (cs : List (Command D V F))
      → Distinct cs
      → Distinct (upsert (λ x. x.identifier == c.identifier) c cs)
  unfolding upsert
  Distinct-upsert c [] h = (tt, tt)
  Distinct-upsert c (x ∷ cs) h = elim (Bool-cases (x.identifier == c.identifier)) [
    | inl same ↦ let e = (==_iff x.identifier c.identifier).0 same in rw (same, ← e) h
    | inr other ↦ rw other (
      All-upsert x.identifier c cs (λ e. cc (other, (==_iff x.identifier c.identifier).1 (sym e)))
          h.0,
      Distinct-upsert c cs h.1,
    )
  ]

  -- A collection without two commands of one identifier stays one when any command is appended.
  pub append-Distinct :
      (c : Command D V F) (cs : List (Command D V F)) → Distinct cs → Distinct (append c cs)
  append-Distinct c cs h = rw (append_lem c cs) (Distinct-upsert c cs h)

  unfoldable pub append_all : List (Command D V F) → List (Command D V F) → List (Command D V F)
  append_all [] cs = cs
  append_all (c ∷ more) cs = append_all more (append c cs)

  unfoldable pub last_of :
      Text → List (Command D V F) → Option (Command D V F) → Option (Command D V F)
  last_of id [] found = found
  last_of id (c ∷ cs) found = last_of id cs (if c.identifier == id then some c else found)

  -- After any registrations, the command under an identifier is the one of it that was registered
  -- last, or what stood there before if none was.
  pub by_identifier-append_all :
      (id : Text) (more cs : List (Command D V F))
      → by_identifier id (append_all more cs) ≡ last_of id more (by_identifier id cs)
  unfolding append_all last_of
  by_identifier-append_all id [] cs = refl
  by_identifier-append_all id (c ∷ more) cs =
      rw (← by_identifier-append c id cs) (by_identifier-append_all id more (append c cs))

  -- The first command that matches, with those before it, none of which does; or none matches.
  abbrev pub FirstMatch : Input D → List (Command D V F) → Option (Command D V F) → Type 0
  FirstMatch i cs none = All (λ c. c.does_match i ≡ false) cs
  FirstMatch i cs (some c) =
      (before : List (Command D V F)) × (after : List (Command D V F)) × (cs ≡ before ++ c ∷ after)
      × All (λ x. x.does_match i ≡ false) before
      × (c.does_match i ≡ true)

  FirstMatch-cons :
      (i : Input D) (x : Command D V F) (cs : List (Command D V F)) (o : Option (Command D V F))
      → x.does_match i ≡ false
      → FirstMatch i cs o
      → FirstMatch i (x ∷ cs) o
  FirstMatch-cons i x cs none h m = (h, m)
  FirstMatch-cons i x cs (some c) h (before, after, split, none_before, hit) =
      (x ∷ before, after, ap (λ (t : List (Command D V F)). x ∷ t) split, (h, none_before), hit)

  first-FirstMatch :
      (i : Input D) (cs : List (Command D V F)) → FirstMatch i cs (first (λ c. c.does_match i) cs)
  unfolding first
  first-FirstMatch i [] = tt
  first-FirstMatch i (x ∷ cs) = elim (Bool-cases (x.does_match i)) [
    | inl hit ↦ rw hit ([], cs, refl, tt, hit)
    | inr miss ↦
        rw miss
          (FirstMatch-cons i x cs (first (λ c. c.does_match i) cs) miss (first-FirstMatch i cs))
  ]

  -- The search answers the command that matches and was registered before all others that match, or
  -- nothing if none matches.
  pub find_first_matched-FirstMatch :
      (i : Input D) (cs : List (Command D V F)) → FirstMatch i cs (find_first_matched i cs)
  unfolding find_first_matched
  find_first_matched-FirstMatch i cs =
      rw (found_at-first (λ c. c.does_match i) cs) (first-FirstMatch i cs)

  -- Executing the first match: a command that does not match is never executed, so without a match
  -- there is no response and no error.
  pub execute_first_matched-none :
      (i : Input D) (cs : List (Command D V F))
      → All (λ c. c.does_match i ≡ false) cs
      → execute_first_matched i cs ≡ returns (ok none)
  unfolding execute_first_matched find_first_matched first
  execute_first_matched-none i cs h = rw (found_at-first (λ c. c.does_match i) cs, none_first cs h)
    where
      none_first :
          (xs : List (Command D V F))
          → All (λ c. c.does_match i ≡ false) xs
          → first (λ (c : Command D V F). c.does_match i) xs ≡ none
      none_first [] k = refl
      none_first (x ∷ xs) k = rw k.0 (none_first xs k.1)

  abbrev help_of : Input D → Command D V F → CommandHelp
  help_of i c = record { identifier = c.identifier; instruction = c.instruction i }

  -- The helps are those of the commands whose instruction for the input is not empty, in the order
  -- of registration.
  pub collect_helps-keep :
      (i : Input D) (cs : List (Command D V F))
      → collect_helps i cs ≡ map (help_of i) (keep (λ c. not (is_empty (c.instruction i))) cs)
  unfolding collect_helps
  collect_helps-keep i [] = refl
  collect_helps-keep i (c ∷ cs) = ground (arith, collect_helps-keep i cs)
