-- ===== src/Commands.antt =====
-- command.go: commands and their collection. `V` stands for values of `interface{}`, `F` for
-- contextual functions and `D` for destinations.
pub mod Collection
pub mod Props
mod Examples
use go_sarah.Shared.{
  returns, Outcome, set, ◌++◌, get_elem?, ℕ, index_func, Bool, Option, none, some, List, [], ◌∷◌,
  ◌==◌, text_eq, if◌then◌else◌, is_empty, Text, Result, ok,
}
use go_sarah.Errors.{Error}
use go_sarah.Messages.{Input}
use go_sarah.Storage.{UserContext}

-- `CommandHelp`.
pub record CommandHelp : Type 0 where
  pub identifier : Text
  pub instruction : Text

-- What a response carries: the helps that `Respond` collects, or a value of a command.
pub data Content (V : Type 0) : Type 0 where
  helps : List CommandHelp → Content V
  value : V → Content V

pub record CommandResponse (V F : Type 0) : Type 0 where
  pub content : Option (Content V)
  pub user_context : Option (UserContext V F)

-- The results `(*CommandResponse, error)` of a command or of a contextual function, which may
-- panic: the callers look at the response only where the error is nil.
abbrev pub Execution : Type 0 → Type 0 → Type 0
Execution V F = Outcome (Result Error (Option (CommandResponse V F)))

-- The interface `Command`.
pub record Command (D V F : Type 0) : Type 0 where
  pub identifier : Text
  pub execute : Input D → Execution V F
  pub instruction : Input D → Text
  pub does_match : Input D → Bool

module _ {D V F : Type 0} where
  put_at : Option ℕ → Command D V F → List (Command D V F) → List (Command D V F)
  put_at none c cs = cs ++ c ∷ []
  put_at (some i) c cs = set cs i c

  -- `Commands.Append`: the first command with the identifier is replaced; without one the new
  -- command goes last.
  unfoldable pub append : Command D V F → List (Command D V F) → List (Command D V F)
  unfolding put_at
  append c cs = put_at (index_func (λ current. current.identifier == c.identifier) cs) c cs

  found_at : Option ℕ → List (Command D V F) → Option (Command D V F)
  found_at none cs = none
  found_at (some i) cs = get_elem? cs i

  unfoldable pub find_first_matched : Input D → List (Command D V F) → Option (Command D V F)
  unfolding found_at
  find_first_matched i cs = found_at (index_func (λ c. c.does_match i) cs) cs

  execute_found : Input D → Option (Command D V F) → Execution V F
  execute_found i none = returns (ok none)
  execute_found i (some c) = c.execute i

  unfoldable pub execute_first_matched : Input D → List (Command D V F) → Execution V F
  unfolding execute_found
  execute_first_matched i cs = execute_found i (find_first_matched i cs)

  unfoldable pub collect_helps : Input D → List (Command D V F) → List CommandHelp
  collect_helps i [] = []
  collect_helps i (c ∷ cs) =
      let rest = collect_helps i cs in
      if is_empty (c.instruction i)
      then rest
      else record { identifier = c.identifier; instruction = c.instruction i } ∷ rest
