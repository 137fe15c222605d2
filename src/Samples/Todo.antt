-- ===== src/Samples/Todo.antt =====
-- _examples/simple/plugins/todo/command.go: a command that asks for its arguments one by one. The functions
-- that a user context may hold are the steps. `replace` is `ReplaceAllString` of the command's pattern;
-- the four parameters on times are `time.Parse` with the layouts of a date, of a time, and of both, and
-- `Format` with the last.
pub mod Saving
pub mod Conversation
mod Examples
use go_sarah.Shared.{
  ℕ, zero, suc, ◌+◌, ◌-◌, ◌*◌, ◌/◌, ◌%◌, ◌≤◌, ◌<◌, ◌≡◌, refl, sym, ap, subst, ◌∙◌, fun_ext, ◌≢◌,
  ◌↔◌, ◌⊎◌, inl, inr, Bool, true, false, not, ◌&&◌, ◌||◌, Option, none, some, List, [], ◌∷◌, ◌++◌,
  map, append-nil, append_assoc, map-append, reverse, reverse_aux, reverse-reverse, arith,
  add_assoc, add_comm, add-zero, ltb, leb, nat_beq, if◌then◌else◌, nat_beq_iff, if_same, Bool-cases,
  Option-cases, is_nil, Eq, ◌==◌, nat_eq, ==_iff, ==_self, length, get_elem?, set, index_func, keep,
  any, tally, tally-append, tally_middle, length-append, keep-append, All, All-append, Text, codes,
  text_beq, text_eq, is_empty, Lacks, Lacks-append, split_unique, Map, lookup, insert, delete,
  lookup-insert, lookup-delete, Result, ok, err, Outcome, returns, panics, is_space, trim_left,
  trim_space, IsTrimmed, Blank, trim_space-surrounded, is_empty-IsTrimmed, lower, to_lower,
}
use go_sarah.Errors.{Error}
use go_sarah.Slack.Responses.Golack.{WebApi}
use go_sarah.Storage.{UserContext}
use go_sarah.Slack.Responses.{AnyInput, RespOption, resp_with_next, new_response, Response}

-- What the functions use of an input: its dynamic type and two of its methods.
pub record Received : Type 0 where
  pub input : AnyInput
  pub sender_key : Text
  pub message : Text

-- A call of `Save`.
pub record Saved : Type 0 where
  pub sender_key : Text
  pub description : Text
  pub due : ℕ

-- The functions that continue the conversation, with what they capture.
pub data Step : Type 0 where
  input_desc : Step
  input_date : Text → Step
  input_time : Text → Text → Step
  confirm : Text → ℕ → Step

-- What the functions use of the package time.
pub record Times : Type 0 where
  pub is_date : Text → Bool
  pub is_time : Text → Bool
  pub parse : Text → Option ℕ
  pub format : ℕ → Text

module _ (w : WebApi) (replace : Text → Text) (times : Times) where
  abbrev pub Answer : Type 0
  Answer = Outcome (Result Error (Response w Text Step)) × List Saved

  says : Received → Text → Answer
  says r text = (new_response w Text Step r.input text [], [])

  asks : Received → Text → Step → Answer
  asks r text next = (new_response w Text Step r.input text (resp_with_next next ∷ []), [])

  -- `Execute`.
  unfoldable pub execute : Received → Answer
  unfolding asks
  execute r =
      let stripped = trim_space (replace r.message) in
      if is_empty stripped
      then asks r (codes "Please input a thing to do.") input_desc
      else asks r (codes "Please input the due date in YYYY-MM-DD format.") (input_date stripped)

  unfoldable pub do_input_desc : Received → Answer
  unfolding asks
  do_input_desc r =
      let description = trim_space r.message in
      if is_empty description
      then asks r (codes "Please input a thing to do.") input_desc
      else asks r (codes "Input the due date in YYYY-MM-DD format.") (input_date description)

  unfoldable pub do_input_date : Text → Received → Answer
  unfolding asks
  do_input_date description r =
      let date = trim_space r.message in
      if is_empty date
      then asks r (codes "Please input the due date in YYYY-MM-DD format.") (input_date description)
      else if times.is_date date
      then asks r (codes "Input the due time in HH:MM format. N if not specified.")
          (input_time description date)
      else asks r (codes "Please input valid date in YYYY-MM-DD format.") (input_date description)

  due_found : Text → Received → Option ℕ → Answer
  unfolding asks says
  due_found description r none = says r (codes "Fatal error occurred")
  due_found description r (some due) =
      asks r
        (codes "TODO: "
          ++ (description
              ++ (codes ". Due is " ++ (times.format due ++ codes "\nIs this O.K.? Y/N"))))
        (confirm description due)

  time_given : Text → Text → Text → Received → Answer
  unfolding due_found asks
  time_given description date t r =
      let found = due_found description r (times.parse (date ++ (codes " " ++ t))) in
      if times.is_time t
      then found
      else asks r (codes "Please input a valid due time in HH:MM format.")
          (input_time description date)

  unfoldable pub do_input_time : Text → Text → Received → Answer
  unfolding time_given says
  do_input_time description date r =
      let t = trim_space r.message in
      if is_empty t
      then says r (codes "Please input the due time in HH:MM format.")
      else time_given description date (if to_lower t == codes "n" then codes "23:59" else t) r

  unfoldable pub do_confirm : Text → ℕ → Received → Answer
  unfolding asks says
  do_confirm description due r =
      let msg = to_lower (trim_space r.message) in
      if msg == codes "y"
      then (
        new_response w Text Step r.input (codes "Saved.") [],
        record { sender_key = r.sender_key; description = description; due = due } ∷ [],
      )
      else if msg == codes "n"
      then says r (codes "Aborted.")
      else asks r (codes "Please input Y or N.") (confirm description due)

  unfoldable pub take_step : Step → Received → Answer
  take_step input_desc r = do_input_desc r
  take_step (input_date description) r = do_input_date description r
  take_step (input_time description date) r = do_input_time description date r
  take_step (confirm description due) r = do_confirm description due r

  -- The user context that `Respond` stores after the call.
  abbrev pub context_of : Outcome (Result Error (Response w Text Step)) → Option Step
  context_of panics = none
  context_of (returns (err e)) = none
  context_of (returns (ok (p, none))) = none
  context_of (returns (ok (p, some u))) = u.next

  -- The call for an input: the context, which is deleted before, or the command.
  abbrev pub called : Option Step → Received → Answer
  called none r = execute r
  called (some step) r = take_step step r

  -- A sequence of inputs of a user that all reach the command: the calls of `Save`.
  unfoldable pub converse : Option Step → List Received → List Saved
  converse context [] = []
  converse context (r ∷ rs) =
      let (response, saved) = called context r in saved ++ converse (context_of response) rs
