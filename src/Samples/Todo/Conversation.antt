-- ===== src/Samples/Todo/Conversation.antt =====
-- A conversation with the todo command.
use go_sarah.Shared.{
  ℕ, ◌≡◌, refl, ap, ◌∙◌, true, false, Option, none, some, List, [], ◌∷◌, ◌++◌, ◌==◌, nat_eq, Text,
  codes, text_beq, text_eq, is_empty, trim_space, to_lower,
}
use go_sarah.Slack.{SlackInput}
use go_sarah.Slack.Responses.Golack.{WebApi}
use go_sarah.Storage.{new_user_context}
use go_sarah.Slack.Responses.{
  slack_input, resp_with_next, new_response, apply_options, apply_option, default_options,
}
use go_sarah.Slack.Responses.Contexts.{new_response_plain}
use go_sarah.Samples.Todo.{
  Received, Step, input_date, input_time, confirm, Times, asks, execute, do_input_date, due_found,
  time_given, do_input_time, do_confirm, take_step, context_of, called, converse,
}

-- A message of Slack outside threads.
pub record IsPlain (r : Received) : Type 0 where
  pub slack : SlackInput
  pub same : r.input ≡ slack_input slack
  pub alone : slack.thread_time_stamp ≡ none

module _ (w : WebApi) (replace : Text → Text) (times : Times) where
  asks-context :
      (r : Received) (text : Text) (step : Step)
      → IsPlain r
      → context_of w replace times (asks w replace times r text step).0 ≡ some step
  unfolding asks apply_options apply_option default_options new_user_context
  asks-context r text step h =
      let (p, response) =
        new_response_plain w Text Step h.slack text (resp_with_next step ∷ []) h.alone refl in
      ap
        (λ i.
          context_of w replace times (new_response w Text Step i text (resp_with_next step ∷ [])))
        h.same
      ∙ ap (context_of w replace times) response

  asks-saved :
      (r : Received) (text : Text) (step : Step) → (asks w replace times r text step).1 ≡ []
  unfolding asks
  asks-saved r text step = refl

  -- A turn that asks goes on with the step.
  converse-asks :
      (c : Option Step) (r : Received) (rs : List Received) (text : Text) (step : Step)
      → called w replace times c r ≡ asks w replace times r text step
      → IsPlain r
      → converse w replace times c (r ∷ rs) ≡ converse w replace times (some step) rs
  unfolding converse
  converse-asks c r rs text step turn h =
      ap (λ a. a.1 ++ converse w replace times (context_of w replace times a.0) rs) turn
      ∙ ap
          (λ s.
            s
            ++ converse w replace times
                (context_of w replace times (asks w replace times r text step).0) rs)
          (asks-saved r text step)
      ∙ ap (λ x. converse w replace times x rs) (asks-context r text step h)

  do_confirm-y :
      (d : Text) (due : ℕ) (r : Received)
      → to_lower (trim_space r.message) ≡ codes "y"
      → (do_confirm w replace times d due r).1
        ≡ record { sender_key = r.sender_key; description = d; due = due } ∷ []
  unfolding do_confirm text_beq
  do_confirm-y d due r h = rw h refl

  confirmed :
      (d : Text) (due : ℕ) (r : Received)
      → to_lower (trim_space r.message) ≡ codes "y"
      → converse w replace times (some (confirm d due)) (r ∷ [])
        ≡ record { sender_key = r.sender_key; description = d; due = due } ∷ []
  unfolding converse take_step
  confirmed d due r h = ap (λ s. s ++ []) (do_confirm-y d due r h)

  -- For messages outside threads: a command with a description, a valid date, a valid time that is not the letter n, and a y, each possibly with spaces around it and the y in either case, in this order save exactly one entry, with the description, the due time that the date and the time are read as, and the sender of the last message.
  pub converse-saves :
      (r1 r2 r3 r4 : Received) (due : ℕ)
      → IsPlain r1
      → IsPlain r2
      → IsPlain r3
      → is_empty (trim_space (replace r1.message)) ≡ false
      → is_empty (trim_space r2.message) ≡ false
      → times.is_date (trim_space r2.message) ≡ true
      → is_empty (trim_space r3.message) ≡ false
      → (to_lower (trim_space r3.message) == codes "n") ≡ false
      → times.is_time (trim_space r3.message) ≡ true
      → times.parse (trim_space r2.message ++ (codes " " ++ trim_space r3.message)) ≡ some due
      → to_lower (trim_space r4.message) ≡ codes "y"
      → converse w replace times none (r1 ∷ r2 ∷ r3 ∷ r4 ∷ [])
        ≡ record {
          sender_key = r4.sender_key;
          description = trim_space (replace r1.message);
          due = due;
        }
          ∷ []
  unfolding execute take_step do_input_date do_input_time time_given due_found
  converse-saves r1 r2 r3 r4 due h1 h2 h3 described dated date timed given_time time read yes_ =
      let d = trim_space (replace r1.message) in
      let day = trim_space r2.message in
      converse-asks none r1 (r2 ∷ r3 ∷ r4 ∷ [])
        (codes "Please input the due date in YYYY-MM-DD format.") (input_date d) (rw described refl)
        h1
      ∙ converse-asks (some (input_date d)) r2 (r3 ∷ r4 ∷ [])
          (codes "Input the due time in HH:MM format. N if not specified.") (input_time d day)
          (rw (dated, date) refl) h2
      ∙ converse-asks (some (input_time d day)) r3 (r4 ∷ [])
          (codes "TODO: "
            ++ (d ++ (codes ". Due is " ++ (times.format due ++ codes "\nIs this O.K.? Y/N"))))
          (confirm d due) (rw (timed, given_time, time, read) refl) h3
      ∙ confirmed d due r4 yes_
