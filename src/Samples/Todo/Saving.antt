-- ===== src/Samples/Todo/Saving.antt =====
-- What the todo command saves.
use go_sarah.Shared.{
  ℕ, ◌≡◌, refl, sym, ap, subst, Bool, true, false, Option, none, some, List, [], ◌∷◌, ◌++◌, arith,
  if◌then◌else◌, ◌==◌, nat_eq, All, All-append, Text, codes, text_eq, is_empty, Result, ok, err,
  Outcome, returns, panics, trim_space, to_lower,
}
use go_sarah.Errors.{Error}
use go_sarah.Slack.Responses.Golack.{WebApi}
use go_sarah.Storage.{UserContext, new_user_context}
use go_sarah.Slack.Responses.{
  resp_with_next, new_response, Response, apply_options, apply_option, default_options,
}
use go_sarah.Slack.Responses.Contexts.{new_response-context}
use go_sarah.Samples.Todo.{
  Received, Saved, Step, input_desc, input_date, input_time, confirm, Times, Answer, says, asks,
  execute, do_input_desc, do_input_date, due_found, time_given, do_input_time, do_confirm,
  take_step, context_of, called, converse,
}

module _ (w : WebApi) (replace : Text → Text) (times : Times) where
  -- A due time that was read from a valid date and a valid time.
  pub record IsDue (due : ℕ) : Type 0 where
    pub date : Text
    pub time : Text
    pub date_valid : times.is_date date ≡ true
    pub time_valid : times.is_time time ≡ true
    pub read_as : times.parse (date ++ (codes " " ++ time)) ≡ some due

  abbrev Valid : Step → Type 0
  Valid input_desc = Unit {0}
  Valid (input_date description) = is_empty description ≡ false
  Valid (input_time description date) = (is_empty description ≡ false) × (times.is_date date ≡ true)
  Valid (confirm description due) = (is_empty description ≡ false) × IsDue due

  abbrev ValidContext : Option Step → Type 0
  ValidContext none = Unit {0}
  ValidContext (some step) = Valid step

  abbrev pub IsComplete : Saved → Type 0
  IsComplete s = (is_empty s.description ≡ false) × IsDue s.due

  -- What a call leaves is valid.
  abbrev Good : Answer w replace times → Type 0
  Good a = ValidContext (context_of w replace times a.0) × All IsComplete a.1

  context_of-valid :
      (x : Outcome (Result Error (Response w Text Step))) (c : Option (UserContext Text Step))
      → ((p : w.Posting) (u : Option (UserContext Text Step)) → x ≡ returns (ok (p, u)) → u ≡ c)
      → ((u : UserContext Text Step) → c ≡ some u → ValidContext u.next)
      → ValidContext (context_of w replace times x)
  context_of-valid panics c shape valid = tt
  context_of-valid (returns (err e)) c shape valid = tt
  context_of-valid (returns (ok (p, none))) c shape valid = tt
  context_of-valid (returns (ok (p, some u))) c shape valid = valid u (sym (shape p (some u) refl))

  says-Good : (r : Received) (text : Text) → Good (says w replace times r text)
  unfolding says apply_options default_options
  says-Good r text = (
    context_of-valid (new_response w Text Step r.input text []) none
        (new_response-context w Text Step r.input text []) (λ u h. absurd (ground (arith, h))),
    tt,
  )

  asks-Good :
      (r : Received) (text : Text) (step : Step)
      → Valid step
      → Good (asks w replace times r text step)
  unfolding asks apply_options apply_option default_options new_user_context
  asks-Good r text step h = (
    context_of-valid (new_response w Text Step r.input text (resp_with_next step ∷ []))
        (some (new_user_context step))
        (new_response-context w Text Step r.input text (resp_with_next step ∷ []))
        (λ u e. subst ValidContext (ap next_of e) h),
    tt,
  )
    where
      next_of : Option (UserContext Text Step) → Option Step
      next_of none = none
      next_of (some v) = v.next

  if-Good :
      (b : Bool) (x y : Answer w replace times)
      → (b ≡ true → Good x)
      → (b ≡ false → Good y)
      → Good (if b then x else y)
  if-Good true x y h k = h refl
  if-Good false x y h k = k refl

  execute-Good : (r : Received) → Good (execute w replace times r)
  unfolding execute
  execute-Good r =
      if-Good (is_empty (trim_space (replace r.message))) _ _ (λ h. asks-Good r _ input_desc tt)
        (λ h. asks-Good r _ (input_date (trim_space (replace r.message))) h)

  do_input_desc-Good : (r : Received) → Good (do_input_desc w replace times r)
  unfolding do_input_desc
  do_input_desc-Good r =
      if-Good (is_empty (trim_space r.message)) _ _ (λ h. asks-Good r _ input_desc tt)
        (λ h. asks-Good r _ (input_date (trim_space r.message)) h)

  do_input_date-Good :
      (d : Text) (r : Received) → is_empty d ≡ false → Good (do_input_date w replace times d r)
  unfolding do_input_date
  do_input_date-Good d r k =
      if-Good (is_empty (trim_space r.message)) _ _ (λ h. asks-Good r _ (input_date d) k)
        (λ h.
          if-Good (times.is_date (trim_space r.message)) _ _
            (λ valid. asks-Good r _ (input_time d (trim_space r.message)) (k, valid))
            (λ invalid. asks-Good r _ (input_date d) k))

  due_found-Good :
      (d date t : Text) (r : Received) (o : Option ℕ)
      → is_empty d ≡ false
      → times.is_date date ≡ true
      → times.is_time t ≡ true
      → times.parse (date ++ (codes " " ++ t)) ≡ o
      → Good (due_found w replace times d r o)
  unfolding due_found
  due_found-Good d date t r none k valid good h = says-Good r (codes "Fatal error occurred")
  due_found-Good d date t r (some due) k valid good h =
      asks-Good r _ (confirm d due)
        (k, record { date = date; time = t; date_valid = valid; time_valid = good; read_as = h })

  time_given-Good :
      (d date t : Text) (r : Received)
      → is_empty d ≡ false
      → times.is_date date ≡ true
      → Good (time_given w replace times d date t r)
  unfolding time_given
  time_given-Good d date t r k valid =
      if-Good (times.is_time t) _ _
        (λ good.
          due_found-Good d date t r (times.parse (date ++ (codes " " ++ t))) k valid good refl)
        (λ bad. asks-Good r _ (input_time d date) (k, valid))

  do_input_time-Good :
      (d date : Text) (r : Received)
      → is_empty d ≡ false
      → times.is_date date ≡ true
      → Good (do_input_time w replace times d date r)
  unfolding do_input_time
  do_input_time-Good d date r k valid =
      if-Good (is_empty (trim_space r.message)) _ _ (λ h. says-Good r _)
        (λ h.
          time_given-Good d date
            (if to_lower (trim_space r.message) == codes "n"
              then codes "23:59"
              else trim_space r.message)
            r k valid)

  do_confirm-Good :
      (d : Text) (due : ℕ) (r : Received)
      → is_empty d ≡ false
      → IsDue due
      → Good (do_confirm w replace times d due r)
  unfolding do_confirm
  do_confirm-Good d due r k valid =
      if-Good (to_lower (trim_space r.message) == codes "y") _ _
        (λ h. ((says-Good r (codes "Saved.")).0, ((k, valid), tt)))
        (λ h.
          if-Good (to_lower (trim_space r.message) == codes "n") _ _
            (λ no_. says-Good r (codes "Aborted."))
            (λ other. asks-Good r _ (confirm d due) (k, valid)))

  called-Good :
      (c : Option Step) (r : Received) → ValidContext c → Good (called w replace times c r)
  unfolding take_step
  called-Good none r h = execute-Good r
  called-Good (some input_desc) r h = do_input_desc-Good r
  called-Good (some (input_date d)) r h = do_input_date-Good d r h
  called-Good (some (input_time d date)) r (h, k) = do_input_time-Good d date r h k
  called-Good (some (confirm d due)) r (h, k) = do_confirm-Good d due r h k

  converse_valid :
      (c : Option Step) (rs : List Received)
      → ValidContext c
      → All IsComplete (converse w replace times c rs)
  unfolding converse
  converse_valid c [] h = tt
  converse_valid c (r ∷ rs) h =
      let (valid, complete) = called-Good c r h in
      All-append IsComplete (called w replace times c r).1
        (converse w replace times (context_of w replace times (called w replace times c r).0) rs)
        complete
        (converse_valid (context_of w replace times (called w replace times c r).0) rs valid)

  -- Whatever a user's inputs to the todo command are, in any order and of any type: each entry that is saved has a description that is not empty, and a due time that was read from a valid date and a valid time.
  pub converse-IsComplete : (rs : List Received) → All IsComplete (converse w replace times none rs)
  converse-IsComplete rs = converse_valid none rs tt
