-- ===== src/Slack/Responses/Contexts.antt =====
-- The user context that NewResponse returns.
use go_sarah.Shared.{
  ◌≡◌, refl, sym, ap, Option, none, some, List, arith, nat_eq, Text, text_eq, Result, ok, err,
  Outcome, returns, panics,
}
use go_sarah.Errors.{Error}
use go_sarah.Storage.{UserContext}
use go_sarah.Slack.Responses.Golack.{WebApi}
use go_sarah.Slack.Responses.{
  SlackInput, is_thread_message, RespOptions, RespOption, apply_options, default_options, AnyInput,
  slack_input, other_input, posting_of, reply_in_thread, Response, threaded, responded,
  new_response,
}

module _ (w : WebApi) (V F : Type 0) where
  abbrev context : Outcome (Result Error (Response w V F)) → Option (Option (UserContext V F))
  context panics = none
  context (returns (err e)) = none
  context (returns (ok (p, u))) = some u

  responded-context :
      (o : RespOptions V F) (x : Outcome w.Posting) (p : w.Posting) (u : Option (UserContext V F))
      → responded w V F o x ≡ returns (ok (p, u))
      → u ≡ o.user_context
  unfolding responded
  responded-context o panics p u h = cc
  responded-context o (returns q) p u h =
      ap (λ c. elim c [ none ↦ u | some v ↦ v ]) (sym (ap context h))

  -- A response has the user context that the options leave.
  pub new_response-context :
      (i : AnyInput) (msg : Text) (opts : List (RespOption V F)) (p : w.Posting)
      (u : Option (UserContext V F))
      → new_response w V F i msg opts ≡ returns (ok (p, u))
      → u ≡ (apply_options opts (default_options w.parse_mode_full)).user_context
  unfolding new_response
  new_response-context other_input msg opts p u h = absurd (ground (arith, ap context h))
  new_response-context (slack_input i) msg opts p u h =
      let o = apply_options opts (default_options w.parse_mode_full) in
      responded-context o
        (threaded w V F i o (posting_of w V F i.channel_id msg o)
          (reply_in_thread i o.as_thread_reply))
        p u h

  -- Outside threads NewResponse returns a response.
  pub new_response_plain :
      (i : SlackInput) (msg : Text) (opts : List (RespOption V F))
      → i.thread_time_stamp ≡ none
      → (apply_options opts (default_options w.parse_mode_full)).as_thread_reply ≡ none
      → (p : w.Posting) × (new_response w V F (slack_input i) msg opts
          ≡ returns (ok (p, (apply_options opts (default_options w.parse_mode_full)).user_context)))
  unfolding new_response reply_in_thread is_thread_message threaded responded
  new_response_plain i msg opts alone unset =
      let o = apply_options opts (default_options w.parse_mode_full) in
      (posting_of w V F i.channel_id msg o, rw (unset, alone) refl)
