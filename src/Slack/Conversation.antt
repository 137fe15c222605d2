-- ===== src/Slack/Conversation.antt =====
-- A help command on its way: from the payload handler of slack/ through `Respond` of bot.go and back by
-- `SendMessage`.
use go_sarah.Shared.{
  ◌≡◌, refl, ap, false, some, List, [], ◌∷◌, map, nat_eq, Text, codes, text_eq, Result, ok, err,
  Outcome, returns, panics,
}
use go_sarah.Messages.{Input, Output, new_help_input, new_output_message}
use go_sarah.Storage.{UserContextStorage}
use go_sarah.Commands.{CommandHelp, Content, Execution, helps, value, collect_helps}
use go_sarah.Bot
use go_sarah.Bot.{DefaultBot, continued, finish}
use go_sarah.Errors.{Error}
use go_sarah.Slack.{TimeStamp, Message, Destination, channel}
use go_sarah.Slack.Inputs.{methods}
use go_sarah.Slack.Responses.Golack.{WebApi, WebApiLaws, MessageAttachment}
use go_sarah.Slack.Responses.{
  Value, post_message, send_message, help_fields, Response, RespOption, other_input, new_response,
}

-- The attachment that lists helps.
abbrev pub listing : List CommandHelp → MessageAttachment
listing hs = record {
  fallback = codes "Here are some input instructions.";
  pretext = codes "Help:";
  title = [];
  fields = map (λ h. (h.identifier, h.instruction, false)) hs;
}

help_fields-map :
    (w : WebApi) (hs : List CommandHelp)
    → help_fields w hs ≡ map (λ h. (h.identifier, h.instruction, false)) hs
unfolding help_fields
help_fields-map w [] = refl
help_fields-map w (h ∷ hs) =
    ap (λ t. (h.identifier, h.instruction, false) ∷ t) (help_fields-map w hs)

module _ (w : WebApi) (laws : WebApiLaws w) (channel_string user_string : Text → Text)
    {F S : Type 0} (storage : UserContextStorage (Value w.Posting) F S)
    (adapter : Bot.Adapter Destination (Value w.Posting) F) where
  -- The input that asks for help.
  abbrev pub help_input : Message → TimeStamp → Input Destination
  help_input m t = new_help_input (methods channel_string user_string m t)

  -- The helps that the bot's commands give for it, as an output to the channel.
  abbrev pub help_output :
      Message
      → TimeStamp
      → DefaultBot Destination (Value w.Posting) F S
      → Output Destination (Content (Value w.Posting))
  help_output m t b =
      new_output_message (channel m.channel_id) (helps (collect_helps (help_input m t) b.commands))

  posted :
      (m : Message) (t : TimeStamp) (b : DefaultBot Destination (Value w.Posting) F S)
      → (p : w.Posting) × (send_message w (help_output m t b) ≡ some p)
        × ((laws.shown p).channel ≡ m.channel_id)
        × ((laws.shown p).attachments ≡ listing (collect_helps (help_input m t) b.commands) ∷ [])
  unfolding send_message new_output_message
  posted m t b =
      let hs = collect_helps (help_input m t) b.commands in
      let q = w.new_post_message m.channel_id [] in
      (
        _,
        refl,
        rw (laws.shown-attachments) (laws.channel-new m.channel_id []),
        rw (laws.shown-attachments)
            (ap (λ f. record (listing hs) { fields = f } ∷ []) (help_fields-map w hs)),
      )

  -- A response of NewResponse as the result of a function.
  abbrev pub as_execution :
      Outcome (Result Error (Response w (Value w.Posting) F)) → Execution (Value w.Posting) F
  as_execution panics = panics
  as_execution (returns (err e)) = returns (err e)
  as_execution (returns (ok (p, u))) =
      returns (ok (some (record { content = some (value (post_message p)); user_context = u })))

  -- A contextual function that answers a help input, which is no input of the adapter's own type, by NewResponse.
  abbrev pub AnswersByNewResponse : F → Input Destination → Type 0
  AnswersByNewResponse next i =
      (msg : Text) × (opts : List (RespOption (Value w.Posting) F)) × (adapter.call next i
        ≡ as_execution (new_response w (Value w.Posting) F other_input msg opts))
