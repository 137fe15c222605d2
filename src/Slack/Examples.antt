-- ===== src/Slack/Examples.antt =====
-- A message in a thread, and a connection that breaks.
use go_sarah.Shared.{
  ℕ, ◌+◌, ◌≡◌, refl, inl, inr, true, false, none, some, List, [], ◌∷◌, ◌++◌, nat_eq, Text, codes,
  text_eq, ok, err, returns, panics,
}
use go_sarah.Errors.{Error, plain, bot_non_continuable}
use go_sarah.Bot
use go_sarah.Bot.{DefaultBot}
use go_sarah.Storage.{UserContextStorage}
use go_sarah.Commands.{Command}
use go_sarah.Slack.{Destination}
use go_sarah.Slack.Responses.{unsupported, Value}
use go_sarah.Slack.{
  new_config, TimeStamp, Message, message, SlackInput, event_to_input, default_rtm_payload_handler,
  event_payload, default_events_payload_handler,
}
use go_sarah.Slack.Inputs.{meaning, handlers-meaning}
use go_sarah.Slack.Responses.Golack.{WebApi, WebApiLaws, Shown}
use go_sarah.Slack.Responses.{RespOption, resp_as_thread_reply, resp_with_unfurl_links}
use go_sarah.Slack.Connection.{
  payload, other_error, Round, reception, tick, ping, new_link, turns, refused, connected, new_run,
  run,
}
use go_sarah.Slack.Connection.Pings.{verdict, turns_failed_reception}
use go_sarah.Slack.Connection.Reconnecting.{broken_connections, after, run-returns}

abbrev now : TimeStamp
now = record { time = 7; original_value = codes "7.0" }

abbrev earlier : TimeStamp
earlier = record { time = 5; original_value = codes "5.0" }

abbrev help_message : Message
help_message = record {
  channel_id = codes "C1";
  user_id = codes "U1";
  text = codes " .help ";
  time_stamp = some now;
  thread_time_stamp = some earlier;
}

abbrev same : Text → Text
same s = s

handlers-meaning_example :
    (i : SlackInput) × (event_to_input same same (message help_message) ≡ some i)
    × (default_rtm_payload_handler same same new_config (event_payload (message help_message))
        ≡ returns (some (meaning same same new_config (codes ".help") help_message now i)))
    × (default_events_payload_handler same same new_config (message help_message)
        ≡ returns (some (meaning same same new_config (codes ".help") help_message now i)))
handlers-meaning_example =
    handlers-meaning same same new_config help_message now (codes " ") (codes ".help") (codes " ")
      refl (refl, tt) (refl, tt) (refl, refl) refl

abbrev web : WebApi
web = record {
  Posting = Shown;
  parse_mode_full = codes "full";
  time_stamp_string = λ o. elim o [ none ↦ panics | some t ↦ returns t.original_value ];
  new_post_message = λ c t. record {
    channel = c;
    text = t;
    attachments = [];
    link_names = 0;
    parse = [];
    unfurl_links = false;
    unfurl_media = false;
    thread = none;
    reply_broadcast = false;
  };
  with_attachments = λ x p. record p { attachments = x };
  with_link_names = λ x p. record p { link_names = x };
  with_parse = λ x p. record p { parse = x };
  with_unfurl_links = λ x p. record p { unfurl_links = x };
  with_unfurl_media = λ x p. record p { unfurl_media = x };
  with_thread_time_stamp = λ x p. record p { thread = some x };
  with_reply_broadcast = λ x p. record p { reply_broadcast = x };
}

abbrev laws : WebApiLaws web
laws = record {
  shown = λ p. p;
  channel-new = λ c t. refl;
  text-new = λ c t. refl;
  thread-new = λ c t. refl;
  broadcast-new = λ c t. refl;
  shown-attachments = λ x p. refl;
  shown-link_names = λ x p. refl;
  shown-parse = λ x p. refl;
  shown-unfurl_links = λ x p. refl;
  shown-unfurl_media = λ x p. refl;
  shown-thread = λ x p. refl;
  shown-broadcast = λ x p. refl;
}

abbrev str : TimeStamp → Text
str t = t.original_value

abbrev input : SlackInput
input = record {
  event = message help_message;
  sender_key = codes "C1|U1";
  text = help_message.text;
  timestamp = some now;
  thread_time_stamp = some earlier;
  channel_id = codes "C1";
}

abbrev options : List (RespOption ℕ ℕ)
options = resp_as_thread_reply false ∷ resp_with_unfurl_links false ∷ resp_as_thread_reply true ∷ []

abbrev lost : Error
lost = plain (codes "use of closed network connection")

abbrev waiting : List (Round ℕ)
waiting = tick ∷ reception (payload 4) ∷ reception (other_error lost) ∷ []

turns_failed_reception_example :
    ((turns
        (reception (other_error lost) ∷ (waiting ++ ping (some lost) ∷ []))
        new_link).supervision
      ≡ verdict (some lost))
    × ((turns (reception (other_error lost) ∷ (waiting ++ ping (some lost) ∷ [])) new_link).pings
        ≡ 1)
turns_failed_reception_example =
    turns_failed_reception new_link lost waiting (some lost) refl
      (inl refl, (inr (payload 4, refl), (inl refl, tt)))

run-returns_example :
    (run (broken_connections (lost ∷ lost ∷ []) []) new_run ≡ after 2)
    × (run (broken_connections (lost ∷ lost ∷ []) (refused (codes "refused") ∷ [])) new_run
        ≡ record (after 2) {
          notified = bot_non_continuable (codes "refused") ∷ [];
          returned = true;
        })
    × (run (broken_connections (lost ∷ lost ∷ []) (connected none ∷ [])) new_run
        ≡ record (after 3) { returned = true })
run-returns_example = run-returns (lost ∷ lost ∷ []) (codes "refused") []

abbrev storage : UserContextStorage (Value Shown) ℕ ℕ
storage = record {
  get = λ k s. ok none;
  set = λ k u s. (s, none);
  delete = λ k s. (s, none);
  flush = λ s. (s, none);
}

abbrev adapter : Bot.Adapter Destination (Value Shown) ℕ
adapter = record { bot_type = codes "slack"; call = λ f i. returns (ok none) }

abbrev echo : Command Destination (Value Shown) ℕ
echo = record {
  identifier = codes "echo";
  execute = λ i. returns (ok none);
  instruction = λ i. codes "Input .echo";
  does_match = λ i. false;
}

abbrev bot : DefaultBot Destination (Value Shown) ℕ ℕ
bot = record { bot_type = codes "slack"; commands = echo ∷ []; storage = some 0; sent = [] }

abbrev held : UserContextStorage (Value Shown) ℕ ℕ
held = record {
  get = λ k s. ok (some 7);
  set = λ k u s. (s, none);
  delete = λ k s. (s + 1, none);
  flush = λ s. (s, none);
}

-- The functions answer with NewResponse, which refuses an input of another type.
abbrev asking : Bot.Adapter Destination (Value Shown) ℕ
asking = record { bot_type = codes "slack"; call = λ f i. returns (err unsupported) }
