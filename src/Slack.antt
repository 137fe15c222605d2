-- ===== src/Slack.antt =====
-- slack/: the inputs of the adapter and its payload handlers (slack/adapter.go, slack/rtmapi.go,
-- slack/eventsapi.go, slack/config.go). Of golack's events only the fields that the adapter reads are
-- here; `channel_string` and `user_string` are the String methods of its identifiers.
pub mod Inputs
pub mod Responses
pub mod Connection
pub mod Conversation
pub mod Adapter
mod Examples
use go_sarah.Shared.{
  ℕ, zero, suc, ◌+◌, ◌-◌, ◌*◌, ◌/◌, ◌%◌, ◌≤◌, ◌<◌, ◌≡◌, refl, sym, ap, subst, ◌∙◌, fun_ext, ◌≢◌,
  ◌↔◌, ◌⊎◌, inl, inr, Bool, true, false, not, ◌&&◌, ◌||◌, Option, none, some, List, [], ◌∷◌, ◌++◌,
  map, append-nil, append_assoc, map-append, reverse, reverse_aux, reverse-reverse, arith,
  add_assoc, add_comm, add-zero, ltb, leb, nat_beq, if◌then◌else◌, nat_beq_iff, if_same, Bool-cases,
  Option-cases, is_nil, Eq, ◌==◌, nat_eq, ==_iff, ==_self, length, get_elem?, set, index_func, keep,
  any, tally, tally-append, tally_middle, length-append, keep-append, All, All-append, Text, codes,
  text_beq, text_eq, is_empty, Lacks, Lacks-append, split_unique, Map, lookup, insert, delete,
  lookup-insert, lookup-delete, Result, ok, err, Outcome, returns, panics, is_space, trim_left,
  trim_space, IsTrimmed, Blank, trim_space-surrounded, is_empty-IsTrimmed,
}
use go_sarah.Messages.{Input, Fields, regular, new_help_input, new_abort_input}

-- `Config`; a duration is in milliseconds. `retry_policy` is a number of trials and an interval.
pub record Config : Type 0 where
  pub token : Text
  pub app_secret : Text
  pub listen_port : ℕ
  pub help_command : Text
  pub abort_command : Text
  pub sending_queue_size : ℕ
  pub request_timeout : ℕ
  pub ping_interval : ℕ
  pub retry_policy : ℕ × ℕ

abbrev pub new_config : Config
new_config = record {
  token = [];
  app_secret = [];
  listen_port = 8080;
  help_command = codes ".help";
  abort_command = codes ".abort";
  sending_queue_size = 100;
  request_timeout = 3 * 1000;
  ping_interval = 30 * 1000;
  retry_policy = (10, 500);
}

-- `event.TimeStamp`.
pub record TimeStamp : Type 0 where
  pub time : ℕ
  pub original_value : Text

-- The fields of `event.Message` and of `event.ChannelMessage`; a pointer may be nil.
pub record Message : Type 0 where
  pub channel_id : Text
  pub user_id : Text
  pub text : Text
  pub time_stamp : Option TimeStamp
  pub thread_time_stamp : Option TimeStamp

-- The dynamic type of an event.
pub data Event : Type 0 where
  message channel_message : Message → Event
  other_event : Text → Event

-- `Input`.
pub record SlackInput : Type 0 where
  pub event : Event
  pub sender_key : Text
  pub text : Text
  pub timestamp : Option TimeStamp
  pub thread_time_stamp : Option TimeStamp
  pub channel_id : Text

-- The dynamic type of an `OutputDestination`: an `event.ChannelID`, or another.
pub data Destination : Type 0 where
  channel : Text → Destination
  other_destination : Destination

-- What is passed to `enqueueInput`: the adapter's own input, or one that wraps it.
pub data Enqueued : Type 0 where
  received : SlackInput → Enqueued
  wrapped_input : Input Destination → Enqueued

-- The four methods of the input; `SentAt` panics where the timestamp is nil.
abbrev pub as_input : SlackInput → Option TimeStamp → Outcome (Input Destination)
as_input i none = panics
as_input i (some t) = returns (
    regular (record {
      sender_key = i.sender_key;
      message = i.text;
      sent_at = t.time;
      reply_to = channel i.channel_id;
    }))

-- `NewHelpInput` and `NewAbortInput`, which call the methods.
wrap :
    (Input Destination → Input Destination)
    → Outcome (Input Destination)
    → Outcome (Option Enqueued)
wrap new panics = panics
wrap new (returns i) = returns (some (wrapped_input (new i)))

module _ (channel_string user_string : Text → Text) where
  input_of : Event → Message → SlackInput
  input_of e m = record {
    event = e;
    sender_key = channel_string m.channel_id ++ (codes "|" ++ user_string m.user_id);
    text = m.text;
    timestamp = m.time_stamp;
    thread_time_stamp = m.thread_time_stamp;
    channel_id = m.channel_id;
  }

  -- `EventToInput`; `none` is ErrNonSupportedEvent, its only error.
  unfoldable pub event_to_input : Event → Option SlackInput
  unfolding input_of
  event_to_input (message m) = some (input_of (message m) m)
  event_to_input (channel_message m) = some (input_of (channel_message m) m)
  event_to_input (other_event t) = none

  -- The end of `DefaultEventsPayloadHandler`.
  events_input : Config → Option SlackInput → Outcome (Option Enqueued)
  unfolding wrap
  events_input config none = returns none
  events_input config (some i) =
      let trimmed = trim_space i.text in
      if not (is_empty config.help_command) && (trimmed == config.help_command)
      then wrap new_help_input (as_input i i.timestamp)
      else if not (is_empty config.abort_command) && (trimmed == config.abort_command)
      then wrap new_abort_input (as_input i i.timestamp)
      else returns (some (received i))

  -- `DefaultEventsPayloadHandler`: the input that it enqueues, if there is one.
  unfoldable pub default_events_payload_handler : Config → Event → Outcome (Option Enqueued)
  unfolding events_input
  default_events_payload_handler config e = events_input config (event_to_input e)

  -- The default case of `DefaultRTMPayloadHandler`.
  rtm_input : Config → Option SlackInput → Outcome (Option Enqueued)
  unfolding wrap
  rtm_input config none = returns none
  rtm_input config (some i) =
      let trimmed = trim_space i.text in
      if not (is_empty config.help_command) && (trimmed == config.help_command)
      then wrap new_help_input (as_input i i.timestamp)
      else if not (is_empty config.abort_command) && (trimmed == config.abort_command)
      then wrap new_abort_input (as_input i i.timestamp)
      else returns (some (received i))

-- The payloads of the Real Time Messaging API.
pub data Payload : Type 0 where
  ok_reply ng_reply pong hello : Payload
  event_payload : Event → Payload

module _ (channel_string user_string : Text → Text) where
  -- `DefaultRTMPayloadHandler`.
  unfoldable pub default_rtm_payload_handler : Config → Payload → Outcome (Option Enqueued)
  unfolding rtm_input
  default_rtm_payload_handler config (event_payload e) =
      rtm_input channel_string user_string config (event_to_input channel_string user_string e)
  default_rtm_payload_handler config ok_reply = returns none
  default_rtm_payload_handler config ng_reply = returns none
  default_rtm_payload_handler config pong = returns none
  default_rtm_payload_handler config hello = returns none
