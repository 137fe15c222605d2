-- ===== src/Slack/Responses/Options.antt =====
-- What NewResponse makes of its options.
use go_sarah.Shared.{
  ℕ, Bool, false, not, Option, none, some, List, [], ◌∷◌, if◌then◌else◌, ◌==◌, nat_eq, Text,
  text_eq,
}
use go_sarah.Storage.{UserContext, new_user_context}
use go_sarah.Slack.{TimeStamp, SlackInput}
use go_sarah.Slack.Responses.Golack.{WebApi, WebApiLaws, MessageAttachment, Shown}
use go_sarah.Slack.Responses.{
  RespOptions, RespOption, resp_as_thread_reply, resp_reply_broadcast, resp_with_attachments,
  resp_with_next, resp_with_next_serializable, resp_with_link_names, resp_with_parse,
  resp_with_unfurl_links, resp_with_unfurl_media, thread_time_stamp,
}

module _ {V F : Type 0} where
  abbrev attachments_of : RespOption V F → Option (List MessageAttachment)
  attachments_of (resp_with_attachments x) = some x
  attachments_of _ = none

  abbrev user_context_of : RespOption V F → Option (Option (UserContext V F))
  user_context_of (resp_with_next f) = some (some (new_user_context f))
  user_context_of (resp_with_next_serializable a) =
      some (some (record { next = none; serializable = some a }))
  user_context_of _ = none

  abbrev link_names_of : RespOption V F → Option ℕ
  link_names_of (resp_with_link_names n) = some n
  link_names_of _ = none

  abbrev parse_of : RespOption V F → Option Text
  parse_of (resp_with_parse mode) = some mode
  parse_of _ = none

  abbrev unfurl_links_of : RespOption V F → Option Bool
  unfurl_links_of (resp_with_unfurl_links b) = some b
  unfurl_links_of _ = none

  abbrev unfurl_media_of : RespOption V F → Option Bool
  unfurl_media_of (resp_with_unfurl_media b) = some b
  unfurl_media_of _ = none

  abbrev thread_reply_of : RespOption V F → Option (Option Bool)
  thread_reply_of (resp_as_thread_reply b) = some (some b)
  thread_reply_of _ = none

  abbrev broadcast_of : RespOption V F → Option Bool
  broadcast_of (resp_reply_broadcast b) = some b
  broadcast_of _ = none

  -- The value of the last option of a kind, or the default.
  unfoldable pub last_of :
      {X : Type 0} → (RespOption V F → Option X) → List (RespOption V F) → X → X
  last_of pick [] x = x
  last_of pick (opt ∷ opts) x = last_of pick opts (elim (pick opt) [ some y ↦ y | none ↦ x ])

  -- Each setting by the last option for it.
  abbrev pub lasts : List (RespOption V F) → RespOptions V F → RespOptions V F
  lasts opts o = record {
    attachments = last_of attachments_of opts o.attachments;
    user_context = last_of user_context_of opts o.user_context;
    link_names = last_of link_names_of opts o.link_names;
    parse_mode = last_of parse_of opts o.parse_mode;
    unfurl_links = last_of unfurl_links_of opts o.unfurl_links;
    unfurl_media = last_of unfurl_media_of opts o.unfurl_media;
    as_thread_reply = last_of thread_reply_of opts o.as_thread_reply;
    reply_broadcast = last_of broadcast_of opts o.reply_broadcast;
  }

-- The input is an answer in a thread, not the message that starts it.
abbrev pub answers_thread : Option TimeStamp → TimeStamp → Bool
answers_thread none t = false
answers_thread (some thread) t = not (thread.original_value == t.original_value)

abbrev pub thread_of : Option TimeStamp → TimeStamp → TimeStamp
thread_of none t = t
thread_of (some thread) t = thread

module _ (w : WebApi) (laws : WebApiLaws w) (V F : Type 0) (str : TimeStamp → Text) where
  -- In a thread or not, by the options and else by the input.
  abbrev pub replies : SlackInput → TimeStamp → Option Bool → Bool
  replies i t none = answers_thread i.thread_time_stamp t
  replies i t (some b) = b

  -- The message that the options ask for.
  abbrev pub asked : SlackInput → TimeStamp → Text → RespOptions V F → Shown
  asked i t msg o = record {
    channel = i.channel_id;
    text = msg;
    attachments = o.attachments;
    link_names = o.link_names;
    parse = o.parse_mode;
    unfurl_links = o.unfurl_links;
    unfurl_media = o.unfurl_media;
    thread =
        if replies i t o.as_thread_reply
        then some (str (thread_of i.thread_time_stamp t))
        else none;
    reply_broadcast = if replies i t o.as_thread_reply then o.reply_broadcast else false;
  }

  -- A message in or outside a thread.
  abbrev placed : Bool → SlackInput → TimeStamp → Text → RespOptions V F → Shown
  placed b i t msg o = record (asked i t msg o) {
    thread = if b then some (str (thread_of i.thread_time_stamp t)) else none;
    reply_broadcast = if b then o.reply_broadcast else false;
  }
