-- ===== src/Slack/Responses.antt =====
-- slack/adapter.go: NewResponse with its options, and SendMessage.
pub mod Golack
pub mod Options
pub mod Contexts
use go_sarah.Shared.{
  ℕ, zero, suc, ◌+◌, ◌-◌, ◌*◌, ◌/◌, ◌%◌, ◌≤◌, ◌<◌, ◌≡◌, refl, sym, ap, subst, ◌∙◌, fun_ext, ◌≢◌,
  ◌↔◌, ◌⊎◌, inl, inr, Bool, true, false, not, ◌&&◌, ◌||◌, Option, none, some, List, [], ◌∷◌, ◌++◌,
  map, append-nil, append_assoc, map-append, reverse, reverse_aux, reverse-reverse, arith,
  add_assoc, add_comm, add-zero, ltb, leb, nat_beq, if◌then◌else◌, nat_beq_iff, if_same, Bool-cases,
  Option-cases, is_nil, Eq, ◌==◌, nat_eq, ==_iff, ==_self, length, get_elem?, set, index_func, keep,
  any, tally, tally-append, tally_middle, length-append, keep-append, All, All-append, Text, codes,
  text_beq, text_eq, is_empty, Lacks, Lacks-append, split_unique, Map, lookup, insert, delete,
  lookup-insert, lookup-delete, Result, ok, err, Outcome, returns, panics, is_space, trim_left,
  trim_space, IsTrimmed, Blank, trim_space-surrounded, is_empty-IsTrimmed,
}
use go_sarah.Errors.{Error, plain}
use go_sarah.Messages.{Output}
use go_sarah.Storage.{UserContext, SerializableArgument, new_user_context}
use go_sarah.Commands.{CommandHelp, CommandResponse, Content, helps, value}
use go_sarah.Slack.{TimeStamp, SlackInput, Destination, channel, other_destination}
use go_sarah.Slack.Responses.Golack.{WebApi, MessageAttachment}

-- `respOptions`.
pub record RespOptions (V F : Type 0) : Type 0 where
  pub attachments : List MessageAttachment
  pub user_context : Option (UserContext V F)
  pub link_names : ℕ
  pub parse_mode : Text
  pub unfurl_links : Bool
  pub unfurl_media : Bool
  pub as_thread_reply : Option Bool
  pub reply_broadcast : Bool

-- A call of one of the functions that make a `RespOption`.
pub data RespOption (V F : Type 0) : Type 0 where
  resp_as_thread_reply resp_reply_broadcast : Bool → RespOption V F
  resp_with_attachments : List MessageAttachment → RespOption V F
  resp_with_next : F → RespOption V F
  resp_with_next_serializable : SerializableArgument V → RespOption V F
  resp_with_link_names : ℕ → RespOption V F
  resp_with_parse : Text → RespOption V F
  resp_with_unfurl_links resp_with_unfurl_media : Bool → RespOption V F

module _ {V F : Type 0} where
  unfoldable pub apply_option : RespOption V F → RespOptions V F → RespOptions V F
  apply_option (resp_as_thread_reply b) o = record o { as_thread_reply = some b }
  apply_option (resp_reply_broadcast b) o = record o { reply_broadcast = b }
  apply_option (resp_with_attachments as_) o = record o { attachments = as_ }
  apply_option (resp_with_next f) o = record o { user_context = some (new_user_context f) }
  apply_option (resp_with_next_serializable a) o = record o {
    user_context = some (record { next = none; serializable = some a });
  }
  apply_option (resp_with_link_names n) o = record o { link_names = n }
  apply_option (resp_with_parse mode) o = record o { parse_mode = mode }
  apply_option (resp_with_unfurl_links b) o = record o { unfurl_links = b }
  apply_option (resp_with_unfurl_media b) o = record o { unfurl_media = b }

  unfoldable pub apply_options : List (RespOption V F) → RespOptions V F → RespOptions V F
  apply_options [] o = o
  apply_options (opt ∷ opts) o = apply_options opts (apply_option opt o)

  -- The stash of `NewResponse`, with webapi's constant `ParseModeFull`.
  unfoldable pub default_options : Text → RespOptions V F
  default_options parse_mode_full = record {
    attachments = [];
    user_context = none;
    link_names = 1;
    parse_mode = parse_mode_full;
    unfurl_links = true;
    unfurl_media = true;
    as_thread_reply = none;
    reply_broadcast = false;
  }

different : TimeStamp → Option TimeStamp → Outcome Bool
different thread none = panics
different thread (some t) = returns (not (thread.original_value == t.original_value))

-- `IsThreadMessage`, with the two timestamps of the input.
unfoldable pub is_thread_message : Option TimeStamp → Option TimeStamp → Outcome Bool
unfolding different
is_thread_message none t = returns false
is_thread_message (some thread) t = different thread t

-- `replyInThread`.
unfoldable pub reply_in_thread : SlackInput → Option Bool → Outcome Bool
reply_in_thread i (some b) = returns b
reply_in_thread i none = is_thread_message i.thread_time_stamp i.timestamp

-- `threadTimeStamp`.
unfoldable pub thread_time_stamp : Option TimeStamp → Option TimeStamp → Option TimeStamp
thread_time_stamp (some thread) t = some thread
thread_time_stamp none t = t

-- The dynamic type of the content of a message, besides `*sarah.CommandHelps`.
pub data Value (P : Type 0) : Type 0 where
  post_message : P → Value P
  string : Text → Value P
  other_value : Value P

-- The error for an input of another type, whose name is left out.
abbrev pub unsupported : Error
unsupported = plain (codes " is not currently supported to automatically generate response")

-- The dynamic type of an input.
pub data AnyInput : Type 0 where
  slack_input : SlackInput → AnyInput
  other_input : AnyInput

module _ (w : WebApi) (V F : Type 0) where
  abbrev pub Response : Type 0
  Response = w.Posting × Option (UserContext V F)

  -- The message before the thread.
  unfoldable pub posting_of : Text → Text → RespOptions V F → w.Posting
  posting_of channel_id msg o = w.with_unfurl_media o.unfurl_media (
      w.with_unfurl_links o.unfurl_links (
        w.with_parse o.parse_mode (
          w.with_link_names o.link_names
            (w.with_attachments o.attachments (w.new_post_message channel_id msg)))))

  in_thread : Bool → Outcome Text → w.Posting → Outcome w.Posting
  in_thread broadcast panics p = panics
  in_thread broadcast (returns t) p =
      returns (w.with_reply_broadcast broadcast (w.with_thread_time_stamp t p))

  threaded : SlackInput → RespOptions V F → w.Posting → Outcome Bool → Outcome w.Posting
  unfolding in_thread
  threaded i o p panics = panics
  threaded i o p (returns false) = returns p
  threaded i o p (returns true) =
      in_thread o.reply_broadcast
        (w.time_stamp_string (thread_time_stamp i.thread_time_stamp i.timestamp)) p

  responded : RespOptions V F → Outcome w.Posting → Outcome (Result Error Response)
  responded o panics = panics
  responded o (returns p) = returns (ok (p, o.user_context))

  -- `NewResponse`.
  unfoldable pub new_response :
      AnyInput → Text → List (RespOption V F) → Outcome (Result Error Response)
  unfolding threaded responded
  new_response other_input msg opts = returns (err unsupported)
  new_response (slack_input i) msg opts =
      let o = apply_options opts (default_options w.parse_mode_full) in
      responded o
        (threaded i o (posting_of i.channel_id msg o) (reply_in_thread i o.as_thread_reply))

module _ (w : WebApi) where
  text_message : Destination → Text → Option w.Posting
  text_message other_destination text = none
  text_message (channel c) text = some (w.new_post_message c text)

  unfoldable pub help_fields : List CommandHelp → List (Text × Text × Bool)
  help_fields [] = []
  help_fields (h ∷ hs) = (h.identifier, h.instruction, false) ∷ help_fields hs

  help_attachment : List CommandHelp → MessageAttachment
  help_attachment hs = record {
    fallback = codes "Here are some input instructions.";
    pretext = codes "Help:";
    title = [];
    fields = help_fields hs;
  }

  help_message : Destination → List CommandHelp → Option w.Posting
  unfolding help_attachment
  help_message other_destination hs = none
  help_message (channel c) hs =
      some (w.with_attachments (help_attachment hs ∷ []) (w.new_post_message c []))

  -- `SendMessage`: the message that it posts, if it posts one.
  unfoldable pub send_message : Output Destination (Content (Value w.Posting)) → Option w.Posting
  unfolding text_message help_message
  send_message o = elim o.content [
    | helps hs ↦ help_message o.destination hs
    | value v ↦ elim v [
      | post_message p ↦ some p
      | string text ↦ text_message o.destination text
      | other_value ↦ none
    ]
  ]
