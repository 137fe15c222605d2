-- ===== src/Slack/Responses/Golack.antt =====
-- github.com/oklahomer/golack/v2/webapi as slack/adapter.go uses it: an interface with its documented
-- behaviour. A method of `*PostMessage` sets its field and returns the message.
use go_sarah.Shared.{ℕ, ◌≡◌, Bool, false, Option, none, some, List, nat_eq, Text, text_eq, Outcome}
use go_sarah.Slack.{TimeStamp}

-- The fields of `MessageAttachment` that the adapter sets; a field of an attachment is its title, its
-- value and whether it is short.
pub record MessageAttachment : Type 0 where
  pub fallback : Text
  pub pretext : Text
  pub title : Text
  pub fields : List (Text × Text × Bool)

-- `time_stamp_string` is the String method of a timestamp that may be nil.
pub record WebApi : Type 1 where
  pub Posting : Type 0
  pub parse_mode_full : Text
  pub time_stamp_string : Option TimeStamp → Outcome Text
  pub new_post_message : Text → Text → Posting
  pub with_attachments : List MessageAttachment → Posting → Posting
  pub with_link_names : ℕ → Posting → Posting
  pub with_parse : Text → Posting → Posting
  pub with_unfurl_links : Bool → Posting → Posting
  pub with_unfurl_media : Bool → Posting → Posting
  pub with_thread_time_stamp : Text → Posting → Posting
  pub with_reply_broadcast : Bool → Posting → Posting

-- What a message shows.
pub record Shown : Type 0 where
  pub channel : Text
  pub text : Text
  pub attachments : List MessageAttachment
  pub link_names : ℕ
  pub parse : Text
  pub unfurl_links : Bool
  pub unfurl_media : Bool
  pub thread : Option Text
  pub reply_broadcast : Bool

-- The documented behaviour.
pub record WebApiLaws (w : WebApi) : Type 0 where
  pub shown : w.Posting → Shown
  pub channel-new : (c t : Text) → (shown (w.new_post_message c t)).channel ≡ c
  pub text-new : (c t : Text) → (shown (w.new_post_message c t)).text ≡ t
  pub thread-new : (c t : Text) → (shown (w.new_post_message c t)).thread ≡ none
  pub broadcast-new : (c t : Text) → (shown (w.new_post_message c t)).reply_broadcast ≡ false
  pub shown-attachments :
      (x : List MessageAttachment) (p : w.Posting)
      → shown (w.with_attachments x p) ≡ record (shown p) { attachments = x }
  pub shown-link_names :
      (x : ℕ) (p : w.Posting) → shown (w.with_link_names x p) ≡ record (shown p) { link_names = x }
  pub shown-parse :
      (x : Text) (p : w.Posting) → shown (w.with_parse x p) ≡ record (shown p) { parse = x }
  pub shown-unfurl_links :
      (x : Bool) (p : w.Posting)
      → shown (w.with_unfurl_links x p) ≡ record (shown p) { unfurl_links = x }
  pub shown-unfurl_media :
      (x : Bool) (p : w.Posting)
      → shown (w.with_unfurl_media x p) ≡ record (shown p) { unfurl_media = x }
  pub shown-thread :
      (x : Text) (p : w.Posting)
      → shown (w.with_thread_time_stamp x p) ≡ record (shown p) { thread = some x }
  pub shown-broadcast :
      (x : Bool) (p : w.Posting)
      → shown (w.with_reply_broadcast x p) ≡ record (shown p) { reply_broadcast = x }
