-- ===== src/Samples/Todo/Examples.antt =====
-- A user adds a task.
use go_sarah.Shared.{
  ◌≤◌, ◌≡◌, refl, none, some, List, [], ◌∷◌, ◌==◌, nat_eq, length, All, Text, codes, text_beq,
  text_eq, panics, trim_left, trim_space,
}
use go_sarah.Slack.{message, SlackInput}
use go_sarah.Slack.Responses.Golack.{WebApi}
use go_sarah.Slack.Responses.{slack_input}
use go_sarah.Samples.Todo.{Received, Times, converse}
use go_sarah.Samples.Todo.Saving.{IsComplete, converse-IsComplete}
use go_sarah.Samples.Todo.Conversation.{IsPlain, converse-saves}
use go_sarah.Samples.Statistics.{WorkerStatsElem, report_all, last_fifty, report_all-last_fifty}

abbrev web : WebApi
web = record {
  Posting = Text;
  parse_mode_full = [];
  time_stamp_string = λ o. panics;
  new_post_message = λ c t. t;
  with_attachments = λ x p. p;
  with_link_names = λ x p. p;
  with_parse = λ x p. p;
  with_unfurl_links = λ x p. p;
  with_unfurl_media = λ x p. p;
  with_thread_time_stamp = λ x p. p;
  with_reply_broadcast = λ x p. p;
}

abbrev input : Text → SlackInput
input text = record {
  event = message (record {
    channel_id = [];
    user_id = [];
    text = text;
    time_stamp = none;
    thread_time_stamp = none;
  });
  sender_key = codes "C|U";
  text = text;
  timestamp = none;
  thread_time_stamp = none;
  channel_id = codes "C";
}

abbrev says : Text → Received
says text = record { input = slack_input (input text); sender_key = codes "C|U"; message = text }

says-IsPlain : (text : Text) → IsPlain (says text)
says-IsPlain text = record { slack = input text; same = refl; alone = refl }

abbrev times : Times
times = record {
  is_date = λ d. d == codes "2021-01-02";
  is_time = λ t. t == codes "10:30";
  parse = λ s. some (length s);
  format = λ n. [];
}

abbrev replace : Text → Text
replace s = s

abbrev inputs : List Received
inputs =
    says (codes " milk ") ∷ says (codes "2021-01-02") ∷ says (codes "10:30") ∷ says (codes "Y") ∷ []

converse-IsComplete_example :
    All (IsComplete web replace times) (converse web replace times none inputs)
converse-IsComplete_example = converse-IsComplete web replace times inputs

converse-saves_example :
    converse web replace times none inputs
    ≡ record { sender_key = codes "C|U"; description = trim_space (codes " milk "); due = 16 } ∷ []
unfolding trim_space trim_left
converse-saves_example =
    converse-saves web replace times (says (codes " milk ")) (says (codes "2021-01-02"))
      (says (codes "10:30")) (says (codes "Y")) 16 (says-IsPlain (codes " milk "))
      (says-IsPlain (codes "2021-01-02")) (says-IsPlain (codes "10:30")) refl refl
      (unfold text_beq in refl) refl (unfold text_beq in refl) (unfold text_beq in refl) refl refl

abbrev stats : List WorkerStatsElem
stats = record { report_time = 1; queue_size = 0 } ∷ record { report_time = 2; queue_size = 3 } ∷ []

report_all-last_fifty_example :
    (report_all stats [] ≡ last_fifty stats) × (length (report_all stats []) ≤ 50)
report_all-last_fifty_example = report_all-last_fifty stats
