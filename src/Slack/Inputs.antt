-- ===== src/Slack/Inputs.antt =====
-- What the payload handlers of slack/ enqueue, and for whom.
use go_sarah.Shared.{
  ◌≡◌, refl, sym, ap, ◌∙◌, Bool, true, false, not, ◌&&◌, Option, none, some, [], ◌∷◌, ◌++◌, arith,
  if◌then◌else◌, ◌==◌, nat_eq, Text, codes, text_beq, text_eq, is_empty, Lacks, split_unique,
  returns, trim_space, IsTrimmed, Blank, trim_space-surrounded, is_empty-IsTrimmed,
}
use go_sarah.Messages.{Input, regular, new_help_input, new_abort_input}
use go_sarah.Slack.{
  channel, Destination, Config, TimeStamp, Message, Event, message, channel_message, SlackInput,
  Enqueued, received, wrapped_input, as_input, wrap, input_of, event_to_input, events_input,
  default_events_payload_handler, rtm_input, event_payload, default_rtm_payload_handler,
}

module _ (channel_string user_string : Text → Text) where
  -- For each event the two payload handlers pass the same input to `enqueueInput`, or none, or panic both.
  pub default_rtm_payload_handler-events :
      (config : Config) (e : Event)
      → default_rtm_payload_handler channel_string user_string config (event_payload e)
        ≡ default_events_payload_handler channel_string user_string config e
  unfolding default_rtm_payload_handler default_events_payload_handler rtm_input events_input
  default_rtm_payload_handler-events config e =
      by_input (event_to_input channel_string user_string e)
    where
      by_input :
          (o : Option SlackInput)
          → rtm_input channel_string user_string config o
            ≡ events_input channel_string user_string config o
      by_input none = refl
      by_input (some i) = refl

  -- The four methods of the input for a message with a timestamp.
  abbrev pub methods : Message → TimeStamp → Input Destination
  methods m t = regular (record {
    sender_key = channel_string m.channel_id ++ (codes "|" ++ user_string m.user_id);
    message = m.text;
    sent_at = t.time;
    reply_to = channel m.channel_id;
  })

  -- If no channel's text has a bar: the inputs of two messages have the same sender key only if the channels have the same text and the users too.
  pub event_to_input-sender_key :
      (m n : Message) (i j : SlackInput)
      → ((c : Text) → Lacks 124 (channel_string c))
      → event_to_input channel_string user_string (message m) ≡ some i
      → event_to_input channel_string user_string (channel_message n) ≡ some j
      → i.sender_key ≡ j.sender_key
      → (channel_string m.channel_id ≡ channel_string n.channel_id)
        × (user_string m.user_id ≡ user_string n.user_id)
  unfolding event_to_input input_of
  event_to_input-sender_key m n i j h em en same =
      split_unique 124 (channel_string m.channel_id) (channel_string n.channel_id)
        (user_string m.user_id) (user_string n.user_id) (h m.channel_id) (h n.channel_id)
        (ap (λ o. key_of o) em ∙ same ∙ sym (ap (λ o. key_of o) en))
    where
      key_of : Option SlackInput → Text
      key_of none = []
      key_of (some k) = k.sender_key

  -- What a message says, when spaces around it do not count.
  abbrev pub meaning : Config → Text → Message → TimeStamp → SlackInput → Enqueued
  meaning config word m t i =
      if word == config.help_command
      then wrapped_input (new_help_input (methods m t))
      else if word == config.abort_command
      then wrapped_input (new_abort_input (methods m t))
      else received i

  tested : (w x : Text) → is_empty w ≡ false → (not (is_empty x) && (w == x)) ≡ (w == x)
  unfolding text_beq
  tested [] x h = absurd (ground (arith, h))
  tested (c ∷ w) [] h = refl
  tested (c ∷ w) (d ∷ x) h = refl

  rtm_input-meaning :
      (config : Config) (m : Message) (t : TimeStamp) (i : SlackInput) (w : Text)
      → trim_space i.text ≡ w
      → is_empty w ≡ false
      → as_input i i.timestamp ≡ returns (methods m t)
      → rtm_input channel_string user_string config (some i)
        ≡ returns (some (meaning config w m t i))
  unfolding rtm_input wrap
  rtm_input-meaning config m t i w trimmed filled call =
      rw (trimmed, call, tested w config.help_command filled, tested w config.abort_command filled)
        (by_tests (w == config.help_command) (w == config.abort_command))
    where
      by_tests :
          (x y : Bool)
          → (if x
              then returns (some (wrapped_input (new_help_input (methods m t))))
              else if y
              then returns (some (wrapped_input (new_abort_input (methods m t))))
              else returns (some (received i)))
            ≡ returns (
                some (
                  if x
                  then wrapped_input (new_help_input (methods m t))
                  else if y
                  then wrapped_input (new_abort_input (methods m t))
                  else received i))
      by_tests true y = refl
      by_tests false true = refl
      by_tests false false = refl

  -- For a message with a timestamp that is a word with spaces around it: the payload handlers of both APIs enqueue a help input if the word is the configured help command, else an abort input if it is the configured abort command, else the message itself; the wrapped inputs answer with the message's sender key, text, time and channel.
  pub handlers-meaning :
      (config : Config) (m : Message) (t : TimeStamp) (a w b : Text)
      → m.text ≡ a ++ (w ++ b)
      → Blank a
      → Blank b
      → IsTrimmed w
      → m.time_stamp ≡ some t
      → (i : SlackInput) × (event_to_input channel_string user_string (message m) ≡ some i)
        × (default_rtm_payload_handler channel_string user_string config (event_payload (message m))
            ≡ returns (some (meaning config w m t i)))
        × (default_events_payload_handler channel_string user_string config (message m)
            ≡ returns (some (meaning config w m t i)))
  unfolding event_to_input input_of default_rtm_payload_handler
  handlers-meaning config m t a w b text ha hb hw time =
      let i : SlackInput = input_of channel_string user_string (message m) m in
      let rtm =
        rtm_input-meaning config m t i w (ap trim_space text ∙ trim_space-surrounded a w b ha hb hw)
          (is_empty-IsTrimmed w hw) (rw time refl) in
      (i, refl, rtm, sym (default_rtm_payload_handler-events config (message m)) ∙ rtm)
