-- ===== src/Bot/Examples.antt =====
-- A conversation of a user with a bot that has one command, which asks back.
use go_sarah.Shared.{
  ℕ, ◌≡◌, refl, inl, true, none, some, [], ◌∷◌, ◌++◌, arith, nat_eq, index_func, Text, codes,
  text_eq, ok, returns,
}
use go_sarah.Storage.{UserContext, Cached, Stored, new_user_context_storage}
use go_sarah.Storage.History.{new-Agrees}
use go_sarah.Bot.{Adapter, DefaultBot, fresh}
use go_sarah.Bot.Respond.{outcome_of, messages_of, execution}
use go_sarah.Bot.Conversation.{
  Follows, hears, turn, later, respond-turn, respond_other_user, stateful_command,
}
use go_sarah.Commands.{Command, CommandResponse, Content, find_first_matched, execute_first_matched}
use go_sarah.Messages.{Input, regular}
use go_sarah.Storage.TimedCache.{timed_cache, timed_cache-CacheLaws}
use go_sarah.Storage.GoCache.{Cache, CacheLaws}

abbrev cache : Cache (Cached ℕ ℕ) 180
cache = timed_cache 180

abbrev laws : CacheLaws cache
laws = timed_cache-CacheLaws 180

abbrev said : Text → Text → Input Text
said user t =
    regular (record { sender_key = user; message = t; sent_at = 0; reply_to = codes "room" })

abbrev alice : Text
alice = codes "room|alice"

abbrev bob : Text
bob = codes "room|bob"

-- Function 1 answers with its own number.
abbrev adapter : Adapter Text ℕ ℕ
adapter = record {
  bot_type = codes "slack";
  call =
      λ f i. returns (ok (some (record { content = some (Content.value f); user_context = none })));
}

abbrev asks : UserContext ℕ ℕ
asks = record { next = some 1; serializable = none }

abbrev question : CommandResponse ℕ ℕ
question = record { content = some (Content.value 7); user_context = some asks }

abbrev ask : Command Text ℕ ℕ
ask = record {
  identifier = codes "ask";
  execute = λ i. returns (ok (some question));
  instruction = λ i. codes "ask";
  does_match = λ i. true;
}

abbrev a_bot : DefaultBot Text ℕ ℕ (Stored cache.Store)
a_bot = record {
  bot_type = codes "slack";
  commands = ask ∷ [];
  storage = some (new_user_context_storage cache 0);
  sent = [];
}

a_bot-Follows : (user : Text) → Follows cache adapter laws user none a_bot
a_bot-Follows user = (new_user_context_storage cache 0, refl, new-Agrees cache laws user 0)

respond-turn_example :
    Follows cache adapter laws alice
      (turn cache adapter (said alice (codes ".ask")) a_bot.commands none)
      (hears cache adapter (said alice (codes ".ask")) a_bot).0
respond-turn_example =
    respond-turn cache adapter laws (said alice (codes ".ask")) none a_bot (a_bot-Follows alice)

respond_other_user_example :
    Follows cache adapter laws bob none (hears cache adapter (said alice (codes ".ask")) a_bot).0
respond_other_user_example =
    respond_other_user cache adapter laws (said alice (codes ".ask")) bob none a_bot
      (λ same. absurd (ground (arith, same))) (a_bot-Follows bob)

-- Alice's second input, 100 seconds later, is for function 1.
stateful_command_example :
    ((hears cache adapter
        (said alice (codes "yes"))
        (later cache adapter laws 100 (hears cache adapter (said alice (codes ".ask")) a_bot).0)).1
      ≡ outcome_of (adapter.call 1 (said alice (codes "yes"))))
    × ((hears cache adapter (said alice (codes "yes")) (
          later cache adapter laws 100
            (hears cache adapter (said alice (codes ".ask")) a_bot).0)).0.sent
        ≡ (later cache adapter laws 100
            (hears cache adapter (said alice (codes ".ask")) a_bot).0).sent
          ++ messages_of (said alice (codes "yes")) (adapter.call 1 (said alice (codes "yes"))))
unfolding execution execute_first_matched find_first_matched index_func fresh
stateful_command_example =
    stateful_command cache adapter laws (said alice (codes ".ask")) (said alice (codes "yes")) 100
      a_bot question asks 1 (a_bot-Follows alice) refl refl refl refl refl (inl (omega arith))
