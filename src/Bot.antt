-- ===== src/Bot.antt =====
-- bot.go: the default bot. `S` is the state of the context storage that it may have, `F` names
-- the contextual functions and `V` the values of `interface{}`.
pub mod Respond
pub mod Conversation
mod Examples
use go_sarah.Shared.{
  ℕ, zero, suc, ◌+◌, ◌-◌, ◌*◌, ◌/◌, ◌%◌, ◌≤◌, ◌<◌, ◌≡◌, refl, sym, ap, subst, ◌∙◌, fun_ext, ◌≢◌,
  ◌↔◌, ◌⊎◌, inl, inr, Bool, true, false, not, ◌&&◌, ◌||◌, Option, none, some, List, [], ◌∷◌, ◌++◌,
  map, append-nil, append_assoc, map-append, arith, add_assoc, add_comm, add-zero, ltb, leb,
  nat_beq, if◌then◌else◌, nat_beq_iff, Bool-cases, Option-cases, is_nil, Eq, ◌==◌, nat_eq, ==_iff,
  ==_self, length, get_elem?, set, index_func, keep, any, tally, tally-append, tally_middle,
  length-append, keep-append, All, All-append, Text, codes, text_beq, text_eq, is_empty, Lacks,
  split_unique, Map, lookup, insert, delete, lookup-insert, lookup-delete, Result, ok, err, Outcome,
  returns, panics,
}
use go_sarah.Errors.{Error}
use go_sarah.Messages.{
  Input, regular, help, abort, Output, new_output_message, sender_key, reply_to,
}
use go_sarah.Storage.{UserContext, UserContextStorage, new_user_context}
use go_sarah.Commands.{
  Command, CommandResponse, Content, helps, Execution, append, execute_first_matched, collect_helps,
}

-- What the adapter gives the bot, and what the program gives it as contextual functions.
pub record Adapter (D V F : Type 0) : Type 0 where
  pub bot_type : Text
  pub call : F → Input D → Execution V F

-- `defaultBot`, with the messages that it has handed to `sendMessageFunc`, the oldest first.
pub record DefaultBot (D V F S : Type 0) : Type 0 where
  pub bot_type : Text
  pub commands : List (Command D V F)
  pub storage : Option S
  pub sent : List (Output D (Content V))

module _ {D V F S : Type 0} where
  -- `NewBot`, with the storage of the option `BotWithStorage` if it is given.
  unfoldable pub new_bot : Adapter D V F → Option S → DefaultBot D V F S
  new_bot adapter storage = record {
    bot_type = adapter.bot_type;
    commands = [];
    storage = storage;
    sent = [];
  }

  unfoldable pub append_command : Command D V F → DefaultBot D V F S → DefaultBot D V F S
  append_command c b = record b { commands = append c b.commands }

  unfoldable pub send_message : Output D (Content V) → DefaultBot D V F S → DefaultBot D V F S
  send_message o b = record b { sent = b.sent ++ o ∷ [] }

-- `NewSuppressedResponseWithNext`.
unfoldable pub new_suppressed_response_with_next : {V F : Type 0} → F → CommandResponse V F
new_suppressed_response_with_next f = record {
  content = none;
  user_context = some (new_user_context f);
}

module _ {D V F S : Type 0} (storage : UserContextStorage V F S) (adapter : Adapter D V F) where
  -- The context that `Get` answers; without a storage there is none.
  unfoldable pub next_of : Text → Option S → Result Error (Option F)
  next_of key none = ok none
  next_of key (some s) = storage.get key s

  -- An error of `Delete` is logged.
  unfoldable pub deleted : Text → Option S → Option S
  deleted key none = none
  deleted key (some s) = some (storage.delete key s).0

  -- `res.UserContext != nil && bot.userContextStorage != nil`; an error of `Set` is logged.
  unfoldable pub remembered : Text → Option (UserContext V F) → Option S → Option S
  remembered key none s = s
  remembered key (some u) none = none
  remembered key (some u) (some s) = some (storage.set key u s).0

  unfoldable pub delivered : Input D → Option (Content V) → DefaultBot D V F S → DefaultBot D V F S
  delivered i none b = b
  delivered i (some c) b = send_message (new_output_message (reply_to i) c) b

  -- What follows the execution.
  unfoldable pub finish :
      Input D → Execution V F → DefaultBot D V F S → DefaultBot D V F S × Outcome (Option Error)
  finish i panics b = (b, panics)
  finish i (returns (err e)) b = (b, returns (some e))
  finish i (returns (ok none)) b = (b, returns none)
  finish i (returns (ok (some res))) b = (
    delivered i res.content
        (record b { storage = remembered (sender_key i) res.user_context b.storage }),
    returns none,
  )

  -- Without a context: helps for a help input, and else the first command that matches.
  unfoldable pub fresh : Input D → List (Command D V F) → Execution V F
  fresh (help original f) cs = returns (
      ok (
        some (record {
          content = some (helps (collect_helps (help original f) cs));
          user_context = none;
        })))
  fresh (regular f) cs = execute_first_matched (regular f) cs
  fresh (abort original f) cs = execute_first_matched (abort original f) cs

  -- With a context, which is deleted first: an abort ends here, any other input goes to the function.
  unfoldable pub continued :
      Input D → F → DefaultBot D V F S → DefaultBot D V F S × Outcome (Option Error)
  continued (abort original f) next b = (b, returns none)
  continued (regular f) next b = finish (regular f) (adapter.call next (regular f)) b
  continued (help original f) next b =
      finish (help original f) (adapter.call next (help original f)) b

  dispatch :
      Input D
      → Result Error (Option F)
      → DefaultBot D V F S
      → DefaultBot D V F S × Outcome (Option Error)
  dispatch i (err e) b = (b, returns (some e))
  dispatch i (ok none) b = finish i (fresh i b.commands) b
  dispatch i (ok (some next)) b =
      continued i next (record b { storage = deleted (sender_key i) b.storage })

  -- `defaultBot.Respond`: the bot afterwards, and the error or a panic of the function that it calls.
  unfoldable pub respond :
      Input D → DefaultBot D V F S → DefaultBot D V F S × Outcome (Option Error)
  unfolding next_of deleted remembered delivered finish fresh continued dispatch
  respond i b = dispatch i (next_of (sender_key i) b.storage) b
