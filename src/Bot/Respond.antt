-- ===== src/Bot/Respond.antt =====
-- What one call of `Respond` does to the outside, whatever storage the bot has.
use go_sarah.Shared.{
  ◌≡◌, refl, sym, Option, none, some, List, [], ◌∷◌, ◌++◌, append-nil, nat_eq, text_eq, ok, err,
  Outcome, returns, panics,
}
use go_sarah.Errors.{Error}
use go_sarah.Messages.{Input, regular, help, abort, Output, sender_key, reply_to, is_abort}
use go_sarah.Storage.{UserContextStorage}
use go_sarah.Commands.{Command, Content, Execution}
use go_sarah.Bot.{
  Adapter, DefaultBot, next_of, remembered, delivered, finish, fresh, continued, respond,
  send_message,
}

-- The error or the panic that an execution ends in.
unfoldable pub outcome_of : {V F : Type 0} → Execution V F → Outcome (Option Error)
outcome_of panics = panics
outcome_of (returns (err e)) = returns (some e)
outcome_of (returns (ok r)) = returns none

content_message : {D V : Type 0} → Input D → Option (Content V) → List (Output D (Content V))
content_message i none = []
content_message i (some c) = record { destination = reply_to i; content = c } ∷ []

module _ {D V F : Type 0} where
  -- The messages that an execution answers to the sender of the input.
  unfoldable pub messages_of : Input D → Execution V F → List (Output D (Content V))
  unfolding content_message
  messages_of i panics = []
  messages_of i (returns (err e)) = []
  messages_of i (returns (ok none)) = []
  messages_of i (returns (ok (some res))) = content_message i res.content

module _ {D V F S : Type 0} (storage : UserContextStorage V F S) (adapter : Adapter D V F) where
  -- What is executed for an input under a context or none: `none` ends the call at once.
  unfoldable pub execution : Input D → List (Command D V F) → Option F → Execution V F
  execution i cs none = fresh storage adapter i cs
  execution (abort original f) cs (some next) = returns (ok none)
  execution (regular f) cs (some next) = adapter.call next (regular f)
  execution (help original f) cs (some next) = adapter.call next (help original f)

  finish_result :
      (i : Input D) (x : Execution V F) (b : DefaultBot D V F S)
      → let (b', o) = finish storage adapter i x b in
        (o ≡ outcome_of x) × (b'.sent ≡ b.sent ++ messages_of i x) × (b'.commands ≡ b.commands)
  unfolding finish outcome_of messages_of delivered send_message
      go_sarah.Messages.new_output_message
  finish_result i panics b = (refl, sym (append-nil b.sent), refl)
  finish_result i (returns (err e)) b = (refl, sym (append-nil b.sent), refl)
  finish_result i (returns (ok none)) b = (refl, sym (append-nil b.sent), refl)
  finish_result i (returns (ok (some res))) b = responded res.content
    where
      responded :
          (o : Option (Content V))
          → let b' = delivered storage adapter i o (record b {
            storage = remembered storage adapter (sender_key i) res.user_context b.storage;
          }) in
            (◌≡◌ {A = Outcome (Option Error)} (returns none) (returns none))
            × (b'.sent ≡ b.sent ++ content_message i o)
            × (b'.commands ≡ b.commands)
      responded none = (refl, sym (append-nil b.sent), refl)
      responded (some c) = (refl, refl, refl)

  -- For every storage: `Respond` ends as what it executes ends, and answers with the messages of that
  -- alone, which go to the sender of the input; the commands stay. What it executes depends on the
  -- context that the storage answers for the sender.
  pub respond_result :
      (i : Input D) (b : DefaultBot D V F S) (o : Option F)
      → next_of storage adapter (sender_key i) b.storage ≡ ok o
      → let (b', outcome) = respond storage adapter i b in
        let x = execution i b.commands o in
        (outcome ≡ outcome_of x)
        × (b'.sent ≡ b.sent ++ messages_of i x)
        × (b'.commands ≡ b.commands)
  unfolding respond execution continued outcome_of messages_of
  respond_result i b none q =
      rw (q, respond) (finish_result i (fresh storage adapter i b.commands) b)
  respond_result (abort g f) b (some next) q = rw (q, respond) (refl, sym (append-nil b.sent), refl)
  respond_result (regular f) b (some next) q =
      rw (q, respond) (finish_result (regular f) (adapter.call next (regular f)) _)
  respond_result (help g f) b (some next) q =
      rw (q, respond) (finish_result (help g f) (adapter.call next (help g f)) _)

  -- If the storage fails to answer, `Respond` returns its error and does nothing else.
  pub respond_storage_error :
      (i : Input D) (b : DefaultBot D V F S) (e : Error)
      → next_of storage adapter (sender_key i) b.storage ≡ err e
      → respond storage adapter i b ≡ (b, returns (some e))
  unfolding respond
  respond_storage_error i b e q = rw (q, respond)
