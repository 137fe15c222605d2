-- ===== src/Messages.antt =====
-- input.go and output.go: incoming and outgoing messages. `D` stands for the destinations of the
-- chat service (`OutputDestination`), a time is a number.
use go_sarah.Shared.{ℕ, Bool, true, false, Text}

-- What the four methods of an `Input` answer.
pub record Fields (D : Type 0) : Type 0 where
  pub sender_key : Text
  pub message : Text
  pub sent_at : ℕ
  pub reply_to : D

-- An input of an adapter, or one that `NewHelpInput` or `NewAbortInput` wraps.
pub data Input (D : Type 0) : Type 0 where
  regular : Fields D → Input D
  help : Input D → Fields D → Input D
  abort : Input D → Fields D → Input D

module _ {D : Type 0} where
  abbrev pub fields : Input D → Fields D
  fields (regular f) = f
  fields (help original f) = f
  fields (abort original f) = f

  abbrev pub sender_key : Input D → Text
  sender_key i = (fields i).sender_key

  abbrev pub message : Input D → Text
  message i = (fields i).message

  abbrev pub sent_at : Input D → ℕ
  sent_at i = (fields i).sent_at

  abbrev pub reply_to : Input D → D
  reply_to i = (fields i).reply_to

  abbrev answers : Input D → Fields D
  answers i = record {
    sender_key = sender_key i;
    message = message i;
    sent_at = sent_at i;
    reply_to = reply_to i;
  }

  unfoldable pub new_help_input : Input D → Input D
  new_help_input i = help i (answers i)

  unfoldable pub new_abort_input : Input D → Input D
  new_abort_input i = abort i (answers i)

  abbrev pub is_help : Input D → Bool
  is_help (help original f) = true
  is_help (regular f) = false
  is_help (abort original f) = false

  abbrev pub is_abort : Input D → Bool
  is_abort (abort original f) = true
  is_abort (regular f) = false
  is_abort (help original f) = false

-- `OutputMessage`.
pub record Output (D C : Type 0) : Type 0 where
  pub destination : D
  pub content : C

unfoldable pub new_output_message : {D C : Type 0} → D → C → Output D C
new_output_message d c = record { destination = d; content = c }
