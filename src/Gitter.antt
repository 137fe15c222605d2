-- ===== src/Gitter.antt =====
-- gitter/: rooms, messages and timestamps (gitter/payload.go), the input of the adapter
-- (gitter/connection.go) and its configuration. Fields that no code reads are left out. `time_parse` is
-- `time.Parse` with the layout of Gitter.
pub mod Stream
pub mod Adapter
pub mod Rest
mod Examples
use go_sarah.Shared.{
  ℕ, zero, suc, ◌+◌, ◌-◌, ◌*◌, ◌/◌, ◌%◌, ◌≤◌, ◌<◌, ◌≡◌, refl, sym, ap, subst, ◌∙◌, fun_ext, ◌≢◌,
  ◌↔◌, ◌⊎◌, inl, inr, Bool, true, false, not, ◌&&◌, ◌||◌, Option, none, some, List, [], ◌∷◌, ◌++◌,
  map, append-nil, append_assoc, map-append, reverse, reverse_aux, reverse-reverse, arith,
  add_assoc, add_comm, add-zero, ltb, leb, nat_beq, if◌then◌else◌, nat_beq_iff, if_same, Bool-cases,
  Option-cases, is_nil, Eq, ◌==◌, nat_eq, ==_iff, ==_self, length, get_elem?, set, index_func, keep,
  any, tally, tally-append, tally_middle, length-append, keep-append, All, All-append, Text, codes,
  text_beq, text_eq, is_empty, Lacks, Lacks-append, split_unique, Map, lookup, insert, delete,
  lookup-insert, lookup-delete, Result, ok, err, Outcome, returns, panics, is_space, trim_left,
  trim_space, IsTrimmed, Blank, trim_space-surrounded,
}
use go_sarah.Errors.{Error}
use go_sarah.Messages.{Input, regular}

-- `Config`; the policy is a number of trials and an interval in milliseconds.
pub record Config : Type 0 where
  pub token : Text
  pub retry_policy : ℕ × ℕ

abbrev pub new_config : Config
new_config = record { token = []; retry_policy = (10, 500) }

-- `TimeStamp`.
pub record TimeStamp : Type 0 where
  pub time : ℕ
  pub original_value : Text

parsed : Text → TimeStamp → Result Error ℕ → TimeStamp × Option Error
parsed s t (err e) = (record t { original_value = s }, some e)
parsed s t (ok time) = (record { time = time; original_value = s }, none)

-- `UnmarshalText`: what it leaves in the timestamp, and its error.
unfoldable pub unmarshal_text :
    (Text → Result Error ℕ) → Text → TimeStamp → TimeStamp × Option Error
unfolding parsed
unmarshal_text time_parse s t = parsed s t (time_parse s)

-- `String` and `MarshalText`.
unfoldable pub marshal_text : TimeStamp → Text
marshal_text t = t.original_value

-- What a timestamp is written as is what it was read from, also where the text is no time.
pub marshal_text-unmarshal_text :
    (time_parse : Text → Result Error ℕ) (s : Text) (t : TimeStamp)
    → marshal_text (unmarshal_text time_parse s t).0 ≡ s
unfolding marshal_text unmarshal_text parsed
marshal_text-unmarshal_text time_parse s t = by_result (time_parse s)
  where
    by_result : (r : Result Error ℕ) → marshal_text (parsed s t r).0 ≡ s
    by_result (err e) = refl
    by_result (ok time) = refl

pub record Room : Type 0 where
  pub id : Text
  pub name : Text

pub record User : Type 0 where
  pub id : Text

pub record Message : Type 0 where
  pub id : Text
  pub text : Text
  pub send_time_stamp : TimeStamp
  pub from_user : User

-- `RoomMessage`.
pub record RoomMessage : Type 0 where
  pub room : Room
  pub received_message : Message

unfoldable pub new_room_message : Room → Message → RoomMessage
new_room_message room m = record { room = room; received_message = m }

-- The four methods of the input.
unfoldable pub as_input : RoomMessage → Input Room
as_input m = regular (record {
  sender_key = m.room.id ++ (codes "|" ++ m.received_message.from_user.id);
  message = m.received_message.text;
  sent_at = m.received_message.send_time_stamp.time;
  reply_to = m.room;
})
