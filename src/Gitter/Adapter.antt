-- ===== src/Gitter/Adapter.antt =====
-- gitter/adapter.go: the adapter. `apiClient` and `streamingClient` are interfaces; a goroutine of a room
-- is the course of its turns. What `retry.WithPolicy` comes to is the result of a call.
pub mod Lifetime
use go_sarah.Shared.{
  ℕ, zero, suc, ◌+◌, ◌-◌, ◌*◌, ◌/◌, ◌%◌, ◌≤◌, ◌<◌, ◌≡◌, refl, sym, ap, subst, ◌∙◌, fun_ext, ◌≢◌,
  ◌↔◌, ◌⊎◌, inl, inr, Bool, true, false, not, ◌&&◌, ◌||◌, Option, none, some, List, [], ◌∷◌, ◌++◌,
  map, append-nil, append_assoc, map-append, reverse, reverse_aux, reverse-reverse, arith,
  add_assoc, add_comm, add-zero, ltb, leb, nat_beq, if◌then◌else◌, nat_beq_iff, if_same, Bool-cases,
  Option-cases, is_nil, Eq, ◌==◌, nat_eq, ==_iff, ==_self, length, get_elem?, set, index_func, keep,
  any, tally, tally-append, tally_middle, length-append, keep-append, All, All-append, Text, codes,
  text_beq, text_eq, is_empty, Lacks, Lacks-append, split_unique, Map, lookup, insert, delete,
  lookup-insert, lookup-delete, Result, ok, err, Outcome, returns, panics, is_space, trim_left,
  trim_space, IsTrimmed, Blank, trim_space-surrounded, is_empty-IsTrimmed,
}
use go_sarah.Errors.{Error, bot_non_continuable}
use go_sarah.Messages.{Output}
use go_sarah.Storage.{UserContext, SerializableArgument, new_user_context}
use go_sarah.Commands.{Content, helps, value}
use go_sarah.Gitter.{Room, Message, RoomMessage}
use go_sarah.Gitter.Stream.{Received, receive_all}

-- What `Run` does before it returns: the errors that it escalates, and the rooms for which it starts a
-- goroutine.
pub record Started : Type 0 where
  pub notified : List Error
  pub rooms : List Room

-- `Adapter.Run`, for what the retries of `Rooms` come to; an error comes with its message.
unfoldable pub run : Result Text (List Room) → Started
run (err message) = record { notified = bot_non_continuable message ∷ []; rooms = [] }
run (ok rooms) = record { notified = []; rooms = rooms }

-- A turn of the loop of `runEachRoom`.
pub data Turn : Type 0 where
  context_done : Turn
  not_connected : Error → Turn
  -- A connection with the chunks of its stream and the error at its end.
  streamed : List Text → Error → Turn

-- What the goroutine of a room has done.
pub record RoomRun : Type 0 where
  pub enqueued : List RoomMessage
  pub connections : ℕ
  pub closed : ℕ
  pub returned : Bool

abbrev pub new_room_run : RoomRun
new_room_run = record { enqueued = []; connections = 0; closed = 0; returned = false }

module _ (json : Text → Result Error Message) (room : Room) where
  messages_of : Option Received → List RoomMessage
  messages_of none = []
  messages_of (some (ms, e)) = ms

  disconnect : List RoomMessage → RoomRun → RoomRun
  disconnect ms r = record r {
    enqueued = r.enqueued ++ ms;
    connections = r.connections + 1;
    closed = r.closed + 1;
  }

  -- `runEachRoom`.
  unfoldable pub run_each_room : List Turn → RoomRun → RoomRun
  unfolding messages_of disconnect
  run_each_room [] r = r
  run_each_room (context_done ∷ turns) r = record r { returned = true }
  run_each_room (not_connected e ∷ turns) r = record r { returned = true }
  run_each_room (streamed chunks broken ∷ turns) r =
      run_each_room turns (disconnect (messages_of (receive_all json broken room chunks)) r)

-- The dynamic type of a destination, and of the content of a message besides `*sarah.CommandHelps`.
pub data Destination : Type 0 where
  room_destination : Room → Destination
  other_destination : Destination

pub data Value : Type 0 where
  string : Text → Value
  other_value : Value

-- A call of `PostMessage`, and the errors that are logged: nil is `none`.
pub record Sent : Type 0 where
  pub posted : Option (Room × Text)
  pub failures : List (Option Error)

abbrev not_sent : Sent
not_sent = record { posted = none; failures = [] }

-- The error is logged whatever it is.
post : (Room → Text → Option Error) → Text → Destination → Sent
post post_message text other_destination = not_sent
post post_message text (room_destination room) = record {
  posted = some (room, text);
  failures = post_message room text ∷ [];
}

-- `SendMessage`; `post_message` is the error of `APIClient.PostMessage`.
unfoldable pub send_message :
    (Room → Text → Option Error) → Output Destination (Content Value) → Sent
unfolding post
send_message post_message o = elim o.content [
  | helps hs ↦ not_sent
  | value v ↦ elim v [ string text ↦ post post_message text o.destination | other_value ↦ not_sent ]
]

-- A call of one of the functions that make a `RespOption`.
pub data RespOption (V F : Type 0) : Type 0 where
  resp_with_next : F → RespOption V F
  resp_with_next_serializable : SerializableArgument V → RespOption V F

module _ {V F : Type 0} where
  unfoldable pub apply_option : RespOption V F → Option (UserContext V F) → Option (UserContext V F)
  apply_option (resp_with_next f) u = some (new_user_context f)
  apply_option (resp_with_next_serializable a) u =
      some (record { next = none; serializable = some a })

  unfoldable pub apply_options :
      List (RespOption V F) → Option (UserContext V F) → Option (UserContext V F)
  apply_options [] u = u
  apply_options (opt ∷ opts) u = apply_options opts (apply_option opt u)

  -- `NewResponse`: the content and the user context.
  unfoldable pub new_response : Text → List (RespOption V F) → Value × Option (UserContext V F)
  new_response content opts = (string content, apply_options opts none)
