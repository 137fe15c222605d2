-- ===== src/Gitter/Stream.antt =====
-- gitter/connection.go and gitter/adapter.go: the stream of a room. A stream is the chunks that the reads
-- of the body give, one for each `Read`; `broken` is the error of the read after the last one. `json`
-- is `json.Unmarshal` into a message.
pub mod Lines
pub mod Messages
use go_sarah.Shared.{
  ℕ, zero, suc, ◌+◌, ◌-◌, ◌*◌, ◌/◌, ◌%◌, ◌≤◌, ◌<◌, ◌≡◌, refl, sym, ap, subst, ◌∙◌, fun_ext, ◌≢◌,
  ◌↔◌, ◌⊎◌, inl, inr, Bool, true, false, not, ◌&&◌, ◌||◌, Option, none, some, List, [], ◌∷◌, ◌++◌,
  map, append-nil, append_assoc, map-append, reverse, reverse_aux, reverse-reverse, arith,
  add_assoc, add_comm, add-zero, ltb, leb, nat_beq, if◌then◌else◌, nat_beq_iff, if_same, Bool-cases,
  Option-cases, is_nil, Eq, ◌==◌, nat_eq, ==_iff, ==_self, length, get_elem?, set, index_func, keep,
  any, tally, tally-append, tally_middle, length-append, keep-append, All, All-append, Text, codes,
  text_beq, text_eq, is_empty, Lacks, Lacks-append, split_unique, Map, lookup, insert, delete,
  lookup-insert, lookup-delete, Result, ok, err, Outcome, returns, panics, is_space, trim_left,
  trim_space, IsTrimmed, Blank, trim_space-surrounded,
}
use go_sarah.Errors.{Error, wrapped}
use go_sarah.Gitter.{Room, Message, RoomMessage, new_room_message}

abbrev pub newline : ℕ
newline = 10

-- What stands up to the first newline, with it, if there is one.
unfoldable pub up_to_newline : Text → Option Text
up_to_newline [] = none
up_to_newline (c ∷ s) =
    let rest = up_to_newline s in
    if c == newline then some (c ∷ []) else elim rest [ none ↦ none | some line ↦ some (c ∷ line) ]

-- `ReadBytes` of a new buffered reader, which has `acc` already: the line, and the chunks that no read has
-- taken. What the reader holds behind the newline goes with it.
line_in : Text → List Text → Option (Text × List Text) → Option Text → Option (Text × List Text)
line_in acc rest more none = more
line_in acc rest more (some line) = some (acc ++ line, rest)

unfoldable pub read_bytes : Text → List Text → Option (Text × List Text)
unfolding line_in
read_bytes acc [] = none
read_bytes acc (chunk ∷ rest) =
    line_in acc rest (read_bytes (acc ++ chunk) rest) (up_to_newline chunk)

-- What `Receive` answers; its errors by the tests of `receiveMessageRecursive`.
pub data Reception : Type 0 where
  message : RoomMessage → Reception
  empty_payload : Reception
  malformed_payload : Error → Reception
  failed : Error → Reception

module _ (json : Text → Result Error Message) (room : Room) where
  unmarshalled : Result Error Message → Reception
  unmarshalled (err e) = malformed_payload e
  unmarshalled (ok m) = message (new_room_message room m)

  -- `decodePayload`, and the end of `Receive`.
  unfoldable pub decode_payload : Text → Reception
  unfolding unmarshalled
  decode_payload line =
      let payload = trim_space line in
      if is_empty payload then empty_payload else unmarshalled (json payload)

-- What the loop of `receiveMessageRecursive` has enqueued when it returns, and its error.
abbrev pub Received : Type 0
Received = List RoomMessage × Error

enqueued : RoomMessage → Option Received → Option Received
enqueued m none = none
enqueued m (some (ms, e)) = some (m ∷ ms, e)

-- One turn of the loop, and what follows it.
after_reception : Reception → Option Received → Option Received
unfolding enqueued
after_reception (message m) rest = enqueued m rest
after_reception empty_payload rest = rest
after_reception (malformed_payload e) rest = rest
after_reception (failed e) rest = some ([], wrapped (codes "failed to receive input") e)

module _ (json : Text → Result Error Message) (broken : Error) (room : Room) where
  received : Option (Text × List Text) → Reception × List Text
  received none = (failed broken, [])
  received (some (line, rest)) = (decode_payload json room line, rest)

  -- `connWrapper.Receive`, with a buffered reader of its own.
  unfoldable pub receive : List Text → Reception × List Text
  unfolding received
  receive chunks = received (read_bytes [] chunks)

  -- `receiveMessageRecursive`; `none` means that the fuel was too little.
  unfoldable pub receive_message_recursive : ℕ → List Text → Option Received
  unfolding after_reception
  receive_message_recursive zero chunks = none
  receive_message_recursive (suc n) chunks =
      let (r, rest) = receive chunks in after_reception r (receive_message_recursive n rest)

  -- Each reception takes a chunk at least, or is the last.
  unfoldable pub receive_all : List Text → Option Received
  receive_all chunks = receive_message_recursive (length chunks + 1) chunks
