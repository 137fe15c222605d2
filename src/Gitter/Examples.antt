-- ===== src/Gitter/Examples.antt =====
-- A room with two messages, and its bot.
use go_sarah.Shared.{
  ◌≡◌, refl, false, none, some, List, [], ◌∷◌, ◌++◌, map, arith, if◌then◌else◌, is_nil, ◌==◌,
  nat_eq, Text, codes, text_beq, text_eq, Result, ok, err,
}
use go_sarah.Errors.{Error, plain}
use go_sarah.Runner.{Supervisor}
use go_sarah.Gitter.{Room, Message, new_room_message}
use go_sarah.Gitter.Stream.{newline, receive_all}
use go_sarah.Gitter.Stream.Lines.{Line}
use go_sarah.Gitter.Stream.Messages.{
  chunks_of, said, disconnected, receive_all-said, receive_all_returns, receive_all-encode,
}

abbrev room : Room
room = record { id = codes "1"; name = codes "sarah" }

abbrev said_as : Text → Message
said_as text = record {
  id = codes "m";
  text = text;
  send_time_stamp = record { time = 1; original_value = codes "1" };
  from_user = record { id = codes "u" };
}

-- Unmarshals any text but an x, as a message that says it.
abbrev json : Text → Result Error Message
json s = if s == codes "x" then err (plain s) else ok (said_as s)

abbrev eof : Error
eof = plain (codes "EOF")

abbrev line : Text → Line
line s = record { pieces = s ∷ []; last = s }

-- The second chunk of the second line has a third line behind its newline.
abbrev lines : List (Line × Text)
lines = (line (codes "a"), []) ∷ (line (codes "b"), codes "c") ∷ []

receive_all-said_example :
    receive_all json eof room (chunks_of lines (codes "d" ∷ []))
    ≡ some (said json eof room lines, disconnected json eof room)
receive_all-said_example =
    receive_all-said json eof room lines (codes "d" ∷ [])
      (((omega arith, tt), omega arith), (((omega arith, tt), omega arith), tt)) (omega arith, tt)

receive_all_returns_example :
    is_nil (receive_all json eof room (codes "a" ∷ codes "b" ∷ [])) ≡ false
receive_all_returns_example = receive_all_returns json eof room (codes "a" ∷ codes "b" ∷ [])

abbrev encode : Message → Text
encode m = m.text

receive_all-encode_example :
    receive_all json eof room
      (map (λ m. encode m ++ newline ∷ []) (said_as (codes "a") ∷ said_as (codes "b") ∷ []))
    ≡ some (
      map (new_room_message room) (said_as (codes "a") ∷ said_as (codes "b") ∷ []),
      disconnected json eof room,
    )
receive_all-encode_example =
    receive_all-encode json eof room encode (said_as (codes "a") ∷ said_as (codes "b") ∷ []) (
      ((refl, refl), omega arith, unfold text_beq in refl),
      (((refl, refl), omega arith, unfold text_beq in refl), tt),
    )

abbrev supervisor : Supervisor
supervisor = none
