-- ===== src/Gitter/Adapter/Lifetime.antt =====
-- The bot of the adapter under its runner, and the goroutines of its rooms.
use go_sarah.Shared.{
  ℕ, ◌+◌, ◌≡◌, sym, ap, ◌∙◌, true, false, List, [], ◌∷◌, ◌++◌, append-nil, append_assoc, arith,
  nat_eq, length, All, Text, text_eq, Lacks, Result, returns,
}
use go_sarah.Errors.{Error}
use go_sarah.Runner.{BotRun}
use go_sarah.Gitter.{Room, Message, RoomMessage}
use go_sarah.Gitter.Stream.{newline}
use go_sarah.Gitter.Stream.Lines.{Line, IsLine}
use go_sarah.Gitter.Stream.Messages.{chunks_of, said, receive_all-said}
use go_sarah.Gitter.Adapter.{
  Started, Turn, context_done, not_connected, streamed, RoomRun, new_room_run, messages_of,
  disconnect, run_each_room,
}

-- `Bot.Run` of the bot: it escalates errors and returns.
abbrev pub adapter_run : Started → BotRun
adapter_run s = record { escalated = s.notified; ending = returns tt; stack = [] }

-- Streams that end, each of lines and possibly an unfinished one.
pub record Streamed : Type 0 where
  pub lines : List (Line × Text)
  pub unfinished : List Text
  pub broken : Error

abbrev pub IsStreamed : Streamed → Type 0
IsStreamed s = All (λ t. IsLine t.0) s.lines × All (Lacks newline) s.unfinished

unfoldable pub turns_of : List Streamed → List Turn → List Turn
turns_of [] last = last
turns_of (s ∷ ss) last = streamed (chunks_of s.lines s.unfinished) s.broken ∷ turns_of ss last

module _ (json : Text → Result Error Message) (room : Room) where
  -- What all the streams say.
  unfoldable pub said_by : List Streamed → List RoomMessage
  said_by [] = []
  said_by (s ∷ ss) = said json s.broken room s.lines ++ said_by ss

  -- After `n` connections, all closed.
  abbrev pub after : List RoomMessage → ℕ → RoomRun
  after ms n = record { enqueued = ms; connections = n; closed = n; returned = false }

  run_each_room-turns :
      (ss : List Streamed) (last : List Turn) (ms : List RoomMessage) (n : ℕ)
      → All IsStreamed ss
      → run_each_room json room (turns_of ss last) (after ms n)
        ≡ run_each_room json room last (after (ms ++ said_by ss) (n + length ss))
  unfolding run_each_room turns_of said_by messages_of disconnect
  run_each_room-turns [] last ms n h =
      ap (run_each_room json room last)
        (ap (λ t. after t n) (sym (append-nil ms)) ∙ ap (after (ms ++ [])) (omega arith))
  run_each_room-turns (s ∷ ss) last ms n ((h, k), hs) =
      ap
        (λ o.
          run_each_room json room (turns_of ss last)
            (disconnect json room (messages_of json room o) (after ms n)))
        (receive_all-said json s.broken room s.lines s.unfinished h k)
      ∙ run_each_room-turns ss last (ms ++ said json s.broken room s.lines) (n + 1) hs
      ∙ ap (run_each_room json room last) (
          ap (λ t. after t (n + 1 + length ss))
            (append_assoc ms (said json s.broken room s.lines) (said_by ss))
          ∙ ap (after (ms ++ (said json s.broken room s.lines ++ said_by ss))) (omega arith))

  returned_after :
      (ss : List Streamed)
      → record (after (said_by ss) (0 + length ss)) { returned = true }
        ≡ record (after (said_by ss) (length ss)) { returned = true }
  returned_after ss = ap (λ n. record (after (said_by ss) n) { returned = true }) (omega arith)

  -- The goroutine of a room reconnects after each stream that ends, closes every connection, and enqueues the messages of the lines of all streams in their order; it returns when it finds the context done, and as well when it gets no connection.
  pub run_each_room-said :
      (ss : List Streamed) (e : Error) (rest : List Turn)
      → All IsStreamed ss
      → (run_each_room json room (turns_of ss (context_done ∷ rest)) new_room_run
          ≡ record (after (said_by ss) (length ss)) { returned = true })
        × (run_each_room json room (turns_of ss (not_connected e ∷ rest)) new_room_run
            ≡ record (after (said_by ss) (length ss)) { returned = true })
  unfolding run_each_room
  run_each_room-said ss e rest h = (
    run_each_room-turns ss (context_done ∷ rest) [] 0 h ∙ returned_after ss,
    run_each_room-turns ss (not_connected e ∷ rest) [] 0 h ∙ returned_after ss,
  )
