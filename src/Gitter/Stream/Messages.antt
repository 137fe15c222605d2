-- ===== src/Gitter/Stream/Messages.antt =====
-- The messages of a stream.
use go_sarah.Shared.{
  ℕ, zero, suc, ◌+◌, ◌<◌, ◌≡◌, refl, sym, ap, ◌∙◌, Bool, true, false, Option, none, some, List, [],
  ◌∷◌, ◌++◌, map, append_assoc, arith, if◌then◌else◌, is_nil, nat_eq, length, length-append, All,
  Text, codes, text_eq, is_empty, Lacks, Result, ok, err, trim_space, IsTrimmed,
  trim_space-surrounded, is_empty-IsTrimmed,
}
use go_sarah.Errors.{Error, wrapped}
use go_sarah.Gitter.{Room, Message, RoomMessage, new_room_message}
use go_sarah.Gitter.Stream.{
  newline, read_bytes, Reception, message, empty_payload, malformed_payload, failed, decode_payload,
  unmarshalled, received, receive, Received, enqueued, after_reception, receive_message_recursive,
  receive_all,
}
use go_sarah.Gitter.Stream.Lines.{
  Line, IsLine, joined, text_of, read_bytes-line, read_bytes-rest, read_bytes-none,
}

-- The chunks of lines, each with what stands behind its newline in the same chunk.
unfoldable pub chunks_of : List (Line × Text) → List Text → List Text
chunks_of [] ends = ends
chunks_of ((l, behind) ∷ ls) ends = l.pieces ++ (l.last ++ newline ∷ behind) ∷ chunks_of ls ends

abbrev pub messages_in : Reception → List RoomMessage
messages_in (message m) = m ∷ []
messages_in empty_payload = []
messages_in (malformed_payload e) = []
messages_in (failed e) = []

abbrev is_failed : Reception → Bool
is_failed (failed e) = true
is_failed (message m) = false
is_failed empty_payload = false
is_failed (malformed_payload e) = false

after_reception_lem :
    (r : Reception) (ms : List RoomMessage) (e : Error)
    → is_failed r ≡ false
    → after_reception r (some (ms, e)) ≡ some (messages_in r ++ ms, e)
unfolding after_reception enqueued
after_reception_lem (message m) ms e h = refl
after_reception_lem empty_payload ms e h = refl
after_reception_lem (malformed_payload x) ms e h = refl
after_reception_lem (failed x) ms e h = cc

after_reception-returns :
    (r : Reception) (o : Option Received)
    → (is_failed r ≡ false → is_nil o ≡ false)
    → is_nil (after_reception r o) ≡ false
unfolding after_reception enqueued
after_reception-returns (message m) none h = absurd (ground (arith, h refl))
after_reception-returns (message m) (some x) h = refl
after_reception-returns empty_payload o h = h refl
after_reception-returns (malformed_payload x) o h = h refl
after_reception-returns (failed x) o h = refl

module _ (json : Text → Result Error Message) (broken : Error) (room : Room) where
  -- What the lines themselves say.
  unfoldable pub said : List (Line × Text) → List RoomMessage
  said [] = []
  said ((l, behind) ∷ ls) =
      messages_in (decode_payload json room (text_of l ++ newline ∷ [])) ++ said ls

  abbrev pub disconnected : Error
  disconnected = wrapped (codes "failed to receive input") broken

  decode_payload-is_failed : (line : Text) → is_failed (decode_payload json room line) ≡ false
  unfolding decode_payload unmarshalled
  decode_payload-is_failed line = by_payload (is_empty (trim_space line)) (json (trim_space line))
    where
      by_payload :
          (b : Bool) (r : Result Error Message)
          → is_failed (if b then empty_payload else unmarshalled json room r) ≡ false
      by_payload true r = refl
      by_payload false (ok m) = refl
      by_payload false (err e) = refl

  received_line :
      (l : Line) (behind : Text) (rest : List Text)
      → IsLine l
      → receive json broken room (l.pieces ++ (l.last ++ newline ∷ behind) ∷ rest)
        ≡ (decode_payload json room (text_of l ++ newline ∷ []), rest)
  unfolding receive received
  received_line l behind rest (h, k) = ap (received json broken room) (
      read_bytes-line [] l.pieces l.last behind rest h k
      ∙ ap (λ t. some (t, rest)) (sym (append_assoc (joined l.pieces) l.last (newline ∷ []))))

  recursive-said :
      (n : ℕ) (ls : List (Line × Text)) (ends : List Text)
      → All (λ t. IsLine t.0) ls
      → All (Lacks newline) ends
      → length (chunks_of ls ends) < n
      → receive_message_recursive json broken room n (chunks_of ls ends)
        ≡ some (said ls, disconnected)
  unfolding receive_message_recursive chunks_of said receive received after_reception
  recursive-said zero ls ends h k enough = absurd (omega (arith, enough))
  recursive-said (suc n) [] ends h k enough = rw (read_bytes-none [] ends k) refl
  recursive-said (suc n) ((l, behind) ∷ ls) ends (h, hs) k enough =
      let rest = chunks_of ls ends in
      let fewer : length rest < n =
        omega (arith, enough, length-append l.pieces ((l.last ++ newline ∷ behind) ∷ rest)) in
      let r = decode_payload json room (text_of l ++ newline ∷ []) in
      ap (λ t. after_reception t.0 (receive_message_recursive json broken room n t.1))
        (received_line l behind rest h)
      ∙ ap (after_reception r) (recursive-said n ls ends hs k fewer)
      ∙ after_reception_lem r (said ls) disconnected
          (decode_payload-is_failed (text_of l ++ newline ∷ []))

  -- For a stream of lines in any pieces, and possibly an unfinished line at its end: the loop of a connection enqueues the messages of the lines, in their order and each once, and nothing else, and then returns with the wrapped error of the read; it passes over lines that are blank or are no message, and over all that follows a newline in the same chunk.
  pub receive_all-said :
      (ls : List (Line × Text)) (ends : List Text)
      → All (λ t. IsLine t.0) ls
      → All (Lacks newline) ends
      → receive_all json broken room (chunks_of ls ends) ≡ some (said ls, disconnected)
  unfolding receive_all
  receive_all-said ls ends h k =
      recursive-said (length (chunks_of ls ends) + 1) ls ends h k (omega arith)

  receive-rest :
      (chunks : List Text)
      → is_failed (receive json broken room chunks).0 ≡ false
      → length (receive json broken room chunks).1 < length chunks
  unfolding receive
  receive-rest chunks h = by_line (read_bytes [] chunks) refl h
    where
      by_line :
          (o : Option (Text × List Text))
          → read_bytes [] chunks ≡ o
          → is_failed (received json broken room o).0 ≡ false
          → length (received json broken room o).1 < length chunks
      by_line none at e = absurd (ground (arith, e))
      by_line (some (line, rest)) at e = read_bytes-rest [] chunks line rest at

  recursive_returns :
      (n : ℕ) (chunks : List Text)
      → length chunks < n
      → is_nil (receive_message_recursive json broken room n chunks) ≡ false
  unfolding receive_message_recursive
  recursive_returns zero chunks enough = absurd (omega (arith, enough))
  recursive_returns (suc n) chunks enough =
      let (r, rest) = receive json broken room chunks in
      after_reception-returns r (receive_message_recursive json broken room n rest)
        (λ going. recursive_returns n rest (omega (arith, enough, receive-rest chunks going)))

  -- The loop of a connection returns, whatever chunks its stream gives before its end.
  pub receive_all_returns :
      (chunks : List Text) → is_nil (receive_all json broken room chunks) ≡ false
  unfolding receive_all
  receive_all_returns chunks = recursive_returns (length chunks + 1) chunks (omega arith)

  module _ (encode : Message → Text) where
    -- The text of the message is on one line, and is read back as the message.
    abbrev pub IsEncoded : Message → Type 0
    IsEncoded m = IsTrimmed (encode m) × Lacks newline (encode m) × (json (encode m) ≡ ok m)

    abbrev line_of : Message → Line × Text
    line_of m = (record { pieces = []; last = encode m }, [])

    decode_payload-encode :
        (m : Message)
        → IsEncoded m
        → decode_payload json room (encode m ++ newline ∷ []) ≡ message (new_room_message room m)
    unfolding decode_payload unmarshalled
    decode_payload-encode m (trimmed, one_line, back) =
        rw
          (
            trim_space-surrounded [] (encode m) (newline ∷ []) tt (refl, tt) trimmed,
            back,
            is_empty-IsTrimmed (encode m) trimmed,
          )
          refl

    chunks_of-encode :
        (ms : List Message) → chunks_of (map line_of ms) [] ≡ map (λ m. encode m ++ newline ∷ []) ms
    unfolding chunks_of
    chunks_of-encode [] = refl
    chunks_of-encode (m ∷ ms) = ap (λ t. (encode m ++ newline ∷ []) ∷ t) (chunks_of-encode ms)

    said-encode :
        (ms : List Message)
        → All IsEncoded ms
        → said (map line_of ms) ≡ map (new_room_message room) ms
    unfolding said
    said-encode [] h = refl
    said-encode (m ∷ ms) (h, hs) = rw (decode_payload-encode m h, said-encode ms hs) refl

    lines_of-IsLine :
        (ms : List Message) → All IsEncoded ms → All (λ t. IsLine t.0) (map line_of ms)
    lines_of-IsLine [] h = tt
    lines_of-IsLine (m ∷ ms) (h, hs) = ((tt, h.1), lines_of-IsLine ms hs)

    -- Messages of which each is sent as its text, which is on one line without spaces around it and is unmarshalled to the message, and a newline in one chunk are all enqueued, each once and in their order.
    pub receive_all-encode :
        (ms : List Message)
        → All IsEncoded ms
        → receive_all json broken room (map (λ m. encode m ++ newline ∷ []) ms)
          ≡ some (map (new_room_message room) ms, disconnected)
    receive_all-encode ms h =
        ap (receive_all json broken room) (sym (chunks_of-encode ms))
        ∙ receive_all-said (map line_of ms) [] (lines_of-IsLine ms h) tt
        ∙ ap (λ t. some (t, disconnected)) (said-encode ms h)
