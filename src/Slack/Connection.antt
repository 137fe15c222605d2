-- ===== src/Slack/Connection.antt =====
-- slack/rtmapi.go and slack/eventsapi.go: the connection. `P` stands for the payloads. The goroutines of
-- `receivePayload` and of `superviseConnection` share the channel `tryPing`, which holds one signal at
-- most; a round is one step of either. `connect` is what the retries of `ConnectRTM` come to.
pub mod Pings
pub mod Reconnecting
use go_sarah.Shared.{
  ℕ, zero, suc, ◌+◌, ◌-◌, ◌*◌, ◌/◌, ◌%◌, ◌≤◌, ◌<◌, ◌≡◌, refl, sym, ap, subst, ◌∙◌, fun_ext, ◌≢◌,
  ◌↔◌, ◌⊎◌, inl, inr, Bool, true, false, not, ◌&&◌, ◌||◌, Option, none, some, List, [], ◌∷◌, ◌++◌,
  map, append-nil, append_assoc, map-append, reverse, reverse_aux, reverse-reverse, arith,
  add_assoc, add_comm, add-zero, ltb, leb, nat_beq, if◌then◌else◌, nat_beq_iff, if_same, Bool-cases,
  Option-cases, is_nil, Eq, ◌==◌, nat_eq, ==_iff, ==_self, length, get_elem?, set, index_func, keep,
  any, tally, tally-append, tally_middle, length-append, keep-append, All, All-append, Text, codes,
  text_beq, text_eq, is_empty, Lacks, Lacks-append, split_unique, Map, lookup, insert, delete,
  lookup-insert, lookup-delete, Result, ok, err, Outcome, returns, panics,
}
use go_sarah.Errors.{Error, wrapped, bot_non_continuable}

-- What `Receive` answers; its errors by the cases of the switch.
pub data Reception (P : Type 0) : Type 0 where
  payload : P → Reception P
  nil_payload empty_payload malformed_payload unexpected_message_type : Reception P
  other_error : Error → Reception P

-- What `superviseConnection` has returned, if it has.
pub data Supervision : Type 0 where
  running stopped : Supervision
  broken : Error → Supervision

pub record Link (P : Type 0) : Type 0 where
  pub try_ping : Bool
  pub pings : ℕ
  pub handled : List P
  pub supervision : Supervision

abbrev pub new_link : {P : Type 0} → Link P
new_link = record { try_ping = false; pings = 0; handled = []; supervision = running }

-- What happens to the two goroutines.
pub data Round (P : Type 0) : Type 0 where
  reception : Reception P → Round P
  tick : Round P
  -- `Ping` answers the signal that `superviseConnection` takes.
  ping : Option Error → Round P
  context_done : Round P

module _ {P : Type 0} where
  -- `nonBlockSignal`: a second signal is dropped.
  unfoldable pub non_block_signal : Link P → Link P
  non_block_signal l = if l.try_ping then l else record l { try_ping = true }

  -- One turn of the loop of `receivePayload`.
  unfoldable pub receive_payload : Reception P → Link P → Link P
  receive_payload (payload p) l = record l { handled = l.handled ++ p ∷ [] }
  receive_payload nil_payload l = l
  receive_payload empty_payload l = l
  receive_payload malformed_payload l = l
  receive_payload unexpected_message_type l = l
  receive_payload (other_error e) l = non_block_signal l

  ping_sent : Option Error → Link P → Link P
  ping_sent none l = record l { try_ping = false; pings = l.pings + 1 }
  ping_sent (some e) l = record l {
    try_ping = false;
    pings = l.pings + 1;
    supervision = broken (wrapped (codes "error on ping") e);
  }

  -- One turn of the select of `superviseConnection`; a ping waits for a signal.
  supervise : Round P → Link P → Link P
  unfolding ping_sent
  supervise (reception r) l = l
  supervise tick l = non_block_signal l
  supervise (ping answer) l = if l.try_ping then ping_sent answer l else l
  supervise context_done l = record l { supervision = stopped }

  supervised_by : Supervision → Round P → Link P → Link P
  unfolding supervise
  supervised_by running r l = supervise r l
  supervised_by stopped r l = l
  supervised_by (broken e) r l = l

  -- A turn of one goroutine.
  unfoldable pub turn : Round P → Link P → Link P
  unfolding supervised_by
  turn (reception r) l = receive_payload r l
  turn tick l = supervised_by l.supervision tick l
  turn (ping answer) l = supervised_by l.supervision (ping answer) l
  turn context_done l = supervised_by l.supervision context_done l

  unfoldable pub turns : List (Round P) → Link P → Link P
  turns [] l = l
  turns (r ∷ rs) l = turns rs (turn r l)

-- What becomes of one turn of the loop of `run`: no connection, with the message of the error, or a
-- connection with what `superviseConnection` returns for it.
pub data Attempt : Type 0 where
  refused : Text → Attempt
  connected : Option Error → Attempt

-- What `run` has done; the closed connections, and whether it has returned.
pub record RtmRun : Type 0 where
  pub notified : List Error
  pub connections : ℕ
  pub closed : ℕ
  pub returned : Bool

abbrev pub new_run : RtmRun
new_run = record { notified = []; connections = 0; closed = 0; returned = false }

-- `conn.Close` after `superviseConnection` has returned.
closed_once : RtmRun → RtmRun
closed_once r = record r { connections = r.connections + 1; closed = r.closed + 1 }

-- `rtmAPIAdapter.run`, for what becomes of its turns.
unfoldable pub run : List Attempt → RtmRun → RtmRun
unfolding closed_once
run [] r = r
run (refused message ∷ rest) r = record r {
  notified = r.notified ++ bot_non_continuable message ∷ [];
  returned = true;
}
run (connected none ∷ rest) r = record (closed_once r) { returned = true }
run (connected (some e) ∷ rest) r = run rest (closed_once r)

-- What the select of `eventsAPIAdapter.run` receives: the end of the context, or an error of the server,
-- which may be `http.ErrServerClosed`.
pub data ServerEnd : Type 0 where
  cancelled server_closed : ServerEnd
  server_failed : Text → ServerEnd

-- `eventsAPIAdapter.run`: the errors that it escalates.
unfoldable pub run_events : ServerEnd → List Error
run_events cancelled = []
run_events server_closed = []
run_events (server_failed message) = bot_non_continuable message ∷ []
