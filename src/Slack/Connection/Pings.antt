-- ===== src/Slack/Connection/Pings.antt =====
-- The signals between the goroutines of a connection.
use go_sarah.Shared.{
  ℕ, ◌+◌, ◌≤◌, ◌≡◌, refl, sym, ap, ◌∙◌, ◌⊎◌, inl, inr, Bool, true, false, Option, none, some, List,
  [], ◌∷◌, ◌++◌, append-nil, append_assoc, arith, if◌then◌else◌, Bool-cases, nat_eq, tally, All,
  codes, text_eq,
}
use go_sarah.Errors.{Error, wrapped}
use go_sarah.Slack.Connection.{
  Reception, payload, nil_payload, empty_payload, malformed_payload, unexpected_message_type,
  other_error, Supervision, running, stopped, broken, Link, new_link, Round, reception, tick, ping,
  context_done, non_block_signal, receive_payload, ping_sent, supervise, supervised_by, turn, turns,
}

-- The end of the supervision by the answer of a ping.
abbrev pub verdict : Option Error → Supervision
verdict none = running
verdict (some e) = broken (wrapped (codes "error on ping") e)

abbrev owed : Bool → ℕ
owed b = if b then 1 else 0

module _ {P : Type 0} where
  -- The payloads that were received.
  abbrev pub payload_of : Round P → List P
  payload_of (reception (payload p)) = p ∷ []
  payload_of _ = []

  unfoldable pub payloads : List (Round P) → List P
  payloads [] = []
  payloads (r ∷ rs) = payload_of r ++ payloads rs

  -- A tick, or a reception that makes the connection suspicious.
  abbrev pub signals : Round P → ℕ
  signals tick = 1
  signals (reception (other_error e)) = 1
  signals _ = 0

  -- No ping is taken, and the context goes on.
  abbrev pub Waits : Round P → Type 0
  Waits r = (signals r ≡ 1) ⊎ ((q : Reception P) × (r ≡ reception q))

  abbrev link : Bool → ℕ → List P → Supervision → Link P
  link b n h s = record { try_ping = b; pings = n; handled = h; supervision = s }

  -- What a turn adds.
  abbrev Adds : Round P → Link P → Link P → Type 0
  Adds r l l' =
      (l'.handled ≡ l.handled ++ payload_of r)
      × (l'.pings + owed l'.try_ping ≤ l.pings + owed l.try_ping + signals r)

  turn-Adds :
      (r : Round P) (b : Bool) (n : ℕ) (h : List P) (s : Supervision)
      → Adds r (link b n h s) (turn r (link b n h s))
  unfolding turn receive_payload non_block_signal supervised_by supervise ping_sent
  turn-Adds (reception (payload p)) b n h s = (refl, omega arith)
  turn-Adds (reception nil_payload) b n h s = (sym (append-nil h), omega arith)
  turn-Adds (reception empty_payload) b n h s = (sym (append-nil h), omega arith)
  turn-Adds (reception malformed_payload) b n h s = (sym (append-nil h), omega arith)
  turn-Adds (reception unexpected_message_type) b n h s = (sym (append-nil h), omega arith)
  turn-Adds (reception (other_error e)) true n h s = (sym (append-nil h), omega arith)
  turn-Adds (reception (other_error e)) false n h s = (sym (append-nil h), omega arith)
  turn-Adds tick true n h running = (sym (append-nil h), omega arith)
  turn-Adds tick false n h running = (sym (append-nil h), omega arith)
  turn-Adds tick b n h stopped = (sym (append-nil h), omega arith)
  turn-Adds tick b n h (broken e) = (sym (append-nil h), omega arith)
  turn-Adds (ping none) true n h running = (sym (append-nil h), omega arith)
  turn-Adds (ping (some e)) true n h running = (sym (append-nil h), omega arith)
  turn-Adds (ping answer) false n h running = (sym (append-nil h), omega arith)
  turn-Adds (ping answer) b n h stopped = (sym (append-nil h), omega arith)
  turn-Adds (ping answer) b n h (broken e) = (sym (append-nil h), omega arith)
  turn-Adds context_done b n h running = (sym (append-nil h), omega arith)
  turn-Adds context_done b n h stopped = (sym (append-nil h), omega arith)
  turn-Adds context_done b n h (broken e) = (sym (append-nil h), omega arith)

  turns-Adds :
      (rs : List (Round P)) (l : Link P)
      → ((turns rs l).handled ≡ l.handled ++ payloads rs)
        × ((turns rs l).pings + owed (turns rs l).try_ping
            ≤ l.pings + owed l.try_ping + tally signals rs)
  unfolding turns payloads
  turns-Adds [] l = (sym (append-nil l.handled), omega arith)
  turns-Adds (r ∷ rs) l =
      let (more, bound) = turn-Adds r l.try_ping l.pings l.handled l.supervision in
      let (all_of, total) = turns-Adds rs (turn r l) in
      (
        all_of
            ∙ ap (λ h. h ++ payloads rs) more
            ∙ append_assoc l.handled (payload_of r) (payloads rs),
        omega (arith, bound, total),
      )

  -- On a new connection, in any order of the turns of its two goroutines: the payloads that were received are handled, each once and in their order, and the errors of Receive in between lose none; and there are no more pings than ticks and failed receptions together.
  pub turns-payloads :
      (rs : List (Round P))
      → ((turns rs new_link).handled ≡ payloads rs) × ((turns rs new_link).pings ≤ tally signals rs)
  turns-payloads rs = let (all_of, total) = turns-Adds rs new_link in (all_of, omega (arith, total))

  -- A signal is waiting.
  abbrev Signalled : ℕ → Link P → Type 0
  Signalled n l = (l.try_ping ≡ true) × (l.pings ≡ n) × (l.supervision ≡ running)

  turn-Signalled :
      (n : ℕ) (r : Round P) (l : Link P) → Waits r → Signalled n l → Signalled n (turn r l)
  unfolding turn receive_payload non_block_signal supervised_by supervise
  turn-Signalled n (reception (payload p)) l w (t, k, s) = (t, k, s)
  turn-Signalled n (reception nil_payload) l w h = h
  turn-Signalled n (reception empty_payload) l w h = h
  turn-Signalled n (reception malformed_payload) l w h = h
  turn-Signalled n (reception unexpected_message_type) l w h = h
  turn-Signalled n (reception (other_error e)) l w (t, k, s) = rw (t, k, s) (refl, refl, refl)
  turn-Signalled n tick l w (t, k, s) = rw (t, k, s) (refl, refl, refl)
  turn-Signalled n (ping answer) l (inl w) h = absurd (ground (arith, w))
  turn-Signalled n (ping answer) l (inr (q, w)) h = cc
  turn-Signalled n context_done l (inl w) h = absurd (ground (arith, w))
  turn-Signalled n context_done l (inr (q, w)) h = cc

  turns-Signalled :
      (n : ℕ) (rs : List (Round P)) (answer : Option Error) (l : Link P)
      → All Waits rs
      → Signalled n l
      → ((turns (rs ++ ping answer ∷ []) l).supervision ≡ verdict answer)
        × ((turns (rs ++ ping answer ∷ []) l).pings ≡ n + 1)
  unfolding turns turn supervised_by supervise ping_sent
  turns-Signalled n [] none l w (t, k, s) = rw (s, t, k) (refl, refl)
  turns-Signalled n [] (some e) l w (t, k, s) = rw (s, t, k) (refl, refl)
  turns-Signalled n (r ∷ rs) answer l (w, ws) h =
      turns-Signalled n rs answer (turn r l) ws (turn-Signalled n r l w h)

  signal-Signalled :
      (l : Link P)
      → l.supervision ≡ running
      → (l.try_ping ≡ true) ⊎ (l.try_ping ≡ false)
      → Signalled l.pings (non_block_signal l)
  unfolding non_block_signal
  signal-Signalled l s (inl h) = rw (h, s) (refl, refl, refl)
  signal-Signalled l s (inr h) = rw (h, s) (refl, refl, refl)

  -- While the connection is supervised: after a failed reception and any receptions and ticks before the next ping, exactly one ping is sent, and supervision ends with its error if it fails, and goes on otherwise.
  pub turns_failed_reception :
      (l : Link P) (e : Error) (rs : List (Round P)) (answer : Option Error)
      → l.supervision ≡ running
      → All Waits rs
      → ((turns (reception (other_error e) ∷ (rs ++ ping answer ∷ [])) l).supervision
          ≡ verdict answer)
        × ((turns (reception (other_error e) ∷ (rs ++ ping answer ∷ [])) l).pings ≡ l.pings + 1)
  unfolding turns turn receive_payload
  turns_failed_reception l e rs answer s w =
      turns-Signalled l.pings rs answer (non_block_signal l) w
        (signal-Signalled l s (Bool-cases l.try_ping))
