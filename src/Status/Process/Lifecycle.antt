-- ===== src/Status/Process/Lifecycle.antt =====
-- What holds of `runner.run` and the status after any interleaving of the bots' goroutines.
use go_sarah.Shared.{
  ℕ, ◌+◌, ◌-◌, ◌≤◌, ◌≡◌, refl, List, [], ◌∷◌, ◌++◌, ◌==◌, Text, text_eq, ==_iff, arith, inl, inr,
  length, All, tally, subst, tally-append, tally_middle, All-append,
}
use go_sarah.Status.{open_chan, RunnerStatus, initial, add_bot, bot_running, stop_bot}
use go_sarah.Status.Stopping.{Made, map-stop_if-Made}
use go_sarah.Status.Process.{
  Phase, spawned, added, signalled, finished, Thread, Process, advance, effect, step, schedule,
  spawn,
}
use go_sarah.Status.Process.Counts.{
  step_at-Steps, pending, typed, arrived, live, listed, up, unit_if, listed-stop_if, up-stop_if,
}

pub record Inv (p : Process) : Type 0 where
  pub waits : p.wait ≡ tally pending p.threads
  pub made : All Made p.status.bots
  pub present : (b : Text) → tally (listed b) p.status.bots ≡ tally (arrived b) p.threads
  pub covered : (b : Text) → tally (up b) p.status.bots ≤ tally (live b) p.threads
  pub exact :
      (b : Text)
      → tally (typed b) p.threads ≤ 1
      → tally (up b) p.status.bots ≡ tally (live b) p.threads

abbrev joined : List Thread → ℕ × RunnerStatus → Process
joined ts e = record { threads = ts; wait = e.0; status = e.1 }

tally-live-le : (b : Text) (ts : List Thread) → tally (live b) ts ≤ tally (typed b) ts
tally-live-le b [] = omega arith
tally-live-le b (t ∷ ts) = ground (arith, tally-live-le b ts)

-- The goroutines before and after the one that moves.
module _ (xs ys : List Thread) (w : ℕ) (s : RunnerStatus) (b : Text) where
  abbrev thread : Phase → Thread
  thread ph = record { bot_type = b; phase = ph }

  abbrev at_phase : Phase → ℕ × RunnerStatus → Process
  at_phase ph = joined (xs ++ thread ph ∷ ys)

  live_at :
      (c : Text) (ph : Phase)
      → tally (live c) (xs ++ thread ph ∷ ys)
        ≡ live c (thread ph) + (tally (live c) xs + tally (live c) ys)
  live_at c ph = tally_middle (live c) xs (thread ph) ys

  typed_at :
      (c : Text) (ph : Phase)
      → tally (typed c) (xs ++ thread ph ∷ ys)
        ≡ typed c (thread ph) + (tally (typed c) xs + tally (typed c) ys)
  typed_at c ph = tally_middle (typed c) xs (thread ph) ys

  up-add_bot : (c : Text) → tally (up c) (add_bot b s).bots ≡ tally (up c) s.bots + unit_if (b == c)
  unfolding add_bot bot_running
  up-add_bot c =
      ground
        (arith, tally-append (up c) s.bots (record { bot_type = b; finished = open_chan } ∷ []))

  add-Inv : Inv (at_phase spawned (w, s)) → Inv (at_phase added (w, add_bot b s))
  unfolding add_bot
  add-Inv h = record {
    waits = omega (arith, h.waits, tally-append {0});
    made = All-append Made s.bots _ h.made (λ e. cc, tt);
    present = λ c. omega (arith, h.present c, tally-append {0});
    covered = λ c. ground (arith, h.covered c, live_at c spawned, live_at c added, up-add_bot c);
    exact = λ c one. ground (
      arith,
      h.exact c,
      live_at c spawned,
      live_at c added,
      up-add_bot c,
      typed_at c spawned,
      typed_at c added,
    );
  }

  done-Inv : Inv (at_phase added (w, s)) → Inv (at_phase signalled (w - 1, s))
  done-Inv h = record {
    waits = omega (arith, h.waits, tally-append {0});
    made = h.made;
    present = λ c. omega (arith, h.present c, tally-append {0});
    covered = λ c. omega (arith, h.covered c, tally-append {0});
    exact = λ c one. omega (arith, h.exact c, tally-append {0});
  }

  stop-Inv : Inv (at_phase signalled (w, s)) → Inv (at_phase finished (w, stop_bot b s))
  unfolding stop_bot
  stop-Inv h = record {
    waits = omega (arith, h.waits, tally-append {0});
    made = map-stop_if-Made b s.bots h.made;
    present = λ c. omega (arith, h.present c, listed-stop_if c b s.bots, tally-append {0});
    covered = λ c. ground (
      arith,
      h.covered c,
      live_at c signalled,
      live_at c finished,
      up-stop_if c b s.bots h.made,
      ==_iff b c,
      ==_iff c b,
    );
    exact = λ c one. ground (
      arith,
      h.exact c,
      live_at c signalled,
      live_at c finished,
      typed_at c signalled,
      typed_at c finished,
      up-stop_if c b s.bots h.made,
      tally-live-le c xs,
      tally-live-le c ys,
      ==_iff b c,
      ==_iff c b,
    );
  }

  moved-Inv :
      (ph : Phase) → Inv (at_phase ph (w, s)) → Inv (at_phase (advance ph) (effect ph b (w, s)))
  unfolding advance effect
  moved-Inv spawned h = add-Inv h
  moved-Inv added h = done-Inv h
  moved-Inv signalled h = stop-Inv h
  moved-Inv finished h = h

step-Inv : (i : ℕ) (p : Process) → Inv p → Inv (step i p)
unfolding step
step-Inv i p h = elim (step_at-Steps i p.threads (p.wait, p.status)) [
  | inl idle ↦ rw idle h
  | inr (xs, t, ys, split, does) ↦ rw does (
      moved-Inv xs ys p.wait p.status t.bot_type t.phase
        (subst (λ (ts : List Thread). Inv (joined ts (p.wait, p.status))) split h))
]

pub schedule-Inv : (is : List ℕ) (p : Process) → Inv p → Inv (schedule is p)
unfolding schedule
schedule-Inv [] p h = h
schedule-Inv (i ∷ is) p h = schedule-Inv is (step i p) (step-Inv i p h)

module _ (b : Text) where
  spawn-pending : (bots : List Text) → length bots ≡ tally pending (spawn initial bots).threads
  unfolding spawn
  spawn-pending [] = refl
  spawn-pending (c ∷ bots) = omega (arith, spawn-pending bots)

  spawn-arrived : (bots : List Text) → 0 ≡ tally (arrived b) (spawn initial bots).threads
  unfolding spawn
  spawn-arrived [] = refl
  spawn-arrived (c ∷ bots) = omega (arith, spawn-arrived bots)

  spawn-live : (bots : List Text) → 0 ≡ tally (live b) (spawn initial bots).threads
  unfolding spawn
  spawn-live [] = refl
  spawn-live (c ∷ bots) = omega (arith, spawn-live bots)

pub spawn-Inv : (s : RunnerStatus) (bots : List Text) → s.bots ≡ [] → Inv (spawn s bots)
unfolding spawn
spawn-Inv s bots h = record {
  waits = spawn-pending [] bots;
  made = rw h tt;
  present = λ c. rw h (spawn-arrived c bots);
  covered = λ c. rw h (omega arith);
  exact = λ c one. rw h (spawn-live c bots);
}
