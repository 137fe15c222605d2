-- ===== src/Status/Process/Outcomes.antt =====
-- What `runner.run` and `CurrentStatus` promise, whatever the scheduler does.
use go_sarah.Shared.{
  ℕ, ◌≤◌, ◌≡◌, ◌↔◌, refl, true, List, [], ◌∷◌, Text, text_eq, nat_eq, ==_iff, arith, inl, inr, All,
  tally, tally_middle, ◌∙◌, sym, ap,
}
use go_sarah.Status.{RunnerStatus, initial, running, start, add_bot, stop_bot, snapshot}
use go_sarah.Status.Process.{
  Phase, spawned, added, signalled, finished, Thread, Process, effect, step, schedule, spawn,
  returned,
}
use go_sarah.Status.Process.Counts.{moved, step_at-Steps, pending, typed, arrived, live, listed, up}
use go_sarah.Status.Process.Lifecycle.{Inv, schedule-Inv, spawn-Inv}

-- The process right after `status.start`, with these bots registered.
abbrev pub launched : List Text → Process
launched bots = spawn (start initial).0 bots

launched-Inv : (is : List ℕ) (bots : List Text) → Inv (schedule is (launched bots))
unfolding start initial
launched-Inv is bots = schedule-Inv is (launched bots) (spawn-Inv (start initial).0 bots refl)

effect-finished :
    (ph : Phase) (b : Text) (w : ℕ) (s : RunnerStatus)
    → (effect ph b (w, s)).1.finished ≡ s.finished
unfolding effect add_bot stop_bot
effect-finished spawned b w s = refl
effect-finished added b w s = refl
effect-finished signalled b w s = refl
effect-finished finished b w s = refl

abbrev Moved : Type 0
Moved = List Thread × (ℕ × RunnerStatus)

-- A step changes neither the process's own channel nor the bots' types.
step_keeps :
    (b : Text) (i : ℕ) (p : Process)
    → ((step i p).status.finished ≡ p.status.finished)
      × (tally (typed b) (step i p).threads ≡ tally (typed b) p.threads)
unfolding step
step_keeps b i p = elim (step_at-Steps i p.threads (p.wait, p.status)) [
  | inl idle ↦
      (ap (λ (r : Moved). r.1.1.finished) idle, ap (λ (r : Moved). tally (typed b) r.0) idle)
  | inr (xs, t, ys, split, does) ↦ (
    ap (λ (r : Moved). r.1.1.finished) does ∙ effect-finished t.phase t.bot_type p.wait p.status,
    ap (λ (r : Moved). tally (typed b) r.0) does
        ∙ tally_middle (typed b) xs (moved t) ys
        ∙ sym (tally_middle (typed b) xs t ys)
        ∙ ap (tally (typed b)) (sym split),
  )
]

schedule_keeps :
    (b : Text) (is : List ℕ) (p : Process)
    → ((schedule is p).status.finished ≡ p.status.finished)
      × (tally (typed b) (schedule is p).threads ≡ tally (typed b) p.threads)
unfolding schedule
schedule_keeps b [] p = (refl, refl)
schedule_keeps b (i ∷ is) p =
    let first = step_keeps b i p in
    let rest = schedule_keeps b is (step i p) in (rest.0 ∙ first.0, rest.1 ∙ first.1)

tally_zero : (f : Thread → ℕ) (ts : List Thread) → (tally f ts ≡ 0) ↔ All (λ t. f t ≡ 0) ts
tally_zero f [] = (λ h. tt, λ h. refl)
tally_zero f (t ∷ ts) = (
  λ h. (omega arith, (tally_zero f ts).0 (omega arith)),
  λ h. omega (arith, h.0, (tally_zero f ts).1 h.1),
)

-- For every interleaving of the bots' goroutines, `runner.run` gets past `wg.Wait` exactly if each
-- goroutine has seen its bot stop and has called `wg.Done`.
pub returned-iff_done :
    (is : List ℕ) (bots : List Text)
    → let p = schedule is (launched bots) in
      (returned p ≡ true) ↔ All (λ t. pending t ≡ 0) p.threads
unfolding returned
returned-iff_done is bots =
    let p = schedule is (launched bots) in
    let zero_iff = tally_zero pending p.threads in
    let waits = (launched-Inv is bots).waits in
    (
      λ h. zero_iff.0 (sym waits ∙ (==_iff p.wait 0).0 h),
      λ h. (==_iff p.wait 0).1 (waits ∙ zero_iff.1 h),
    )

-- For every interleaving and every bot type: the status has one entry of the type for each of its
-- goroutines past `addBot`, and no more running entries than goroutines between `addBot` and
-- `stopBot`.
pub status-tracks_goroutines :
    (is : List ℕ) (bots : List Text) (b : Text)
    → let p = schedule is (launched bots) in
      (tally (listed b) p.status.bots ≡ tally (arrived b) p.threads)
      × (tally (up b) p.status.bots ≤ tally (live b) p.threads)
status-tracks_goroutines is bots b =
    ((launched-Inv is bots).present b, (launched-Inv is bots).covered b)

-- If at most one bot is registered with a type, then after every interleaving the status shows that
-- bot as running exactly while its goroutine is between `addBot` and `stopBot`: the running entries
-- of the type are as many as those goroutines.
pub status-exact :
    (is : List ℕ) (bots : List Text) (b : Text)
    → tally (typed b) (launched bots).threads ≤ 1
    → tally (up b) (schedule is (launched bots)).status.bots
      ≡ tally (live b) (schedule is (launched bots)).threads
status-exact is bots b one =
    (launched-Inv is bots).exact b (omega (arith, (schedule_keeps b is (launched bots)).1))

finished-live :
    (b : Text) (ts : List Thread) → All (λ t. t.phase ≡ finished) ts → tally (live b) ts ≡ 0
finished-live b [] h = refl
finished-live b (t ∷ ts) h = ground (arith, finished-live b ts h.1)

-- After every interleaving at whose end all goroutines have called `stopBot`, no status entry of any
-- bot type runs, and still `CurrentStatus` shows the process as running.
pub running_outlives_bots :
    (is : List ℕ) (bots : List Text) (b : Text)
    → All (λ t. t.phase ≡ finished) (schedule is (launched bots)).threads
    → (tally (up b) (schedule is (launched bots)).status.bots ≡ 0)
      × ((snapshot (schedule is (launched bots)).status).running ≡ true)
unfolding snapshot running start initial spawn
running_outlives_bots is bots b h =
    let p = schedule is (launched bots) in
    (
      omega (arith, (launched-Inv is bots).covered b, finished-live b p.threads h),
      rw (schedule_keeps b is (launched bots)).0,
    )
