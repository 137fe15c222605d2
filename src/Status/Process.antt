-- ===== src/Status/Process.antt =====
-- `runner.run` of runner.go: one goroutine for each bot, in any interleaving. A goroutine adds its bot to the
-- status, runs it (`runBot` blocks until the bot stops), and then calls `wg.Done` and `stopBot`.
pub mod Counts
pub mod Lifecycle
pub mod Outcomes
use go_sarah.Shared.{ℕ, zero, suc, ◌-◌, Bool, List, [], ◌∷◌, map, Text, ◌==◌, nat_eq, length}
use go_sarah.Status.{RunnerStatus, add_bot, stop_bot}

-- Where a goroutine stands. `signalled`: `wg.Done` is called, `stopBot` is not.
pub data Phase : Type 0 where
  spawned added signalled finished : Phase

pub record Thread : Type 0 where
  pub bot_type : Text
  pub phase : Phase

-- The goroutines, the wait group's counter and the status that they share.
pub record Process : Type 0 where
  pub threads : List Thread
  pub wait : ℕ
  pub status : RunnerStatus

-- The loop of `runner.run`: `wg.Add(1)` and a goroutine for each bot.
unfoldable pub spawn : RunnerStatus → List Text → Process
spawn s bots = record {
  threads = map (λ b. record { bot_type = b; phase = spawned }) bots;
  wait = length bots;
  status = s;
}

-- One step of a goroutine, and what it does to the counter and the status.
pub advance : Phase → Phase
advance spawned = added
advance added = signalled
advance signalled = finished
advance finished = finished

unfoldable pub effect : Phase → Text → ℕ × RunnerStatus → ℕ × RunnerStatus
effect spawned b (w, s) = (w, add_bot b s)
effect added b (w, s) = (w - 1, s)
effect signalled b (w, s) = (w, stop_bot b s)
effect finished b (w, s) = (w, s)

-- The scheduler lets the goroutine at an index make a step; an index out of range is idle.
pub step_at : ℕ → List Thread → ℕ × RunnerStatus → List Thread × (ℕ × RunnerStatus)
step_at i [] e = ([], e)
step_at zero (t ∷ ts) e = (record t { phase = advance t.phase } ∷ ts, effect t.phase t.bot_type e)
step_at (suc i) (t ∷ ts) e = let (ts', e') = step_at i ts e in (t ∷ ts', e')

unfoldable pub step : ℕ → Process → Process
unfolding step_at advance effect
step i p =
    let (ts, e) = step_at i p.threads (p.wait, p.status) in
    record { threads = ts; wait = e.0; status = e.1 }

unfoldable pub schedule : List ℕ → Process → Process
schedule [] p = p
schedule (i ∷ is) p = schedule is (step i p)

-- `wg.Wait()` returns when the counter is 0.
unfoldable pub returned : Process → Bool
returned p = p.wait == 0
