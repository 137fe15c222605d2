-- ===== src/Status/Process/Counts.antt =====
-- Counting goroutines and status entries, and what one step does to the counts.
use go_sarah.Shared.{
  ℕ, zero, suc, ◌≡◌, refl, Bool, ◌&&◌, List, [], ◌∷◌, ◌++◌, map, if◌then◌else◌, ◌==◌, Text, text_eq,
  ==_iff, arith, inl, inr, All, ◌⊎◌, tally,
}
use go_sarah.Status.{BotState, RunnerStatus, bot_running, stop_if}
use go_sarah.Status.Stopping.{Made, stop_if-bot_type, bot_running-stop_if}
use go_sarah.Status.Process.{spawned, added, signalled, finished, Thread, advance, effect, step_at}

-- A goroutine after its step.
abbrev pub moved : Thread → Thread
moved t = record t { phase = advance t.phase }

-- A step of the scheduler is idle, or moves one goroutine.
abbrev pub Steps : ℕ → List Thread → ℕ × RunnerStatus → Type 0
Steps i ts e =
    (step_at i ts e ≡ (ts, e))
    ⊎ ((xs : List Thread) × (t : Thread) × (ys : List Thread) × (ts ≡ xs ++ t ∷ ys)
        × (step_at i ts e ≡ (xs ++ moved t ∷ ys, effect t.phase t.bot_type e)))

pub step_at-Steps : (i : ℕ) (ts : List Thread) (e : ℕ × RunnerStatus) → Steps i ts e
unfolding step_at
step_at-Steps i [] e = inl refl
step_at-Steps zero (t ∷ ts) e = inr ([], t, ts, refl, refl)
step_at-Steps (suc i) (t ∷ ts) e = elim (step_at-Steps i ts e) [
  | inl idle ↦ inl (rw idle)
  | inr (xs, u, ys, split, does) ↦ inr (t ∷ xs, u, ys, cc split, rw does)
]

-- 1 for a goroutine before `wg.Done`.
abbrev pub pending : Thread → ℕ
pending t = elim t.phase [ spawned ↦ 1 | added ↦ 1 | signalled ↦ 0 | finished ↦ 0 ]

abbrev pub unit_if : Bool → ℕ
unit_if b = if b then 1 else 0

-- 1 for a goroutine of the type; for one past `addBot`; for one between `addBot` and `stopBot`.
abbrev pub typed : Text → Thread → ℕ
typed b t = unit_if (t.bot_type == b)

abbrev pub arrived : Text → Thread → ℕ
arrived b t = elim t.phase [ spawned ↦ 0 | _ ↦ typed b t ]

abbrev pub live : Text → Thread → ℕ
live b t = elim t.phase [ added ↦ typed b t | signalled ↦ typed b t | _ ↦ 0 ]

-- 1 for an entry of the type; for one that runs.
abbrev pub listed : Text → BotState → ℕ
listed b bs = unit_if (bs.bot_type == b)

abbrev pub up : Text → BotState → ℕ
up b bs = unit_if (bs.bot_type == b && bot_running bs)

pub listed-stop_if :
    (b c : Text) (bots : List BotState)
    → tally (listed b) (map (stop_if c) bots) ≡ tally (listed b) bots
listed-stop_if b c [] = refl
listed-stop_if b c (bs ∷ bots) = rw (stop_if-bot_type c bs) (omega (arith, listed-stop_if b c bots))

pub up-stop_if :
    (b c : Text) (bots : List BotState)
    → All Made bots
    → tally (up b) (map (stop_if c) bots) ≡ (if b == c then 0 else tally (up b) bots)
up-stop_if b c [] h = ground arith
up-stop_if b c (bs ∷ bots) h =
    rw (bot_running-stop_if c bs h.0, stop_if-bot_type c bs)
      (ground
        (arith, ==_iff b c, ==_iff bs.bot_type b, ==_iff bs.bot_type c, up-stop_if b c bots h.1))
