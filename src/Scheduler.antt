-- ===== src/Scheduler.antt =====
-- scheduler.go: the goroutine of `receiveEvent` with the map of cron entries that it owns. A request is
-- served at a time; robfig/cron, outside the repository, is the interface of Scheduler/CronLibrary.
pub mod CronLibrary
pub mod Keys
pub mod SlotCron
pub mod Entries
pub mod Jobs
pub mod Logging
mod Examples
use go_sarah.Shared.{
  ℕ, zero, suc, ◌+◌, ◌-◌, ◌*◌, ◌/◌, ◌%◌, ◌≤◌, ◌<◌, ◌≡◌, refl, sym, ap, subst, ◌∙◌, fun_ext, ◌≢◌,
  ◌↔◌, ◌⊎◌, inl, inr, Bool, true, false, not, ◌&&◌, ◌||◌, Option, none, some, List, [], ◌∷◌, ◌++◌,
  map, append-nil, append_assoc, map-append, arith, add_assoc, add_comm, add-zero, ltb, leb,
  nat_beq, if◌then◌else◌, nat_beq_iff, if_same, Bool-cases, Option-cases, is_nil, Eq, ◌==◌, nat_eq,
  ==_iff, ==_self, length, get_elem?, set, index_func, keep, any, tally, tally-append, tally_middle,
  length-append, keep-append, All, All-append, Text, codes, text_beq, text_eq, is_empty, Lacks,
  split_unique, Map, lookup, insert, delete, lookup-insert, lookup-delete, Result, ok, err, Outcome,
  returns, panics,
}
use go_sarah.Errors.{Error, plain}
use go_sarah.Scheduler.CronLibrary.{Cron}

-- `schedule` and the `cron` field.
pub record Scheduler (C : Type 0) : Type 0 where
  pub schedule : Map Text (Map Text ℕ)
  pub cron : C

-- What the two channels carry: `removingTask`, and `updatingTask` with the task's identifier and its
-- schedule.
pub data Request (F : Type 0) : Type 0 where
  removing : Text → Text → Request F
  updating : Text → Text → Text → F → Request F

abbrev pub entries_in : Option (Map Text ℕ) → Map Text ℕ
entries_in none = []
entries_in (some entries) = entries

unfoldable pub task_entries : Text → Map Text (Map Text ℕ) → Map Text ℕ
task_entries b m = entries_in (lookup b m)

-- The entry of a task of a bot: the two lookups of `removeFunc`.
unfoldable pub stored_id : Text → Text → Map Text (Map Text ℕ) → Option ℕ
unfolding task_entries
stored_id b t m = lookup t (task_entries b m)

unfoldable pub empty_schedule : Text → Error
empty_schedule t = plain (codes "empty schedule is given for " ++ t)

abbrev pub job_at : {F : Type 0} → Option ℕ → (ℕ → Option F) → Option F
job_at none entry = none
job_at (some id) entry = entry id

module _ {C F : Type 0} (cron : Cron C F) where
  removed : Text → Text → Option ℕ → Scheduler C → Scheduler C
  unfolding task_entries
  removed b t none s = s
  removed b t (some id) s = record {
    schedule = insert b (delete t (task_entries b s.schedule)) s.schedule;
    cron = cron.remove id s.cron;
  }

  -- `removeFunc`.
  unfoldable pub remove_func : Text → Text → Scheduler C → Scheduler C
  unfolding removed
  remove_func b t s = removed b t (stored_id b t s.schedule) s

  added : Text → Text → C × Result Error ℕ → Scheduler C → Scheduler C × Option Error
  unfolding task_entries
  added b t (c, err e) s = (record s { cron = c }, some e)
  added b t (c, ok id) s = (
    record { schedule = insert b (insert t id (task_entries b s.schedule)) s.schedule; cron = c },
    none,
  )

  add_func : Text → Text → Text → F → Scheduler C → Scheduler C × Option Error
  unfolding added
  add_func b t spec f s = added b t (cron.add_func spec f s.cron) s

  -- A case of the `select`, with what is sent on `add.err`.
  unfoldable pub serve : Request F → Scheduler C → Scheduler C × Option Error
  unfolding add_func
  serve (removing b t) s = (remove_func b t s, none)
  serve (updating b t spec f) s =
      if is_empty spec
      then (s, some (empty_schedule t))
      else add_func b t spec f (remove_func b t s)

  -- `runScheduler`.
  unfoldable pub run_scheduler : Scheduler C
  run_scheduler = record { schedule = []; cron = cron.new }

  -- The requests in the order in which they are received.
  unfoldable pub serve_all : List (Request F) → Scheduler C → Scheduler C
  serve_all [] s = s
  serve_all (r ∷ rs) s = serve_all rs (serve r s).0

  -- What cron runs for a task of a bot.
  unfoldable pub job : Scheduler C → Text → Text → Option F
  job s b t = job_at (stored_id b t s.schedule) (cron.entry s.cron)
