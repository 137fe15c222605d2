-- ===== src/Scheduler/Examples.antt =====
-- Requests to a scheduler over a concrete cron.
use go_sarah.Shared.{ℕ, ◌≡◌, Option, none, List, [], ◌∷◌, nat_eq, Text, codes, text_eq}
use go_sarah.Scheduler.{Request, removing, updating, serve, serve_all, run_scheduler, job}
use go_sarah.Scheduler.CronLibrary.{Cron, CronLaws}
use go_sarah.Scheduler.SlotCron.{slot_cron, slot_cron-CronLaws}
use go_sarah.Scheduler.Jobs.{
  request_all, reply, Consistent, serve_all-request_all, serve_all-Consistent,
}

abbrev slack : Text
slack = codes "slack"

-- The second update replaces the job, the third is refused and leaves none.
abbrev requests : List (Request ℕ)
requests =
    updating slack (codes "news") (codes "@daily") 1
    ∷ updating slack (codes "news") (codes "@hourly") 2
    ∷ updating slack (codes "weather") (codes "bad") 3
    ∷ []

abbrev cron : Cron (List (Option ℕ)) ℕ
cron = slot_cron

abbrev laws : CronLaws cron
laws = slot_cron-CronLaws

serve_all-request_all_example :
    (job cron (serve_all cron requests (run_scheduler cron)) slack (codes "news")
      ≡ request_all cron.parse requests (λ b t. none) slack (codes "news"))
    × ((serve cron (removing slack (codes "news")) (serve_all cron requests (run_scheduler cron))).1
        ≡ reply {F = ℕ} cron.parse (removing slack (codes "news")))
serve_all-request_all_example =
    serve_all-request_all cron laws requests (removing slack (codes "news")) slack (codes "news")

serve_all-Consistent_example : Consistent cron laws (serve_all cron requests (run_scheduler cron))
serve_all-Consistent_example = serve_all-Consistent cron laws requests
