-- ===== src/Status/Examples.antt =====
-- Two bots on one process: histories and interleavings with their snapshots.
use go_sarah.Shared.{
  ℕ, ◌≡◌, ◌↔◌, refl, true, false, List, [], ◌∷◌, Text, codes, any, All, tally, arith, text_beq,
}
use go_sarah.Status.{initial, snapshot, stop, start, add_bot, stop_bot}
use go_sarah.Status.History.{
  Call, starts, adds, stops, apply, apply_all, is_start, is_stop, expected, snapshot-history,
}
use go_sarah.Status.Process.{schedule, returned, spawn, step}
use go_sarah.Status.Process.Counts.{pending, live, up}
use go_sarah.Status.Process.Outcomes.{
  launched, returned-iff_done, status-exact, running_outlives_bots,
}

abbrev slack : Text
slack = codes "slack"

abbrev gitter : Text
gitter = codes "gitter"

abbrev two_bots : List Text
two_bots = slack ∷ gitter ∷ []

abbrev history : List Call
history = starts ∷ adds slack ∷ adds gitter ∷ stops slack ∷ []

-- The description of the snapshot at the history.
history_test :
    expected history
    ≡ record { type = slack; running = false } ∷ record { type = gitter; running = true } ∷ []
unfolding expected is_stop text_beq
history_test = refl

snapshot-history_example :
    snapshot (apply_all history initial)
    ≡ record { running = any is_start history; bots = expected history }
snapshot-history_example = snapshot-history history

-- Slack runs to its end while gitter is still between `addBot` and `stopBot`.
abbrev one_ends : List ℕ
one_ends = 0 ∷ 1 ∷ 0 ∷ 0 ∷ []

abbrev both_end : List ℕ
both_end = 0 ∷ 1 ∷ 0 ∷ 0 ∷ 1 ∷ 1 ∷ []

returned-iff_done_example :
    (returned (schedule both_end (launched two_bots)) ≡ true)
    ↔ All (λ t. pending t ≡ 0) (schedule both_end (launched two_bots)).threads
returned-iff_done_example = returned-iff_done both_end two_bots

status-exact_example :
    tally (up gitter) (schedule one_ends (launched two_bots)).status.bots
    ≡ tally (live gitter) (schedule one_ends (launched two_bots)).threads
unfolding spawn text_beq
status-exact_example = status-exact one_ends two_bots gitter (omega arith)

running_outlives_bots_example :
    (tally (up slack) (schedule both_end (launched two_bots)).status.bots ≡ 0)
    × ((snapshot (schedule both_end (launched two_bots)).status).running ≡ true)
unfolding schedule step spawn
running_outlives_bots_example = running_outlives_bots both_end two_bots slack (refl, (refl, tt))

-- `status.stop` would end the running state; closing twice changes nothing.
stop_twice : (snapshot (stop (stop (apply_all history initial)))).running ≡ false
unfolding stop snapshot apply_all apply start initial add_bot stop_bot
stop_twice = refl
