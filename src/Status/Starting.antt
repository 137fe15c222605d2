-- ===== src/Status/Starting.antt =====
-- Starting the process: `status.start` succeeds once.
use go_sarah.Shared.{◌≡◌, refl, ap, true, none, some, nat_eq, text_eq}
use go_sarah.Status.{
  Signal, RunnerStatus, nil_chan, open_chan, closed_chan, runner_already_running, initial, running,
  started, start,
}

started_again :
    (s : RunnerStatus) (c : Signal)
    → s.finished ≡ c
    → start (started s c).0 ≡ ((started s c).0, some runner_already_running)
unfolding start started
started_again s nil_chan h = refl
started_again s open_chan h = ap (started s) h
started_again s closed_chan h = ap (started s) h

-- A second `start` fails and changes nothing.
pub start_again :
    (s : RunnerStatus) → start (start s).0 ≡ ((start s).0, some runner_already_running)
unfolding start
start_again s = started_again s s.finished refl

pub start-initial : (start initial).1 ≡ none
unfolding start started initial
start-initial = refl

pub running-start-initial : running (start initial).0 ≡ true
unfolding start started initial running
running-start-initial = refl
