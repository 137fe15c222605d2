-- ===== src/Status/History.antt =====
-- What `CurrentStatus` shows after any history of calls of status.go, against a description of the
-- snapshot that reads the history alone.
use go_sarah.Shared.{
  ◌≡◌, refl, Bool, true, false, not, ◌||◌, ◌&&◌, List, [], ◌∷◌, ◌++◌, map, ◌==◌, Text, text_eq, any,
  arith, append-nil, append_assoc, map-append, ◌∙◌, ap, sym, ◌≢◌, All, All-append, subst,
}
use go_sarah.Status.Stopping.{Made, stop_if-bot_type, bot_running-stop_if, map-stop_if-Made}
use go_sarah.Status.{
  closed_chan, BotState, RunnerStatus, BotStatus, initial, running, start, add_bot, bot_running,
  stop_bot, stop_if, snapshot,
}

-- The calls that the process makes: `Run` starts, and each bot is added and stopped.
pub data Call : Type 0 where
  starts : Call
  adds stops : Text → Call

unfoldable pub apply : Call → RunnerStatus → RunnerStatus
apply starts s = (start s).0
apply (adds b) s = add_bot b s
apply (stops b) s = stop_bot b s

unfoldable pub apply_all : List Call → RunnerStatus → RunnerStatus
apply_all [] s = s
apply_all (c ∷ cs) s = apply_all cs (apply c s)

unfoldable pub is_start : Call → Bool
is_start starts = true
is_start (adds b) = false
is_start (stops b) = false

unfoldable pub is_stop : Text → Call → Bool
is_stop b starts = false
is_stop b (adds c) = false
is_stop b (stops c) = b == c

-- One entry for each bot that was added, in order; it runs until a later stop names its type.
unfoldable pub expected : List Call → List BotStatus
expected [] = []
expected (starts ∷ cs) = expected cs
expected (adds b ∷ cs) = record { type = b; running = not (any (is_stop b) cs) } ∷ expected cs
expected (stops b ∷ cs) = expected cs

-- What a history makes of an entry that is there already.
aged : List Call → BotState → BotStatus
unfolding bot_running
aged cs bs = record {
  type = bs.bot_type;
  running = bot_running bs && not (any (is_stop bs.bot_type) cs);
}

aged_stops :
    (b : Text) (cs : List Call) (bs : BotState)
    → Made bs
    → aged cs (stop_if b bs) ≡ aged (stops b ∷ cs) bs
unfolding aged is_stop
aged_stops b cs bs h = rw (stop_if-bot_type b bs, bot_running-stop_if b bs h) (ground arith)

map-aged_stops :
    (b : Text) (cs : List Call) (bots : List BotState)
    → All Made bots
    → map (aged cs) (map (stop_if b) bots) ≡ map (aged (stops b ∷ cs)) bots
map-aged_stops b cs [] h = refl
map-aged_stops b cs (bs ∷ bots) h = cc (aged_stops b cs bs h.0, map-aged_stops b cs bots h.1)

map-aged_adds :
    (b : Text) (cs : List Call) (bots : List BotState)
    → map (aged (adds b ∷ cs)) bots ≡ map (aged cs) bots
unfolding aged is_stop
map-aged_adds b cs [] = refl
map-aged_adds b cs (bs ∷ bots) = cc (map-aged_adds b cs bots)

map-aged_starts :
    (cs : List Call) (bots : List BotState) → map (aged (starts ∷ cs)) bots ≡ map (aged cs) bots
unfolding aged is_stop
map-aged_starts cs [] = refl
map-aged_starts cs (bs ∷ bots) = cc (map-aged_starts cs bots)

map-aged_nil :
    (bots : List BotState)
    → map (aged []) bots ≡ map (λ bs. record { type = bs.bot_type; running = bot_running bs }) bots
unfolding aged
map-aged_nil [] = refl
map-aged_nil (bs ∷ bots) = ground (arith, map-aged_nil bots)

start-bots : (s : RunnerStatus) → (start s).0.bots ≡ s.bots
unfolding start
start-bots s = ground arith

bots-apply_all :
    (cs : List Call) (s : RunnerStatus)
    → All Made s.bots
    → (snapshot (apply_all cs s)).bots ≡ map (aged cs) s.bots ++ expected cs
unfolding apply_all apply expected
bots-apply_all [] s h = unfold snapshot in rw append-nil (sym (map-aged_nil s.bots))
bots-apply_all (starts ∷ cs) s h =
    bots-apply_all cs (start s).0 (subst (All Made) (sym (start-bots s)) h)
    ∙ ap (λ (t : List BotState). map (aged cs) t ++ expected cs) (start-bots s)
    ∙ rw map-aged_starts
bots-apply_all (adds b ∷ cs) s h =
    bots-apply_all cs (add_bot b s) (unfold add_bot in All-append Made s.bots _ h (λ e. cc, tt))
    ∙ unfold add_bot in
      rw (map-append, append_assoc, map-aged_adds) (unfold aged bot_running in refl)
bots-apply_all (stops b ∷ cs) s h =
    bots-apply_all cs (stop_bot b s) (unfold stop_bot in map-stop_if-Made b s.bots h)
    ∙ ap (λ (t : List BotStatus). t ++ expected cs)
        (unfold stop_bot in map-aged_stops b cs s.bots h)

running-apply :
    (c : Call) (s : RunnerStatus)
    → s.finished ≢ closed_chan
    → ((apply c s).finished ≢ closed_chan) × (running (apply c s) ≡ running s || is_start c)
unfolding apply running start add_bot stop_bot is_start
running-apply starts s h = ground (arith, h)
running-apply (adds b) s h = ground (arith, h)
running-apply (stops b) s h = ground (arith, h)

running-apply_all :
    (cs : List Call) (s : RunnerStatus)
    → s.finished ≢ closed_chan
    → running (apply_all cs s) ≡ running s || any is_start cs
unfolding apply_all
running-apply_all [] s h = ground arith
running-apply_all (c ∷ cs) s h =
    let (open', step) = running-apply c s h in
    ground (arith, step, running-apply_all cs (apply c s) open')

running-snapshot : (s : RunnerStatus) → (snapshot s).running ≡ running s
unfolding snapshot
running-snapshot s = refl

-- For every history of calls from the initial state, `CurrentStatus` shows that the process runs
-- exactly if a start is among the calls, and shows one entry for each bot that was added, in the
-- order of addition, which runs exactly if no later call stops a bot of its type.
pub snapshot-history :
    (cs : List Call)
    → snapshot (apply_all cs initial) ≡ record { running = any is_start cs; bots = expected cs }
unfolding initial running
snapshot-history cs = λ i. record {
  running = (running-snapshot (apply_all cs initial) ∙ running-apply_all cs initial (λ e. cc)) i;
  bots = bots-apply_all cs initial tt i;
}
