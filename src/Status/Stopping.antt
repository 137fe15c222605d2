-- ===== src/Status/Stopping.antt =====
-- Stopping the entries of one bot type: `botStatus.stop` under the test of `stopBot`.
use go_sarah.Shared.{◌≡◌, ◌≢◌, not, ◌&&◌, List, [], ◌∷◌, map, ◌==◌, Text, text_eq, arith, All}
use go_sarah.Status.{nil_chan, BotState, bot_running, bot_stop, stop_if}

-- The channel of an entry is made with it.
abbrev pub Made : BotState → Type 0
Made bs = bs.finished ≢ nil_chan

pub stop_if-Made : (b : Text) (bs : BotState) → Made bs → Made (stop_if b bs)
unfolding stop_if bot_stop
stop_if-Made b bs h e = ground (arith, h)

pub stop_if-bot_type : (b : Text) (bs : BotState) → (stop_if b bs).bot_type ≡ bs.bot_type
unfolding stop_if bot_stop
stop_if-bot_type b bs = ground arith

pub bot_running-stop_if :
    (b : Text) (bs : BotState)
    → Made bs
    → bot_running (stop_if b bs) ≡ bot_running bs && not (bs.bot_type == b)
unfolding stop_if bot_stop bot_running
bot_running-stop_if b bs h = ground (arith, h)

pub map-stop_if-Made :
    (b : Text) (bots : List BotState) → All Made bots → All Made (map (stop_if b) bots)
map-stop_if-Made b [] h = tt
map-stop_if-Made b (bs ∷ bots) h = (stop_if-Made b bs h.0, map-stop_if-Made b bots h.1)
