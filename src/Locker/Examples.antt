-- ===== src/Locker/Examples.antt =====
-- The locks of two bots' commands of one name.
use go_sarah.Shared.{◌≡◌, ◌↔◌, [], ◌∷◌, arith, nat_eq, Text, codes, text_eq, Lacks}
use go_sarah.Locker.{get, empty}
use go_sarah.Locker.Identity.{get_all, get-same_lock}

abbrev slack : Text
slack = codes "slack"

abbrev gitter : Text
gitter = codes "gitter"

abbrev weather : Text
weather = codes "weather"

slack-Lacks : Lacks 58 slack
slack-Lacks = (omega arith, (omega arith, (omega arith, (omega arith, (omega arith, tt)))))

gitter-Lacks : Lacks 58 gitter
gitter-Lacks =
    (omega arith, (omega arith, (omega arith, (omega arith, (omega arith, (omega arith, tt))))))

get-same_lock_example :
    ((get slack weather (get_all [] empty)).1
      ≡ (get gitter weather
          (get_all ((slack, weather) ∷ []) (get slack weather (get_all [] empty)).0)).1)
    ↔ ((slack ≡ gitter) × (weather ≡ weather))
get-same_lock_example =
    get-same_lock [] ((slack, weather) ∷ []) slack gitter weather weather slack-Lacks gitter-Lacks
