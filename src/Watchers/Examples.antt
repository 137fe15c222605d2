-- ===== src/Watchers/Examples.antt =====
-- Two plugins of one bot, one of which subscribes twice.
use go_sarah.Shared.{ℕ, ◌≡◌, refl, inr, not, [], ◌∷◌, nat_eq, keep, Text, codes, text_eq}
use go_sarah.Watchers.{Subscription, Subscriptions, do_unsubscribe}
use go_sarah.Watchers.Unsubscribing.{OneDirectory, has_bot, do_unsubscribe-keep}

abbrev dir : Text
dir = codes "/config/slack"

abbrev subscription : Text → ℕ → Subscription
subscription id callback = record {
  bot_type = codes "slack";
  id = id;
  abs_dir = dir;
  callback = callback;
}

abbrev other : Subscription
other = record {
  bot_type = codes "gitter";
  id = codes "echo";
  abs_dir = codes "/config/gitter";
  callback = 4;
}

abbrev two_directories : Subscriptions
two_directories =
    (dir, subscription (codes "echo") 1 ∷ subscription (codes "hello") 2 ∷ [])
    ∷ (codes "/config/gitter", other ∷ [])
    ∷ []

two-OneDirectory : OneDirectory (codes "slack") two_directories
two-OneDirectory = (refl, inr ((refl, (refl, tt)), ((refl, ((λ same. cc), tt)), tt)))

do_unsubscribe-keep_example :
    do_unsubscribe (codes "slack") two_directories
    ≡ keep (λ e. not (has_bot (codes "slack") e)) two_directories
do_unsubscribe-keep_example = do_unsubscribe-keep (codes "slack") two_directories two-OneDirectory
