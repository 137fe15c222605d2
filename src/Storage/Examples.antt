-- ===== src/Storage/Examples.antt =====
-- The default storage over a cache that is an association list with times.
use go_sarah.Shared.{ℕ, ◌≡◌, refl, none, some, List, [], ◌∷◌, Text, codes, text_beq, ok}
use go_sarah.Storage.TimedCache.{timed_cache, timed_cache-CacheLaws}
use go_sarah.Storage.{UserContext, new_user_context_storage, get}
use go_sarah.Storage.History.{
  remember, Call, sets, deletes, waits, perform_all, recall, answer, get-perform_all,
}

abbrev alice : Text
alice = codes "room|alice"

abbrev step_one : UserContext ℕ ℕ
step_one = record { next = some 1; serializable = none }

abbrev calls : List (Call ℕ ℕ)
calls = sets alice step_one ∷ waits 100 ∷ deletes (codes "room|bob") ∷ []

get-perform_all_example :
    get
      (timed_cache 180)
      alice
      (perform_all (timed_cache 180) calls (new_user_context_storage (timed_cache 180) 5))
    ≡ ok (answer 180 (recall alice calls none))
get-perform_all_example =
    get-perform_all (timed_cache 180) (timed_cache-CacheLaws 180) alice calls 5

-- The function is there after 100 seconds of 180.
recall-calls : answer 180 (recall alice calls none) ≡ some 1
unfolding answer recall remember text_beq
recall-calls = refl
