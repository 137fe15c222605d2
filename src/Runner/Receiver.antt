-- ===== src/Runner/Receiver.antt =====
-- runner.go: `setupInputReceiver`. Go's int is a 64-bit word in two's complement; `worker.Enqueue` is
-- outside the repository, and what it answers is an argument.
use go_sarah.Shared.{ℕ, ◌+◌, ◌%◌, Option, none, some, List, [], ◌∷◌, nat_eq, text_eq}
use go_sarah.Errors.{Error, blocked_input}

-- `continuousEnqueueErrCnt`.
abbrev pub Counter : Type 0
Counter = ℕ

-- `continuousEnqueueErrCnt++`, which wraps around.
increment : Counter → Counter
increment n = (n + 1) % 18446744073709551616

-- The function that `setupInputReceiver` returns, for what `Enqueue` answers.
unfoldable pub receive : Option Error → Counter → Counter × Option Error
unfolding increment
receive none n = (0, none)
receive (some e) n = (increment n, some (blocked_input (increment n)))

-- The answers for a sequence of inputs, and the counter after them.
unfoldable pub receive_all : List (Option Error) → Counter → Counter × List (Option Error)
receive_all [] n = (n, [])
receive_all (a ∷ answers) n =
    let (n', r) = receive a n in let (n'', rs) = receive_all answers n' in (n'', r ∷ rs)

-- The number of failures after the last success, counted from `n` if there was no success.
unfoldable pub failures_since : ℕ → List (Option Error) → ℕ
failures_since n [] = n
failures_since n (none ∷ answers) = failures_since 0 answers
failures_since n (some e ∷ answers) = failures_since (n + 1) answers

unfoldable pub answered : Option Error → ℕ → Option Error
answered none n = none
answered (some e) n = some (blocked_input n)
