-- ===== src/Tasks/Delivery.antt =====
-- runner.go: `executeScheduledTask`, what a run of a task sends.
use go_sarah.Shared.{
  ◌≡◌, refl, ap, ◌∙◌, Bool, not, Option, none, some, List, [], ◌∷◌, map, arith, is_nil, nat_eq,
  keep, text_eq, ok, err, Outcome, returns, panics,
}
use go_sarah.Messages.{Output, new_output_message}
use go_sarah.Tasks.{ScheduledTask, ScheduledTaskResult, Execution}

module _ {D C : Type 0} where
  -- The destination of a result, which goes before that of the task.
  destination : Option D → ScheduledTaskResult D C → Option D
  destination preset r = elim r.destination [ none ↦ preset | some d ↦ some d ]

  sent_to : Option D → C → List (Output D C) → List (Output D C)
  sent_to none c rest = rest
  sent_to (some d) c rest = new_output_message d c ∷ rest

  -- The loop over the results; one without a destination is logged.
  unfoldable pub send_results : Option D → List (ScheduledTaskResult D C) → List (Output D C)
  unfolding destination sent_to
  send_results preset [] = []
  send_results preset (r ∷ rs) = sent_to (destination preset r) r.content (send_results preset rs)

  executed : Option D → Execution D C → Outcome (List (Output D C))
  executed preset panics = panics
  executed preset (returns (err e)) = returns []
  executed preset (returns (ok rs)) = returns (send_results preset rs)

  -- `executeScheduledTask`, with the messages that it sends by the bot.
  unfoldable pub execute_scheduled_task : ScheduledTask D C → Outcome (List (Output D C))
  unfolding executed
  execute_scheduled_task t = executed t.default_destination t.execute

  abbrev pub own_destination : ScheduledTaskResult D C → Bool
  own_destination r = not (is_nil r.destination)

  -- The message of a result, if the task's destination is `d`.
  unfoldable pub message_to : D → ScheduledTaskResult D C → Output D C
  message_to d r = new_output_message (elim r.destination [ none ↦ d | some own ↦ own ]) r.content

  -- With a default destination every result is sent.
  send_results-all :
      (d : D) (rs : List (ScheduledTaskResult D C))
      → send_results (some d) rs ≡ map (message_to d) rs
  unfolding send_results message_to
  send_results-all d [] = refl
  send_results-all d (r ∷ rs) = ground (arith, send_results-all d rs)

  -- Without one, only those with a destination of their own.
  send_results-own :
      (d : D) (rs : List (ScheduledTaskResult D C))
      → send_results none rs ≡ map (message_to d) (keep own_destination rs)
  unfolding send_results message_to
  send_results-own d [] = refl
  send_results-own d (r ∷ rs) = ground (arith, send_results-own d rs)

  -- What a task's run that returns results sends, in their order: with a default destination a message
  -- for every result, to the result's own destination if it has one; without a default one only for
  -- the results with a destination of their own (for these the first argument of `message_to` is not
  -- used).
  pub execute_scheduled_task-results :
      (t : ScheduledTask D C) (rs : List (ScheduledTaskResult D C)) (d : D)
      → t.execute ≡ returns (ok rs)
      → execute_scheduled_task t
        ≡ returns (elim t.default_destination [
          | none ↦ map (message_to d) (keep own_destination rs)
          | some preset ↦ map (message_to preset) rs
        ])
  unfolding execute_scheduled_task
  execute_scheduled_task-results t rs d h =
      ap (executed t.default_destination) h ∙ ap returns (by_default t.default_destination)
    where
      by_default :
          (o : Option D)
          → send_results o rs ≡ (elim o [
            | none ↦ map (message_to d) (keep own_destination rs)
            | some preset ↦ map (message_to preset) rs
          ])
      by_default none = send_results-own d rs
      by_default (some preset) = send_results-all preset rs
