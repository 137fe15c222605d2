-- ===== src/Scheduler/Jobs.antt =====
-- Refinement: the nested map and the cron entries together are a map from a bot's task to the function
-- that is run for it.
use go_sarah.Shared.{
  ℕ, ◌≡◌, refl, ◌∙◌, false, Option, none, some, List, [], ◌∷◌, arith, if◌then◌else◌, nat_eq, ==_iff,
  ==_self, Text, text_eq, is_empty, lookup, insert, delete, Result,
}
use go_sarah.Errors.{Error}
use go_sarah.Scheduler.CronLibrary.{Cron, CronLaws, AddFunc, refused, accepted}
use go_sarah.Scheduler.Keys.{stored_id-put, stored_id-drop}
use go_sarah.Scheduler.Entries.{Jobs, assign, Inv, Inv-drop, Inv-put, job_at-drop, job_at-put}
use go_sarah.Scheduler.{
  Scheduler, Request, removing, updating, stored_id, task_entries, removed, added, remove_func,
  serve, serve_all, run_scheduler, job, empty_schedule,
}

-- What `add.err` carries, by the error of the parser.
unfoldable pub reply : {F : Type 0} → (Text → Option Error) → Request F → Option Error
reply parse (removing b t) = none
reply parse (updating b t spec f) = if is_empty spec then some (empty_schedule t) else parse spec

unfoldable pub updated : {F : Type 0} → Option Error → F → Option F
updated none f = some f
updated (some e) f = none

-- The specification: a removal, and an update that the parser refuses, leave no job; an update without
-- a schedule changes nothing.
unfoldable pub request : {F : Type 0} → (Text → Option Error) → Request F → Jobs F → Jobs F
unfolding updated
request parse (removing b t) v = assign b t none v
request parse (updating b t spec f) v =
    if is_empty spec then v else assign b t (updated (parse spec) f) v

unfoldable pub request_all :
    {F : Type 0} → (Text → Option Error) → List (Request F) → Jobs F → Jobs F
request_all parse [] v = v
request_all parse (r ∷ rs) v = request_all parse rs (request parse r v)

pub request-scheduled :
    {F : Type 0} (parse : Text → Option Error) (b t spec : Text) (f : F) (v : Jobs F) (c u : Text)
    → is_empty spec ≡ false
    → request parse (updating b t spec f) v c u ≡ assign b t (updated (parse spec) f) v c u
unfolding request
request-scheduled parse b t spec f v c u h = rw (h)

module _ {F : Type 0} where
  pub assign_twice :
      (b t c u : Text) (o p : Option F) (v w : Jobs F)
      → ((c u : Text) → w c u ≡ assign b t p v c u)
      → assign b t o w c u ≡ assign b t o v c u
  assign_twice b t c u o p v w h = ground (arith, h c u)

  pub request-ext :
      (parse : Text → Option Error) (r : Request F) (v w : Jobs F)
      → ((b t : Text) → v b t ≡ w b t)
      → (b t : Text) → request parse r v b t ≡ request parse r w b t
  unfolding request
  request-ext parse (removing b t) v w h c u = ground (arith, h c u)
  request-ext parse (updating b t spec f) v w h c u = ground (arith, h c u)

module _ {C F : Type 0} (cron : Cron C F) (laws : CronLaws cron) where
  -- The entries of cron are exactly those of the schedule, one for each task.
  abbrev pub Consistent : Scheduler C → Type 0
  Consistent s = Inv (λ b t. stored_id b t s.schedule) (cron.entry s.cron)

  -- What a call leaves behind: the invariant, and these jobs.
  abbrev pub Leaves : Scheduler C → Jobs F → Type 0
  Leaves s v = Consistent s × ((b t : Text) → job cron s b t ≡ v b t)

  removed-Leaves :
      (b t : Text) (s : Scheduler C) (o : Option ℕ)
      → Consistent s
      → stored_id b t s.schedule ≡ o
      → Leaves (removed cron b t o s) (assign b t none (job cron s))
        × (stored_id b t (removed cron b t o s).schedule ≡ none)
  unfolding removed job
  removed-Leaves b t s none inv at = ((inv, λ c u. ground (arith, ==_iff b c, ==_iff t u)), at)
  removed-Leaves b t s (some i) inv at =
      let g' : Jobs ℕ =
        λ c u. stored_id c u (insert b (delete t (task_entries b s.schedule)) s.schedule) in
      let hg = λ (c : Text) (u : Text). stored_id-drop b t c u s.schedule in
      let he = λ (j : ℕ). laws.entry-remove i j s.cron in
      (
        (
          Inv-drop _ g' _ (cron.entry (cron.remove i s.cron)) b t i inv at hg he,
          job_at-drop _ g' _ (cron.entry (cron.remove i s.cron)) b t i inv at hg he,
        ),
        hg b t ∙ rw (==_self b, ==_self t),
      )

  remove_func-Leaves :
      (b t : Text) (s : Scheduler C)
      → Consistent s
      → Leaves (remove_func cron b t s) (assign b t none (job cron s))
        × (stored_id b t (remove_func cron b t s).schedule ≡ none)
  unfolding remove_func
  remove_func-Leaves b t s inv = removed-Leaves b t s (stored_id b t s.schedule) inv refl

  -- `AddFunc` and what follows it, for a task that the schedule does not hold.
  added-Leaves :
      (b t : Text) (s : Scheduler C) (f : F) (o : Option Error) (r : C × Result Error ℕ)
      → AddFunc cron f s.cron o r
      → Consistent s
      → stored_id b t s.schedule ≡ none
      → Leaves (added cron b t r s).0 (assign b t (updated o f) (job cron s))
        × ((added cron b t r s).1 ≡ o)
  unfolding added job updated
  added-Leaves b t s f _ _ (refused {e = e}) inv absent =
      ((inv, λ c u. ground (arith, ==_iff b c, ==_iff t u)), refl)
  added-Leaves b t s f _ _ (accepted {c' = c'} {id = i} fresh he) inv absent =
      let g' : Jobs ℕ =
        λ c u. stored_id c u (insert b (insert t i (task_entries b s.schedule)) s.schedule) in
      let hg = λ (c : Text) (u : Text). stored_id-put b t c u i s.schedule in
      (
        (
          Inv-put _ g' _ (cron.entry c') b t i inv absent fresh f hg he,
          job_at-put _ g' _ (cron.entry c') b t i inv fresh f hg he,
        ),
        refl,
      )

  pub serve-Leaves :
      (r : Request F) (s : Scheduler C)
      → Consistent s
      → Leaves (serve cron r s).0 (request cron.parse r (job cron s))
        × ((serve cron r s).1 ≡ reply cron.parse r)
  unfolding serve request reply
  serve-Leaves (removing b t) s inv = ((remove_func-Leaves b t s inv).0, refl)
  serve-Leaves (updating b t [] f) s inv = ((inv, λ c u. refl), refl)
  serve-Leaves (updating b t (a ∷ spec) f) s inv =
      let ((inv', jobs), absent) = remove_func-Leaves b t s inv in
      let s' = remove_func cron b t s in
      let ((inv'', jobs'), answer) =
        added-Leaves b t s' f _ _ (laws.entry-add_func (a ∷ spec) f s'.cron) inv' absent in
      (
        (inv'', λ c u. jobs' c u ∙ assign_twice b t c u _ none (job cron s) (job cron s') jobs),
        answer,
      )

  serve_all-Leaves :
      (rs : List (Request F)) (s : Scheduler C) (v : Jobs F)
      → Leaves s v
      → Leaves (serve_all cron rs s) (request_all cron.parse rs v)
  unfolding serve_all request_all
  serve_all-Leaves [] s v h = h
  serve_all-Leaves (r ∷ rs) s v (inv, jobs) =
      let ((inv', jobs'), answer) = serve-Leaves r s inv in
      serve_all-Leaves rs (serve cron r s).0 (request cron.parse r v)
        (inv', λ c u. jobs' c u ∙ request-ext cron.parse r (job cron s) v jobs c u)

  run_scheduler-Leaves : Leaves (run_scheduler cron) (λ b t. none)
  unfolding run_scheduler job stored_id task_entries lookup
  run_scheduler-Leaves = (
    record {
      apart = λ b t b' t' i h h'. absurd (ground (arith, h));
      live = λ b t i h. absurd (ground (arith, h));
      known = λ i h. absurd (ground (arith, h, laws.entry-new i));
    },
    λ b t. refl,
  )

  -- After any requests, from the start of the scheduler, the function that cron runs for a task of a
  -- bot is the one that the specification gives, and the next request is answered as it says.
  pub serve_all-request_all :
      (rs : List (Request F)) (r : Request F) (b t : Text)
      → (job cron (serve_all cron rs (run_scheduler cron)) b t
          ≡ request_all cron.parse rs (λ b t. none) b t)
        × ((serve cron r (serve_all cron rs (run_scheduler cron))).1 ≡ reply cron.parse r)
  serve_all-request_all rs r b t =
      let (inv, jobs) = serve_all-Leaves rs (run_scheduler cron) _ run_scheduler-Leaves in
      (jobs b t, (serve-Leaves r _ inv).1)

  -- After any requests every entry of cron belongs to a task that the schedule holds, and no two tasks
  -- share one: nothing that was replaced or removed stays scheduled.
  pub serve_all-Consistent :
      (rs : List (Request F)) → Consistent (serve_all cron rs (run_scheduler cron))
  serve_all-Consistent rs = (serve_all-Leaves rs (run_scheduler cron) _ run_scheduler-Leaves).0
