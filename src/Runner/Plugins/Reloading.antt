-- ===== src/Runner/Plugins/Reloading.antt =====
-- What building a bot's plugins, and building them again, leaves behind.
use go_sarah.Shared.{
  ◌≡◌, refl, ap, ◌∙◌, false, Option, none, List, [], ◌∷◌, if◌then◌else◌, nat_eq, Text, text_eq,
  is_empty, Result, ok, err,
}
use go_sarah.Errors.{Error}
use go_sarah.Config.{Read, Plugins}
use go_sarah.Scheduler.CronLibrary.{Cron, CronLaws}
use go_sarah.Scheduler.{Request, removing, updating, serve, job}
use go_sarah.Scheduler.Entries.{Jobs, assign}
use go_sarah.Scheduler.Jobs
use go_sarah.Scheduler.Jobs.{Consistent, Leaves, serve-Leaves, assign_twice, request-ext}
use go_sarah.Tasks.{
  ConfigMethods, ScheduledTask, ScheduledTaskProps, BuiltTask, build_scheduled_task,
}
use go_sarah.Tasks.Building.{build_scheduled_task-scheduled, build_scheduled_task-identifier}
use go_sarah.Runner.Plugins.{
  TaskState, Job, given, built, request, task_built, build_task, register_task,
}

module _ {V D R C : Type 0} (cron : Cron C (Job V D R)) where
  -- The job that a build gives: none if it fails, or if cron refuses the schedule.
  unfoldable pub job_of : Result Error (BuiltTask V D R) → Option (Job V D R)
  unfolding Jobs.updated
  job_of (ok t) = Jobs.updated (cron.parse t.schedule) (built t)
  job_of (err e) = none

  -- The jobs after a list of tasks that were registered as they are.
  unfoldable pub given_jobs : Text → List (ScheduledTask D R) → Jobs (Job V D R) → Jobs (Job V D R)
  unfolding Jobs.updated
  given_jobs b [] v = v
  given_jobs b (t ∷ ts) v = given_jobs b ts (
      if is_empty t.schedule
      then v
      else assign b t.identifier (Jobs.updated (cron.parse t.schedule) (given t)) v)

  -- The jobs after a list of properties was built.
  unfoldable pub built_jobs :
      ConfigMethods V D
      → Read V
      → Text
      → List (ScheduledTaskProps V D R)
      → Plugins V
      → Jobs (Job V D R)
      → Jobs (Job V D R)
  built_jobs methods read b [] s v = v
  built_jobs methods read b (p ∷ ps) s v =
      let (s', r) = build_scheduled_task methods read p s in
      built_jobs methods read b ps s' (assign b p.identifier (job_of r) v)

module _ {V D R C : Type 0} (cron : Cron C (Job V D R)) (laws : CronLaws cron) where
  pub request-Leaves :
      (r : Request (Job V D R)) (s : TaskState V C)
      → Consistent cron laws s.scheduler
      → Leaves cron laws
          (request cron r s).scheduler
          (Jobs.request cron.parse r (job cron s.scheduler))
  unfolding request
  request-Leaves r s inv = (serve-Leaves cron laws r s.scheduler inv).0

  -- `removing` is the specification's assignment of nothing.
  request_removing :
      (b id : Text) (v : Jobs (Job V D R)) (c u : Text)
      → Jobs.request cron.parse (removing b id) v c u ≡ assign b id none v c u
  unfolding Jobs.request
  request_removing b id v c u = refl

  task_built-Leaves :
      (b id : Text) (r : Result Error (BuiltTask V D R)) (s : TaskState V C) (v : Jobs (Job V D R))
      → ((t : BuiltTask V D R) → r ≡ ok t → (is_empty t.schedule ≡ false) × (t.identifier ≡ id))
      → Consistent cron laws s.scheduler
      → ((b' t' : Text) → job cron s.scheduler b' t' ≡ assign b id none v b' t')
      → Leaves cron laws (task_built cron b r s).scheduler (assign b id (job_of cron r) v)
  unfolding task_built job_of
  task_built-Leaves b id (err e) s v h inv jobs = (inv, jobs)
  task_built-Leaves b id (ok t) s v h inv jobs =
      let (inv', jobs') = request-Leaves (updating b t.identifier t.schedule (built t)) s inv in
      let (scheduled, same) = h t refl in
      let new : Option (Job V D R) = Jobs.updated (cron.parse t.schedule) (built t) in
      (
        inv',
        λ c u.
            jobs' c u
            ∙ (Jobs.request-scheduled cron.parse b t.identifier t.schedule (built t) _ c u scheduled
                ∙ (ap (λ i. assign b i new (job cron s.scheduler) c u) same
                    ∙ assign_twice b id c u new none v (job cron s.scheduler) jobs)),
      )

module _ {V D R C : Type 0} (cron : Cron C (Job V D R)) (laws : CronLaws cron)
    (methods : ConfigMethods V D) (read : Read V) where
  -- Loading or reloading a task's properties: afterwards cron runs the task that was built, if it was
  -- built and cron accepts its schedule, and otherwise nothing for that identifier; every other job is
  -- as before, and cron still has exactly the entries that the schedule holds.
  pub register_task-Leaves :
      (b : Text) (p : ScheduledTaskProps V D R) (s : TaskState V C)
      → Consistent cron laws s.scheduler
      → Leaves cron laws (register_task cron methods read b p s).scheduler (
          assign b p.identifier
            (job_of cron (build_scheduled_task methods read p s.plugins).1)
            (job cron s.scheduler))
  unfolding register_task build_task request
  register_task-Leaves b p s inv =
      let (inv', jobs') = request-Leaves cron laws (removing b p.identifier) s inv in
      let (plugins, r) = build_scheduled_task methods read p s.plugins in
      task_built-Leaves cron laws b p.identifier r
        (record {
          plugins = plugins;
          scheduler = (serve cron (removing b p.identifier) s.scheduler).0;
        })
        (job cron s.scheduler)
        (λ t e. (
          build_scheduled_task-scheduled methods read p s.plugins t e,
          build_scheduled_task-identifier methods read p s.plugins t e,
        ))
        inv'
        (λ c u. jobs' c u ∙ request_removing cron laws b p.identifier (job cron s.scheduler) c u)

  pub register_task-plugins :
      (b : Text) (p : ScheduledTaskProps V D R) (s : TaskState V C)
      → (register_task cron methods read b p s).plugins
        ≡ (build_scheduled_task methods read p s.plugins).0
  unfolding register_task build_task request task_built
  register_task-plugins b p s = by_result (build_scheduled_task methods read p s.plugins).1
    where
      by_result :
          (r : Result Error (BuiltTask V D R))
          → (task_built cron b r (record {
            plugins = (build_scheduled_task methods read p s.plugins).0;
            scheduler = (serve cron (removing b p.identifier) s.scheduler).0;
          })).plugins
            ≡ (build_scheduled_task methods read p s.plugins).0
      by_result (ok t) = refl
      by_result (err e) = refl
