-- ===== src/Migration/Engine/Interrupt.antt =====
-- internal/migration/engine.go: pauses, resumptions and cancellations while a job runs.
use mathlib.Core.Option as Option
use dockation.Prelude.{
  ℕ, String, ◌≡◌, refl, sym, ap, ◌∙◌, true, false, Option, none, some, List, [], ◌∷◌, inl, inr, map,
  get_elem?, set, get_elem?-map, map-set_same, map-set, get_elem?-set_self, Option-cases, arith,
}
use dockation.Prelude.Dict.{lookup}
use dockation.Migration.Rollback.{RollbackManager, Action}
use dockation.Migration.Job.{MigrationStatus, pending, running, MigrationJob}
use dockation.Migration.Cold as Cold
use dockation.Migration.Warm.{execute_strategy, execute_warm}
use dockation.Migration.Engine.{
  Engine, Stage, executes, Task, World, advance, execute_stage, after_execution, fail_job, stage_of,
  Control, done, panics, pause_job, resume_job, cancel_job, on_job, pause_migration,
  resume_migration, cancel_migration,
}

-- The calls that the API makes.
pub data Call : Type 0 where
  pauses resumes cancels : String → Call

abbrev pub call : Call → Engine → Engine
call (pauses id) e = (pause_migration e id).1
call (resumes id) e = (resume_migration e id).1
call (cancels id) e = (cancel_migration e id).1

abbrev pub calls : List Call → Engine → Engine
calls [] e = e
calls (c ∷ cs) e = calls cs (call c e)

-- The calls without those that pause or resume.
abbrev pub cancellations : List Call → List Call
cancellations [] = []
cancellations (pauses id ∷ cs) = cancellations cs
cancellations (resumes id ∷ cs) = cancellations cs
cancellations (cancels id ∷ cs) = cancels id ∷ cancellations cs

-- A job without what pausing and resuming set.
abbrev pub core : MigrationJob → MigrationJob
core job = record job { status = pending; pause_closed = false; resume_closed = false }

-- How a task's next stage ends: its stage, the status and all else of the job, and the actions.
abbrev pub outcome :
    World → Task → Engine → Stage × Option (MigrationStatus × MigrationJob) × List Action
outcome w t e =
    let (t', e', actions) = advance w t e in
    (
      t'.stage,
      Option.map (λ (job : MigrationJob). (job.status, core job)) (get_elem? e'.store t.place),
      actions,
    )

abbrev cores : Engine → Engine
cores e = record e { store = map core e.store }

pause_job-core : (job : MigrationJob) → core (pause_job job).1 ≡ core job
unfolding pause_job
pause_job-core job = ground arith

resume_job-core : (job : MigrationJob) → core (resume_job job).1 ≡ core job
unfolding resume_job
resume_job-core job = ground arith

-- A change that only sets what the core leaves out.
on_job-hidden :
    (f : MigrationJob → Control × MigrationJob) (id : String) (e : Engine)
    → ((job : MigrationJob) → core (f job).1 ≡ core job)
    → cores (on_job f id e).1 ≡ cores e
unfolding on_job
on_job-hidden f id e keeps = elim (Option-cases (lookup id e.jobs)) [
  | inl absent ↦ rw (on_job, absent) refl
  | inr (c, at) ↦ elim (Option-cases (get_elem? e.store c)) [
    | inl gone ↦ rw (on_job, at, gone) refl
    | inr (job, here) ↦
        rw (on_job, at, here)
          (ap (λ store. record e { store = store })
            (map-set_same core e.store c job (f job).1 here (keeps job)))
  ]
]

cancel-cores :
    (id : String) (e : Engine) → cores (cancel_migration e id).1 ≡ (cancel_migration (cores e) id).1
unfolding cancel_migration on_job cancel_job
cancel-cores id e = elim (Option-cases (lookup id e.jobs)) [
  | inl absent ↦ rw (on_job, absent) refl
  | inr (c, at) ↦ elim (Option-cases (get_elem? e.store c)) [
    | inl gone ↦
        let gone' : get_elem? (map core e.store) c ≡ none =
          get_elem?-map core e.store c ∙ ap (Option.map core) gone in
        rw (on_job, at, gone, gone') refl
    | inr (job, here) ↦
        let here' : get_elem? (map core e.store) c ≡ some (core job) =
          get_elem?-map core e.store c ∙ ap (Option.map core) here in
        rw (on_job, at, here, here')
          (ap (λ store. record e { store = store }) (map-set core e.store c (cancel_job job).1))
  ]
]

-- On the cores, the calls do what the cancellations among them do.
calls-cores :
    (cs : List Call) (e : Engine) → cores (calls cs e) ≡ calls (cancellations cs) (cores e)
unfolding pause_migration resume_migration
calls-cores [] e = refl
calls-cores (pauses id ∷ cs) e =
    calls-cores cs (call (pauses id) e)
    ∙ ap (calls (cancellations cs)) (on_job-hidden pause_job id e pause_job-core)
calls-cores (resumes id ∷ cs) e =
    calls-cores cs (call (resumes id) e)
    ∙ ap (calls (cancellations cs)) (on_job-hidden resume_job id e resume_job-core)
calls-cores (cancels id ∷ cs) e =
    calls-cores cs (call (cancels id) e) ∙ ap (calls (cancellations cs)) (cancel-cores id e)

cancellations-cores :
    (cs : List Call) (e : Engine)
    → cores (calls (cancellations cs) e) ≡ calls (cancellations cs) (cores e)
cancellations-cores [] e = refl
cancellations-cores (pauses id ∷ cs) e = cancellations-cores cs e
cancellations-cores (resumes id ∷ cs) e = cancellations-cores cs e
cancellations-cores (cancels id ∷ cs) e =
    cancellations-cores cs (call (cancels id) e) ∙ ap (calls (cancellations cs)) (cancel-cores id e)

-- The last stage does not read what pausing and resuming set.
abbrev seen :
    Stage × MigrationJob × List Action
    → Stage × Option (MigrationStatus × MigrationJob) × List Action
seen (stage, job, actions) = (stage, some (job.status, core job), actions)

after_execution-core :
    (rm : RollbackManager) (now : ℕ) (error : Option String) (job : MigrationJob)
    → seen (after_execution rm now error (core job)) ≡ seen (after_execution rm now error job)
unfolding fail_job
after_execution-core rm now none job = refl
after_execution-core rm now (some e) job = refl

execute_stage-core :
    (w : World) (rm : RollbackManager) (job : MigrationJob)
    → seen (stage_of w rm executes (core job)) ≡ seen (stage_of w rm executes job)
unfolding execute_stage execute_strategy execute_warm Cold.execute_migration Cold.finalize
execute_stage-core w rm job =
    after_execution-core rm w.now (execute_strategy w.cold_migrators w.warm_migrators job) job

outcome_found :
    (w : World) (t : Task) (e : Engine) (job : MigrationJob)
    → get_elem? e.store t.place ≡ some job
    → outcome w t e ≡ seen (stage_of w e.rollback_manager t.stage job)
unfolding advance
outcome_found w t e job at =
    rw
      (
        advance,
        at,
        get_elem?-set_self e.store t.place job (stage_of w e.rollback_manager t.stage job).1 at,
      )
      refl

outcome_executes :
    (w : World) (t : Task) (e : Engine) (job : MigrationJob)
    → t.stage ≡ executes
    → get_elem? e.store t.place ≡ some job
    → outcome w t e ≡ seen (stage_of w e.rollback_manager executes job)
outcome_executes w t e job now at =
    outcome_found w t e job at ∙ ap (λ s. seen (stage_of w e.rollback_manager s job)) now

outcome-none :
    (w : World) (t : Task) (e : Engine)
    → get_elem? e.store t.place ≡ none
    → outcome w t e ≡ (t.stage, none, [])
unfolding advance
outcome-none w t e at =
    rw (advance, at)
      (ap
        (λ found. (t.stage, Option.map (λ (job : MigrationJob). (job.status, core job)) found, []))
        at)

-- A stage on the cores ends in the same way.
outcome-cores :
    (w : World) (t : Task) (e : Engine) → t.stage ≡ executes → outcome w t (cores e) ≡ outcome w t e
outcome-cores w t e running_now = elim (Option-cases (get_elem? e.store t.place)) [
  | inl gone ↦
      let gone' : get_elem? (map core e.store) t.place ≡ none =
        get_elem?-map core e.store t.place ∙ ap (Option.map core) gone in
      outcome-none w t (cores e) gone' ∙ sym (outcome-none w t e gone)
  | inr (job, here) ↦
      let here' : get_elem? (map core e.store) t.place ≡ some (core job) =
        get_elem?-map core e.store t.place ∙ ap (Option.map core) here in
      outcome_executes w t (cores e) (core job) running_now here'
      ∙ execute_stage-core w e.rollback_manager job
      ∙ sym (outcome_executes w t e job running_now here)
]

-- Once the audit is over, of the calls that pause, resume or cancel jobs, any number of them and in any
-- order before the strategy is executed, only the cancellations count: the pauses and resumptions
-- among them can be left out without a change of how the job ends, its status, its errors, its times
-- and the actions of a rollback.
pub pauses_ignored :
    (w : World) (t : Task) (e : Engine) (cs : List Call)
    → t.stage ≡ executes
    → outcome w t (calls cs e) ≡ outcome w t (calls (cancellations cs) e)
pauses_ignored w t e cs running_now =
    sym (outcome-cores w t (calls cs e) running_now)
    ∙ ap (outcome w t) (calls-cores cs e ∙ sym (cancellations-cores cs e))
    ∙ outcome-cores w t (calls (cancellations cs) e) running_now

-- Three calls on one job.
abbrev results :
    (MigrationJob → Control × MigrationJob)
    → (MigrationJob → Control × MigrationJob)
    → (MigrationJob → Control × MigrationJob)
    → MigrationJob
    → Control × Control × Control
results f g h job =
    let (first, job1) = f job in
    let (second, job2) = g job1 in let (third, _) = h job2 in (first, second, third)

on_job_found :
    (f : MigrationJob → Control × MigrationJob) (id : String) (e : Engine) (c : ℕ)
    (job : MigrationJob)
    → lookup id e.jobs ≡ some c
    → get_elem? e.store c ≡ some job
    → on_job f id e ≡ ((f job).0, record e { store = set e.store c (f job).1 })
unfolding on_job
on_job_found f id e c job at here = rw (on_job, at, here) refl

pause_twice :
    (job : MigrationJob)
    → job.can_pause ≡ true
    → job.can_resume ≡ true
    → job.status ≡ running
    → job.pause_closed ≡ false
    → results pause_job resume_job pause_job job ≡ (done, done, panics)
unfolding pause_job resume_job
pause_twice job p r now fresh = rw (p, now, fresh, r) refl

-- A running job that can be paused is paused, resumed, and paused again: the second time panics, since
-- the channel that the first has closed stays closed.
pub pause_again_panics :
    (e : Engine) (id : String) (c : ℕ) (job : MigrationJob)
    → lookup id e.jobs ≡ some c
    → get_elem? e.store c ≡ some job
    → job.can_pause ≡ true
    → job.can_resume ≡ true
    → job.status ≡ running
    → job.pause_closed ≡ false
    → let (first, e1) = pause_migration e id in
      let (second, e2) = resume_migration e1 id in
      let (third, _) = pause_migration e2 id in (first ≡ done) × (second ≡ done) × (third ≡ panics)
unfolding pause_migration resume_migration on_job pause_job resume_job
pause_again_panics e id c job at here p r now fresh =
    let job1 = (pause_job job).1 in
    let job2 = (resume_job job1).1 in
    let store1 = set e.store c job1 in
    let store2 = set store1 c job2 in
    let here1 = get_elem?-set_self e.store c job job1 here in
    let here2 = get_elem?-set_self store1 c job1 job2 here1 in
    let first = on_job_found pause_job id e c job at here in
    let second = on_job_found resume_job id (record e { store = store1 }) c job1 at here1 in
    let third = on_job_found pause_job id (record e { store = store2 }) c job2 at here2 in
    let all = pause_twice job p r now fresh in
    let second' = ap (λ e1. on_job resume_job id e1.1) first ∙ second in
    let third' = ap (λ (e2 : Control × Engine). on_job pause_job id e2.1) second' ∙ third in
    (
      ap (λ x. x.0) first ∙ ap (λ x. x.0) all,
      ap (λ x. x.0) second' ∙ ap (λ x. x.1) all,
      ap (λ x. x.0) third' ∙ ap (λ x. x.2) all,
    )
