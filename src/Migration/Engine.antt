-- ===== src/Migration/Engine.antt =====
-- internal/migration/engine.go: the life cycle of a migration job.
-- Jobs are shared pointers: they are a store, and the map `jobs` holds their places. The goroutine of
-- executeMigration is a task with a stage, and other calls come between its stages: the audit, and the
-- strategy with the verification, which always succeeds. A cancellation in the middle of the audit
-- counts as one before it. What the migrators and the clock return are arguments: what the migrators
-- return depends on whether the job is cancelled when they begin, and a cancellation while they work
-- shows in what they return. The updates sent for the user interface, and a reader that lets them
-- block, are left out.
pub mod Fresh
pub mod Last
pub mod Lifecycle
pub mod Interrupt
mod Tests
use Prim.Native.String.{◌++◌ as str_append}
use dockation.Prelude.{
  ℕ, ◌+◌, String, Bool, true, false, not, Option, none, some, List, [], ◌∷◌, ◌++◌, length,
  get_elem?, set, map, if◌then◌else◌,
}
use dockation.Prelude.Decimal.{decimal}
use dockation.Prelude.Dict.{Dict, lookup, insert}
use dockation.Migration.Rollback.{
  ResourceRef, RollbackManager, new_rollback_manager, RollbackError, snapshot_not_found,
  completed_with_errors, Action, create_snapshot, rollback,
}
use dockation.Migration.Job.{
  MigrationStrategy, cold, warm, snapshot, unknown, MigrationStatus, pending, preflight, running,
  paused, complete, failed, rolling_back, MigrationError, MigrationJob,
}
use dockation.Migration.Cold.{Migrators}
use dockation.Migration.Warm.{WarmMigrators, execute_strategy}
use dockation.Migration.Audit.{AuditResult, run_audit}

pub record Engine : Type 0 where
  pub store : List MigrationJob
  pub jobs : Dict ℕ
  pub rollback_manager : RollbackManager

unfoldable pub new_engine : Engine
new_engine = record { store = []; jobs = []; rollback_manager = new_rollback_manager }

pub data Stage : Type 0 where
  audits executes ended : Stage

pub record Task : Type 0 where
  pub place : ℕ
  pub stage : Stage

-- StartMigration: the job is stored, and its goroutine is the task.
abbrev pub initialized : ℕ → MigrationJob → MigrationJob
initialized now job = record job {
  start_time = now;
  status = preflight;
  cancelled = false;
  pause_closed = false;
  resume_closed = false;
}

unfoldable pub start_migration : Engine → MigrationJob → ℕ → Task × Engine
start_migration e job now =
    let c = length e.store in
    (
      record { place = c; stage = audits },
      record {
        store = e.store ++ initialized now job ∷ [];
        jobs = insert job.id c e.jobs;
        rollback_manager = create_snapshot e.rollback_manager job.id now;
      },
    )

abbrev rollback_text : RollbackError → String
rollback_text (snapshot_not_found id) = str_append "snapshot not found for job: " id
rollback_text (completed_with_errors n) =
    str_append "rollback completed with " (str_append (decimal n) " errors")

abbrev pub error_in : String → String → ℕ → MigrationError
error_in phase message now = record {
  timestamp = now;
  phase = phase;
  message = message;
  recoverable = false;
}

abbrev rollback_errors : Option RollbackError → ℕ → List MigrationError
rollback_errors none now = []
rollback_errors (some e) now = error_in "rollback" (rollback_text e) now ∷ []

-- The deferred function of executeMigration, with an error and without.
unfoldable pub fail_job : RollbackManager → String → ℕ → MigrationJob → MigrationJob × List Action
fail_job rm message now job =
    let (error, actions) = rollback rm job.id in
    (
      record job {
        end_time = some now;
        status = rolling_back;
        errors =
            (job.errors ++ error_in job.current_phase message now ∷ [])
            ++ rollback_errors error now;
      },
      actions,
    )

abbrev pub complete_job : ℕ → MigrationJob → MigrationJob
complete_job now job = record job { end_time = some now; status = complete }

-- What a stage makes of the job: the next stage, the job, and the actions of a rollback.
abbrev pub Staged : Type 0
Staged = Stage × MigrationJob × List Action

abbrev pub ends : MigrationJob × List Action → Staged
ends (job, actions) = (ended, job, actions)

-- The strategy is looked up when the job is already running.
abbrev pub get_strategy : MigrationStrategy → Option String
get_strategy cold = none
get_strategy warm = none
get_strategy snapshot = none
get_strategy (unknown s) = some (str_append "unknown strategy: " s)

abbrev pub with_strategy : RollbackManager → ℕ → Option String → MigrationJob → Staged
with_strategy rm now none job = (executes, job, [])
with_strategy rm now (some e) job =
    ends (fail_job rm (str_append "failed to get strategy: " e) now job)

abbrev pub executing : MigrationJob → MigrationJob
executing job = record job { current_phase = "execution"; status = running }

abbrev pub auditing : MigrationJob → MigrationJob
auditing job = record job { current_phase = "audit" }

abbrev pub after_audit : RollbackManager → ℕ → Option AuditResult → MigrationJob → Staged
after_audit rm now none job =
    ends (fail_job rm "audit failed: audit cancelled: context canceled" now job)
after_audit rm now (some result) job =
    if result.can_proceed
    then with_strategy rm now (get_strategy job.strategy) (executing job)
    else ends (
        fail_job rm
          (str_append "audit checks failed: "
            (str_append (decimal (length result.blockers)) " blockers"))
          now job)

unfoldable pub audit_stage : RollbackManager → (ℕ → ℕ) → ℕ → MigrationJob → Staged
audit_stage rm buffered now job =
    after_audit rm now (run_audit buffered (λ i. job.cancelled) (auditing job)) (auditing job)

abbrev pub verifying : MigrationJob → MigrationJob
verifying job = record job { current_phase = "verification" }

abbrev pub after_execution : RollbackManager → ℕ → Option String → MigrationJob → Staged
after_execution rm now none job = (ended, complete_job now (verifying job), [])
after_execution rm now (some e) job =
    ends (fail_job rm (str_append "migration execution failed: " e) now job)

unfoldable pub execute_stage :
    RollbackManager → (Bool → Migrators) → (Bool → WarmMigrators) → ℕ → MigrationJob → Staged
execute_stage rm c w now job = after_execution rm now (execute_strategy c w job) job

-- What the goroutine is given from outside; the migrators by whether the job's context is done.
pub record World : Type 0 where
  pub buffered : ℕ → ℕ
  pub cold_migrators : Bool → Migrators
  pub warm_migrators : Bool → WarmMigrators
  pub now : ℕ

abbrev pub stage_of : World → RollbackManager → Stage → MigrationJob → Staged
stage_of w rm audits job = audit_stage rm w.buffered w.now job
stage_of w rm executes job = execute_stage rm w.cold_migrators w.warm_migrators w.now job
stage_of w rm ended job = (ended, job, [])

-- The next stage of a task.
unfoldable pub advance : World → Task → Engine → Task × Engine × List Action
advance w t e = elim (get_elem? e.store t.place) [
  | none ↦ (t, e, [])
  | some job ↦
      let (stage, job', actions) = stage_of w e.rollback_manager t.stage job in
      (record t { stage = stage }, record e { store = set e.store t.place job' }, actions)
]

pub data ControlError : Type 0 where
  job_not_found : String → ControlError
  cannot_be_paused cannot_be_resumed : ControlError
  not_running not_paused : MigrationStatus → ControlError

-- A call from outside: nil, an error, or a panic, which the HTTP server recovers from.
pub data Control : Type 0 where
  done panics : Control
  refused : ControlError → Control

abbrev pub is_running : MigrationStatus → Bool
is_running running = true
is_running pending = false
is_running preflight = false
is_running paused = false
is_running complete = false
is_running failed = false
is_running rolling_back = false

abbrev pub is_paused : MigrationStatus → Bool
is_paused paused = true
is_paused pending = false
is_paused preflight = false
is_paused running = false
is_paused complete = false
is_paused failed = false
is_paused rolling_back = false

-- close(pauseChan) panics if the channel is closed; the status is set before.
unfoldable pub pause_job : MigrationJob → Control × MigrationJob
pause_job job =
    if not job.can_pause
    then (refused cannot_be_paused, job)
    else if not (is_running job.status)
    then (refused (not_running job.status), job)
    else if job.pause_closed
    then (panics, record job { status = paused })
    else (done, record job { status = paused; pause_closed = true })

unfoldable pub resume_job : MigrationJob → Control × MigrationJob
resume_job job =
    if not job.can_resume
    then (refused cannot_be_resumed, job)
    else if not (is_paused job.status)
    then (refused (not_paused job.status), job)
    else (done, record job { status = running; resume_closed = true })

unfoldable pub cancel_job : MigrationJob → Control × MigrationJob
cancel_job job = (done, record job { cancelled = true })

-- The job under an ID.
unfoldable pub on_job : (MigrationJob → Control × MigrationJob) → String → Engine → Control × Engine
on_job f id e = elim (lookup id e.jobs) [
  | none ↦ (refused (job_not_found id), e)
  | some c ↦ elim (get_elem? e.store c) [
    | none ↦ (refused (job_not_found id), e)
    | some job ↦ let (result, job') = f job in (result, record e { store = set e.store c job' })
  ]
]

unfoldable pub pause_migration : Engine → String → Control × Engine
pause_migration e id = on_job pause_job id e

unfoldable pub resume_migration : Engine → String → Control × Engine
resume_migration e id = on_job resume_job id e

unfoldable pub cancel_migration : Engine → String → Control × Engine
cancel_migration e id = on_job cancel_job id e

unfoldable pub get_status : Engine → String → Option MigrationJob
get_status e id = elim (lookup id e.jobs) [ none ↦ none | some c ↦ get_elem? e.store c ]
