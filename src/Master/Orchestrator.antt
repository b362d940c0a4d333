-- ===== src/Master/Orchestrator.antt =====
-- internal/master/orchestrator.go: migrations between two workers.
-- The background goroutine of a migration is a task with a stage; `advance` runs it from one lock
-- or send to the next, so that other calls can come in between. The goroutine's job pointer is the
-- job stored under its ID: jobs are never removed, and IDs come from the clock.
pub mod Jobs
pub mod Start
pub mod Dispatch
pub mod Lifecycle
pub mod Finished
mod Tests
use Prim.Native.String.{◌++◌ as str_append}
use dockation.Prelude.{
  ℕ, String, Bool, true, false, not, ◌&&◌, ◌⊎◌, inl, inr, Option, none, some, List, [], ◌∷◌, ◌++◌,
  if◌then◌else◌,
}
use dockation.Prelude.Decimal.{tagged}
use dockation.Prelude.Dict.{Dict, lookup, insert, values}
use dockation.Proto.{
  MigrationMode, MigrationStrategy, TransferMode, MigrationPhase, MigrationRole, MasterCommand,
  CommandPayload, StartMigrationCommand, MigrationProgress, MigrationComplete,
}
use dockation.Master.Registry.{
  WorkerInfo, Registry, get, is_online, SendError, worker_not_found, stream_not_connected,
  send_failed, Sender, Sent, send_command,
}

pub data MigrationJobStatus : Type 0 where
  pending running completed failed cancelled : MigrationJobStatus

pub record MigrationJob : Type 0 where
  pub id : String
  pub source_worker_id : String
  pub target_worker_id : String
  pub container_ids : List String
  pub image_ids : List String
  pub volume_names : List String
  pub network_ids : List String
  pub mode : MigrationMode
  pub strategy : MigrationStrategy
  pub transfer_mode : TransferMode
  pub status : MigrationJobStatus
  pub phase : MigrationPhase
  pub progress : ℕ
  pub bytes_transferred : ℕ
  pub total_bytes : ℕ
  pub started_at : ℕ
  pub completed_at : ℕ
  pub error : String

pub record MigrationRequest : Type 0 where
  pub source_worker_id : String
  pub target_worker_id : String
  pub container_ids : List String
  pub image_ids : List String
  pub volume_names : List String
  pub network_ids : List String
  pub mode : MigrationMode
  pub strategy : MigrationStrategy
  pub transfer_mode : TransferMode

pub record Orchestrator : Type 0 where
  pub grpc_addr : String
  pub migrations : Dict MigrationJob

unfoldable pub new_orchestrator : String → Orchestrator
new_orchestrator grpc_addr = record { grpc_addr = grpc_addr; migrations = [] }

pub data StartError : Type 0 where
  source_not_found source_offline target_not_found target_offline : String → StartError

-- Where the goroutine of executeMigration stands.
pub data Stage : Type 0 where
  begins notifies_target notifies_source done : Stage

pub record Task : Type 0 where
  pub job_id : String
  pub source : WorkerInfo
  pub target : WorkerInfo
  pub stage : Stage

pub data StartResult : Type 0 where
  started : MigrationJob → Task → StartResult
  refused : StartError → StartResult

-- generateMigrationID: the clock in nanoseconds.
unfoldable pub generate_migration_id : ℕ → String
generate_migration_id now = tagged "mig-" now

unfoldable pub new_job : MigrationRequest → ℕ → MigrationJob
new_job req now = record {
  id = generate_migration_id now;
  source_worker_id = req.source_worker_id;
  target_worker_id = req.target_worker_id;
  container_ids = req.container_ids;
  image_ids = req.image_ids;
  volume_names = req.volume_names;
  network_ids = req.network_ids;
  mode = req.mode;
  strategy = req.strategy;
  transfer_mode = req.transfer_mode;
  status = pending;
  phase = MigrationPhase.initializing;
  progress = 0;
  bytes_transferred = 0;
  total_bytes = 0;
  started_at = now;
  completed_at = 0;
  error = "";
}

-- The two checks of one worker: it is registered, and it is online.
abbrev pub checked :
    Registry → ℕ → String → (String → StartError) → (String → StartError) → WorkerInfo ⊎ StartError
checked r now id missing offline = elim (get r id) [
  | some w ↦ if is_online r id now then inl w else inr (offline id)
  | none ↦ inr (missing id)
]

-- StartMigration: the job is stored, and the goroutine is the task that is returned.
unfoldable pub start_migration :
    Orchestrator → Registry → MigrationRequest → ℕ → StartResult × Orchestrator
unfolding new_job
start_migration o r req now =
    elim (checked r now req.source_worker_id source_not_found source_offline) [
      | inr e ↦ (refused e, o)
      | inl source ↦ elim (checked r now req.target_worker_id target_not_found target_offline) [
        | inr e ↦ (refused e, o)
        | inl target ↦
            let job = new_job req now in
            let task : Task = record {
              job_id = job.id;
              source = source;
              target = target;
              stage = begins;
            } in
            (started job task, record o { migrations = insert job.id job o.migrations })
      ]
    ]

-- An update of the job that is stored under an ID; nothing where there is none.
unfoldable pub modify : (MigrationJob → MigrationJob) → String → Orchestrator → Orchestrator
modify change id o = elim (lookup id o.migrations) [
  | some job ↦ record o { migrations = insert id (change job) o.migrations }
  | none ↦ o
]

abbrev pub is_unspecified : TransferMode → Bool
is_unspecified TransferMode.unspecified = true
is_unspecified _ = false

abbrev pub is_proxy : TransferMode → Bool
is_proxy TransferMode.proxy = true
is_proxy _ = false

unfoldable pub effective_mode : TransferMode → TransferMode
effective_mode mode = if is_unspecified mode then TransferMode.direct else mode

unfoldable pub proxy_address : Orchestrator → TransferMode → String
proxy_address o mode = if is_proxy mode then o.grpc_addr else ""

unfoldable pub accept_command : Orchestrator → MigrationJob → WorkerInfo → MasterCommand
unfolding effective_mode proxy_address
accept_command o job source =
    let mode = effective_mode job.transfer_mode in
    record {
      command_id = str_append "accept-" job.id;
      payload = CommandPayload.start_migration (record {
        role = MigrationRole.target;
        request = none;
        accept_request = some (record {
          migration_id = job.id;
          source_worker_id = job.source_worker_id;
          source_address = source.grpc_address;
          source_fingerprint = source.tls_fingerprint;
          container_ids = job.container_ids;
          image_ids = job.image_ids;
          volume_names = job.volume_names;
          network_ids = job.network_ids;
          transfer_mode = mode;
          proxy_address = proxy_address o mode;
        });
        transfer_mode = mode;
      });
    }

unfoldable pub start_command : Orchestrator → MigrationJob → WorkerInfo → MasterCommand
unfolding effective_mode proxy_address
start_command o job target =
    let mode = effective_mode job.transfer_mode in
    record {
      command_id = str_append "start-" job.id;
      payload = CommandPayload.start_migration (record {
        role = MigrationRole.source;
        request = some (record {
          migration_id = job.id;
          target_worker_id = job.target_worker_id;
          target_address = target.grpc_address;
          target_fingerprint = target.tls_fingerprint;
          container_ids = job.container_ids;
          image_ids = job.image_ids;
          volume_names = job.volume_names;
          network_ids = job.network_ids;
          mode = job.mode;
          strategy = job.strategy;
          transfer_mode = mode;
          proxy_address = proxy_address o mode;
        });
        accept_request = none;
        transfer_mode = mode;
      });
    }

unfoldable pub send_error_text : SendError → String
send_error_text (worker_not_found id) = str_append "worker not found: " id
send_error_text (stream_not_connected id) = str_append "worker stream not connected: " id
send_error_text (send_failed e) = e

abbrev pub set_running : MigrationJob → MigrationJob
set_running job = record job { status = running }

-- failMigration
unfoldable pub fail_migration : String → ℕ → MigrationJob → MigrationJob
fail_migration text now job = record job {
  status = failed;
  phase = MigrationPhase.failed;
  error = text;
  completed_at = now;
}

-- After a send: fail the job and stop, or go on to the next stage.
unfoldable pub after_send :
    String → Stage → ℕ → Task → Orchestrator → Option SendError × Sent → Task × Orchestrator × Sent
after_send what next now task o (none, sent) = (record task { stage = next }, o, sent)
after_send what next now task o (some e, sent) = (
  record task { stage = done },
  modify (fail_migration (str_append what (send_error_text e)) now) task.job_id o,
  sent,
)

advance_from :
    Stage
    → Option MigrationJob
    → Sender
    → Registry
    → ℕ
    → Task
    → Orchestrator
    → Task × Orchestrator × Sent
advance_from begins _ send r now task o =
    (record task { stage = notifies_target }, modify set_running task.job_id o, [])
advance_from notifies_target (some job) send r now task o =
    after_send "failed to notify target: " notifies_source now task o
      (send_command send r job.target_worker_id (accept_command o job task.source))
advance_from notifies_source (some job) send r now task o =
    after_send "failed to notify source: " done now task o
      (send_command send r job.source_worker_id (start_command o job task.target))
advance_from _ _ send r now task o = (task, o, [])

-- The goroutine's next step.
unfoldable pub advance : Sender → Registry → ℕ → Task → Orchestrator → Task × Orchestrator × Sent
unfolding advance_from
advance send r now task o =
    advance_from task.stage (lookup task.job_id o.migrations) send r now task o

-- executeMigration with nothing in between: what it leaves, and what it sent.
unfoldable pub execute_migration : Sender → Registry → ℕ → Task → Orchestrator → Orchestrator × Sent
unfolding advance
execute_migration send r now task o =
    let (t1, o1, s1) = advance send r now task o in
    let (t2, o2, s2) = advance send r now t1 o1 in
    let (t3, o3, s3) = advance send r now t2 o2 in (o3, s1 ++ s2 ++ s3)

abbrev pub report : MigrationProgress → MigrationJob → MigrationJob
report p job = record job {
  phase = p.phase;
  progress = p.progress;
  bytes_transferred = p.bytes_transferred;
  total_bytes = p.total_bytes;
}

unfoldable pub update_progress : Orchestrator → String → MigrationProgress → Orchestrator
update_progress o id p = modify (report p) id o

unfoldable pub complete : MigrationComplete → ℕ → MigrationJob → MigrationJob
complete c now job =
    let ended = record job { completed_at = now; bytes_transferred = c.bytes_transferred } in
    if c.success
    then record ended { status = completed; phase = MigrationPhase.complete }
    else record ended { status = failed; phase = MigrationPhase.failed; error = c.error }

unfoldable pub complete_migration : Orchestrator → String → MigrationComplete → ℕ → Orchestrator
complete_migration o id c now = modify (complete c now) id o

pub data CancelError : Type 0 where
  migration_not_found : String → CancelError
  cannot_cancel : MigrationJobStatus → CancelError

abbrev pub is_running : MigrationJobStatus → Bool
is_running running = true
is_running _ = false

abbrev pub is_pending : MigrationJobStatus → Bool
is_pending pending = true
is_pending _ = false

unfoldable pub cancel : String → ℕ → MigrationJob → MigrationJob
cancel reason now job = record job {
  status = cancelled;
  phase = MigrationPhase.cancelled;
  error = reason;
  completed_at = now;
}

unfoldable pub cancel_command : String → String → MasterCommand
cancel_command id reason = record {
  command_id = str_append "cancel-" id;
  payload = CommandPayload.cancel_migration (record { migration_id = id; reason = reason });
}

-- Both workers are told, whether or not a send fails.
unfoldable pub cancel_migration :
    Sender
    → Registry
    → Orchestrator
    → String
    → String
    → ℕ
    → Option CancelError × Orchestrator × Sent
unfolding cancel cancel_command
cancel_migration send r o id reason now = elim (lookup id o.migrations) [
  | none ↦ (some (migration_not_found id), o, [])
  | some job ↦
      if not (is_running job.status) && not (is_pending job.status)
      then (some (cannot_cancel job.status), o, [])
      else (
        none,
        record o { migrations = insert id (cancel reason now job) o.migrations },
        (send_command send r job.source_worker_id (cancel_command id reason)).1
            ++ (send_command send r job.target_worker_id (cancel_command id reason)).1,
      )
]

unfoldable pub get_migration : Orchestrator → String → Option MigrationJob
get_migration o id = lookup id o.migrations

unfoldable pub list_migrations : Orchestrator → List MigrationJob
list_migrations o = values o.migrations
