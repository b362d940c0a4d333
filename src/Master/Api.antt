-- ===== src/Master/Api.antt =====
-- internal/master/api_migrations.go: the HTTP handlers of migrations.
-- A request's body is an argument, as ShouldBindJSON leaves it: the request or its error. A reply is its
-- status code with its body. A phase is not turned into its text, which generated code does.
pub mod Migrations
mod Tests
use Prim.Native.String.{◌++◌ as str_append}
use dockation.Prelude.{
  ℕ, ◌==◌, String, Bool, true, false, not, ◌&&◌, Option, none, some, List, [], ◌∷◌, map, str_eq,
  if◌then◌else◌,
}
use dockation.Proto.{MigrationMode, MigrationStrategy, MigrationPhase, TransferMode}
use dockation.Master.Registry.{Registry, Sender, Sent}
use dockation.Master.Orchestrator.{
  MigrationJobStatus, pending, running, completed, failed, cancelled, MigrationJob,
  MigrationRequest, Orchestrator, StartError, source_not_found, source_offline, target_not_found,
  target_offline, StartResult, started, refused, Task, start_migration, CancelError,
  migration_not_found, cannot_cancel, cancel_migration, get_migration, list_migrations,
}

pub record MigrationResponse : Type 0 where
  pub id : String
  pub source_worker_id : String
  pub target_worker_id : String
  pub status : String
  pub phase : MigrationPhase
  pub progress : ℕ
  pub bytes_transferred : ℕ
  pub total_bytes : ℕ
  pub started_at : ℕ
  pub completed_at : Option ℕ
  pub error : String
  pub container_ids : List String
  pub image_ids : List String
  pub volume_names : List String
  pub network_ids : List String
  pub transfer_mode : String

pub record StartMigrationRequest : Type 0 where
  pub source_worker_id : String
  pub target_worker_id : String
  pub container_ids : List String
  pub image_ids : List String
  pub volume_names : List String
  pub network_ids : List String
  pub mode : String
  pub strategy : String
  pub transfer_mode : String

pub data Body : Type 0 where
  malformed : String → Body
  body : StartMigrationRequest → Body

pub data Reply : Type 0 where
  accepted ok : MigrationResponse → Reply
  migrations : List MigrationResponse → Reply
  message bad_request not_found : String → Reply

abbrev pub status_text : MigrationJobStatus → String
status_text pending = "pending"
status_text running = "running"
status_text completed = "completed"
status_text failed = "failed"
status_text cancelled = "cancelled"

abbrev pub transfer_mode_to_string : TransferMode → String
transfer_mode_to_string TransferMode.proxy = "proxy"
transfer_mode_to_string TransferMode.auto = "auto"
transfer_mode_to_string TransferMode.direct = "direct"
transfer_mode_to_string TransferMode.unspecified = "direct"

-- The zero time is 0.
unfoldable pub migration_to_response : MigrationJob → MigrationResponse
migration_to_response j = record {
  id = j.id;
  source_worker_id = j.source_worker_id;
  target_worker_id = j.target_worker_id;
  status = status_text j.status;
  phase = j.phase;
  progress = j.progress;
  bytes_transferred = j.bytes_transferred;
  total_bytes = j.total_bytes;
  started_at = j.started_at;
  completed_at = if j.completed_at == 0 then none else some j.completed_at;
  error = j.error;
  container_ids = j.container_ids;
  image_ids = j.image_ids;
  volume_names = j.volume_names;
  network_ids = j.network_ids;
  transfer_mode = transfer_mode_to_string j.transfer_mode;
}

abbrev pub is_empty : List String → Bool
is_empty [] = true
is_empty (x ∷ xs) = false

abbrev pub no_resource : StartMigrationRequest → Bool
no_resource req =
    is_empty req.container_ids
    && is_empty req.image_ids
    && is_empty req.volume_names
    && is_empty req.network_ids

abbrev pub mode_of : String → MigrationMode
mode_of s =
    if str_eq s "warm"
    then MigrationMode.warm
    else if str_eq s "live"
    then MigrationMode.live
    else MigrationMode.cold

abbrev pub strategy_of : String → MigrationStrategy
strategy_of s =
    if str_eq s "incremental"
    then MigrationStrategy.incremental
    else if str_eq s "snapshot"
    then MigrationStrategy.snapshot
    else MigrationStrategy.full

abbrev pub transfer_mode_of : String → TransferMode
transfer_mode_of s =
    if str_eq s "proxy"
    then TransferMode.proxy
    else if str_eq s "auto"
    then TransferMode.auto
    else TransferMode.direct

abbrev pub request_of : StartMigrationRequest → MigrationRequest
request_of req = record {
  source_worker_id = req.source_worker_id;
  target_worker_id = req.target_worker_id;
  container_ids = req.container_ids;
  image_ids = req.image_ids;
  volume_names = req.volume_names;
  network_ids = req.network_ids;
  mode = mode_of req.mode;
  strategy = strategy_of req.strategy;
  transfer_mode = transfer_mode_of req.transfer_mode;
}

abbrev pub start_error_text : StartError → String
start_error_text (source_not_found id) = str_append "source worker not found: " id
start_error_text (source_offline id) = str_append "source worker is offline: " id
start_error_text (target_not_found id) = str_append "target worker not found: " id
start_error_text (target_offline id) = str_append "target worker is offline: " id

-- The reply, with the orchestrator and the goroutine that the call has started.
abbrev pub Started : Type 0
Started = Reply × Orchestrator × Option Task

abbrev pub start_reply : StartResult × Orchestrator → Started
start_reply (started job task, o) = (accepted (migration_to_response job), o, some task)
start_reply (refused e, o) = (bad_request (start_error_text e), o, none)

unfoldable pub post_migration : Orchestrator → Registry → Body → ℕ → Started
post_migration o r (malformed e) now = (bad_request e, o, none)
post_migration o r (body req) now =
    if no_resource req
    then (bad_request "at least one resource must be specified", o, none)
    else start_reply (start_migration o r (request_of req) now)

unfoldable pub get_migrations : Orchestrator → Reply
get_migrations o = migrations (map migration_to_response (list_migrations o))

abbrev pub found : Option MigrationJob → Reply
found none = not_found "migration not found"
found (some job) = ok (migration_to_response job)

unfoldable pub get_one : Orchestrator → String → Reply
get_one o id = found (get_migration o id)

abbrev pub cancel_error_text : CancelError → String
cancel_error_text (migration_not_found id) = str_append "migration not found: " id
cancel_error_text (cannot_cancel s) =
    str_append "migration cannot be cancelled in state: " (status_text s)

-- An empty reason, also that of a body that cannot be read, has a default.
abbrev pub reason_or_default : String → String
reason_or_default reason = if str_eq reason "" then "cancelled by user" else reason

abbrev pub cancel_reply : Option CancelError → Reply
cancel_reply none = message "migration cancelled"
cancel_reply (some e) = bad_request (cancel_error_text e)

unfoldable pub post_cancel :
    Sender → Registry → Orchestrator → String → String → ℕ → Reply × Orchestrator × Sent
post_cancel send r o id reason now =
    let (error, o', sent) = cancel_migration send r o id (reason_or_default reason) now in
    (cancel_reply error, o', sent)
