-- ===== src/Proto.antt =====
-- The messages of proto/migrate.proto that the control plane reads and writes. The code only copies
-- the numbers in them: a float stands as its bit pattern, a signed integer as its two's complement.
-- A message field is a pointer in Go: it is an `Option` where the code tests it for nil.
pub mod Transfers
use dockation.Prelude.{ℕ, String, Bool, Option, List}
use dockation.Prelude.Dict.{Dict}

pub data WorkerStatus : Type 0 where
  unknown idle busy draining error : WorkerStatus

pub data TransferMode : Type 0 where
  unspecified direct proxy auto : TransferMode

pub data MigrationMode : Type 0 where
  cold warm live : MigrationMode

pub data MigrationStrategy : Type 0 where
  full incremental snapshot : MigrationStrategy

pub data MigrationPhase : Type 0 where
  unknown initializing transferring_images transferring_volumes transferring_networks
        transferring_containers finalizing complete failed cancelled :
      MigrationPhase

pub data MigrationRole : Type 0 where
  unknown source target : MigrationRole

pub record ContainerResource : Type 0 where
  pub id : String
  pub name : String
  pub image : String
  pub state : String
  pub created : ℕ
  pub labels : Dict String

pub record ImageResource : Type 0 where
  pub id : String
  pub tags : List String
  pub size : ℕ
  pub created : ℕ
  pub layer_count : ℕ

pub record VolumeResource : Type 0 where
  pub name : String
  pub driver : String
  pub size : ℕ
  pub mountpoint : String
  pub labels : Dict String

pub record NetworkResource : Type 0 where
  pub id : String
  pub name : String
  pub driver : String
  pub scope : String
  pub internal : Bool
  pub container_count : ℕ

pub record SystemResources : Type 0 where
  pub cpu_percent : ℕ
  pub memory_total : ℕ
  pub memory_available : ℕ
  pub disk_total : ℕ
  pub disk_available : ℕ
  pub network_rx_bytes : ℕ
  pub network_tx_bytes : ℕ

pub record WorkerRegistration : Type 0 where
  pub enrollment_token : String
  pub worker_name : String
  pub hostname : String
  pub grpc_address : String
  pub tls_fingerprint : String
  pub labels : Dict String
  pub version : String

pub record RegistrationResponse : Type 0 where
  pub success : Bool
  pub error : String
  pub worker_id : String
  pub auth_token : String
  pub heartbeat_interval_ms : ℕ
  pub inventory_interval_ms : ℕ

pub record ResourceInventory : Type 0 where
  pub worker_id : String
  pub auth_token : String
  pub timestamp : ℕ
  pub containers : List ContainerResource
  pub images : List ImageResource
  pub volumes : List VolumeResource
  pub networks : List NetworkResource

pub record AckResponse : Type 0 where
  pub success : Bool
  pub error : String

pub record Heartbeat : Type 0 where
  pub timestamp : ℕ
  pub status : WorkerStatus
  pub active_migrations : ℕ
  pub system_resources : Option SystemResources

pub record HeartbeatAck : Type 0 where
  pub timestamp : ℕ
  pub healthy : Bool

pub record MigrationRequest : Type 0 where
  pub migration_id : String
  pub target_worker_id : String
  pub target_address : String
  pub target_fingerprint : String
  pub container_ids : List String
  pub image_ids : List String
  pub volume_names : List String
  pub network_ids : List String
  pub mode : MigrationMode
  pub strategy : MigrationStrategy
  pub transfer_mode : TransferMode
  pub proxy_address : String

pub record AcceptMigrationRequest : Type 0 where
  pub migration_id : String
  pub source_worker_id : String
  pub source_address : String
  pub source_fingerprint : String
  pub container_ids : List String
  pub image_ids : List String
  pub volume_names : List String
  pub network_ids : List String
  pub transfer_mode : TransferMode
  pub proxy_address : String

pub record StartMigrationCommand : Type 0 where
  pub role : MigrationRole
  pub request : Option MigrationRequest
  pub accept_request : Option AcceptMigrationRequest
  pub transfer_mode : TransferMode

pub record CancelMigrationCommand : Type 0 where
  pub migration_id : String
  pub reason : String

pub record MigrationProgress : Type 0 where
  pub migration_id : String
  pub phase : MigrationPhase
  pub progress : ℕ
  pub bytes_transferred : ℕ
  pub total_bytes : ℕ
  pub current_resource : String
  pub message : String

pub record MigrationComplete : Type 0 where
  pub migration_id : String
  pub success : Bool
  pub error : String
  pub duration_ms : ℕ
  pub bytes_transferred : ℕ
  pub resources_migrated : List String

pub record WorkerError : Type 0 where
  pub error_code : String
  pub message : String
  pub details : String
  pub fatal : Bool

pub record UpdateConfigCommand : Type 0 where
  pub heartbeat_interval_ms : ℕ
  pub inventory_interval_ms : ℕ
  pub labels : Dict String

pub record ShutdownCommand : Type 0 where
  pub reason : String
  pub force : Bool

-- The `oneof payload` of a MasterCommand.
pub data CommandPayload : Type 0 where
  heartbeat_ack : HeartbeatAck → CommandPayload
  start_migration : StartMigrationCommand → CommandPayload
  cancel_migration : CancelMigrationCommand → CommandPayload
  update_config : UpdateConfigCommand → CommandPayload
  shutdown : ShutdownCommand → CommandPayload

pub record MasterCommand : Type 0 where
  pub command_id : String
  pub payload : CommandPayload

-- The `oneof payload` of a WorkerMessage; it may be unset.
pub data WorkerPayload : Type 0 where
  heartbeat : Heartbeat → WorkerPayload
  migration_progress : MigrationProgress → WorkerPayload
  migration_complete : MigrationComplete → WorkerPayload
  worker_error : WorkerError → WorkerPayload
  unset : WorkerPayload

pub record WorkerMessage : Type 0 where
  pub worker_id : String
  pub auth_token : String
  pub payload : WorkerPayload
