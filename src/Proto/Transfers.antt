-- ===== src/Proto/Transfers.antt =====
-- The messages of proto/migrate.proto that carry data from one host to the other, directly or through
-- the master's proxy. Bytes are numbers below 256; a message field is a pointer in Go.
use dockation.Prelude.{ℕ, String, Bool, List}

pub record VolumeChunk : Type 0 where
  pub volume_id : String
  pub offset : ℕ
  pub contents : List ℕ
  pub checksum : String
  pub total_size : ℕ
  pub is_final : Bool

pub record LayerBlob : Type 0 where
  pub image_id : String
  pub layer_digest : String
  pub offset : ℕ
  pub contents : List ℕ
  pub checksum : String
  pub layer_size : ℕ
  pub is_final : Bool

pub record ContainerChunk : Type 0 where
  pub container_id : String
  pub container_name : String
  pub state_data : List ℕ
  pub checksum : String
  pub is_final : Bool

pub record TransferAck : Type 0 where
  pub offset : ℕ
  pub success : Bool
  pub error : String
  pub progress : ℕ

-- An unknown role is a number that the enum does not name.
pub data ProxyRole : Type 0 where
  source target : ProxyRole
  unknown : ℕ → ProxyRole

pub record ProxyHandshake : Type 0 where
  pub role : ProxyRole
  pub target_worker_id : String
  pub auth_token : String

pub record ProxyClose : Type 0 where
  pub success : Bool
  pub error : String

pub data ProxyDataType : Type 0 where
  handshake volume image container ack close : ProxyDataType

-- The `oneof payload`; the type beside it is a field of its own, and need not fit.
pub data ProxyPayload : Type 0 where
  volume_chunk : VolumeChunk → ProxyPayload
  layer_blob : LayerBlob → ProxyPayload
  container_chunk : ContainerChunk → ProxyPayload
  ack_payload : TransferAck → ProxyPayload
  handshake_payload : ProxyHandshake → ProxyPayload
  close_payload : ProxyClose → ProxyPayload
  unset : ProxyPayload

pub record ProxyData : Type 0 where
  pub migration_id : String
  pub worker_id : String
  pub data_type : ProxyDataType
  pub payload : ProxyPayload
