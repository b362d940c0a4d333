-- ===== src/Worker/Executor.antt =====
-- internal/worker/executor.go: a migration on its source or its target.
-- What a stream, a dial or a context returns is an argument, and what is sent is a list. A float32
-- quotient is the argument `ratio`, as the bit pattern of the float.
pub mod Report
pub mod Handshake
pub mod Acks
mod Tests
use Prim.Native.String.{◌++◌ as str_append}
use dockation.Prelude.{
  ℕ, suc, ◌+◌, String, Bool, true, false, Option, none, some, List, [], ◌∷◌, ◌++◌, length,
  if◌then◌else◌,
}
use dockation.Prelude.Dict.{Dict, lookup, insert, delete}
use dockation.Proto.{
  MigrationRequest, AcceptMigrationRequest, MigrationPhase, MigrationProgress, MigrationComplete,
  WorkerMessage, migration_progress, migration_complete,
}
use dockation.Proto.Transfers.{
  VolumeChunk, LayerBlob, TransferAck, ProxyData, ProxyDataType, ProxyRole, ProxyPayload,
  ProxyHandshake, volume_chunk, layer_blob, close_payload, handshake_payload, ack_payload,
  container_chunk, unset,
}

-- GetCredentials: the worker's ID and its token.
pub record Credentials : Type 0 where
  pub worker_id : String
  pub auth_token : String

-- What opening a transfer's stream, its Send, its CloseSend and its Recv return.
pub record StreamResults : Type 0 where
  pub opened : Option String
  pub sent : Option String
  pub closed : Option String
  pub received : Option String

abbrev pub or_else : Option String → Option String → Option String
or_else none e = e
or_else (some x) e = some x

-- transferVolume and transferImage: the bytes and the error that they return.
unfoldable pub transfer : StreamResults → ℕ × Option String
transfer s = (0, or_else s.opened (or_else s.sent (or_else s.closed s.received)))

-- The one message that each of them sends.
abbrev pub volume_message : String → VolumeChunk
volume_message name = record {
  volume_id = name;
  offset = 0;
  contents = [];
  checksum = "";
  total_size = 0;
  is_final = true;
}

abbrev pub image_message : String → LayerBlob
image_message id = record {
  image_id = id;
  layer_digest = "";
  offset = 0;
  contents = [];
  checksum = "";
  layer_size = 0;
  is_final = true;
}

-- What an execution as the source meets: the error of making its client, whether the context is done
-- before a transfer, and what each transfer's stream returns.
pub record Environment : Type 0 where
  pub credentials : Option Credentials
  pub client : Option String
  pub done_before_volume : ℕ → Bool
  pub done_before_image : ℕ → Bool
  pub volume : String → StreamResults
  pub image : String → StreamResults
  pub ratio : ℕ → ℕ → ℕ

abbrev worker_of : Option Credentials → String
worker_of none = ""
worker_of (some c) = c.worker_id

abbrev token_of : Option Credentials → String
token_of none = ""
token_of (some c) = c.auth_token

abbrev pub progress_message : Option Credentials → String → MigrationPhase → ℕ → ℕ → WorkerMessage
progress_message c id phase progress bytes = record {
  worker_id = worker_of c;
  auth_token = token_of c;
  payload = migration_progress (record {
    migration_id = id;
    phase = phase;
    progress = progress;
    bytes_transferred = bytes;
    total_bytes = 0;
    current_resource = "";
    message = "";
  });
}

abbrev pub complete_message : Option Credentials → String → Bool → String → ℕ → WorkerMessage
complete_message c id success error bytes = record {
  worker_id = worker_of c;
  auth_token = token_of c;
  payload = migration_complete (record {
    migration_id = id;
    success = success;
    error = error;
    duration_ms = 0;
    bytes_transferred = bytes;
    resources_migrated = [];
  });
}

-- A part of an execution: the messages that it has sent, and the bytes so far, or the error with which
-- it ends.
pub data Part : Type 0 where
  goes_on : ℕ → Part
  fails : String → ℕ → Part

abbrev pub Sending : Type 0
Sending = List WorkerMessage × Part

abbrev pub after_transfer : ℕ × Option String → String → ℕ → (ℕ → Sending) → Sending
after_transfer (bytes, none) failure total rest = rest (total + bytes)
after_transfer (bytes, some e) failure total rest = ([], fails (str_append failure e) total)

abbrev pub and_sends : WorkerMessage → Sending → Sending
and_sends m (ms, part) = (m ∷ ms, part)

module _ (done : ℕ → Bool) (results : String → StreamResults) (message : ℕ → ℕ → WorkerMessage)
    (failure : String) where
  -- One of the two loops of ExecuteAsSource; `message` is the report after the transfer at an index,
  -- with the bytes so far.
  unfoldable pub transfer_each : ℕ → ℕ → List String → Sending
  unfolding transfer
  transfer_each i total [] = ([], goes_on total)
  transfer_each i total (name ∷ names) =
      let rest = λ (bytes : ℕ). and_sends (message i bytes) (transfer_each (suc i) bytes names) in
      if done i
      then ([], fails "cancelled" total)
      else after_transfer (transfer (results name)) failure total rest

abbrev pub then_part : Sending → (ℕ → Sending) → Sending
then_part (ms, fails e total) rest = (ms, fails e total)
then_part (ms, goes_on total) rest = let (more, part) = rest total in (ms ++ more, part)

-- The bit pattern of the float32 1.0; that of 0.0 is 0.
abbrev pub one : ℕ
one = 0x3f80_0000

abbrev send_volumes : Environment → String → List String → Sending
send_volumes env id names =
    let report = λ (i bytes : ℕ).
      progress_message env.credentials id MigrationPhase.transferring_volumes
        (env.ratio (i + 1) (length names)) bytes in
    and_sends (progress_message env.credentials id MigrationPhase.transferring_volumes 0 0)
      (transfer_each env.done_before_volume env.volume report "volume transfer failed: " 0 0 names)

abbrev send_images : Environment → String → List String → ℕ → Sending
send_images env id names total =
    let report = λ (i bytes : ℕ).
      progress_message env.credentials id MigrationPhase.transferring_images
        (env.ratio (i + 1) (length names)) bytes in
    and_sends (progress_message env.credentials id MigrationPhase.transferring_images 0 total)
      (transfer_each env.done_before_image env.image report "image transfer failed: " 0 total names)

abbrev send_finalizing : Environment → String → ℕ → Sending
send_finalizing env id total =
    (progress_message env.credentials id MigrationPhase.finalizing one total ∷ [], goes_on total)

-- The report of completion that every way out of the function sends.
abbrev pub completed : Environment → String → Part → WorkerMessage
completed env id (goes_on total) = complete_message env.credentials id true "" total
completed env id (fails e total) = complete_message env.credentials id false e total

abbrev pub transfers : Environment → MigrationRequest → Option String → Sending
transfers env req (some e) = ([], fails e 0)
transfers env req none =
    then_part
      (then_part (send_volumes env req.migration_id req.volume_names)
        (send_images env req.migration_id req.image_ids))
      (send_finalizing env req.migration_id)

-- ExecuteAsSource: the messages that it sends, in their order.
unfoldable pub execute_as_source : Environment → MigrationRequest → List WorkerMessage
execute_as_source env req =
    let (sent, part) = transfers env req env.client in
    sent ++ completed env req.migration_id part ∷ []
