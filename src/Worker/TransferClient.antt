-- ===== src/Worker/TransferClient.antt =====
-- internal/worker/transfer_client.go: the transfer of data through the master's proxy.
-- Both kinds of stream are one here, since they differ only in the message that Send wraps. What Recv of
-- the channel returns is a list, and an answer that is not there yet is waited for. The direct client
-- passes every call on to its stream.
pub mod Acknowledged
mod Tests
use Prim.Native.String.{◌++◌ as str_append}
use dockation.Prelude.{
  ℕ, zero, suc, String, Bool, true, false, Option, none, some, List, [], ◌∷◌, if◌then◌else◌,
}
use dockation.Proto.Transfers.{
  VolumeChunk, LayerBlob, TransferAck, ProxyClose, ProxyData, ProxyDataType, ProxyPayload,
  volume_chunk, layer_blob, close_payload, ack_payload, handshake_payload, container_chunk, unset,
}

pub record ProxyTransferClient : Type 0 where
  pub migration_id : String
  pub worker_id : String
  pub closed : Bool

unfoldable pub new_proxy_transfer_client : String → ProxyTransferClient
new_proxy_transfer_client id = record { migration_id = id; worker_id = ""; closed = false }

unfoldable pub set_worker_id : String → ProxyTransferClient → ProxyTransferClient
set_worker_id worker c = record c { worker_id = worker }

pub record ProxyStream : Type 0 where
  pub migration_id : String
  pub worker_id : String

pub data Opened : Type 0 where
  opens : ProxyStream → Opened
  refuses : String → Opened

-- TransferVolume and TransferImageLayers.
unfoldable pub open_stream : ProxyTransferClient → Opened
open_stream c =
    if c.closed
    then refuses "proxy client is closed"
    else opens (record { migration_id = c.migration_id; worker_id = c.worker_id })

unfoldable pub close_client : ProxyTransferClient → ProxyTransferClient × List ProxyData
close_client c = if c.closed then (c, []) else (
  record c { closed = true },
  record {
    migration_id = c.migration_id;
    worker_id = c.worker_id;
    data_type = ProxyDataType.close;
    payload = close_payload (record { success = true; error = "" });
  }
      ∷ [],
)

-- What Send of the two kinds of stream sends.
unfoldable pub send_chunk : ProxyStream → VolumeChunk → ProxyData
send_chunk s chunk = record {
  migration_id = s.migration_id;
  worker_id = s.worker_id;
  data_type = ProxyDataType.volume;
  payload = volume_chunk chunk;
}

unfoldable pub send_blob : ProxyStream → LayerBlob → ProxyData
send_blob s blob = record {
  migration_id = s.migration_id;
  worker_id = s.worker_id;
  data_type = ProxyDataType.image;
  payload = layer_blob blob;
}

-- What Recv of the channel returns, and what Recv of a stream does.
pub data Arrival : Type 0 where
  eof : Arrival
  failed : String → Arrival
  arrives : ProxyData → Arrival

pub data Answer : Type 0 where
  acks : TransferAck → Answer
  ends waits : Answer
  fails : String → Answer

abbrev get_ack : ProxyPayload → Option Answer
get_ack (ack_payload a) = some (acks a)
get_ack (volume_chunk c) = none
get_ack (layer_blob b) = none
get_ack (container_chunk c) = none
get_ack (handshake_payload h) = none
get_ack (close_payload c) = none
get_ack unset = none

abbrev closing : ProxyClose → Answer
closing c =
    if c.success then ends else fails (str_append "proxy channel closed with error: " c.error)

abbrev get_close : ProxyPayload → Option Answer
get_close (close_payload c) = some (closing c)
get_close (ack_payload a) = none
get_close (volume_chunk c) = none
get_close (layer_blob b) = none
get_close (container_chunk c) = none
get_close (handshake_payload h) = none
get_close unset = none

-- The answer that a message is, if it is one; other messages are skipped.
abbrev pub answer_of : ProxyData → Option Answer
answer_of msg = elim msg.data_type [
  | ProxyDataType.ack ↦ get_ack msg.payload
  | ProxyDataType.close ↦ get_close msg.payload
  | ProxyDataType.handshake ↦ none
  | ProxyDataType.volume ↦ none
  | ProxyDataType.image ↦ none
  | ProxyDataType.container ↦ none
]

abbrev pub answered : Option Answer → List Arrival → Answer × List Arrival → Answer × List Arrival
answered (some a) later skipped = (a, later)
answered none later skipped = skipped

unfoldable pub recv : List Arrival → Answer × List Arrival
recv [] = (waits, [])
recv (eof ∷ later) = (ends, later)
recv (failed e ∷ later) = (fails (str_append "failed to receive proxy data: " e), later)
recv (arrives msg ∷ later) = answered (answer_of msg) later (recv later)
