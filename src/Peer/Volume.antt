-- ===== src/Peer/Volume.antt =====
-- internal/peer/grpc.go: SendVolume on one side of a stream, TransferVolume on the other.
-- The stream is in lockstep: the sender waits for each acknowledgement, so one round is one chunk and
-- its reply. The stream itself delivers, and neither context is cancelled. The sender computes a new
-- chunk size every ten checkpoints and never hands it to its ChunkReader, so that computation has no
-- effect and is left out; so is `Progress`, a float in the acknowledgements. `clock` is the time at
-- which the chunk at an offset is acknowledged.
pub mod Delivery
pub mod Known
pub mod Complete
use Prim.Native.String.{◌++◌ as str_append}
use dockation.Proto.Transfers.{VolumeChunk}
use dockation.Prelude.{
  ℕ, zero, suc, ◌+◌, String, Bool, true, false, Option, none, some, List, [], ◌∷◌, str_eq,
  if◌then◌else◌, length,
}
use dockation.Prelude.Decimal.{decimal}
use dockation.Prelude.Dict.{lookup, insert}
use dockation.Peer.Chunks.{
  Chunk, Reader, ChunkReader, ReadResult, chunk, end_of_file, failed_read, read_chunk,
  new_chunk_reader, Accept, ChunkWriter, WriteError, offset_mismatch, checksum_mismatch,
  failed_write, incomplete_write, write_chunk, new_chunk_writer,
}
use dockation.Peer.Transfer.{
  Transfer, TransferManager, CreateResult, created, refused, TransferError, active, volume,
  create_transfer, dynamic_chunk_size, add_checkpoint, complete_transfer, fail_transfer,
}

-- The receiving handler's variables; what is written is in the temporary file.
pub record Receiver : Type 0 where
  pub writer : ChunkWriter
  pub volume_id : String
  pub total_size : ℕ
  pub received_bytes : ℕ

unfoldable pub new_receiver : Receiver
unfolding new_chunk_writer
new_receiver = record {
  writer = new_chunk_writer 0;
  volume_id = "";
  total_size = 0;
  received_bytes = 0;
}

pub data Reply : Type 0 where
  acknowledged : ℕ → Reply
  rejected : WriteError → Reply

-- The first chunk names the volume.
unfoldable pub first_chunk : Receiver → VolumeChunk → Receiver
first_chunk r c =
    if str_eq r.volume_id ""
    then record r { volume_id = c.volume_id; total_size = c.total_size }
    else r

abbrev pub to_chunk : VolumeChunk → Chunk
to_chunk c = record {
  offset = c.offset;
  contents = c.contents;
  checksum = c.checksum;
  size = length c.contents;
  is_final = c.is_final;
}

module _ (checksum : List ℕ → String) (accept : Accept) where
  reply_to : VolumeChunk → Receiver → Option WriteError × ChunkWriter → Reply × Receiver
  reply_to c r (some e, w) = (rejected e, record r { writer = w })
  reply_to c r (none, w) = (
    acknowledged (c.offset + length c.contents),
    record r { writer = w; received_bytes = r.received_bytes + length c.contents },
  )

  -- One round of TransferVolume.
  unfoldable pub receive_chunk : Receiver → VolumeChunk → Reply × Receiver
  unfolding reply_to
  receive_chunk r c =
      let r' = first_chunk r c in reply_to c r' (write_chunk checksum accept r'.writer (to_chunk c))

-- The text of a WriteChunk error.
unfoldable pub error_text : WriteError → String
error_text (offset_mismatch expected got) =
    str_append "chunk offset mismatch: expected "
      (str_append (decimal expected) (str_append ", got " (decimal got)))
error_text (checksum_mismatch offset expected actual) =
    str_append "chunk checksum mismatch at offset " (
      str_append (decimal offset)
        (str_append ": expected " (str_append expected (str_append ", got " actual))))
error_text (failed_write offset e) =
    str_append "failed to write chunk at offset " (str_append (decimal offset) (str_append ": " e))
error_text (incomplete_write offset n size) = str_append "incomplete write at offset " (
    str_append (decimal offset) (
      str_append ": wrote "
        (str_append (decimal n) (str_append " of " (str_append (decimal size) " bytes")))))

abbrev pub to_message : String → ℕ → Chunk → VolumeChunk
to_message volume_id total_size c = record {
  volume_id = volume_id;
  offset = c.offset;
  contents = c.contents;
  checksum = c.checksum;
  total_size = total_size;
  is_final = c.is_final;
}

pub data SendResult : Type 0 where
  sent : SendResult
  read_failed : String → SendResult
  chunk_refused : WriteError → SendResult
  not_created : TransferError → SendResult
  out_of_fuel : SendResult

-- Both sides and the sender's manager.
pub record Session : Type 0 where
  pub source : ChunkReader
  pub receiver : Receiver
  pub manager : TransferManager

module _ (checksum : List ℕ → String) (accept : Accept) (can_save : Bool) (clock : ℕ → ℕ) where
  module _ (id volume_id : String) (total_size : ℕ) where
    -- The session after a chunk that was acknowledged: SendVolume adds its checkpoint.
    abbrev pub checkpointed : Chunk → ChunkReader → Receiver → TransferManager → Session
    checkpointed c source receiver tm = record {
      source = source;
      receiver = receiver;
      manager = (add_checkpoint tm id (c.offset + c.size) c.checksum can_save (clock c.offset)).1;
    }

    unfoldable pub after_reply :
        Chunk
        → ChunkReader
        → TransferManager
        → (Session → SendResult × Session)
        → Reply × Receiver
        → SendResult × Session
    after_reply c source tm continue (rejected e, r) =
        (chunk_refused e, record { source = source; receiver = r; manager = tm })
    after_reply c source tm continue (acknowledged n, r) = elim c.is_final [
      | true ↦ (sent, checkpointed c source r tm)
      | false ↦ continue (checkpointed c source r tm)
    ]

    unfoldable pub after_read :
        Session → (Session → SendResult × Session) → ReadResult × ChunkReader → SendResult × Session
    after_read s continue (end_of_file, source) = (sent, record s { source = source })
    after_read s continue (failed_read e, source) = (read_failed e, record s { source = source })
    after_read s continue (chunk c, source) =
        after_reply c source s.manager continue
          (receive_chunk checksum accept s.receiver (to_message volume_id total_size c))

    -- The loop of SendVolume, with fuel.
    unfoldable pub send_loop : ℕ → Session → SendResult × Session
    send_loop zero s = (out_of_fuel, s)
    send_loop (suc fuel) s = after_read s (send_loop fuel) (read_chunk checksum s.source)

  -- The end of SendVolume: the transfer completes or fails.
  unfoldable pub finish : String → ℕ → SendResult × Session → SendResult × Session
  finish id now (sent, s) =
      (sent, record s { manager = (complete_transfer s.manager id can_save now).1 })
  finish id now (read_failed e, s) = (
    read_failed e,
    record s {
      manager = (fail_transfer s.manager id (str_append "failed to read chunk: " e) can_save now).1;
    },
  )
  finish id now (chunk_refused e, s) = (
    chunk_refused e,
    record s {
      manager =
          (fail_transfer s.manager id (str_append "chunk transfer failed: " (error_text e)) can_save
            now).1;
    },
  )
  finish id now (e, s) = (e, s)

  abbrev activated : Transfer → TransferManager → TransferManager
  activated t tm = record tm {
    active_transfers = insert t.id (record t { status = active }) tm.active_transfers;
  }

  abbrev start_loop :
      ℕ → String → Reader → ℕ → ℕ → CreateResult × TransferManager → SendResult × Session
  start_loop fuel volume_id reader total now (refused e, tm) = (
    not_created e,
    record { source = new_chunk_reader reader 0 total; receiver = new_receiver; manager = tm },
  )
  start_loop fuel volume_id reader total now (created t, tm) = finish t.id now (
      send_loop t.id volume_id total fuel (record {
        source = new_chunk_reader reader (dynamic_chunk_size t) total;
        receiver = new_receiver;
        manager = activated t tm;
      }))

  unfoldable pub send_volume :
      (String → String)
      → ℕ
      → TransferManager
      → String
      → Reader
      → ℕ
      → Bool
      → ℕ
      → SendResult × Session
  send_volume digest fuel tm volume_id reader total readable now =
      start_loop fuel volume_id reader total now
        (create_transfer digest tm volume volume_id "peer" total readable now)
