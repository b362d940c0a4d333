-- ===== src/Peer/Transfer.antt =====
-- internal/peer/transfer.go: TransferManager, its transfers and their checkpoints on disk.
-- Each method holds the manager's lock. The directory of checkpoint files is a map from transfer IDs
-- to saved transfers; `can_save` says whether writing and renaming the file succeed, and `readable`
-- whether a file that is there can be read and decoded. The hash in a transfer ID is the argument
-- `digest`. `Transfer.Speed`, a float that is only shown, is left out.
pub mod ChunkSize
pub mod Progress
pub mod Resume
use Prim.Native.String.{◌++◌ as str_append}
use dockation.Prelude.{
  ℕ, zero, suc, ◌+◌, ◌-◌, ◌*◌, ◌/◌, ◌%◌, String, Bool, true, false, not, ◌&&◌, Option, none, some,
  List, [], ◌∷◌, ◌++◌, ltb, leb, ◌==◌, if◌then◌else◌, length, drop, is_some,
}
use dockation.Prelude.Decimal.{decimal}
use dockation.Prelude.Dict.{Dict, lookup, insert, delete, values}
use dockation.Peer.Chunks.{min_chunk_size, default_chunk_size, max_chunk_size}

pub data TransferType : Type 0 where
  volume image container network : TransferType

unfoldable pub type_string : TransferType → String
type_string volume = "volume"
type_string image = "image"
type_string container = "container"
type_string network = "network"

pub data TransferStatus : Type 0 where
  pending active paused completed failed : TransferStatus

unfoldable pub status_string : TransferStatus → String
status_string pending = "pending"
status_string active = "active"
status_string paused = "paused"
status_string completed = "completed"
status_string failed = "failed"

abbrev pub stable_chunk_count : ℕ
stable_chunk_count = 10

abbrev pub checkpoint_batch_size : ℕ
checkpoint_batch_size = 100

-- time.Second, in nanoseconds.
abbrev pub second : ℕ
second = 1000000000

pub record Checkpoint : Type 0 where
  pub offset : ℕ
  pub checksum : String
  pub timestamp : ℕ
  pub verified : Bool

-- What the JSON of a transfer holds: the exported fields.
pub record Transfer : Type 0 where
  pub id : String
  pub transfer_type : TransferType
  pub source_id : String
  pub dest_peer : String
  pub total_bytes : ℕ
  pub transferred_bytes : ℕ
  pub chunk_size : ℕ
  pub start_time : ℕ
  pub last_chunk_time : ℕ
  pub last_checkpoint : ℕ
  pub checkpoints : List Checkpoint
  pub status : TransferStatus
  pub error : String

-- The manager: the transfers, the files, and the IDs whose context has been cancelled.
pub record TransferManager : Type 0 where
  pub active_transfers : Dict Transfer
  pub files : Dict Transfer
  pub cancelled : Dict Bool

unfoldable pub new_transfer_manager : Dict Transfer → TransferManager
new_transfer_manager files = record { active_transfers = []; files = files; cancelled = [] }

unfoldable pub generate_transfer_id : (String → String) → TransferType → String → ℕ → String
generate_transfer_id digest transfer_type source_id now = str_append "transfer-" (
    digest (
      str_append (type_string transfer_type)
        (str_append "-" (str_append source_id (str_append "-" (decimal now))))))

unfoldable pub new_transfer : String → TransferType → String → String → ℕ → ℕ → Transfer
new_transfer id transfer_type source_id dest_peer total_bytes now = record {
  id = id;
  transfer_type = transfer_type;
  source_id = source_id;
  dest_peer = dest_peer;
  total_bytes = total_bytes;
  transferred_bytes = 0;
  chunk_size = default_chunk_size;
  start_time = now;
  last_chunk_time = now;
  last_checkpoint = now;
  checkpoints = [];
  status = pending;
  error = "";
}

-- What resumeTransfer makes of the checkpoint file, if there is one.
abbrev pub restored : Bool → Option Transfer → Transfer → Transfer
restored readable none t = t
restored true (some saved) t = saved
restored false (some saved) t = record t { transferred_bytes = 0; checkpoints = [] }

unfoldable pub resume_transfer : TransferManager → Transfer → Bool → ℕ → Transfer × TransferManager
resume_transfer tm t readable now =
    let resumed = record (restored readable (lookup t.id tm.files) t) {
      status = pending;
      last_chunk_time = now;
    } in
    (
      resumed,
      record tm {
        active_transfers = insert t.id resumed tm.active_transfers;
        cancelled = delete t.id tm.cancelled;
      },
    )

pub data TransferError : Type 0 where
  already_active : TransferError
  transfer_not_found : String → TransferError

pub data CreateResult : Type 0 where
  created : Transfer → CreateResult
  refused : TransferError → CreateResult

abbrev create_existing :
    TransferManager → Transfer → TransferStatus → Bool → ℕ → CreateResult × TransferManager
create_existing tm t active readable now = (refused already_active, tm)
create_existing tm t completed readable now = (created t, tm)
create_existing tm t _ readable now =
    let (resumed, tm') = resume_transfer tm t readable now in (created resumed, tm')

module _ (digest : String → String) where
  unfoldable pub create_transfer :
      TransferManager
      → TransferType
      → String
      → String
      → ℕ
      → Bool
      → ℕ
      → CreateResult × TransferManager
  unfolding new_transfer
  create_transfer tm transfer_type source_id dest_peer total_bytes readable now =
      let id = generate_transfer_id digest transfer_type source_id now in
      elim (lookup id tm.active_transfers) [
        | some t ↦ create_existing tm t t.status readable now
        | none ↦
            let t = new_transfer id transfer_type source_id dest_peer total_bytes now in
            (created t, record tm { active_transfers = insert id t tm.active_transfers })
      ]

-- for i := 1; i < len(recent); i++: whether each checkpoint follows within two seconds.
unfoldable pub is_stable : List Checkpoint → Bool
is_stable [] = true
is_stable (a ∷ []) = true
is_stable (a ∷ b ∷ cs) =
    let rest = is_stable (b ∷ cs) in
    if ltb (a.timestamp + 2 * second) b.timestamp then false else rest

unfoldable pub dynamic_chunk_size : Transfer → ℕ
dynamic_chunk_size t =
    let n = length t.checkpoints in
    let recent =
      if ltb stable_chunk_count n
      then drop (n - stable_chunk_count) t.checkpoints
      else t.checkpoints in
    let stable = is_stable recent in
    if ltb n stable_chunk_count
    then default_chunk_size
    else if stable && ltb t.chunk_size max_chunk_size
    then (if ltb max_chunk_size (t.chunk_size * 2) then max_chunk_size else t.chunk_size * 2)
    else if not stable && ltb min_chunk_size t.chunk_size
    then (if ltb (t.chunk_size / 2) min_chunk_size then min_chunk_size else t.chunk_size / 2)
    else t.chunk_size

-- saveCheckpoint: the file is written as a whole or not at all.
unfoldable pub save_checkpoint : TransferManager → Transfer → Bool → ℕ → Transfer × TransferManager
save_checkpoint tm t can_save now =
    if can_save
    then (record t { last_checkpoint = now }, record tm { files = insert t.id t tm.files })
    else (t, tm)

abbrev pub store : String → Transfer × TransferManager → TransferManager
store id (t, tm) = record tm { active_transfers = insert id t tm.active_transfers }

abbrev pub with_checkpoint : ℕ → String → ℕ → Transfer → Transfer
with_checkpoint offset checksum now t = record t {
  checkpoints =
      t.checkpoints
      ++ record { offset = offset; checksum = checksum; timestamp = now; verified = true } ∷ [];
  transferred_bytes = offset;
  last_chunk_time = now;
}

-- A method on the transfer under an ID; an error where there is none.
abbrev pub on_transfer :
    String → TransferManager → (Transfer → TransferManager) → Option TransferError × TransferManager
on_transfer id tm f = elim (lookup id tm.active_transfers) [
  | some t ↦ (none, f t)
  | none ↦ (some (transfer_not_found id), tm)
]

unfoldable pub add_checkpoint :
    TransferManager → String → ℕ → String → Bool → ℕ → Option TransferError × TransferManager
unfolding save_checkpoint
add_checkpoint tm id offset checksum can_save now = on_transfer id tm λ t.
    let t' = with_checkpoint offset checksum now t in
    if length t'.checkpoints % checkpoint_batch_size == 0
    then store id (save_checkpoint tm t' can_save now)
    else store id (t', tm)

unfoldable pub complete_transfer :
    TransferManager → String → Bool → ℕ → Option TransferError × TransferManager
unfolding save_checkpoint
complete_transfer tm id can_save now = on_transfer id tm λ t.
    let tm' = store id (save_checkpoint tm (record t { status = completed }) can_save now) in
    record tm' { files = delete id tm'.files }

unfoldable pub fail_transfer :
    TransferManager → String → String → Bool → ℕ → Option TransferError × TransferManager
unfolding save_checkpoint
fail_transfer tm id error can_save now =
    on_transfer id tm
      λ t. store id (save_checkpoint tm (record t { status = failed; error = error }) can_save now)

unfoldable pub cancel_transfer :
    TransferManager → String → Bool → ℕ → Option TransferError × TransferManager
unfolding save_checkpoint
cancel_transfer tm id can_save now = on_transfer id tm λ t.
    let tm' = record tm { cancelled = insert id true tm.cancelled } in
    store id (save_checkpoint tm' (record t { status = paused }) can_save now)

unfoldable pub get_transfer : TransferManager → String → Option Transfer
get_transfer tm id = lookup id tm.active_transfers

unfoldable pub list_active_transfers : TransferManager → List Transfer
list_active_transfers tm = values tm.active_transfers
