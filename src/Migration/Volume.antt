-- ===== src/Migration/Volume.antt =====
-- internal/migration/volume.go: the chunks and the checkpoint of a volume's migration.
-- The code sends no data yet: each chunk is a buffer of zeros, whose SHA-256 is the argument `checksum`,
-- and its first attempt never fails, so that the loop of retries has one round. `done` says before which
-- chunks the context is done. The time of the last update is left out. A run is its error, the checkpoint
-- at its end, which coldMigrate drops, and the numbers of its reports.
pub mod Resume
mod Tests
use Prim.Native.String.{◌++◌ as str_append}
use dockation.Prelude.{
  ℕ, zero, suc, ◌+◌, ◌-◌, ◌*◌, ◌/◌, ◌%◌, ◌==◌, String, Bool, true, false, Option, none, some, List,
  [], ◌∷◌, if◌then◌else◌,
}
use dockation.Migration.Job.{MigrationStrategy, cold, warm, snapshot, unknown}

abbrev pub chunk_size : ℕ
chunk_size = 4 * 1024 * 1024

pub record VolumeCheckpoint : Type 0 where
  pub volume_name : String
  pub chunks_completed : ℕ
  pub total_chunks : ℕ
  pub bytes_transferred : ℕ
  pub chunk_checksums : List (ℕ × String)
  pub final_checksum : String

-- A report: CurrentNumber, TotalItems, BytesDone and BytesTotal.
pub record Report : Type 0 where
  pub current_number : ℕ
  pub total_items : ℕ
  pub bytes_done : ℕ
  pub bytes_total : ℕ

abbrev pub Run : Type 0
Run = Option String × VolumeCheckpoint × List Report

-- An assignment to a Go map.
abbrev pub put : ℕ → String → List (ℕ × String) → List (ℕ × String)
put i s [] = (i, s) ∷ []
put i s ((j, t) ∷ ps) = if i == j then (i, s) ∷ ps else (j, t) ∷ put i s ps

unfoldable pub transfer_chunk : String → ℕ → VolumeCheckpoint → VolumeCheckpoint
transfer_chunk checksum i cp = record cp {
  chunk_checksums = put i checksum cp.chunk_checksums;
  chunks_completed = i + 1;
  bytes_transferred = cp.bytes_transferred + chunk_size;
}

abbrev pub report_of : ℕ → VolumeCheckpoint → Report
report_of i cp = record {
  current_number = i + 1;
  total_items = cp.total_chunks;
  bytes_done = cp.bytes_transferred;
  bytes_total = cp.total_chunks * chunk_size;
}

abbrev pub reports : Report → Run → Run
reports r (error, cp, rs) = (error, cp, r ∷ rs)

abbrev pub cancelled : String
cancelled = "migration cancelled: context canceled"

-- The loop over the chunks, from the i-th on, for n of them.
unfoldable pub transfer_chunks : String → (ℕ → Bool) → ℕ → ℕ → VolumeCheckpoint → Run
transfer_chunks checksum done zero i cp = (none, cp, [])
transfer_chunks checksum done (suc n) i cp =
    let cp' = transfer_chunk checksum i cp in
    let rest = transfer_chunks checksum done n (suc i) cp' in
    if done i then (some cancelled, cp, []) else reports (report_of i cp') rest

abbrev pub verify_volume : VolumeCheckpoint → VolumeCheckpoint
verify_volume cp = record cp { final_checksum = "sha256:final_checksum_placeholder" }

abbrev pub verified : Run → Run
verified (none, cp, rs) = (none, verify_volume cp, rs)
verified (some e, cp, rs) = (some e, cp, rs)

abbrev pub volume_size : ℕ
volume_size = 100 * 1024 * 1024

abbrev pub chunk_count : ℕ → ℕ
chunk_count size = if size % chunk_size == 0 then size / chunk_size else size / chunk_size + 1

abbrev pub first_checkpoint : String → ℕ → VolumeCheckpoint
first_checkpoint name total = record {
  volume_name = name;
  chunks_completed = 0;
  total_chunks = total;
  bytes_transferred = 0;
  chunk_checksums = [];
  final_checksum = "";
}

unfoldable pub cold_migrate : String → (ℕ → Bool) → String → Run
cold_migrate checksum done name =
    let total = chunk_count volume_size in
    verified (transfer_chunks checksum done total 0 (first_checkpoint name total))

unfoldable pub resume_transfer : String → (ℕ → Bool) → VolumeCheckpoint → Run
resume_transfer checksum done cp =
    verified
      (transfer_chunks checksum done (cp.total_chunks - cp.chunks_completed) cp.chunks_completed cp)

-- warmSync only logs.
abbrev pub warm_sync : String → Bool → Option String
warm_sync name delta = none

abbrev pub warm_migrate : String → Option String
warm_migrate name = elim (warm_sync name false) [
  | some e ↦ some (str_append "initial warm sync failed: " e)
  | none ↦ elim (warm_sync name true) [
    | some e ↦ some (str_append "delta sync failed: " e)
    | none ↦ none
  ]
]

-- MigrateVolume's error.
unfoldable pub migrate_volume : String → (ℕ → Bool) → MigrationStrategy → String → Option String
migrate_volume checksum done cold name = (cold_migrate checksum done name).0
migrate_volume checksum done warm name = warm_migrate name
migrate_volume checksum done snapshot name = some "unsupported volume migration strategy: snapshot"
migrate_volume checksum done (unknown s) name =
    some (str_append "unsupported volume migration strategy: " s)
