-- ===== src/Migration/Volume/Tests.antt =====
-- internal/migration/volume.go: a volume of 25 chunks.
use dockation.Prelude.{ℕ, ◌==◌, ◌*◌, ◌≡◌, refl, Bool, some, List, [], ◌∷◌}
use dockation.Migration.Volume.{
  VolumeCheckpoint, Report, cold_migrate, resume_transfer, transfer_chunks, transfer_chunk,
  chunk_size,
}
use dockation.Migration.Volume.Resume.{never, after, resume_transfer_lem}

whole : (cold_migrate "sum" never "www").1.bytes_transferred ≡ 25 * chunk_size
unfolding cold_migrate transfer_chunks transfer_chunk
whole = refl

-- The context is done before the third chunk.
abbrev third : ℕ → Bool
third i = i == 2

abbrev stopped : VolumeCheckpoint
stopped = record {
  volume_name = "www";
  chunks_completed = 2;
  total_chunks = 25;
  bytes_transferred = 2 * chunk_size;
  chunk_checksums = (0, "sum") ∷ (1, "sum") ∷ [];
  final_checksum = "";
}

abbrev reported : List Report
reported =
    record {
      current_number = 1;
      total_items = 25;
      bytes_done = chunk_size;
      bytes_total = 25 * chunk_size;
    }
    ∷ record {
      current_number = 2;
      total_items = 25;
      bytes_done = 2 * chunk_size;
      bytes_total = 25 * chunk_size;
    }
    ∷ []

stops_at_third :
    cold_migrate "sum" third "www"
    ≡ (some "migration cancelled: context canceled", stopped, reported)
unfolding cold_migrate transfer_chunks transfer_chunk
stops_at_third = refl

resume_transfer_lem_example :
    after reported (resume_transfer "sum" never stopped) ≡ cold_migrate "sum" never "www"
resume_transfer_lem_example =
    resume_transfer_lem "sum" third "www" "migration cancelled: context canceled" stopped reported
      stops_at_third
