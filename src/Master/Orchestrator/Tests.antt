-- ===== src/Master/Orchestrator/Tests.antt =====
-- internal/master/orchestrator.go: the theorems at a concrete migration.
use dockation.Prelude.{ℕ, ◌≡◌, refl, true, some, List, [], ◌∷◌, inl}
use dockation.Prelude.Dict.{lookup}
use dockation.Proto.{
  MigrationMode, MigrationStrategy, TransferMode, MigrationPhase, MigrationComplete,
  MigrationProgress,
}
use dockation.Master.Registry.{Sender}
use dockation.Master.Registry.Tests.{two_workers, first, second}
use dockation.Master.Orchestrator.{
  MigrationJob, MigrationRequest, MigrationJobStatus, Orchestrator, Task, begins, pending, running,
  completed, start_migration, execute_migration, get_migration, cancel_migration,
}
use dockation.Master.Orchestrator.Start.{StartCase, start_migration_lem}
use dockation.Master.Orchestrator.Dispatch.{Dispatched, execute_migration_lem}
use dockation.Master.Orchestrator.Lifecycle.{CancelCase, cancel_migration_lem}
use dockation.Master.Orchestrator.Finished.{Op, cancels, progresses, run, SameEnd, finished_stays}

abbrev request : MigrationRequest
request = record {
  source_worker_id = "worker-1";
  target_worker_id = "worker-2";
  container_ids = "web" ∷ [];
  image_ids = [];
  volume_names = "data" ∷ [];
  network_ids = [];
  mode = MigrationMode.cold;
  strategy = MigrationStrategy.full;
  transfer_mode = TransferMode.proxy;
}

abbrev job : MigrationJobStatus → MigrationJob
job status = record {
  id = "mig-8";
  source_worker_id = "worker-1";
  target_worker_id = "worker-2";
  container_ids = "web" ∷ [];
  image_ids = [];
  volume_names = "data" ∷ [];
  network_ids = [];
  mode = MigrationMode.cold;
  strategy = MigrationStrategy.full;
  transfer_mode = TransferMode.proxy;
  status = status;
  phase = MigrationPhase.initializing;
  progress = 0;
  bytes_transferred = 0;
  total_bytes = 0;
  started_at = 8;
  completed_at = 0;
  error = "";
}

abbrev one_job : MigrationJobStatus → Orchestrator
one_job status = record { grpc_addr = "master:9090"; migrations = ("mig-8", job status) ∷ [] }

stored : (s : MigrationJobStatus) → get_migration (one_job s) "mig-8" ≡ some (job s)
unfolding get_migration lookup
stored s = refl

abbrev task : Task
task = record { job_id = "mig-8"; source = first; target = second; stage = begins }

-- The first worker's stream is broken.
abbrev broken : Sender
broken s c = some "EOF"

abbrev success : MigrationComplete
success = record {
  migration_id = "mig-8";
  success = true;
  error = "";
  duration_ms = 5;
  bytes_transferred = 10;
  resources_migrated = [];
}

abbrev progress : MigrationProgress
progress = record {
  migration_id = "mig-8";
  phase = MigrationPhase.finalizing;
  progress = 90;
  bytes_transferred = 9;
  total_bytes = 10;
  current_resource = "data";
  message = "";
}

abbrev late_calls : List (ℕ × Op)
late_calls = (20, progresses "mig-8" progress) ∷ (21, cancels "mig-8" "late") ∷ []

start_migration_lem_example :
    StartCase
      (one_job running)
      two_workers
      request
      110
      (start_migration (one_job running) two_workers request 110)
start_migration_lem_example = start_migration_lem (one_job running) two_workers request 110

execute_migration_lem_example :
    Dispatched broken two_workers 9
      (one_job pending)
      task
      (job pending)
      (execute_migration broken two_workers 9 task (one_job pending))
execute_migration_lem_example =
    execute_migration_lem broken two_workers 9 (one_job pending) task (job pending) (stored pending)
      refl

cancel_migration_lem_example :
    CancelCase broken two_workers
      (one_job running)
      "mig-8"
      "stop"
      9
      (cancel_migration broken two_workers (one_job running) "mig-8" "stop" 9)
cancel_migration_lem_example =
    cancel_migration_lem broken two_workers (one_job running) "mig-8" "stop" 9

finished_stays_example :
    (job' : MigrationJob) × (get_migration
        (run broken two_workers (one_job completed) late_calls)
        "mig-8"
      ≡ some job')
    × SameEnd job' (job completed)
finished_stays_example =
    finished_stays broken two_workers (one_job completed) "mig-8" (job completed) late_calls
      (stored completed) (inl refl) (tt, (tt, tt))
