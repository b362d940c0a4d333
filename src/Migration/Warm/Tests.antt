-- ===== src/Migration/Warm/Tests.antt =====
-- internal/migration/strategy.go: warm migrations of a concrete job.
use dockation.Prelude.{String, ◌≡◌, refl, Bool, true, false, Option, none, some, [], ◌∷◌}
use dockation.Migration.Rollback.{ResourceRef}
use dockation.Migration.Job.{move, MigrationJob, MigrationStrategy, MigrationStatus}
use dockation.Migration.Warm.{reports, syncs, deltas, pauses, WarmMigrators, for_each, execute_warm}
use dockation.Migration.Warm.Order.{everything, warm_all}

abbrev web : ResourceRef
web = record { resource_type = "container"; id = "c1"; name = "web" }

abbrev www : ResourceRef
www = record { resource_type = "volume"; id = "v1"; name = "www" }

abbrev job : MigrationJob
job = record {
  id = "job-1";
  peer_id = "peer";
  mode = move;
  strategy = MigrationStrategy.warm;
  resources = web ∷ www ∷ [];
  status = MigrationStatus.pending;
  errors = [];
  start_time = 0;
  end_time = none;
  can_pause = false;
  can_resume = false;
  current_phase = "";
  cancelled = false;
  pause_closed = false;
  resume_closed = false;
}

-- The second sync fails.
abbrev failing_sync : String → Bool → Option String
failing_sync name false = none
failing_sync name true = some "no space"

abbrev failing : WarmMigrators
failing = record { warm_sync = failing_sync; container = λ r. none }

failing_run : execute_warm failing job ≡ (
  some "delta sync failed for volume www: no space",
  reports 1 "Initial warm sync (containers running)"
      ∷ syncs "www"
      ∷ reports 2 "Pausing source containers"
      ∷ pauses "web"
      ∷ reports 3 "Delta sync (final changes)"
      ∷ deltas "www"
      ∷ [],
)
unfolding execute_warm for_each
failing_run = refl

abbrev working : WarmMigrators
working = record { warm_sync = λ name delta. none; container = λ r. none }

warm_all_example : execute_warm working job ≡ (none, everything move job.resources)
warm_all_example = warm_all working job ((refl, tt), (refl, tt), (refl, tt))
