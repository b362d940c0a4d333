-- ===== src/Migration/Cold/Tests.antt =====
-- internal/migration/strategy.go: cold migrations of a concrete job.
use dockation.Prelude.{◌≡◌, refl, none, some, [], ◌∷◌}
use dockation.Migration.Rollback.{ResourceRef}
use dockation.Migration.Cold.{
  Migrators, and_then, count, total_steps, report_step, call, migrate_all, each_container,
  transfer_all, execute_migration,
}
use dockation.Prelude.{false}
use dockation.Migration.Job.{MigrationStrategy, MigrationStatus, move, MigrationJob}
use dockation.Migration.Cold.Advances.{steps_of}
use dockation.Migration.Cold.Steps.{AllSucceed, cold_steps}

abbrev web : ResourceRef
web = record { resource_type = "container"; id = "c1"; name = "web" }

abbrev nginx : ResourceRef
nginx = record { resource_type = "image"; id = "i1"; name = "nginx" }

abbrev www : ResourceRef
www = record { resource_type = "volume"; id = "v1"; name = "www" }

abbrev job : MigrationJob
job = record {
  id = "job-1";
  peer_id = "peer";
  mode = move;
  strategy = MigrationStrategy.cold;
  resources = web ∷ nginx ∷ www ∷ [];
  status = MigrationStatus.pending;
  errors = [];
  start_time = 0;
  end_time = none;
  can_pause = false;
  can_resume = false;
  current_phase = "";
  cancelled = false;
  pause_closed = false;
  resume_closed = false;
}

abbrev working : Migrators
working = record {
  image = λ r. none;
  volume = λ r. none;
  network = λ r. none;
  container = λ r. none;
}

-- Only volumes fail.
abbrev failing : Migrators
failing = record working { volume = λ r. some "no space" }

working-AllSucceed : AllSucceed working job.resources
unfolding AllSucceed
working-AllSucceed = (
  (λ e. refl, (λ e. refl, (λ e. refl, tt))),
  (λ e. refl, (λ e. refl, (λ e. refl, tt))),
  (λ e. refl, (λ e. refl, (λ e. refl, tt))),
  (λ e. refl, (λ e. refl, (λ e. refl, tt))),
)

failing_run : (execute_migration failing job).0 ≡ some "failed to migrate volume www: no space"
unfolding execute_migration transfer_all migrate_all call report_step and_then each_container
failing_run = refl

failing_steps : steps_of (execute_migration failing job).2 ≡ 1 ∷ 2 ∷ 3 ∷ []
unfolding execute_migration transfer_all migrate_all call report_step and_then each_container
    steps_of
failing_steps = refl

cold_steps_example :
    ((execute_migration working job).0 ≡ none)
    × (steps_of (execute_migration working job).2 ≡ 1 ∷ 2 ∷ 3 ∷ 4 ∷ 5 ∷ 5 ∷ [])
unfolding total_steps count
cold_steps_example = cold_steps working job working-AllSucceed
