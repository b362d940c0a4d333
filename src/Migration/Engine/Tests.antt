-- ===== src/Migration/Engine/Tests.antt =====
-- internal/migration/engine.go: a job of the warm strategy, with and without calls in between.
use dockation.Prelude.{
  String, Bool, Option, ◌≡◌, refl, ◌⊎◌, ◌↔◌, true, false, none, some, List, [], ◌∷◌, ◌++◌,
}
use dockation.Migration.Rollback.{ResourceRef, new_rollback_manager}
use dockation.Migration.Job.{
  MigrationMode, MigrationStrategy, MigrationStatus, running, complete, rolling_back, MigrationJob,
}
use dockation.Migration.Warm.{execute_strategy}
use dockation.Migration.Engine.{
  Engine, new_engine, executes, Task, World, error_in, execute_stage, fail_job,
}
use dockation.Migration.Cold as Cold
use dockation.Migration.Engine.Lifecycle.{run_migration, run_migration_lem, IsKnown, prepared}
use dockation.Migration.Engine.Interrupt.{
  Call, pauses, resumes, cancels, calls, outcome, pauses_ignored,
}

abbrev www : ResourceRef
www = record { resource_type = "volume"; id = "v1"; name = "www" }

abbrev job : MigrationJob
job = record {
  id = "job-1";
  peer_id = "peer";
  mode = MigrationMode.move;
  strategy = MigrationStrategy.warm;
  resources = www ∷ [];
  status = MigrationStatus.pending;
  errors = [];
  start_time = 0;
  end_time = none;
  can_pause = true;
  can_resume = true;
  current_phase = "";
  cancelled = false;
  pause_closed = false;
  resume_closed = false;
}

-- The image migrator and the volume migrator look at the context before each layer or chunk.
abbrev when_done : Bool → Option String
when_done true = some "migration cancelled: context canceled"
when_done false = none

abbrev world : World
world = record {
  buffered = λ n. n;
  cold_migrators = λ done. record {
    image = λ r. when_done done;
    volume = λ r. when_done done;
    network = λ r. none;
    container = λ r. none;
  };
  warm_migrators =
      λ done. record { warm_sync = λ name delta. some "no route"; container = λ r. none };
  now = 7;
}

run_migration_lem_example :
    (final : MigrationJob) × (run_migration world new_engine job 3 ≡ (some final, []))
    × ((final.status ≡ complete) ↔ (
        IsKnown job.strategy
        × (execute_strategy world.cold_migrators world.warm_migrators (prepared 3 job) ≡ none)))
    × (((final.status ≡ complete) × (final.errors ≡ job.errors))
        ⊎ ((final.status ≡ rolling_back)
            × ((message : String) × (final.errors
                  ≡ job.errors ++ error_in "execution" message world.now ∷ []))))
run_migration_lem_example = run_migration_lem world new_engine job 3 refl

-- A job in the middle of its execution.
abbrev in_execution : MigrationJob
in_execution = record job { status = running; current_phase = "execution"; start_time = 3 }

abbrev engine : Engine
engine = record {
  store = in_execution ∷ [];
  jobs = ("job-1", 0) ∷ [];
  rollback_manager = new_rollback_manager;
}

abbrev task : Task
task = record { place = 0; stage = executes }

abbrev interruptions : List Call
interruptions = pauses "job-1" ∷ cancels "job-2" ∷ resumes "job-1" ∷ cancels "job-1" ∷ []

pauses_ignored_example :
    outcome world task (calls interruptions engine)
    ≡ outcome world task (calls (cancels "job-2" ∷ cancels "job-1" ∷ []) engine)
pauses_ignored_example = pauses_ignored world task engine interruptions refl

-- A cold migration that is cancelled before its volume is sent fails.
cancelled_cold :
    (execute_stage new_rollback_manager world.cold_migrators world.warm_migrators 7
      (record in_execution { strategy = MigrationStrategy.cold; cancelled = true })).1.status
    ≡ rolling_back
unfolding execute_stage execute_strategy fail_job Cold.execute_migration Cold.and_then
    Cold.transfer_all Cold.report_step Cold.migrate_all Cold.call
cancelled_cold = refl
