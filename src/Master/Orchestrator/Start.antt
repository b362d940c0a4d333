-- ===== src/Master/Orchestrator/Start.antt =====
-- internal/master/orchestrator.go, StartMigration: what each outcome rests on.
use dockation.Prelude.{
  ℕ, String, ◌≡◌, refl, ◌≢◌, true, false, none, some, ◌⊎◌, inl, inr, Bool-cases, Option-cases,
}
use dockation.Prelude.Decimal.{tagged}
use dockation.Proto.{MigrationPhase}
use dockation.Prelude.Dict.{lookup-insert_self, lookup-insert_ne}
use dockation.Master.Registry.{WorkerInfo, Registry, get, is_online}
use dockation.Master.Orchestrator.{
  MigrationRequest, MigrationJob, pending, Orchestrator, StartError, source_not_found,
  source_offline, target_not_found, target_offline, Task, begins, StartResult, started, refused,
  new_job, generate_migration_id, start_migration, checked, get_migration,
}

abbrev pub IsReady : Registry → ℕ → String → WorkerInfo → Type 0
IsReady r now id w = (get r id ≡ some w) × (is_online r id now ≡ true)

-- Why one worker is refused, and the error that says so.
pub data Unready (r : Registry) (now : ℕ) (id : String) (missing offline : StartError)
    (e : StartError) : Type 0 where
  unknown : get r id ≡ none → e ≡ missing → Unready r now id missing offline e
  silent :
      (w : WorkerInfo)
      → get r id ≡ some w
      → is_online r id now ≡ false
      → e ≡ offline
      → Unready r now id missing offline e

-- What a new migration is: pending, with the data of the request, and nothing done yet.
pub record IsNewJob (req : MigrationRequest) (now : ℕ) (job : MigrationJob) : Type 0 where
  pub named : job.id ≡ tagged "mig-" now
  pub source : job.source_worker_id ≡ req.source_worker_id
  pub target : job.target_worker_id ≡ req.target_worker_id
  pub containers : job.container_ids ≡ req.container_ids
  pub images : job.image_ids ≡ req.image_ids
  pub volumes : job.volume_names ≡ req.volume_names
  pub networks : job.network_ids ≡ req.network_ids
  pub how :
      (job.mode ≡ req.mode)
      × (job.strategy ≡ req.strategy)
      × (job.transfer_mode ≡ req.transfer_mode)
  pub waits : (job.status ≡ pending) × (job.phase ≡ MigrationPhase.initializing)
  pub counts : (job.progress ≡ 0) × (job.bytes_transferred ≡ 0) × (job.total_bytes ≡ 0)
  pub times : (job.started_at ≡ now) × (job.completed_at ≡ 0)
  pub no_error : job.error ≡ ""

-- The new state after a start that succeeds.
pub record Accepted (o : Orchestrator) (job : MigrationJob) (o' : Orchestrator) : Type 0 where
  pub stored : get_migration o' job.id ≡ some job
  pub others : (id : String) → id ≢ job.id → get_migration o' id ≡ get_migration o id
  pub address : o'.grpc_addr ≡ o.grpc_addr

-- The goroutine is at its beginning.
pub record IsTaskOf (job : MigrationJob) (source target : WorkerInfo) (task : Task) : Type 0 where
  pub runs : task.job_id ≡ job.id
  pub from_source : task.source ≡ source
  pub to_target : task.target ≡ target
  pub unstarted : task.stage ≡ begins

pub data StartCase (o : Orchestrator) (r : Registry) (req : MigrationRequest) (now : ℕ)
    (out : StartResult × Orchestrator) : Type 0 where
  bad_source :
      (e : StartError)
      → Unready r now req.source_worker_id
          (source_not_found req.source_worker_id)
          (source_offline req.source_worker_id)
          e
      → out ≡ (refused e, o)
      → StartCase o r req now out
  bad_target :
      (source : WorkerInfo) (e : StartError)
      → IsReady r now req.source_worker_id source
      → Unready r now req.target_worker_id
          (target_not_found req.target_worker_id)
          (target_offline req.target_worker_id)
          e
      → out ≡ (refused e, o)
      → StartCase o r req now out
  accepted :
      (job : MigrationJob) (task : Task) (source target : WorkerInfo)
      → IsReady r now req.source_worker_id source
      → IsReady r now req.target_worker_id target
      → IsNewJob req now job
      → out.0 ≡ started job task
      → IsTaskOf job source target task
      → Accepted o job out.1
      → StartCase o r req now out

data Checked (r : Registry) (now : ℕ) (id : String) (missing offline : String → StartError)
    : WorkerInfo ⊎ StartError → Type 0 where
  fit : (w : WorkerInfo) → IsReady r now id w → Checked r now id missing offline (inl w)
  unfit :
      (e : StartError)
      → Unready r now id (missing id) (offline id) e
      → Checked r now id missing offline (inr e)

checked_lem :
    (r : Registry) (now : ℕ) (id : String) (missing offline : String → StartError)
    → Checked r now id missing offline (checked r now id missing offline)
checked_lem r now id missing offline = elim (Option-cases (get r id)) [
  | inl e ↦ rw (e, checked) (unfit (missing id) (unknown e refl))
  | inr (w, e) ↦ elim (Bool-cases (is_online r id now)) [
    | inl on ↦ rw (e, on, checked) (fit w (e, on))
    | inr off ↦ rw (e, off, checked) (unfit (offline id) (silent w e off refl))
  ]
]

module _ (o : Orchestrator) (r : Registry) (req : MigrationRequest) (now : ℕ) where
  abbrev source_check : WorkerInfo ⊎ StartError
  source_check = checked r now req.source_worker_id source_not_found source_offline

  abbrev target_check : WorkerInfo ⊎ StartError
  target_check = checked r now req.target_worker_id target_not_found target_offline

  new_job-IsNewJob : IsNewJob req now (new_job req now)
  unfolding new_job generate_migration_id
  new_job-IsNewJob = record {
    named = refl;
    source = refl;
    target = refl;
    containers = refl;
    images = refl;
    volumes = refl;
    networks = refl;
    how = (refl, refl, refl);
    waits = (refl, refl);
    counts = (refl, refl, refl);
    times = (refl, refl);
    no_error = refl;
  }

  start-accepted :
      (source target : WorkerInfo)
      → IsReady r now req.source_worker_id source
      → IsReady r now req.target_worker_id target
      → source_check ≡ inl source
      → target_check ≡ inl target
      → StartCase o r req now (start_migration o r req now)
  unfolding start_migration get_migration
  start-accepted source target ready also e f =
      let job = new_job req now in
      rw (e, f, start_migration)
        (accepted job _ source target ready also new_job-IsNewJob refl
          (record { runs = refl; from_source = refl; to_target = refl; unstarted = refl })
          (record {
            stored = lookup-insert_self job.id job o.migrations;
            others = λ id ne. lookup-insert_ne job.id id job o.migrations ne;
            address = refl;
          }))

  start_target :
      (source : WorkerInfo) (c : WorkerInfo ⊎ StartError)
      → IsReady r now req.source_worker_id source
      → source_check ≡ inl source
      → Checked r now req.target_worker_id target_not_found target_offline c
      → target_check ≡ c
      → StartCase o r req now (start_migration o r req now)
  unfolding start_migration
  start_target source _ ready e (fit target also) f = start-accepted source target ready also e f
  start_target source _ ready e (unfit err why) f =
      bad_target source err ready why (rw (e, f, start_migration) refl)

  start_source :
      (c : WorkerInfo ⊎ StartError)
      → Checked r now req.source_worker_id source_not_found source_offline c
      → source_check ≡ c
      → StartCase o r req now (start_migration o r req now)
  unfolding start_migration
  start_source _ (fit source ready) e =
      start_target source target_check ready e (checked_lem r now _ _ _) refl
  start_source _ (unfit err why) e = bad_source err why (rw (e, start_migration) refl)

-- A migration starts exactly if both workers are registered and online, the source being checked
-- first. It is then found under its ID, made of the time, as a pending job that has the request's
-- workers, resources, modes and strategy, is in its first phase, starts now, and has no progress, no
-- error and no end. Its goroutine is at the beginning and has the two workers, no other migration
-- changes, and neither does the proxy's address. Otherwise the error names the worker and what it
-- lacks, and nothing changes.
pub start_migration_lem :
    (o : Orchestrator) (r : Registry) (req : MigrationRequest) (now : ℕ)
    → StartCase o r req now (start_migration o r req now)
start_migration_lem o r req now = start_source o r req now _ (checked_lem r now _ _ _) refl
