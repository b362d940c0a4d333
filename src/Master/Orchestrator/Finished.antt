-- ===== src/Master/Orchestrator/Finished.antt =====
-- internal/master/orchestrator.go: what later calls make of a job that has ended.
use dockation.Prelude.{
  ℕ, String, ◌≡◌, refl, ◌≢◌, ap, none, some, List, [], ◌∷◌, inl, inr, arith, str_eq, if◌then◌else◌,
  Bool-cases, ◌∙◌,
}
use dockation.Proto.{MigrationProgress, MigrationComplete}
use dockation.Master.Registry.{Registry, Sender}
use dockation.Master.Orchestrator.{
  MigrationJob, MigrationJobStatus, MigrationRequest, Orchestrator, Task, pending, completed,
  failed, cancelled, begins, start_migration, advance, report, complete, update_progress,
  complete_migration, cancel_migration, get_migration, execute_migration, generate_migration_id,
  fail_migration,
}
use dockation.Master.Orchestrator.Jobs.{
  lookup-modify, lookup-modify_self, lookup-modify_ne, lookup-advance,
}
use dockation.Master.Orchestrator.Start.{start_migration_lem, bad_source, bad_target, accepted}
use dockation.Master.Orchestrator.Lifecycle.{IsFinished, IsActive, CancelCase, cancel_migration_lem}
use dockation.Master.Orchestrator.Dispatch.{
  target_failed, source_failed, both_told, execute_migration_lem,
}

-- The calls that change the orchestrator, each at its time.
pub data Op : Type 0 where
  starts : MigrationRequest → Op
  runs : Task → Op
  progresses : String → MigrationProgress → Op
  completes : String → MigrationComplete → Op
  cancels : String → String → Op

unfoldable pub step : Sender → Registry → Orchestrator → ℕ × Op → Orchestrator
step send r o (now, starts req) = (start_migration o r req now).1
step send r o (now, runs task) = (advance send r now task o).1
step send r o (now, progresses id p) = update_progress o id p
step send r o (now, completes id c) = complete_migration o id c now
step send r o (now, cancels id reason) = (cancel_migration send r o id reason now).1

unfoldable pub run : Sender → Registry → Orchestrator → List (ℕ × Op) → Orchestrator
unfolding step
run send r o [] = o
run send r o (c ∷ cs) = run send r (step send r o c) cs

-- A call that is not a report of completion for `id`, a step of its goroutine, or a start that is
-- given its ID again.
abbrev pub IsQuiet : String → ℕ × Op → Type 0
IsQuiet id (now, starts req) = id ≢ generate_migration_id now
IsQuiet id (now, runs task) = id ≢ task.job_id
IsQuiet id (now, completes k c) = id ≢ k
IsQuiet id (now, progresses k p) = Unit
IsQuiet id (now, cancels k reason) = Unit

abbrev pub AllQuiet : String → List (ℕ × Op) → Type 0
AllQuiet id [] = Unit
AllQuiet id (c ∷ cs) = IsQuiet id c × AllQuiet id cs

-- How a job ended: its status, error, time of completion, and the workers it was for.
abbrev pub SameEnd : MigrationJob → MigrationJob → Type 0
SameEnd a b =
    (a.status ≡ b.status)
    × (a.error ≡ b.error)
    × (a.completed_at ≡ b.completed_at)
    × (a.source_worker_id ≡ b.source_worker_id)
    × (a.target_worker_id ≡ b.target_worker_id)

abbrev Ended : String → MigrationJob → Orchestrator → Type 0
Ended id job o = (job' : MigrationJob) × (get_migration o id ≡ some job') × SameEnd job' job

distinct : (job j : MigrationJob) → IsFinished job.status → IsActive j.status → job ≢ j
distinct job j fin act e = clash j.status (rw e at fin) act
  where
    clash : (s : MigrationJobStatus) → IsFinished s → IsActive s → ⊥
    clash s f a = ground arith

module _ (send : Sender) (r : Registry) (o : Orchestrator) (id : String) (now : ℕ) where
  get-start :
      (req : MigrationRequest)
      → id ≢ generate_migration_id now
      → get_migration (start_migration o r req now).1 id ≡ get_migration o id
  unfolding generate_migration_id
  get-start req ne = elim (start_migration_lem o r req now) [
    | bad_source e w out ↦ rw out refl
    | bad_target s e rdy w out ↦ rw out refl
    | accepted job task s t rs rt new out whole acc ↦ acc.others id (λ e. ne (e ∙ new.named))
  ]

  active_elsewhere :
      (job j : MigrationJob) (k : String)
      → get_migration o id ≡ some job
      → get_migration o k ≡ some j
      → IsFinished job.status
      → IsActive j.status
      → id ≢ k
  active_elsewhere job j k e f fin act same =
      let one : job ≡ j = cc (ap (get_migration o) same) in distinct job j fin act one

  get-cancel :
      (job : MigrationJob) (k reason : String)
      → get_migration o id ≡ some job
      → IsFinished job.status
      → get_migration (cancel_migration send r o k reason now).1 id ≡ some job
  get-cancel job k reason e fin = elim (cancel_migration_lem send r o k reason now) [
    | CancelCase.unknown n out ↦ rw out e
    | CancelCase.finished j f g out ↦ rw out e
    | CancelCase.done j f g out new others sent ↦ others id (active_elsewhere job j k e f fin g) ∙ e
  ]

  get-progress :
      (job : MigrationJob) (k : String) (p : MigrationProgress)
      → get_migration o id ≡ some job
      → Ended id job (update_progress o k p)
  unfolding get_migration update_progress
  get-progress job k p e = elim (Bool-cases (str_eq k id)) [
    | inl hit ↦ (
      report p job,
      lookup-modify (report p) k id o ∙ (rw (hit, e) refl),
      (refl, refl, refl, refl, refl),
    )
    | inr miss ↦
        (job, lookup-modify (report p) k id o ∙ (rw (miss, e) refl), (refl, refl, refl, refl, refl))
  ]

step-Ended :
    (send : Sender) (r : Registry) (o : Orchestrator) (id : String) (job : MigrationJob)
    (c : ℕ × Op)
    → get_migration o id ≡ some job
    → IsFinished job.status
    → IsQuiet id c
    → Ended id job (step send r o c)
unfolding step
step-Ended send r o id job (now, starts req) e fin q =
    (job, get-start send r o id now req q ∙ e, (refl, refl, refl, refl, refl))
step-Ended send r o id job (now, runs task) e fin q = (
  job,
  unfold get_migration in (lookup-advance id now task o q send r ∙ e),
  (refl, refl, refl, refl, refl),
)
step-Ended send r o id job (now, progresses k p) e fin q = get-progress send r o id now job k p e
step-Ended send r o id job (now, completes k c) e fin q = (
  job,
  unfold get_migration complete_migration in (lookup-modify_ne _ k id o q ∙ e),
  (refl, refl, refl, refl, refl),
)
step-Ended send r o id job (now, cancels k reason) e fin q =
    (job, get-cancel send r o id now job k reason e fin, (refl, refl, refl, refl, refl))

SameEnd-trans : (a b c : MigrationJob) → SameEnd a b → SameEnd b c → SameEnd a c
SameEnd-trans a b c h k = (cc, cc, cc, cc, cc)

SameEnd-IsFinished : (a b : MigrationJob) → SameEnd a b → IsFinished b.status → IsFinished a.status
SameEnd-IsFinished a b h fin = rw h.0 fin

-- A job that is completed, failed or cancelled keeps its status, error, time of completion and
-- workers through any further calls, late progress reports and cancellations included, as long as
-- none of them is a report of completion for it, a step of its own goroutine, or a start that is
-- given the same ID.
pub finished_stays :
    (send : Sender) (r : Registry) (o : Orchestrator) (id : String) (job : MigrationJob)
    (cs : List (ℕ × Op))
    → get_migration o id ≡ some job
    → IsFinished job.status
    → AllQuiet id cs
    → (job' : MigrationJob) × (get_migration (run send r o cs) id ≡ some job') × SameEnd job' job
unfolding run
finished_stays send r o id job [] e fin q = (job, e, (refl, refl, refl, refl, refl))
finished_stays send r o id job (c ∷ cs) e fin q =
    let (j, f, same) = step-Ended send r o id job c e fin q.0 in
    let (j', f', same') =
      finished_stays send r (step send r o c) id j cs f (SameEnd-IsFinished j job same fin) q.1 in
    (j', f', SameEnd-trans j' j job same' same)

-- A report of completion is taken for a cancelled job too: the job ends as completed or failed, as
-- the report says, and no longer as cancelled.
pub complete-cancelled :
    (o : Orchestrator) (id : String) (job : MigrationJob) (c : MigrationComplete) (now : ℕ)
    → get_migration o id ≡ some job
    → job.status ≡ cancelled
    → (job' : MigrationJob) × (get_migration (complete_migration o id c now) id ≡ some job')
      × (job'.status ≡ (if c.success then completed else failed))
      × (job'.status ≢ cancelled)
unfolding get_migration complete_migration
complete-cancelled o id job c now e was = (
  complete c now job,
  lookup-modify_self _ id job o e,
  unfold complete in ground arith,
  unfold complete in ground arith,
)

module _ (send : Sender) (r : Registry) (now later : ℕ) (task : Task) (reason : String)
    (fresh : task.stage ≡ begins) where
  runs_on :
      (o : Orchestrator) (job : MigrationJob)
      → get_migration o task.job_id ≡ some job
      → (job' : MigrationJob) × (get_migration (execute_migration send r later task o).0 task.job_id
          ≡ some job')
        × (job'.status ≢ cancelled)
  unfolding fail_migration
  runs_on o job e = elim (execute_migration_lem send r later o task job e fresh) [
    | target_failed err p s f ↦ (_, f, λ h. cc)
    | source_failed err p q s f ↦ (_, f, λ h. cc)
    | both_told p q s f ↦ (_, f, λ h. cc)
  ]

-- A cancellation that comes before the job's goroutine begins is accepted and then lost: once the
-- goroutine has run, the job is running or failed, and not cancelled.
pub cancel_lost :
    (send : Sender) (r : Registry) (now later : ℕ) (task : Task) (reason : String)
    → task.stage ≡ begins
    → (o : Orchestrator) (job : MigrationJob) → get_migration o task.job_id ≡ some job
    → job.status ≡ pending
    → let (error, o', sent) = cancel_migration send r o task.job_id reason now in
      (error ≡ none)
      × ((job' : MigrationJob) × (get_migration
              (execute_migration send r later task o').0
              task.job_id
            ≡ some job')
          × (job'.status ≢ cancelled))
cancel_lost send r now later task reason fresh o job e was =
    elim (cancel_migration_lem send r o task.job_id reason now) [
      | CancelCase.unknown n out ↦ absurd (cc)
      | CancelCase.finished j f fin out ↦ absurd (distinct j job fin (inl was) cc)
      | CancelCase.done j f act out new others sent ↦
          (out, runs_on send r now later task reason fresh _ _ new)
    ]
