-- ===== src/Master/Orchestrator/Lifecycle.antt =====
-- internal/master/orchestrator.go: cancelling, and what can still happen to a finished migration.
use Prim.Native.String.{◌++◌ as str_append}
use dockation.Prelude.{
  ℕ, String, ◌≡◌, refl, ◌≢◌, true, false, not, ◌&&◌, Option, none, some, [], ◌∷◌, ◌++◌, ap, ◌∙◌,
  ◌⊎◌, inl, inr, arith, Option-cases,
}
use dockation.Prelude.Dict.{lookup, lookup-insert_self, lookup-insert_ne}
use dockation.Proto.{MigrationPhase, MasterCommand, CommandPayload}
use dockation.Master.Registry.{WorkerInfo, Registry, Sender, Sent, get, send_on, send_command}
use dockation.Master.Orchestrator.{
  MigrationJob, MigrationJobStatus, Orchestrator, pending, running, completed, failed, cancelled,
  cancel, cancel_command, is_running, is_pending, CancelError, migration_not_found, cannot_cancel,
  cancel_migration, get_migration,
}

abbrev pub IsFinished : MigrationJobStatus → Type 0
IsFinished s = (s ≡ completed) ⊎ (s ≡ failed) ⊎ (s ≡ cancelled)

abbrev pub IsActive : MigrationJobStatus → Type 0
IsActive s = (s ≡ pending) ⊎ (s ≡ running)

-- What CancelMigration tells a worker.
abbrev pub told : String → String → MasterCommand
told id reason = record {
  command_id = str_append "cancel-" id;
  payload = CommandPayload.cancel_migration (record { migration_id = id; reason = reason });
}

-- A message that goes out on a worker's stream, if the worker is registered and has one.
abbrev pub on_stream : Option ℕ → MasterCommand → Sent
on_stream none cmd = []
on_stream (some stream) cmd = (stream, cmd) ∷ []

abbrev pub of_worker : Option WorkerInfo → MasterCommand → Sent
of_worker none cmd = []
of_worker (some w) cmd = on_stream w.stream cmd

abbrev pub goes_to : Registry → String → MasterCommand → Sent
goes_to r worker_id cmd = of_worker (get r worker_id) cmd

send_command-goes_to :
    (send : Sender) (r : Registry) (worker_id : String) (cmd : MasterCommand)
    → (send_command send r worker_id cmd).1 ≡ goes_to r worker_id cmd
unfolding send_command send_on get
send_command-goes_to send r worker_id cmd = elim (Option-cases (lookup worker_id r.workers)) [
  | inl gone ↦ rw (gone, send_command) refl
  | inr (w, here) ↦ elim (Option-cases w.stream) [
    | inl closed ↦ rw (here, closed, send_command) refl
    | inr (stream, attached) ↦ rw (here, attached, send_command) refl
  ]
]

both_told :
    (send : Sender) (r : Registry) (source target : String) (cmd : MasterCommand)
    → (send_command send r source cmd).1 ++ (send_command send r target cmd).1
      ≡ goes_to r source cmd ++ goes_to r target cmd
both_told send r source target cmd =
    ap (λ sent. sent ++ (send_command send r target cmd).1) (send_command-goes_to send r source cmd)
    ∙ ap (λ sent. goes_to r source cmd ++ sent) (send_command-goes_to send r target cmd)

pub data CancelCase (send : Sender) (r : Registry) (o : Orchestrator) (id reason : String) (now : ℕ)
    (out : Option CancelError × Orchestrator × Sent) : Type 0 where
  unknown :
      get_migration o id ≡ none
      → out ≡ (some (migration_not_found id), o, [])
      → CancelCase send r o id reason now out
  finished :
      (job : MigrationJob)
      → get_migration o id ≡ some job
      → IsFinished job.status
      → out ≡ (some (cannot_cancel job.status), o, [])
      → CancelCase send r o id reason now out
  done :
      (job : MigrationJob)
      → get_migration o id ≡ some job
      → IsActive job.status
      → out.0 ≡ none
      → get_migration out.1 id
        ≡ some (record job {
          status = cancelled;
          phase = MigrationPhase.cancelled;
          error = reason;
          completed_at = now;
        })
      → ((k : String) → k ≢ id → get_migration out.1 k ≡ get_migration o k)
      → out.2
        ≡ goes_to r job.source_worker_id (told id reason)
          ++ goes_to r job.target_worker_id (told id reason)
      → CancelCase send r o id reason now out

status_cases : (s : MigrationJobStatus) → IsFinished s ⊎ IsActive s
status_cases s = ground arith

active_test :
    (s : MigrationJobStatus) → IsActive s → (not (is_running s) && not (is_pending s)) ≡ false
active_test s h = ground arith

finished_test :
    (s : MigrationJobStatus) → IsFinished s → (not (is_running s) && not (is_pending s)) ≡ true
finished_test s h = ground arith

-- Cancelling is refused exactly for an unknown migration and for one that is completed, failed or
-- already cancelled, and then changes and sends nothing. Otherwise the job gets the status and the phase
-- cancelled, the reason as its error and the time as its end, nothing else of it changes and no other
-- job does. The source and then the target are sent the command to cancel this migration for this
-- reason, whatever a send returns; a worker that is not registered or has no stream is left out.
pub cancel_migration_lem :
    (send : Sender) (r : Registry) (o : Orchestrator) (id reason : String) (now : ℕ)
    → CancelCase send r o id reason now (cancel_migration send r o id reason now)
unfolding cancel_migration get_migration cancel cancel_command
cancel_migration_lem send r o id reason now = elim (Option-cases (lookup id o.migrations)) [
  | inl e ↦ unknown e (rw (e, cancel_migration) refl)
  | inr (job, e) ↦ elim (status_cases job.status) [
    | inl fin ↦ finished job e fin (rw (e, cancel_migration, finished_test job.status fin) refl)
    | inr act ↦
        rw (e, cancel_migration, active_test job.status act)
          (done job e act refl (lookup-insert_self id _ o.migrations)
            (λ k ne. lookup-insert_ne id k _ o.migrations ne)
            (both_told send r job.source_worker_id job.target_worker_id (told id reason)))
  ]
]
