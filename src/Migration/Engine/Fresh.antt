-- ===== src/Migration/Engine/Fresh.antt =====
-- internal/migration/engine.go: a failure, and an audit, just after the job's snapshot is taken.
use mathlib.Core.List.{append-nil}
use dockation.Prelude.{ℕ, String, ◌≡◌, refl, ap, true, false, none, some, [], ◌∷◌, ◌++◌, map}
use dockation.Prelude.Dict.{lookup-insert_self}
use dockation.Migration.Rollback.{
  RollbackManager, empty_snapshot, create_snapshot, rollback, restore, each,
}
use dockation.Migration.Job.{rolling_back, MigrationJob}
use dockation.Migration.Audit.{
  AuditResult, run_audit, all_checks, check_docker_connected, check_peer_online,
  check_resources_exist, check_architecture, check_disk_space_wrapper, check_disk_space,
  check_bind_mounts, check_conflicts, check_network_drivers,
}
use dockation.Migration.Audit.Verdict.{verdict, run_checks_lem}
use dockation.Migration.Engine.{fail_job, error_in}

rollback_fresh :
    (rm : RollbackManager) (id : String) (now : ℕ)
    → rollback (create_snapshot rm id now) id ≡ (none, [])
unfolding rollback create_snapshot restore each
rollback_fresh rm id now =
    rw (rollback, lookup-insert_self id (empty_snapshot id now) rm.snapshots) refl

abbrev pub failed_with : String → ℕ → MigrationJob → MigrationJob
failed_with message now job = record job {
  end_time = some now;
  status = rolling_back;
  errors = job.errors ++ error_in job.current_phase message now ∷ [];
}

pub fail_job_fresh :
    (rm : RollbackManager) (message : String) (begun now : ℕ) (job : MigrationJob)
    → fail_job (create_snapshot rm job.id begun) message now job ≡ (failed_with message now job, [])
unfolding fail_job
fail_job_fresh rm message begun now job =
    let errors = job.errors ++ error_in job.current_phase message now ∷ [] in
    rw (rollback_fresh rm job.id begun) (
      ap (λ es. (record job { end_time = some now; status = rolling_back; errors = es }, []))
        (append-nil errors))

-- Nothing is needed on the target's disk, and so the audit passes.
pub audit_passes :
    (buffered : ℕ → ℕ) (job : MigrationJob)
    → buffered 0 ≡ 0
    → (result : AuditResult) × (run_audit buffered (λ i. false) job ≡ some result)
      × (result.can_proceed ≡ true)
unfolding run_audit check_docker_connected check_peer_online check_resources_exist
    check_architecture check_disk_space_wrapper check_disk_space check_bind_mounts check_conflicts
    check_network_drivers
audit_passes buffered job zero =
    let result = verdict (map (λ f. f job) (all_checks buffered)) in
    (
      result,
      (run_checks_lem (λ i. false) job (all_checks buffered)
          (refl, (refl, (refl, (refl, (refl, (refl, (refl, (refl, tt))))))))).0,
      rw zero refl,
    )
