-- ===== src/Migration/Audit/Tests.antt =====
-- internal/migration/audit.go: audits with concrete checks.
use dockation.Prelude.{◌*◌, ◌/◌, ◌≡◌, ◌↔◌, refl, true, false, none, some, [], ◌∷◌, map}
use dockation.Migration.Job.{MigrationMode, MigrationJob, MigrationStrategy, MigrationStatus}
use dockation.Migration.Audit.{
  AuditCheck, warning, failed, started, pass, run_checks, check_disk_space, available_bytes,
}
use dockation.Migration.Audit.Verdict.{verdict, run_checks_lem}

abbrev job : MigrationJob
job = record {
  id = "job-1";
  peer_id = "peer";
  mode = MigrationMode.copy;
  strategy = MigrationStrategy.cold;
  resources = [];
  status = MigrationStatus.preflight;
  errors = [];
  start_time = 0;
  end_time = none;
  can_pause = false;
  can_resume = false;
  current_phase = "audit";
  cancelled = false;
  pause_closed = false;
  resume_closed = false;
}

abbrev no_space : MigrationJob → AuditCheck
no_space j = record (pass "Disk Space" true "no space") { status = failed }

abbrev emulated : MigrationJob → AuditCheck
emulated j = record (pass "Architecture Compatibility" false "emulated") { status = warning }

blocked : verdict (map (λ f. f job) (emulated ∷ no_space ∷ [])) ≡ record {
  checks = emulated job ∷ no_space job ∷ [];
  warnings = "emulated" ∷ [];
  blockers = "no space" ∷ [];
  can_proceed = false;
}
blocked = refl

run_checks_lem_example :
    (run_checks (λ i. false) job 0 (emulated ∷ no_space ∷ []) started
      ≡ some (verdict (emulated job ∷ no_space job ∷ [])))
    × (((verdict (emulated job ∷ no_space job ∷ [])).can_proceed ≡ true)
        ↔ ((verdict (emulated job ∷ no_space job ∷ [])).blockers ≡ []))
run_checks_lem_example =
    run_checks_lem (λ i. false) job (emulated ∷ no_space ∷ []) (refl, (refl, tt))

-- The disk is reported as full where more is needed than there is.
full : (check_disk_space (λ n. n * 6 / 5) available_bytes).is_blocker ≡ true
unfolding check_disk_space
full = refl
