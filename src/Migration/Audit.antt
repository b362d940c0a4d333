-- ===== src/Migration/Audit.antt =====
-- internal/migration/audit.go: the checks before a migration.
-- The times of a check are left out. Before each check the context is looked at: `done i` is whether
-- it is done then. A float64 product with 1.2 is the argument `buffered`.
pub mod Verdict
mod Tests
use Prim.Native.String.{◌++◌ as str_append}
use dockation.Prelude.{
  ℕ, zero, suc, ◌+◌, ◌*◌, ◌/◌, ◌^◌, String, Bool, true, false, Option, none, some, List, [], ◌∷◌,
  ◌++◌, length, map, keep, ltb, str_eq, if◌then◌else◌, ◌&&◌,
}
use dockation.Prelude.Decimal.{decimal}
use dockation.Migration.Rollback.{ResourceRef}
use dockation.Migration.Job.{MigrationJob}

pub data CheckStatus : Type 0 where
  pending running passed warning failed : CheckStatus

pub record AuditCheck : Type 0 where
  pub name : String
  pub status : CheckStatus
  pub message : String
  pub is_blocker : Bool

-- The estimated duration and the bytes in total are never set.
pub record AuditResult : Type 0 where
  pub checks : List AuditCheck
  pub warnings : List String
  pub blockers : List String
  pub can_proceed : Bool

abbrev pub started : AuditResult
started = record { checks = []; warnings = []; blockers = []; can_proceed = true }

abbrev pub is_warning : CheckStatus → Bool
is_warning warning = true
is_warning pending = false
is_warning running = false
is_warning passed = false
is_warning failed = false

abbrev pub is_failed : CheckStatus → Bool
is_failed failed = true
is_failed pending = false
is_failed running = false
is_failed passed = false
is_failed warning = false

abbrev pub warns : AuditCheck → Bool
warns c = is_warning c.status

abbrev pub blocks : AuditCheck → Bool
blocks c = is_failed c.status && c.is_blocker

-- What one check's result adds.
unfoldable pub accumulate : AuditResult → AuditCheck → AuditResult
accumulate result c = record {
  checks = result.checks ++ c ∷ [];
  warnings = if warns c then result.warnings ++ c.message ∷ [] else result.warnings;
  blockers = if blocks c then result.blockers ++ c.message ∷ [] else result.blockers;
  can_proceed = if blocks c then false else result.can_proceed;
}

-- The loop of RunAudit; `none` is the error of a cancelled audit.
unfoldable pub run_checks :
    (ℕ → Bool)
    → MigrationJob
    → ℕ
    → List (MigrationJob → AuditCheck)
    → AuditResult
    → Option AuditResult
run_checks done job i [] result = some result
run_checks done job i (check ∷ checks) result =
    let rest = run_checks done job (suc i) checks (accumulate result (check job)) in
    if done i then none else rest

abbrev pub pass : String → Bool → String → AuditCheck
pass name is_blocker message = record {
  name = name;
  status = passed;
  message = message;
  is_blocker = is_blocker;
}

unfoldable pub check_docker_connected : MigrationJob → AuditCheck
check_docker_connected job = pass "Docker Connection" true "Docker daemon is accessible"

unfoldable pub check_peer_online : MigrationJob → AuditCheck
check_peer_online job =
    pass "Peer Online" true (str_append "Peer " (str_append job.peer_id " is reachable"))

-- No resource is looked for, so none is missing.
unfoldable pub check_resources_exist : MigrationJob → AuditCheck
check_resources_exist job =
    pass "Resource Existence" true
      (str_append "All " (str_append (decimal (length job.resources)) " resources exist"))

unfoldable pub check_architecture : MigrationJob → AuditCheck
check_architecture job = pass "Architecture Compatibility" false "Architecture compatible: amd64"

abbrev pub gigabyte : ℕ
gigabyte = 1024 * 1024 * 1024

abbrev pub available_bytes : ℕ
available_bytes = 100 * gigabyte

unfoldable pub check_disk_space : (ℕ → ℕ) → ℕ → AuditCheck
check_disk_space buffered required_bytes =
    if ltb available_bytes (buffered required_bytes)
    then record {
      name = "Disk Space";
      status = failed;
      message = str_append "Insufficient disk space: need " (
          str_append (decimal (buffered required_bytes))
            (str_append " bytes, available " (str_append (decimal available_bytes) " bytes")));
      is_blocker = true;
    }
    else pass "Disk Space" true (
        str_append "Sufficient disk space: "
          (str_append (decimal (available_bytes / gigabyte)) " GB available"))

-- The required bytes are never summed up.
unfoldable pub check_disk_space_wrapper : (ℕ → ℕ) → MigrationJob → AuditCheck
check_disk_space_wrapper buffered job = check_disk_space buffered 0

unfoldable pub check_bind_mounts : MigrationJob → AuditCheck
check_bind_mounts job = pass "Bind Mounts" false "No bind mounts detected"

unfoldable pub check_conflicts : MigrationJob → AuditCheck
check_conflicts job = pass "Name Conflicts" false "No naming conflicts detected"

abbrev networks_of : MigrationJob → List ResourceRef
networks_of job = keep (λ r. str_eq r.resource_type "network") job.resources

unfoldable pub check_network_drivers : MigrationJob → AuditCheck
check_network_drivers job = pass "Network Drivers" false (
    str_append "All network drivers compatible ("
      (str_append (decimal (length (networks_of job))) " networks)"))

abbrev pub all_checks : (ℕ → ℕ) → List (MigrationJob → AuditCheck)
all_checks buffered =
    check_docker_connected
    ∷ check_peer_online
    ∷ check_resources_exist
    ∷ check_architecture
    ∷ check_disk_space_wrapper buffered
    ∷ check_bind_mounts
    ∷ check_conflicts
    ∷ check_network_drivers
    ∷ []

unfoldable pub run_audit : (ℕ → ℕ) → (ℕ → Bool) → MigrationJob → Option AuditResult
run_audit buffered done job = run_checks done job 0 (all_checks buffered) started
