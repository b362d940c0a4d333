-- ===== src/Migration/Warm.antt =====
-- internal/migration/strategy.go: WarmStrategy's ExecuteMigration, and the choice of a strategy.
-- What the volume migrator's warmSync and the container migrator return are arguments. A run is its
-- error and what it did in order: its reports, by step and item, and its calls. Pausing and stopping a
-- container only log.
pub mod Order
mod Tests
use Prim.Native.String.{◌++◌ as str_append}
use dockation.Prelude.{
  ℕ, String, Bool, true, false, Option, none, some, List, [], ◌∷◌, ◌++◌, str_eq, if◌then◌else◌,
}
use dockation.Migration.Rollback.{ResourceRef}
use dockation.Migration.Job.{
  MigrationMode, copy, move, MigrationJob, MigrationStrategy, cold, warm, snapshot, unknown,
}
use dockation.Migration.Cold.{Migrators}
use dockation.Migration.Cold as Cold

pub data WarmEntry : Type 0 where
  reports : ℕ → String → WarmEntry
  syncs deltas pauses stops : String → WarmEntry
  migrates : ResourceRef → WarmEntry

pub record WarmMigrators : Type 0 where
  pub warm_sync : String → Bool → Option String
  pub container : ResourceRef → Option String

abbrev pub WarmRun : Type 0
WarmRun = Option String × List WarmEntry

-- The text of an error on a resource, by its name and the error.
abbrev pub failed : String → String → String → String → String
failed what after name e = str_append what (str_append name (str_append after e))

-- A call with what it returns; without an error the rest follows.
abbrev pub called : WarmEntry → Option String → (String → String) → WarmRun → WarmRun
called entry (some e) text rest = (some (text e), entry ∷ [])
called entry none text (error, done) = (error, entry ∷ done)

-- A loop over the resources of a type.
unfoldable pub for_each :
    String
    → (ResourceRef → WarmEntry)
    → (ResourceRef → Option String)
    → (String → String → String)
    → List ResourceRef
    → WarmRun
for_each resource_type entry call text [] = (none, [])
for_each resource_type entry call text (r ∷ rs) =
    let rest = for_each resource_type entry call text rs in
    if str_eq r.resource_type resource_type
    then called (entry r) (call r) (text r.name) rest
    else rest

-- A report, a part, and unless that has failed, the next part.
abbrev pub phase : ℕ → String → WarmRun → WarmRun → WarmRun
phase step item (some e, done) next = (some e, reports step item ∷ done)
phase step item (none, done) (error, more) = (error, reports step item ∷ done ++ more)

abbrev pub fine : ResourceRef → Option String
fine r = none

abbrev pub stop_all : MigrationMode → List ResourceRef → WarmRun
stop_all copy rs = (none, [])
stop_all move rs = for_each "container" (λ r. stops r.name) fine (failed "" "") rs

unfoldable pub execute_warm : WarmMigrators → MigrationJob → WarmRun
execute_warm m job =
    let rs = job.resources in
    let sync =
      for_each "volume" (λ r. syncs r.name) (λ r. m.warm_sync r.name false)
        (failed "warm sync failed for volume " ": ") rs in
    let pause =
      for_each "container" (λ r. pauses r.name) fine (failed "failed to pause container " ": ")
        rs in
    let delta =
      for_each "volume" (λ r. deltas r.name) (λ r. m.warm_sync r.name true)
        (failed "delta sync failed for volume " ": ") rs in
    let cutover =
      for_each "container" (λ r. migrates r) m.container
        (failed "failed to start container " " on target: ") rs in
    phase 1 "Initial warm sync (containers running)" sync (
      phase 2 "Pausing source containers" pause (
        phase 3 "Delta sync (final changes)" delta (
          phase 4 "Starting containers on target" cutover
            (phase 5 "Cleanup" (stop_all job.mode rs) (none, reports 5 "Cleanup" ∷ [])))))

-- What the engine calls: an error's text, or nil. The strategies pass the job's context on to the
-- migrators, which are given by whether it is done when they are called.
unfoldable pub execute_strategy :
    (Bool → Migrators) → (Bool → WarmMigrators) → MigrationJob → Option String
execute_strategy c w job = elim job.strategy [
  | cold ↦ (Cold.execute_migration (c job.cancelled) job).0
  | warm ↦ (execute_warm (w job.cancelled) job).0
  | snapshot ↦ some "not implemented"
  | unknown s ↦ none
]
