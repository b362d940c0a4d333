-- ===== src/Migration/Cold.antt =====
-- internal/migration/strategy.go: ColdStrategy's ExecuteMigration.
-- What the migrators of the four kinds of resources return is the argument `migrators`; what they
-- report on the way is left out. A run is its error, the current step at its end, and what it did in
-- order: its reports of progress and its calls. Stopping and disabling a container only log.
pub mod Advances
pub mod Steps
mod Tests
use Prim.Native.String.{◌++◌ as str_append}
use dockation.Prelude.{
  ℕ, suc, ◌+◌, String, Bool, true, false, Option, none, some, List, [], ◌∷◌, ◌++◌, length, str_eq,
  if◌then◌else◌,
}
use dockation.Migration.Rollback.{ResourceRef}
use dockation.Migration.Job.{MigrationMode, copy, move, MigrationJob}

-- The fields that the steps count in; the numbers of bytes, the checksums, which nothing sets, and the two
-- times are left out.
pub record MigrationProgress : Type 0 where
  pub current_step : ℕ
  pub total_steps : ℕ
  pub current_item : String
  pub current_number : ℕ
  pub total_items : ℕ

pub data Entry : Type 0 where
  reports : MigrationProgress → Entry
  stops disables : String → Entry
  migrates : ResourceRef → Entry

-- MigrateImage, MigrateVolume, MigrateNetwork and MigrateContainer: an error's text, or nil.
pub record Migrators : Type 0 where
  pub image : ResourceRef → Option String
  pub volume : ResourceRef → Option String
  pub network : ResourceRef → Option String
  pub container : ResourceRef → Option String

abbrev pub Run : Type 0
Run = Option String × MigrationProgress × List Entry

-- A part of the run, and then the rest, unless it has failed.
unfoldable pub and_then : Run → (MigrationProgress → Run) → Run
and_then (some e, p, done) rest = (some e, p, done)
and_then (none, p, done) rest = let (error, p', more) = rest p in (error, p', done ++ more)

-- How many resources are of a type.
unfoldable pub count : String → List ResourceRef → ℕ
count resource_type [] = 0
count resource_type (r ∷ rs) =
    let rest = count resource_type rs in
    if str_eq r.resource_type resource_type then suc rest else rest

unfoldable pub total_steps : List ResourceRef → ℕ
total_steps rs =
    1 + count "image" rs + count "volume" rs + count "network" rs + count "container" rs + 1

-- currentStep++, and a report of it.
unfoldable pub report_step : String → MigrationProgress → Run
report_step item p =
    let p' = record p { current_step = suc p.current_step; current_item = item } in
    (none, p', reports p' ∷ [])

unfoldable pub call : (ResourceRef → Option String) → String → ResourceRef → MigrationProgress → Run
call migrate failure r p = elim (migrate r) [
  | none ↦ (none, p, migrates r ∷ [])
  | some e ↦ (some (str_append failure (str_append r.name (str_append ": " e))), p, migrates r ∷ [])
]

-- One of the loops over the resources; `i` is the index of the first one.
unfoldable pub migrate_all :
    (ResourceRef → Option String)
    → String
    → String
    → String
    → ℕ
    → List ResourceRef
    → MigrationProgress
    → Run
migrate_all migrate resource_type label failure i [] p = (none, p, [])
migrate_all migrate resource_type label failure i (r ∷ rs) p =
    let rest = migrate_all migrate resource_type label failure (suc i) rs in
    if str_eq r.resource_type resource_type
    then and_then
        (and_then (report_step (str_append label r.name) (record p { current_number = i + 1 }))
          (call migrate failure r))
        rest
    else rest p

-- The loops that stop or disable every container.
unfoldable pub each_container : (String → Entry) → List ResourceRef → List Entry
each_container act [] = []
each_container act (r ∷ rs) =
    let rest = each_container act rs in
    if str_eq r.resource_type "container" then act r.name ∷ rest else rest

abbrev pub does : List Entry → MigrationProgress → Run
does entries p = (none, p, entries)

abbrev pub is_move : MigrationMode → Bool
is_move copy = false
is_move move = true

abbrev pub started : List ResourceRef → MigrationProgress
started rs = record {
  current_step = 0;
  total_steps = total_steps rs;
  current_item = "";
  current_number = 0;
  total_items = length rs;
}

-- The last report: the current step is set to the total.
unfoldable pub last_report : ℕ → MigrationProgress → Run
last_report total p = let p' = record p { current_step = total } in (none, p', reports p' ∷ [])

unfoldable pub finalize : MigrationJob → MigrationProgress → Run
finalize job p =
    and_then
      (and_then (report_step "Finalizing migration" p)
        (does (if is_move job.mode then each_container disables job.resources else [])))
      (last_report (total_steps job.resources))

-- Up to the containers on the target.
unfoldable pub transfer_all : Migrators → List ResourceRef → Run
transfer_all migrators rs =
    and_then
      (and_then
        (and_then
          (and_then
            (and_then (report_step "Stopping source containers" (started rs))
              (does (each_container stops rs)))
            (migrate_all migrators.image "image" "Transferring image: " "failed to migrate image " 0
              rs))
          (migrate_all migrators.volume "volume" "Transferring volume: " "failed to migrate volume "
            0 rs))
        (migrate_all migrators.network "network" "Creating network: " "failed to migrate network " 0
          rs))
      (migrate_all migrators.container "container" "Creating container: "
        "failed to migrate container " 0 rs)

unfoldable pub execute_migration : Migrators → MigrationJob → Run
execute_migration migrators job = and_then (transfer_all migrators job.resources) (finalize job)
