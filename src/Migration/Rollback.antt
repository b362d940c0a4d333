-- ===== src/Migration/Rollback.antt =====
-- internal/migration/rollback.go: snapshots of what a migration has stopped, and the way back.
-- Each method that changes a snapshot holds the manager's lock. The calls that a rollback makes on
-- containers are a list of actions; in the code they only log and return nil.
pub mod Restores
mod Tests
use dockation.Prelude.{ℕ, suc, String, Option, none, some, List, [], ◌∷◌, ◌++◌, ltb, if◌then◌else◌}
use dockation.Prelude.Dict.{Dict, lookup, insert, delete}

pub record ResourceRef : Type 0 where
  pub resource_type : String
  pub id : String
  pub name : String

pub record ConfigBackup : Type 0 where
  pub resource_type : String
  pub resource_id : String
  pub config : String

pub record Snapshot : Type 0 where
  pub job_id : String
  pub timestamp : ℕ
  pub stopped_containers : List String
  pub paused_containers : List String
  pub created_resources : List ResourceRef
  pub modified_configs : List ConfigBackup
  pub source_state : Dict String

pub record RollbackManager : Type 0 where
  pub snapshots : Dict Snapshot

unfoldable pub new_rollback_manager : RollbackManager
new_rollback_manager = record { snapshots = [] }

pub data RollbackError : Type 0 where
  snapshot_not_found : String → RollbackError
  completed_with_errors : ℕ → RollbackError

abbrev pub empty_snapshot : String → ℕ → Snapshot
empty_snapshot job_id now = record {
  job_id = job_id;
  timestamp = now;
  stopped_containers = [];
  paused_containers = [];
  created_resources = [];
  modified_configs = [];
  source_state = [];
}

unfoldable pub create_snapshot : RollbackManager → String → ℕ → RollbackManager
create_snapshot rm job_id now = record rm {
  snapshots = insert job_id (empty_snapshot job_id now) rm.snapshots;
}

-- A change of the job's snapshot; an error where it has none.
unfoldable pub update :
    (Snapshot → Snapshot) → RollbackManager → String → Option RollbackError × RollbackManager
update change rm job_id = elim (lookup job_id rm.snapshots) [
  | none ↦ (some (snapshot_not_found job_id), rm)
  | some s ↦ (none, record rm { snapshots = insert job_id (change s) rm.snapshots })
]

abbrev pub with_stopped : String → Snapshot → Snapshot
with_stopped container_id s = record s {
  stopped_containers = s.stopped_containers ++ container_id ∷ [];
  source_state = insert container_id "stopped" s.source_state;
}

unfoldable pub record_container_stopped :
    RollbackManager → String → String → Option RollbackError × RollbackManager
record_container_stopped rm job_id container_id = update (with_stopped container_id) rm job_id

abbrev pub with_paused : String → Snapshot → Snapshot
with_paused container_id s = record s {
  paused_containers = s.paused_containers ++ container_id ∷ [];
  source_state = insert container_id "paused" s.source_state;
}

unfoldable pub record_container_paused :
    RollbackManager → String → String → Option RollbackError × RollbackManager
record_container_paused rm job_id container_id = update (with_paused container_id) rm job_id

abbrev pub with_created : ResourceRef → Snapshot → Snapshot
with_created resource s = record s { created_resources = s.created_resources ++ resource ∷ [] }

unfoldable pub record_resource_created :
    RollbackManager → String → ResourceRef → Option RollbackError × RollbackManager
record_resource_created rm job_id resource = update (with_created resource) rm job_id

pub data Action : Type 0 where
  restart unpause : String → Action

-- restartContainer and unpauseContainer: the call, and its error.
abbrev pub restart_container : String → Action × Option String
restart_container container_id = (restart container_id, none)

abbrev pub unpause_container : String → Action × Option String
unpause_container container_id = (unpause container_id, none)

abbrev errors_after : Option String → ℕ → ℕ
errors_after none n = n
errors_after (some e) n = suc n

-- One loop of Rollback: an error does not end it.
unfoldable pub each : (String → Action × Option String) → List String → ℕ → List Action × ℕ
each f [] errors = ([], errors)
each f (id ∷ ids) errors =
    let (action, error) = f id in
    let (actions, errors') = each f ids (errors_after error errors) in (action ∷ actions, errors')

unfoldable pub restore : Snapshot → Option RollbackError × List Action
restore s =
    let (restarts, errors) = each restart_container s.stopped_containers 0 in
    let (unpauses, errors') = each unpause_container s.paused_containers errors in
    (if ltb 0 errors' then some (completed_with_errors errors') else none, restarts ++ unpauses)

unfoldable pub rollback : RollbackManager → String → Option RollbackError × List Action
rollback rm job_id = elim (lookup job_id rm.snapshots) [
  | none ↦ (some (snapshot_not_found job_id), [])
  | some s ↦ restore s
]

unfoldable pub get_snapshot : RollbackManager → String → Option Snapshot
get_snapshot rm job_id = lookup job_id rm.snapshots

unfoldable pub delete_snapshot : RollbackManager → String → RollbackManager
delete_snapshot rm job_id = record rm { snapshots = delete job_id rm.snapshots }
