-- ===== src/Migration/Rollback/Restores.antt =====
-- internal/migration/rollback.go: a rollback undoes exactly what was recorded for its job.
use dockation.Prelude.{
  ℕ, String, ◌≡◌, refl, ap, ◌∙◌, Option, none, some, List, [], ◌∷◌, ◌++◌, map, inl, inr, arith,
  str_eq, eq_iff, if◌then◌else◌, Option-cases,
}
use dockation.Prelude.Dict.{lookup, lookup-insert, lookup-delete}
use dockation.Migration.Rollback.{
  ResourceRef, Snapshot, RollbackManager, new_rollback_manager, RollbackError, snapshot_not_found,
  create_snapshot, update, with_stopped, with_paused, with_created, record_container_stopped,
  record_container_paused, record_resource_created, Action, restart, unpause, restart_container,
  unpause_container, each, restore, rollback, delete_snapshot,
}

-- The calls that change the snapshots.
pub data Op : Type 0 where
  creates : String → ℕ → Op
  stops pauses : String → String → Op
  makes : String → ResourceRef → Op
  deletes : String → Op

unfoldable pub step : RollbackManager → Op → RollbackManager
step rm (creates job now) = create_snapshot rm job now
step rm (stops job c) = (record_container_stopped rm job c).1
step rm (pauses job c) = (record_container_paused rm job c).1
step rm (makes job resource) = (record_resource_created rm job resource).1
step rm (deletes job) = delete_snapshot rm job

unfoldable pub run : RollbackManager → List Op → RollbackManager
unfolding step
run rm [] = rm
run rm (o ∷ os) = run (step rm o) os

-- What one job's calls leave to undo: the containers stopped, and those paused, since its snapshot.
abbrev pub ToUndo : Type 0
ToUndo = Option (List String × List String)

abbrev add_stopped : String → ToUndo → ToUndo
add_stopped c none = none
add_stopped c (some (stopped, paused)) = some (stopped ++ c ∷ [], paused)

abbrev add_paused : String → ToUndo → ToUndo
add_paused c none = none
add_paused c (some (stopped, paused)) = some (stopped, paused ++ c ∷ [])

unfoldable pub noted : String → Op → ToUndo → ToUndo
noted j (creates job now) u = if str_eq job j then some ([], []) else u
noted j (stops job c) u = if str_eq job j then add_stopped c u else u
noted j (pauses job c) u = if str_eq job j then add_paused c u else u
noted j (makes job resource) u = u
noted j (deletes job) u = if str_eq job j then none else u

unfoldable pub all_noted : String → List Op → ToUndo → ToUndo
unfolding noted
all_noted j [] u = u
all_noted j (o ∷ os) u = all_noted j os (noted j o u)

-- How these are undone: the stopped containers are restarted, in the order in which they were
-- stopped, and then the paused ones are unpaused.
abbrev pub undo : String → ToUndo → Option RollbackError × List Action
undo j none = (some (snapshot_not_found j), [])
undo j (some (stopped, paused)) = (none, map restart stopped ++ map unpause paused)

abbrev seen : Option Snapshot → ToUndo
seen none = none
seen (some s) = some (s.stopped_containers, s.paused_containers)

abbrev map_snapshot : (Snapshot → Snapshot) → Option Snapshot → Option Snapshot
map_snapshot f none = none
map_snapshot f (some s) = some (f s)

lookup-update :
    (f : Snapshot → Snapshot) (rm : RollbackManager) (k j : String)
    → lookup j (update f rm k).1.snapshots
      ≡ (if str_eq k j then map_snapshot f (lookup j rm.snapshots) else lookup j rm.snapshots)
unfolding update
lookup-update f rm k j = elim (Option-cases (lookup k rm.snapshots)) [
  | inl e ↦ rw (e, update) (ground (arith, eq_iff k j))
  | inr (s, e) ↦ rw (e, update) (ground (arith, eq_iff k j, lookup-insert k j (f s) rm.snapshots))
]

seen-step :
    (rm : RollbackManager) (j : String) (o : Op)
    → seen (lookup j (step rm o).snapshots) ≡ noted j o (seen (lookup j rm.snapshots))
unfolding step noted create_snapshot record_container_stopped record_container_paused
    record_resource_created delete_snapshot
seen-step rm j (creates job now) =
    rw (lookup-insert job j _ rm.snapshots) (ground (arith, eq_iff job j))
seen-step rm j (stops job c) =
    rw (lookup-update (with_stopped c) rm job j) (ground (arith, eq_iff job j))
seen-step rm j (pauses job c) =
    rw (lookup-update (with_paused c) rm job j) (ground (arith, eq_iff job j))
seen-step rm j (makes job resource) =
    rw (lookup-update (with_created resource) rm job j) (ground (arith, eq_iff job j))
seen-step rm j (deletes job) = rw (lookup-delete job j rm.snapshots) (ground (arith, eq_iff job j))

seen-run :
    (rm : RollbackManager) (j : String) (os : List Op)
    → seen (lookup j (run rm os).snapshots) ≡ all_noted j os (seen (lookup j rm.snapshots))
unfolding run all_noted
seen-run rm j [] = refl
seen-run rm j (o ∷ os) = seen-run (step rm o) j os ∙ ap (all_noted j os) (seen-step rm j o)

each_restart : (ids : List String) (n : ℕ) → each restart_container ids n ≡ (map restart ids, n)
unfolding each
each_restart [] n = refl
each_restart (id ∷ ids) n = rw (each_restart ids n) refl

each_unpause : (ids : List String) (n : ℕ) → each unpause_container ids n ≡ (map unpause ids, n)
unfolding each
each_unpause [] n = refl
each_unpause (id ∷ ids) n = rw (each_unpause ids n) refl

restore-undo : (j : String) (s : Snapshot) → restore s ≡ undo j (seen (some s))
unfolding restore
restore-undo j s = rw (each_restart s.stopped_containers 0, each_unpause s.paused_containers 0) refl

rollback-seen :
    (rm : RollbackManager) (j : String) → rollback rm j ≡ undo j (seen (lookup j rm.snapshots))
unfolding rollback
rollback-seen rm j = elim (Option-cases (lookup j rm.snapshots)) [
  | inl e ↦ rw (e, rollback) refl
  | inr (s, e) ↦ rw (e, rollback) (restore-undo j s)
]

-- After any calls on a new manager, for any jobs, a rollback of a job restarts exactly the containers
-- recorded as stopped since that job's last snapshot, in their order, and then unpauses exactly those
-- recorded as paused, and reports no error; without a snapshot of the job that has not been deleted it
-- reports that, and does nothing.
pub rollback_lem :
    (j : String) (os : List Op)
    → rollback (run new_rollback_manager os) j ≡ undo j (all_noted j os none)
unfolding new_rollback_manager lookup
rollback_lem j os =
    rollback-seen (run new_rollback_manager os) j ∙ ap (undo j) (seen-run new_rollback_manager j os)
