-- ===== src/Migration/Rollback/Tests.antt =====
-- internal/migration/rollback.go: the theorem at concrete calls.
use dockation.Prelude.{◌≡◌, none, List, [], ◌∷◌}
use dockation.Migration.Rollback.{new_rollback_manager, restart, unpause, rollback}
use dockation.Migration.Rollback.Restores.{
  Op, creates, stops, pauses, run, noted, all_noted, rollback_lem,
}

abbrev calls : List Op
calls =
    creates "job-1" 1
    ∷ creates "job-2" 2
    ∷ stops "job-1" "web"
    ∷ pauses "job-1" "db"
    ∷ stops "job-2" "cache"
    ∷ []

rollback_lem_example :
    rollback (run new_rollback_manager calls) "job-1" ≡ (none, restart "web" ∷ unpause "db" ∷ [])
unfolding all_noted noted
rollback_lem_example = rollback_lem "job-1" calls
