-- ===== src/Master/Api/Tests.antt =====
-- internal/master/api_migrations.go: requests to a master with two workers.
use dockation.Prelude.{◌≡◌, refl, [], ◌∷◌}
use dockation.Master.Registry.Tests.{two_workers, reliable}
use dockation.Master.Orchestrator.{Orchestrator, new_orchestrator}
use dockation.Master.Api.{body, bad_request, StartMigrationRequest, post_migration, post_cancel}
use dockation.Master.Api.Migrations.{Posted, CancelPosted, post_migration_lem, post_cancel_lem}

abbrev request : StartMigrationRequest
request = record {
  source_worker_id = "worker-1";
  target_worker_id = "worker-2";
  container_ids = [];
  image_ids = [];
  volume_names = "www" ∷ [];
  network_ids = [];
  mode = "warm";
  strategy = "";
  transfer_mode = "proxy";
}

abbrev idle : Orchestrator
idle = new_orchestrator "master:9090"

nothing_to_move :
    (post_migration idle two_workers (body (record request { volume_names = [] })) 100).0
    ≡ bad_request "at least one resource must be specified"
unfolding post_migration
nothing_to_move = refl

post_migration_lem_example : Posted idle (post_migration idle two_workers (body request) 100)
post_migration_lem_example = post_migration_lem idle two_workers (body request) 100

post_cancel_lem_example :
    let o = (post_migration idle two_workers (body request) 100).1 in
    CancelPosted o "mig-100" "" (post_cancel reliable two_workers o "mig-100" "" 101)
post_cancel_lem_example =
    post_cancel_lem reliable two_workers (post_migration idle two_workers (body request) 100).1
      "mig-100" "" 101
