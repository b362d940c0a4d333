-- ===== src/Master/Server/Tests.antt =====
-- internal/master/grpc_server.go: the theorems at a concrete master.
use dockation.Prelude.{String, ◌≡◌, ◌≢◌, refl, true, none, some, [], ◌∷◌, arith, eq_iff}
use dockation.Prelude.Dict.{lookup}
use dockation.Proto.{WorkerMessage, WorkerPayload, Heartbeat, WorkerStatus}
use dockation.Master.Registry.{get, send_command}
use dockation.Master.Registry.Tests.{
  two_workers, two_workers-Distinct, registration as newcomer, reliable, notice,
}
use dockation.Master.Orchestrator.{new_orchestrator}
use dockation.Master.Server.{
  Master, MasterConfig, validate_enrollment_token, register_worker, receive, heartbeat_ack, message,
  serve,
}
use dockation.Master.Server.Refuse.{IsUnknown, serve_refused}
use dockation.Master.Server.Join.{first_beat, joined, join_lem}

abbrev config : MasterConfig
config = record {
  enrollment_token = "enroll";
  heartbeat_interval = 10000000000;
  inventory_interval = 60000000000;
  worker_timeout = 30;
}

abbrev master : Master
master = record {
  config = some config;
  registry = two_workers;
  orchestrator = new_orchestrator "master:9090";
}

abbrev beat : Heartbeat
beat = record {
  timestamp = 1;
  status = WorkerStatus.busy;
  active_migrations = 0;
  system_resources = none;
}

abbrev says : String → WorkerMessage
says token = record { worker_id = ""; auth_token = token; payload = WorkerPayload.heartbeat beat }

unknown :
    (token : String)
    → ◌≢◌ {A = String} "secret-1" token
    → ◌≢◌ {A = String} "secret-2" token
    → IsUnknown two_workers token
unfolding get lookup
unknown token n1 n2 k w e = ground (arith, eq_iff "worker-1" k, eq_iff "worker-2" k)

stranger : IsUnknown two_workers "guess"
stranger =
    unknown "guess" (λ e. ground (arith, eq_iff "secret-1" "guess"))
      (λ e. ground (arith, eq_iff "secret-2" "guess"))

serve_refused_example : serve master ((120, message 9 (says "guess")) ∷ []) ≡ master
serve_refused_example =
    serve_refused master ((120, message 9 (says "guess")) ∷ []) two_workers-Distinct (stranger, tt)

valid : validate_enrollment_token master "enroll" ≡ true
unfolding validate_enrollment_token
valid = refl

join_lem_example :
    let (response, m1) = register_worker master newcomer "guess" 5 in
    let (m2, sent) = receive m1 9 6 (first_beat master newcomer "guess" 5 9 6 beat) in
    (response.success ≡ true)
    × (response.auth_token ≡ "guess")
    × (get m2.registry response.worker_id ≡ some (joined newcomer "guess" 5 9 6 beat))
    × (sent ≡ (9, heartbeat_ack beat) ∷ [])
    × (send_command reliable m2.registry response.worker_id notice ≡ (none, (9, notice) ∷ []))
join_lem_example =
    join_lem master newcomer "guess" 5 9 6 beat reliable notice valid two_workers-Distinct stranger
