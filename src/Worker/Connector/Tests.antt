-- ===== src/Worker/Connector/Tests.antt =====
-- internal/worker/connector.go: the connections of a concrete worker.
use dockation.Prelude.{
  String, ◌≡◌, ◌≢◌, refl, true, false, none, some, List, [], ◌∷◌, ◌++◌, arith, eq_iff,
}
use dockation.Prelude.Dict.{lookup}
use dockation.Proto.{RegistrationResponse, MasterCommand, CommandPayload}
use dockation.Master.Registry.{new_registry, get, Sender}
use dockation.Master.Server.{Master, new_master, register_worker, validate_enrollment_token}
use dockation.Worker.Connector.{
  WorkerConfig, Connector, new_connector, handle_disconnect, reconnect, ok, err, Attempt, Try,
  connects, registration, do_connect, connect_with_retry, retry_loop, set_credentials, heartbeats,
}
use dockation.Worker.Connector.Retry.{Fails, exponential, IsOn, connect_with_retry_lem}
use dockation.Worker.Connector.Running.{
  Event, beats, round, reconnects, failed, step, run, receive, send_heartbeat,
}
use dockation.Worker.Connector.Loops.{Grows, connections, loops_accumulate}
use dockation.Worker.Connector.Enrolled.{Known, enrolled}

abbrev config : WorkerConfig
config = record {
  name = "w";
  labels = [];
  grpc_addr = ":9091";
  reconnect_interval = 5;
  max_reconnect_interval = 8;
}

abbrev response : RegistrationResponse
response = record {
  success = true;
  error = "";
  worker_id = "worker-1";
  auth_token = "secret";
  heartbeat_interval_ms = 10;
  inventory_interval_ms = 0;
}

abbrev good : Attempt
good = record {
  dialled = none;
  hostname = "h";
  fingerprint = "f";
  registered = ok response;
  opened = ok 4;
}

abbrev bad : Attempt
bad = record good { registered = err "unavailable" }

abbrev going : Attempt → Try
going a = record { done_before = false; attempt = a; done_waiting = false }

named : ◌≢◌ {A = String} "f" ""
named = λ e. absurd (ground (arith, eq_iff "f" ""))

bad-Fails : Fails bad
bad-Fails resp s (d, f, r, success, o) = cc

connect_with_retry_lem_example :
    let (tried, ws, c) =
      connect_with_retry (new_connector config) ((going bad ∷ going bad ∷ []) ++ going good ∷ []) in
    (tried ≡ connects) × (ws ≡ exponential 5 8 0 2) × IsOn response 4 [] c
unfolding new_connector
connect_with_retry_lem_example =
    connect_with_retry_lem (new_connector config) (going bad ∷ going bad ∷ []) (going good) []
      response 4 (refl, refl, bad-Fails, (refl, refl, bad-Fails, tt)) refl
      (refl, named, refl, refl, refl) (ground arith) (ground arith)

waits_grow : exponential 5 8 0 2 ≡ 5 ∷ 8 ∷ []
waits_grow = refl

-- The stream breaks, which a heartbeat and the receiving loop both find.
abbrev connected : Connector
connected = record (new_connector config) {
  stream = some 4;
  connected = true;
  loops = heartbeats 10 ∷ [];
}

abbrev breaks : List Event
breaks =
    round failed
    ∷ beats 1 (some "EOF")
    ∷ reconnects none (going good ∷ [])
    ∷ reconnects none (going good ∷ [])
    ∷ []

connects_twice : connections breaks connected ≡ 2
unfolding run step send_heartbeat receive handle_disconnect new_connector connect_with_retry
    retry_loop do_connect reconnect set_credentials
connects_twice = refl

loops_accumulate_example : Grows (connections breaks connected) connected (run breaks connected)
loops_accumulate_example = loops_accumulate breaks connected

abbrev master : Master
master =
    new_master
      (record {
        enrollment_token = "enroll";
        heartbeat_interval = 10_000_000_000;
        inventory_interval = 60_000_000_000;
        worker_timeout = 30;
      })
      "master:9090"

abbrev enrolling : Connector
enrolling = record (new_connector config) { enrollment_token = "enroll" }

abbrev accepted : Attempt
accepted = record good {
  registered = ok (register_worker master (registration enrolling good) "secret" 7).0;
}

abbrev deliver : Sender
deliver s cmd = none

abbrev notice : MasterCommand
notice = record {
  command_id = "";
  payload = CommandPayload.heartbeat_ack (record { timestamp = 1; healthy = true });
}

enrolled_example :
    Known master enrolling accepted "secret" 7 4 8 9 deliver notice (do_connect enrolling accepted)
unfolding registration validate_enrollment_token new_master new_registry get lookup
enrolled_example =
    enrolled master enrolling accepted "secret" 7 4 8 9 deliver notice refl named refl refl refl tt
      (λ k w e. cc)
