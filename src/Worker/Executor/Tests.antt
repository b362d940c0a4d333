-- ===== src/Worker/Executor/Tests.antt =====
-- internal/worker/executor.go: executions on concrete requests.
use dockation.Prelude.{
  ℕ, String, ◌≡◌, ◌↔◌, refl, Bool, true, false, Option, none, some, List, [], ◌∷◌, ◌++◌,
}
use dockation.Proto.{
  MigrationRequest, AcceptMigrationRequest, MigrationMode, MigrationStrategy, TransferMode,
  WorkerMessage, WorkerRegistration,
}
use dockation.Proto.Transfers.{VolumeChunk}
use dockation.Master.Registry.{Op, registers, cleans, new_registry, run}
use dockation.Master.Proxy.Channels.{new_proxy_manager, open_proxy_channel, invalid_token}
use dockation.Worker.Executor.{
  Environment, StreamResults, execute_as_source, complete_message, transfer_each, transfer,
}
use dockation.Worker.Executor.Report.{AllProgress, AllSucceed, execute_as_source_lem}
use dockation.Worker.Executor.Handshake.{source_handshake, target_handshake, handshakes_refused}

abbrev fine : StreamResults
fine = record { opened = none; sent = none; closed = none; received = none }

abbrev broken : StreamResults
broken = record fine { received = some "reset" }

abbrev environment : Environment
environment = record {
  credentials = some (record { worker_id = "w1"; auth_token = "t1" });
  client = none;
  done_before_volume = λ i. false;
  done_before_image = λ i. false;
  volume = λ name. fine;
  image = λ name. broken;
  ratio = λ i n. i;
}

abbrev request : MigrationRequest
request = record {
  migration_id = "mig-1";
  target_worker_id = "w2";
  target_address = "";
  target_fingerprint = "";
  container_ids = [];
  image_ids = "nginx" ∷ [];
  volume_names = "www" ∷ [];
  network_ids = [];
  mode = MigrationMode.cold;
  strategy = MigrationStrategy.full;
  transfer_mode = TransferMode.proxy;
  proxy_address = "";
}

abbrev accept : AcceptMigrationRequest
accept = record {
  migration_id = "mig-1";
  source_worker_id = "w1";
  source_address = "";
  source_fingerprint = "";
  container_ids = [];
  image_ids = [];
  volume_names = [];
  network_ids = [];
  transfer_mode = TransferMode.proxy;
  proxy_address = "";
}

last : List WorkerMessage → Option WorkerMessage
last [] = none
last (m ∷ []) = some m
last (m ∷ n ∷ ms) = last (n ∷ ms)

image_fails :
    last (execute_as_source environment request)
    ≡ some (complete_message environment.credentials "mig-1" false "image transfer failed: reset" 0)
unfolding last execute_as_source transfer_each transfer
image_fails = refl

execute_as_source_lem_example :
    (sent : List WorkerMessage) × (success : Bool) × (error : String) × (execute_as_source
        environment request
      ≡ sent ++ complete_message environment.credentials "mig-1" success error 0 ∷ [])
    × AllProgress sent
    × ((success ≡ true) ↔ AllSucceed environment request)
execute_as_source_lem_example = execute_as_source_lem environment request

abbrev registration : WorkerRegistration
registration = record {
  enrollment_token = "";
  worker_name = "one";
  hostname = "";
  grpc_address = "";
  tls_fingerprint = "";
  labels = [];
  version = "";
}

abbrev calls : List (ℕ × Op)
calls = (5, registers registration "t1") ∷ (9, cleans) ∷ []

handshakes_refused_example :
    (open_proxy_channel (run (new_registry 30) calls) new_proxy_manager (source_handshake request) 1
      ≡ (some invalid_token, new_proxy_manager))
    × (open_proxy_channel
          (run (new_registry 30) calls)
          new_proxy_manager
          (target_handshake accept)
          1
        ≡ (some invalid_token, new_proxy_manager))
handshakes_refused_example =
    handshakes_refused 30 calls new_proxy_manager request accept 1 ((λ e. cc), tt)

abbrev chunk : ℕ → VolumeChunk
chunk offset = record {
  volume_id = "www";
  offset = offset;
  contents = 7 ∷ [];
  checksum = "wrong";
  total_size = 2;
  is_final = false;
}
