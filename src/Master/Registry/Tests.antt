-- ===== src/Master/Registry/Tests.antt =====
-- internal/master/registry.go: the theorems at concrete workers.
use dockation.Prelude.{
  ℕ, String, ◌≡◌, refl, false, Option, none, some, List, [], ◌∷◌, arith, eq_iff,
}
use dockation.Prelude.Dict.{lookup, insert, Distinct}
use dockation.Prelude.Decimal.{tagged}
use dockation.Proto.{WorkerStatus, WorkerRegistration, MasterCommand, CommandPayload}
use dockation.Master.Registry.{
  WorkerInfo, Registry, Op, registers, new_worker, beats, cleans, unregisters, new_registry, get,
  run, Sender, generate_worker_id, register,
}
use dockation.Master.Registry.Laws.{cells, get-run}
use dockation.Master.Registry.Liveness.{StaysAlive, stays_registered}

abbrev pub worker : String → String → ℕ → Option ℕ → WorkerInfo
worker id token last stream = record {
  id = id;
  name = id;
  hostname = "host";
  grpc_address = "10.0.0.1:9090";
  tls_fingerprint = "ab";
  labels = [];
  version = "1.0";
  status = WorkerStatus.idle;
  auth_token = token;
  registered_at = 1;
  last_heartbeat = last;
  last_inventory = 0;
  containers = [];
  images = [];
  volumes = [];
  networks = [];
  system_resources = none;
  stream = stream;
}

abbrev pub first : WorkerInfo
first = worker "worker-1" "secret-1" 100 (some 7)

abbrev pub second : WorkerInfo
second = worker "worker-2" "secret-2" 90 none

abbrev pub two_workers : Registry
two_workers = record { workers = ("worker-1", first) ∷ ("worker-2", second) ∷ []; timeout = 30 }

pub two_workers-Distinct : Distinct two_workers.workers
unfolding lookup
two_workers-Distinct = (refl, (refl, tt))

pub first_stored : get two_workers "worker-1" ≡ some first
unfolding get lookup
first_stored = refl

abbrev calls : List (ℕ × Op)
calls =
    (110, beats "worker-1" WorkerStatus.busy none)
    ∷ (190, cleans)
    ∷ (191, unregisters "worker-2")
    ∷ []

calls-StaysAlive : StaysAlive 30 "worker-1" 100 calls
calls-StaysAlive = (omega arith, ((λ e. ground (arith, eq_iff "worker-2" "worker-1")), tt))

get-run_example :
    get (run two_workers calls) "worker-1" ≡ cells 30 "worker-1" calls (get two_workers "worker-1")
get-run_example = get-run two_workers "worker-1" calls two_workers-Distinct

stays_registered_example : (w : WorkerInfo) × (get (run two_workers calls) "worker-1" ≡ some w)
stays_registered_example =
    stays_registered two_workers "worker-1" first calls two_workers-Distinct first_stored
      calls-StaysAlive

abbrev pub reliable : Sender
reliable s c = none

abbrev pub notice : MasterCommand
notice = record {
  command_id = "1";
  payload = CommandPayload.shutdown (record { reason = "upgrade"; force = false });
}

abbrev pub registration : WorkerRegistration
registration = record {
  enrollment_token = "enroll";
  worker_name = "node";
  hostname = "host";
  grpc_address = "10.0.0.1:9090";
  tls_fingerprint = "ab";
  labels = [];
  version = "1.0";
}

abbrev joins : List (ℕ × Op)
joins = (5, registers registration "secret") ∷ []

joined : get (run (new_registry 30) joins) "worker-5" ≡ some (new_worker registration "secret" 5)
unfolding run new_registry register get generate_worker_id lookup insert tagged
joined = refl
