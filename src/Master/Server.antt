-- ===== src/Master/Server.antt =====
-- internal/master/grpc_server.go and master.go: the handlers of the master's gRPC service.
-- One call of `receive` is one round of WorkerStream's loop, after a message has come in on the
-- stream with that number. The random authentication token of a new worker is an argument.
pub mod Trace
pub mod Refuse
pub mod Join
pub mod Streams
mod Tests
use dockation.Prelude.{
  ℕ, ◌/◌, String, Bool, true, false, Option, none, some, List, [], ◌∷◌, str_eq, if◌then◌else◌,
}
use dockation.Proto.{
  WorkerRegistration, RegistrationResponse, ResourceInventory, AckResponse, Heartbeat,
  MasterCommand, CommandPayload, WorkerMessage, WorkerPayload,
}
use dockation.Master.Registry.{
  WorkerInfo, Registry, Sent, new_registry, register, get_by_auth_token, set_stream,
  update_heartbeat, update_inventory, cleanup_stale,
}
use dockation.Master.Orchestrator.{
  Orchestrator, new_orchestrator, update_progress, complete_migration,
}

-- Durations are in nanoseconds.
pub record MasterConfig : Type 0 where
  pub enrollment_token : String
  pub heartbeat_interval : ℕ
  pub inventory_interval : ℕ
  pub worker_timeout : ℕ

pub record Master : Type 0 where
  pub config : Option MasterConfig
  pub registry : Registry
  pub orchestrator : Orchestrator

unfoldable pub new_master : MasterConfig → String → Master
new_master config grpc_addr = record {
  config = some config;
  registry = new_registry config.worker_timeout;
  orchestrator = new_orchestrator grpc_addr;
}

abbrev token_matches : Option MasterConfig → String → Bool
token_matches none token = false
token_matches (some config) token = str_eq config.enrollment_token token

unfoldable pub validate_enrollment_token : Master → String → Bool
validate_enrollment_token m token = token_matches m.config token

-- time.Duration.Milliseconds.
abbrev pub milliseconds : ℕ → ℕ
milliseconds d = d / 1000000

abbrev pub heartbeat_ms : Option MasterConfig → ℕ
heartbeat_ms none = 0
heartbeat_ms (some config) = milliseconds config.heartbeat_interval

abbrev pub inventory_ms : Option MasterConfig → ℕ
inventory_ms none = 0
inventory_ms (some config) = milliseconds config.inventory_interval

abbrev pub registration_refused : RegistrationResponse
registration_refused = record {
  success = false;
  error = "invalid enrollment token";
  worker_id = "";
  auth_token = "";
  heartbeat_interval_ms = 0;
  inventory_interval_ms = 0;
}

unfoldable pub register_worker :
    Master → WorkerRegistration → String → ℕ → RegistrationResponse × Master
register_worker m reg auth_token now =
    let (registry, worker) = register m.registry reg auth_token now in
    if validate_enrollment_token m reg.enrollment_token
    then (
      record {
        success = true;
        error = "";
        worker_id = worker.id;
        auth_token = auth_token;
        heartbeat_interval_ms = heartbeat_ms m.config;
        inventory_interval_ms = inventory_ms m.config;
      },
      record m { registry = registry },
    )
    else (registration_refused, m)

abbrev pub heartbeat_ack : Heartbeat → MasterCommand
heartbeat_ack hb = record {
  command_id = "";
  payload = CommandPayload.heartbeat_ack (record { timestamp = hb.timestamp; healthy = true });
}

-- The switch over the payload. What sending the acknowledgement returns is only logged.
unfoldable pub handle : Master → String → ℕ → ℕ → WorkerPayload → Master × Sent
handle m worker_id stream now (WorkerPayload.heartbeat hb) = (
  record m { registry = update_heartbeat m.registry worker_id hb.status hb.system_resources now },
  (stream, heartbeat_ack hb) ∷ [],
)
handle m worker_id stream now (WorkerPayload.migration_progress p) =
    (record m { orchestrator = update_progress m.orchestrator p.migration_id p }, [])
handle m worker_id stream now (WorkerPayload.migration_complete c) =
    (record m { orchestrator = complete_migration m.orchestrator c.migration_id c now }, [])
handle m worker_id stream now (WorkerPayload.worker_error e) = (m, [])
handle m worker_id stream now WorkerPayload.unset = (m, [])

-- SetStream, if the worker has no stream.
unfoldable pub connect : Registry → WorkerInfo → ℕ → Registry
connect r worker stream = elim worker.stream [ none ↦ set_stream r worker.id stream | some s ↦ r ]

unfoldable pub receive : Master → ℕ → ℕ → WorkerMessage → Master × Sent
receive m stream now msg = elim (get_by_auth_token m.registry msg.auth_token) [
  | none ↦ (m, [])
  | some worker ↦
      handle (record m { registry = connect m.registry worker stream }) worker.id stream now
        msg.payload
]

unfoldable pub report_resources : Master → ResourceInventory → ℕ → AckResponse × Master
report_resources m inv now = elim (get_by_auth_token m.registry inv.auth_token) [
  | none ↦ (record { success = false; error = "invalid auth token" }, m)
  | some worker ↦ (
    record { success = true; error = "" },
    record m { registry = update_inventory m.registry worker.id inv now },
  )
]

-- What comes in: a registration with the token drawn for it, a message on a stream, an inventory,
-- or a tick of the cleanup.
pub data Event : Type 0 where
  registration : WorkerRegistration → String → Event
  message : ℕ → WorkerMessage → Event
  inventory : ResourceInventory → Event
  tick : Event

unfoldable pub serve_one : Master → ℕ × Event → Master
serve_one m (now, registration reg token) = (register_worker m reg token now).1
serve_one m (now, message stream msg) = (receive m stream now msg).0
serve_one m (now, inventory inv) = (report_resources m inv now).1
serve_one m (now, tick) = record m { registry = cleanup_stale m.registry now }

unfoldable pub serve : Master → List (ℕ × Event) → Master
unfolding serve_one
serve m [] = m
serve m (e ∷ es) = serve (serve_one m e) es
