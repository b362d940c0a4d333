-- ===== src/Worker/Connector/Running.antt =====
-- internal/worker/connector.go: what a connected worker sends and does.
use dockation.Prelude.{
  ℕ, zero, suc, String, Bool, true, false, Option, none, some, List, [], ◌∷◌, if◌then◌else◌,
}
use dockation.Proto.{
  ResourceInventory, SystemResources, WorkerStatus, Heartbeat, MigrationRole, MigrationRequest,
  AcceptMigrationRequest, MigrationProgress, MigrationComplete, CommandPayload, WorkerMessage,
  WorkerPayload, StartMigrationCommand, UpdateConfigCommand,
}
use dockation.Worker.Connector.{
  Connector, Loop, heartbeats, inventories, receives, Try, interval, disconnect, handle_disconnect,
  reconnect,
}

abbrev pub message : Connector → WorkerPayload → WorkerMessage
message c payload = record { worker_id = c.worker_id; auth_token = c.auth_token; payload = payload }

abbrev pub get_system_resources : SystemResources
get_system_resources = record {
  cpu_percent = 0;
  memory_total = 0;
  memory_available = 0;
  disk_total = 0;
  disk_available = 0;
  network_rx_bytes = 0;
  network_tx_bytes = 0;
}

abbrev pub idle_beat : ℕ → Heartbeat
idle_beat now = record {
  timestamp = now;
  status = WorkerStatus.idle;
  active_migrations = 0;
  system_resources = some get_system_resources;
}

abbrev pub heartbeat_message : Connector → ℕ → WorkerMessage
heartbeat_message c now = message c (WorkerPayload.heartbeat (idle_beat now))

-- What is sent, on which stream.
abbrev pub Sends : Type 0
Sends = List (ℕ × WorkerMessage)

abbrev pub on_error : Option String → Connector → Connector
on_error none c = c
on_error (some e) c = handle_disconnect c

-- A tick of heartbeatLoop, with what Send returns.
unfoldable pub send_heartbeat : Connector → ℕ → Option String → Connector × Sends
send_heartbeat c now sent = elim c.stream [
  | none ↦ (c, [])
  | some s ↦ (on_error sent c, (s, heartbeat_message c now) ∷ [])
]

-- Scan's inventory, or nothing if it fails; the report's own error is only logged.
unfoldable pub send_inventory : Connector → ℕ → Option ResourceInventory → Option ResourceInventory
send_inventory c now none = none
send_inventory c now (some inv) =
    some (record inv { worker_id = c.worker_id; auth_token = c.auth_token; timestamp = now })

-- Calls of the executor, which runs beside the loops, and of the worker.
pub data Effect : Type 0 where
  executes_as_source : Option MigrationRequest → Option ℕ → Effect
  executes_as_target : Option AcceptMigrationRequest → Option ℕ → Effect
  cancels : String → Effect
  stops : Effect

abbrev pub handle_start_migration : StartMigrationCommand → Connector → List Effect
handle_start_migration cmd c = elim cmd.role [
  | MigrationRole.source ↦ executes_as_source cmd.request c.stream ∷ []
  | MigrationRole.target ↦ executes_as_target cmd.accept_request c.stream ∷ []
  | MigrationRole.unknown ↦ []
]

abbrev pub handle_update_config : UpdateConfigCommand → Connector → Connector
handle_update_config cmd c = record c {
  heartbeat_interval = interval cmd.heartbeat_interval_ms c.heartbeat_interval;
  inventory_interval = interval cmd.inventory_interval_ms c.inventory_interval;
}

unfoldable pub handle_command : CommandPayload → Connector → Connector × List Effect
handle_command (CommandPayload.heartbeat_ack a) c = (c, [])
handle_command (CommandPayload.start_migration cmd) c = (c, handle_start_migration cmd c)
handle_command (CommandPayload.cancel_migration cmd) c = (c, cancels cmd.migration_id ∷ [])
handle_command (CommandPayload.update_config cmd) c = (handle_update_config cmd c, [])
handle_command (CommandPayload.shutdown cmd) c = (disconnect c, stops ∷ [])

abbrev pub is_receives : Loop → Bool
is_receives receives = true
is_receives (heartbeats n) = false
is_receives (inventories n) = false

abbrev pub end_receives : List Loop → List Loop
end_receives [] = []
end_receives (l ∷ ls) = if is_receives l then ls else l ∷ end_receives ls

-- A round of a receiveLoop: its context is done, or Recv has failed or has a command.
pub data Received : Type 0 where
  context_done failed : Received
  commands : CommandPayload → Received

abbrev pub end_receive : Connector → Connector
end_receive c = record c { loops = end_receives c.loops }

abbrev pub receive_from : ℕ → Received → Connector → Connector × List Effect
receive_from s context_done c = (end_receive c, [])
receive_from s failed c = (handle_disconnect (end_receive c), [])
receive_from s (commands payload) c = handle_command payload c

unfoldable pub receive : Received → Connector → Connector × List Effect
receive r c = elim c.stream [ none ↦ (end_receive c, []) | some s ↦ receive_from s r c ]

-- SendProgress and SendComplete: what is sent, or "not connected".
unfoldable pub send_progress : Connector → MigrationProgress → Option (ℕ × WorkerMessage)
send_progress c p = elim c.stream [
  | none ↦ none
  | some s ↦ some (s, message c (WorkerPayload.migration_progress p))
]

unfoldable pub send_complete : Connector → MigrationComplete → Option (ℕ × WorkerMessage)
send_complete c p = elim c.stream [
  | none ↦ none
  | some s ↦ some (s, message c (WorkerPayload.migration_complete p))
]

-- What happens to a connected worker, while its context is not done: a tick, a round of a receiveLoop, or a
-- reconnection that handleDisconnect has started. A reconnection takes place at once.
pub data Event : Type 0 where
  beats : ℕ → Option String → Event
  round : Received → Event
  reconnects : Option String → List Try → Event

abbrev pub attempted : ℕ → Option String → List Try → Connector → Connector
attempted zero tls ts c = c
attempted (suc n) tls ts c = reconnect (record c { reconnecting = n }) tls ts

unfoldable pub step : Event → Connector → Connector
step (beats now sent) c = (send_heartbeat c now sent).0
step (round r) c = (receive r c).0
step (reconnects tls ts) c = attempted c.reconnecting tls ts c

unfoldable pub run : List Event → Connector → Connector
run [] c = c
run (e ∷ es) c = run es (step e c)
