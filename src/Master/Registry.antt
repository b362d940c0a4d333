-- ===== src/Master/Registry.antt =====
-- internal/master/registry.go: the workers that are connected to the master.
-- Each method holds the registry's lock, so it is one step. The clock is the argument `now`, in
-- nanoseconds; `t.After(now.Add(-d))` is written `now < t + d`, and `t.Before(now.Add(-d))` is
-- written `t + d < now`, since `-` on ℕ stops at 0. A gRPC stream is named by a number, and what
-- sending on it returns is the argument `send`.
pub mod Laws
pub mod Liveness
pub mod Auth
pub mod Tests
use dockation.Prelude.{
  ℕ, ◌+◌, ◌*◌, String, Bool, true, false, Option, none, some, List, [], ◌∷◌, ltb, str_eq,
  if◌then◌else◌,
}
use dockation.Prelude.Decimal.{tagged}
use dockation.Prelude.Dict.{Dict, lookup, insert, delete, retain, select, values}
use dockation.Proto.{
  WorkerStatus, WorkerRegistration, SystemResources, ResourceInventory, MasterCommand,
  ContainerResource, ImageResource, VolumeResource, NetworkResource,
}

pub record WorkerInfo : Type 0 where
  pub id : String
  pub name : String
  pub hostname : String
  pub grpc_address : String
  pub tls_fingerprint : String
  pub labels : Dict String
  pub version : String
  pub status : WorkerStatus
  pub auth_token : String
  pub registered_at : ℕ
  pub last_heartbeat : ℕ
  pub last_inventory : ℕ
  pub containers : List ContainerResource
  pub images : List ImageResource
  pub volumes : List VolumeResource
  pub networks : List NetworkResource
  pub system_resources : Option SystemResources
  pub stream : Option ℕ

pub record Registry : Type 0 where
  pub workers : Dict WorkerInfo
  pub timeout : ℕ

unfoldable pub new_registry : ℕ → Registry
new_registry timeout = record { workers = []; timeout = timeout }

-- generateWorkerID: the clock in nanoseconds.
unfoldable pub generate_worker_id : ℕ → String
generate_worker_id now = tagged "worker-" now

unfoldable pub new_worker : WorkerRegistration → String → ℕ → WorkerInfo
new_worker reg auth_token now = record {
  id = generate_worker_id now;
  name = reg.worker_name;
  hostname = reg.hostname;
  grpc_address = reg.grpc_address;
  tls_fingerprint = reg.tls_fingerprint;
  labels = reg.labels;
  version = reg.version;
  status = WorkerStatus.idle;
  auth_token = auth_token;
  registered_at = now;
  last_heartbeat = now;
  last_inventory = 0;
  containers = [];
  images = [];
  volumes = [];
  networks = [];
  system_resources = none;
  stream = none;
}

unfoldable pub register : Registry → WorkerRegistration → String → ℕ → Registry × WorkerInfo
unfolding new_worker
register r reg auth_token now =
    let worker = new_worker reg auth_token now in
    (record r { workers = insert worker.id worker r.workers }, worker)

unfoldable pub unregister : Registry → String → Registry
unregister r worker_id = elim (lookup worker_id r.workers) [
  | some w ↦ record r { workers = delete worker_id r.workers }
  | none ↦ r
]

unfoldable pub get : Registry → String → Option WorkerInfo
get r worker_id = lookup worker_id r.workers

find_auth_token : String → Dict WorkerInfo → Option WorkerInfo
find_auth_token token [] = none
find_auth_token token ((id, w) ∷ ws) =
    if str_eq w.auth_token token then some w else find_auth_token token ws

unfoldable pub get_by_auth_token : Registry → String → Option WorkerInfo
unfolding find_auth_token
get_by_auth_token r token = find_auth_token token r.workers

unfoldable pub list : Registry → List WorkerInfo
list r = values r.workers

abbrev pub beats_after : ℕ → ℕ → WorkerInfo → Bool
beats_after now timeout w = ltb now (w.last_heartbeat + timeout)

unfoldable pub list_online : Registry → ℕ → List WorkerInfo
list_online r now = select (beats_after now r.timeout) r.workers

-- `if w, ok := r.workers[id]; ok { change(w) }`, where `w` is a pointer into the map.
unfoldable pub modify : (WorkerInfo → WorkerInfo) → String → Registry → Registry
modify change worker_id r = elim (lookup worker_id r.workers) [
  | some w ↦ record r { workers = insert worker_id (change w) r.workers }
  | none ↦ r
]

abbrev newer : Option SystemResources → Option SystemResources → Option SystemResources
newer none old = old
newer (some s) old = some s

abbrev pub beat : ℕ → WorkerStatus → Option SystemResources → WorkerInfo → WorkerInfo
beat now status resources w = record w {
  last_heartbeat = now;
  status = status;
  system_resources = newer resources w.system_resources;
}

unfoldable pub update_heartbeat :
    Registry → String → WorkerStatus → Option SystemResources → ℕ → Registry
update_heartbeat r worker_id status resources now = modify (beat now status resources) worker_id r

abbrev pub stock : ℕ → ResourceInventory → WorkerInfo → WorkerInfo
stock now inv w = record w {
  last_inventory = now;
  containers = inv.containers;
  images = inv.images;
  volumes = inv.volumes;
  networks = inv.networks;
}

unfoldable pub update_inventory : Registry → String → ResourceInventory → ℕ → Registry
update_inventory r worker_id inv now = modify (stock now inv) worker_id r

abbrev pub attach : ℕ → WorkerInfo → WorkerInfo
attach stream w = record w { stream = some stream }

unfoldable pub set_stream : Registry → String → ℕ → Registry
set_stream r worker_id stream = modify (attach stream) worker_id r

pub data SendError : Type 0 where
  worker_not_found : String → SendError
  stream_not_connected : String → SendError
  send_failed : String → SendError

-- What `stream.Send` returns for a stream and a command: nil, or an error's text.
abbrev pub Sender : Type 0
Sender = ℕ → MasterCommand → Option String

-- The calls of `stream.Send`, oldest first.
abbrev pub Sent : Type 0
Sent = List (ℕ × MasterCommand)

abbrev pub sent_error : Option String → Option SendError
sent_error none = none
sent_error (some e) = some (send_failed e)

unfoldable pub send_on : Sender → String → Option ℕ → MasterCommand → Option SendError × Sent
send_on send worker_id none cmd = (some (stream_not_connected worker_id), [])
send_on send worker_id (some stream) cmd = (sent_error (send stream cmd), (stream, cmd) ∷ [])

unfoldable pub send_command : Sender → Registry → String → MasterCommand → Option SendError × Sent
unfolding send_on
send_command send r worker_id cmd = elim (lookup worker_id r.workers) [
  | some w ↦ send_on send worker_id w.stream cmd
  | none ↦ (some (worker_not_found worker_id), [])
]

abbrev pub not_stale : ℕ → ℕ → WorkerInfo → Bool
not_stale now timeout w = if ltb (w.last_heartbeat + timeout * 3) now then false else true

unfoldable pub cleanup_stale : Registry → ℕ → Registry
cleanup_stale r now = record r { workers = retain (not_stale now r.timeout) r.workers }

abbrev online_at : ℕ → ℕ → Option WorkerInfo → Bool
online_at now timeout none = false
online_at now timeout (some w) = beats_after now timeout w

unfoldable pub is_online : Registry → String → ℕ → Bool
is_online r worker_id now = online_at now r.timeout (lookup worker_id r.workers)

-- The calls that change the registry; StartCleanup makes the last one at each tick.
pub data Op : Type 0 where
  registers : WorkerRegistration → String → Op
  unregisters : String → Op
  beats : String → WorkerStatus → Option SystemResources → Op
  reports : String → ResourceInventory → Op
  connects : String → ℕ → Op
  cleans : Op

unfoldable pub step : Registry → ℕ × Op → Registry
step r (now, registers reg token) = (register r reg token now).0
step r (now, unregisters id) = unregister r id
step r (now, beats id status resources) = update_heartbeat r id status resources now
step r (now, reports id inv) = update_inventory r id inv now
step r (now, connects id stream) = set_stream r id stream
step r (now, cleans) = cleanup_stale r now

unfoldable pub run : Registry → List (ℕ × Op) → Registry
unfolding step
run r [] = r
run r (o ∷ os) = run (step r o) os
