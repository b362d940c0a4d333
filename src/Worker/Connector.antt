-- ===== src/Worker/Connector.antt =====
-- internal/worker/connector.go and worker.go: a worker's connection to its master.
-- The goroutines that a connection starts are a list of loops, each with the interval of its ticker.
-- What the network, the certificates and Docker return is an argument. A stream is a number. The
-- copy of the credentials in the configuration file is left out. A duration is an int64 in nanoseconds, as
-- its two's complement.
pub mod Running
pub mod Retry
pub mod Loops
pub mod Enrolled
mod Tests
use Prim.Native.String.{◌++◌ as str_append}
use dockation.Prelude.{
  ℕ, ◌+◌, ◌*◌, ◌%◌, ◌^◌, String, Bool, true, false, ◌&&◌, Option, none, some, List, [], ◌∷◌, ◌++◌,
  if◌then◌else◌, ltb, str_eq,
}
use dockation.Prelude.Dict.{Dict}
use dockation.Proto.{WorkerRegistration, RegistrationResponse}

pub record WorkerConfig : Type 0 where
  pub name : String
  pub labels : Dict String
  pub grpc_addr : String
  pub reconnect_interval : ℕ
  pub max_reconnect_interval : ℕ

pub data Loop : Type 0 where
  heartbeats inventories : ℕ → Loop
  receives : Loop

-- The worker's ID and token are those of its Worker.
pub record Connector : Type 0 where
  pub config : WorkerConfig
  pub worker_id : String
  pub auth_token : String
  pub enrollment_token : String
  pub heartbeat_interval : ℕ
  pub inventory_interval : ℕ
  pub stream : Option ℕ
  pub connected : Bool
  pub cancelled : Bool
  pub loops : List Loop
  pub reconnecting : ℕ

unfoldable pub new_connector : WorkerConfig → Connector
new_connector config = record {
  config = config;
  worker_id = "";
  auth_token = "";
  enrollment_token = "";
  heartbeat_interval = 10_000_000_000;
  inventory_interval = 60_000_000_000;
  stream = none;
  connected = false;
  cancelled = false;
  loops = [];
  reconnecting = 0;
}

-- What is returned to one call of doConnect: the error of Dial, the host's name, the fingerprint, the
-- response or the error of RegisterWorker, and the stream or the error of WorkerStream.
pub data Answer {ℓ} (A : Type ℓ) : Type ℓ where
  ok : A → Answer A
  err : String → Answer A

pub record Attempt : Type 0 where
  pub dialled : Option String
  pub hostname : String
  pub fingerprint : String
  pub registered : Answer RegistrationResponse
  pub opened : Answer ℕ

-- The request that it sends to RegisterWorker.
unfoldable pub registration : Connector → Attempt → WorkerRegistration
registration c a = record {
  enrollment_token = c.enrollment_token;
  worker_name = c.config.name;
  hostname = a.hostname;
  grpc_address = c.config.grpc_addr;
  tls_fingerprint = a.fingerprint;
  labels = c.config.labels;
  version = "1.0.0";
}

-- An interval in milliseconds, if it is positive, and otherwise what there was.
abbrev pub interval : ℕ → ℕ → ℕ
interval ms old = if ltb 0 ms && ltb ms (2 ^ 63) then ms * 1_000_000 % 2 ^ 64 else old

unfoldable pub set_credentials : RegistrationResponse → Connector → Connector
set_credentials resp c = record c {
  worker_id = resp.worker_id;
  auth_token = resp.auth_token;
  heartbeat_interval = interval resp.heartbeat_interval_ms c.heartbeat_interval;
  inventory_interval = interval resp.inventory_interval_ms c.inventory_interval;
}

abbrev pub after_open : Answer ℕ → Connector → Option String × Connector
after_open (err e) c = (some (str_append "failed to open stream: " e), c)
after_open (ok s) c = (none, record c { stream = some s; connected = true })

abbrev pub after_registration :
    Answer RegistrationResponse → Answer ℕ → Connector → Option String × Connector
after_registration (err e) opened c = (some (str_append "registration failed: " e), c)
after_registration (ok resp) opened c =
    if resp.success
    then after_open opened (set_credentials resp c)
    else (some (str_append "registration rejected: " resp.error), c)

abbrev pub after_dial : Attempt → Connector → Option String → Option String × Connector
after_dial a c (some e) = (some (str_append "failed to dial master: " e), c)
after_dial a c none =
    if str_eq a.fingerprint ""
    then (some "failed to get fingerprint: certificate not initialized", c)
    else after_registration a.registered a.opened c

unfoldable pub do_connect : Connector → Attempt → Option String × Connector
do_connect c a = after_dial a c a.dialled

-- a > b for two int64.
abbrev pub greater : ℕ → ℕ → Bool
greater a b = ltb ((b + 2 ^ 63) % 2 ^ 64) ((a + 2 ^ 63) % 2 ^ 64)

abbrev pub capped : ℕ → ℕ → ℕ
capped backoff max_backoff = if greater backoff max_backoff then max_backoff else backoff

abbrev pub next_backoff : ℕ → ℕ → ℕ
next_backoff backoff max_backoff = capped (backoff * 2 % 2 ^ 64) max_backoff

abbrev pub start_loops : Connector → Connector
start_loops c = record c {
  loops =
      c.loops ++ heartbeats c.heartbeat_interval ∷ inventories c.inventory_interval ∷ receives ∷ [];
}

-- A round of connectWithRetry: whether the context is done at its start, the attempt, and whether the
-- context is done before the wait is over.
pub record Try : Type 0 where
  pub done_before : Bool
  pub attempt : Attempt
  pub done_waiting : Bool

-- It returns nil or the context's error, or it is in the loop when the rounds run out.
pub data Tried : Type 0 where
  connects stops retries : Tried

abbrev pub Retried : Type 0
Retried = Tried × List ℕ × Connector

abbrev pub waits : ℕ → Bool → Connector → Retried → Retried
waits backoff true c rest = (stops, backoff ∷ [], c)
waits backoff false c (tried, ws, c') = (tried, backoff ∷ ws, c')

-- What a round makes of the attempt's result and of the rounds after it.
abbrev pub retry_round : ℕ → Try → Connector → Option String × Connector → Retried → Retried
retry_round backoff t c (error, c') rest = if t.done_before then (stops, [], c) else elim error [
  | none ↦ (connects, [], start_loops c')
  | some e ↦ waits backoff t.done_waiting c' rest
]

-- The waits are what time.After gets.
unfoldable pub retry_loop : ℕ → ℕ → List Try → Connector → Retried
retry_loop backoff max_backoff [] c = (retries, [], c)
retry_loop backoff max_backoff (t ∷ ts) c =
    let result = do_connect c t.attempt in
    retry_round backoff t c result
      (retry_loop (next_backoff backoff max_backoff) max_backoff ts result.1)

unfoldable pub connect_with_retry : Connector → List Try → Retried
connect_with_retry c ts =
    retry_loop c.config.reconnect_interval c.config.max_reconnect_interval ts c

-- The TLS configuration comes first.
unfoldable pub connect : Connector → String → Option String → List Try → Option String × Retried
connect c token tls ts =
    let c' = record c { enrollment_token = token } in
    elim tls [
      | some e ↦ (some (str_append "failed to get TLS config: " e), (stops, [], c'))
      | none ↦ (none, connect_with_retry c' ts)
    ]

unfoldable pub disconnect : Connector → Connector
disconnect c = record c { connected = false; cancelled = true }

-- It starts `reconnect`.
unfoldable pub handle_disconnect : Connector → Connector
handle_disconnect c = record c { connected = false; reconnecting = 1 + c.reconnecting }

unfoldable pub reconnect : Connector → Option String → List Try → Connector
reconnect c (some e) ts = c
reconnect c none ts = (connect_with_retry c ts).2
