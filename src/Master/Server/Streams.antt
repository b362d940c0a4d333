-- ===== src/Master/Server/Streams.antt =====
-- internal/master/grpc_server.go, WorkerStream: which stream a worker's commands go to.
use dockation.Prelude.{ℕ, String, ◌≡◌, ◌≢◌, Option, none, some, List, [], ◌∷◌}
use dockation.Master.Registry.{
  WorkerInfo, Registry, Op, registers, connects, generate_worker_id, get,
}
use dockation.Master.Server.{Master, Event, registration}

-- If there is a worker, its stream is `s`.
abbrev HasStream : ℕ → Option WorkerInfo → Type 0
HasStream s none = Unit
HasStream s (some w) = w.stream ≡ some s

-- The call neither registers under the ID nor sets its stream.
abbrev LeavesStream : String → ℕ × Op → Type 0
LeavesStream j (now, registers reg token) = generate_worker_id now ≢ j
LeavesStream j (now, connects id stream) = id ≢ j
LeavesStream j (now, _) = Unit

-- The worker `j` has the stream `s` in a registry that is well formed.
abbrev Streams : String → ℕ → Registry → Type 0
Streams j s r = HasStream s (get r j)

-- The event does not register a worker under the ID.
abbrev pub IsOther : String → ℕ × Event → Type 0
IsOther j (now, registration reg token) = generate_worker_id now ≢ j
IsOther j (now, _) = Unit

abbrev pub AllOther : String → List (ℕ × Event) → Type 0
AllOther j [] = Unit
AllOther j (e ∷ es) = IsOther j e × AllOther j es
