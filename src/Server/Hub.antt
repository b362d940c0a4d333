-- ===== src/Server/Hub.antt =====
-- internal/server/websocket.go: the hub of the WebSocket clients.
-- A client is the place of its `send` channel in a store, and a message is its text. A blocking send to
-- the hub takes place when the hub is at its select, and otherwise waits: then the event changes nothing.
-- The order of the range over the clients is an argument. Run is called once.
pub mod Stuck
pub mod Delivery
mod Tests
use dockation.Prelude.{
  ℕ, ◌+◌, ◌==◌, String, Bool, true, false, not, Option, none, some, List, [], ◌∷◌, ◌++◌, length,
  get_elem?, set, if◌then◌else◌, ltb,
}

pub record Channel : Type 0 where
  pub buffer : List String
  pub closed : Bool

-- Run's goroutine: at its select, or for ever in a send on `unregister`, from which only it receives.
pub data Loop : Type 0 where
  idle selecting blocked : Loop

pub record Hub : Type 0 where
  pub store : List Channel
  pub clients : List ℕ
  pub broadcast : List String
  pub running : Bool
  pub loop : Loop
  pub crashed : Bool

unfoldable pub new_hub : Hub
new_hub = record {
  store = [];
  clients = [];
  broadcast = [];
  running = false;
  loop = idle;
  crashed = false;
}

-- The capacity of both kinds of channels.
abbrev pub capacity : ℕ
capacity = 256

abbrev pub has_room : List String → Bool
has_room buffer = ltb (length buffer) capacity

abbrev pub push : String → Channel → Channel
push m ch = record ch { buffer = ch.buffer ++ m ∷ [] }

-- The loop over the clients of a broadcast: done, in a send on `unregister`, or in a panic.
pub data Sent : Type 0 where
  sent : List Channel → Sent
  blocks : List Channel → Sent
  panics : Sent

abbrev pub send_one : String → ℕ → List Channel → Option Channel → (List Channel → Sent) → Sent
send_one m c store none rest = rest store
send_one m c store (some ch) rest =
    if ch.closed
    then panics
    else if has_room ch.buffer
    then rest (set store c (push m ch))
    else blocks store

unfoldable pub send_each : String → List ℕ → List Channel → Sent
send_each m [] store = sent store
send_each m (c ∷ cs) store =
    send_one m c store (get_elem? store c) (λ store'. send_each m cs store')

abbrev pub after_sends : Hub → List String → Sent → Hub
after_sends h queue (sent store) = record h { store = store; broadcast = queue }
after_sends h queue (blocks store) = record h { store = store; broadcast = queue; loop = blocked }
after_sends h queue panics = record h { broadcast = queue; crashed = true }

-- The case of Run that receives a message.
abbrev pub deliver : List ℕ → Hub → List String → Hub
deliver order h [] = h
deliver order h (m ∷ queue) = after_sends h queue (send_each m order h.store)

abbrev pub fresh : Channel
fresh = record { buffer = []; closed = false }

-- HandleWebSocket.
abbrev pub register : Hub → Loop → Hub
register h selecting = record h {
  store = h.store ++ fresh ∷ [];
  clients = h.clients ++ length h.store ∷ [];
}
register h idle = record h { store = h.store ++ fresh ∷ [] }
register h blocked = record h { store = h.store ++ fresh ∷ [] }

abbrev pub is_client : ℕ → List ℕ → Bool
is_client c [] = false
is_client c (x ∷ xs) = if c == x then true else is_client c xs

abbrev pub without : ℕ → List ℕ → List ℕ
without c [] = []
without c (x ∷ xs) = if c == x then without c xs else x ∷ without c xs

abbrev pub close : ℕ → List Channel → List Channel
close c store = elim (get_elem? store c) [
  | none ↦ store
  | some ch ↦ set store c (record ch { closed = true })
]

-- What the deferred function of readPump sends.
abbrev pub unregister : ℕ → Hub → Loop → Hub
unregister c h selecting =
    if is_client c h.clients
    then record h { store = close c h.store; clients = without c h.clients }
    else h
unregister c h idle = h
unregister c h blocked = h

abbrev pub close_all : List ℕ → List Channel → List Channel
close_all [] store = store
close_all (c ∷ cs) store = close_all cs (close c store)

unfoldable pub run_hub : Hub → Hub
run_hub h = if h.running then h else record h { running = true; loop = selecting }

unfoldable pub stop_hub : Hub → Hub
stop_hub h =
    if not h.running
    then h
    else record h { running = false; store = close_all h.clients h.store; clients = [] }

unfoldable pub broadcast : String → Hub → Hub
broadcast m h =
    if not h.running
    then h
    else if has_room h.broadcast
    then record h { broadcast = h.broadcast ++ m ∷ [] }
    else h

-- handleMessage's answer to a ping, sent from the client's own goroutine.
abbrev pub answer_ping : String → ℕ → Hub → Option Channel → Hub
answer_ping pong c h none = h
answer_ping pong c h (some ch) =
    if ch.closed
    then record h { crashed = true }
    else if has_room ch.buffer
    then record h { store = set h.store c (push pong ch) }
    else h

abbrev pub pop : Channel → Channel
pop ch = elim ch.buffer [ [] ↦ ch | m ∷ ms ↦ record ch { buffer = ms } ]

-- writePump receives a message.
abbrev pub write : ℕ → Hub → Option Channel → Hub
write c h none = h
write c h (some ch) = record h { store = set h.store c (pop ch) }

abbrev pub take_message : List ℕ → Hub → Loop → Hub
take_message order h selecting = deliver order h h.broadcast
take_message order h idle = h
take_message order h blocked = h

pub data Event : Type 0 where
  starts stops joins : Event
  leaves writes : ℕ → Event
  broadcasts : String → Event
  delivers : List ℕ → Event
  pings : ℕ → String → Event

unfoldable pub step : Event → Hub → Hub
step starts h = run_hub h
step stops h = stop_hub h
step joins h = register h h.loop
step (leaves c) h = unregister c h h.loop
step (writes c) h = write c h (get_elem? h.store c)
step (broadcasts m) h = broadcast m h
step (delivers order) h = take_message order h h.loop
step (pings c pong) h = answer_ping pong c h (get_elem? h.store c)

unfoldable pub run : List Event → Hub → Hub
run [] h = h
run (e ∷ es) h = run es (step e h)
