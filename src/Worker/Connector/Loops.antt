-- ===== src/Worker/Connector/Loops.antt =====
-- internal/worker/connector.go: the loops that reconnections leave behind.
use dockation.Prelude.{
  ℕ, zero, suc, ◌+◌, String, ◌≡◌, refl, ap, ◌∙◌, Bool, true, false, Option, none, some, List, [],
  ◌∷◌, ◌++◌, arith, Bool-cases, Option-cases, inl, inr,
}
use dockation.Proto.{CommandPayload}
use dockation.Worker.Connector.{
  Connector, Loop, heartbeats, inventories, receives, Try, Tried, connects, stops, retries, Retried,
  retry_loop, connect_with_retry, retry_round, start_loops, waits, do_connect, next_backoff,
  disconnect, handle_disconnect, reconnect,
}
use dockation.Worker.Connector.Retry.{do_connect-loops}
use dockation.Worker.Connector.Running.{
  Event, beats, round, reconnects, step, run, attempted, receive, receive_from, end_receive,
  end_receives, send_heartbeat, on_error, handle_command, Received, context_done, failed, commands,
}

-- The loops that send heartbeats.
abbrev pub beating : List Loop → ℕ
beating [] = 0
beating (heartbeats n ∷ ls) = suc (beating ls)
beating (inventories n ∷ ls) = beating ls
beating (receives ∷ ls) = beating ls

-- Those that report inventories.
abbrev pub reporting : List Loop → ℕ
reporting [] = 0
reporting (inventories n ∷ ls) = suc (reporting ls)
reporting (heartbeats n ∷ ls) = reporting ls
reporting (receives ∷ ls) = reporting ls

-- There are n more of both.
abbrev pub Grows : ℕ → Connector → Connector → Type 0
Grows n c c' =
    (beating c'.loops ≡ beating c.loops + n) × (reporting c'.loops ≡ reporting c.loops + n)

Grows-same :
    (c c' : Connector)
    → beating c'.loops ≡ beating c.loops
    → reporting c'.loops ≡ reporting c.loops
    → Grows 0 c c'
Grows-same c c' b r = (omega (arith, b), omega (arith, r))

beating-append : (xs ys : List Loop) → beating (xs ++ ys) ≡ beating xs + beating ys
beating-append [] ys = omega arith
beating-append (heartbeats n ∷ xs) ys = omega (arith, beating-append xs ys)
beating-append (inventories n ∷ xs) ys = beating-append xs ys
beating-append (receives ∷ xs) ys = beating-append xs ys

reporting-append : (xs ys : List Loop) → reporting (xs ++ ys) ≡ reporting xs + reporting ys
reporting-append [] ys = omega arith
reporting-append (heartbeats n ∷ xs) ys = reporting-append xs ys
reporting-append (inventories n ∷ xs) ys = omega (arith, reporting-append xs ys)
reporting-append (receives ∷ xs) ys = reporting-append xs ys

beating-end : (ls : List Loop) → beating (end_receives ls) ≡ beating ls
beating-end [] = refl
beating-end (heartbeats n ∷ ls) = ap suc (beating-end ls)
beating-end (inventories n ∷ ls) = beating-end ls
beating-end (receives ∷ ls) = refl

reporting-end : (ls : List Loop) → reporting (end_receives ls) ≡ reporting ls
reporting-end [] = refl
reporting-end (heartbeats n ∷ ls) = reporting-end ls
reporting-end (inventories n ∷ ls) = ap suc (reporting-end ls)
reporting-end (receives ∷ ls) = refl

-- How many connections some rounds make.
abbrev pub connections_of : Tried → ℕ
connections_of connects = 1
connections_of stops = 0
connections_of retries = 0

start_loops-Grows : (c : Connector) → Grows 1 c (start_loops c)
start_loops-Grows c =
    let new = heartbeats c.heartbeat_interval ∷ inventories c.inventory_interval ∷ receives ∷ [] in
    (beating-append c.loops new, reporting-append c.loops new)

waits-Grows :
    (x : ℕ) (b : Bool) (c c' : Connector) (r : Retried)
    → c'.loops ≡ c.loops
    → Grows (connections_of r.0) c' r.2
    → Grows (connections_of (waits x b c' r).0) c (waits x b c' r).2
waits-Grows x true c c' r e h = Grows-same c c' (ap beating e) (ap reporting e)
waits-Grows x false c c' r e (b, k) = (
  b ∙ ap (λ ls. beating ls + connections_of r.0) e,
  k ∙ ap (λ ls. reporting ls + connections_of r.0) e,
)

retry_round-Grows :
    (x : ℕ) (t : Try) (c : Connector) (result : Option String × Connector) (rest : Retried)
    → result.1.loops ≡ c.loops
    → Grows (connections_of rest.0) result.1 rest.2
    → let r = retry_round x t c result rest in Grows (connections_of r.0) c r.2
retry_round-Grows x t c (error, c') rest e h = elim (Bool-cases t.done_before) [
  | inl done ↦ rw done (Grows-same c c refl refl)
  | inr going ↦ elim (Option-cases error) [
    | inl good ↦
        let (b, k) = start_loops-Grows c' in
        rw (going, good) (b ∙ ap (λ ls. beating ls + 1) e, k ∙ ap (λ ls. reporting ls + 1) e)
    | inr (text, bad) ↦ rw (going, bad) (waits-Grows x t.done_waiting c c' rest e h)
  ]
]

retry_loop-Grows :
    (ts : List Try) (x m : ℕ) (c : Connector)
    → let r = retry_loop x m ts c in Grows (connections_of r.0) c r.2
unfolding retry_loop
retry_loop-Grows [] x m c = Grows-same c c refl refl
retry_loop-Grows (t ∷ ts) x m c =
    let c' = (do_connect c t.attempt).1 in
    retry_round-Grows x t c (do_connect c t.attempt) (retry_loop (next_backoff x m) m ts c')
      (do_connect-loops c t.attempt) (retry_loop-Grows ts (next_backoff x m) m c')

-- How many connections an event makes, and a list of events.
abbrev pub reconnected : Connector → Option String → List Try → ℕ
reconnected c (some e) ts = 0
reconnected c none ts = connections_of (connect_with_retry c ts).0

abbrev pub attempted_by : ℕ → Connector → Option String → List Try → ℕ
attempted_by zero c tls ts = 0
attempted_by (suc n) c tls ts = reconnected (record c { reconnecting = n }) tls ts

abbrev pub connected_by : Event → Connector → ℕ
connected_by (beats now sent) c = 0
connected_by (round r) c = 0
connected_by (reconnects tls ts) c = attempted_by c.reconnecting c tls ts

abbrev pub connections : List Event → Connector → ℕ
connections [] c = 0
connections (e ∷ es) c = connected_by e c + connections es (step e c)

handle_command-loops : (p : CommandPayload) (c : Connector) → (handle_command p c).0.loops ≡ c.loops
unfolding handle_command disconnect
handle_command-loops (CommandPayload.heartbeat_ack a) c = refl
handle_command-loops (CommandPayload.start_migration a) c = refl
handle_command-loops (CommandPayload.cancel_migration a) c = refl
handle_command-loops (CommandPayload.update_config a) c = refl
handle_command-loops (CommandPayload.shutdown a) c = refl

receive_from-Grows : (s : ℕ) (r : Received) (c : Connector) → Grows 0 c (receive_from s r c).0
unfolding handle_disconnect
receive_from-Grows s context_done c =
    Grows-same c (end_receive c) (beating-end c.loops) (reporting-end c.loops)
receive_from-Grows s failed c =
    Grows-same c (handle_disconnect (end_receive c)) (beating-end c.loops) (reporting-end c.loops)
receive_from-Grows s (commands p) c =
    let e = handle_command-loops p c in
    Grows-same c (handle_command p c).0 (ap beating e) (ap reporting e)

receive-Grows : (r : Received) (c : Connector) → Grows 0 c (receive r c).0
unfolding receive
receive-Grows r c = elim (Option-cases c.stream) [
  | inl gone ↦
      rw (receive, gone)
        (Grows-same c (end_receive c) (beating-end c.loops) (reporting-end c.loops))
  | inr (s, here) ↦ rw (receive, here) (receive_from-Grows s r c)
]

on_error-loops : (sent : Option String) (c : Connector) → (on_error sent c).loops ≡ c.loops
unfolding handle_disconnect
on_error-loops none c = refl
on_error-loops (some e) c = refl

send_heartbeat-loops :
    (now : ℕ) (sent : Option String) (c : Connector) → (send_heartbeat c now sent).0.loops ≡ c.loops
unfolding send_heartbeat
send_heartbeat-loops now sent c = elim (Option-cases c.stream) [
  | inl gone ↦ rw (send_heartbeat, gone) refl
  | inr (s, here) ↦ rw (send_heartbeat, here) (on_error-loops sent c)
]

attempted-Grows :
    (n : ℕ) (tls : Option String) (ts : List Try) (c : Connector)
    → Grows (attempted_by n c tls ts) c (attempted n tls ts c)
unfolding reconnect connect_with_retry
attempted-Grows zero tls ts c = Grows-same c c refl refl
attempted-Grows (suc n) (some e) ts c = Grows-same c c refl refl
attempted-Grows (suc n) none ts c =
    retry_loop-Grows ts c.config.reconnect_interval c.config.max_reconnect_interval
      (record c { reconnecting = n })

step-Grows : (e : Event) (c : Connector) → Grows (connected_by e c) c (step e c)
unfolding step
step-Grows (beats now sent) c =
    let e = send_heartbeat-loops now sent c in
    Grows-same c (send_heartbeat c now sent).0 (ap beating e) (ap reporting e)
step-Grows (round r) c = receive-Grows r c
step-Grows (reconnects tls ts) c = attempted-Grows c.reconnecting tls ts c

-- Whatever happens to a worker while its context is not done, every connection that it makes again adds
-- a loop that sends heartbeats and one that reports the inventory, and none of the older ones ends:
-- after n further connections there are n more of each.
pub loops_accumulate : (es : List Event) (c : Connector) → Grows (connections es c) c (run es c)
unfolding run
loops_accumulate [] c = Grows-same c c refl refl
loops_accumulate (e ∷ es) c =
    let (b, k) = step-Grows e c in
    let (b', k') = loops_accumulate es (step e c) in (omega (arith, b, b'), omega (arith, k, k'))
