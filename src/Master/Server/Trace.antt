-- ===== src/Master/Server/Trace.antt =====
-- internal/master/grpc_server.go: what the handlers do to the registry, as calls of its methods.
use dockation.Prelude.{
  ℕ, String, ◌≡◌, refl, sym, ap, ◌∙◌, Option, none, some, List, [], ◌∷◌, ◌++◌, inl, inr,
  Option-cases, Bool-cases,
}
use dockation.Prelude.Dict.{Distinct}
use dockation.Proto.{WorkerPayload, WorkerMessage, ResourceInventory, WorkerRegistration}
use dockation.Master.Registry.{
  WorkerInfo, Registry, Op, registers, beats, reports, connects, cleans, new_registry, get,
  get_by_auth_token, step, run,
}
use dockation.Master.Registry.Laws.{get-run, run-Distinct}
use dockation.Master.Registry.Liveness.{
  run-new_registry, new_registry-Distinct, Named, Named-some, cells-Named,
}
use dockation.Master.Server.{
  Master, MasterConfig, new_master, register_worker, validate_enrollment_token, handle, connect,
  receive, report_resources, Event, registration, message, inventory, tick, serve_one, serve,
}

-- The registry becomes what some calls of its methods make of it.
abbrev pub IsRunOf : Registry → Registry → Type 0
IsRunOf r r' = (cs : List (ℕ × Op)) × (r' ≡ run r cs)

run-append : (r : Registry) (cs ds : List (ℕ × Op)) → run r (cs ++ ds) ≡ run (run r cs) ds
unfolding run
run-append r [] ds = refl
run-append r (c ∷ cs) ds = run-append (step r c) cs ds

IsRunOf-refl : (r : Registry) → IsRunOf r r
unfolding run
IsRunOf-refl r = ([], refl)

IsRunOf-one : (r : Registry) (c : ℕ × Op) → IsRunOf r (step r c)
unfolding run
IsRunOf-one r c = (c ∷ [], refl)

IsRunOf-trans : (r r' r'' : Registry) → IsRunOf r r' → IsRunOf r' r'' → IsRunOf r r''
IsRunOf-trans r r' r'' (cs, e) (ds, f) =
    (cs ++ ds, f ∙ (ap (λ q. run q ds) e ∙ sym (run-append r cs ds)))

connect-IsRunOf : (r : Registry) (w : WorkerInfo) (stream now : ℕ) → IsRunOf r (connect r w stream)
unfolding connect step
connect-IsRunOf r w stream now = elim (Option-cases w.stream) [
  | inl e ↦ rw e (IsRunOf-one r (now, connects w.id stream))
  | inr (s, e) ↦ rw e (IsRunOf-refl r)
]

handle-IsRunOf :
    (m : Master) (id : String) (stream now : ℕ) (p : WorkerPayload)
    → IsRunOf m.registry (handle m id stream now p).0.registry
unfolding handle step
handle-IsRunOf m id stream now (WorkerPayload.heartbeat hb) =
    IsRunOf-one m.registry (now, beats id hb.status hb.system_resources)
handle-IsRunOf m id stream now (WorkerPayload.migration_progress p) = IsRunOf-refl m.registry
handle-IsRunOf m id stream now (WorkerPayload.migration_complete c) = IsRunOf-refl m.registry
handle-IsRunOf m id stream now (WorkerPayload.worker_error e) = IsRunOf-refl m.registry
handle-IsRunOf m id stream now WorkerPayload.unset = IsRunOf-refl m.registry

receive-IsRunOf :
    (m : Master) (stream now : ℕ) (msg : WorkerMessage)
    → IsRunOf m.registry (receive m stream now msg).0.registry
unfolding receive
receive-IsRunOf m stream now msg =
    elim (Option-cases (get_by_auth_token m.registry msg.auth_token)) [
      | inl e ↦ rw (e, receive) (IsRunOf-refl m.registry)
      | inr (w, e) ↦
          rw (e, receive)
            (IsRunOf-trans m.registry (connect m.registry w stream) _
              (connect-IsRunOf m.registry w stream now)
              (handle-IsRunOf (record m { registry = connect m.registry w stream }) w.id stream now
                msg.payload))
    ]

report-IsRunOf :
    (m : Master) (inv : ResourceInventory) (now : ℕ)
    → IsRunOf m.registry (report_resources m inv now).1.registry
unfolding report_resources step
report-IsRunOf m inv now = elim (Option-cases (get_by_auth_token m.registry inv.auth_token)) [
  | inl e ↦ rw (e, report_resources) (IsRunOf-refl m.registry)
  | inr (w, e) ↦ rw (e, report_resources) (IsRunOf-one m.registry (now, reports w.id inv))
]

register-IsRunOf :
    (m : Master) (reg : WorkerRegistration) (token : String) (now : ℕ)
    → IsRunOf m.registry (register_worker m reg token now).1.registry
unfolding register_worker step
register-IsRunOf m reg token now =
    elim (Bool-cases (validate_enrollment_token m reg.enrollment_token)) [
      | inl t ↦ rw t (IsRunOf-one m.registry (now, registers reg token))
      | inr f ↦ rw f (IsRunOf-refl m.registry)
    ]

serve_one-IsRunOf : (m : Master) (e : ℕ × Event) → IsRunOf m.registry (serve_one m e).registry
unfolding serve_one step
serve_one-IsRunOf m (now, registration reg token) = register-IsRunOf m reg token now
serve_one-IsRunOf m (now, message stream msg) = receive-IsRunOf m stream now msg
serve_one-IsRunOf m (now, inventory inv) = report-IsRunOf m inv now
serve_one-IsRunOf m (now, tick) = IsRunOf-one m.registry (now, cleans)

pub serve-IsRunOf : (m : Master) (es : List (ℕ × Event)) → IsRunOf m.registry (serve m es).registry
unfolding serve
serve-IsRunOf m [] = IsRunOf-refl m.registry
serve-IsRunOf m (e ∷ es) =
    IsRunOf-trans m.registry (serve_one m e).registry _ (serve_one-IsRunOf m e)
      (serve-IsRunOf (serve_one m e) es)

-- Each worker of the registry carries the ID that it is registered under, and no ID occurs twice.
abbrev pub IsWellFormed : Registry → Type 0
IsWellFormed r = ((k : String) (w : WorkerInfo) → get r k ≡ some w → w.id ≡ k) × Distinct r.workers

run-IsWellFormed : (r : Registry) (cs : List (ℕ × Op)) → IsWellFormed r → IsWellFormed (run r cs)
run-IsWellFormed r cs v = (
  (λ k w e.
      Named-some k w (get (run r cs) k)
        (rw (get-run r k cs v.1)
          (cells-Named r.timeout k cs (get r k) (named_before k (get r k) refl)))
        e),
  run-Distinct r cs v.1,
)
  where
    named_before : (k : String) (o : Option WorkerInfo) → get r k ≡ o → Named k o
    named_before k none e = tt
    named_before k (some w) e = v.0 k w e

pub serve_one-IsWellFormed :
    (m : Master) (e : ℕ × Event) → IsWellFormed m.registry → IsWellFormed (serve_one m e).registry
serve_one-IsWellFormed m e v =
    let (cs, same) = serve_one-IsRunOf m e in rw same (run-IsWellFormed m.registry cs v)

-- Whatever a new master is sent, each worker of its registry carries the ID that it is registered
-- under, and no ID occurs there twice.
pub serve-IsWellFormed :
    (config : MasterConfig) (grpc_addr : String) (es : List (ℕ × Event))
    → IsWellFormed (serve (new_master config grpc_addr) es).registry
unfolding new_master
serve-IsWellFormed config grpc_addr es =
    let (cs, e) = serve-IsRunOf (new_master config grpc_addr) es in
    (
      (λ k w h. (run-new_registry config.worker_timeout k cs w (ap (λ r. get r k) (sym e) ∙ h)).0),
      rw e (
          run-Distinct (new_registry config.worker_timeout) cs
            (new_registry-Distinct config.worker_timeout)),
    )
