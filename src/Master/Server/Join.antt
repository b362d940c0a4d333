-- ===== src/Master/Server/Join.antt =====
-- internal/master/grpc_server.go: how a worker joins, from its registration to its first command.
use text.Mathlib.TextPositions.{eq_refl}
use dockation.Prelude.{
  ℕ, String, ◌≡◌, ◌≢◌, refl, sym, ap, ◌∙◌, true, some, [], ◌∷◌, inl, inr, arith, str_eq, eq_iff,
  Option-cases, Bool-cases,
}
use dockation.Prelude.Dict.{Distinct, lookup-insert_self, lookup-insert_ne}
use dockation.Proto.{
  WorkerMessage, WorkerPayload, Heartbeat, RegistrationResponse, WorkerRegistration, MasterCommand,
}
use dockation.Master.Registry.{
  WorkerInfo, Registry, registers, new_worker, generate_worker_id, register, get, get_by_auth_token,
  modify, attach, beat, set_stream, update_heartbeat, step, Sender, sent_error, send_command,
}
use dockation.Master.Registry.Laws.{get-modify, step-Distinct}
use dockation.Master.Registry.Auth.{get_by_auth_token_lem}
use dockation.Master.Server.{
  Master, register_worker, validate_enrollment_token, handle, connect, receive, heartbeat_ack,
  heartbeat_ms, inventory_ms,
}
use dockation.Master.Server.Refuse.{IsUnknown}

module _ (r : Registry) (reg : WorkerRegistration) (token : String) (now : ℕ) where
  abbrev id : String
  id = generate_worker_id now

  abbrev fresh : WorkerInfo
  fresh = new_worker reg token now

  abbrev registered : Registry
  registered = (register r reg token now).0

  get-registered : get registered id ≡ some fresh
  unfolding get register new_worker
  get-registered = lookup-insert_self id fresh r.workers

  get-registered_ne : (k : String) → k ≢ id → get registered k ≡ get r k
  unfolding get register new_worker
  get-registered_ne k ne = lookup-insert_ne id k fresh r.workers ne

  registered-Distinct : Distinct r.workers → Distinct registered.workers
  unfolding step
  registered-Distinct d = step-Distinct r (now, registers reg token) d

  -- The new worker is the only one with its token.
  only_fresh :
      (k : String) (w : WorkerInfo)
      → IsUnknown r token
      → get registered k ≡ some w
      → w.auth_token ≡ token
      → w ≡ fresh
  only_fresh k w unknown e same = elim (Bool-cases (str_eq k id)) [
    | inl hit ↦
        let here : get registered k ≡ some fresh =
          ap (get registered) ((eq_iff k id).0 hit) ∙ get-registered in
        cc
    | inr miss ↦
        let ne : k ≢ id = λ f. ground (arith, eq_iff k id) in
        absurd (unknown k w (sym (get-registered_ne k ne) ∙ e) same)
  ]

  authenticates :
      Distinct r.workers → IsUnknown r token → get_by_auth_token registered token ≡ some fresh
  unfolding new_worker
  authenticates d unknown =
      let (sound, complete) = get_by_auth_token_lem registered token (registered-Distinct d) in
      elim (Option-cases (get_by_auth_token registered token)) [
        | inl e ↦ absurd (complete id fresh get-registered refl e)
        | inr (w, e) ↦
            let (k, there, same) = sound w e in e ∙ ap some (only_fresh k w unknown there same)
      ]

get-modify_self :
    (f : WorkerInfo → WorkerInfo) (k : String) (w : WorkerInfo) (r : Registry)
    → get r k ≡ some w
    → get (modify f k r) k ≡ some (f w)
get-modify_self f k w r e = get-modify f k k r ∙ (rw (eq_refl k, e) refl)

reaches :
    (send : Sender) (r : Registry) (k : String) (s : ℕ) (cmd : MasterCommand) (w : WorkerInfo)
    → get r k ≡ some w
    → w.stream ≡ some s
    → send_command send r k cmd ≡ (sent_error (send s cmd), (s, cmd) ∷ [])
unfolding send_command get
reaches send r k s cmd w e n = rw (send_command, e, n) refl

-- The worker after its first heartbeat.
abbrev pub joined : WorkerRegistration → String → ℕ → ℕ → ℕ → Heartbeat → WorkerInfo
joined reg token now stream later hb =
    beat later hb.status hb.system_resources (attach stream (new_worker reg token now))

module _ (m : Master) (reg : WorkerRegistration) (token : String) (now stream later : ℕ)
    (hb : Heartbeat) where
  abbrev welcome : Master
  welcome = record m { registry = registered m.registry reg token now }

  abbrev response : RegistrationResponse
  response = record {
    success = true;
    error = "";
    worker_id = id m.registry reg token now;
    auth_token = token;
    heartbeat_interval_ms = heartbeat_ms m.config;
    inventory_interval_ms = inventory_ms m.config;
  }

  abbrev pub first_beat : WorkerMessage
  first_beat = record { worker_id = ""; auth_token = token; payload = WorkerPayload.heartbeat hb }

  registered_here :
      validate_enrollment_token m reg.enrollment_token ≡ true
      → register_worker m reg token now ≡ (response, welcome)
  unfolding register_worker register new_worker
  registered_here valid = rw (register_worker, valid) refl

  beats_on :
      Distinct m.registry.workers
      → IsUnknown m.registry token
      → receive welcome stream later first_beat ≡ (
        record m {
          registry =
              modify (beat later hb.status hb.system_resources) (id m.registry reg token now) (
                modify
                  (attach stream)
                  (id m.registry reg token now)
                  (registered m.registry reg token now));
        },
        (stream, heartbeat_ack hb) ∷ [],
      )
  unfolding receive handle connect set_stream update_heartbeat new_worker
  beats_on d unknown = rw (receive, authenticates m.registry reg token now d unknown) refl

  get-joined :
      get
        (modify (beat later hb.status hb.system_resources) (id m.registry reg token now) (
          modify
            (attach stream)
            (id m.registry reg token now)
            (registered m.registry reg token now)))
        (id m.registry reg token now)
      ≡ some (joined reg token now stream later hb)
  get-joined =
      get-modify_self (beat later hb.status hb.system_resources) (id m.registry reg token now)
        (attach stream (new_worker reg token now)) _
        (get-modify_self (attach stream) (id m.registry reg token now) (new_worker reg token now) _
          (get-registered m.registry reg token now))

  -- A worker that registers with the enrollment token, and is given a token that no other worker has,
  -- is known by this token: its first heartbeat, on some stream, is acknowledged on that stream, and
  -- leaves it registered under its new ID with the heartbeat's status and time, and with that stream,
  -- so that a command to it is sent there.
  pub join_lem :
      (send : Sender) (cmd : MasterCommand)
      → validate_enrollment_token m reg.enrollment_token ≡ true
      → Distinct m.registry.workers
      → IsUnknown m.registry token
      → (let (response, m1) = register_worker m reg token now in
          let (m2, sent) = receive m1 stream later first_beat in
          (response.success ≡ true)
          × (response.auth_token ≡ token)
          × (get m2.registry response.worker_id ≡ some (joined reg token now stream later hb))
          × (sent ≡ (stream, heartbeat_ack hb) ∷ [])
          × (send_command send m2.registry response.worker_id cmd
              ≡ (sent_error (send stream cmd), (stream, cmd) ∷ [])))
  join_lem send cmd valid d unknown =
      rw (registered_here valid, beats_on d unknown)
        (refl, refl, get-joined, refl, reaches send _ _ stream cmd _ get-joined refl)
