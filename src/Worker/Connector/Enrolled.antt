-- ===== src/Worker/Connector/Enrolled.antt =====
-- internal/worker/connector.go with internal/master/grpc_server.go: a worker that the master lets in.
use mathlib.Core.Path.{subst}
use dockation.Prelude.{ℕ, String, ◌≡◌, ◌≢◌, refl, sym, ap, true, Option, none, some, [], ◌∷◌}
use dockation.Prelude.Dict.{Distinct}
use dockation.Proto.{RegistrationResponse, MasterCommand}
use dockation.Master.Registry.{Sent, get, Sender, send_command, sent_error}
use dockation.Master.Server.{
  Master, register_worker, validate_enrollment_token, receive, heartbeat_ack,
}
use dockation.Master.Server.Refuse.{IsUnknown}
use dockation.Master.Server.Join.{joined, first_beat, join_lem}
use dockation.Worker.Connector.{Connector, ok, Attempt, registration, do_connect, set_credentials}
use dockation.Worker.Connector.Retry.{opened, do_connect-Opens}
use dockation.Worker.Connector.Running.{idle_beat, heartbeat_message, send_heartbeat}

module _ (m : Master) (c : Connector) (a : Attempt) (token : String) (now s beaten later : ℕ)
    (send : Sender) (cmd : MasterCommand) where
  -- What is so after doConnect's result, the worker's first heartbeat, and a command to it.
  abbrev pub Known : Option String × Connector → Type 0
  Known (error, c1) =
      let m1 = (register_worker m (registration c a) token now).1 in
      let (m2, answer) = receive m1 s later (heartbeat_message c1 beaten) in
      (error ≡ none)
      × ((send_heartbeat c1 beaten none).1 ≡ (s, heartbeat_message c1 beaten) ∷ [])
      × (get m2.registry c1.worker_id
          ≡ some (joined (registration c a) token now s later (idle_beat beaten)))
      × (answer ≡ (s, heartbeat_ack (idle_beat beaten)) ∷ [])
      × (send_command send m2.registry c1.worker_id cmd ≡ (sent_error (send s cmd), (s, cmd) ∷ []))

  -- The master's part of it, after a heartbeat.
  abbrev Welcomed : RegistrationResponse → Master × Sent → Type 0
  Welcomed resp (m2, answer) =
      (get m2.registry resp.worker_id
        ≡ some (joined (registration c a) token now s later (idle_beat beaten)))
      × (answer ≡ (s, heartbeat_ack (idle_beat beaten)) ∷ [])
      × (send_command send m2.registry resp.worker_id cmd
          ≡ (sent_error (send s cmd), (s, cmd) ∷ []))

  -- A worker that has the master's enrollment token, and that meets no error, is known to the master by
  -- what it is given, if no other worker has the token drawn for it: its first heartbeat goes out on its
  -- stream, is acknowledged there, and leaves the worker in the registry under the ID that it has stored,
  -- with that stream, so that a command to it is sent there.
  pub enrolled :
      a.dialled ≡ none
      → a.fingerprint ≢ ""
      → a.registered ≡ ok (register_worker m (registration c a) token now).0
      → a.opened ≡ ok s
      → validate_enrollment_token m c.enrollment_token ≡ true
      → Distinct m.registry.workers
      → IsUnknown m.registry token
      → Known (do_connect c a)
  unfolding receive registration send_heartbeat set_credentials
  enrolled d f r o valid distinct unknown =
      let reg = registration c a in
      let resp = (register_worker m reg token now).0 in
      let (success, same, found, answer, reached) =
        join_lem m reg token now s later (idle_beat beaten) send cmd valid distinct unknown in
      let m1 = (register_worker m reg token now).1 in
      let beat = heartbeat_message (opened resp s c) beaten in
      let first : receive m1 s later (first_beat m reg token now s later (idle_beat beaten))
          ≡ receive m1 s later beat =
        ap (λ t. receive m1 s later (record beat { auth_token = t })) (sym same) in
      let (found', answer', reached') = subst (Welcomed resp) first (found, answer, reached) in
      subst Known (sym (do_connect-Opens c a resp s (d, f, r, success, o)))
        (refl, refl, found', answer', reached')
