-- ===== src/Master/Orchestrator/Dispatch.antt =====
-- internal/master/orchestrator.go, executeMigration: what the two workers are told, in which order.
use Prim.Native.String.{◌++◌ as str_append}
use dockation.Prelude.{
  ℕ, String, ◌≡◌, refl, Option, none, some, [], ◌++◌, ◌∙◌, ◌≢◌, inl, inr, arith, Option-cases,
}
use mathlib.Core.List.{append-nil}
use dockation.Prelude.Dict.{lookup}
use dockation.Proto.{
  CommandPayload, MasterCommand, AcceptMigrationRequest, MigrationRequest as ProtoRequest,
  TransferMode,
}
use dockation.Master.Registry.{WorkerInfo, Registry, Sender, Sent, SendError, send_command}
use dockation.Master.Orchestrator.{
  MigrationJob, Orchestrator, Task, Stage, begins, notifies_target, notifies_source, done, modify,
  set_running, fail_migration, send_error_text, accept_command, start_command, advance,
  execute_migration, get_migration, after_send,
}
use dockation.Master.Orchestrator.Jobs.{lookup-modify_self, grpc_addr-modify}

-- The commands that a migration's goroutine may send.
module _ (send : Sender) (r : Registry) (o : Orchestrator) (task : Task) (job : MigrationJob) where
  abbrev pub to_target : Option SendError × Sent
  to_target = send_command send r job.target_worker_id (accept_command o job task.source)

  abbrev pub to_source : Option SendError × Sent
  to_source = send_command send r job.source_worker_id (start_command o job task.target)

-- How the goroutine ends, by what the two sends return.
pub data Dispatched (send : Sender) (r : Registry) (now : ℕ) (o : Orchestrator) (task : Task)
    (job : MigrationJob) (out : Orchestrator × Sent) : Type 0 where
  target_failed :
      (e : SendError)
      → (to_target send r o task job).0 ≡ some e
      → out.1 ≡ (to_target send r o task job).1
      → get_migration out.0 task.job_id
        ≡ some (
            fail_migration
              (str_append "failed to notify target: " (send_error_text e))
              now
              (set_running job))
      → Dispatched send r now o task job out
  source_failed :
      (e : SendError)
      → (to_target send r o task job).0 ≡ none
      → (to_source send r o task job).0 ≡ some e
      → out.1 ≡ (to_target send r o task job).1 ++ (to_source send r o task job).1
      → get_migration out.0 task.job_id
        ≡ some (
            fail_migration
              (str_append "failed to notify source: " (send_error_text e))
              now
              (set_running job))
      → Dispatched send r now o task job out
  both_told :
      (to_target send r o task job).0 ≡ none
      → (to_source send r o task job).0 ≡ none
      → out.1 ≡ (to_target send r o task job).1 ++ (to_source send r o task job).1
      → get_migration out.0 task.job_id ≡ some (set_running job)
      → Dispatched send r now o task job out

module _ (send : Sender) (r : Registry) (now : ℕ) where
  advance_begin :
      (task : Task) (o : Orchestrator)
      → task.stage ≡ begins
      → advance send r now task o
        ≡ (record task { stage = notifies_target }, modify set_running task.job_id o, [])
  unfolding advance
  advance_begin task o e = rw e refl

  advance_target :
      (task : Task) (o : Orchestrator) (job : MigrationJob)
      → task.stage ≡ notifies_target
      → lookup task.job_id o.migrations ≡ some job
      → advance send r now task o
        ≡ after_send "failed to notify target: " notifies_source now task o
            (to_target send r o task job)
  unfolding advance
  advance_target task o job e f = rw (e, f) refl

  advance_source :
      (task : Task) (o : Orchestrator) (job : MigrationJob)
      → task.stage ≡ notifies_source
      → lookup task.job_id o.migrations ≡ some job
      → advance send r now task o
        ≡ after_send "failed to notify source: " done now task o (to_source send r o task job)
  unfolding advance
  advance_source task o job e f = rw (e, f) refl

  advance_done :
      (task : Task) (o : Orchestrator)
      → task.stage ≡ done
      → advance send r now task o ≡ (task, o, [])
  unfolding advance
  advance_done task o e = rw e refl

  execute_steps :
      (task : Task) (o : Orchestrator) (t1 t2 t3 : Task) (o1 o2 o3 : Orchestrator) (s1 s2 s3 : Sent)
      → advance send r now task o ≡ (t1, o1, s1)
      → advance send r now t1 o1 ≡ (t2, o2, s2)
      → advance send r now t2 o2 ≡ (t3, o3, s3)
      → execute_migration send r now task o ≡ (o3, s1 ++ s2 ++ s3)
  unfolding execute_migration
  execute_steps task o t1 t2 t3 o1 o2 o3 s1 s2 s3 e1 e2 e3 = rw (e1, e2, e3) refl

module _ (o : Orchestrator) (id : String) (job : MigrationJob) (w : WorkerInfo) where
  accept_command-modify :
      accept_command (modify set_running id o) (set_running job) w ≡ accept_command o job w
  unfolding accept_command
  accept_command-modify = rw (grpc_addr-modify set_running id o)

  start_command-modify :
      start_command (modify set_running id o) (set_running job) w ≡ start_command o job w
  unfolding start_command
  start_command-modify = rw (grpc_addr-modify set_running id o)

after_send-none :
    (what : String) (next : Stage) (now : ℕ) (task : Task) (o : Orchestrator)
    (out : Option SendError × Sent)
    → out.0 ≡ none
    → after_send what next now task o out ≡ (record task { stage = next }, o, out.1)
unfolding after_send
after_send-none what next now task o (none, sent) e = refl
after_send-none what next now task o (some err, sent) e = cc

after_send-some :
    (what : String) (next : Stage) (now : ℕ) (task : Task) (o : Orchestrator)
    (out : Option SendError × Sent) (err : SendError)
    → out.0 ≡ some err
    → after_send what next now task o out ≡ (
      record task { stage = done },
      modify (fail_migration (str_append what (send_error_text err)) now) task.job_id o,
      out.1,
    )
unfolding after_send
after_send-some what next now task o (none, sent) err e = cc
after_send-some what next now task o (some err', sent) err e = let same : err' ≡ err = cc in rw same

module _ (send : Sender) (r : Registry) (now : ℕ) (o : Orchestrator) (task : Task)
    (job : MigrationJob) (stored : lookup task.job_id o.migrations ≡ some job)
    (fresh : task.stage ≡ begins) where
  abbrev o1 : Orchestrator
  o1 = modify set_running task.job_id o

  abbrev at : Stage → Task
  at s = record task { stage = s }

  stored1 : lookup task.job_id o1.migrations ≡ some (set_running job)
  stored1 = lookup-modify_self set_running task.job_id job o stored

  -- A job that is stored before it is failed is stored as failed.
  failed_job :
      (text : String)
      → lookup task.job_id (modify (fail_migration text now) task.job_id o1).migrations
        ≡ some (fail_migration text now (set_running job))
  failed_job text =
      lookup-modify_self (fail_migration text now) task.job_id (set_running job) o1 stored1

  notify_target :
      advance send r now (at notifies_target) o1
      ≡ after_send "failed to notify target: " notifies_source now
          (at notifies_target)
          o1
          (to_target send r o task job)
  notify_target =
      rw (← accept_command-modify o task.job_id job task.source)
        (advance_target send r now (at notifies_target) o1 (set_running job) refl stored1)

  notify_source :
      advance send r now (at notifies_source) o1
      ≡ after_send "failed to notify source: " done now
          (at notifies_source)
          o1
          (to_source send r o task job)
  notify_source =
      rw (← start_command-modify o task.job_id job task.target)
        (advance_source send r now (at notifies_source) o1 (set_running job) refl stored1)

  target_unreached :
      (e : SendError)
      → (to_target send r o task job).0 ≡ some e
      → Dispatched send r now o task job (execute_migration send r now task o)
  unfolding get_migration
  target_unreached e p =
      let text = str_append "failed to notify target: " (send_error_text e) in
      rw
        (execute_steps send r now task o _ _ _ _ _ _ _ _ _ (advance_begin send r now task o fresh)
          (notify_target ∙ after_send-some _ _ now (at notifies_target) o1 _ e p)
          (advance_done send r now (at done) (modify (fail_migration text now) task.job_id o1)
            refl))
        (target_failed e p (append-nil _) (failed_job text))

  target_reached :
      (to_target send r o task job).0 ≡ none
      → Dispatched send r now o task job (execute_migration send r now task o)
  unfolding get_migration
  target_reached p = elim (Option-cases (to_source send r o task job).0) [
    | inl q ↦
        rw
          (execute_steps send r now task o _ _ _ _ _ _ _ _ _ (advance_begin send r now task o fresh)
            (notify_target ∙ after_send-none _ _ now (at notifies_target) o1 _ p)
            (notify_source ∙ after_send-none _ _ now (at notifies_source) o1 _ q))
          (both_told p q refl stored1)
    | inr (e, q) ↦
        rw
          (execute_steps send r now task o _ _ _ _ _ _ _ _ _ (advance_begin send r now task o fresh)
            (notify_target ∙ after_send-none _ _ now (at notifies_target) o1 _ p)
            (notify_source ∙ after_send-some _ _ now (at notifies_source) o1 _ e q))
          (source_failed e p q refl
            (failed_job (str_append "failed to notify source: " (send_error_text e))))
  ]

-- The goroutine of a stored job, run with nothing in between, tells the target before the source.
-- If the target cannot be told, the source is not; if either cannot, the job fails with the error's
-- text; otherwise the job runs.
pub execute_migration_lem :
    (send : Sender) (r : Registry) (now : ℕ) (o : Orchestrator) (task : Task) (job : MigrationJob)
    → get_migration o task.job_id ≡ some job
    → task.stage ≡ begins
    → Dispatched send r now o task job (execute_migration send r now task o)
unfolding get_migration
execute_migration_lem send r now o task job stored fresh =
    elim (Option-cases (to_target send r o task job).0) [
      | inl p ↦ target_reached send r now o task job stored fresh p
      | inr (e, p) ↦ target_unreached send r now o task job stored fresh e p
    ]

-- The requests inside the two commands, where they are there.
abbrev pub accept_request_of : MasterCommand → Option AcceptMigrationRequest
accept_request_of c = elim c.payload [
  | CommandPayload.start_migration s ↦ s.accept_request
  | _ ↦ none
]

abbrev pub request_of : MasterCommand → Option ProtoRequest
request_of c = elim c.payload [ CommandPayload.start_migration s ↦ s.request | _ ↦ none ]

abbrev pub Agree : Orchestrator → AcceptMigrationRequest → ProtoRequest → Type 0
Agree o a q =
    (a.migration_id ≡ q.migration_id)
    × (a.container_ids ≡ q.container_ids)
    × (a.image_ids ≡ q.image_ids)
    × (a.volume_names ≡ q.volume_names)
    × (a.network_ids ≡ q.network_ids)
    × (a.transfer_mode ≡ q.transfer_mode)
    × (a.proxy_address ≡ q.proxy_address)
    × (q.transfer_mode ≢ TransferMode.unspecified)
    × (q.transfer_mode ≡ TransferMode.proxy → q.proxy_address ≡ o.grpc_addr)

-- The two commands of a migration carry requests that agree on the migration, the resources, the
-- transfer mode and the proxy's address. The mode is never left unspecified, and in proxy mode the
-- address is the master's.
pub commands-Agree :
    (o : Orchestrator) (job : MigrationJob) (source target : WorkerInfo)
    → (a : AcceptMigrationRequest) × (q : ProtoRequest) × (accept_request_of
          (accept_command o job source)
        ≡ some a)
      × (request_of (start_command o job target) ≡ some q)
      × Agree o a q
unfolding accept_command start_command
commands-Agree o job source target =
    (_, _, refl, refl, (refl, refl, refl, refl, refl, refl, refl, ground arith, ground arith))
