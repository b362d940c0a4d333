-- ===== src/Master/Api/Migrations.antt =====
-- internal/master/api_migrations.go: what a client sees of the migrations that it starts and cancels.
use mathlib.Core.Path.{subst}
use dockation.Prelude.{
  ℕ, String, ◌≡◌, refl, sym, ap, ◌⊎◌, inl, inr, Option, none, some, [], Bool-cases, if◌then◌else◌,
}
use dockation.Master.Registry.{Registry, Sender, Sent}
use dockation.Master.Orchestrator.{
  Orchestrator, Task, MigrationRequest, CancelError, migration_not_found, cannot_cancel,
  start_migration, cancel_migration, cancel, StartResult,
}
use dockation.Master.Orchestrator.Start.{StartCase, start_migration_lem}
use dockation.Master.Orchestrator.Lifecycle.{CancelCase, cancel_migration_lem}
use dockation.Master.Api.{
  Body, malformed, body, Reply, accepted, ok, message, bad_request, MigrationResponse, Started,
  start_reply, request_of, no_resource, post_migration, get_one, found, migration_to_response,
  reason_or_default, cancel_reply, post_cancel, start_error_text, cancel_error_text, status_text,
}

-- A reply to a request for a migration, and what it leaves.
abbrev pub Posted : Orchestrator → Started → Type 0
Posted o (reply, o', task) =
    ((resp : MigrationResponse) × (t : Task) × (reply ≡ accepted resp)
      × (task ≡ some t)
      × (get_one o' resp.id ≡ ok resp)
      × (resp.status ≡ "pending"))
    ⊎ ((text : String) × (reply ≡ bad_request text) × (task ≡ none) × (o' ≡ o))

started-Posted :
    (o : Orchestrator) (r : Registry) (req : MigrationRequest) (now : ℕ)
    (out : StartResult × Orchestrator)
    → StartCase o r req now out
    → Posted o (start_reply out)
unfolding get_one migration_to_response
started-Posted o r req now out (StartCase.bad_source e why same) =
    subst (λ x. Posted o (start_reply x)) (sym same) (inr (start_error_text e, refl, refl, refl))
started-Posted o r req now out (StartCase.bad_target source e ready why same) =
    subst (λ x. Posted o (start_reply x)) (sym same) (inr (start_error_text e, refl, refl, refl))
started-Posted o r req now (result, o')
      (StartCase.accepted job task source target a b new e same stored) =
    subst (λ x. Posted o (start_reply (x, o'))) (sym e)
      (inl (
        migration_to_response job,
        task,
        refl,
        refl,
        ap found stored.stored,
        ap status_text new.waits.0,
      ))

-- A request to start a migration is either accepted, and then a client that asks for the migration under
-- the ID of the reply gets exactly the same reply again until it changes, with the status pending, and a
-- goroutine is started; or it is a bad request, and then nothing is started or stored.
pub post_migration_lem :
    (o : Orchestrator) (r : Registry) (b : Body) (now : ℕ) → Posted o (post_migration o r b now)
unfolding post_migration
post_migration_lem o r (malformed e) now = inr (e, refl, refl, refl)
post_migration_lem o r (body req) now = elim (Bool-cases (no_resource req)) [
  | inl empty ↦
      subst
        (λ b. Posted o (
          if b
          then (bad_request "at least one resource must be specified", o, none)
          else start_reply (start_migration o r (request_of req) now)))
        (sym empty) (inr ("at least one resource must be specified", refl, refl, refl))
  | inr some_resource ↦
      subst
        (λ b. Posted o (
          if b
          then (bad_request "at least one resource must be specified", o, none)
          else start_reply (start_migration o r (request_of req) now)))
        (sym some_resource)
        (started-Posted o r (request_of req) now (start_migration o r (request_of req) now)
          (start_migration_lem o r (request_of req) now))
]

-- A reply to a cancellation, and what it leaves.
abbrev pub CancelPosted : Orchestrator → String → String → Reply × Orchestrator × Sent → Type 0
CancelPosted o id reason (reply, o', sent) =
    ((resp : MigrationResponse) × (reply ≡ message "migration cancelled")
      × (get_one o' id ≡ ok resp)
      × (resp.status ≡ "cancelled")
      × (resp.error ≡ reason_or_default reason))
    ⊎ ((text : String) × (reply ≡ bad_request text) × (o' ≡ o) × (sent ≡ []))

abbrev with_reply : Option CancelError × Orchestrator × Sent → Reply × Orchestrator × Sent
with_reply (error, o, sent) = (cancel_reply error, o, sent)

cancelled-CancelPosted :
    (send : Sender) (r : Registry) (o : Orchestrator) (id reason : String) (now : ℕ)
    (out : Option CancelError × Orchestrator × Sent)
    → CancelCase send r o id (reason_or_default reason) now out
    → CancelPosted o id reason (with_reply out)
unfolding get_one migration_to_response cancel
cancelled-CancelPosted send r o id reason now out (CancelCase.unknown gone same) =
    subst (λ x. CancelPosted o id reason (with_reply x)) (sym same)
      (inr (cancel_error_text (migration_not_found id), refl, refl, refl))
cancelled-CancelPosted send r o id reason now out (CancelCase.finished job here fin same) =
    subst (λ x. CancelPosted o id reason (with_reply x)) (sym same)
      (inr (cancel_error_text (cannot_cancel job.status), refl, refl, refl))
cancelled-CancelPosted send r o id reason now (error, o', sent)
      (CancelCase.done job here active e stored others sends) =
    inl (
      migration_to_response (cancel (reason_or_default reason) now job),
      ap cancel_reply e,
      ap found stored,
      refl,
      refl,
    )

-- A cancellation is either accepted, and then a client that asks for the migration gets it as cancelled, with
-- the reason, or a default if there is none; or it is a bad request, and then nothing changes or is sent.
pub post_cancel_lem :
    (send : Sender) (r : Registry) (o : Orchestrator) (id reason : String) (now : ℕ)
    → CancelPosted o id reason (post_cancel send r o id reason now)
unfolding post_cancel
post_cancel_lem send r o id reason now =
    cancelled-CancelPosted send r o id reason now
      (cancel_migration send r o id (reason_or_default reason) now)
      (cancel_migration_lem send r o id (reason_or_default reason) now)
