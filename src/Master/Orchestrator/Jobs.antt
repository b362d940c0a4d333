-- ===== src/Master/Orchestrator/Jobs.antt =====
-- internal/master/orchestrator.go: the store of jobs under an update of one job.
use dockation.Prelude.{
  ℕ, refl, ◌≢◌, String, ◌≡◌, Option, none, some, arith, str_eq, eq_iff, inl, inr, if◌then◌else◌,
  Option-cases,
}
use dockation.Prelude.Dict.{lookup, lookup-insert}
use dockation.Master.Registry.{Registry, Sender, Sent, SendError}
use dockation.Master.Orchestrator.{
  MigrationJob, Orchestrator, Task, Stage, begins, notifies_target, notifies_source, modify,
  after_send, advance_from, advance,
}

abbrev pub map_job : (MigrationJob → MigrationJob) → Option MigrationJob → Option MigrationJob
map_job f none = none
map_job f (some job) = some (f job)

pub lookup-modify :
    (f : MigrationJob → MigrationJob) (id k : String) (o : Orchestrator)
    → lookup k (modify f id o).migrations
      ≡ (if str_eq id k then map_job f (lookup k o.migrations) else lookup k o.migrations)
unfolding modify
lookup-modify f id k o = elim (Option-cases (lookup id o.migrations)) [
  | inl e ↦ rw (e, modify) (ground (arith, eq_iff id k))
  | inr (job, e) ↦
      rw (e, modify) (ground (arith, eq_iff id k, lookup-insert id k (f job) o.migrations))
]

pub lookup-modify_self :
    (f : MigrationJob → MigrationJob) (id : String) (job : MigrationJob) (o : Orchestrator)
    → lookup id o.migrations ≡ some job
    → lookup id (modify f id o).migrations ≡ some (f job)
lookup-modify_self f id job o e = rw (lookup-modify f id id o) (ground (arith, eq_iff id id))

pub grpc_addr-modify :
    (f : MigrationJob → MigrationJob) (id : String) (o : Orchestrator)
    → (modify f id o).grpc_addr ≡ o.grpc_addr
unfolding modify
grpc_addr-modify f id o = ground arith

pub lookup-modify_ne :
    (f : MigrationJob → MigrationJob) (id k : String) (o : Orchestrator)
    → k ≢ id
    → lookup k (modify f id o).migrations ≡ lookup k o.migrations
lookup-modify_ne f id k o ne = rw (lookup-modify f id k o) (ground (arith, eq_iff id k))

module _ (k : String) (now : ℕ) (task : Task) (o : Orchestrator) (ne : k ≢ task.job_id) where
  lookup-after_send :
      (what : String) (next : Stage) (out : Option SendError × Sent)
      → lookup k (after_send what next now task o out).1.migrations ≡ lookup k o.migrations
  unfolding after_send
  lookup-after_send what next (none, sent) = refl
  lookup-after_send what next (some e, sent) = lookup-modify_ne _ task.job_id k o ne

  lookup-advance_from :
      (send : Sender) (r : Registry) (stage : Stage) (job : Option MigrationJob)
      → lookup k (advance_from stage job send r now task o).1.migrations ≡ lookup k o.migrations
  unfolding advance_from
  lookup-advance_from send r begins job = lookup-modify_ne _ task.job_id k o ne
  lookup-advance_from send r notifies_target (some job) = lookup-after_send _ _ _
  lookup-advance_from send r notifies_source (some job) = lookup-after_send _ _ _
  lookup-advance_from send r _ _ = refl

  pub lookup-advance :
      (send : Sender) (r : Registry)
      → lookup k (advance send r now task o).1.migrations ≡ lookup k o.migrations
  unfolding advance
  lookup-advance send r = lookup-advance_from send r task.stage _
