-- ===== src/Migration/Engine/Lifecycle.antt =====
-- internal/migration/engine.go: how a job ends that nothing interrupts.
use Prim.Native.String.{◌++◌ as str_append}
use mathlib.Core.Path.{subst}
use dockation.Prelude.{
  ℕ, String, ◌≡◌, ◌↔◌, refl, ap, ◌∙◌, Option, none, some, List, [], ◌∷◌, ◌++◌, ◌⊎◌, inl, inr,
  length, get_elem?, get_elem?-last, Option-cases,
}
use dockation.Prelude.Dict.{Dict, insert}
use dockation.Migration.Rollback.{RollbackManager, Action, create_snapshot}
use dockation.Migration.Job.{
  MigrationStrategy, cold, warm, snapshot, unknown, complete, rolling_back, MigrationJob,
}
use dockation.Migration.Warm.{execute_strategy}
use dockation.Migration.Engine.{
  Engine, Stage, executes, ended, Task, World, start_migration, initialized, advance, Staged, ends,
  complete_job, error_in, auditing, executing, verifying, get_strategy, with_strategy, stage_of,
  audit_stage, after_execution, execute_stage,
}
use dockation.Migration.Engine.Fresh.{failed_with, fail_job_fresh, audit_passes}
use dockation.Migration.Engine.Last.{with_last, advance_last}

-- A task's two stages, with nothing in between: the job at the end, and the actions of a rollback.
unfoldable pub run_migration : World → Engine → MigrationJob → ℕ → Option MigrationJob × List Action
run_migration w e job now =
    let (t, e') = start_migration e job now in
    let (t', e'', actions) = advance w t e' in
    let (_, e3, more) = advance w t' e'' in (get_elem? e3.store t'.place, actions ++ more)

-- The strategies that the engine knows.
abbrev pub IsKnown : MigrationStrategy → Type 0
IsKnown cold = Unit
IsKnown warm = Unit
IsKnown snapshot = Unit
IsKnown (unknown s) = ⊥

-- The job when its strategy is called.
abbrev pub prepared : ℕ → MigrationJob → MigrationJob
prepared begun job = executing (auditing (initialized begun job))

strategy_known :
    (rm : RollbackManager) (now : ℕ) (s : MigrationStrategy) (job : MigrationJob)
    → IsKnown s
    → with_strategy rm now (get_strategy s) job ≡ (executes, job, [])
strategy_known rm now cold job k = refl
strategy_known rm now warm job k = refl
strategy_known rm now snapshot job k = refl
strategy_known rm now (unknown s) job k = absurd k

module _ (w : World) (rm : RollbackManager) (job : MigrationJob) (begun : ℕ)
    (zero : w.buffered 0 ≡ 0) where
  abbrev after_snapshot : RollbackManager
  after_snapshot = create_snapshot rm job.id begun

  abbrev strategy_error : Option String
  strategy_error = execute_strategy w.cold_migrators w.warm_migrators (prepared begun job)

  audit_proceeds :
      audit_stage after_snapshot w.buffered w.now (initialized begun job)
      ≡ with_strategy after_snapshot w.now (get_strategy job.strategy) (prepared begun job)
  unfolding audit_stage
  audit_proceeds =
      let (result, e, ok) = audit_passes w.buffered (auditing (initialized begun job)) zero in
      rw (e, ok) refl

  execution_ends :
      (e : Option String)
      → after_execution after_snapshot w.now e (prepared begun job) ≡ elim e [
        | none ↦ (ended, complete_job w.now (verifying (prepared begun job)), [])
        | some x ↦ (
          ended,
          failed_with (str_append "migration execution failed: " x) w.now (prepared begun job),
          [],
        )
      ]
  execution_ends none = refl
  execution_ends (some x) = ap ends (
      fail_job_fresh rm (str_append "migration execution failed: " x) begun w.now
        (prepared begun job))

-- What is left of a run when one stage is over.
abbrev finish_stage : World → RollbackManager → Staged → Option MigrationJob × List Action
finish_stage w rm (stage, job, actions) =
    (some (stage_of w rm stage job).1, actions ++ (stage_of w rm stage job).2)

abbrev second : World → Task × Engine × List Action → Option MigrationJob × List Action
second w (t, e, actions) =
    let (_, e', more) = advance w t e in (get_elem? e'.store t.place, actions ++ more)

second_last :
    (w : World) (xs : List MigrationJob) (job : MigrationJob) (jobs : Dict ℕ) (rm : RollbackManager)
    (stage : Stage) (actions : List Action)
    → second w (record { place = length xs; stage = stage }, with_last xs job jobs rm, actions)
      ≡ finish_stage w rm (stage, job, actions)
second_last w xs job jobs rm stage actions =
    ap (λ (r : Task × Engine × List Action). (get_elem? r.1.store (length xs), actions ++ r.2))
      (advance_last w xs job jobs rm stage)
    ∙ ap (λ found. (found, actions ++ (stage_of w rm stage job).2))
        (get_elem?-last xs (stage_of w rm stage job).1)

run_stages :
    (w : World) (e : Engine) (job : MigrationJob) (now : ℕ)
    → run_migration w e job now
      ≡ finish_stage w (create_snapshot e.rollback_manager job.id now) (
          audit_stage
            (create_snapshot e.rollback_manager job.id now)
            w.buffered
            w.now
            (initialized now job))
unfolding run_migration start_migration
run_stages w e job now =
    let rm = create_snapshot e.rollback_manager job.id now in
    let jobs = insert job.id (length e.store) e.jobs in
    let (stage, job', actions) = audit_stage rm w.buffered w.now (initialized now job) in
    ap (second w) (advance_last w e.store (initialized now job) jobs rm Stage.audits)
    ∙ second_last w e.store job' jobs rm stage actions

module _ (w : World) (e : Engine) (job : MigrationJob) (begun : ℕ) (zero : w.buffered 0 ≡ 0) where
  abbrev rm' : RollbackManager
  rm' = create_snapshot e.rollback_manager job.id begun

  run_known :
      IsKnown job.strategy
      → run_migration w e job begun ≡ finish_stage w rm' (executes, prepared begun job, [])
  run_known k =
      run_stages w e job begun
      ∙ ap (finish_stage w rm') (
          audit_proceeds w e.rollback_manager job begun zero
          ∙ strategy_known rm' w.now job.strategy (prepared begun job) k)

  run_succeeds :
      IsKnown job.strategy
      → execute_strategy w.cold_migrators w.warm_migrators (prepared begun job) ≡ none
      → run_migration w e job begun
        ≡ (some (complete_job w.now (verifying (prepared begun job))), [])
  unfolding execute_stage
  run_succeeds k ok =
      run_known k
      ∙ ap
          (λ error. (
            some (after_execution rm' w.now error (prepared begun job)).1,
            [] ++ (after_execution rm' w.now error (prepared begun job)).2,
          ))
          ok

  run_fails :
      (x : String)
      → IsKnown job.strategy
      → execute_strategy w.cold_migrators w.warm_migrators (prepared begun job) ≡ some x
      → run_migration w e job begun ≡ (
        some (failed_with (str_append "migration execution failed: " x) w.now (prepared begun job)),
        [],
      )
  unfolding execute_stage
  run_fails x k bad =
      run_known k
      ∙ ap
          (λ error. (
            some (after_execution rm' w.now error (prepared begun job)).1,
            [] ++ (after_execution rm' w.now error (prepared begun job)).2,
          ))
          bad
      ∙ ap (λ (s : Staged). (some s.1, [] ++ s.2))
          (execution_ends w e.rollback_manager job begun zero (some x))

  run_unknown :
      (s : String)
      → job.strategy ≡ unknown s
      → run_migration w e job begun ≡ (
        some (
            failed_with
              (str_append "failed to get strategy: " (str_append "unknown strategy: " s))
              w.now
              (prepared begun job)),
        [],
      )
  run_unknown s u =
      let text = str_append "failed to get strategy: " (str_append "unknown strategy: " s) in
      run_stages w e job begun
      ∙ ap (finish_stage w rm') (
          audit_proceeds w e.rollback_manager job begun zero
          ∙ ap (λ known. with_strategy rm' w.now (get_strategy known) (prepared begun job)) u
          ∙ ap ends (fail_job_fresh e.rollback_manager text begun w.now (prepared begun job)))

IsKnown-cases : (s : MigrationStrategy) → IsKnown s ⊎ ((x : String) × (s ≡ unknown x))
IsKnown-cases cold = inl tt
IsKnown-cases warm = inl tt
IsKnown-cases snapshot = inl tt
IsKnown-cases (unknown x) = inr (x, refl)

unknown-IsKnown : (s : MigrationStrategy) (x : String) → s ≡ unknown x → IsKnown s → ⊥
unknown-IsKnown s x e k = subst IsKnown e k

-- A job that is started and runs without an interruption ends as complete exactly if its strategy is
-- known and does not fail. Otherwise it ends as rolling back, and not as failed, with one more error, and
-- the rollback does nothing at all: what the strategy has stopped or paused was never recorded. In
-- neither case is there a rollback action. The disk check needs no space for no bytes.
pub run_migration_lem :
    (w : World) (e : Engine) (job : MigrationJob) (begun : ℕ)
    → w.buffered 0 ≡ 0
    → (final : MigrationJob) × (run_migration w e job begun ≡ (some final, []))
      × ((final.status ≡ complete) ↔ (
          IsKnown job.strategy
          × (execute_strategy w.cold_migrators w.warm_migrators (prepared begun job) ≡ none)))
      × (((final.status ≡ complete) × (final.errors ≡ job.errors))
          ⊎ ((final.status ≡ rolling_back)
              × ((message : String) × (final.errors
                    ≡ job.errors ++ error_in "execution" message w.now ∷ []))))
run_migration_lem w e job begun zero = elim (IsKnown-cases job.strategy) [
  | inr (s, u) ↦ (
    _,
    run_unknown w e job begun zero s u,
    ((λ b. cc), (λ p. absurd (unknown-IsKnown job.strategy s u p.0))),
    inr (refl, (_, refl)),
  )
  | inl k ↦
      elim (Option-cases
        (execute_strategy w.cold_migrators w.warm_migrators (prepared begun job))) [
          | inl ok ↦ (
            _,
            run_succeeds w e job begun zero k ok,
            ((λ b. (k, ok)), (λ p. refl)),
            inl (refl, refl),
          )
          | inr (x, bad) ↦ (
            _,
            run_fails w e job begun zero x k bad,
            ((λ b. cc), (λ p. let ok = p.1 in cc)),
            inr (refl, (_, refl)),
          )
        ]
]
