-- ===== src/Migration/Engine/Last.antt =====
-- internal/migration/engine.go: a stage of the job that was started last.
use dockation.Prelude.{ℕ, ◌≡◌, ap, List, [], ◌∷◌, ◌++◌, length, set-append, get_elem?-last}
use dockation.Prelude.Dict.{Dict}
use dockation.Migration.Rollback.{RollbackManager}
use dockation.Migration.Job.{MigrationJob}
use dockation.Migration.Engine.{Engine, Stage, World, advance, stage_of}

-- A task at the last job of the store.
abbrev pub with_last : List MigrationJob → MigrationJob → Dict ℕ → RollbackManager → Engine
with_last xs job jobs rm = record { store = xs ++ job ∷ []; jobs = jobs; rollback_manager = rm }

pub advance_last :
    (w : World) (xs : List MigrationJob) (job : MigrationJob) (jobs : Dict ℕ) (rm : RollbackManager)
    (stage : Stage)
    → advance w (record { place = length xs; stage = stage }) (with_last xs job jobs rm) ≡ (
      record { place = length xs; stage = (stage_of w rm stage job).0 },
      with_last xs (stage_of w rm stage job).1 jobs rm,
      (stage_of w rm stage job).2,
    )
unfolding advance
advance_last w xs job jobs rm stage =
    rw (get_elem?-last xs job, advance)
      (ap
        (λ store. (
          record { place = length xs; stage = (stage_of w rm stage job).0 },
          record { store = store; jobs = jobs; rollback_manager = rm },
          (stage_of w rm stage job).2,
        ))
        (set-append xs job [] (stage_of w rm stage job).1))
