-- ===== src/Migration/Job.antt =====
-- internal/migration/engine.go: a migration job of the local engine.
-- The progress, which streamProgress copies from reports, and what the user configures for paths and
-- conflicts are left out: the engine does not read them. A Go channel that only closes is a Bool, and
-- so is a context that is cancelled.
use dockation.Prelude.{ℕ, String, Bool, Option, List}
use dockation.Migration.Rollback.{ResourceRef}

pub data MigrationMode : Type 0 where
  copy move : MigrationMode

-- An unknown strategy is the text that the request has.
pub data MigrationStrategy : Type 0 where
  cold warm snapshot : MigrationStrategy
  unknown : String → MigrationStrategy

pub data MigrationStatus : Type 0 where
  pending preflight running paused complete failed rolling_back : MigrationStatus

pub record MigrationError : Type 0 where
  pub timestamp : ℕ
  pub phase : String
  pub message : String
  pub recoverable : Bool

pub record MigrationJob : Type 0 where
  pub id : String
  pub peer_id : String
  pub mode : MigrationMode
  pub strategy : MigrationStrategy
  pub resources : List ResourceRef
  pub status : MigrationStatus
  pub errors : List MigrationError
  pub start_time : ℕ
  pub end_time : Option ℕ
  pub can_pause : Bool
  pub can_resume : Bool
  pub current_phase : String
  pub cancelled : Bool
  pub pause_closed : Bool
  pub resume_closed : Bool
