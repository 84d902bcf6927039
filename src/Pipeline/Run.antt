-- ===== src/Pipeline/Run.antt =====
-- src/apps/pipeline/models.py: the rows of `processing_runs`.
use objekt_bernahme_automati.Prelude.{ℕ, Bool, true, false, Option}

pub data RunType : Type 0 where
  full incremental reconcile_drive regenerate_lists reclassify : RunType

pub data RunStatus : Type 0 where
  pending running done failed aborted : RunStatus

abbrev pub is_pending : RunStatus → Bool
is_pending pending = true
is_pending _ = false

abbrev pub is_running : RunStatus → Bool
is_running running = true
is_running _ = false

-- `status in (DONE, FAILED)`
abbrev pub is_over : RunStatus → Bool
is_over done = true
is_over failed = true
is_over _ = false

-- `SERIAL_TYPES`
abbrev pub is_serial : RunType → Bool
is_serial full = true
is_serial incremental = true
is_serial _ = false

-- Times are seconds since a fixed origin.
pub record Run : Type 0 where
  pub id : ℕ
  pub object : ℕ
  pub run_type : RunType
  pub status : RunStatus
  pub dry_run : Bool
  pub worker_count : Option ℕ
  pub documents_total : Option ℕ
  pub documents_done : Option ℕ
  pub documents_failed : Option ℕ
  pub documents_skipped : Option ℕ
  pub started_at : Option ℕ
  pub finished_at : Option ℕ
  pub created_at : ℕ
