-- ===== src/Pipeline/Job.antt =====
-- src/apps/pipeline/models.py: the rows of `processing_jobs` and of `processing_job_events`.
use objekt_bernahme_automati.Prelude.{ℕ, Bool, true, false, Option, List, String}

pub data JobType : Type 0 where
  discover hash analyze_pages ocr_chunk merge_pages render_previews extract_entities classify :
      JobType
  classify_ai decide file_to_drive assign_object link_segments generate_lists : JobType
  evaluate_completeness reconcile_drive train_classifier sweep : JobType

pub data JobStatus : Type 0 where
  pending running done failed skipped : JobStatus

-- `TERMINAL_STATUSES`
abbrev pub is_terminal : JobStatus → Bool
is_terminal done = true
is_terminal failed = true
is_terminal skipped = true
is_terminal _ = false

abbrev pub is_pending : JobStatus → Bool
is_pending pending = true
is_pending _ = false

abbrev pub is_running : JobStatus → Bool
is_running running = true
is_running _ = false

abbrev pub is_failed : JobStatus → Bool
is_failed failed = true
is_failed _ = false

abbrev pub is_filing : JobType → Bool
is_filing file_to_drive = true
is_filing _ = false

-- The value that the database and the task names have.
abbrev pub job_type_value : JobType → String
job_type_value discover = "discover"
job_type_value hash = "hash"
job_type_value analyze_pages = "analyze_pages"
job_type_value ocr_chunk = "ocr_chunk"
job_type_value merge_pages = "merge_pages"
job_type_value render_previews = "render_previews"
job_type_value extract_entities = "extract_entities"
job_type_value classify = "classify"
job_type_value classify_ai = "classify_ai"
job_type_value decide = "decide"
job_type_value file_to_drive = "file_to_drive"
job_type_value assign_object = "assign_object"
job_type_value link_segments = "link_segments"
job_type_value generate_lists = "generate_lists"
job_type_value evaluate_completeness = "evaluate_completeness"
job_type_value reconcile_drive = "reconcile_drive"
job_type_value train_classifier = "train_classifier"
job_type_value sweep = "sweep"

-- A JSON object with text values.
abbrev pub Json : Type 0
Json = List (String × String)

-- Times are seconds since a fixed origin.
pub record Job : Type 0 where
  pub id : ℕ
  pub run : Option ℕ
  pub object : ℕ
  pub document : Option ℕ
  pub job_type : JobType
  pub key : String
  pub status : JobStatus
  pub priority : ℕ
  pub attempt_count : ℕ
  pub max_attempts : ℕ
  pub locked_by : Option String
  pub locked_at : Option ℕ
  pub heartbeat_at : Option ℕ
  pub next_attempt_at : Option ℕ
  pub dispatched_at : Option ℕ
  pub started_at : Option ℕ
  pub finished_at : Option ℕ
  pub duration_ms : Option ℕ
  pub pages_processed : Option ℕ
  pub payload : Json
  pub result : Option Json
  pub last_error : Option String
  pub error_class : Option String
  pub skip_reason : Option String
  pub updated_at : ℕ

pub record Event : Type 0 where
  pub job : ℕ
  pub from_status : Option JobStatus
  pub to_status : JobStatus
  pub worker : String
  pub attempt_no : Option ℕ
  pub message : Option String
