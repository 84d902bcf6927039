-- ===== src/Pipeline/World.antt =====
-- src/apps/pipeline: the tables and settings that the pipeline works on, with the columns of
-- documents (src/apps/documents/models.py) and review cases (src/apps/review/models.py) that it
-- reads and writes.
use objekt_bernahme_automati.Prelude.{ℕ, Bool, Option, List, String}
use objekt_bernahme_automati.Pipeline.Job.{JobType, Job, Event}
use objekt_bernahme_automati.Pipeline.Run.{Run}

pub data DocumentStatus : Type 0 where
  registered hashed ocr_done classified review filed duplicate moved_out error : DocumentStatus

pub record Document : Type 0 where
  pub id : ℕ
  pub object : ℕ
  pub status : DocumentStatus
  pub from_drive : Bool  -- source == "drive_existing"
  pub drive_file : String
  pub drive_md5 : String
  pub source_path : String
  pub sha256 : String
  pub error_message : Option String
  pub deleted : Bool

-- A review case of the subtype `job_failed`; `resumed` says that its resolution has the action
-- "reprocess".
pub record Case : Type 0 where
  pub batch_key : String
  pub object : ℕ
  pub document : Option ℕ
  pub is_open : Bool  -- OPEN or IN_PROGRESS
  pub resolved : Bool  -- RESOLVED
  pub resumed : Bool
  pub error : Option String
  pub attempts : ℕ

-- What the pipeline hands to other components: messages for the broker and calls of their services.
pub data Call : Type 0 where
  job_message : JobType → ℕ → Option ℕ → Call
  auto_cleanup : ℕ → String → Call
  evaluation : ℕ → Call
  lists : ℕ → Call
  progress : ℕ → Call
  dedupe_report : ℕ → ℕ → Call

-- The tables, with the next values of their id columns, and the calls made so far. `pages` holds the
-- document of each row of `document_pages`; `slot_lock` says whether the cache holds `LOCK_KEY`.
pub record World : Type 0 where
  pub jobs : List Job
  pub next_job : ℕ
  pub events : List Event
  pub runs : List Run
  pub next_run : ℕ
  pub documents : List Document
  pub pages : List ℕ
  pub cases : List Case
  pub calls : List Call
  pub slot_lock : Bool

-- The settings and the process: `jobs.max_attempts_default`, `jobs.stale_minutes`,
-- `processing.max_parallel_objects`, JOB_DISPATCH, the worker's name, and which object is the inbox.
pub record Config : Type 0 where
  pub max_attempts_default : ℕ
  pub stale_minutes : JobType → ℕ
  pub max_parallel : ℕ
  pub dispatches : Bool
  pub worker : String
  pub is_inbox : ℕ → Bool
