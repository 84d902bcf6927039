-- ===== src/Pipeline/Tests.antt =====
-- Runs of the pipeline on concrete tables, and the theorems applied to them.
use objekt_bernahme_automati.Prelude.{decimal}
use objekt_bernahme_automati.Prelude.{
  ◌≤◌, ◌≡◌, refl, true, false, none, some, [], ◌∷◌, prefix, arith, length, map,
}
use objekt_bernahme_automati.Prelude.Table.{count}
use objekt_bernahme_automati.Pipeline.Job.{Job, hash, pending, running, failed}
use objekt_bernahme_automati.Pipeline.Run.{Run, RunType, RunStatus}
use objekt_bernahme_automati.Pipeline.World.{World, Config, Document, registered}
use objekt_bernahme_automati.Pipeline.Pickup.{reserve}
use objekt_bernahme_automati.Pipeline.Runs.{occupies}
use objekt_bernahme_automati.Pipeline.Feeding.{schedule_runs}
use objekt_bernahme_automati.Pipeline.Worker.{Work, retryable_error, job_task}
use objekt_bernahme_automati.Pipeline.Sweep.{sweep_stale_jobs, base_key}
use objekt_bernahme_automati.Pipeline.Slots.{
  running_of, HasRunIds, schedule_runs_bounded, schedule_runs_serial,
}
use objekt_bernahme_automati.Pipeline.Validity.{IsValid}
use objekt_bernahme_automati.Pipeline.Reservation.{reserve_twice}
use objekt_bernahme_automati.Pipeline.Reach.{
  Effects, nothing, working, sweeping, stay, then_step, Chain-IsValid, job_task-IsValid,
}
use objekt_bernahme_automati.Pipeline.Sweeping.{sweep_stale_jobs-IsValid}
use objekt_bernahme_automati.Pipeline.Ending.{fail}
use objekt_bernahme_automati.Pipeline.Cleared.{AllAlive, sweep_clears}
use objekt_bernahme_automati.Pipeline.Job.{done}
use objekt_bernahme_automati.Pipeline.Queue.{Request}
use objekt_bernahme_automati.Prelude.{◌<◌}
use objekt_bernahme_automati.Pipeline.World.{error, Case}
use objekt_bernahme_automati.Pipeline.Overtaken.{overtaken_worker}

abbrev cfg : Config
cfg = record {
  max_attempts_default = 3;
  stale_minutes = λ t. 15;
  max_parallel = 1;
  dispatches = true;
  worker = "worker@host:1";
  is_inbox = λ object. false;
}

abbrev run_1 : Run
run_1 = record {
  id = 1;
  object = 7;
  run_type = RunType.full;
  status = RunStatus.pending;
  dry_run = false;
  worker_count = none;
  documents_total = none;
  documents_done = none;
  documents_failed = none;
  documents_skipped = none;
  started_at = none;
  finished_at = none;
  created_at = 100;
}

abbrev document : Document
document = record {
  id = 3;
  object = 7;
  status = registered;
  from_drive = false;
  drive_file = "";
  drive_md5 = "";
  source_path = "/eingang/3.pdf";
  sha256 = "";
  error_message = none;
  deleted = false;
}

-- A run of the object 7 waits, with a second one behind it.
abbrev waiting : World
waiting = record {
  jobs = [];
  next_job = 1;
  events = [];
  runs = run_1 ∷ record run_1 { id = 2; created_at = 200 } ∷ [];
  next_run = 3;
  documents = document ∷ [];
  pages = [];
  cases = [];
  calls = [];
  slot_lock = false;
}

ids : HasRunIds waiting.runs
ids = ((omega arith, tt), (tt, tt))

-- The first run starts and gives the document its first job.
first_started : (schedule_runs cfg 300 waiting).0 ≡ 1 ∷ []
unfolding schedule_runs
first_started = refl

first_key : map (λ (j : Job). j.key) (schedule_runs cfg 300 waiting).1.jobs ≡ "hash:7:upload-3" ∷ []
unfolding schedule_runs prefix
first_key = refl

schedule_runs_bounded_example : count occupies (schedule_runs cfg 300 waiting).1.runs ≤ 1
schedule_runs_bounded_example =
    schedule_runs_bounded cfg 300 waiting 1 ids (omega arith) (omega arith)

schedule_runs_serial_example : count (running_of 7) (schedule_runs cfg 300 waiting).1.runs ≤ 1
schedule_runs_serial_example = schedule_runs_serial cfg 300 7 waiting ids (omega arith)

abbrev job : Job
job = record {
  id = 5;
  run = some 1;
  object = 7;
  document = some 3;
  job_type = hash;
  key = "hash:7:upload-3";
  status = pending;
  priority = 100;
  attempt_count = 2;
  max_attempts = 3;
  locked_by = none;
  locked_at = none;
  heartbeat_at = none;
  next_attempt_at = some 400;
  dispatched_at = some 350;
  started_at = none;
  finished_at = none;
  duration_ms = none;
  pages_processed = none;
  payload = [];
  result = none;
  last_error = none;
  error_class = none;
  skip_reason = none;
  updated_at = 350;
}

-- One job with one attempt left.
abbrev queued : World
queued = record waiting { jobs = job ∷ []; next_job = 6 }

valid : IsValid queued
valid = record { distinct = (tt, tt); fresh = (omega arith, tt); bounded = (omega arith, tt) }

abbrev taken : Job
taken = record job {
  status = running;
  locked_by = some "worker@host:1";
  locked_at = some 500;
  heartbeat_at = some 500;
  started_at = some 500;
  attempt_count = 3;
}

abbrev fails : Work
fails j w = (retryable_error "RetryableError" "Drive nicht erreichbar", w)

reserved : reserve cfg 500 5 queued ≡ (some taken, (reserve cfg 500 5 queued).1)
unfolding reserve
reserved = refl

reserve_twice_example :
    reserve cfg 900 5 (reserve cfg 500 5 queued).1 ≡ (none, (reserve cfg 500 5 queued).1)
reserve_twice_example =
    reserve_twice cfg 500 5 queued taken (reserve cfg 500 5 queued).1 cfg 900 valid (omega arith)
      reserved

-- The last attempt fails for good, and a review case is opened.
last_attempt :
    map (λ (j : Job). j.status) (job_task cfg 500 510 fails 5 queued).1.jobs ≡ failed ∷ []
unfolding job_task
last_attempt = refl

one_case : length (job_task cfg 500 510 fails 5 queued).1.cases ≡ 1
unfolding job_task
one_case = refl

fails-Effects : (x : Job) (u : World) → Effects cfg u (fails x u).1
fails-Effects x u = nothing

job_task-IsValid_example : IsValid (job_task cfg 500 510 fails 5 queued).1
job_task-IsValid_example =
    job_task-IsValid cfg (omega arith) 500 510 fails 5 queued fails-Effects valid

Chain-IsValid_example :
    IsValid (sweep_stale_jobs cfg 9000 (job_task cfg 500 510 fails 5 queued).1).1
Chain-IsValid_example =
    Chain-IsValid cfg (omega arith)
      (then_step (then_step stay (working 500 510 fails 5 fails-Effects)) (sweeping 9000)) valid

-- A worker that has died in its last attempt.
abbrev abandoned : World
abandoned = record waiting { jobs = taken ∷ []; next_job = 6 }

swept : (sweep_stale_jobs cfg 9000 abandoned).0 ≡ (0, 1)
unfolding sweep_stale_jobs
swept = refl

abandoned-IsValid : IsValid abandoned
abandoned-IsValid = record {
  distinct = (tt, tt);
  fresh = (omega arith, tt);
  bounded = (omega arith, tt);
}

sweep_stale_jobs-IsValid_example : IsValid (sweep_stale_jobs cfg 9000 abandoned).1
sweep_stale_jobs-IsValid_example =
    sweep_stale_jobs-IsValid cfg (omega arith) 9000 abandoned abandoned-IsValid

repeated_key : base_key "hash:7:upload-3#12" ≡ "hash:7:upload-3"
repeated_key = refl

twelve : decimal 12 ≡ "12"
twelve = refl

-- The sweeper has given the job to a second worker, in its last attempt; the first one's copy says 2.
abbrev first_copy : Job
first_copy = record taken { attempt_count = 2 }

overtaken_worker_example :
    (next : Job) × ((reserve cfg 2000 5
        (fail cfg 1000 first_copy "RetryableError" "Netz" true abandoned)).0
      ≡ some next)
    × (next.max_attempts < next.attempt_count)
overtaken_worker_example =
    overtaken_worker cfg 1000 2000 first_copy taken "RetryableError" "Netz" abandoned (tt, tt) refl
      refl refl (omega arith) (omega arith)

-- The job is done, and one repetition of it waits.
abbrev repeated : World
repeated = record waiting {
  jobs =
      record job { status = done }
      ∷ record job { id = 6; run = none; key = "hash:7:upload-3#2" }
      ∷ [];
  next_job = 7;
}

abbrev arrival : Request
arrival = record {
  job_type = hash;
  object = 7;
  key = "hash:7:upload-3";
  document = some 3;
  run = some 2;
  payload = [];
  priority = 100;
  dispatch = true;
  repeat = true;
}

abbrev repetition : Job
repetition = record job { id = 6; run = none; key = "hash:7:upload-3#2" }

-- A document in the status `error`, with three resumptions behind it.
abbrev broken : Document
broken = record document { status = error; error_message = some "RetryableError: Netz" }

abbrev resumed : Case
resumed = record {
  batch_key = "job_failed:5";
  object = 7;
  document = some 3;
  is_open = false;
  resolved = true;
  resumed = true;
  error = none;
  attempts = 3;
}

abbrev exhausted : World
exhausted = record waiting { documents = broken ∷ []; cases = resumed ∷ resumed ∷ resumed ∷ [] }

sweep_clears_example : AllAlive cfg 9000 (sweep_stale_jobs cfg 9000 abandoned).1
sweep_clears_example = sweep_clears cfg 9000 abandoned (omega arith) abandoned-IsValid
