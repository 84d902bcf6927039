-- ===== src/Pipeline/Runs.antt =====
-- src/apps/pipeline/runs.py: starting the runs of objects and feeding them with jobs.
use objekt_bernahme_automati.Prelude.{decimal}
use objekt_bernahme_automati.Prelude.{
  ℕ, suc, ◌+◌, ◌-◌, ◌==◌, Bool, true, false, not, ◌&&◌, Option, none, some, List, [], ◌∷◌, String,
  ◌<>◌, prefix, is_blank, ltb, leb, if◌then◌else◌, take,
}
use objekt_bernahme_automati.Prelude.Table.{exists, select, count, update, order_by}
use objekt_bernahme_automati.Pipeline.Job.{
  JobType, discover, hash, analyze_pages, extract_entities, job_type_value, Json,
}
use objekt_bernahme_automati.Pipeline.Run
use objekt_bernahme_automati.Pipeline.Run.{Run, RunStatus, RunType, is_serial}
use objekt_bernahme_automati.Pipeline.World.{
  World, Config, Document, DocumentStatus, registered, hashed, ocr_done, error, Case,
}
use objekt_bernahme_automati.Pipeline.Queue.{Request, enqueue}

abbrev pub has_run_id : ℕ → Run → Bool
has_run_id pk r = r.id == pk

-- A pending and a running run of a serial type.
abbrev pub queued : Run → Bool
queued r = Run.is_pending r.status && is_serial r.run_type

abbrev pub occupies : Run → Bool
occupies r = Run.is_running r.status && is_serial r.run_type

unfoldable pub queue_position : Run → World → Option ℕ
queue_position r w =
    if Run.is_pending r.status
    then some (count (λ other. queued other && ltb other.created_at r.created_at) w.runs + 1)
    else none

abbrev pub by_creation : Run → Run → Bool
by_creation a b = leb a.created_at b.created_at

abbrev pub started : Config → ℕ → Run → Run
started cfg now r = record r {
  status = RunStatus.running;
  started_at = some now;
  worker_count = some cfg.max_parallel;
}

-- `object=run.object, status=RUNNING, run_type__in=SERIAL_TYPES`
abbrev pub occupied : ℕ → List Run → Bool
occupied object rs = exists (λ (r : Run). r.object == object && occupies r) rs

-- The loop over the waiting runs: the ids that it starts, and the table.
unfoldable pub start_each : Config → ℕ → List Run → List Run → List ℕ × List Run
start_each cfg now [] rs = ([], rs)
start_each cfg now (r ∷ todo) rs =
    let busy = occupied r.object rs in
    let rs' = if busy then rs else update (has_run_id r.id) (started cfg now) rs in
    let (ids, end) = start_each cfg now todo rs' in (if busy then ids else r.id ∷ ids, end)

-- The transaction of `schedule_runs`.
unfoldable pub start_waiting : Config → ℕ → World → List ℕ × World
unfolding start_each
start_waiting cfg now w =
    let running = count occupies w.runs in
    let (ids, rs) =
      start_each cfg now
        (take (cfg.max_parallel - running) (order_by by_creation (select queued w.runs))) w.runs in
    if leb cfg.max_parallel running then ([], w) else (ids, record w { runs = rs })

abbrev has_page : Document → World → Bool
has_page d w = exists (λ id. id == d.id) w.pages

unfoldable pub restart_status : Document → World → DocumentStatus
restart_status d w =
    if not (is_blank d.sha256) && has_page d w
    then ocr_done
    else if not (is_blank d.sha256)
    then hashed
    else registered

abbrev pub reset_limit : ℕ
reset_limit = 3

abbrev pub is_about : ℕ → Option ℕ → Bool
is_about id none = false
is_about id (some d) = d == id

-- A failed attempt that was resumed before.
abbrev pub resumption : Document → Case → Bool
resumption d c = is_about d.id c.document && (c.resolved && c.resumed)

abbrev pub resolve : Case → Case
resolve c = record c { is_open = false; resolved = true; resumed = true }

-- The body of the loop for one document in the status `error`.
unfoldable pub reset_document : Document → ℕ × World → ℕ × World
unfolding restart_status
reset_document d (n, w) = if leb reset_limit (count (resumption d) w.cases) then (n, w) else (
  suc n,
  record w {
    documents =
        update (λ (row : Document). row.id == d.id)
          (λ row. record row { status = restart_status d w; error_message = none }) w.documents;
    cases = update (λ c. is_about d.id c.document && c.is_open) resolve w.cases;
  },
)

abbrev is_error : DocumentStatus → Bool
is_error error = true
is_error _ = false

abbrev pub failed_document : Run → Document → Bool
failed_document r d = d.object == r.object && (not d.deleted && is_error d.status)

unfoldable pub reset_each : List Document → ℕ × World → ℕ × World
unfolding reset_document
reset_each [] s = s
reset_each (d ∷ ds) s = reset_each ds (reset_document d s)

unfoldable pub reset_failed_documents : Run → World → ℕ × World
unfolding reset_each
reset_failed_documents r w = reset_each (select (failed_document r) w.documents) (0, w)

abbrev joined : List String → String
joined [] = ""
joined (p ∷ ps) = ":" <> p <> joined ps

-- `idempotency_key(job_type, obj_id, *parts)`
abbrev pub idempotency_key : JobType → ℕ → List String → String
idempotency_key t object parts = prefix 160 (job_type_value t <> joined (decimal object ∷ parts))

abbrev start_request : JobType → Run → Document → List String → Json → Request
start_request t r d parts payload = record {
  job_type = t;
  object = r.object;
  key = idempotency_key t r.object parts;
  document = some d.id;
  run = some r.id;
  payload = payload;
  priority = 100;
  dispatch = false;
  repeat = true;
}

-- The job that takes a document on from its status.
unfoldable pub start_job : Run → Document → Request
start_job r d = elim d.status [
  | registered ↦
      if d.from_drive
      then start_request discover r d (d.drive_file ∷ d.drive_md5 ∷ [])
          (("drive_file_id", d.drive_file) ∷ ("md5", d.drive_md5) ∷ [])
      else start_request hash r d
          ((if is_blank d.drive_file then "upload-" <> decimal d.id else d.drive_file) ∷ [])
          (("source_path", d.source_path) ∷ [])
  | hashed ↦ start_request analyze_pages r d (d.sha256 ∷ []) []
  | _ ↦ start_request extract_entities r d (d.sha256 ∷ []) []
]

-- `enqueue_start_job(doc, run)`, with `dispatch` left at False.
unfoldable pub enqueue_start_job : Config → ℕ → Document → Run → World → World
unfolding enqueue start_job
enqueue_start_job cfg now d r w = (enqueue cfg now (start_job r d) w).1
