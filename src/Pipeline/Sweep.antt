-- ===== src/Pipeline/Sweep.antt =====
-- src/apps/pipeline/jobs.py: the sweeper for jobs without a heartbeat, and the removal of surplus
-- repetitions.
use Prim.Native.String as Str
use Prim.Native.String.{slice}
use objekt_bernahme_automati.Prelude.{decimal}
use objekt_bernahme_automati.Prelude.{
  ℕ, ◌+◌, ◌*◌, ◌==◌, Bool, false, ◌&&◌, ◌||◌, Option, none, some, List, [], ◌∷◌, ◌++◌, map, String,
  ◌<>◌, str_eq, ltb, leb, if◌then◌else◌, length,
}
use objekt_bernahme_automati.Prelude.Table.{exists, select, count, find, update}
use objekt_bernahme_automati.Pipeline.Job.{
  Job, Event, pending, running, failed, skipped, is_pending, is_running,
}
use objekt_bernahme_automati.Pipeline.World.{World, Config, dedupe_report}
use objekt_bernahme_automati.Pipeline.Queue.{has_id, event, send}
use objekt_bernahme_automati.Pipeline.Ending.{write, mark_document_error}

-- `job.heartbeat_at or job.locked_at or job.updated_at`
abbrev pub last_sign : Job → Option ℕ → Option ℕ → ℕ
last_sign j (some t) _ = t
last_sign j none (some t) = t
last_sign j none none = j.updated_at

-- Not `last_sign > now - minutes`.
abbrev pub stale : Config → ℕ → Job → Bool
stale cfg now j =
    leb (last_sign j j.heartbeat_at j.locked_at + 60 * cfg.stale_minutes j.job_type) now

abbrev pub timed_out : Job → Job
timed_out j = record j {
  status = failed;
  last_error = some ("Heartbeat veraltet nach " <> decimal j.attempt_count <> " Versuchen");
  locked_by = none;
}

-- What the transaction does with the locked row: the counts of reset and of failed jobs, and the
-- new world.
unfoldable pub sweep_row : Config → ℕ → Job → World → (ℕ × ℕ) × World
unfolding send mark_document_error
sweep_row cfg now j w =
    if leb j.max_attempts j.attempt_count
    then (
      (0, 1),
      mark_document_error (timed_out j) (
          event cfg (timed_out j) (some running) failed
            ("Heartbeat veraltet nach " <> decimal j.attempt_count <> " Versuchen")
            (write j
              (λ row. record row {
                status = failed;
                last_error = (timed_out j).last_error;
                finished_at = some now;
                locked_by = none;
                updated_at = now;
              })
              w)),
    )
    else (
      (1, 0),
      send cfg now j 0 (
          event cfg j (some running) pending "Heartbeat veraltet, erneut eingereiht" (
            write j
              (λ row. record row {
                status = pending;
                locked_by = none;
                next_attempt_at = none;
                updated_at = now;
              })
              w)),
    )

-- `select_for_update().get(pk=...)`: a job that is no longer running is left alone.
unfoldable pub sweep_locked : Config → ℕ → Option Job → World → (ℕ × ℕ) × World
unfolding sweep_row
sweep_locked cfg now none w = ((0, 0), w)
sweep_locked cfg now (some j) w = if is_running j.status then sweep_row cfg now j w else ((0, 0), w)

-- The loop over the rows of the first query.
unfoldable pub sweep_all : Config → ℕ → List Job → ℕ × ℕ → World → (ℕ × ℕ) × World
unfolding sweep_locked
sweep_all cfg now [] (reset, gone) w = ((reset, gone), w)
sweep_all cfg now (j ∷ js) (reset, gone) w =
    let ((r, f), w') =
      if stale cfg now j then sweep_locked cfg now (find (has_id j.id) w.jobs) w else ((0, 0), w) in
    sweep_all cfg now js (reset + r, gone + f) w'

unfoldable pub sweep_stale_jobs : Config → ℕ → World → (ℕ × ℕ) × World
unfolding sweep_all
sweep_stale_jobs cfg now w = sweep_all cfg now (select (λ j. is_running j.status) w.jobs) (0, 0) w

-- `key.split("#", 1)[0]`
abbrev pub base_key : String → String
base_key key = slice key 0 (Str.find key "#")

-- A pending row whose key contains "#".
abbrev pub is_repeat : Job → Bool
is_repeat j = is_pending j.status && ltb (Str.find j.key "#") (Str.len j.key)

abbrev pub member : String → List String → Bool
member k [] = false
member k (x ∷ xs) = str_eq k x || member k xs

-- The rows whose base key an earlier row has, and the base keys of the others.
abbrev pub surplus : List String → List Job → List Job × List String
surplus kept [] = ([], kept)
surplus kept (j ∷ js) =
    let known = member (base_key j.key) kept in
    let (extra, all) = surplus (if known then kept else base_key j.key ∷ kept) js in
    (if known then j ∷ extra else extra, all)

abbrev pub is_listed : List Job → Job → Bool
is_listed js j = exists (λ (k : Job). k.id == j.id) js && is_pending j.status

abbrev pub dropped : ℕ → Job → Job
dropped now j = record j {
  status = skipped;
  skip_reason = some "doppelter Wiederholungsjob";
  finished_at = some now;
  updated_at = now;
}

abbrev dropped_event : Config → Job → Event
dropped_event cfg j = record {
  job = j.id;
  from_status = some pending;
  to_status = skipped;
  worker = cfg.worker;
  attempt_no = none;
  message = some "doppelter Wiederholungsjob bereinigt";
}

-- The counts `extra`, `kept` and `updated`, without the counts per job type. The chunks of 1000 ids have separate rows and events, so
-- that they do together what one UPDATE and one insertion do.
unfoldable pub dedupe_repeat_jobs : Config → ℕ → Bool → World → (ℕ × ℕ × Option ℕ) × World
dedupe_repeat_jobs cfg now dry_run w =
    let (extra, kept) = surplus [] (select is_repeat w.jobs) in
    if dry_run || length extra == 0 then ((length extra, length kept, none), w) else (
      (length extra, length kept, some (count (is_listed extra) w.jobs)),
      record w {
        jobs = update (is_listed extra) (dropped now) w.jobs;
        events = w.events ++ map (dropped_event cfg) extra;
        calls = w.calls ++ dedupe_report (length extra) (length kept) ∷ [];
      },
    )
