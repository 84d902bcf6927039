-- ===== src/Pipeline/Feeding.antt =====
-- src/apps/pipeline/runs.py: `dispatch_run`, `schedule_runs` and the functions that call them.
use objekt_bernahme_automati.Prelude.{
  ℕ, suc, ◌+◌, ◌*◌, ◌==◌, Bool, true, false, not, ◌&&◌, Option, none, some, List, [], ◌∷◌, ◌++◌,
  ltb, leb, if◌then◌else◌, length,
}
use objekt_bernahme_automati.Prelude.Table.{exists, select, find, update}
use objekt_bernahme_automati.Pipeline.Job.{Job, is_pending, is_terminal}
use objekt_bernahme_automati.Pipeline.Run.{Run, RunStatus, RunType}
use objekt_bernahme_automati.Pipeline.World.{
  World, Config, Document, DocumentStatus, registered, hashed, ocr_done,
}
use objekt_bernahme_automati.Pipeline.Pickup.{not_in_flight, send_all, never, redispatch_hours}
use objekt_bernahme_automati.Pipeline.Runs.{
  has_run_id, start_waiting, reset_failed_documents, enqueue_start_job, occupies,
}

abbrev is_start_status : DocumentStatus → Bool
is_start_status registered = true
is_start_status hashed = true
is_start_status ocr_done = true
is_start_status _ = false

abbrev pub document_of : ℕ → Job → Bool
document_of id j = elim j.document [ none ↦ false | some d ↦ d == id ]

-- A document with an open job of the object is in the chain (`in_arbeit`).
abbrev pub in_chain : Run → List Job → Document → Bool
in_chain r js d =
    exists (λ (j : Job). j.object == r.object && (document_of d.id j && not (is_terminal j.status)))
      js

abbrev pub needs_start : Run → Document → Bool
needs_start r d = d.object == r.object && (not d.deleted && is_start_status d.status)

unfoldable pub enqueue_each : Config → ℕ → Run → List Document → World → World
unfolding enqueue_start_job
enqueue_each cfg now r [] w = w
enqueue_each cfg now r (d ∷ ds) w = enqueue_each cfg now r ds (enqueue_start_job cfg now d r w)

-- Pending jobs of the object without a run join the run.
abbrev pub claim : Run → Job → Bool
claim r j = j.object == r.object && (is_pending j.status && never j.run)

abbrev pub of_run : ℕ → Job → Bool
of_run id j = elim j.run [ none ↦ false | some k ↦ k == id ]

abbrev pub unsent : ℕ → Run → Job → Bool
unsent now r j =
    j.object == r.object
    && (is_pending j.status && (of_run r.id j && not_in_flight now redispatch_hours j))

abbrev pub live_documents : Run → World → List Document
live_documents r w = select (λ (d : Document). d.object == r.object && not d.deleted) w.documents

-- The documents that get a start job, in the world after `reset_failed_documents`.
unfoldable pub to_start : Run → World → List Document
to_start r w = select (λ d. not (in_chain r w.jobs d)) (select (needs_start r) w.documents)

-- The steps of `dispatch_run`: the jobs without a run join it, what is not under way is sent, and the
-- documents are counted.
unfoldable pub claim_jobs : Run → World → World
claim_jobs r w = record w { jobs = update (claim r) (λ j. record j { run = some r.id }) w.jobs }

unfoldable pub send_unsent : Config → ℕ → Run → World → World
unfolding send_all not_in_flight
send_unsent cfg now r w = send_all cfg now (select (unsent now r) w.jobs) w

unfoldable pub count_documents : Run → World → World
count_documents r w = record w {
  runs =
      update (has_run_id r.id)
        (λ row. record row { documents_total = some (length (live_documents r w)) }) w.runs;
}

unfoldable pub dispatch_run : Config → ℕ → Run → World → ℕ × World
unfolding reset_failed_documents to_start enqueue_each claim_jobs send_unsent count_documents
dispatch_run cfg now r w =
    let (_, w1) = reset_failed_documents r w in
    (
      length (to_start r w1),
      count_documents r
          (send_unsent cfg now r (claim_jobs r (enqueue_each cfg now r (to_start r w1) w1))),
    )

unfoldable pub dispatch_found : Config → ℕ → Option Run → World → World
unfolding dispatch_run
dispatch_found cfg now none w = w
dispatch_found cfg now (some r) w = (dispatch_run cfg now r w).1

unfoldable pub dispatch_each : Config → ℕ → List ℕ → World → World
unfolding dispatch_found
dispatch_each cfg now [] w = w
dispatch_each cfg now (id ∷ ids) w =
    dispatch_each cfg now ids (dispatch_found cfg now (find (has_run_id id) w.runs) w)

-- `cache.add(LOCK_KEY)` fails while another process holds the lock.
unfoldable pub schedule_runs : Config → ℕ → World → List ℕ × World
unfolding start_waiting dispatch_each
schedule_runs cfg now w =
    let (ids, w') = start_waiting cfg now w in
    if w.slot_lock then ([], w) else (ids, dispatch_each cfg now ids w')

unfoldable pub new_run : ℕ → ℕ → ℕ → RunType → Bool → Run
new_run now id object run_type dry_run = record {
  id = id;
  object = object;
  run_type = run_type;
  status = RunStatus.pending;
  dry_run = dry_run;
  worker_count = none;
  documents_total = none;
  documents_done = none;
  documents_failed = none;
  documents_skipped = none;
  started_at = none;
  finished_at = none;
  created_at = now;
}

-- The row after `refresh_from_db`, and the new world.
unfoldable pub start_run : Config → ℕ → ℕ → RunType → Bool → World → Option Run × World
unfolding schedule_runs new_run
start_run cfg now object run_type dry_run w =
    let (_, w') = schedule_runs cfg now (record w {
      runs = w.runs ++ new_run now w.next_run object run_type dry_run ∷ [];
      next_run = suc w.next_run;
    }) in
    (find (has_run_id w.next_run) w'.runs, w')

abbrev pub quiet_minutes : ℕ
quiet_minutes = 5

abbrev pub started_before : ℕ → ℕ → Option ℕ → Bool
started_before now minutes none = false
started_before now minutes (some t) = ltb (t + 60 * minutes) now

-- A running run whose dispatch never ended.
abbrev pub interrupted : ℕ → ℕ → Run → Bool
interrupted now minutes r =
    occupies r && (never r.documents_total && started_before now minutes r.started_at)

-- Some job of the object was written in the last minutes.
abbrev pub still_busy : ℕ → Run → Job → Bool
still_busy now r j = j.object == r.object && leb now (j.updated_at + 60 * quiet_minutes)

unfoldable pub repair_each : Config → ℕ → List Run → World → List ℕ × World
unfolding dispatch_run
repair_each cfg now [] w = ([], w)
repair_each cfg now (r ∷ rs) w =
    let busy = exists (still_busy now r) w.jobs in
    let w' = if busy then w else (dispatch_run cfg now r w).1 in
    let (ids, end) = repair_each cfg now rs w' in (if busy then ids else r.id ∷ ids, end)

unfoldable pub repair_interrupted_runs : Config → ℕ → ℕ → World → List ℕ × World
unfolding repair_each
repair_interrupted_runs cfg now minutes w =
    repair_each cfg now (select (interrupted now minutes) w.runs) w
