-- ===== src/Pipeline/Pickup.antt =====
-- src/apps/pipeline/jobs.py: reserving a job, sending lost jobs again, and the heartbeat.
use objekt_bernahme_automati.Prelude.{
  ℕ, ◌+◌, ◌*◌, ◌==◌, Bool, true, false, ◌&&◌, ◌||◌, Option, none, some, List, [], ◌∷◌, ltb, leb,
  if◌then◌else◌, length, take,
}
use objekt_bernahme_automati.Prelude.Table.{exists, select, find, update}
use objekt_bernahme_automati.Pipeline.Job.{Job, pending, running, is_pending}
use objekt_bernahme_automati.Pipeline.Run
use objekt_bernahme_automati.Pipeline.Run.{Run}
use objekt_bernahme_automati.Pipeline.World.{World, Config}
use objekt_bernahme_automati.Pipeline.Queue.{has_id, event, send}

-- `models_q_next_attempt`
abbrev pub due : ℕ → Option ℕ → Bool
due now none = true
due now (some t) = leb t now

abbrev pub is_free : ℕ → Job → Bool
is_free now j = is_pending j.status && due now j.next_attempt_at

-- The condition of the UPDATE that reserves, and its columns.
abbrev pub reservable : ℕ → ℕ → Job → Bool
reservable now pk j = has_id pk j && is_free now j

abbrev pub locked : Config → ℕ → Job → Job
locked cfg now j = record j {
  status = running;
  locked_by = some cfg.worker;
  locked_at = some now;
  heartbeat_at = some now;
  started_at = some now;
  attempt_count = j.attempt_count + 1;
}

-- `get(pk=...)` and the event. The row is there, since the UPDATE found it.
abbrev pub fetched : Config → Option Job → World → Option Job × World
fetched cfg none w = (none, w)
fetched cfg (some j) w = (some j, event cfg j (some pending) running "" w)

unfoldable pub reserve : Config → ℕ → ℕ → World → Option Job × World
reserve cfg now pk w =
    let w' = record w { jobs = update (reservable now pk) (locked cfg now) w.jobs } in
    if exists (reservable now pk) w.jobs
    then fetched cfg (find (has_id pk) w'.jobs) w'
    else (none, w)

abbrev pub redispatch_hours : ℕ
redispatch_hours = 48

abbrev pub deferred_lost_hours : ℕ
deferred_lost_hours = 2

-- `t < now - hours` is written `t + hours < now`, so nothing is subtracted from a time.
abbrev pub older : ℕ → ℕ → Option ℕ → Bool
older now hours none = false
older now hours (some t) = ltb (t + 3600 * hours) now

abbrev pub sent_before : Option ℕ → Option ℕ → Bool
sent_before (some sent) (some next) = ltb sent next
sent_before _ _ = false

abbrev pub never : Option ℕ → Bool
never none = true
never (some _) = false

-- `models_q_not_in_flight`
unfoldable pub not_in_flight : ℕ → ℕ → Job → Bool
not_in_flight now hours j =
    never j.dispatched_at
    || (older now hours j.dispatched_at
        || older now deferred_lost_hours j.next_attempt_at
          && sent_before j.dispatched_at j.next_attempt_at)

-- Pending jobs without a run join the running run of their object, run after run.
abbrev pub without_run : Run → Job → Bool
without_run r j = j.object == r.object && (is_pending j.status && never j.run)

abbrev pub adopt : List Run → List Job → List Job
adopt [] js = js
adopt (r ∷ rs) js = adopt rs (update (without_run r) (λ j. record j { run = some r.id }) js)

abbrev is_live : Run → Bool
is_live r = Run.is_running r.status || Run.is_over r.status

-- `run__status__in=[RUNNING, DONE, FAILED]`
abbrev in_live_run : List Run → Option ℕ → Bool
in_live_run rs none = false
in_live_run rs (some id) = exists (λ (r : Run). r.id == id && is_live r) rs

abbrev pub lost : ℕ → ℕ → List Run → Job → Bool
lost now hours rs j =
    is_pending j.status
    && (in_live_run rs j.run && (due now j.next_attempt_at && not_in_flight now hours j))

unfoldable pub send_all : Config → ℕ → List Job → World → World
unfolding send
send_all cfg now [] w = w
send_all cfg now (j ∷ js) w = send_all cfg now js (send cfg now j 0 w)

unfoldable pub redispatch_lost_jobs : Config → ℕ → ℕ → ℕ → World → ℕ × World
unfolding send_all not_in_flight
redispatch_lost_jobs cfg now limit hours w =
    let w' = record w { jobs = adopt (select (λ r. Run.is_running r.status) w.runs) w.jobs } in
    let chosen = take limit (select (lost now hours w.runs) w'.jobs) in
    (length chosen, send_all cfg now chosen w')

abbrev pages_or : Option ℕ → Option ℕ → Option ℕ
pages_or none old = old
pages_or (some n) old = some n

unfoldable pub heartbeat : ℕ → Job → Option ℕ → World → World
heartbeat now j pages w = record w {
  jobs =
      update (has_id j.id)
        (λ row. record row {
          heartbeat_at = some now;
          pages_processed = pages_or pages row.pages_processed;
        })
        w.jobs;
}
