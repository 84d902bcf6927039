-- ===== src/Pipeline/Reach.antt =====
-- src/apps/pipeline: every order of the pipeline's operations.
use objekt_bernahme_automati.Prelude.{
  ℕ, ◌<◌, ◌≡◌, refl, sym, ap, ◌∙◌, Bool, Option, none, some, List, All-append, arith,
}
use objekt_bernahme_automati.Prelude.Table.{All-update}
use objekt_bernahme_automati.Pipeline.Job.{Job, Event}
use objekt_bernahme_automati.Pipeline.Run.{RunType}
use objekt_bernahme_automati.Pipeline.World.{World, Config, Document, Case, Call}
use objekt_bernahme_automati.Pipeline.Queue.{Request, new_job, enqueue, has_id}
use objekt_bernahme_automati.Pipeline.Pickup.{reserve, redispatch_lost_jobs, heartbeat}
use objekt_bernahme_automati.Pipeline.Feeding.{schedule_runs, start_run}
use objekt_bernahme_automati.Pipeline.Worker.{Work, work_on, job_task, run_of}
use objekt_bernahme_automati.Pipeline.Induction.{IsHarmless, IsPreserved, P-enqueue}
use objekt_bernahme_automati.Pipeline.Validity.{IsValid, IsValid-IsPreserved}
use objekt_bernahme_automati.Pipeline.Attempts.{reserve-IsValid}
use objekt_bernahme_automati.Pipeline.Reservation.{IsReserved, reserve-IsReserved}
use objekt_bernahme_automati.Pipeline.Sweep.{sweep_stale_jobs, dedupe_repeat_jobs}
use objekt_bernahme_automati.Pipeline.Sweeping.{
  sweep_stale_jobs-IsValid, redispatch-IsValid, dedupe-IsValid,
}
use objekt_bernahme_automati.Pipeline.Lifecycle.{conclude-IsValid, schedule_runs-IsValid}

-- What the work on a job may do: enqueue jobs, write a heartbeat, and change other tables.
pub data Effects (cfg : Config) : World → World → Type 0 where
  nothing : {w : World} → Effects cfg w w
  enqueues :
      {w u : World}
      → Effects cfg w u
      → (now : ℕ) (r : Request) → Effects cfg w (enqueue cfg now r u).1
  beats :
      {w u : World}
      → Effects cfg w u
      → (now : ℕ) (j : Job) (pages : Option ℕ) → Effects cfg w (heartbeat now j pages u)
  says :
      {w u : World}
      → Effects cfg w u
      → (events : List Event) (calls : List Call)
      → Effects cfg w (record u { events = events; calls = calls })
  writes :
      {w u : World}
      → Effects cfg w u
      → (documents : List Document) (cases : List Case)
      → Effects cfg w (record u { documents = documents; cases = cases })

P-heartbeat :
    (cfg : Config) (P : World → Type 0) (k : IsPreserved cfg P) (now : ℕ) (j : Job)
    (pages : Option ℕ) (w : World)
    → P w
    → P (heartbeat now j pages w)
unfolding heartbeat
P-heartbeat cfg P k now j pages w h =
    k.marked w (has_id j.id) _
      (record {
        same_id = λ _. refl;
        same_status = λ _. refl;
        same_attempts = λ _. refl;
        same_max = λ _. refl;
      })
      h

P-Effects :
    (cfg : Config) (P : World → Type 0) (k : IsPreserved cfg P) {w u : World}
    → Effects cfg w u
    → P w
    → P u
P-Effects cfg P k nothing h = h
P-Effects cfg P k (enqueues e now r) h = P-enqueue cfg P k now r _ (P-Effects cfg P k e h)
P-Effects cfg P k (beats e now j pages) h =
    P-heartbeat cfg P k now j pages _ (P-Effects cfg P k e h)
P-Effects cfg P k (says e events calls) h = k.said _ events calls (P-Effects cfg P k e h)
P-Effects cfg P k (writes e documents cases) h = k.reset _ documents cases (P-Effects cfg P k e h)

harmless-same :
    (f : Job → Job) (j row : Job)
    → IsHarmless f
    → (row.id ≡ j.id → (row.attempt_count ≡ j.attempt_count) × (row.max_attempts ≡ j.max_attempts))
    → (f row).id ≡ j.id
    → ((f row).attempt_count ≡ j.attempt_count) × ((f row).max_attempts ≡ j.max_attempts)
harmless-same f j row h k i =
    let r = k (sym (h.same_id row) ∙ i) in (h.same_attempts row ∙ r.0, h.same_max row ∙ r.1)

IsReserved-IsPreserved : (cfg : Config) (j : Job) → IsPreserved cfg (λ w. IsReserved j w)
unfolding new_job
IsReserved-IsPreserved cfg j = record {
  said = λ w events calls h. record {
    started = h.started;
    within = h.within;
    current = h.current;
    known = h.known;
  };
  marked = λ w p f k h. record {
    started = h.started;
    within = h.within;
    current =
        All-update
          (λ (row : Job).
            row.id ≡ j.id
            → (row.attempt_count ≡ j.attempt_count) × (row.max_attempts ≡ j.max_attempts))
          p f (λ row _. harmless-same f j row k) w.jobs h.current;
    known = h.known;
  };
  added = λ w now key r h. record {
    started = h.started;
    within = h.within;
    current =
        All-append
          (λ (row : Job).
            row.id ≡ j.id
            → (row.attempt_count ≡ j.attempt_count) × (row.max_attempts ≡ j.max_attempts))
          w.jobs _ h.current ((λ i. omega (arith, i, h.known)), tt);
    known = omega (arith, h.known);
  };
  reset = λ w documents cases h. record {
    started = h.started;
    within = h.within;
    current = h.current;
    known = h.known;
  };
  totalled = λ w p f k h. record {
    started = h.started;
    within = h.within;
    current = h.current;
    known = h.known;
  };
}

module _ (cfg : Config) (positive : 0 < cfg.max_attempts_default) where
  work_on-IsValid :
      (end : ℕ) (work : Work) (j : Option Job) (w : World)
      → ((x : Job) → j ≡ some x → IsReserved x w)
      → ((x : Job) (u : World) → Effects cfg u (work x u).1)
      → IsValid w
      → IsValid (work_on cfg end work (j, w)).1
  unfolding work_on
  work_on-IsValid end work none w h e v = v
  work_on-IsValid end work (some j) w h e v =
      conclude-IsValid cfg positive end j (run_of j.run w) (work j w).0 (work j w).1
        (P-Effects cfg (λ u. IsReserved j u) (IsReserved-IsPreserved cfg j) (e j w) (h j refl))
        (P-Effects cfg IsValid (IsValid-IsPreserved cfg positive) (e j w) v)

  -- A whole task keeps the job table valid: whatever the work answers, afterwards ids are given once, no
  -- job has more attempts than its limit, and every pending job has one left. The limit for new jobs is
  -- positive, and the work may enqueue jobs, write heartbeats and change other tables.
  pub job_task-IsValid :
      (start end : ℕ) (work : Work) (pk : ℕ) (w : World)
      → ((x : Job) (u : World) → Effects cfg u (work x u).1)
      → IsValid w
      → IsValid (job_task cfg start end work pk w).1
  unfolding job_task
  job_task-IsValid start end work pk w e v =
      work_on-IsValid end work (reserve cfg start pk w).0 (reserve cfg start pk w).1
        (λ x h.
          reserve-IsReserved cfg start pk w x _ v positive
            (ap (λ o. (o, (reserve cfg start pk w).1)) h))
        e (reserve-IsValid cfg positive start pk w v)

-- One operation of the pipeline, by the web application, a worker or the timer.
pub data Step (cfg : Config) : World → World → Type 0 where
  enqueueing : (now : ℕ) (r : Request) {w : World} → Step cfg w (enqueue cfg now r w).1
  beating :
      (now : ℕ) (j : Job) (pages : Option ℕ) {w : World} → Step cfg w (heartbeat now j pages w)
  working :
      (start end : ℕ) (work : Work) (pk : ℕ) {w : World}
      → ((x : Job) (u : World) → Effects cfg u (work x u).1)
      → Step cfg w (job_task cfg start end work pk w).1
  redispatching :
      (now limit hours : ℕ) {w : World} → Step cfg w (redispatch_lost_jobs cfg now limit hours w).1
  sweeping : (now : ℕ) {w : World} → Step cfg w (sweep_stale_jobs cfg now w).1
  deduping :
      (now : ℕ) (dry_run : Bool) {w : World} → Step cfg w (dedupe_repeat_jobs cfg now dry_run w).1
  starting :
      (now object : ℕ) (t : RunType) (dry_run : Bool) {w : World}
      → Step cfg w (start_run cfg now object t dry_run w).1
  scheduling : (now : ℕ) {w : World} → Step cfg w (schedule_runs cfg now w).1

pub data Chain (cfg : Config) : World → World → Type 0 where
  stay : {w : World} → Chain cfg w w
  then_step : {w u v : World} → Chain cfg w u → Step cfg u v → Chain cfg w v

module _ (cfg : Config) (positive : 0 < cfg.max_attempts_default) where
  start_run-IsValid :
      (now object : ℕ) (t : RunType) (dry_run : Bool) (w : World)
      → IsValid w
      → IsValid (start_run cfg now object t dry_run w).1
  unfolding start_run
  start_run-IsValid now object t dry_run w v =
      schedule_runs-IsValid cfg positive now _
        (record { distinct = v.distinct; fresh = v.fresh; bounded = v.bounded })

  Step-IsValid : {w u : World} → Step cfg w u → IsValid w → IsValid u
  Step-IsValid (enqueueing now r) v =
      P-enqueue cfg IsValid (IsValid-IsPreserved cfg positive) now r _ v
  Step-IsValid (beating now j pages) v =
      P-heartbeat cfg IsValid (IsValid-IsPreserved cfg positive) now j pages _ v
  Step-IsValid (working start end work pk e) v =
      job_task-IsValid cfg positive start end work pk _ e v
  Step-IsValid (redispatching now limit hours) v =
      redispatch-IsValid cfg positive now limit hours _ v
  Step-IsValid (sweeping now) v = sweep_stale_jobs-IsValid cfg positive now _ v
  Step-IsValid (deduping now dry_run) v = dedupe-IsValid cfg positive now dry_run _ v
  Step-IsValid (starting now object t dry_run) v = start_run-IsValid now object t dry_run _ v
  Step-IsValid (scheduling now) v = schedule_runs-IsValid cfg positive now _ v

  -- In whatever order enqueueing, heartbeats, whole tasks, resending, sweeping, removing repetitions and
  -- starting runs follow each other, the job table stays valid: no id is given twice, no job has more
  -- attempts than its limit, and every pending job has one left. The setting for new jobs is positive,
  -- and the tasks' work does what `Effects` allows.
  pub Chain-IsValid : {w u : World} → Chain cfg w u → IsValid w → IsValid u
  Chain-IsValid stay v = v
  Chain-IsValid (then_step c s) v = Step-IsValid s (Chain-IsValid c v)
