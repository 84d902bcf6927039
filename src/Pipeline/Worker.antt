-- ===== src/Pipeline/Worker.antt =====
-- src/apps/pipeline/jobs.py: `job_task`, which reserves a job, runs its work and writes the state
-- that follows. The work (src/apps/pipeline/tasks.py) is a parameter: it may change the world, and
-- ends with an `Outcome`.
use objekt_bernahme_automati.Prelude.{
  ℕ, ◌==◌, Bool, true, false, not, ◌&&◌, ◌||◌, Option, none, some, [], ◌∷◌, ◌++◌, String,
  if◌then◌else◌,
}
use objekt_bernahme_automati.Prelude.Table.{exists, find}
use objekt_bernahme_automati.Pipeline.Job.{Job, Json, is_filing}
use objekt_bernahme_automati.Pipeline.Run
use objekt_bernahme_automati.Pipeline.Run.{Run}
use objekt_bernahme_automati.Pipeline.World.{World, Config, auto_cleanup, progress}
use objekt_bernahme_automati.Pipeline.Pickup.{reserve}
use objekt_bernahme_automati.Pipeline.Ending.{complete, skip, defer, fail}
use objekt_bernahme_automati.Pipeline.Runs.{has_run_id}
use objekt_bernahme_automati.Pipeline.Finish.{maybe_finish_run, is_open}

-- The exceptions that the wrapper tells apart; the last two with the name of the type and the text.
pub data Outcome : Type 0 where
  returned : Option Json → Outcome
  skip_job : String → Outcome
  defer_job : String → ℕ → Outcome
  retryable_error : String → String → Outcome
  other_error : String → String → Outcome

abbrev pub Work : Type 0
Work = Job → World → Outcome × World

-- What the task returns.
pub data Report : Type 0 where
  not_reserved was_done was_skipped was_deferred will_retry has_failed : Report

abbrev pub run_of : Option ℕ → World → Option Run
run_of none w = none
run_of (some id) w = find (has_run_id id) w.runs

abbrev pub object_is_open : Job → World → Bool
object_is_open j w = exists (λ (k : Job). k.object == j.object && is_open k) w.jobs

-- The last filing after the end of a run. `run` is the copy from the reservation.
unfoldable pub after_filing : Config → Job → Option Run → World → World
after_filing cfg j none w = w
after_filing cfg j (some r) w =
    if not (Run.is_over r.status) || (r.dry_run || (object_is_open j w || cfg.is_inbox j.object))
    then w
    else record w { calls = w.calls ++ auto_cleanup j.object "filing" ∷ [] }

unfoldable pub finish_copy : Config → ℕ → Option Run → World → Bool × World
unfolding maybe_finish_run
finish_copy cfg now none w = (false, w)
finish_copy cfg now (some r) w = maybe_finish_run cfg now r w

unfoldable pub after_done : Config → ℕ → Job → Option Run → World → World
unfolding finish_copy after_filing
after_done cfg now j run w =
    let (ended, w') =
      finish_copy cfg now run (record w { calls = w.calls ++ progress j.object ∷ [] }) in
    if is_filing j.job_type && not ended then after_filing cfg j run w' else w'

abbrev or_empty : Option Json → Json
or_empty none = []
or_empty (some json) = json

unfoldable pub conclude : Config → ℕ → Job → Option Run → Outcome → World → Report × World
unfolding complete skip defer fail after_done
conclude cfg now j run (returned result) w =
    (was_done, after_done cfg now j run (complete cfg now j (or_empty result) none w))
conclude cfg now j run (skip_job reason) w = (was_skipped, skip cfg now j reason w)
conclude cfg now j run (defer_job reason seconds) w =
    (was_deferred, defer cfg now j reason seconds w)
conclude cfg now j run (retryable_error class text) w =
    (will_retry, fail cfg now j class text true w)
conclude cfg now j run (other_error class text) w = (has_failed, fail cfg now j class text false w)

unfoldable pub work_on : Config → ℕ → Work → Option Job × World → Report × World
unfolding conclude
work_on cfg end work (none, w) = (not_reserved, w)
work_on cfg end work (some j, w) =
    let (outcome, w') = work j w in conclude cfg end j (run_of j.run w) outcome w'

-- The wrapper of `job_task`; `start` is the clock at the reservation, `end` at the end of the work.
unfoldable pub job_task : Config → ℕ → ℕ → Work → ℕ → World → Report × World
unfolding reserve work_on
job_task cfg start end work pk w = work_on cfg end work (reserve cfg start pk w)
