-- ===== src/Pipeline/Ending.antt =====
-- src/apps/pipeline/jobs.py: how the work on a job ends. `j` is the worker's copy of the row; a
-- function writes the columns that its `save(update_fields=...)` names.
use objekt_bernahme_automati.Prelude.{decimal}
use objekt_bernahme_automati.Prelude.{
  ℕ, zero, suc, ◌+◌, ◌-◌, ◌*◌, ◌^◌, min, ◌==◌, Bool, true, false, not, ◌&&◌, Option, none, some,
  List, [], ◌∷◌, ◌++◌, String, ◌<>◌, prefix, str_eq, ltb, if◌then◌else◌,
}
use objekt_bernahme_automati.Prelude.Table.{exists, update}
use objekt_bernahme_automati.Pipeline.Job.{Job, pending, running, done, failed, skipped, Json}
use objekt_bernahme_automati.Pipeline.World.{
  World, Config, Document, DocumentStatus, filed, duplicate, moved_out, error, Case,
}
use objekt_bernahme_automati.Pipeline.Queue.{has_id, event, send}

abbrev pub write : Job → (Job → Job) → World → World
write j f w = record w { jobs = update (has_id j.id) f w.jobs }

abbrev duration : ℕ → Option ℕ → Option ℕ
duration now none = none
duration now (some start) = some (1000 * (now - start))

abbrev given : Option ℕ → Option ℕ → Option ℕ
given none old = old
given (some n) old = some n

unfoldable pub complete : Config → ℕ → Job → Json → Option ℕ → World → World
complete cfg now j result pages w = event cfg j (some running) done "" (
    write j
      (λ row. record row {
        status = done;
        finished_at = some now;
        duration_ms = duration now j.started_at;
        result = some result;
        pages_processed = given pages j.pages_processed;
        locked_by = none;
        updated_at = now;
      })
      w)

unfoldable pub skip : Config → ℕ → Job → String → World → World
skip cfg now j reason w = event cfg j (some running) skipped reason (
    write j
      (λ row. record row {
        status = skipped;
        skip_reason = some (prefix 64 reason);
        finished_at = some now;
        locked_by = none;
        updated_at = now;
      })
      w)

-- The copy after `defer` has set its columns.
abbrev pub deferred : ℕ → ℕ → String → Job → Job
deferred now seconds reason j = record j {
  status = pending;
  locked_by = none;
  next_attempt_at = some (now + seconds);
  attempt_count = j.attempt_count - 1;
  last_error = some (prefix 2000 ("wartet: " <> reason));
}

unfoldable pub defer : Config → ℕ → Job → String → ℕ → World → World
unfolding send
defer cfg now j reason seconds w =
    let copy = deferred now seconds reason j in
    send cfg now copy seconds (
      event cfg copy (some running) pending ("wartet " <> decimal seconds <> " s: " <> reason) (
        write j
          (λ row. record row {
            status = pending;
            locked_by = none;
            next_attempt_at = copy.next_attempt_at;
            attempt_count = copy.attempt_count;
            last_error = copy.last_error;
            updated_at = now;
          })
          w))

abbrev closed_document : DocumentStatus → Bool
closed_document filed = true
closed_document duplicate = true
closed_document moved_out = true
closed_document _ = false

abbrev mark_document : Option ℕ → Option String → List Document → List Document
mark_document none message ds = ds
mark_document (some pk) message ds =
    update (λ (d : Document). d.id == pk && not (closed_document d.status))
      (λ d. record d { status = error; error_message = message }) ds

abbrev pub case_key : Job → String
case_key j = "job_failed:" <> decimal j.id

abbrev pub open_case : String → Case → Bool
open_case key c = str_eq c.batch_key key && c.is_open

-- `_mark_document_error`: the document of a failed job, and one open case for the job.
unfoldable pub mark_document_error : Job → World → World
mark_document_error j w =
    let key = case_key j in
    let cases =
      if exists (open_case key) w.cases
      then w.cases
      else w.cases
        ++ record {
          batch_key = key;
          object = j.object;
          document = j.document;
          is_open = true;
          resolved = false;
          resumed = false;
          error = j.last_error;
          attempts = j.attempt_count;
        }
          ∷ [] in
    record w { documents = mark_document j.document j.last_error w.documents; cases = cases }

-- `min(600, 30 * 2 ** (attempt_count - 1))`; 2 ** -1 is a half.
unfoldable pub backoff : ℕ → ℕ
backoff zero = 15
backoff (suc n) = min 600 (30 * 2 ^ n)

abbrev text_of : Option String → String
text_of none = "None"
text_of (some s) = s

-- The copy after `fail` has set the columns of both branches.
abbrev pub failing : String → String → Job → Job
failing class text j = record j {
  last_error = some (prefix 2000 (class <> ": " <> text));
  error_class = some (prefix 80 class);
  locked_by = none;
}

unfoldable pub retry : Config → ℕ → Job → World → World
unfolding send backoff
retry cfg now j w =
    let delay = backoff j.attempt_count in
    send cfg now j delay (
      event cfg j (some running) pending
        ("erneut in " <> decimal delay <> " s: " <> text_of j.last_error)
        (write j
          (λ row. record row {
            status = pending;
            next_attempt_at = some (now + delay);
            last_error = j.last_error;
            error_class = j.error_class;
            locked_by = none;
            updated_at = now;
          })
          w))

unfoldable pub give_up : Config → ℕ → Job → World → World
unfolding mark_document_error
give_up cfg now j w = mark_document_error j (
    event cfg j (some running) failed (text_of j.last_error) (
      write j
        (λ row. record row {
          status = failed;
          finished_at = some now;
          last_error = j.last_error;
          error_class = j.error_class;
          locked_by = none;
          updated_at = now;
        })
        w))

-- `class` and `text` are the exception's.
unfoldable pub fail : Config → ℕ → Job → String → String → Bool → World → World
unfolding retry give_up
fail cfg now j class text retryable w =
    let copy = failing class text j in
    if retryable && ltb j.attempt_count j.max_attempts
    then retry cfg now copy w
    else give_up cfg now copy w
