-- ===== src/Lib.antt =====
-- The take-over of managed real estate: documents are read and filed, an external provider is asked
-- where the text is unclear, a document archive is kept in step, and owners are registered.
--
-- The parts, and the files that model them:
--
-- * Pipeline (src/apps/pipeline/jobs.py, runs.py, models.py). A run of an object feeds its documents
--   into a queue of jobs; workers reserve jobs, run their work and write what follows; a timer sends
--   lost jobs again and sweeps up jobs whose workers have died. Pipeline/Job, Run and World are the
--   tables; Queue has `enqueue` and `send`, Pickup `reserve`, `redispatch_lost_jobs` and `heartbeat`,
--   Ending `done` (`complete`), `skip`, `defer` and `fail`, Worker `job_task`, Sweep `sweep_stale_jobs`
--   and `dedupe_repeat_jobs`, Runs and Feeding `schedule_runs`, `dispatch_run` and the functions
--   around them, Finish `maybe_finish_run`. Induction is the induction over what these do; Validity has
--   the invariant of the job table, with Attempts, Reservation, Lifecycle, Sweeping and Reach; Slots is
--   about running runs, Closing about the numbers of a closed run, Rows about enqueueing, Cleared about
--   the sweeper, Resumption about failed documents, Overtaken about a worker that has lost its job.
-- * Ai (src/apps/ai/router.py, provider.py, models.py). `Router.classify` asks the enabled providers
--   in their order, within limits of attempts, time and costs, and logs every call. Ai/World has the
--   log and the configuration, Provider the prices, the masking check and the circuit breaker, Router
--   the rows that are logged, CostLimit the reasons not to call, Attempt and Classify the loops;
--   `return`, `continue` and `break` of their bodies are the values of `Flow`.
--   Induction, Masking, Budget, Limits and CircuitBreaker have the proofs.
-- * Sync (src/apps/sync/operations.py, models.py). The list of operations against the document
--   archive, with the same life as a job, and commands for the user. Sync/Operation has the rows,
--   Queue, Worker and Manual the functions, the other files the proofs; Decide is the choice between
--   candidates for a document's object (src/apps/sync/assignment/decide.py), with Clarity.
-- * Parties (src/apps/parties/services.py, models.py). Which owner has which unit in which period.
--   Parties/Period, Assignment and Overlaps have the functions, PeriodLaws, NoOverlap and OverlapLaws
--   the proofs.
-- * Requirements (src/apps/requirements/engine.py, requests.py, models.py). Which documents and facts
--   of an object are still missing: rules over its data give one position each, a table of findings is
--   brought up to date, a user may set a status by hand, and a letter asks for what is open.
--   Requirements/Calendar has the fiscal years and periods, Spec, Data and Links the positions, the
--   loaded rows and their documents, Weg (with Units and Assignments) and Rental the two catalogues
--   and `evaluate_catalog`, Evaluate `evaluate_object`, Findings `summary` and `set_manual`,
--   Requests the letters. Equality, Entry, Upsert, Refinement, Uniqueness and Again are about the
--   run, Fiscal about the years, Totals about the summary, Marks and Forgotten about the marks of a
--   letter, Approval about its states. The two tables of a run and the positions' keys are the
--   program's; the passes over the table, which the source sends as four statements, are one.
-- * Drive (src/apps/drive/backoff.py, object_numbers.py, naming.py). Calls of the file service are repeated with
--   growing waiting times and slowed down, folders are named by the number of their object, and owners'
--   files by unit and names. Drive/Backoff has `retry_call`, RateLimiter the token bucket,
--   ObjectNumbers the numbers, Naming the files' names; Retries, Rate, NumberText, FolderNumbers,
--   NameLength and Collisions have the proofs.
-- * Classification (src/apps/classification/confidence.py). How the confidences of the rules and of the
--   trained model are combined: Confidence has `combine`, Caution the proof.
-- * Status (src/apps/status/alerts.py). Conditions are looked at every few minutes, and mails go out
--   when one begins and when it ends: Conditions has what they read, Alerts `check_alerts`, its cache
--   and the mails, Quiet, Spacing and Fallback the proofs.
-- * Imports (src/apps/imports/matching.py). Which known owner a person of an imported list is: Matching
--   has the scores and `match_owner`, Certainty the proof.
-- * Prelude has Boolean tests, lists, tables as lists of rows in the order of their ids (a query is
--   `select`, `find`, `count` or `exists`, an UPDATE is `update`), rows with keys, and rankings by a score.
--
-- A function takes what it reads of the clock as an argument (`now`) and the world, which holds the
-- tables and what was handed to other components, and returns its result and the new world. One
-- function is one transaction: interleavings of workers are sequences of such steps. Times are
-- seconds, days are ordinals, amounts millionths of a euro, shares millionths; all are native natural
-- numbers, and a difference of times is written as a sum on the other side.
--
-- Loops run over lists or texts, except five that count down: the rounds left in the local runner
-- `run_pending`, whose limit is the source's, the attempts left in `Router.classify`, the digits
-- of a number, which are no more than its value, and the rounds of `retry_call`, which has two more
-- than attempts are allowed: one for the first call, where none is allowed, and one for the call with
-- new credentials; and the counter of `resolve_collision`, which has one round more than names exist.
--
-- Parameters are the work of the job types (src/apps/pipeline/tasks.py) and the handlers of the
-- operations (src/apps/sync/flows), which may change the world, the network below `send` of a
-- provider, the prompt and the schema of a request, the patterns of src/objektakte/masking.py, the
-- similarities of names and their normal form, and the settings. Not modelled are the web views, the
-- drive and archive clients, the reading of documents, the classification's rules, the scoring of
-- candidates for an object, the import of rows, lists, search and reports; of the modelled files, the
-- text and the rendering of a letter, the list of open items, the key figures of a closed run, the
-- start of runs for all objects, summaries for the user interface, the cleaning of names, the checks
-- below the alarms, and the register's provenance and bank data.
mod Prelude
pub mod Ai
pub mod Classification
pub mod Drive
pub mod Imports
pub mod Parties
pub mod Pipeline
pub mod Requirements
pub mod Status
pub mod Sync
