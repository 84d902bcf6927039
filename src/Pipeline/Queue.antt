-- ===== src/Pipeline/Queue.antt =====
-- src/apps/pipeline/jobs.py: creating and sending jobs.
use text.Mathlib.Text.{starts_with}
use objekt_bernahme_automati.Prelude.{decimal}
use objekt_bernahme_automati.Prelude.{
  ℕ, zero, suc, ◌+◌, ◌==◌, Bool, true, false, not, ◌&&◌, Option, none, some, List, [], ◌∷◌, ◌++◌,
  String, ◌<>◌, prefix, str_eq, if◌then◌else◌,
}
use objekt_bernahme_automati.Prelude.Table.{select, count, find, update}
use objekt_bernahme_automati.Pipeline.Job.{
  JobType, JobStatus, pending, is_terminal, is_pending, Json, Job,
}
use objekt_bernahme_automati.Pipeline.World.{World, Config, job_message}

abbrev pub has_id : ℕ → Job → Bool
has_id pk j = j.id == pk

abbrev pub has_key : String → Job → Bool
has_key key j = str_eq j.key key

abbrev blank_none : String → Option String
blank_none String.[] = none
blank_none (String.◌∷◌ c s) = some (String.◌∷◌ c s)

-- `_event`; the message is cut to 500 characters, an empty one is none.
abbrev pub event : Config → Job → Option JobStatus → JobStatus → String → World → World
event cfg j from to message w = record w {
  events =
      w.events
      ++ record {
        job = j.id;
        from_status = from;
        to_status = to;
        worker = cfg.worker;
        attempt_no = some j.attempt_count;
        message = blank_none (prefix 500 message);
      }
        ∷ [];
}

-- The message for the broker. A countdown of 0 is none.
abbrev pub countdown_of : ℕ → Option ℕ
countdown_of zero = none
countdown_of (suc n) = some (suc n)

-- The task name and the queue follow from the job type.
unfoldable pub send : Config → ℕ → Job → ℕ → World → World
send cfg now j countdown w =
    let marked = update (has_id j.id) (λ row. record row { dispatched_at = some now }) w.jobs in
    if cfg.dispatches
    then record w {
      jobs = marked;
      calls = w.calls ++ job_message j.job_type j.id (countdown_of countdown) ∷ [];
    }
    else record w { jobs = marked }

-- The arguments of `enqueue`.
pub record Request : Type 0 where
  pub job_type : JobType
  pub object : ℕ
  pub key : String
  pub document : Option ℕ
  pub run : Option ℕ
  pub payload : Json
  pub priority : ℕ
  pub dispatch : Bool
  pub repeat : Bool

unfoldable pub new_job : Config → ℕ → ℕ → String → Request → Job
new_job cfg now id key r = record {
  id = id;
  run = r.run;
  object = r.object;
  document = r.document;
  job_type = r.job_type;
  key = key;
  status = pending;
  priority = r.priority;
  attempt_count = 0;
  max_attempts = cfg.max_attempts_default;
  locked_by = none;
  locked_at = none;
  heartbeat_at = none;
  next_attempt_at = none;
  dispatched_at = none;
  started_at = none;
  finished_at = none;
  duration_ms = none;
  pages_processed = none;
  payload = r.payload;
  result = none;
  last_error = none;
  error_class = none;
  skip_reason = none;
  updated_at = now;
}

-- `if run is not None and job.run_id is None`: the job joins the run.
unfoldable pub join_run : ℕ → Option ℕ → Job → World → Job × World
join_run now none j w = (j, w)
join_run now (some run) j w = elim j.run [
  | some _ ↦ (j, w)
  | none ↦
      let set : Job → Job = λ row. record row { run = some run; updated_at = now } in
      (set j, record w { jobs = update (has_id j.id) set w.jobs })
]

abbrev pub sent_if : Bool → Config → ℕ → Job → World → World
sent_if b cfg now j w = if b then send cfg now j 0 w else w

-- `get_or_create(idempotency_key=key)` and what follows it.
unfoldable pub get_or_create :
    Config → ℕ → String → Request → Option Job → World → (Job × Bool) × World
unfolding send new_job join_run
get_or_create cfg now key r none w =
    let j = new_job cfg now w.next_job key r in
    let w' =
      event cfg j none pending "angelegt"
        (record w { jobs = w.jobs ++ j ∷ []; next_job = suc w.next_job }) in
    ((j, true), sent_if r.dispatch cfg now j w')
get_or_create cfg now key r (some old) w =
    let (j, w') = join_run now r.run old w in
    ((j, false), sent_if (r.dispatch && is_pending j.status) cfg now j w')

abbrev is_none {ℓ} : {A : Type ℓ} → Option A → Bool
is_none none = true
is_none (some _) = false

-- A repetition of the job under `key`, its suffix starting with "#".
abbrev pub repeats : String → Job → Bool
repeats key j = starts_with j.key (key <> "#")

abbrev pub open_repeat : String → Job → Bool
open_repeat key j = repeats key j && not (is_terminal j.status)

-- `order_by("-id").first()`: rows stand in the order of their ids.
abbrev pub last : List Job → Option Job
last [] = none
last (j ∷ []) = some j
last (j ∷ k ∷ js) = last (k ∷ js)

-- The job under the key is closed, and another one is wanted.
unfoldable pub repeat_job : Config → ℕ → Request → Option Job → World → (Job × Bool) × World
unfolding send join_run get_or_create
repeat_job cfg now r (some old) w =
    let (j, w') = join_run now r.run old w in
    (
      (j, false),
      sent_if (r.dispatch && (is_pending j.status && is_none j.dispatched_at)) cfg now j w',
    )
repeat_job cfg now r none w =
    let key = prefix 160 (r.key <> "#" <> decimal (count (repeats r.key) w.jobs + 2)) in
    get_or_create cfg now key r (find (has_key key) w.jobs) w

abbrev pub closed : Option Job → Bool
closed none = false
closed (some j) = is_terminal j.status

unfoldable pub enqueue : Config → ℕ → Request → World → (Job × Bool) × World
unfolding repeat_job get_or_create
enqueue cfg now r w =
    let existing = find (has_key r.key) w.jobs in
    if closed existing && r.repeat
    then repeat_job cfg now r (last (select (open_repeat r.key) w.jobs)) w
    else get_or_create cfg now r.key r existing w
