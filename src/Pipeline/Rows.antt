-- ===== src/Pipeline/Rows.antt =====
-- src/apps/pipeline/jobs.py: what sending and enqueueing do to the rows of the job table.
use objekt_bernahme_automati.Prelude.{
  ℕ, ◌≡◌, refl, ◌∙◌, Bool, true, false, ◌&&◌, Option, Option-cases, Bool-cases, none, some, inl,
  inr, map, String, if◌then◌else◌, if_induction,
}
use objekt_bernahme_automati.Prelude.Table.{find, update, find_passes, map-update, select}
use objekt_bernahme_automati.Prelude.Keyed.{row-update}
use objekt_bernahme_automati.Pipeline.Job.{Job}
use objekt_bernahme_automati.Pipeline.World.{World, Config}
use objekt_bernahme_automati.Pipeline.Queue.{
  Request, has_id, has_key, send, sent_if, join_run, get_or_create, repeat_job, open_repeat, last,
  closed, enqueue,
}

pub row-send :
    (cfg : Config) (now countdown pk : ℕ) (j row : Job) (w : World)
    → find (has_id pk) w.jobs ≡ some row
    → j.id ≡ pk
    → find (has_id pk) (send cfg now j countdown w).jobs
      ≡ some (record row { dispatched_at = some now })
unfolding send
row-send cfg now countdown pk j row w e i =
    let marked : find (has_id pk)
          (update (has_id j.id) (λ r. record r { dispatched_at = some now }) w.jobs)
        ≡ some (record row { dispatched_at = some now }) =
      row-update (λ (o : Job). o.id) (has_id j.id) (λ r. record r { dispatched_at = some now })
        (λ _. refl) pk w.jobs
      ∙ rw (e, i, find_passes (has_id pk) w.jobs row e) in
    if_induction
      (λ (v : World). find (has_id pk) v.jobs ≡ some (record row { dispatched_at = some now }))
      cfg.dispatches (λ _. marked) (λ _. marked)

pub ids-send :
    (cfg : Config) (now countdown : ℕ) (j : Job) (w : World)
    → map (λ (o : Job). o.id) (send cfg now j countdown w).jobs ≡ map (λ (o : Job). o.id) w.jobs
unfolding send
ids-send cfg now countdown j w =
    let same =
      map-update (λ (o : Job). o.id) (has_id j.id) (λ r. record r { dispatched_at = some now })
        (λ _. refl) w.jobs in
    if_induction (λ (v : World). map (λ (o : Job). o.id) v.jobs ≡ map (λ (o : Job). o.id) w.jobs)
      cfg.dispatches (λ _. same) (λ _. same)

ids-sent_if :
    (b : Bool) (cfg : Config) (now : ℕ) (j : Job) (w : World)
    → map (λ (o : Job). o.id) (sent_if b cfg now j w).jobs ≡ map (λ (o : Job). o.id) w.jobs
ids-sent_if true cfg now j w = ids-send cfg now 0 j w
ids-sent_if false cfg now j w = refl

-- What `join_run` keeps: the ids of the table, and the job's own.
join_run_lem :
    (now : ℕ) (run : Option ℕ) (j : Job) (w : World)
    → ((join_run now run j w).0.id ≡ j.id)
      × (map (λ (o : Job). o.id) (join_run now run j w).1.jobs ≡ map (λ (o : Job). o.id) w.jobs)
unfolding join_run
join_run_lem now none j w = (refl, refl)
join_run_lem now (some run) j w = elim (Option-cases j.run) [
  | inl free ↦ rw free (
    refl,
    map-update (λ (o : Job). o.id) (has_id j.id)
        (λ row. record row { run = some run; updated_at = now }) (λ _. refl) w.jobs,
  )
  | inr (other, taken) ↦ rw taken (refl, refl)
]

-- "Nothing was created": the answer is `j` and no new row stands in the table.
abbrev AnswersWith : Job → World → (Job × Bool) × World → Type 0
AnswersWith j w e =
    (e.0.1 ≡ false)
    × (e.0.0.id ≡ j.id)
    × (map (λ (o : Job). o.id) e.1.jobs ≡ map (λ (o : Job). o.id) w.jobs)

get_or_create_lem :
    (cfg : Config) (now : ℕ) (key : String) (r : Request) (j : Job) (w : World)
    → AnswersWith j w (get_or_create cfg now key r (some j) w)
unfolding get_or_create
get_or_create_lem cfg now key r j w =
    let k = join_run_lem now r.run j w in
    (refl, k.0, ids-sent_if _ cfg now (join_run now r.run j w).0 _ ∙ k.1)

repeat_job_lem :
    (cfg : Config) (now : ℕ) (r : Request) (j : Job) (w : World)
    → AnswersWith j w (repeat_job cfg now r (some j) w)
unfolding repeat_job
repeat_job_lem cfg now r j w =
    let k = join_run_lem now r.run j w in
    (refl, k.0, ids-sent_if _ cfg now (join_run now r.run j w).0 _ ∙ k.1)

-- The job that already stands for a request: the one under its key, or, where that one is closed and
-- may be repeated, the last repetition that is still open.
abbrev pub standing : Request → World → Option Job
standing r w =
    let existing = find (has_key r.key) w.jobs in
    if closed existing && r.repeat then last (select (open_repeat r.key) w.jobs) else existing

-- Enqueueing creates nothing while a job stands for the request: it answers with that job, says that it
-- did not create it, and the table has the same ids afterwards. So one open repetition of a closed job
-- is enough, however often its document arrives.
pub enqueue_kept :
    (cfg : Config) (now : ℕ) (r : Request) (w : World) (j : Job)
    → standing r w ≡ some j
    → ((enqueue cfg now r w).0.1 ≡ false)
      × ((enqueue cfg now r w).0.0.id ≡ j.id)
      × (map (λ (o : Job). o.id) (enqueue cfg now r w).1.jobs ≡ map (λ (o : Job). o.id) w.jobs)
unfolding enqueue
enqueue_kept cfg now r w j e =
    elim (Bool-cases (closed (find (has_key r.key) w.jobs) && r.repeat)) [
      | inl repeated ↦ rw (repeated, rw repeated at e) (repeat_job_lem cfg now r j w)
      | inr single ↦ rw (single, rw single at e) (get_or_create_lem cfg now r.key r j w)
    ]
