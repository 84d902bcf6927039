-- ===== src/Pipeline/Finish.antt =====
-- src/apps/pipeline/runs.py: `maybe_finish_run`, which closes the run of an object and frees its
-- place.
use objekt_bernahme_automati.Prelude.{
  ℕ, ◌-◌, ◌==◌, Bool, true, false, not, ◌&&◌, ◌||◌, Option, none, some, [], ◌∷◌, ◌++◌,
  if◌then◌else◌, length,
}
use objekt_bernahme_automati.Prelude.Table.{exists, count, find, update}
use objekt_bernahme_automati.Pipeline.Job.{Job, is_pending, is_running, is_failed, is_filing}
use objekt_bernahme_automati.Pipeline.Run
use objekt_bernahme_automati.Pipeline.Run.{Run, RunStatus}
use objekt_bernahme_automati.Pipeline.World.{
  World, Config, Document, registered, hashed, error, duplicate, evaluation, lists, auto_cleanup,
}
use objekt_bernahme_automati.Pipeline.Runs.{has_run_id}
use objekt_bernahme_automati.Pipeline.Feeding.{live_documents, of_run, schedule_runs}

abbrev pub is_open : Job → Bool
is_open j = is_pending j.status || is_running j.status

-- An open job of the object that is not a filing job holds the run open.
abbrev pub holds_open : Run → Job → Bool
holds_open r j = j.object == r.object && (is_open j && not (is_filing j.job_type))

abbrev pub has_failed : Run → Job → Bool
has_failed r j = of_run r.id j && is_failed j.status

abbrev pub is_error : Document → Bool
is_error d = elim d.status [ error ↦ true | _ ↦ false ]

abbrev pub is_duplicate : Document → Bool
is_duplicate d = elim d.status [ duplicate ↦ true | _ ↦ false ]

abbrev pub is_registered : Document → Bool
is_registered d = elim d.status [ registered ↦ true | _ ↦ false ]

abbrev pub is_hashed : Document → Bool
is_hashed d = elim d.status [ hashed ↦ true | _ ↦ false ]

-- The columns that the transaction writes, without the shares and the counts of pages and cases.
unfoldable pub closed : ℕ → World → Run → Run
closed now w r =
    let docs = live_documents r w in
    record r {
      documents_total = some (length docs);
      documents_failed = some (count is_error docs);
      documents_skipped = some (count is_duplicate docs);
      documents_done = some (
          length docs
          - count is_error docs
          - count is_duplicate docs
          - count is_registered docs
          - count is_hashed docs);
      status = if exists (has_failed r) w.jobs then RunStatus.failed else RunStatus.done;
      finished_at = some now;
    }

-- The calls after the transaction. The inbox object gets none, and no run is started for its place.
unfoldable pub after_closing : Config → ℕ → Run → World → Bool × World
unfolding schedule_runs
after_closing cfg now r w =
    let calls =
      if r.dry_run
      then evaluation r.object ∷ []
      else evaluation r.object ∷ lists r.object ∷ auto_cleanup r.object "run" ∷ [] in
    let (_, w') = schedule_runs cfg now (record w { calls = w.calls ++ calls }) in
    if cfg.is_inbox r.object then (false, w) else (true, w')

unfoldable pub close_locked : Config → ℕ → Option Run → World → Bool × World
unfolding closed after_closing
close_locked cfg now none w = (false, w)
close_locked cfg now (some r) w =
    if Run.is_running r.status
    then after_closing cfg now (closed now w r)
        (record w { runs = update (has_run_id r.id) (λ _. closed now w r) w.runs })
    else (false, w)

-- `r` is the caller's copy of the run; the result `None` of the inbox object counts as False.
unfoldable pub maybe_finish_run : Config → ℕ → Run → World → Bool × World
unfolding close_locked
maybe_finish_run cfg now r w =
    let (ok, w') = close_locked cfg now (find (has_run_id r.id) w.runs) w in
    if not (Run.is_running r.status) || exists (holds_open r) w.jobs then (false, w) else (ok, w')
