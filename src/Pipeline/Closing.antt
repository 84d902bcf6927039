-- ===== src/Pipeline/Closing.antt =====
-- src/apps/pipeline/runs.py: when a run ends, and the numbers that it keeps.
use objekt_bernahme_automati.Prelude.{
  ℕ, ◌+◌, ◌≡◌, refl, ap, Bool, true, false, some, List, [], ◌∷◌, length, if◌then◌else◌, arith,
}
use objekt_bernahme_automati.Prelude.Table.{count, exists}
use objekt_bernahme_automati.Pipeline.Run.{Run, RunStatus}
use objekt_bernahme_automati.Pipeline.World.{
  World, Document, DocumentStatus, registered, hashed, ocr_done, classified, review, filed,
  duplicate, moved_out, error,
}
use objekt_bernahme_automati.Pipeline.Feeding.{live_documents}
use objekt_bernahme_automati.Pipeline.Finish.{
  is_error, is_duplicate, is_registered, is_hashed, has_failed, closed,
}

-- The statuses that count as done: behind the recognition of the text.
abbrev pub is_through : Document → Bool
is_through d = elim d.status [
  | ocr_done ↦ true
  | classified ↦ true
  | review ↦ true
  | filed ↦ true
  | moved_out ↦ true
  | _ ↦ false
]

one_status :
    (s : DocumentStatus) (d : Document)
    → d.status ≡ s
    → (if is_through d then 1 else 0)
        + (if is_error d then 1 else 0)
        + (if is_duplicate d then 1 else 0)
        + (if is_registered d then 1 else 0)
        + (if is_hashed d then 1 else 0)
      ≡ 1
one_status registered d e = rw e refl
one_status hashed d e = rw e refl
one_status ocr_done d e = rw e refl
one_status classified d e = rw e refl
one_status review d e = rw e refl
one_status filed d e = rw e refl
one_status duplicate d e = rw e refl
one_status moved_out d e = rw e refl
one_status error d e = rw e refl

partition :
    (ds : List Document)
    → count is_through ds
        + count is_error ds
        + count is_duplicate ds
        + count is_registered ds
        + count is_hashed ds
      ≡ length ds
partition [] = omega arith
partition (d ∷ ds) = omega (arith, partition ds, one_status d.status d refl)

-- The numbers that a closed run keeps add up: its documents done are those of the object, not
-- deleted, that are behind the recognition of the text, and with the failed, the skipped, the
-- registered and the hashed ones they are all of them. The run has failed just when a job of it has.
pub closed_counts :
    (now : ℕ) (w : World) (r : Run)
    → ((closed now w r).documents_done ≡ some (count is_through (live_documents r w)))
      × ((closed now w r).documents_total
          ≡ some (
              count is_through (live_documents r w)
              + count is_error (live_documents r w)
              + count is_duplicate (live_documents r w)
              + count is_registered (live_documents r w)
              + count is_hashed (live_documents r w)))
      × (exists (has_failed r) w.jobs ≡ true → (closed now w r).status ≡ RunStatus.failed)
      × (exists (has_failed r) w.jobs ≡ false → (closed now w r).status ≡ RunStatus.done)
unfolding closed
closed_counts now w r =
    let docs = live_documents r w in
    (
      ap some (omega (arith, partition docs)),
      ap some (omega (arith, partition docs)),
      (λ e. rw e refl),
      (λ e. rw e refl),
    )
