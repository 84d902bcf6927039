-- ===== src/Pipeline/Resumption.antt =====
-- src/apps/pipeline/runs.py: the limit of the automatic resumptions of a failed document.
use objekt_bernahme_automati.Prelude.{
  ℕ, ◌≤◌, ◌==◌, ==_iff, ◌≡◌, refl, sym, subst, ◌∙◌, Bool, true, ◌&&◌, Bool-cases, inl, inr, Option,
  none, some, List, [], ◌∷◌, leb, le→leb, if_induction, arith,
}
use objekt_bernahme_automati.Prelude.Table.{count, find, select, update}
use objekt_bernahme_automati.Prelude.Keyed.{is_row, row-update_others}
use objekt_bernahme_automati.Pipeline.Run.{Run}
use objekt_bernahme_automati.Pipeline.World.{World, Document, Case}
use objekt_bernahme_automati.Pipeline.Runs.{
  reset_limit, resumption, resolve, is_about, restart_status, reset_document, reset_each,
  failed_document, reset_failed_documents,
}

-- An update after which a test still holds where it held counts no fewer rows.
count-le-update :
    {A : Type 0} (q p : A → Bool) (f : A → A)
    → ((x : A) → q x ≡ true → q (f x) ≡ true)
    → (xs : List A) → count q xs ≤ count q (update p f xs)
count-le-update q p f h [] = omega arith
count-le-update q p f h (x ∷ xs) = ground (arith, count-le-update q p f h xs, h x)

abbrev pub document_at : ℕ → World → Option Document
document_at id w = find (is_row (λ (d : Document). d.id) id) w.documents

-- What stays so while other documents are reset.
abbrev IsExhausted : Document → World → Type 0
IsExhausted d w = (document_at d.id w ≡ some d) × (reset_limit ≤ count (resumption d) w.cases)

reset_document-IsExhausted :
    (d x : Document) (n : ℕ) (w : World)
    → IsExhausted d w
    → IsExhausted d (reset_document x (n, w)).1
unfolding reset_document
reset_document-IsExhausted d x n w h = elim (Bool-cases (x.id == d.id)) [
  | inl same ↦
      let i : d.id ≡ x.id = sym ((==_iff x.id d.id).0 same) in
      let c : reset_limit ≤ count (resumption x) w.cases =
        subst
          (λ k.
            reset_limit
            ≤ count (λ (c : Case). is_about k c.document && (c.resolved && c.resumed)) w.cases)
          i h.1 in
      rw (le→leb reset_limit (count (resumption x) w.cases) c) h
  | inr other ↦
      if_induction (λ (e : ℕ × World). IsExhausted d e.1)
        (leb reset_limit (count (resumption x) w.cases)) (λ _. h)
        (λ _. (
          row-update_others (λ (y : Document). y.id) (λ (row : Document). row.id == x.id)
                (λ row. record row { status = restart_status x w; error_message = none }) d.id
                (λ _. refl) (λ row e q. ground (arith, e, q, other)) w.documents
              ∙ h.0,
          omega (
            arith,
            h.1,
            count-le-update (resumption d) (λ c. is_about x.id c.document && c.is_open) resolve
                (λ c e. ground (arith, e)) w.cases,
          ),
        ))
]

reset_each-IsExhausted :
    (d : Document) (ds : List Document) (n : ℕ) (w : World)
    → IsExhausted d w
    → IsExhausted d (reset_each ds (n, w)).1
unfolding reset_each
reset_each-IsExhausted d [] n w h = h
reset_each-IsExhausted d (x ∷ ds) n w h =
    reset_each-IsExhausted d ds (reset_document x (n, w)).0 (reset_document x (n, w)).1
      (reset_document-IsExhausted d x n w h)

-- A document that was resumed three times is left alone: with at least that many of its failures
-- resolved by a resumption, `reset_failed_documents` keeps its row, with its status `error`, whatever
-- other documents it resets.
pub exhausted_stays :
    (r : Run) (w : World) (d : Document)
    → document_at d.id w ≡ some d
    → 3 ≤ count (resumption d) w.cases
    → document_at d.id (reset_failed_documents r w).1 ≡ some d
unfolding reset_failed_documents
exhausted_stays r w d e h =
    (reset_each-IsExhausted d (select (failed_document r) w.documents) 0 w (e, h)).0
