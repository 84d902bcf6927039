-- ===== src/Sync/AssignmentTests.antt =====
-- Decisions between two candidates for the object of a document.
use objekt_bernahme_automati.Prelude.{
  ℕ, ◌≡◌, ◌↔◌, refl, true, false, some, List, [], ◌∷◌, String, decimal, All,
}
use objekt_bernahme_automati.Sync.Decide.{Candidate, Thresholds, review, no_candidate, decide}
use objekt_bernahme_automati.Sync.Clarity.{IsClear, is_possible, decide-IsClear, decide_none_iff}

abbrev candidate : ℕ → String → ℕ → Candidate
candidate id number score = record {
  object_id = id;
  object_number = number;
  score = score;
  hints = "Adresse stimmt" ∷ [];
  contradictions = [];
}

abbrev thresholds : Thresholds
thresholds = record { auto_min = 90; gap_min = 20; contradiction_blocks = true; review_min = 40 }

abbrev clear_case : List Candidate
clear_case = candidate 1 "82" 50 ∷ candidate 2 "631" 95 ∷ candidate 3 "100" 0 ∷ []

decide-IsClear_example : IsClear thresholds clear_case (candidate 2 "631" 95)
unfolding decide
decide-IsClear_example =
    decide-IsClear decimal thresholds clear_case (candidate 2 "631" 95) refl refl

-- Two objects of the same score: the smaller number comes first, and somebody has to look.
tie :
    let p = decide decimal thresholds (candidate 2 "82" 95 ∷ candidate 1 "631" 95 ∷ []) in
    (p.decision ≡ review) × (p.chosen ≡ some (candidate 1 "631" 95))
unfolding decide
tie = (refl, refl)

decide_none_iff_example :
    ((decide decimal thresholds (candidate 1 "82" 30 ∷ [])).decision ≡ no_candidate)
    ↔ All (λ c. is_possible thresholds c ≡ false) (candidate 1 "82" 30 ∷ [])
decide_none_iff_example = decide_none_iff decimal thresholds (candidate 1 "82" 30 ∷ [])
