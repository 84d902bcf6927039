-- ===== src/Sync/Decide.antt =====
-- src/apps/sync/assignment/decide.py: the decision between the candidates for a document's object.
-- Scores and thresholds are whole numbers of one small unit, and `show` is the format `.2f`.
use Prim.Native.String.{compare as compare_text}
use Prim.Native.Nat.{Ordering}
use objekt_bernahme_automati.Prelude.{
  ℕ, ◌-◌, Bool, true, false, ◌&&◌, ◌||◌, Option, none, some, List, [], ◌∷◌, ◌++◌, String, ◌<>◌, ltb,
  ◌==◌, if◌then◌else◌, map,
}
use objekt_bernahme_automati.Prelude.Table.{select, order_by}

pub record Candidate : Type 0 where
  pub object_id : ℕ
  pub object_number : String
  pub score : ℕ
  pub hints : List String
  pub contradictions : List String

pub record Thresholds : Type 0 where
  pub auto_min : ℕ
  pub gap_min : ℕ
  pub contradiction_blocks : Bool
  pub review_min : ℕ

pub data Decision : Type 0 where
  auto review no_candidate : Decision

pub record Proposal : Type 0 where
  pub decision : Decision
  pub chosen : Option Candidate
  pub ranked : List Candidate
  pub reasons : List String

abbrev pub is_positive : Candidate → Bool
is_positive c = ltb 0 c.score

abbrev text_le : String → String → Bool
text_le a b = elim (compare_text a b) [ Ordering.gt ↦ false | _ ↦ true ]

-- `key=lambda c: (-c.score, c.object_number)`
abbrev pub ranks_before : Candidate → Candidate → Bool
ranks_before c d =
    ltb d.score c.score || ((d.score == c.score) && text_le c.object_number d.object_number)

abbrev has_any : List String → Bool
has_any [] = false
has_any (s ∷ texts) = true

-- The second candidate, if there is one, is too near.
abbrev pub is_near : Thresholds → Candidate → List Candidate → Bool
is_near t top [] = false
is_near t top (second ∷ rest) = ltb (top.score - second.score) t.gap_min

abbrev pub is_blocked : Thresholds → Candidate → Bool
is_blocked t top = t.contradiction_blocks && has_any top.contradictions

module _ (show : ℕ → String) where
  abbrev second_reasons : Candidate → List Candidate → List String
  second_reasons top [] = []
  second_reasons top (second ∷ rest) =
      ("zweiter Kandidat "
        <> second.object_number
        <> " mit Score "
        <> show second.score
        <> ", Abstand "
        <> show (top.score - second.score))
      ∷ []

  abbrev top_reasons : Candidate → List Candidate → List String
  top_reasons top rest =
      ("bester Kandidat " <> top.object_number <> " mit Score " <> show top.score)
        ∷ second_reasons top rest
      ++ top.hints
      ++ map (λ c. "Widerspruch: " <> c) top.contradictions

  abbrev pub decide_ranked : Thresholds → List Candidate → Proposal
  decide_ranked t [] = record {
    decision = no_candidate;
    chosen = none;
    ranked = [];
    reasons = "kein Kandidat mit positivem Score" ∷ [];
  }
  decide_ranked t (top ∷ rest) =
      let ranked = top ∷ rest in
      let reasons = top_reasons top rest in
      if ltb top.score t.review_min
      then record {
        decision = no_candidate;
        chosen = none;
        ranked = ranked;
        reasons = reasons ++ ("Score unter review_min " <> show t.review_min) ∷ [];
      }
      else if ltb top.score t.auto_min
      then record {
        decision = review;
        chosen = some top;
        ranked = ranked;
        reasons = reasons ++ ("Score unter auto_min " <> show t.auto_min) ∷ [];
      }
      else if is_near t top rest
      then record {
        decision = review;
        chosen = some top;
        ranked = ranked;
        reasons = reasons ++ ("Abstand unter gap_min " <> show t.gap_min) ∷ [];
      }
      else if is_blocked t top
      then record {
        decision = review;
        chosen = some top;
        ranked = ranked;
        reasons = reasons ++ "Widerspruch verhindert automatische Zuordnung" ∷ [];
      }
      else record {
        decision = auto;
        chosen = some top;
        ranked = ranked;
        reasons = reasons ++ "automatische Zuordnung" ∷ [];
      }

  unfoldable pub decide : Thresholds → List Candidate → Proposal
  decide t candidates = decide_ranked t (order_by ranks_before (select is_positive candidates))
