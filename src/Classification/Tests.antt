-- ===== src/Classification/Tests.antt =====
-- Confidences that are combined.
use objekt_bernahme_automati.Prelude.{◌≡◌, refl, true, false, none, some, arith}
use objekt_bernahme_automati.Classification.Confidence.{
  Stage1Result, Stage2Result, Thresholds, stage2, combine,
}
use objekt_bernahme_automati.Classification.Caution.{IsScaled, IsCautious, combine-IsCautious}

abbrev settings : Thresholds
settings = record {
  stage3_call = 6000;
  stage2_conflict_p = 8500;
  bonus_agree = 500;
  malus_disagree = 2000;
  gap_factor = 5000;
  ner_support_bonus = 1000;
}

abbrev rule : Stage1Result
rule = record { category = some "05"; confidence = 7000; hard = false; conflict = false }

abbrev model : Stage2Result
model = record { top = some "07"; p = 8333; gap = 3333; cold_start = false }

settings-IsScaled : IsScaled settings rule
settings-IsScaled = record { stage3_call = omega arith; confidence = omega arith }

combine-IsCautious_example : IsCautious settings rule (combine settings rule (some model) false)
combine-IsCautious_example =
    combine-IsCautious settings rule (some model) false settings-IsScaled (omega arith)

-- The model is surer than the rule, and the malus leaves enough.
disagreement : combine settings rule (some model) false ≡ record {
  category = some "07";
  confidence = 6333;
  reason = "Stufe 1 und 2 widersprechen sich";
  stage3_required = false;
  decided_by = stage2;
}
unfolding combine
disagreement = refl

-- The rule alone; the model alone, damped by its small lead.
no_model : (combine settings rule none true).confidence ≡ 8000
unfolding combine
no_model = refl

no_rule : (combine settings (record rule { category = none }) (some model) false).confidence ≡ 5555
unfolding combine
no_rule = refl
