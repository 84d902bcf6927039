-- ===== src/Classification/Confidence.antt =====
-- src/apps/classification/confidence.py: the confidences of the rules and of the trained model, and how
-- they are combined. Confidences, thresholds and factors are ten-thousandths; the product of the
-- second stage is exact, in 10^-12, until it is rounded. The gap factor is at most 1, and the
-- threshold of the third stage at least 0.01: below that the source has numbers under zero.
use objekt_bernahme_automati.Prelude.{
  ℕ, ◌+◌, ◌-◌, ◌*◌, ◌/◌, ◌%◌, min, max, Bool, true, false, not, ◌&&◌, ◌||◌, Option, none, some,
  String, str_eq, ltb, leb, ◌==◌, if◌then◌else◌,
}

-- The fields that the combination reads.
pub record Stage1Result : Type 0 where
  pub category : Option String
  pub confidence : ℕ
  pub hard : Bool
  pub conflict : Bool

pub record Stage2Result : Type 0 where
  pub top : Option String
  pub p : ℕ
  pub gap : ℕ
  pub cold_start : Bool

pub data Stage : Type 0 where
  stage1 stage2 : Stage

pub record Combined : Type 0 where
  pub category : Option String
  pub confidence : ℕ
  pub reason : String
  pub stage3_required : Bool
  pub decided_by : Stage

-- The settings `classification.*` that are read here.
pub record Thresholds : Type 0 where
  pub stage3_call : ℕ
  pub stage2_conflict_p : ℕ
  pub bonus_agree : ℕ
  pub malus_disagree : ℕ
  pub gap_factor : ℕ
  pub ner_support_bonus : ℕ

abbrev pub one : ℕ
one = 10000

-- `Combined(category, confidence, reason, stage3_required=…)`
abbrev pub combined : Option String → ℕ → String → Bool → Combined
combined category confidence reason stage3 = record {
  category = category;
  confidence = confidence;
  reason = reason;
  stage3_required = stage3;
  decided_by = stage1;
}

-- `round(c, 4)` of a number in 10^-12: to the nearest, a half to the even number.
unfoldable pub round_four : ℕ → ℕ
round_four c =
    let q = c / 100000000 in
    let r = c % 100000000 in
    if ltb (2 * r) 100000000 || ((2 * r == 100000000) && (q % 2 == 0)) then q else q + 1

-- `s2.p * (1 - gap_factor * (1 - s2.gap))`; the gap is the difference of two probabilities, and so
-- at most 1.
abbrev pub damped : Thresholds → Stage2Result → ℕ
damped t s = s.p * (100000000 - t.gap_factor * (one - s.gap))

-- A stage 2 that is missing, in its cold start, or without a class.
abbrev pub is_cold : Option Stage2Result → Bool
is_cold none = true
is_cold (some s) = s.cold_start || no_top s.top
  where
    no_top : Option String → Bool
    no_top none = true
    no_top (some c) = false

abbrev pub same_category : String → Option String → Bool
same_category c none = false
same_category c (some d) = str_eq c d

abbrev pub stage2_only : Thresholds → Stage2Result → Combined
stage2_only t s = record {
  category = s.top;
  confidence = round_four (damped t s);
  reason = "nur Stufe 2";
  stage3_required = ltb (damped t s) (t.stage3_call * 100000000);
  decided_by = stage2;
}

-- Without a model the rule decides; names that were recognised support the owners' category.
abbrev pub rule_only : Thresholds → Stage1Result → String → Bool → Combined
rule_only t s category ner_support =
    if not s.hard && ner_support && str_eq category "05"
    then supported (min one (s.confidence + t.ner_support_bonus))
    else combined (some category) s.confidence "Regeltreffer, Klassifikator in der Kaltstartphase"
        (ltb s.confidence t.stage3_call)
  where
    supported : ℕ → Combined
    supported c =
        combined (some category) c
          "Regeltreffer, Klassifikator in der Kaltstartphase, NER-Stütze (Eigentümer oder Einheit erkannt)"
          (ltb c t.stage3_call)

abbrev pub hard_rule : Thresholds → Stage1Result → String → Stage2Result → Combined
hard_rule t s category s2 =
    if same_category category s2.top
    then combined (some category) one "harte Regel, Stufe 2 stimmt zu" false
    else if ltb t.stage2_conflict_p s2.p
    then combined (some category) (t.stage3_call - 100) "harte Regel, Stufe 2 widerspricht deutlich"
        true
    else combined (some category) s.confidence "harte Regel" false

-- The malus may be larger than the confidence: the number is then below zero, and 0 is shown.
abbrev pub soft_rule : Thresholds → Stage1Result → String → Stage2Result → Combined
soft_rule t s category s2 =
    let best = max s.confidence s2.p in
    if same_category category s2.top
    then agreed (min one (best + t.bonus_agree))
    else if leb s2.p s.confidence
    then combined (some category) (best - t.malus_disagree) "Stufe 1 und 2 widersprechen sich"
        (ltb best (t.stage3_call + t.malus_disagree))
    else record (combined s2.top (best - t.malus_disagree) "Stufe 1 und 2 widersprechen sich"
        (ltb best (t.stage3_call + t.malus_disagree))) { decided_by = stage2 }
  where
    agreed : ℕ → Combined
    agreed c = combined (some category) c "Stufe 1 und 2 stimmen überein" (ltb c t.stage3_call)

abbrev pub without_rule : Thresholds → Option Stage2Result → Combined
without_rule t none = combined none 0 "kein Regeltreffer, Klassifikator in der Kaltstartphase" true
without_rule t (some s2) =
    if is_cold (some s2)
    then combined none 0 "kein Regeltreffer, Klassifikator in der Kaltstartphase" true
    else stage2_only t s2

abbrev pub with_rule : Thresholds → Stage1Result → String → Option Stage2Result → Bool → Combined
with_rule t s category none ner_support = rule_only t s category ner_support
with_rule t s category (some s2) ner_support =
    if is_cold (some s2)
    then rule_only t s category ner_support
    else if s.hard
    then hard_rule t s category s2
    else soft_rule t s category s2

abbrev pub by_category :
    Thresholds → Stage1Result → Option String → Option Stage2Result → Bool → Combined
by_category t s none s2 ner_support = without_rule t s2
by_category t s (some category) s2 ner_support = with_rule t s category s2 ner_support

unfoldable pub combine : Thresholds → Stage1Result → Option Stage2Result → Bool → Combined
unfolding round_four
combine t s s2 ner_support =
    if s.conflict
    then combined none 0 "Konflikt harter Regeln" true
    else by_category t s s.category s2 ner_support
