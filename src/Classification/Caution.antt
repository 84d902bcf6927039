-- ===== src/Classification/Caution.antt =====
-- src/apps/classification/confidence.py, `combine`: its range, and when the external stage is asked.
use objekt_bernahme_automati.Prelude.{
  ℕ, ◌+◌, ◌-◌, ◌*◌, ◌≤◌, ◌<◌, ◌≡◌, refl, subst, Bool, true, false, ◌||◌, Option, none, some, String,
  lt→ltb, leb, if_induction, arith,
}
use objekt_bernahme_automati.Classification.Confidence.{
  Stage1Result, Stage2Result, Combined, Thresholds, one, round_four, damped, stage2_only, rule_only,
  hard_rule, soft_rule, without_rule, with_rule, by_category, combine, is_cold, same_category,
}

-- The settings and the first stage's confidence are parts of one, and so is the second one's.
pub record IsScaled (t : Thresholds) (s : Stage1Result) : Type 0 where
  pub stage3_call : t.stage3_call ≤ one
  pub confidence : s.confidence ≤ one

abbrev pub IsProbability : Option Stage2Result → Type 0
IsProbability none = Unit
IsProbability (some s2) = s2.p ≤ one

round_le : (c n : ℕ) → c ≤ n * 100000000 → round_four c ≤ n
unfolding round_four
round_le c n h = ground arith

round_ge : (c n : ℕ) → n * 100000000 ≤ c → n ≤ round_four c
unfolding round_four
round_ge c n h = ground arith

abbrev pub has_category : Combined → Bool
has_category c = elim c.category [ none ↦ false | some d ↦ true ]

-- What the program takes without asking has a category, from a hard rule or with enough confidence.
abbrev pub IsCautious : Thresholds → Stage1Result → Combined → Type 0
IsCautious t s c =
    (c.confidence ≤ one)
    × ((c.stage3_required || has_category c) ≡ true)
    × ((c.stage3_required || s.hard || leb t.stage3_call c.confidence) ≡ true)

times_by : (p x k : ℕ) → p * x ≤ p * (x + k)
times_by p x k = grind arith

times_le : (p x n : ℕ) → x ≤ n → p * x ≤ p * n
times_le p x n h =
    let e : x + (n - x) ≡ n = omega arith in subst (λ z. p * x ≤ p * z) e (times_by p x (n - x))

module _ (t : Thresholds) (s : Stage1Result) (h : IsScaled t s) where
  rule_only-IsCautious : (c : String) (ner : Bool) → IsCautious t s (rule_only t s c ner)
  rule_only-IsCautious c ner = let l = h.stage3_call in let m = h.confidence in ground arith

  hard_rule-IsCautious :
      (c : String) (s2 : Stage2Result) → s.hard ≡ true → IsCautious t s (hard_rule t s c s2)
  hard_rule-IsCautious c s2 e = let l = h.stage3_call in let m = h.confidence in ground arith

  soft_rule-IsCautious :
      (c : String) (s2 : Stage2Result)
      → is_cold (some s2) ≡ false
      → s2.p ≤ one
      → IsCautious t s (soft_rule t s c s2)
  soft_rule-IsCautious c s2 e k = let l = h.stage3_call in let m = h.confidence in ground arith

  damped_le : (s2 : Stage2Result) → damped t s2 ≤ s2.p * 100000000
  damped_le s2 = times_le s2.p (100000000 - t.gap_factor * (one - s2.gap)) 100000000 (omega arith)

  stage2_only-IsCautious :
      (s2 : Stage2Result)
      → is_cold (some s2) ≡ false
      → s2.p ≤ one
      → IsCautious t s (stage2_only t s2)
  stage2_only-IsCautious s2 e k =
      let m = damped_le s2 in
      (
        omega (arith, k, round_le (damped t s2) s2.p m),
        ground arith,
        ground (arith, round_ge (damped t s2) t.stage3_call),
      )

  without_rule-IsCautious :
      (s2 : Option Stage2Result) → IsProbability s2 → IsCautious t s (without_rule t s2)
  without_rule-IsCautious none k = (omega arith, refl, refl)
  without_rule-IsCautious (some s2) k =
      if_induction (IsCautious t s) (is_cold (some s2)) (λ _. (omega arith, refl, refl))
        (λ e. stage2_only-IsCautious s2 e k)

  with_rule-IsCautious :
      (c : String) (s2 : Option Stage2Result) (ner : Bool)
      → IsProbability s2
      → IsCautious t s (with_rule t s c s2 ner)
  with_rule-IsCautious c none ner k = rule_only-IsCautious c ner
  with_rule-IsCautious c (some s2) ner k =
      if_induction (IsCautious t s) (is_cold (some s2)) (λ _. rule_only-IsCautious c ner)
        (λ e.
          if_induction (IsCautious t s) s.hard (λ x. hard_rule-IsCautious c s2 x)
            (λ _. soft_rule-IsCautious c s2 e k))

  by_category-IsCautious :
      (o : Option String) (s2 : Option Stage2Result) (ner : Bool)
      → IsProbability s2
      → IsCautious t s (by_category t s o s2 ner)
  by_category-IsCautious none s2 ner k = without_rule-IsCautious s2 k
  by_category-IsCautious (some c) s2 ner k = with_rule-IsCautious c s2 ner k

-- Where the settings, the rules' confidence and the model's probability are at most 1, so is the
-- combined confidence; and without the external stage a document gets a category only by a hard
-- rule, or with a confidence, as it is shown, that reaches the threshold for the external call.
pub combine-IsCautious :
    (t : Thresholds) (s : Stage1Result) (s2 : Option Stage2Result) (ner : Bool)
    → IsScaled t s
    → IsProbability s2
    → IsCautious t s (combine t s s2 ner)
unfolding combine
combine-IsCautious t s s2 ner h k =
    if_induction (IsCautious t s) s.conflict (λ _. (omega arith, refl, refl))
      (λ _. by_category-IsCautious t s h s.category s2 ner k)

-- What speaks against a hard rule is never passed over: if the model, out of its cold start, sees
-- another category with more than `stage2_conflict_p`, the external stage is asked.
pub combine_contradicted :
    (t : Thresholds) (s : Stage1Result) (c d : String) (s2 : Stage2Result) (ner : Bool)
    → s.category ≡ some c
    → s.hard ≡ true
    → s2.top ≡ some d
    → s2.cold_start ≡ false
    → same_category c s2.top ≡ false
    → t.stage2_conflict_p < s2.p
    → (combine t s (some s2) ner).stage3_required ≡ true
unfolding combine
combine_contradicted t s c d s2 ner a b e f g h =
    let l = lt→ltb t.stage2_conflict_p s2.p h in
    let k : is_cold (some s2) ≡ false = rw (f, e) in
    if_induction (λ (x : Combined). x.stage3_required ≡ true) s.conflict (λ _. refl)
      (λ _. rw (a, k, b, g, l))
