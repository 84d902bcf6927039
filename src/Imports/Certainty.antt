-- ===== src/Imports/Certainty.antt =====
-- src/apps/imports/matching.py, `match_owner`: when an imported person is taken for a known owner.
use mathlib.Core.Option.{some-injective}
use objekt_bernahme_automati.Prelude.{
  ℕ, ◌≤◌, ◌<◌, ◌≡◌, refl, ap, subst, ◌∙◌, inl, inr, Bool, true, false, ◌&&◌, some, List, [], ◌∷◌,
  leb, if◌then◌else◌, map, arith, All, All-imp, All-map, Bool-cases, IsIn, All-IsIn,
}
use objekt_bernahme_automati.Prelude.Table.{count, order_by, All-select, All-order_by}
use objekt_bernahme_automati.Prelude.Ranking.{IsRanked, count-order_by, order_by-IsRanked}
use objekt_bernahme_automati.Imports.Matching.{
  OwnerRecord, PersonQuery, Signal, OwnerCandidate, MatchDecision, auto, Thresholds, Similarity,
  score_owner, ranks_before, is_near_enough, has_signal, has_rival, decide, scored_owners,
  match_owner,
}

module _ (sim : Similarity) (th : Thresholds) (weights : Signal → ℕ) (q : PersonQuery) where
  abbrev pub candidate_of : OwnerRecord → OwnerCandidate
  candidate_of o = score_owner sim weights q o

  abbrev pub is_candidate : OwnerRecord → Bool
  is_candidate o = leb th.candidate_min (candidate_of o).score

  -- What an automatic match to `c` needs.
  pub record IsCertain (owners : List OwnerRecord) (c : OwnerCandidate) : Type 0 where
    pub of_owner : (o : OwnerRecord) × IsIn o owners × (candidate_of o ≡ c)
    pub high_enough : th.auto_min ≤ c.score
    pub strong : has_signal c.signals ≡ true
    pub in_object : c.in_object ≡ true
    pub unrivalled : count is_candidate owners ≤ 1

  abbrev is_high : OwnerCandidate → Bool
  is_high c = leb th.candidate_min c.score

  abbrev score_of : OwnerCandidate → ℕ
  score_of c = c.score

  abbrev IsKnown : List OwnerRecord → OwnerCandidate → Type 0
  IsKnown owners c = (o : OwnerRecord) × IsIn o owners × (candidate_of o ≡ c)

  -- A candidate that is high is near enough to be kept.
  count-scored :
      (owners : List OwnerRecord)
      → count is_high (scored_owners sim th weights q owners) ≡ count is_candidate owners
  count-scored [] = refl
  count-scored (o ∷ owners) = ground (arith, count-scored owners)

  none_high :
      (s : ℕ) (cs : List OwnerCandidate)
      → s < th.candidate_min
      → All (λ c. c.score ≤ s) cs
      → count is_high cs ≡ 0
  none_high s [] l h = refl
  none_high s (c ∷ cs) l h = ground (arith, none_high s cs l h.1, h.0)

  no_rival :
      (cs : List OwnerCandidate)
      → IsRanked score_of cs
      → has_rival th cs ≡ false
      → count is_high cs ≡ 0
  no_rival [] h n = refl
  no_rival (second ∷ rest) h n =
      let l : second.score < th.candidate_min = ground arith in
      none_high second.score (second ∷ rest) l (omega arith, h.0)

  abbrev is_auto : MatchDecision → Bool
  is_auto auto = true
  is_auto _ = false

  never : {A : Type 0} → false ≡ true → A
  never e = absurd (ground arith)

  auto_of :
      (owners : List OwnerRecord) (ranked : List OwnerCandidate)
      → IsRanked score_of ranked
      → All (IsKnown owners) ranked
      → count is_high ranked ≡ count is_candidate owners
      → (c : OwnerCandidate) → (decide th ranked).decision ≡ auto
      → (decide th ranked).best ≡ some c
      → IsCertain owners c
  auto_of owners [] h k n c e f = never (ap is_auto e)
  auto_of owners (best ∷ rest) h k n c e f =
      elim (Bool-cases (leb th.auto_min best.score && has_signal best.signals && best.in_object)) [
        | inl a ↦ elim (Bool-cases (has_rival th rest)) [
          | inl b ↦ never (rw (a, b) at (ap is_auto e))
          | inr b ↦
              let r = no_rival rest h.1 b in
              subst (IsCertain owners) (some-injective best c (rw (a, b) at f)) (record {
                of_owner = k.0;
                high_enough = ground arith;
                strong = ground arith;
                in_object = ground arith;
                unrivalled =
                    let o : (if is_high best then 1 else 0) ≤ 1 = ground arith in
                    omega (arith, n, r, o);
              })
        ]
        | inr a ↦ elim (Bool-cases (leb th.candidate_min best.score)) [
          | inl b ↦ never (rw (a, b) at (ap is_auto e))
          | inr b ↦ never (rw (a, b) at (ap is_auto e))
        ]
      ]

-- A person is taken for a known owner without asking only if the owner's score reaches `auto_min`, some
-- signal speaks for it (the unit, the address, the e-mail address, the bank account or the first name
-- is the same), the owner has an assignment in the object, and no second owner's score reaches
-- `candidate_min`; in particular, a similar last name alone is never enough, and equal first and last
-- names may be.
pub match_owner-IsCertain :
    (sim : Similarity) (th : Thresholds) (weights : Signal → ℕ) (q : PersonQuery)
    (owners : List OwnerRecord) (c : OwnerCandidate)
    → (match_owner sim th weights q owners).decision ≡ auto
    → (match_owner sim th weights q owners).best ≡ some c
    → IsCertain sim th weights q owners c
unfolding match_owner
match_owner-IsCertain sim th weights q owners c e f =
    let scored = scored_owners sim th weights q owners in
    let before = ranks_before in
    let candidate = candidate_of sim th weights q in
    let candidates_of = map candidate owners in
    let Known = IsKnown sim th weights q owners in
    auto_of sim th weights q owners (order_by before scored)
      (order_by-IsRanked (λ x. x.score) before (λ x y k. ground arith) (λ x y k. ground arith)
        scored)
      (All-order_by Known before scored (
        All-imp (λ x. Known x × (is_near_enough th x ≡ true)) Known scored (λ x k. k.0)
          (All-select Known (is_near_enough th) candidates_of (
            All-map Known candidate owners (
              All-imp (λ o. IsIn o owners) (λ o. Known (candidate o)) owners (λ o m. (o, m, refl))
                (All-IsIn owners))))))
      (count-order_by before (λ x. leb th.candidate_min x.score) scored
        ∙ count-scored sim th weights q owners)
      c e f
