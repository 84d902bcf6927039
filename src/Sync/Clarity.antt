-- ===== src/Sync/Clarity.antt =====
-- src/apps/sync/assignment/decide.py: when an object is assigned automatically, and when none is
-- proposed.
use objekt_bernahme_automati.Prelude.{
  ℕ, ◌+◌, ◌-◌, ◌≤◌, ◌<◌, ◌≡◌, ◌↔◌, refl, sym, ap, subst, ◌∙◌, inl, inr, Bool, true, false, ◌&&◌,
  some, List, [], ◌∷◌, String, ltb, ltb→lt, leb, if◌then◌else◌, arith, All, All-imp, Bool-cases,
  IsIn, All-IsIn,
}
use objekt_bernahme_automati.Prelude.Table.{
  select, order_by, count, All-select, All-order_by, All-of_order_by,
}
use mathlib.Core.Option.{some-injective}
use objekt_bernahme_automati.Prelude.Ranking.{IsRanked, count-order_by, order_by-IsRanked}
use objekt_bernahme_automati.Sync.Decide.{
  Candidate, Thresholds, Decision, auto, no_candidate, is_positive, ranks_before, is_near,
  is_blocked, decide_ranked, decide,
}

abbrev score_of : Candidate → ℕ
score_of c = c.score

order-IsRanked : (cs : List Candidate) → IsRanked score_of (order_by ranks_before cs)
order-IsRanked cs =
    order_by-IsRanked score_of ranks_before (λ c d e. ground arith) (λ c d e. ground arith) cs

-- The candidate, or one within the gap.
abbrev pub is_rival : Thresholds → Candidate → Candidate → Bool
is_rival t c d = ltb c.score (d.score + t.gap_min)

-- What an automatic assignment to `c` needs.
pub record IsClear (t : Thresholds) (candidates : List Candidate) (c : Candidate) : Type 0 where
  pub is_candidate : IsIn c candidates
  pub is_best : All (λ d. d.score ≤ c.score) candidates
  pub high_enough : t.auto_min ≤ c.score
  pub unrivalled : count (is_rival t c) (select is_positive candidates) ≤ 1
  pub not_blocked : is_blocked t c ≡ false

abbrev is_auto : Decision → Bool
is_auto auto = true
is_auto _ = false

never : {A : Type 0} → false ≡ true → A
never e = absurd (ground arith)

abbrev is_none : Decision → Bool
is_none no_candidate = true
is_none _ = false

auto_ranked :
    (show : ℕ → String) (t : Thresholds) (top : Candidate) (rest : List Candidate)
    → (decide_ranked show t (top ∷ rest)).decision ≡ auto
    → (t.auto_min ≤ top.score)
      × (is_near t top rest ≡ false)
      × (is_blocked t top ≡ false)
      × ((decide_ranked show t (top ∷ rest)).chosen ≡ some top)
auto_ranked show t top rest h =
    let k = ap is_auto h in
    elim (Bool-cases (ltb top.score t.review_min)) [
      | inl e ↦ never (rw e at k)
      | inr e ↦ elim (Bool-cases (ltb top.score t.auto_min)) [
        | inl f ↦ never (rw (e, f) at k)
        | inr f ↦ elim (Bool-cases (is_near t top rest)) [
          | inl g ↦ never (rw (e, f, g) at k)
          | inr g ↦ elim (Bool-cases (is_blocked t top)) [
            | inl b ↦ never (rw (e, f, g, b) at k)
            | inr b ↦ (ground arith, g, b, rw (e, f, g, b))
          ]
        ]
      ]
    ]

no_rival :
    (t : Thresholds) (top : Candidate) (rest : List Candidate)
    → IsRanked score_of (top ∷ rest)
    → is_near t top rest ≡ false
    → count (is_rival t top) rest ≡ 0
no_rival t top [] h n = refl
no_rival t top (second ∷ rest) h n =
    let l : second.score + t.gap_min ≤ top.score =
      let g : t.gap_min ≤ top.score - second.score = ground arith in omega (arith, g, h.0.0) in
    none_of (second ∷ rest) (
      l,
      All-imp (λ d. d.score ≤ second.score) (λ d. d.score + t.gap_min ≤ top.score) rest
          (λ d k. omega (arith, k, l)) h.1.0,
    )
  where
    none_of :
        (ds : List Candidate)
        → All (λ d. d.score + t.gap_min ≤ top.score) ds
        → count (is_rival t top) ds ≡ 0
    none_of [] a = refl
    none_of (d ∷ ds) a = ground (arith, none_of ds a.1, a.0)

abbrev pub is_possible : Thresholds → Candidate → Bool
is_possible t c = is_positive c && leb t.review_min c.score

module _ (show : ℕ → String) (t : Thresholds) (cs : List Candidate) where
  auto_of :
      (ranked : List Candidate)
      → IsRanked score_of ranked
      → All (λ c. IsIn c cs) ranked
      → ((p : Candidate → Bool) → count p ranked ≡ count p (select is_positive cs))
      → ((c : Candidate) → All (λ d. d.score ≤ c.score) ranked → All (λ d. d.score ≤ c.score) cs)
      → (c : Candidate) → (decide_ranked show t ranked).decision ≡ auto
      → (decide_ranked show t ranked).chosen ≡ some c
      → IsClear t cs c
  auto_of [] h m n b c e f = never (ap is_auto e)
  auto_of (top ∷ rest) h m n b c e f =
      let (a, g, k, ch) = auto_ranked show t top rest e in
      let r : (if is_rival t top top then 1 else 0) ≤ 1 = ground arith in
      subst (IsClear t cs) (some-injective top c (sym ch ∙ f)) (record {
        is_candidate = m.0;
        is_best = b top (omega arith, h.0);
        high_enough = a;
        unrivalled = omega (arith, n (is_rival t top), no_rival t top rest h g, r);
        not_blocked = k;
      })

  -- What bounds the candidates with a score bounds all of them.
  for_all :
      (c : Candidate) (ds : List Candidate)
      → All (λ d. d.score ≤ c.score) (select is_positive ds)
      → All (λ d. d.score ≤ c.score) ds
  for_all c [] h = tt
  for_all c (d ∷ ds) h = elim (Bool-cases (is_positive d)) [
    | inl e ↦
        let k : All (λ x. x.score ≤ c.score) (d ∷ select is_positive ds) = rw e at h in
        (k.0, for_all c ds k.1)
    | inr e ↦
        let k : All (λ x. x.score ≤ c.score) (select is_positive ds) = rw e at h in
        (ground arith, for_all c ds k)
  ]

  -- An object is assigned without a review only to one of the candidates, which no other one
  -- surpasses, whose score reaches `auto_min`, which no contradiction blocks, and behind which every
  -- other candidate with a score stays by `gap_min` at least.
  pub decide-IsClear :
      (c : Candidate)
      → (decide show t cs).decision ≡ auto
      → (decide show t cs).chosen ≡ some c
      → IsClear t cs c
  unfolding decide
  decide-IsClear c e f =
      let positive = select is_positive cs in
      auto_of (order_by ranks_before positive) (order-IsRanked positive)
        (All-order_by (λ d. IsIn d cs) ranks_before positive
          (All-imp (λ d. IsIn d cs × (is_positive d ≡ true)) (λ d. IsIn d cs) positive (λ d k. k.0)
            (All-select (λ d. IsIn d cs) is_positive cs (All-IsIn cs))))
        (λ p. count-order_by ranks_before p positive)
        (λ d k. for_all d cs (All-of_order_by (λ x. x.score ≤ d.score) ranks_before positive k)) c e
        f

  low_of :
      (ranked : List Candidate)
      → IsRanked score_of ranked
      → (decide_ranked show t ranked).decision ≡ no_candidate
      → All (λ d. d.score < t.review_min) ranked
  low_of [] h e = tt
  low_of (top ∷ rest) h e =
      let l = low_top top rest e in
      (
        l,
        All-imp (λ d. d.score ≤ top.score) (λ d. d.score < t.review_min) rest
            (λ d k. omega (arith, k, l)) h.0,
      )
    where
      low_top :
          (c : Candidate) (ds : List Candidate)
          → (decide_ranked show t (c ∷ ds)).decision ≡ no_candidate
          → c.score < t.review_min
      low_top c ds f = elim (Bool-cases (ltb c.score t.review_min)) [
        | inl x ↦ ltb→lt c.score t.review_min x
        | inr x ↦ elim (Bool-cases (ltb c.score t.auto_min)) [
          | inl y ↦ never (rw (x, y) at (ap is_none f))
          | inr y ↦ elim (Bool-cases (is_near t c ds)) [
            | inl z ↦ never (rw (x, y, z) at (ap is_none f))
            | inr z ↦ elim (Bool-cases (is_blocked t c)) [
              | inl b ↦ never (rw (x, y, z, b) at (ap is_none f))
              | inr b ↦ never (rw (x, y, z, b) at (ap is_none f))
            ]
          ]
        ]
      ]

  all_low :
      (ds : List Candidate)
      → All (λ d. d.score < t.review_min) (select is_positive ds)
      → All (λ d. is_possible t d ≡ false) ds
  all_low [] h = tt
  all_low (d ∷ ds) h = elim (Bool-cases (is_positive d)) [
    | inl e ↦
        let k : All (λ x. x.score < t.review_min) (d ∷ select is_positive ds) = rw e at h in
        (let l = k.0 in ground arith, all_low ds k.1)
    | inr e ↦
        let k : All (λ x. x.score < t.review_min) (select is_positive ds) = rw e at h in
        (ground arith, all_low ds k)
  ]

  none_of_low :
      (ranked : List Candidate)
      → All (λ d. (is_possible t d ≡ false) × (is_positive d ≡ true)) ranked
      → (decide_ranked show t ranked).decision ≡ no_candidate
  none_of_low [] h = refl
  none_of_low (top ∷ rest) h =
      let l : ltb top.score t.review_min ≡ true = let (a, b) = h.0 in ground arith in rw l

  -- No object is proposed exactly when no candidate has a score that reaches `review_min`.
  pub decide_none_iff :
      ((decide show t cs).decision ≡ no_candidate) ↔ All (λ c. is_possible t c ≡ false) cs
  unfolding decide
  decide_none_iff =
      let positive = select is_positive cs in
      (
        λ e. all_low cs (
            All-of_order_by (λ d. d.score < t.review_min) ranks_before positive
              (low_of (order_by ranks_before positive) (order-IsRanked positive) e)),
        λ h. none_of_low (order_by ranks_before positive) (
            All-order_by (λ d. (is_possible t d ≡ false) × (is_positive d ≡ true)) ranks_before
              positive (All-select (λ d. is_possible t d ≡ false) is_positive cs h)),
      )
