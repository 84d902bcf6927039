-- ===== src/Status/Fallback.antt =====
-- src/apps/status/alerts.py, `_fallback`: when the alarm about the second provider is raised.
use objekt_bernahme_automati.Prelude.{
  ℕ, ◌+◌, ◌≤◌, ◌≡◌, true, List, [], ◌∷◌, leb, leb→le, arith, All, IsIn, All-IsIn,
}
use objekt_bernahme_automati.Prelude.Table.{select, All-select, All-order_by}
use objekt_bernahme_automati.Status.Conditions.{
  AiCall, hour, recent, earlier, fallback_calls, long_enough, fallback_active,
}

-- A call of the second provider an hour ago, to the time between two readings of the clock.
pub record IsAtTheHour (now later : ℕ) (calls : List AiCall) (c : AiCall) : Type 0 where
  pub is_call : IsIn c calls
  pub of_fallback : c.fallback_used ≡ true
  pub not_older : now ≤ c.requested_at + hour
  pub not_younger : c.requested_at + hour ≤ later

module _ (now later : ℕ) (calls : List AiCall) where
  abbrev IsRecent : AiCall → Type 0
  IsRecent c = IsIn c calls × (leb now (c.requested_at + hour) ≡ true)

  abbrev IsFallback : AiCall → Type 0
  IsFallback c = IsRecent c × (c.fallback_used ≡ true)

  fallback_calls-IsFallback : All IsFallback (fallback_calls now calls)
  fallback_calls-IsFallback =
      let hits = recent now calls in
      All-order_by IsFallback earlier (select (λ c. c.fallback_used) hits) (
        All-select IsRecent (λ c. c.fallback_used) hits
          (All-select (λ c. IsIn c calls) (λ c. leb now (c.requested_at + hour)) calls
            (All-IsIn calls)))

  at_the_hour :
      (hits : List AiCall)
      → All IsFallback hits
      → long_enough later hits ≡ true
      → (c : AiCall) × IsAtTheHour now later calls c
  at_the_hour [] h e = absurd (ground arith)
  at_the_hour (c ∷ hits) h e =
      let ((m, l), f) = h.0 in
      (
        c,
        record {
          is_call = m;
          of_fallback = f;
          not_older = leb→le now (c.requested_at + hour) l;
          not_younger = leb→le (c.requested_at + hour) later e;
        },
      )

-- The alarm about the second provider is raised only if one of its calls was made exactly an hour
-- ago, to the time between the two readings of the clock, however long it has been in use.
pub fallback_active-IsAtTheHour :
    (now later : ℕ) (calls : List AiCall)
    → fallback_active now later calls ≡ true
    → (c : AiCall) × IsAtTheHour now later calls c
unfolding fallback_active
fallback_active-IsAtTheHour now later calls h =
    at_the_hour now later calls (fallback_calls now calls)
      (fallback_calls-IsFallback now later calls) (ground arith)
