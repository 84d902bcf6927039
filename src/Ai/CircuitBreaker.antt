-- ===== src/Ai/CircuitBreaker.antt =====
-- src/apps/ai/router.py: when the circuit breaker of a provider is open.
use objekt_bernahme_automati.Prelude.{
  ℕ, ◌+◌, ◌≤◌, ◌<◌, ◌≡◌, refl, true, false, none, some, String, eq_iff, str_eq, ltb, arith,
}
use objekt_bernahme_automati.Ai.World.{World, Breaker}
use objekt_bernahme_automati.Ai.Provider.{is_open, record_failure, counted}

-- The world at a later time.
abbrev pub at : ℕ → World → World
at t w = record w { clock = t }

str_refl : (s : String) → str_eq s s ≡ true
str_refl s = (eq_iff s s).1 refl

-- The entry that an opened breaker has.
abbrev opened : ℕ → Breaker
opened t = record { failures = 0; open_until = some (t + 300); expires = t + 600 }

two_failures :
    (name : String) (w : World) (t3 u v t : ℕ)
    → w.breakers name ≡ some (opened t3)
    → t3 + 300 ≤ u
    → u ≤ v
    → v ≤ t
    → is_open name (at t (record_failure name (at v (record_failure name (at u w))))) ≡ false
unfolding is_open record_failure counted
two_failures name w t3 u v t e h4 h6 h7 = rw (str_refl name, e) (ground arith)

module _ (name : String) (w : World) (absent : w.breakers name ≡ none) where
  -- The worlds after the first, second and third failure.
  abbrev first : ℕ → World
  first t1 = record_failure name (at t1 w)

  abbrev second : ℕ → ℕ → World
  second t1 t2 = record_failure name (at t2 (first t1))

  abbrev third : ℕ → ℕ → ℕ → World
  third t1 t2 t3 = record_failure name (at t3 (second t1 t2))

  -- Three failures in a row, each within ten minutes of the one before, open the breaker of a provider
  -- without an entry, from the third failure on for exactly five minutes.
  pub breaker_opens :
      (t1 t2 t3 t : ℕ)
      → t2 < t1 + 600
      → t3 < t2 + 600
      → t3 ≤ t
      → is_open name (at t (third t1 t2 t3)) ≡ ltb t (t3 + 300)
  unfolding is_open record_failure counted
  breaker_opens t1 t2 t3 t h2 h3 h = rw (str_refl name, absent) (ground arith)

  entry-third :
      (t1 t2 t3 : ℕ)
      → t2 < t1 + 600
      → t3 < t2 + 600
      → (third t1 t2 t3).breakers name ≡ some (opened t3)
  unfolding record_failure counted
  entry-third t1 t2 t3 h2 h3 = rw (str_refl name, absent) (ground arith)

  -- A provider without an entry fails three times in a row, each time within ten minutes of the time
  -- before, which opens its breaker for five minutes: a first failure at any time after these five
  -- minutes does not open it again, and a second one after it does not either.
  pub breaker_not_half_open :
      (t1 t2 t3 u v t : ℕ)
      → t2 < t1 + 600
      → t3 < t2 + 600
      → t3 + 300 ≤ u
      → u ≤ v
      → v ≤ t
      → is_open name
          (at t (record_failure name (at v (record_failure name (at u (third t1 t2 t3))))))
        ≡ false
  breaker_not_half_open t1 t2 t3 u v t h2 h3 h4 h6 h7 =
      two_failures name (third t1 t2 t3) t3 u v t (entry-third t1 t2 t3 h2 h3) h4 h6 h7
