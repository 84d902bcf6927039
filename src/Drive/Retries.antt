-- ===== src/Drive/Retries.antt =====
-- src/apps/drive/backoff.py, `retry_call`: the loop ends, and what the metrics count.
use objekt_bernahme_automati.Prelude.{
  ℕ, zero, suc, ◌+◌, ◌-◌, ◌≤◌, ◌<◌, max, ◌≡◌, refl, Bool, true, false, Option, none, some, leb,
  if◌then◌else◌, if_induction, arith,
}
use objekt_bernahme_automati.Drive.Backoff.{
  BackoffConfig, CallMetrics, DriveError, rate_limited, transient, auth_error, other_error, Outcome,
  returned, raised, Result, failed, stuck, escaped, Raised, drive_error, unexpected, Callback,
  unless_raised, after_transient, counted, with_limit, with_server_error, with_wait, delay_of,
  after_error, after_call, rounds, retry_call, with_failure, after_auth_error,
}

abbrev pub is_stuck : {A : Type 0} → Result A → Bool
is_stuck stuck = true
is_stuck _ = false

-- What the result adds to the failures.
abbrev pub failure_count : {A : Type 0} → Result A → ℕ
failure_count (failed e) = 1
failure_count _ = 0

-- The calls that may still come, after `attempt` of them.
abbrev calls_left : BackoffConfig → ℕ → Bool → ℕ
calls_left cfg attempt renewed = max 1 (cfg.max_attempts - attempt) + (if renewed then 0 else 1)

module _ {A : Type 0} {W : Type 0} (cfg : BackoffConfig) (draw : ℕ → ℕ) (fn : W → Outcome A × W)
    (sleep : ℕ → Callback W) (on_auth_error : Option (Callback W)) where
  -- With at most `calls` calls from the metrics `c` on.
  abbrev Ends : ℕ → CallMetrics → Result A × CallMetrics × W → Type 0
  Ends calls c (r, d, w) =
      (is_stuck r ≡ false)
      × (d.attempts ≤ c.attempts + calls)
      × (d.failures ≡ c.failures + failure_count r)

  abbrev GoesOn : ℕ → (ℕ → Bool → CallMetrics → W → Result A × CallMetrics × W) → Type 0
  GoesOn fuel go_on =
      (attempt : ℕ) (renewed : Bool) (c : CallMetrics) (w : W)
      → calls_left cfg attempt renewed ≤ fuel
      → Ends (calls_left cfg attempt renewed) c (go_on attempt renewed c w)

  one_more :
      (n m : ℕ) (c d : CallMetrics) (x : Result A × CallMetrics × W)
      → d.attempts ≡ c.attempts + 1
      → d.failures ≡ c.failures
      → n + 1 ≤ m
      → Ends n d x
      → Ends m c x
  one_more n m c d x a f l h = (h.0, omega (arith, a, l, h.1), omega (arith, f, h.2))

  -- A call that fails at last.
  at_last :
      (m : ℕ) (c d : CallMetrics) (e : DriveError) (w : W)
      → d.attempts ≡ c.attempts + 1
      → d.failures ≡ c.failures + 1
      → 1 ≤ m
      → Ends m c (failed e, d, w)
  at_last m c d e w a f l = (refl, omega (arith, a, l), f)

  -- An exception that leaves the loop.
  at_once :
      (m : ℕ) (c d : CallMetrics) (x : Raised) (w : W)
      → d.attempts ≡ c.attempts + 1
      → d.failures ≡ c.failures
      → 1 ≤ m
      → Ends m c (escaped x, d, w)
  at_once m c d x w a f l = (refl, omega (arith, a, l), omega (arith, f))

  -- What follows a callback, which changes the world and may raise.
  unless_raised-Ends :
      (n m : ℕ) (c d : CallMetrics) (go_on : W → Result A × CallMetrics × W)
      → ((w : W) → Ends n d (go_on w))
      → d.attempts ≡ c.attempts + 1
      → d.failures ≡ c.failures
      → n + 1 ≤ m
      → (o : Option Raised × W) → Ends m c (unless_raised cfg draw fn sleep on_auth_error d go_on o)
  unless_raised-Ends n m c d go_on h a f l (none, w) = one_more n m c d (go_on w) a f l (h w)
  unless_raised-Ends n m c d go_on h a f l (some x, w) = at_once m c d x w a f (omega (arith, l))

  after_auth_error-Ends :
      (fuel : ℕ) (go_on : ℕ → Bool → CallMetrics → W → Result A × CallMetrics × W)
      → GoesOn fuel go_on
      → (attempt : ℕ) (renewed : Bool) (c : CallMetrics) (handler : Option (Callback W)) (w : W)
      → calls_left cfg attempt renewed ≤ suc fuel
      → Ends (calls_left cfg attempt renewed) c (
          after_auth_error cfg draw fn sleep on_auth_error go_on
            (attempt + 1)
            renewed
            (counted c)
            handler
            w)
  after_auth_error-Ends fuel go_on h attempt renewed c none w l =
      at_last (calls_left cfg attempt renewed) c (with_failure (counted c)) auth_error w refl refl
        (omega arith)
  after_auth_error-Ends fuel go_on h attempt true c (some renew) w l =
      at_last (calls_left cfg attempt true) c (with_failure (counted c)) auth_error w refl refl
        (omega arith)
  after_auth_error-Ends fuel go_on h attempt false c (some renew) w l =
      unless_raised-Ends (calls_left cfg (attempt + 1) true) (calls_left cfg attempt false) c
        (counted c) (go_on (attempt + 1) true (counted c))
        (λ v. h (attempt + 1) true (counted c) v (omega arith)) refl refl (omega arith) (renew w)

  -- A transient error, with the metrics `d` that count it.
  after_transient-Ends :
      (fuel : ℕ) (go_on : ℕ → Bool → CallMetrics → W → Result A × CallMetrics × W)
      → GoesOn fuel go_on
      → (attempt : ℕ) (renewed : Bool) (c d : CallMetrics) (e : DriveError) (after : Option ℕ)
        (w : W)
      → d.attempts ≡ c.attempts + 1
      → d.failures ≡ c.failures
      → calls_left cfg attempt renewed ≤ suc fuel
      → Ends
          (calls_left cfg attempt renewed)
          c
          (after_transient cfg draw fn sleep on_auth_error go_on (attempt + 1) renewed d e after w)
  after_transient-Ends fuel go_on h attempt renewed c d e after w a f l =
      let delay = delay_of draw cfg (attempt + 1) after in
      if_induction (Ends (calls_left cfg attempt renewed) c) (leb cfg.max_attempts (attempt + 1))
        (λ _.
          at_last (calls_left cfg attempt renewed) c (with_failure d) e w a (omega (arith, f))
            (omega arith))
        (λ n.
          let more : attempt + 1 < cfg.max_attempts = ground arith in
          unless_raised-Ends (calls_left cfg (attempt + 1) renewed) (calls_left cfg attempt renewed)
            c (with_wait delay d) (go_on (attempt + 1) renewed (with_wait delay d))
            (λ v. h (attempt + 1) renewed (with_wait delay d) v (omega (arith, more, l))) a f
            (omega (arith, more)) (sleep delay w))

  after_error-Ends :
      (fuel : ℕ) (go_on : ℕ → Bool → CallMetrics → W → Result A × CallMetrics × W)
      → GoesOn fuel go_on
      → (attempt : ℕ) (renewed : Bool) (c : CallMetrics) (e : DriveError) (w : W)
      → calls_left cfg attempt renewed ≤ suc fuel
      → Ends
          (calls_left cfg attempt renewed)
          c
          (after_error cfg draw fn sleep on_auth_error go_on (attempt + 1) renewed (counted c) e w)
  after_error-Ends fuel go_on h attempt renewed c (rate_limited after) w l =
      after_transient-Ends fuel go_on h attempt renewed c (with_limit (counted c))
        (rate_limited after) after w refl refl l
  after_error-Ends fuel go_on h attempt renewed c (transient after) w l =
      after_transient-Ends fuel go_on h attempt renewed c (with_server_error (counted c))
        (transient after) after w refl refl l
  after_error-Ends fuel go_on h attempt renewed c auth_error w l =
      after_auth_error-Ends fuel go_on h attempt renewed c on_auth_error w l
  after_error-Ends fuel go_on h attempt renewed c other_error w l =
      at_last (calls_left cfg attempt renewed) c (with_failure (counted c)) other_error w refl refl
        (omega arith)

  after_call-Ends :
      (fuel : ℕ) (go_on : ℕ → Bool → CallMetrics → W → Result A × CallMetrics × W)
      → GoesOn fuel go_on
      → (attempt : ℕ) (renewed : Bool) (c : CallMetrics) → calls_left cfg attempt renewed ≤ suc fuel
      → (o : Outcome A × W)
      → Ends
          (calls_left cfg attempt renewed)
          c
          (after_call cfg draw fn sleep on_auth_error go_on (attempt + 1) renewed (counted c) o)
  after_call-Ends fuel go_on h attempt renewed c l (returned a, v) =
      (refl, omega arith, omega arith)
  after_call-Ends fuel go_on h attempt renewed c l (raised (drive_error e), v) =
      after_error-Ends fuel go_on h attempt renewed c e v l
  after_call-Ends fuel go_on h attempt renewed c l (raised (unexpected x), v) =
      at_once (calls_left cfg attempt renewed) c (counted c) (unexpected x) v refl refl
        (omega arith)

  rounds-Ends : (fuel : ℕ) → GoesOn fuel (rounds cfg draw fn sleep on_auth_error fuel)
  unfolding rounds
  rounds-Ends zero attempt renewed c w l = absurd (omega arith)
  rounds-Ends (suc fuel) attempt renewed c w l =
      after_call-Ends fuel (rounds cfg draw fn sleep on_auth_error fuel) (rounds-Ends fuel) attempt
        renewed c l (fn w)

-- retry_call comes to an end, whatever the call, the sleep and the renewal of the credentials do: it
-- returns the value or raises after at most one call more than `max_attempts` allows, one of them
-- being allowed anyway. It counts exactly one failure if it raises an error of the adapter again that
-- the call has raised, and none if it returns, or if another exception of the call, or any exception
-- of the sleep or the renewal, leaves it.
pub retry_call_ends :
    {A : Type 0} {W : Type 0} (cfg : BackoffConfig) (draw : ℕ → ℕ) (fn : W → Outcome A × W)
    (sleep : ℕ → Callback W) (on_auth_error : Option (Callback W)) (c : CallMetrics) (w : W)
    → let e = retry_call cfg draw fn sleep on_auth_error c w in
      (is_stuck e.0 ≡ false)
      × (e.1.attempts ≤ c.attempts + (max 1 cfg.max_attempts + 1))
      × (e.1.failures ≡ c.failures + failure_count e.0)
unfolding retry_call
retry_call_ends cfg draw fn sleep on_auth_error c w =
    let h =
      rounds-Ends cfg draw fn sleep on_auth_error (cfg.max_attempts + 2) 0 false c w
        (omega arith) in
    (h.0, omega (arith, h.1), h.2)
