-- ===== src/Drive/Backoff.antt =====
-- src/apps/drive/backoff.py: `retry_call`. A call acts on a world `W`, and its exceptions are values;
-- times are milliseconds, and the factor is a whole number. `draw cap` is `rng.uniform(0, cap)`.
use objekt_bernahme_automati.Prelude.{
  ℕ, zero, suc, ◌+◌, ◌-◌, ◌*◌, ◌^◌, min, Bool, true, false, not, Option, none, some, leb,
  if◌then◌else◌, String,
}

pub record BackoffConfig : Type 0 where
  pub base : ℕ
  pub factor : ℕ
  pub max_delay : ℕ
  pub max_attempts : ℕ

pub record CallMetrics : Type 0 where
  pub attempts : ℕ
  pub retries : ℕ
  pub rate_limited : ℕ
  pub server_errors : ℕ
  pub waited : ℕ
  pub failures : ℕ

-- The exceptions of the adapter; the first two carry the header Retry-After.
pub data DriveError : Type 0 where
  rate_limited transient : Option ℕ → DriveError
  auth_error other_error : DriveError

-- What is raised: an error of the adapter, or any other exception, here with its name.
pub data Raised : Type 0 where
  drive_error : DriveError → Raised
  unexpected : String → Raised

pub data Outcome (A : Type 0) : Type 0 where
  returned : A → Outcome A
  raised : Raised → Outcome A

-- How the loop ends: with a value, with an error of the adapter that it counts and raises again, or
-- with an exception that leaves it from where it is raised; `stuck` is a loop that has no round left.
pub data Result (A : Type 0) : Type 0 where
  value : A → Result A
  failed : DriveError → Result A
  escaped : Raised → Result A
  stuck : Result A

abbrev pub counted : CallMetrics → CallMetrics
counted c = record c { attempts = c.attempts + 1 }

abbrev pub with_failure : CallMetrics → CallMetrics
with_failure c = record c { failures = c.failures + 1 }

abbrev pub with_limit : CallMetrics → CallMetrics
with_limit c = record c { rate_limited = c.rate_limited + 1 }

abbrev pub with_server_error : CallMetrics → CallMetrics
with_server_error c = record c { server_errors = c.server_errors + 1 }

abbrev pub with_wait : ℕ → CallMetrics → CallMetrics
with_wait delay c = record c { retries = c.retries + 1; waited = c.waited + delay }

-- `min(max_delay_s, base_s * factor ** (attempt - 1))`
abbrev pub delay_cap : BackoffConfig → ℕ → ℕ
delay_cap cfg attempt = min cfg.max_delay (cfg.base * cfg.factor ^ (attempt - 1))

abbrev pub delay_of : (ℕ → ℕ) → BackoffConfig → ℕ → Option ℕ → ℕ
delay_of draw cfg attempt none = draw (delay_cap cfg attempt)
delay_of draw cfg attempt (some after) = after

-- The callback and the sleep may raise, too.
abbrev pub Callback : Type 0 → Type 0
Callback W = W → Option Raised × W

module _ {A : Type 0} {W : Type 0} (cfg : BackoffConfig) (draw : ℕ → ℕ) (fn : W → Outcome A × W)
    (sleep : ℕ → Callback W) (on_auth_error : Option (Callback W)) where
  -- The rounds that follow, if nothing was raised.
  abbrev pub unless_raised :
      CallMetrics
      → (W → Result A × CallMetrics × W)
      → Option Raised × W
      → Result A × CallMetrics × W
  unless_raised c go_on (none, w) = go_on w
  unless_raised c go_on (some x, w) = (escaped x, c, w)

  -- The credentials are renewed once.
  abbrev pub after_auth_error :
      (ℕ → Bool → CallMetrics → W → Result A × CallMetrics × W)
      → ℕ
      → Bool
      → CallMetrics
      → Option (Callback W)
      → W
      → Result A × CallMetrics × W
  after_auth_error go_on attempt renewed c none w = (failed auth_error, with_failure c, w)
  after_auth_error go_on attempt renewed c (some renew) w =
      let again = unless_raised c (go_on attempt true c) (renew w) in
      if not renewed then again else (failed auth_error, with_failure c, w)

  -- A rate limit or a transient error, which `c` counts.
  abbrev pub after_transient :
      (ℕ → Bool → CallMetrics → W → Result A × CallMetrics × W)
      → ℕ
      → Bool
      → CallMetrics
      → DriveError
      → Option ℕ
      → W
      → Result A × CallMetrics × W
  after_transient go_on attempt renewed c e after w =
      let delay = delay_of draw cfg attempt after in
      let waiting = with_wait delay c in
      let again = unless_raised waiting (go_on attempt renewed waiting) (sleep delay w) in
      if leb cfg.max_attempts attempt then (failed e, with_failure c, w) else again

  -- A round decides what follows before it goes on: `go_on` are the rounds after it, with the number
  -- of the attempt, and whether the credentials were renewed.
  abbrev pub after_error :
      (ℕ → Bool → CallMetrics → W → Result A × CallMetrics × W)
      → ℕ
      → Bool
      → CallMetrics
      → DriveError
      → W
      → Result A × CallMetrics × W
  after_error go_on attempt renewed c (rate_limited after) w =
      after_transient go_on attempt renewed (with_limit c) (rate_limited after) after w
  after_error go_on attempt renewed c (transient after) w =
      after_transient go_on attempt renewed (with_server_error c) (transient after) after w
  after_error go_on attempt renewed c auth_error w =
      after_auth_error go_on attempt renewed c on_auth_error w
  after_error go_on attempt renewed c other_error w = (failed other_error, with_failure c, w)

  abbrev pub after_call :
      (ℕ → Bool → CallMetrics → W → Result A × CallMetrics × W)
      → ℕ
      → Bool
      → CallMetrics
      → Outcome A × W
      → Result A × CallMetrics × W
  after_call go_on attempt renewed c (returned a, w) = (value a, c, w)
  after_call go_on attempt renewed c (raised (drive_error e), w) =
      after_error go_on attempt renewed c e w
  after_call go_on attempt renewed c (raised (unexpected x), w) = (escaped (unexpected x), c, w)

  unfoldable pub rounds : ℕ → ℕ → Bool → CallMetrics → W → Result A × CallMetrics × W
  rounds zero attempt renewed c w = (stuck, c, w)
  rounds (suc fuel) attempt renewed c w =
      after_call (rounds fuel) (attempt + 1) renewed (counted c) (fn w)

  -- `retry_call`: two rounds more than attempts are allowed are enough.
  unfoldable pub retry_call : CallMetrics → W → Result A × CallMetrics × W
  unfolding rounds
  retry_call c w = rounds (cfg.max_attempts + 2) 0 false c w
