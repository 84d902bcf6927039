-- ===== src/Drive/Tests.antt =====
-- Calls of the Drive service: one that is limited twice and needs new credentials, a limiter with two
-- calls, and the folder of object 82.
use Prim.Native.Char.{Char}
use objekt_bernahme_automati.Prelude.{
  ℕ, zero, suc, ◌+◌, ◌-◌, ◌*◌, ◌≤◌, ◌≡◌, refl, max, true, false, none, some, List, [], ◌∷◌, String,
  ◌<>◌, decimal, arith, length,
}
use objekt_bernahme_automati.Drive.Backoff.{
  BackoffConfig, CallMetrics, rate_limited, auth_error, drive_error, Callback, Outcome, returned,
  raised, value, retry_call,
}
use objekt_bernahme_automati.Drive.Retries.{is_stuck, failure_count, retry_call_ends}
use objekt_bernahme_automati.Drive.RateLimiter.{token, new_limiter, acquire}
use objekt_bernahme_automati.Drive.Rate.{AreReadings, acquire_all, rate_bounded}
use objekt_bernahme_automati.Drive.ObjectNumbers.{
  normalize_object_number, parse_object_number, same_object, only_digits, padded, strip,
  without_separators,
}
use objekt_bernahme_automati.Drive.FolderNumbers.{normalize_keeps, parse_numbered}

abbrev cfg : BackoffConfig
cfg = record { base = 1000; factor = 2; max_delay = 64000; max_attempts = 3 }

abbrev no_calls : CallMetrics
no_calls = record {
  attempts = 0;
  retries = 0;
  rate_limited = 0;
  server_errors = 0;
  waited = 0;
  failures = 0;
}

-- The world is the number of calls so far: two are limited, and the third finds old credentials.
abbrev fn : ℕ → Outcome String × ℕ
fn zero = (raised (drive_error (rate_limited none)), 1)
fn (suc zero) = (raised (drive_error (rate_limited (some 5000))), 2)
fn (suc (suc zero)) = (raised (drive_error auth_error), 3)
fn w = (returned "file", w)

abbrev draw : ℕ → ℕ
draw cap = cap

abbrev sleep : ℕ → Callback ℕ
sleep delay w = (none, w)

abbrev renew : Callback ℕ
renew w = (none, w + 10)

four_calls : retry_call cfg draw fn sleep (some renew) no_calls 0 ≡ (
  value "file",
  record {
    attempts = 4;
    retries = 2;
    rate_limited = 2;
    server_errors = 0;
    waited = 6000;
    failures = 0;
  },
  13,
)
unfolding retry_call
four_calls = refl

retry_call_ends_example :
    let e = retry_call cfg draw fn sleep (some renew) no_calls 0 in
    (is_stuck e.0 ≡ false)
    × (e.1.attempts ≤ 0 + (max 1 3 + 1))
    × (e.1.failures ≡ 0 + failure_count e.0)
retry_call_ends_example = retry_call_ends cfg draw fn sleep (some renew) no_calls 0

-- One call per second: the second call comes after half a second and waits for the other half.
abbrev readings : List (ℕ × ℕ)
readings = (100, 100) ∷ (500100, 1000100) ∷ []

readings-AreReadings : AreReadings readings (new_limiter 1000 (some 1) 100)
unfolding new_limiter acquire
readings-AreReadings = (
  record { not_back = omega arith; slept = omega arith },
  (record { not_back = omega arith; slept = omega arith }, tt),
)

rate_bounded_example :
    let l = new_limiter 1000 (some 1) 100 in
    length readings * token ≤ l.capacity * token + ((acquire_all readings l).last - 100) * l.rate
rate_bounded_example = rate_bounded 1000 (some 1) 100 readings readings-AreReadings

normalize_keeps_example :
    (same_object "0082" (only_digits "Nr. 82") ≡ true)
    × (normalize_object_number "0082" (some 4) ≡ some "0082")
unfolding normalize_object_number
normalize_keeps_example = normalize_keeps "Nr. 82" (some 4) "0082" refl

abbrev separators : List Char
separators = " " ∷ "_" ∷ "," ∷ "." ∷ "-" ∷ []

parse_numbered_example :
    parse_object_number 2 6 separators (padded (some 4) (decimal 82) <> " - Lange Straße 3")
    ≡ some (record {
      digits = padded (some 4) (decimal 82);
      numeric = 82;
      rest = strip (without_separators separators " - Lange Straße 3");
    })
parse_numbered_example =
    parse_numbered 2 6 separators 82 (some 4) " - Lange Straße 3"
      (refl, (refl, (refl, (refl, (refl, tt))))) refl refl (omega arith) (omega arith)

leading_zeros :
    parse_object_number 2 6 separators "0631 Hof"
    ≡ some (record { digits = "0631"; numeric = 631; rest = "Hof" })
unfolding parse_object_number
leading_zeros = refl

too_long : parse_object_number 2 6 separators "6230000 Hof" ≡ none
unfolding parse_object_number
too_long = refl
