-- ===== src/Status/Tests.antt =====
-- Alarms about the disk, and about a second provider that has been in use for hours.
use objekt_bernahme_automati.Prelude.{
  ℕ, ◌*◌, ◌≡◌, refl, Bool, true, false, none, List, [], ◌∷◌, map, arith,
}
use objekt_bernahme_automati.Status.Conditions.{Condition, AiCall, fallback_active, condition}
use objekt_bernahme_automati.Status.Alerts.{
  warning, all_clear, MailKind, Mail, World, Config, check_alerts,
}
use objekt_bernahme_automati.Status.Fallback.{IsAtTheHour, fallback_active-IsAtTheHour}
use objekt_bernahme_automati.Status.Quiet.{IsSpaced}
use objekt_bernahme_automati.Status.Spacing.{check_in_turn, check_alerts-IsSpaced}

abbrev cfg : Config
cfg = record { alerts_enabled = true; has_email_to = true; recipients = "admin@example.org" ∷ [] }

abbrev accepts : Mail → List Mail → Bool
accepts mail mails = true

abbrev empty : World
empty = record { active_until = λ k. none; sent_until = λ k. none; outbox = [] }

abbrev disk : Bool → List Condition
disk active = condition (λ key. "Freier Platz") "disk" active ∷ []

abbrev mails_of : List (ℕ × List Condition) → List (ℕ × MailKind)
mails_of checks = map (λ m. (m.at, m.kind)) (check_in_turn accepts cfg checks empty).outbox

abbrev steady : List (ℕ × List Condition)
steady = (100, disk true) ∷ (400, disk true) ∷ (21700, disk true) ∷ []

two_warnings : mails_of steady ≡ (21700, warning) ∷ (100, warning) ∷ []
unfolding check_alerts
two_warnings = refl

-- A condition that comes and goes is reported every time.
flapping :
    mails_of ((100, disk true) ∷ (400, disk false) ∷ (700, disk true) ∷ [])
    ≡ (700, warning) ∷ (400, all_clear) ∷ (100, warning) ∷ []
unfolding check_alerts
flapping = refl

check_alerts-IsSpaced_example : IsSpaced "disk" (check_in_turn accepts cfg steady empty).outbox
check_alerts-IsSpaced_example =
    check_alerts-IsSpaced accepts cfg "disk" 100 steady (λ k. none) (λ k. none)
      (
        omega arith,
        ((λ e. refl), tt),
        (omega arith, ((λ e. refl), tt), (omega arith, ((λ e. refl), tt), tt)),
      )

-- A call of the second provider in the given second.
abbrev call_at : ℕ → AiCall
call_at at = record { requested_at = at * 1000000; fallback_used = true; is_ok = true }

-- Calls every ten minutes for hours, and the clock at a second between two of them.
in_use_for_hours :
    fallback_active 10000000000 10000000100
      (call_at 6600 ∷ call_at 7200 ∷ call_at 7800 ∷ call_at 9600 ∷ [])
    ≡ false
unfolding fallback_active
in_use_for_hours = refl

fallback_active-IsAtTheHour_example :
    (c : AiCall) × IsAtTheHour 10800000000 10800000100 (call_at 7200 ∷ call_at 9000 ∷ []) c
unfolding fallback_active
fallback_active-IsAtTheHour_example =
    fallback_active-IsAtTheHour 10800000000 10800000100 (call_at 7200 ∷ call_at 9000 ∷ []) refl
