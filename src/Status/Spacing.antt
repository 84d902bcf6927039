-- ===== src/Status/Spacing.antt =====
-- src/apps/status/alerts.py, `check_alerts`: how often a condition is reported.
use objekt_bernahme_automati.Prelude.{
  ℕ, ◌≤◌, ◌≡◌, Bool, true, Option, List, [], ◌∷◌, String, str_eq, All,
}
use objekt_bernahme_automati.Status.Conditions.{Condition}
use objekt_bernahme_automati.Status.Alerts.{Mail, World, Config, check_alerts}
use objekt_bernahme_automati.Status.Quiet.{IsSpaced, IsQuiet, IsQuiet-later, handle_all-Holds}

-- One check after the other, each in its second.
abbrev pub check_in_turn :
    (Mail → List Mail → Bool) → Config → List (ℕ × List Condition) → World → World
check_in_turn accepts cfg [] w = w
check_in_turn accepts cfg ((now, conditions) ∷ checks) w =
    check_in_turn accepts cfg checks (check_alerts accepts cfg now conditions w).2

-- The seconds do not go back, and the condition is active whenever it is looked at.
abbrev pub AreActive : String → ℕ → List (ℕ × List Condition) → Type 0
AreActive key start [] = Unit
AreActive key start ((now, conditions) ∷ checks) =
    (start ≤ now)
    × All (λ c. str_eq key c.key ≡ true → c.active ≡ true) conditions
    × AreActive key now checks

in_turn :
    (accepts : Mail → List Mail → Bool) (cfg : Config) (key : String) (start : ℕ)
    (checks : List (ℕ × List Condition)) (w : World)
    → AreActive key start checks
    → IsQuiet key start (w.sent_until key) w.outbox
    → IsSpaced key (check_in_turn accepts cfg checks w).outbox
unfolding check_alerts
in_turn accepts cfg key start [] w a h = h.spaced
in_turn accepts cfg key start ((now, conditions) ∷ checks) w a h =
    in_turn accepts cfg key now checks (check_alerts accepts cfg now conditions w).2 a.2 (
      handle_all-Holds key now accepts cfg conditions (record { sent = []; cleared = [] }, w) a.1
        (IsQuiet-later key start now (w.sent_until key) w.outbox a.0 h))

-- However often the conditions are checked, a condition that stays active is reported at most once in
-- six hours, whatever the cache holds at first and whichever mails fail.
pub check_alerts-IsSpaced :
    (accepts : Mail → List Mail → Bool) (cfg : Config) (key : String) (start : ℕ)
    (checks : List (ℕ × List Condition)) (active_until sent_until : String → Option ℕ)
    → AreActive key start checks
    → IsSpaced key
        (check_in_turn accepts cfg checks
          (record { active_until = active_until; sent_until = sent_until; outbox = [] })).outbox
check_alerts-IsSpaced accepts cfg key start checks active_until sent_until a =
    in_turn accepts cfg key start checks
      (record { active_until = active_until; sent_until = sent_until; outbox = [] }) a
      (record { spaced = tt; before = tt })
