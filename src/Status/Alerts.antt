-- ===== src/Status/Alerts.antt =====
-- src/apps/status/alerts.py, `check_alerts`: mails about conditions, and the cache that holds them back.
-- An entry of the cache is the second it expires in; the mail service is a parameter.
use objekt_bernahme_automati.Prelude.{
  ℕ, ◌+◌, Bool, true, false, not, ◌&&◌, Option, none, some, List, [], ◌∷◌, ◌++◌, String, str_eq,
  ltb, if◌then◌else◌, map,
}
use objekt_bernahme_automati.Prelude.Table.{select}
use objekt_bernahme_automati.Status.Conditions.{Condition}

pub data MailKind : Type 0 where
  warning all_clear : MailKind

-- A mail that went out, with its condition and its second; its subject is the kind and the key.
pub record Mail : Type 0 where
  pub kind : MailKind
  pub key : String
  pub body : String
  pub at : ℕ

-- The keys `alerts:active:…` and `alerts:sent:…` of the cache, and the mails, the last one first.
pub record World : Type 0 where
  pub active_until : String → Option ℕ
  pub sent_until : String → Option ℕ
  pub outbox : List Mail

pub record Config : Type 0 where
  pub alerts_enabled : Bool
  pub has_email_to : Bool
  pub recipients : List String

abbrev pub repeat_seconds : ℕ
repeat_seconds = 21600

abbrev week : ℕ
week = 604800

-- `cache.get(key)` finds an entry that has not expired.
abbrev pub is_set : ℕ → Option ℕ → Bool
is_set now none = false
is_set now (some expiry) = ltb now expiry

abbrev pub with_entry : String → Option ℕ → (String → Option ℕ) → String → Option ℕ
with_entry key entry cache k = if str_eq k key then entry else cache k

abbrev pub enabled : Config → Bool
enabled cfg = cfg.alerts_enabled && cfg.has_email_to

-- `send`: without an address nothing is sent, and no error is raised. The Boolean is the error.
abbrev pub send_to : (Mail → List Mail → Bool) → Mail → World → List String → Bool × World
send_to accepts mail w [] = (true, w)
send_to accepts mail w (to ∷ others) =
    if accepts mail w.outbox then (true, record w { outbox = mail ∷ w.outbox }) else (false, w)

abbrev pub send : (Mail → List Mail → Bool) → Config → Mail → World → Bool × World
send accepts cfg mail w = send_to accepts mail w cfg.recipients

pub record Report : Type 0 where
  pub sent : List String
  pub cleared : List String

-- One condition in the loop, with the lists so far.
abbrev pub after_send : String → Report → Bool × World → Report × World
after_send key r (ok, w) =
    if ok
    then (record r { sent = r.sent ++ key ∷ [] }, w)
    else (r, record w { sent_until = with_entry key none w.sent_until })

abbrev pub mail_of : MailKind → Condition → ℕ → Mail
mail_of kind c now = record { kind = kind; key = c.key; body = c.message; at = now }

abbrev pub with_active : String → ℕ → World → World
with_active key now w = record w {
  active_until = with_entry key (some (now + week)) w.active_until;
}

-- `cache.add(sent_key, …)`, where no entry is.
abbrev pub with_sent : String → ℕ → World → World
with_sent key now w = record w {
  sent_until = with_entry key (some (now + repeat_seconds)) w.sent_until;
}

abbrev pub raise_alarm :
    (Mail → List Mail → Bool) → Config → ℕ → Condition → Report → World → Report × World
raise_alarm accepts cfg now c r w =
    let v = with_active c.key now w in
    if enabled cfg && not (is_set now (v.sent_until c.key))
    then after_send c.key r (send accepts cfg (mail_of warning c now) (with_sent c.key now v))
    else (r, v)

abbrev pub after_all_clear : String → Report → Bool × World → Report × World
after_all_clear key r (ok, w) =
    if ok then (record r { cleared = r.cleared ++ key ∷ [] }, w) else (r, w)

abbrev pub without_entries : String → World → World
without_entries key w = record w {
  active_until = with_entry key none w.active_until;
  sent_until = with_entry key none w.sent_until;
}

abbrev pub end_alarm :
    (Mail → List Mail → Bool) → Config → ℕ → Condition → Report → World → Report × World
end_alarm accepts cfg now c r w =
    let v = without_entries c.key w in
    if enabled cfg
    then after_all_clear c.key r (send accepts cfg (mail_of all_clear c now) v)
    else (r, v)

abbrev pub handle :
    (Mail → List Mail → Bool) → Config → ℕ → Condition → Report × World → Report × World
handle accepts cfg now c (r, w) =
    if c.active
    then raise_alarm accepts cfg now c r w
    else if is_set now (w.active_until c.key)
    then end_alarm accepts cfg now c r w
    else (r, w)

abbrev pub handle_all :
    (Mail → List Mail → Bool) → Config → ℕ → List Condition → Report × World → Report × World
handle_all accepts cfg now [] rw = rw
handle_all accepts cfg now (c ∷ conditions) rw =
    handle_all accepts cfg now conditions (handle accepts cfg now c rw)

-- `check_alerts`, in the second `now`: the conditions that are active, the lists, and the world.
unfoldable pub check_alerts :
    (Mail → List Mail → Bool) → Config → ℕ → List Condition → World → List String × Report × World
check_alerts accepts cfg now conditions w =
    let (r, v) = handle_all accepts cfg now conditions (record { sent = []; cleared = [] }, w) in
    (map (λ c. c.key) (select (λ c. c.active) conditions), r, v)
