-- ===== src/Status/Quiet.antt =====
-- src/apps/status/alerts.py, `check_alerts`: what the cache knows of the warnings that went out.
use objekt_bernahme_automati.Prelude.{
  ℕ, ◌+◌, ◌≤◌, ◌≡◌, refl, ap, subst, sym, ◌∙◌, inl, inr, Bool, true, false, not, ◌&&◌, Option, none,
  some, List, [], ◌∷◌, String, str_eq, eq_iff, arith, All, All-imp, Bool-cases, if_induction, max,
}
use objekt_bernahme_automati.Status.Conditions.{Condition}
use objekt_bernahme_automati.Status.Alerts.{
  warning, all_clear, Mail, World, Config, repeat_seconds, is_set, enabled, send, send_to, Report,
  after_send, raise_alarm, after_all_clear, end_alarm, mail_of, with_active, with_sent,
  without_entries, handle, handle_all,
}

abbrev pub is_warning : String → Mail → Bool
is_warning key mail = elim mail.kind [ warning ↦ str_eq key mail.key | all_clear ↦ false ]

-- The warnings about a condition, the last one first, are six hours apart at least.
abbrev pub IsSpaced : String → List Mail → Type 0
IsSpaced key [] = Unit
IsSpaced key (mail ∷ mails) =
    (is_warning key mail ≡ true
      → All (λ m. is_warning key m ≡ true → m.at + repeat_seconds ≤ mail.at) mails)
    × IsSpaced key mails

-- When the cache lets the next warning through.
abbrev expiry_or : ℕ → Option ℕ → ℕ
expiry_or now none = now
expiry_or now (some expiry) = max now expiry

abbrev AreBefore : String → ℕ → List Mail → Type 0
AreBefore key time mails = All (λ m. is_warning key m ≡ true → m.at + repeat_seconds ≤ time) mails

-- In the second `now`, the cache's entry for the key knows of the warnings that went out.
pub record IsQuiet (key : String) (now : ℕ) (sent : Option ℕ) (mails : List Mail) : Type 0 where
  pub spaced : IsSpaced key mails
  pub before : AreBefore key (expiry_or now sent) mails

before_later :
    (key : String) (s t : ℕ) (mails : List Mail)
    → s ≤ t
    → AreBefore key s mails
    → AreBefore key t mails
before_later key s t mails l h =
    All-imp (λ m. is_warning key m ≡ true → m.at + repeat_seconds ≤ s)
      (λ m. is_warning key m ≡ true → m.at + repeat_seconds ≤ t) mails
      (λ m f e. let k = f e in omega (arith, k, l)) h

expiry_later :
    (now later : ℕ) (sent : Option ℕ) → now ≤ later → expiry_or now sent ≤ expiry_or later sent
expiry_later now later none l = l
expiry_later now later (some expiry) l = omega (arith, l)

pub IsQuiet-later :
    (key : String) (now later : ℕ) (sent : Option ℕ) (mails : List Mail)
    → now ≤ later
    → IsQuiet key now sent mails
    → IsQuiet key later sent mails
IsQuiet-later key now later sent mails l h = record {
  spaced = h.spaced;
  before =
      before_later key (expiry_or now sent) (expiry_or later sent) mails
        (expiry_later now later sent l) h.before;
}

expired : (now : ℕ) (sent : Option ℕ) → is_set now sent ≡ false → expiry_or now sent ≡ now
expired now none h = refl
expired now (some expiry) h = ground arith

never : {A : Type 0} → false ≡ true → A
never e = absurd (ground arith)

module _ (key : String) (now : ℕ) (accepts : Mail → List Mail → Bool) (cfg : Config) where
  abbrev Holds : World → Type 0
  Holds w = IsQuiet key now (w.sent_until key) w.outbox

  -- What `send` may do.
  send_cases :
      (P : Bool × World → Type 0) (mail : Mail) (w : World)
      → P (true, w)
      → P (false, w)
      → P (true, record w { outbox = mail ∷ w.outbox })
      → P (send accepts cfg mail w)
  send_cases P mail w a b c = go cfg.recipients
    where
      go : (l : List String) → P (send_to accepts mail w l)
      go [] = a
      go (to ∷ others) = if_induction P (accepts mail w.outbox) (λ _. c) (λ _. b)

  -- A mail that is no warning about the key.
  with_other :
      (sent : Option ℕ) (mail : Mail) (mails : List Mail)
      → is_warning key mail ≡ false
      → IsQuiet key now sent mails
      → IsQuiet key now sent (mail ∷ mails)
  with_other sent mail mails n h = record {
    spaced = (λ e. never (sym n ∙ e), h.spaced);
    before = (λ e. never (sym n ∙ e), h.before);
  }

  -- A warning, when the cache lets it through, and the entry that it leaves.
  with_warning :
      (sent : Option ℕ) (mail : Mail) (mails : List Mail)
      → mail.at ≡ now
      → is_set now sent ≡ false
      → IsQuiet key now sent mails
      → IsQuiet key now (some (now + repeat_seconds)) (mail ∷ mails)
  with_warning sent mail mails t n h =
      let b : AreBefore key now mails =
        subst (λ x. AreBefore key x mails) (expired now sent n) h.before in
      record {
        spaced = (λ _. subst (λ x. AreBefore key x mails) (sym t) b, h.spaced);
        before = (
          λ _. omega (arith, t),
          before_later key now (max now (now + repeat_seconds)) mails (omega arith) b,
        );
      }

  -- An entry of any time, when the old one has expired.
  with_new_entry :
      (sent new : Option ℕ) (mails : List Mail)
      → is_set now sent ≡ false
      → now ≤ expiry_or now new
      → IsQuiet key now sent mails
      → IsQuiet key now new mails
  with_new_entry sent new mails n l h =
      let b : AreBefore key now mails =
        subst (λ x. AreBefore key x mails) (expired now sent n) h.before in
      record { spaced = h.spaced; before = before_later key now (expiry_or now new) mails l b }

  raise_self :
      (c : Condition) (r : Report) (w : World)
      → str_eq key c.key ≡ true
      → Holds w
      → Holds (raise_alarm accepts cfg now c r w).1
  raise_self c r w k h =
      let mail = mail_of warning c now in
      let sent = w.sent_until key in
      let new = some (now + repeat_seconds) in
      if_induction (λ (e : Report × World). Holds e.1)
        (enabled cfg && not (is_set now (w.sent_until c.key)))
        (λ e.
          let n : is_set now sent ≡ false =
            let f : is_set now (w.sent_until c.key) ≡ false = ground arith in
            ap (λ x. is_set now (w.sent_until x)) ((eq_iff key c.key).0 k) ∙ f in
          send_cases (λ x. Holds (after_send c.key r x).1) mail
            (with_sent c.key now (with_active c.key now w))
            (rw k (with_new_entry sent new w.outbox n (omega arith) h))
            (rw k (with_new_entry sent none w.outbox n (omega arith) h))
            (rw k (with_warning sent mail w.outbox refl n h)))
        (λ _. h)

  raise_other :
      (c : Condition) (r : Report) (w : World)
      → str_eq key c.key ≡ false
      → Holds w
      → Holds (raise_alarm accepts cfg now c r w).1
  raise_other c r w k h =
      let mail = mail_of warning c now in
      if_induction (λ (e : Report × World). Holds e.1)
        (enabled cfg && not (is_set now (w.sent_until c.key)))
        (λ e.
          send_cases (λ x. Holds (after_send c.key r x).1) mail
            (with_sent c.key now (with_active c.key now w)) (rw k h) (rw k h)
            (rw k (with_other (w.sent_until key) mail w.outbox k h)))
        (λ _. h)

  end_other :
      (c : Condition) (r : Report) (w : World)
      → str_eq key c.key ≡ false
      → Holds w
      → Holds (end_alarm accepts cfg now c r w).1
  end_other c r w k h =
      let mail = mail_of all_clear c now in
      if_induction (λ (e : Report × World). Holds e.1) (enabled cfg)
        (λ e.
          send_cases (λ x. Holds (after_all_clear c.key r x).1) mail (without_entries c.key w)
            (rw k h) (rw k h) (rw k (with_other (w.sent_until key) mail w.outbox refl h)))
        (λ _. rw k h)

  abbrev StaysActive : Condition → Type 0
  StaysActive c = str_eq key c.key ≡ true → c.active ≡ true

  handle-Holds :
      (c : Condition) (rw : Report × World)
      → StaysActive c
      → Holds rw.1
      → Holds (handle accepts cfg now c rw).1
  handle-Holds c (r, w) a h = elim (Bool-cases (str_eq key c.key)) [
    | inl k ↦ rw (a k) (raise_self c r w k h)
    | inr k ↦
        if_induction (λ (e : Report × World). Holds e.1) c.active (λ _. raise_other c r w k h)
          (λ _.
            if_induction (λ (e : Report × World). Holds e.1) (is_set now (w.active_until c.key))
              (λ _. end_other c r w k h) (λ _. h))
  ]

  pub handle_all-Holds :
      (conditions : List Condition) (rw : Report × World)
      → All StaysActive conditions
      → Holds rw.1
      → Holds (handle_all accepts cfg now conditions rw).1
  handle_all-Holds [] rw a h = h
  handle_all-Holds (c ∷ conditions) rw a h =
      handle_all-Holds conditions (handle accepts cfg now c rw) a.1 (handle-Holds c rw a.0 h)
