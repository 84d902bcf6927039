-- ===== src/Requirements/Approval.antt =====
-- src/apps/requirements/requests.py: the states of a request and what holds in them.
use objekt_bernahme_automati.Prelude.{
  ℕ, ◌≡◌, refl, subst, Bool, true, false, not, ◌||◌, Option, List, [], ◌∷◌, String, arith,
  if_induction, is_blank,
}
use objekt_bernahme_automati.Requirements.Evaluate.{Findings, has_value}
use objekt_bernahme_automati.Requirements.Requests.{
  RequestStatus, sent, DocumentRequest, Letter, Recipient, Result, ok, err, recipient_complete,
  has_date, create_with, create_request, update_request, mark_reviewed, approve, mark_sent,
  withdraw, is_approved, is_reviewed, is_draft, is_withdrawn, Position,
}

-- `P` of the value, if there is one.
abbrev pub OnOk : {A : Type 0} → (A → Type 0) → Result A → Type 0
OnOk P (ok a) = P a
OnOk P (err e) = Unit

abbrev pub is_sent : RequestStatus → Bool
is_sent sent = true
is_sent _ = false

-- What holds of a request in every state.
pub record IsSound (r : DocumentRequest) : Type 0 where
  pub deadline_set :
      (is_reviewed r.status || is_approved r.status || is_sent r.status) ≡ true
      → has_date r.deadline_date ≡ true
  pub address_complete :
      (is_reviewed r.status || is_approved r.status || is_sent r.status) ≡ true
      → recipient_complete r.recipient ≡ true
  pub was_reviewed :
      (is_reviewed r.status || is_approved r.status || is_sent r.status) ≡ true
      → has_value r.reviewed_by ≡ true
  pub was_approved :
      (is_approved r.status || is_sent r.status) ≡ true → has_value r.approved_by ≡ true
  pub was_sent : is_sent r.status ≡ true → has_value r.sent_at ≡ true

module _ (hash : DocumentRequest → String) where
  -- One call of an operation that succeeds.
  pub data Step (r s : DocumentRequest) : Type 0 where
    updated :
        (deadline : Option (Option String)) (recipient : Option Recipient)
        → update_request hash deadline recipient r ≡ ok s
        → Step r s
    marked_reviewed : (user now : ℕ) → mark_reviewed hash user now r ≡ ok s → Step r s
    was_approved : (user now : ℕ) → approve hash user now r ≡ ok s → Step r s
    marked_sent :
        (user now : ℕ) (today note : String) (t : Findings)
        → (mark_sent user now today note r t).0 ≡ ok s
        → Step r s
    was_withdrawn : (user now : ℕ) (reason : String) → withdraw user now reason r ≡ ok s → Step r s

  pub data Steps (r : DocumentRequest) : DocumentRequest → Type 0 where
    done : Steps r r
    next : (s u : DocumentRequest) → Steps r s → Step s u → Steps r u

  update_request-IsSound :
      (deadline : Option (Option String)) (recipient : Option Recipient) (r : DocumentRequest)
      → IsSound r
      → OnOk IsSound (update_request hash deadline recipient r)
  unfolding update_request
  update_request-IsSound deadline recipient r h =
      if_induction (OnOk IsSound) (not (is_draft r.status || is_reviewed r.status)) (λ _. tt)
        (λ _. record {
          deadline_set = λ e. ground arith;
          address_complete = λ e. ground arith;
          was_reviewed = λ e. ground arith;
          was_approved = λ e. ground arith;
          was_sent = λ e. ground arith;
        })

  mark_reviewed-IsSound :
      (user now : ℕ) (r : DocumentRequest)
      → IsSound r
      → OnOk IsSound (mark_reviewed hash user now r)
  unfolding mark_reviewed
  mark_reviewed-IsSound user now r h =
      if_induction (OnOk IsSound) (not (is_draft r.status)) (λ _. tt)
        (λ _.
          if_induction (OnOk IsSound) (not (has_date r.deadline_date)) (λ _. tt)
            (λ d.
              if_induction (OnOk IsSound) (not (recipient_complete r.recipient)) (λ _. tt)
                (λ a. record {
                  deadline_set = λ e. ground arith;
                  address_complete = λ e. ground arith;
                  was_reviewed = λ e. refl;
                  was_approved = λ e. ground arith;
                  was_sent = λ e. ground arith;
                })))

  approve-IsSound :
      (user now : ℕ) (r : DocumentRequest) → IsSound r → OnOk IsSound (approve hash user now r)
  unfolding approve
  approve-IsSound user now r h =
      if_induction (OnOk IsSound) (not (is_reviewed r.status)) (λ _. tt)
        (λ n.
          let b : (is_reviewed r.status || is_approved r.status || is_sent r.status) ≡ true =
            ground arith in
          record {
            deadline_set = λ e. h.deadline_set b;
            address_complete = λ e. h.address_complete b;
            was_reviewed = λ e. h.was_reviewed b;
            was_approved = λ e. refl;
            was_sent = λ e. ground arith;
          })

mark_sent-IsSound :
    (user now : ℕ) (today note : String) (r : DocumentRequest) (t : Findings)
    → IsSound r
    → OnOk IsSound (mark_sent user now today note r t).0
unfolding mark_sent
mark_sent-IsSound user now today note r t h =
    if_induction (λ (e : Result DocumentRequest × Findings). OnOk IsSound e.0)
      (not (is_approved r.status)) (λ _. tt)
      (λ n.
        let b : (is_reviewed r.status || is_approved r.status || is_sent r.status) ≡ true =
          ground arith in
        let c : (is_approved r.status || is_sent r.status) ≡ true = ground arith in
        record {
          deadline_set = λ e. h.deadline_set b;
          address_complete = λ e. h.address_complete b;
          was_reviewed = λ e. h.was_reviewed b;
          was_approved = λ e. h.was_approved c;
          was_sent = λ e. refl;
        })

withdraw-IsSound :
    (user now : ℕ) (reason : String) (r : DocumentRequest)
    → IsSound r
    → OnOk IsSound (withdraw user now reason r)
unfolding withdraw
withdraw-IsSound user now reason r h =
    if_induction (OnOk IsSound) (is_withdrawn r.status) (λ _. tt)
      (λ _.
        if_induction (OnOk IsSound) (is_blank reason) (λ _. tt)
          (λ _. record {
            deadline_set = λ e. ground arith;
            address_complete = λ e. ground arith;
            was_reviewed = λ e. ground arith;
            was_approved = λ e. ground arith;
            was_sent = λ e. ground arith;
          }))

on_ok : {A : Type 0} (P : A → Type 0) (x : Result A) (a : A) → OnOk P x → x ≡ ok a → P a
on_ok P x a h e = subst (OnOk P) e h

Step-IsSound :
    (hash : DocumentRequest → String) (r s : DocumentRequest)
    → Step hash r s
    → IsSound r
    → IsSound s
Step-IsSound hash r s (updated deadline recipient e) h =
    on_ok IsSound _ s (update_request-IsSound hash deadline recipient r h) e
Step-IsSound hash r s (marked_reviewed user now e) h =
    on_ok IsSound _ s (mark_reviewed-IsSound hash user now r h) e
Step-IsSound hash r s (was_approved user now e) h =
    on_ok IsSound _ s (approve-IsSound hash user now r h) e
Step-IsSound hash r s (marked_sent user now today note t e) h =
    on_ok IsSound _ s (mark_sent-IsSound user now today note r t h) e
Step-IsSound hash r s (was_withdrawn user now reason e) h =
    on_ok IsSound _ s (withdraw-IsSound user now reason r h) e

created :
    (hash : DocumentRequest → String) (id object : ℕ) (letter : Letter) (items : List Position)
    (deadline : Option String) (recipient : Recipient) (requests : List DocumentRequest)
    → OnOk IsSound (create_with hash id object letter items deadline recipient requests)
created hash id object letter [] deadline recipient requests = tt
created hash id object letter (p ∷ items) deadline recipient requests = record {
  deadline_set = λ e. ground arith;
  address_complete = λ e. ground arith;
  was_reviewed = λ e. ground arith;
  was_approved = λ e. ground arith;
  was_sent = λ e. ground arith;
}

-- Whatever is done with a request after it was created, in every order: only with a deadline and a
-- complete address, and after a review, is it reviewed, approved or sent; what is approved or sent
-- has been approved by somebody, and what is sent has its time.
pub Steps-IsSound :
    (hash : DocumentRequest → String) (id object : ℕ) (letter : Letter) (deadline : Option String)
    (recipient : Recipient) (requests : List DocumentRequest) (r s : DocumentRequest)
    → create_request hash id object letter deadline recipient requests ≡ ok r
    → Steps hash r s
    → IsSound s
unfolding create_request
Steps-IsSound hash id object letter deadline recipient requests r s e steps = along steps (
    on_ok IsSound _ r (created hash id object letter letter.positions deadline recipient requests)
      e)
  where
    along : {u : DocumentRequest} → Steps hash r u → IsSound r → IsSound u
    along done h = h
    along (next v u before step) h = Step-IsSound hash v u step (along before h)

abbrev pub is_final : RequestStatus → Bool
is_final status = is_approved status || is_sent status || is_withdrawn status

-- The letter is the same, and nobody can change it any more.
pub record IsFrozen (r s : DocumentRequest) : Type 0 where
  pub final : is_final s.status ≡ true
  pub version : s.version ≡ r.version
  pub subject : s.subject ≡ r.subject
  pub body : s.body ≡ r.body
  pub recipient : s.recipient ≡ r.recipient
  pub positions : s.findings_snapshot ≡ r.findings_snapshot
  pub deadline : s.deadline_date ≡ r.deadline_date
  pub content_hash : s.content_hash ≡ r.content_hash

module _ (o r : DocumentRequest) (h : IsFrozen o r) where
  not_open : (is_draft r.status ≡ false) × (is_reviewed r.status ≡ false)
  not_open = let f = h.final in (ground arith, ground arith)

  update_request-IsFrozen :
      (hash : DocumentRequest → String) (deadline : Option (Option String))
      (recipient : Option Recipient)
      → OnOk (IsFrozen o) (update_request hash deadline recipient r)
  unfolding update_request
  update_request-IsFrozen hash deadline recipient = rw (not_open.0, not_open.1) tt

  mark_reviewed-IsFrozen :
      (hash : DocumentRequest → String) (user now : ℕ)
      → OnOk (IsFrozen o) (mark_reviewed hash user now r)
  unfolding mark_reviewed
  mark_reviewed-IsFrozen hash user now = rw (not_open.0) tt

  approve-IsFrozen :
      (hash : DocumentRequest → String) (user now : ℕ) → OnOk (IsFrozen o) (approve hash user now r)
  unfolding approve
  approve-IsFrozen hash user now = rw (not_open.1) tt

  mark_sent-IsFrozen :
      (user now : ℕ) (today note : String) (t : Findings)
      → OnOk (IsFrozen o) (mark_sent user now today note r t).0
  unfolding mark_sent
  mark_sent-IsFrozen user now today note t =
      if_induction (λ (e : Result DocumentRequest × Findings). OnOk (IsFrozen o) e.0)
        (not (is_approved r.status)) (λ _. tt)
        (λ _. record {
          final = refl;
          version = h.version;
          subject = h.subject;
          body = h.body;
          recipient = h.recipient;
          positions = h.positions;
          deadline = h.deadline;
          content_hash = h.content_hash;
        })

  withdraw-IsFrozen :
      (user now : ℕ) (reason : String) → OnOk (IsFrozen o) (withdraw user now reason r)
  unfolding withdraw
  withdraw-IsFrozen user now reason =
      if_induction (OnOk (IsFrozen o)) (is_withdrawn r.status) (λ _. tt)
        (λ _.
          if_induction (OnOk (IsFrozen o)) (is_blank reason) (λ _. tt)
            (λ _. record {
              final = refl;
              version = h.version;
              subject = h.subject;
              body = h.body;
              recipient = h.recipient;
              positions = h.positions;
              deadline = h.deadline;
              content_hash = h.content_hash;
            }))

Step-IsFrozen :
    (hash : DocumentRequest → String) (o r s : DocumentRequest)
    → Step hash r s
    → IsFrozen o r
    → IsFrozen o s
Step-IsFrozen hash o r s (updated deadline recipient e) h =
    on_ok (IsFrozen o) _ s (update_request-IsFrozen o r h hash deadline recipient) e
Step-IsFrozen hash o r s (marked_reviewed user now e) h =
    on_ok (IsFrozen o) _ s (mark_reviewed-IsFrozen o r h hash user now) e
Step-IsFrozen hash o r s (was_approved user now e) h =
    on_ok (IsFrozen o) _ s (approve-IsFrozen o r h hash user now) e
Step-IsFrozen hash o r s (marked_sent user now today note t e) h =
    on_ok (IsFrozen o) _ s (mark_sent-IsFrozen o r h user now today note t) e
Step-IsFrozen hash o r s (was_withdrawn user now reason e) h =
    on_ok (IsFrozen o) _ s (withdraw-IsFrozen o r h user now reason) e

-- From its approval on, or when it is withdrawn, a letter is frozen: whatever is done afterwards,
-- its text, address, positions, deadline, version and content hash stay, and it never becomes a
-- draft again.
pub Steps-IsFrozen :
    (hash : DocumentRequest → String) (r s : DocumentRequest)
    → is_final r.status ≡ true
    → Steps hash r s
    → IsFrozen r s
Steps-IsFrozen hash r s f steps = along steps
  where
    along : {u : DocumentRequest} → Steps hash r u → IsFrozen r u
    along done = record {
      final = f;
      version = refl;
      subject = refl;
      body = refl;
      recipient = refl;
      positions = refl;
      deadline = refl;
      content_hash = refl;
    }
    along (next v u before step) = Step-IsFrozen hash r v u step (along before)
