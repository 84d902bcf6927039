-- ===== src/Requirements/Requests.antt =====
-- src/apps/requirements/requests.py: requests for missing documents, from the draft to the note that
-- the letter was sent. `Letter` is what `compose` makes of the open items, and `hash` the SHA-256 of
-- a request's contents; files and the audit are not part of this model.
use objekt_bernahme_automati.Prelude.{
  ℕ, ◌+◌, Bool, true, false, not, ◌&&◌, ◌||◌, Option, none, some, List, [], ◌∷◌, String, ◌==◌,
  if◌then◌else◌, is_blank, has_text, map, max,
}
use objekt_bernahme_automati.Prelude.Table.{exists, update}
use objekt_bernahme_automati.Requirements.Evaluate.{Finding, Findings}

pub data RequestStatus : Type 0 where
  draft reviewed approved sent withdrawn : RequestStatus

-- A line of the letter with its finding.
pub record Position : Type 0 where
  pub finding_id : ℕ
  pub line : String
  pub group : String

-- The address of the previous manager; the name may be empty, but is never null.
pub record Recipient : Type 0 where
  pub name : String
  pub street : Option String
  pub house_number : Option String
  pub postal_code : Option String
  pub city : Option String
  pub contact_person : Option String
  pub reference : Option String

-- Dates are the texts of `isoformat`.
pub record DocumentRequest : Type 0 where
  pub id : ℕ
  pub object : ℕ
  pub version : ℕ
  pub status : RequestStatus
  pub subject : String
  pub body : String
  pub recipient : Recipient
  pub finding_ids : List ℕ
  pub findings_snapshot : List Position
  pub deadline_date : Option String
  pub content_hash : Option String
  pub reviewed_by : Option ℕ
  pub reviewed_at : Option ℕ
  pub approved_by : Option ℕ
  pub approved_at : Option ℕ
  pub sent_at : Option ℕ
  pub marked_sent_by : Option ℕ
  pub sent_channel_note : Option String
  pub withdrawn_by : Option ℕ
  pub withdrawn_at : Option ℕ

pub record Letter : Type 0 where
  pub subject : String
  pub body : String
  pub positions : List Position

pub data RequestError : Type 0 where
  no_open_items not_changeable not_draft deadline_missing recipient_incomplete : RequestError
  not_reviewed not_approved already_withdrawn reason_missing : RequestError

pub data Result {ℓ} (A : Type ℓ) : Type ℓ where
  ok : A → Result A
  err : RequestError → Result A

-- `(value or "").strip()`
abbrev is_given : Option String → Bool
is_given none = false
is_given (some s) = has_text s

-- `recipient_complete`
abbrev pub recipient_complete : Recipient → Bool
recipient_complete r =
    has_text r.name && is_given r.street && is_given r.postal_code && is_given r.city

abbrev pub is_draft : RequestStatus → Bool
is_draft draft = true
is_draft _ = false

abbrev pub is_reviewed : RequestStatus → Bool
is_reviewed reviewed = true
is_reviewed _ = false

abbrev pub is_approved : RequestStatus → Bool
is_approved approved = true
is_approved _ = false

abbrev pub is_withdrawn : RequestStatus → Bool
is_withdrawn withdrawn = true
is_withdrawn _ = false

abbrev pub has_date : Option String → Bool
has_date none = false
has_date (some d) = true

-- `Max("version")` of the object's requests, and 0 without any.
abbrev max_version : ℕ → List DocumentRequest → ℕ
max_version object [] = 0
max_version object (r ∷ requests) =
    let rest = max_version object requests in
    if r.object == object then max r.version rest else rest

module _ (hash : DocumentRequest → String) where
  -- `render_files` writes both files and the hash of the contents.
  abbrev pub render_files : DocumentRequest → DocumentRequest
  render_files r = record r { content_hash = some (hash r) }

  abbrev new_request : ℕ → ℕ → ℕ → Letter → Option String → Recipient → DocumentRequest
  new_request id object version letter deadline recipient = record {
    id = id;
    object = object;
    version = version;
    status = draft;
    subject = letter.subject;
    body = letter.body;
    recipient = recipient;
    finding_ids = map (λ (p : Position). p.finding_id) letter.positions;
    findings_snapshot = letter.positions;
    deadline_date = deadline;
    content_hash = none;
    reviewed_by = none;
    reviewed_at = none;
    approved_by = none;
    approved_at = none;
    sent_at = none;
    marked_sent_by = none;
    sent_channel_note = none;
    withdrawn_by = none;
    withdrawn_at = none;
  }

  abbrev pub create_with :
      ℕ
      → ℕ
      → Letter
      → List Position
      → Option String
      → Recipient
      → List DocumentRequest
      → Result DocumentRequest
  create_with id object letter [] deadline recipient requests = err no_open_items
  create_with id object letter (p ∷ items) deadline recipient requests = ok (
      render_files
        (new_request id object (max_version object requests + 1) letter deadline recipient))

  -- `create_request`: the letter has a position for each open item that is to be requested.
  unfoldable pub create_request :
      ℕ → ℕ → Letter → Option String → Recipient → List DocumentRequest → Result DocumentRequest
  create_request id object letter deadline recipient requests =
      create_with id object letter letter.positions deadline recipient requests

  abbrev given_or : {A : Type 0} → Option A → A → A
  given_or none a = a
  given_or (some b) a = b

  -- `update_request`: a deadline or an address that is not given stays.
  unfoldable pub update_request :
      Option (Option String) → Option Recipient → DocumentRequest → Result DocumentRequest
  update_request deadline recipient r =
      if not (is_draft r.status || is_reviewed r.status)
      then err not_changeable
      else ok (
          render_files (record r {
            deadline_date = given_or deadline r.deadline_date;
            recipient = given_or recipient r.recipient;
            status = draft;
            reviewed_by = none;
            reviewed_at = none;
          }))

  unfoldable pub mark_reviewed : ℕ → ℕ → DocumentRequest → Result DocumentRequest
  mark_reviewed user now r =
      if not (is_draft r.status)
      then err not_draft
      else if not (has_date r.deadline_date)
      then err deadline_missing
      else if not (recipient_complete r.recipient)
      then err recipient_incomplete
      else ok (
          render_files
            (record r { status = reviewed; reviewed_by = some user; reviewed_at = some now }))

  unfoldable pub approve : ℕ → ℕ → DocumentRequest → Result DocumentRequest
  approve user now r =
      if not (is_reviewed r.status)
      then err not_reviewed
      else ok (
          render_files
            (record r { status = approved; approved_by = some user; approved_at = some now }))

abbrev note_of : String → Option String
note_of note = if is_blank note then none else some note

-- The marks that a letter leaves in a finding; `today` is the day in ISO format.
abbrev pub marked_details : String → DocumentRequest → Finding → Finding
marked_details today r f = record f {
  details = record f.details {
    requested_at = some today;
    requested_deadline = some r.deadline_date;
    request_version = some r.version;
  };
}

abbrev pub is_requested : DocumentRequest → Finding → Bool
is_requested r f = exists (λ id. id == f.id) r.finding_ids

unfoldable pub mark_sent :
    ℕ → ℕ → String → String → DocumentRequest → Findings → Result DocumentRequest × Findings
mark_sent user now today note r t = if not (is_approved r.status) then (err not_approved, t) else (
  ok (record r {
    status = sent;
    sent_at = some now;
    marked_sent_by = some user;
    sent_channel_note = note_of note;
  }),
  record t { rows = update (is_requested r) (marked_details today r) t.rows },
)

-- `withdraw`, with the blanks at the ends of the reason removed.
unfoldable pub withdraw : ℕ → ℕ → String → DocumentRequest → Result DocumentRequest
withdraw user now reason r =
    if is_withdrawn r.status
    then err already_withdrawn
    else if is_blank reason
    then err reason_missing
    else ok (record r { status = withdrawn; withdrawn_by = some user; withdrawn_at = some now })
