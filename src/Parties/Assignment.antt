-- ===== src/Parties/Assignment.antt =====
-- src/apps/parties/services.py: the assignments of owners to units, how they are created and
-- ended. The names of the owners' files (`_name_owner_file`), which `create_assignment` and
-- `end_assignment` update last, are not part of this model.
use Prim.Native.String.{compare as compare_text}
use Prim.Native.Nat.{Ordering}
use objekt_bernahme_automati.Prelude.{
  ℕ, ◌+◌, ◌==◌, Bool, true, false, not, ◌&&◌, Option, none, some, List, [], ◌∷◌, ◌++◌, String, ltb,
  leb, if◌then◌else◌,
}
use objekt_bernahme_automati.Prelude.Table.{find, select, update, order_by}
use objekt_bernahme_automati.Parties.Period.{
  date_min, date_or, periods_overlap, period_filter, document_period,
}

pub data DataStatus : Type 0 where
  incomplete ai_suggested confirmed : DataStatus

-- A share is in millionths, as the column stores it.
pub record Assignment : Type 0 where
  pub id : ℕ
  pub owner : ℕ
  pub unit : ℕ
  pub valid_from : Option ℕ
  pub valid_to : Option ℕ
  pub share : Option ℕ
  pub data_status : DataStatus
  pub confirmed_by : Option ℕ
  pub confirmed_at : Option ℕ
  pub notes : Option String
  pub source_import_row : Option ℕ
  pub source_document : Option ℕ
  pub is_deleted : Bool

pub record Owner : Type 0 where
  pub search_name : String
  pub is_deleted : Bool

-- The table of assignments, the next value of its id column, and the owners by their id.
pub record Registry : Type 0 where
  pub assignments : List Assignment
  pub next_id : ℕ
  pub owner_of : ℕ → Owner

pub data Failure : Type 0 where
  start_after_end : Failure
  end_before_start : Failure
  overlap : ℕ → Failure

pub data Result {ℓ} (A : Type ℓ) : Type ℓ where
  ok : A → Result A
  err : Failure → Result A

-- `owner.deleted_at` and the row's own mark
abbrev pub is_active : Assignment → Bool
is_active a = not a.is_deleted

abbrev pub text_le : String → String → Bool
text_le a b = elim (compare_text a b) [ Ordering.gt ↦ false | _ ↦ true ]

abbrev pub by_owner_name : Registry → Assignment → Assignment → Bool
by_owner_name r a b = text_le (r.owner_of a.owner).search_name (r.owner_of b.owner).search_name

abbrev pub owns_in : Registry → ℕ → ℕ → ℕ → Assignment → Bool
owns_in r unit period_from period_to a =
    (is_active a && not (r.owner_of a.owner).is_deleted)
    && (a.unit == unit && period_filter period_from period_to a.valid_from a.valid_to)

unfoldable pub owners_for_period : Registry → ℕ → ℕ → ℕ → List Assignment
owners_for_period r unit period_from period_to =
    order_by (by_owner_name r) (select (owns_in r unit period_from period_to) r.assignments)

unfoldable pub owners_at : Registry → ℕ → ℕ → List Assignment
unfolding owners_for_period
owners_at r unit on_date = owners_for_period r unit on_date on_date

owners_in : Registry → ℕ → Option (ℕ × ℕ) → Option (List Assignment)
owners_in r unit none = none
owners_in r unit (some (from, to)) = some (owners_for_period r unit from to)

unfoldable pub owners_for_document :
    Registry → ℕ → Option ℕ → Option ℕ → Option ℕ → Option ℕ → Option (List Assignment)
unfolding owners_in owners_for_period document_period
owners_for_document r unit period_year period_from period_to document_date =
    owners_in r unit (document_period period_year period_from period_to document_date)

-- The keyword arguments of `create_assignment`.
pub record Request : Type 0 where
  pub owner : ℕ
  pub unit : ℕ
  pub valid_from : Option ℕ
  pub valid_to : Option ℕ
  pub share : Option ℕ
  pub data_status : DataStatus
  pub user : Option ℕ
  pub is_confirmed : Bool
  pub notes : Option String
  pub source_import_row : Option ℕ
  pub source_document : Option ℕ

-- `valid_from and valid_to and valid_from > valid_to`
abbrev pub is_reversed : Option ℕ → Option ℕ → Bool
is_reversed (some f) (some t) = ltb t f
is_reversed _ _ = false

-- An active row of the same owner and unit whose period meets the requested one.
abbrev pub clashes : Request → Assignment → Bool
clashes q a =
    (is_active a && (a.unit == q.unit && a.owner == q.owner))
    && periods_overlap q.valid_from q.valid_to a.valid_from a.valid_to

unfoldable pub new_assignment : ℕ → ℕ → Request → Assignment
new_assignment now id q = record {
  id = id;
  owner = q.owner;
  unit = q.unit;
  valid_from = q.valid_from;
  valid_to = q.valid_to;
  share = q.share;
  data_status = if q.is_confirmed then confirmed else q.data_status;
  confirmed_by = if q.is_confirmed then q.user else none;
  confirmed_at = if q.is_confirmed then some now else none;
  notes = q.notes;
  source_import_row = q.source_import_row;
  source_document = q.source_document;
  is_deleted = false;
}

abbrev pub sum_shares : List Assignment → ℕ
sum_shares [] = 0
sum_shares (a ∷ rest) = date_or a.share 0 + sum_shares rest

-- The sum of the shares at the start, if it exceeds one.
share_warning : Registry → Request → Option ℕ
unfolding owners_for_period
share_warning r q = elim q.share [
  | none ↦ none
  | some _ ↦
      let probe = date_or q.valid_from date_min in
      let total = sum_shares (owners_for_period r q.unit probe probe) in
      if ltb 1000000 total then some total else none
]

abbrev pub add_assignment : Assignment → Registry → Registry
add_assignment a r = record r { assignments = r.assignments ++ a ∷ []; next_id = r.next_id + 1 }

unfoldable pub create_at :
    ℕ → Request → Option Assignment → Registry → Result (Assignment × Option ℕ) × Registry
unfolding new_assignment share_warning
create_at now q (some other) r = (err (overlap other.id), r)
create_at now q none r =
    let a = new_assignment now r.next_id q in
    let r' = add_assignment a r in (ok (a, share_warning r' q), r')

-- The table's `ordering`: an open start comes first.
abbrev pub by_start : Assignment → Assignment → Bool
by_start a b = elim a.valid_from [
  | none ↦ true
  | some s ↦ elim b.valid_from [ none ↦ false | some t ↦ leb s t ]
]

-- The first clashing row in that order is the one that the loop reports.
abbrev pub first_clash : Request → Registry → Option Assignment
first_clash q r = find (clashes q) (order_by by_start r.assignments)

unfoldable pub create_assignment :
    ℕ → Request → Registry → Result (Assignment × Option ℕ) × Registry
unfolding create_at
create_assignment now q r =
    if is_reversed q.valid_from q.valid_to
    then (err start_after_end, r)
    else create_at now q (first_clash q r) r

abbrev pub has_id : ℕ → Assignment → Bool
has_id id a = a.id == id

-- `assignment.valid_from and valid_to < assignment.valid_from`
unfoldable pub end_assignment : Assignment → ℕ → Registry → Result Assignment × Registry
end_assignment a valid_to r =
    if is_reversed a.valid_from (some valid_to) then (err end_before_start, r) else (
      ok (record a { valid_to = some valid_to }),
      record r {
        assignments =
            update (has_id a.id) (λ row. record row { valid_to = some valid_to }) r.assignments;
      },
    )

-- Rows of one owner and unit, both active, whose periods meet.
abbrev pub same_pair : Assignment → Assignment → Bool
same_pair a b = a.unit == b.unit && a.owner == b.owner

unfoldable pub collide : Assignment → Assignment → Bool
collide a b = same_pair a b && periods_overlap a.valid_from a.valid_to b.valid_from b.valid_to
