-- ===== src/Imports/Matching.antt =====
-- src/apps/imports/matching.py: how near an imported person is to the owners that are known, and
-- whether one of them is taken. Scores are thousandths of a point. The similarities of rapidfuzz,
-- `norm_name` and the comparison form of an e-mail address are parameters.
use objekt_bernahme_automati.Prelude.{
  ℕ, ◌+◌, ◌*◌, min, Bool, true, false, not, ◌&&◌, ◌||◌, Option, none, some, List, [], ◌∷◌, ◌++◌,
  String, ◌<>◌, str_eq, leb, ◌==◌, if◌then◌else◌, is_blank, map,
}
use objekt_bernahme_automati.Prelude.Table.{select, exists, order_by}

pub data PersonType : Type 0 where
  natural_person other_person : PersonType

pub record OwnerRecord : Type 0 where
  pub id : ℕ
  pub type : PersonType
  pub first_name : Option String
  pub last_name : Option String
  pub company_name : Option String
  pub email : Option String
  pub postal_code : Option String
  pub street : Option String
  pub iban_hash_hex : Option String
  pub unit_ids_in_object : List ℕ
  pub has_assignment_in_object : Bool

pub record PersonQuery : Type 0 where
  pub type : PersonType
  pub first_name : Option String
  pub last_name : Option String
  pub company_name : Option String
  pub email : Option String
  pub postal_code : Option String
  pub street : Option String
  pub iban_hash_hex : Option String
  pub unit_id : Option ℕ

-- `STRONG_SIGNALS`: every signal is one.
pub data Signal : Type 0 where
  same_unit same_address same_email same_iban_hash same_first_name : Signal

pub record OwnerCandidate : Type 0 where
  pub owner_id : ℕ
  pub score : ℕ
  pub base : ℕ
  pub signals : List Signal
  pub in_object : Bool

pub data MatchDecision : Type 0 where
  auto candidates new : MatchDecision

pub record MatchResult : Type 0 where
  pub decision : MatchDecision
  pub best : Option OwnerCandidate
  pub scored : List OwnerCandidate

pub record Thresholds : Type 0 where
  pub auto_min : ℕ
  pub candidate_min : ℕ

pub record Similarity : Type 0 where
  pub ratio : String → String → ℕ
  pub token_set_ratio : String → String → ℕ
  pub partial_ratio : String → String → ℕ
  pub norm_name : String → String
  pub norm_email : String → String

abbrev pub points : ℕ
points = 1000

-- `bool(text)`, and `text or ''`.
abbrev pub has_text : Option String → Bool
has_text none = false
has_text (some s) = not (is_blank s)

abbrev pub or_empty : Option String → String
or_empty none = ""
or_empty (some s) = s

abbrev or_else : Option String → Option String → String
or_else a b = if has_text a then or_empty a else or_empty b

abbrev is_natural : PersonType → Bool
is_natural natural_person = true
is_natural other_person = false

abbrev both : Option String → Option String → Bool
both a b = has_text a && has_text b

-- Two texts that are there and the same.
abbrev is_same : Option String → Option String → Bool
is_same a b = both a b && str_eq (or_empty a) (or_empty b)

abbrev signal : Signal → Bool → List Signal
signal s holds = if holds then s ∷ [] else []

abbrev pub sum_of : (Signal → ℕ) → List Signal → ℕ
sum_of weights [] = 0
sum_of weights (s ∷ signals) = weights s + sum_of weights signals

abbrev pub ranks_before : OwnerCandidate → OwnerCandidate → Bool
ranks_before c d = leb d.score c.score

abbrev pub is_near_enough : Thresholds → OwnerCandidate → Bool
is_near_enough th c = leb (60 * points) c.base || leb th.candidate_min c.score

abbrev pub has_signal : List Signal → Bool
has_signal [] = false
has_signal (s ∷ signals) = true

abbrev pub has_rival : Thresholds → List OwnerCandidate → Bool
has_rival th [] = false
has_rival th (second ∷ rest) = leb th.candidate_min second.score

abbrev result : MatchDecision → Option OwnerCandidate → List OwnerCandidate → MatchResult
result decision best scored = record { decision = decision; best = best; scored = scored }

abbrev pub decide : Thresholds → List OwnerCandidate → MatchResult
decide th [] = result new none []
decide th (best ∷ rest) =
    if leb th.auto_min best.score && has_signal best.signals && best.in_object
    then (if has_rival th rest
        then result candidates (some best) (best ∷ rest)
        else result auto (some best) (best ∷ rest))
    else if leb th.candidate_min best.score
    then result candidates (some best) (best ∷ rest)
    else result new none (best ∷ rest)

module _ (sim : Similarity) where
  abbrev full_name : Option String → Option String → String
  full_name last_name first_name = sim.norm_name (or_empty last_name <> " " <> or_empty first_name)

  abbrev pub person_similarity : PersonQuery → OwnerRecord → ℕ
  person_similarity q o =
      if not (both q.first_name o.first_name)
      then sim.ratio (sim.norm_name (or_empty q.last_name)) (sim.norm_name (or_empty o.last_name))
      else sim.token_set_ratio (full_name q.last_name q.first_name)
          (full_name o.last_name o.first_name)

  abbrev pub company_similarity : PersonQuery → OwnerRecord → ℕ
  company_similarity q o =
      let q_name = sim.norm_name (or_else q.company_name q.last_name) in
      let o_name = sim.norm_name (or_else o.company_name o.last_name) in
      if is_blank q_name || is_blank o_name
      then 0
      else if not (is_natural q.type) && not (is_natural o.type)
      then sim.partial_ratio q_name o_name
      else sim.ratio q_name o_name

  abbrev pub name_similarity : PersonQuery → OwnerRecord → ℕ
  name_similarity q o =
      if is_natural q.type && is_natural o.type
      then person_similarity q o
      else company_similarity q o

  abbrev is_in_unit : Option ℕ → OwnerRecord → Bool
  is_in_unit none o = false
  is_in_unit (some unit) o = exists (λ id. id == unit) o.unit_ids_in_object

  abbrev has_address_of : PersonQuery → OwnerRecord → Bool
  has_address_of q o =
      let street = sim.norm_name (or_empty q.street) in
      is_same q.postal_code o.postal_code
      && not (is_blank street)
      && str_eq street (sim.norm_name (or_empty o.street))

  abbrev has_email_of : PersonQuery → OwnerRecord → Bool
  has_email_of q o =
      both q.email o.email
      && str_eq (sim.norm_email (or_empty q.email)) (sim.norm_email (or_empty o.email))

  abbrev has_first_name_of : PersonQuery → OwnerRecord → Bool
  has_first_name_of q o =
      is_natural q.type
      && is_natural o.type
      && both q.first_name o.first_name
      && str_eq (sim.norm_name (or_empty q.first_name)) (sim.norm_name (or_empty o.first_name))
      && leb (85 * points)
          (sim.ratio (sim.norm_name (or_empty q.last_name)) (sim.norm_name (or_empty o.last_name)))

  abbrev pub signals_of : PersonQuery → OwnerRecord → List Signal
  signals_of q o =
      signal same_unit (is_in_unit q.unit_id o)
      ++ signal same_address (has_address_of q o)
      ++ signal same_email (has_email_of q o)
      ++ signal same_iban_hash (is_same q.iban_hash_hex o.iban_hash_hex)
      ++ signal same_first_name (has_first_name_of q o)

  -- `weights` are the defaults with the settings over them.
  abbrev pub score_owner : (Signal → ℕ) → PersonQuery → OwnerRecord → OwnerCandidate
  score_owner weights q o =
      let base = name_similarity q o in
      let signals = signals_of q o in
      record {
        owner_id = o.id;
        score = min (base + sum_of weights signals) (100 * points);
        base = base;
        signals = signals;
        in_object = o.has_assignment_in_object;
      }

  abbrev pub scored_owners :
      Thresholds → (Signal → ℕ) → PersonQuery → List OwnerRecord → List OwnerCandidate
  scored_owners th weights q owners =
      select (is_near_enough th) (map (score_owner weights q) owners)

  unfoldable pub match_owner :
      Thresholds → (Signal → ℕ) → PersonQuery → List OwnerRecord → MatchResult
  match_owner th weights q owners =
      decide th (order_by ranks_before (scored_owners th weights q owners))
