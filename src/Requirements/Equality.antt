-- ===== src/Requirements/Equality.antt =====
-- src/apps/requirements/engine.py, `evaluate_object`: the comparison of a finding with what the rules
-- say is equality.
use objekt_bernahme_automati.Prelude.{
  ℕ, ◌≡◌, refl, sym, ap, Bool, true, ◌&&◌, Option, none, some, List, [], ◌∷◌, String, str_eq,
  eq_iff, ◌==◌, ==_iff, arith, inl, inr, Bool-cases,
}
use objekt_bernahme_automati.Requirements.Spec.{
  FindingStatus, Details, Spec, same_status, same_option, same_list, same_bool, same_details,
}
use objekt_bernahme_automati.Requirements.Evaluate.{Finding, is_same, same_id}

pub same_status_eq : (a b : FindingStatus) → same_status a b ≡ true → a ≡ b
same_status_eq a b h = ground arith

same_bool_eq : (a b : Bool) → same_bool a b ≡ true → a ≡ b
same_bool_eq a b h = ground arith

same_option_eq :
    {A : Type 0} (eq : A → A → Bool)
    → ((x y : A) → eq x y ≡ true → x ≡ y)
    → (a b : Option A) → same_option eq a b ≡ true
    → a ≡ b
same_option_eq eq k none none h = refl
same_option_eq eq k none (some b) h = ground arith
same_option_eq eq k (some a) none h = ground arith
same_option_eq eq k (some a) (some b) h = ap some (k a b h)

same_list_eq : (xs ys : List ℕ) → same_list xs ys ≡ true → xs ≡ ys
same_list_eq [] [] h = refl
same_list_eq [] (y ∷ ys) h = ground arith
same_list_eq (x ∷ xs) [] h = ground arith
same_list_eq (x ∷ xs) (y ∷ ys) h = ground (arith, same_list_eq xs ys)

pub text_eq : (a b : String) → str_eq a b ≡ true → a ≡ b
text_eq a b h = (eq_iff a b).0 h

nat_eq : (a b : ℕ) → (a == b) ≡ true → a ≡ b
nat_eq a b h = (==_iff a b).0 h

pub and_split : (a b : Bool) → (a && b) ≡ true → (a ≡ true) × (b ≡ true)
and_split a b h = ground arith

pub same_details_eq : (a b : Details) → same_details a b ≡ true → a ≡ b
unfolding same_details
same_details_eq a b h =
    let h0 = and_split _ _ h in
    let h1 = and_split _ _ h0.0 in
    let h2 = and_split _ _ h1.0 in
    let h3 = and_split _ _ h2.0 in
    let h4 = and_split _ _ h3.0 in
    let h5 = and_split _ _ h4.0 in
    let h6 = and_split _ _ h5.0 in
    let h7 = and_split _ _ h6.0 in
    let h8 = and_split _ _ h7.0 in
    let h9 = and_split _ _ h8.0 in
    let h10 = and_split _ _ h9.0 in
    λ i. record {
      hint = same_option_eq str_eq text_eq a.hint b.hint h10.0 i;
      consequential = same_bool_eq a.consequential b.consequential h10.1 i;
      negative_proof = same_bool_eq a.negative_proof b.negative_proof h9.1 i;
      recommendation = same_bool_eq a.recommendation b.recommendation h8.1 i;
      provisional = same_bool_eq a.provisional b.provisional h7.1 i;
      tenant = same_option_eq str_eq text_eq a.tenant b.tenant h6.1 i;
      units = same_option_eq ◌==◌ nat_eq a.units b.units h5.1 i;
      expected =
          same_option_eq (same_option ◌==◌) (same_option_eq ◌==◌ nat_eq) a.expected b.expected h4.1
            i;
      assignments = same_option_eq same_list same_list_eq a.assignments b.assignments h3.1 i;
      requested_at = same_option_eq str_eq text_eq a.requested_at b.requested_at h2.1 i;
      requested_deadline =
          same_option_eq (same_option str_eq) (same_option_eq str_eq text_eq) a.requested_deadline
            b.requested_deadline h1.1 i;
      request_version = same_option_eq ◌==◌ nat_eq a.request_version b.request_version h0.1 i;
    }

same_id_eq : (a b : Option ℕ) → same_id a b ≡ true → a ≡ b
same_id_eq a b h = same_option_eq ◌==◌ nat_eq a b h

-- A finding that says the same has the status, the details and the evidence of the spec.
pub is_same_eq :
    (f : Finding) (s : Spec)
    → is_same f s ≡ true
    → (f.status ≡ s.status)
      × (f.details ≡ s.details)
      × (f.evidence_document_id ≡ s.evidence_document_id)
      × (f.evidence_link_id ≡ s.evidence_link_id)
is_same_eq f s h =
    let h0 = and_split _ _ h in
    let h1 = and_split _ _ h0.0 in
    let h2 = and_split _ _ h1.0 in
    (
      same_status_eq f.status s.status h2.0,
      same_details_eq f.details s.details h2.1,
      same_id_eq f.evidence_document_id s.evidence_document_id h1.1,
      same_id_eq f.evidence_link_id s.evidence_link_id h0.1,
    )

same_status_refl : (a : FindingStatus) → same_status a a ≡ true
same_status_refl a = ground arith

same_bool_refl : (a : Bool) → same_bool a a ≡ true
same_bool_refl a = ground arith

same_option_refl :
    {A : Type 0} (eq : A → A → Bool)
    → ((x : A) → eq x x ≡ true)
    → (a : Option A) → same_option eq a a ≡ true
same_option_refl eq k none = refl
same_option_refl eq k (some a) = k a

same_list_refl : (xs : List ℕ) → same_list xs xs ≡ true
same_list_refl [] = refl
same_list_refl (x ∷ xs) = ground (arith, same_list_refl xs)

pub text_refl : (a : String) → str_eq a a ≡ true
text_refl a = (eq_iff a a).1 refl

pub text_sym : (a b : String) → str_eq a b ≡ str_eq b a
text_sym a b = elim (Bool-cases (str_eq a b)) [
  | inl e ↦ rw (e, text_eq a b e) (sym (text_refl b))
  | inr e ↦ elim (Bool-cases (str_eq b a)) [
    | inr d ↦ rw (e, d)
    | inl d ↦ let k : str_eq a b ≡ true = rw (text_eq b a d) (text_refl a) in absurd (ground arith)
  ]
]

pub nat_refl : (a : ℕ) → (a == a) ≡ true
nat_refl a = ground arith

same_details_refl : (a : Details) → same_details a a ≡ true
unfolding same_details
same_details_refl a = rw (
  same_option_refl str_eq text_refl a.hint,
  same_bool_refl a.consequential,
  same_bool_refl a.negative_proof,
  same_bool_refl a.recommendation,
  same_bool_refl a.provisional,
  same_option_refl str_eq text_refl a.tenant,
  same_option_refl ◌==◌ nat_refl a.units,
  same_option_refl (same_option ◌==◌) (same_option_refl ◌==◌ nat_refl) a.expected,
  same_option_refl same_list same_list_refl a.assignments,
  same_option_refl str_eq text_refl a.requested_at,
  same_option_refl (same_option str_eq) (same_option_refl str_eq text_refl) a.requested_deadline,
  same_option_refl ◌==◌ nat_refl a.request_version,
)

-- A finding with the four columns of the spec says the same.
pub is_same_refl :
    (f : Finding) (s : Spec)
    → f.status ≡ s.status
    → f.details ≡ s.details
    → f.evidence_document_id ≡ s.evidence_document_id
    → f.evidence_link_id ≡ s.evidence_link_id
    → is_same f s ≡ true
is_same_refl f s a b c d = rw (
  a,
  b,
  c,
  d,
  same_status_refl s.status,
  same_details_refl s.details,
  same_option_refl ◌==◌ nat_refl s.evidence_document_id,
  same_option_refl ◌==◌ nat_refl s.evidence_link_id,
)
