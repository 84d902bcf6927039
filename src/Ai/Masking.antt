-- ===== src/Ai/Masking.antt =====
-- src/apps/ai/router.py and src/apps/ai/provider.py: what leaves the program in a classification, and
-- what the log of calls shows of it.
use objekt_bernahme_automati.Prelude.{
  ◌≡◌, refl, sym, ap, ◌∙◌, Bool, true, false, ◌||◌, Bool-cases, inl, inr, if_induction, Option, [],
  ◌∷◌, ◌++◌, append_assoc, append-nil, All, All-append, String,
}
use objekt_bernahme_automati.Ai.World.{World, Router, Request, Sending}
use objekt_bernahme_automati.Ai.Provider.{Reply, ask, sending, is_sensitive}
use objekt_bernahme_automati.Ai.Classify.{classify}
use objekt_bernahme_automati.Ai.Induction.{classify_induction}

-- The message to the user, which carries the document's text, has no sensitive pattern.
abbrev pub IsMasked : Router → Sending → Type 0
IsMasked r m = r.contains_sensitive m.user ≡ false

ask-IsMasked :
    {A : Type 0} (r : Router) (req : Request A) (name : String) (hint : Option String) (w : World)
    → All (IsMasked r) w.sent
    → All (IsMasked r) (ask r req name hint w).1.sent
unfolding ask
ask-IsMasked {A} r req name hint w h =
    if_induction (λ (e : Reply A × World). All (IsMasked r) e.1.sent)
      (is_sensitive r req (sending req name hint)) (λ _. h)
      (λ clean. All-append (IsMasked r) w.sent _ h (unmasked _ _ clean, tt))
  where
    unmasked : (a b : Bool) → (a || b) ≡ false → a ≡ false
    unmasked true b e = cc
    unmasked false b e = refl

-- No message with a sensitive pattern is ever sent: if what was sent before is masked, all that was
-- sent after a classification is, whatever the providers answer and however often they are asked.
pub classify-IsMasked :
    {A : Type 0} (r : Router) (req : Request A) (w : World)
    → All (IsMasked r) w.sent
    → All (IsMasked r) (classify r req w).1.sent
classify-IsMasked r req w h =
    classify_induction r req (λ _ v. All (IsMasked r) v.sent) (λ _ _ _ k. k) (λ _ _ _ _ k. k)
      (λ _ name hint v k. ask-IsMasked r req name hint v k) w h

-- A request whose text to check has a sensitive pattern is not sent to any provider.
pub classify_sends_nothing :
    {A : Type 0} (r : Router) (req : Request A) (w : World)
    → r.contains_sensitive req.mask_check_text ≡ true
    → (classify r req w).1.sent ≡ w.sent
unfolding ask
classify_sends_nothing r req w e =
    classify_induction r req (λ _ v. v.sent ≡ w.sent) (λ _ _ _ k. k) (λ _ _ _ _ k. k)
      (λ _ name hint v k. unsent name hint v ∙ k) w refl
  where
    unsent :
        (name : String) (hint : Option String) (v : World) → (ask r req name hint v).1.sent ≡ v.sent
    unsent name hint v = elim (Bool-cases (r.contains_sensitive (sending req name hint).user)) [
      | inl a ↦ rw a refl
      | inr a ↦ rw (a, e) refl
    ]

-- The log is complete: a classification adds to the table `ai_calls` the calls that its result names,
-- in their order, and no others.
pub classify-ai_calls :
    {A : Type 0} (r : Router) (req : Request A) (w : World)
    → (classify r req w).1.ai_calls ≡ w.ai_calls ++ (classify r req w).0.calls
unfolding ask
classify-ai_calls r req w =
    classify_induction r req (λ calls v. v.ai_calls ≡ w.ai_calls ++ calls)
      (λ calls c v k. ap (λ l. l ++ c ∷ []) k ∙ append_assoc w.ai_calls calls (c ∷ []))
      (λ _ _ _ _ k. k) (λ calls name hint v k. kept name hint v ∙ k) w (sym (append-nil w.ai_calls))
  where
    kept :
        (name : String) (hint : Option String) (v : World)
        → (ask r req name hint v).1.ai_calls ≡ v.ai_calls
    kept name hint v = elim (Bool-cases (is_sensitive r req (sending req name hint))) [
      | inl a ↦ rw a refl
      | inr a ↦ rw a refl
    ]
