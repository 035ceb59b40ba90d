-- ===== src/Playbook/Confirmation/Retained.antt =====
-- Which playbooks src/understudy/playbook/confirmation.py keeps.
use understudy.Common.{
  String, true, Option, none, some, >>=-some, List, [], ◌∷◌, str_eq, eq_iff, member, ◌≡◌, refl, sym,
  inl, inr, Bool-cases, Option-cases, Memᴰ, head, tail, IsShare, clamp_ratio-IsShare, one_ratio,
}
use understudy.Contracts.Incident.{IncidentContext}
use understudy.Playbook.Confirmation.{
  ConfirmationResult, RawConfirmation, kept, checked_confirmation, parse_confirmation_response, ids,
  confirm,
}

-- A confidence from 0 to 1, and nothing kept but a valid id.
abbrev IsChecked : List String → ConfirmationResult → Type 0
IsChecked valid r =
    IsShare r.confidence × ((i : String) → r.retained_playbook_id ≡ some i → member i valid ≡ true)

checked_confirmation-IsChecked :
    (raw : RawConfirmation) (valid : List String) → IsChecked valid (checked_confirmation raw valid)
unfolding checked_confirmation
checked_confirmation-IsChecked raw valid = elim (Option-cases raw.retained_playbook_id) [
  | inl e ↦ rw e (clamp_ratio-IsShare raw.confidence, λ i h. absurd cc)
  | inr (i, e) ↦ elim (Bool-cases (member i valid)) [
    | inr m ↦ rw (e, m) (clamp_ratio-IsShare raw.confidence, λ j h. absurd cc)
    | inl m ↦
        rw (e, m)
          (clamp_ratio-IsShare raw.confidence, λ j h. let same : i ≡ j = cc in rw (← same) m)
  ]
]

module _ {Candidate : Type 0} (playbook_id : Candidate → String)
    (read : String → Option RawConfirmation)
    (llm : IncidentContext → List Candidate → Option String) where
  id_of :
      (i : String) (cs : List Candidate)
      → member i (ids playbook_id read llm cs) ≡ true
      → (c : Candidate) × Memᴰ c cs × (playbook_id c ≡ i)
  id_of i [] e = absurd cc
  id_of i (c ∷ cs) e = elim (Bool-cases (str_eq i (playbook_id c))) [
    | inl q ↦ (c, head refl, sym ((eq_iff i (playbook_id c)).0 q))
    | inr q ↦ let (d, m, same) = id_of i cs (rw q at e) in (d, tail m, same)
  ]

  -- Whatever the model answers and however its answer is read: a confirmation has a confidence from 0
  -- to 1, and a playbook that it keeps is one of the candidates.
  pub confirm-keeps_candidates :
      (context : IncidentContext) (cs : List Candidate) (r : ConfirmationResult)
      → confirm playbook_id read llm context cs ≡ some r
      → IsShare r.confidence
        × ((i : String)
            → r.retained_playbook_id ≡ some i
            → (c : Candidate) × Memᴰ c cs × (playbook_id c ≡ i))
  unfolding confirm parse_confirmation_response
  confirm-keeps_candidates context [] r e =
      let same : kept none "No candidate playbooks found in library for this incident signature."
            one_ratio
          ≡ r =
        cc in
      rw (← same) ((refl, refl), λ i h. absurd cc)
  confirm-keeps_candidates context (c ∷ cs) r e =
      let (raw, p, q) = >>=-some (llm context (c ∷ cs)) _ r e in
      let (answer, p', q') = >>=-some (read raw) _ r q in
      let valid = ids playbook_id read llm (c ∷ cs) in
      let same : checked_confirmation answer valid ≡ r = cc in
      let checked = rw same at (checked_confirmation-IsChecked answer valid) in
      (checked.0, λ i h. id_of i (c ∷ cs) (checked.1 i h))
