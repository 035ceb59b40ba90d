-- ===== src/Tests/Playbooks.antt =====
-- A model that keeps a playbook which is not among the candidates.
use understudy.Common.{
  String, Option, none, some, List, [], ◌∷◌, pos, of_ℤ, ◌≡◌, refl, Memᴰ, IsShare, clamp_ratio,
}
use understudy.Contracts.Incident.{IncidentContext}
use understudy.Playbook.Confirmation.{
  ConfirmationResult, RawConfirmation, confirm, parse_confirmation_response, checked_confirmation,
}
use understudy.Playbook.Confirmation.Retained.{confirm-keeps_candidates}
use understudy.Tests.Candidates.{situation}

abbrev itself : String → String
itself s = s

abbrev inventing : IncidentContext → List String → Option String
inventing context cs = some "{}"

abbrev reading : String → Option RawConfirmation
reading s =
    some (record { retained_playbook_id = some "pb_9"; confidence = of_ℤ (pos 2); reason = "sure" })

abbrev or_nothing : Option ConfirmationResult → ConfirmationResult
or_nothing (some r) = r
or_nothing none = record { retained_playbook_id = none; reason = ""; confidence = of_ℤ (pos 0) }

abbrev decision : ConfirmationResult
decision = or_nothing (confirm itself reading inventing situation ("pb_1" ∷ []))

confirm-keeps_candidates_example :
    IsShare decision.confidence
    × ((i : String)
        → decision.retained_playbook_id ≡ some i
        → (c : String) × Memᴰ c ("pb_1" ∷ []) × (c ≡ i))
unfolding confirm parse_confirmation_response checked_confirmation clamp_ratio
confirm-keeps_candidates_example =
    confirm-keeps_candidates itself reading inventing situation ("pb_1" ∷ []) decision refl
