-- ===== src/Playbook/Confirmation.antt =====
-- src/understudy/playbook/confirmation.py: `confirm` and what `parse_confirmation_response` makes of
-- an answer. The prompt, the model behind it and the reading of an answer's JSON are parameters; the
-- client that is called when no model is injected is left out.
pub mod Retained
use understudy.Common.{
  String, Bool, true, false, Option, none, some, ◌>>=◌, List, [], ◌∷◌, str_eq, if◌then◌else◌,
  member, strip, ◌<>◌, Ratio, one_ratio, clamp_ratio,
}
use understudy.Contracts.Incident.{IncidentContext}

pub record ConfirmationResult : Type 0 where
  pub retained_playbook_id : Option String
  pub reason : String
  pub confidence : Ratio

-- `_ConfirmationRawSchema`
pub record RawConfirmation : Type 0 where
  pub retained_playbook_id : Option String
  pub confidence : Ratio
  pub reason : String

abbrev or_no_reason : String → String
or_no_reason s = if str_eq s "" then "No confirmation reason provided by LLM." else s

abbrev kept : Option String → String → Ratio → ConfirmationResult
kept i reason confidence = record {
  retained_playbook_id = i;
  reason = reason;
  confidence = confidence;
}

-- What becomes of an answer that was read.
unfoldable pub checked_confirmation : RawConfirmation → List String → ConfirmationResult
unfolding strip clamp_ratio
checked_confirmation raw valid = elim raw.retained_playbook_id [
  | none ↦ kept none (or_no_reason (strip raw.reason)) (clamp_ratio raw.confidence)
  | some i ↦
      if member i valid
      then kept (some i) (or_no_reason (strip raw.reason)) (clamp_ratio raw.confidence)
      else kept none
          ("LLM proposed unknown playbook ID '" <> i
            <> "' not in candidate set. Rejected for safety.")
          (clamp_ratio raw.confidence)
]

module _ {Candidate : Type 0} (playbook_id : Candidate → String)
    (read : String → Option RawConfirmation)
    (llm : IncidentContext → List Candidate → Option String) where
  -- `none` is the PlaybookConfirmationError.
  unfoldable pub parse_confirmation_response : String → List String → Option ConfirmationResult
  unfolding checked_confirmation
  parse_confirmation_response raw valid = do c ← read raw; some (checked_confirmation c valid)

  abbrev ids : List Candidate → List String
  ids [] = []
  ids (c ∷ cs) = playbook_id c ∷ ids cs

  -- The prompt is made from the context and the candidates.
  unfoldable pub confirm : IncidentContext → List Candidate → Option ConfirmationResult
  unfolding parse_confirmation_response
  confirm context [] =
      some
        (kept none "No candidate playbooks found in library for this incident signature." one_ratio)
  confirm context (c ∷ cs) = do
    raw ← llm context (c ∷ cs)
    parse_confirmation_response raw (ids (c ∷ cs))
