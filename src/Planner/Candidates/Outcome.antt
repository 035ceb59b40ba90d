-- ===== src/Planner/Candidates/Outcome.antt =====
-- What comes out of the attempts of src/understudy/planner/validate.py.
use understudy.Common.{
  ℕ, zero, suc, ◌≤◌, String, false, Option, List, [], ◌∷◌, ◌++◌, length, ◌≡◌, refl, ◌⊎◌, inl, inr,
  arith, All, if◌then◌else◌, ◌==◌,
}
use understudy.Contracts.Plan.{RemediationPlan}
use understudy.Contracts.Incident.{IncidentContext}
use understudy.Planner.Prompt.{PromptCandidatePlan}
use understudy.Planner.Schema.{SchemaError, schema_error, validate_and_parse_plans}
use understudy.Planner.Schema.Accepted.{Parsed-cases}
use understudy.Planner.Normalise.{normalise_plans}
use understudy.Planner.Normalise.Numbering.{
  IsBallot, normalise_plans-IsBallot, ensure_no_action_candidate-IsBallot,
}
use understudy.Planner.Normalise.Survivors.{
  Survives, normalise_plans-Survives, ensure_no_action_candidate-Survives,
}
use understudy.Planner.Candidates.{
  Message, Reply, answer, planner_error, crash, candidates, exhausted, crashed, Trace, calling,
  ballot_of, attempts, feedback, generate_candidates_with_retry,
}

Reply-cases :
    (r : Reply)
    → ((raw : String) × (r ≡ answer raw)) ⊎ ((r ≡ planner_error) ⊎ ((e : String) × (r ≡ crash e)))
Reply-cases (answer raw) = inl (raw, refl)
Reply-cases planner_error = inr (inl refl)
Reply-cases (crash e) = inr (inr (e, refl))

module _ (llm : ℕ → List Message → Reply) (read : String → Option (List PromptCandidatePlan))
    (describe : SchemaError → String → String) (context : IncidentContext)
    (cluster : Option (List String)) where
  -- The call failed, or its answer broke the schema.
  abbrev pub IsRejected : Reply → Type 0
  IsRejected (answer raw) =
      (e : SchemaError) × (validate_and_parse_plans (read raw) false ≡ schema_error e)
  IsRejected planner_error = Unit
  IsRejected (crash e) = ⊥

  -- As many calls as there were attempts, and every one of them was rejected.
  abbrev pub AllRejected : ℕ → List (List Message) → Type 0
  AllRejected zero [] = Unit
  AllRejected zero (m ∷ ms) = ⊥
  AllRejected (suc left) [] = ⊥
  AllRejected (suc left) (m ∷ ms) = IsRejected (llm left m) × AllRejected left ms

  -- What the attempts promise.
  abbrev pub Kept : ℕ → Trace → Type 0
  Kept n (calls, candidates ps) =
      (length calls ≤ n) × IsBallot ps × All (Survives context cluster) ps
  Kept n (calls, exhausted) = AllRejected n calls
  Kept n (calls, crashed e) = length calls ≤ n

  Kept-calling :
      (left : ℕ) (messages : List Message) (t : Trace)
      → IsRejected (llm left messages)
      → Kept left t
      → Kept (suc left) (calling messages t)
  Kept-calling left messages (calls, candidates ps) r k = (omega (arith, k.0), k.1, k.2)
  Kept-calling left messages (calls, exhausted) r k = (r, k)
  Kept-calling left messages (calls, crashed e) r k = omega arith

  Kept-ballot_of :
      (left : ℕ) (messages : List Message) (plans : List RemediationPlan)
      → Kept
          (suc left)
          (messages ∷ [], candidates (ballot_of llm read describe context cluster plans))
  unfolding ballot_of
  Kept-ballot_of left messages plans =
      let kept = normalise_plans plans context cluster false in
      let (numbered, _, _) = normalise_plans-IsBallot plans context cluster in
      let (ballot, long) = ensure_no_action_candidate-IsBallot kept context cluster numbered.0 in
      (
        omega arith,
        ballot,
        ensure_no_action_candidate-Survives context cluster kept
            (normalise_plans-Survives context cluster plans false),
      )

  attempts-Kept :
      (n : ℕ) (messages : List Message)
      → Kept n (attempts llm read describe context cluster n messages)
  unfolding attempts
  attempts-Kept zero messages = tt
  attempts-Kept (suc left) messages = elim (Reply-cases (llm left messages)) [
    | inr (inr (e, q)) ↦ rw (q, attempts) (omega arith)
    | inr (inl q) ↦
        let later = attempts-Kept left messages in
        rw (attempts, q)
          (Kept-calling left messages (attempts llm read describe context cluster left messages)
            (rw q tt) later)
    | inl (raw, q) ↦ elim (Parsed-cases (validate_and_parse_plans (read raw) false)) [
      | inl (plans, p) ↦ rw (attempts, q, p) (Kept-ballot_of left messages plans)
      | inr (e, p) ↦
          let next = if left == 0 then messages else messages ++ feedback raw (describe e raw) in
          rw (attempts, q, p)
            (Kept-calling left messages (attempts llm read describe context cluster left next)
              (rw q (e, p)) (attempts-Kept left next))
    ]
  ]

  -- Whatever the model answers: candidates that are returned are numbered from 0, have a plan that
  -- does nothing among them, are grounded in the environment where they change something, and took at
  -- most one call more than the retries; and the planner gives up only after one call more than the
  -- retries, each of which failed or was answered with a violation of the schema.
  pub generate_candidates_with_retry-Kept :
      (max_retries : ℕ) (prompt : List Message)
      → Kept
          (suc max_retries)
          (generate_candidates_with_retry llm read describe context cluster max_retries prompt)
  unfolding generate_candidates_with_retry
  generate_candidates_with_retry-Kept max_retries prompt = attempts-Kept (suc max_retries) prompt
