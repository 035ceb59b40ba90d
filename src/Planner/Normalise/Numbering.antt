-- ===== src/Planner/Normalise/Numbering.antt =====
-- How src/understudy/planner/validate.py numbers the plans that survive.
use understudy.Common.{
  ℕ, suc, ◌+◌, ◌≤◌, String, Bool, true, false, Option, none, some, List, [], ◌∷◌, ◌++◌, length, pos,
  ◌≡◌, refl, inl, inr, Bool-cases, Option-cases, arith, ◌<>◌, length-append,
}
use understudy.Contracts.Plan.{RemediationPlan, irreversible, reversible, header, inverse, planner}
use understudy.Contracts.Incident.{IncidentContext}
use understudy.Planner.Prompt.{cand_id}
use understudy.Planner.Normalise.{
  reindex, normalised, normalise_plan, does_nothing, any, create_no_action_plan,
  ensure_no_action_candidate, normalise_plans,
}

abbrev pub InverseNumbered : ℕ → Option RemediationPlan → Type 0
InverseNumbered n none = Unit
InverseNumbered n (some inv) =
    ((header inv).plan_id ≡ cand_id n <> "_inv") × ((header inv).candidate_index ≡ pos n)

-- The plans have the ids and the indices from `n` on, in their order, and so have their inverses.
abbrev pub NumberedFrom : ℕ → List RemediationPlan → Type 0
NumberedFrom n [] = Unit
NumberedFrom n (p ∷ ps) =
    (((header p).plan_id ≡ cand_id n)
      × ((header p).candidate_index ≡ pos n)
      × InverseNumbered n (inverse p))
    × NumberedFrom (suc n) ps

reindex-NumberedFrom : (n : ℕ) (ps : List RemediationPlan) → NumberedFrom n (reindex n ps)
unfolding reindex
reindex-NumberedFrom n [] = tt
reindex-NumberedFrom n (irreversible p ∷ ps) = ((refl, refl, tt), reindex-NumberedFrom (suc n) ps)
reindex-NumberedFrom n (reversible p (irreversible q) ∷ ps) =
    ((refl, refl, (refl, refl)), reindex-NumberedFrom (suc n) ps)
reindex-NumberedFrom n (reversible p (reversible q r) ∷ ps) =
    ((refl, refl, (refl, refl)), reindex-NumberedFrom (suc n) ps)

NumberedFrom-append :
    (n : ℕ) (ps : List RemediationPlan) (q : RemediationPlan)
    → NumberedFrom n ps
    → ((header q).plan_id ≡ cand_id (n + length ps))
      × ((header q).candidate_index ≡ pos (n + length ps))
      × InverseNumbered (n + length ps) (inverse q)
    → NumberedFrom n (ps ++ q ∷ [])
NumberedFrom-append n [] q h k = let e : n + 0 ≡ n = omega arith in (rw e at k, tt)
NumberedFrom-append n (p ∷ ps) q h k =
    let e : n + suc (length ps) ≡ suc n + length ps = omega arith in
    (h.0, NumberedFrom-append (suc n) ps q h.1 (rw e at k))

any-append :
    (p : RemediationPlan → Bool) (xs : List RemediationPlan) (y : RemediationPlan)
    → p y ≡ true
    → any p (xs ++ y ∷ []) ≡ true
any-append p [] y e = ground arith
any-append p (x ∷ xs) y e = let later = any-append p xs y e in ground arith

-- A ballot: numbered from 0, with a plan that does nothing.
abbrev pub IsBallot : List RemediationPlan → Type 0
IsBallot ps = NumberedFrom 0 ps × (any does_nothing ps ≡ true)

pub ensure_no_action_candidate-IsBallot :
    (ps : List RemediationPlan) (context : IncidentContext) (cluster : Option (List String))
    → NumberedFrom 0 ps
    → IsBallot (ensure_no_action_candidate ps context cluster planner)
      × (length (ensure_no_action_candidate ps context cluster planner) ≤ suc (length ps))
unfolding ensure_no_action_candidate create_no_action_plan
ensure_no_action_candidate-IsBallot ps context cluster h = elim (Bool-cases (any does_nothing ps)) [
  | inl e ↦ rw e ((h, e), omega arith)
  | inr e ↦
      let q =
        create_no_action_plan context (length ps) none planner cluster
          "Maintain current state without automated mutation" in
      let start : 0 + length ps ≡ length ps = omega arith in
      rw e (
        (
          NumberedFrom-append 0 ps q h (rw start (refl, refl, tt)),
          any-append does_nothing ps q refl,
        ),
        omega (arith, length-append ps (q ∷ [])),
      )
]

length-reindex : (n : ℕ) (ps : List RemediationPlan) → length (reindex n ps) ≡ length ps
unfolding reindex
length-reindex n [] = refl
length-reindex n (p ∷ ps) = omega (arith, length-reindex (suc n) ps)

length-normalised :
    (ps : List RemediationPlan) (context : IncidentContext) (cluster : Option (List String))
    → length (normalised ps context cluster) ≤ length ps
unfolding normalised
length-normalised [] context cluster = omega arith
length-normalised (p ∷ ps) context cluster =
    let later = length-normalised ps context cluster in
    elim (Option-cases (normalise_plan p context cluster)) [
      | inl e ↦ rw (normalised, length, e) (omega arith)
      | inr (q, e) ↦ rw (normalised, length, e) (omega arith)
    ]

-- The plans that are left, their inverses too, have the ids and the indices from 0 on in their
-- order, and there are no more of them than candidates; where a plan that does nothing is asked for,
-- there is one, and at most one plan more than there were candidates.
pub normalise_plans-IsBallot :
    (ps : List RemediationPlan) (context : IncidentContext) (cluster : Option (List String))
    → (NumberedFrom 0 (normalise_plans ps context cluster false)
        × (length (normalise_plans ps context cluster false) ≤ length ps))
      × IsBallot (normalise_plans ps context cluster true)
      × (length (normalise_plans ps context cluster true) ≤ suc (length ps))
unfolding normalise_plans
normalise_plans-IsBallot ps context cluster =
    let kept = normalised ps context cluster in
    let numbered = reindex-NumberedFrom 0 kept in
    let (ballot, long) =
      ensure_no_action_candidate-IsBallot (reindex 0 kept) context cluster numbered in
    let shorter = length-normalised ps context cluster in
    let same = length-reindex 0 kept in ((numbered, omega arith), ballot, omega arith)
