-- ===== src/Planner/Normalise/Survivors.antt =====
-- All plans that src/understudy/planner/validate.py leaves.
use understudy.Common.{
  ℕ, suc, String, Bool, true, false, Option, none, some, List, [], ◌∷◌, ◌⊎◌, inl, inr, ◌≡◌, refl,
  Bool-cases, Option-cases, All, All-append, if◌then◌else◌, not, ◌&&◌, is_empty, str_eq, member,
  ◌<>◌, length,
}
use understudy.Contracts.Plan.{RemediationPlan, irreversible, reversible, header, inverse, planner}
use understudy.Contracts.Incident.{IncidentContext}
use understudy.Planner.Normalise.{
  plan_with, with_id, reindex, reindexed_inverse, normalised, normalise_plan, normalise_plans,
  valid_workloads_of, does_nothing, ensure_no_action_candidate, create_no_action_plan, any,
}
use understudy.Planner.Prompt.{cand_id}
use understudy.Planner.Normalise.Grounded.{
  IsGrounded, Mirrors, header-plan_with, normalise_plan-IsGrounded,
}

module _ (context : IncidentContext) (cluster : Option (List String)) where
  -- The plan changes nothing, or it is grounded in the environment.
  abbrev pub Survives : RemediationPlan → Type 0
  Survives q = (does_nothing q ≡ true) ⊎ IsGrounded context (valid_workloads_of context cluster) q

  normalise_plan-Survives :
      (p q : RemediationPlan) → normalise_plan p context cluster ≡ some q → Survives q
  unfolding normalise_plan
  normalise_plan-Survives p q e = elim (Bool-cases (does_nothing p)) [
    | inr a ↦ let g = normalise_plan-IsGrounded p q context cluster a e in inr g.4
    | inl a ↦ inl (idle a (rw a at e))
  ]
    where
      idle :
          does_nothing p ≡ true
          → (if not (is_empty (header p).declared_blast_set)
              then none
              else if not (str_eq (header p).params.workload "")
                  && not (member (header p).params.workload (valid_workloads_of context cluster))
              then none
              else some p)
            ≡ some q
          → does_nothing q ≡ true
      idle a e = elim (Bool-cases (is_empty (header p).declared_blast_set)) [
        | inr b ↦ let e' = rw b at e in absurd cc
        | inl b ↦
            elim (Bool-cases (
              not (str_eq (header p).params.workload "")
              && not (member (header p).params.workload (valid_workloads_of context cluster)))) [
                | inl w ↦ let e' = rw (b, w) at e in absurd cc
                | inr w ↦ let e' = rw (b, w) at e in let same : p ≡ q = cc in rw (← same) a
              ]
      ]

  normalised-Survives : (ps : List RemediationPlan) → All Survives (normalised ps context cluster)
  unfolding normalised
  normalised-Survives [] = tt
  normalised-Survives (p ∷ ps) =
      let later = normalised-Survives ps in
      elim (Option-cases (normalise_plan p context cluster)) [
        | inl e ↦ rw (normalised, e) later
        | inr (q, e) ↦ rw (normalised, e) (normalise_plan-Survives p q e, later)
      ]

  -- Numbering changes only the ids and the indices.
  numbered-IsGrounded :
      (valid : List String) (n : ℕ) (q : RemediationPlan)
      → IsGrounded context valid q
      → IsGrounded context valid
          (plan_with (with_id (cand_id n) n (header q)) (reindexed_inverse n (inverse q)))
  numbered-IsGrounded valid n (irreversible p) g = let (inv, e, m) = g.inverts in absurd cc
  numbered-IsGrounded valid n (reversible p i) g =
      let (inv, e, m) = g.inverts in
      let same : i ≡ inv = cc in
      record {
        workload = g.workload;
        resources = g.resources;
        commit = g.commit;
        known = g.known;
        blast = g.blast;
        inverts = (
          plan_with (with_id (cand_id n <> "_inv") n (header i)) (inverse i),
          refl,
          renamed i inv same m,
        );
      }
    where
      renamed :
          (i inv : RemediationPlan)
          → i ≡ inv
          → Mirrors (reversible p i) inv
          → Mirrors
              (reversible
                (with_id (cand_id n) n p)
                (plan_with (with_id (cand_id n <> "_inv") n (header i)) (inverse i)))
              (plan_with (with_id (cand_id n <> "_inv") n (header i)) (inverse i))
      renamed i inv same m =
          rw (header-plan_with (with_id (cand_id n <> "_inv") n (header i)) (inverse i)) (rw same m)

  reindex-Survives :
      (n : ℕ) (ps : List RemediationPlan) → All Survives ps → All Survives (reindex n ps)
  unfolding reindex
  reindex-Survives n [] h = tt
  reindex-Survives n (p ∷ ps) (inl a, rest) = (inl (idle p a), reindex-Survives (suc n) ps rest)
    where
      idle :
          (p : RemediationPlan)
          → does_nothing p ≡ true
          → does_nothing
              (plan_with (with_id (cand_id n) n (header p)) (reindexed_inverse n (inverse p)))
            ≡ true
      idle p a =
          rw (header-plan_with (with_id (cand_id n) n (header p)) (reindexed_inverse n (inverse p)))
            a
  reindex-Survives n (p ∷ ps) (inr g, rest) = (
    inr (numbered-IsGrounded (valid_workloads_of context cluster) n p g),
    reindex-Survives (suc n) ps rest,
  )

  pub ensure_no_action_candidate-Survives :
      (ps : List RemediationPlan)
      → All Survives ps
      → All Survives (ensure_no_action_candidate ps context cluster planner)
  unfolding ensure_no_action_candidate create_no_action_plan
  ensure_no_action_candidate-Survives ps h = elim (Bool-cases (any does_nothing ps)) [
    | inl e ↦ rw e h
    | inr e ↦
        let q =
          create_no_action_plan context (length ps) none planner cluster
            "Maintain current state without automated mutation" in
        rw e (All-append Survives ps (q ∷ []) h (inl refl, tt))
  ]

  -- Every plan that is left after the candidates were held against the environment and numbered
  -- changes nothing, or is grounded: its workload, its resources, its commit and the services that
  -- it declares exist, and it has an inverse that mirrors it.
  pub normalise_plans-Survives :
      (ps : List RemediationPlan) (ensure_no_action : Bool)
      → All Survives (normalise_plans ps context cluster ensure_no_action)
  unfolding normalise_plans
  normalise_plans-Survives ps false =
      reindex-Survives 0 (normalised ps context cluster) (normalised-Survives ps)
  normalise_plans-Survives ps true =
      ensure_no_action_candidate-Survives (reindex 0 (normalised ps context cluster))
        (reindex-Survives 0 (normalised ps context cluster) (normalised-Survives ps))
