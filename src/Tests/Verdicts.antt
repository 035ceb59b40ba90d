-- ===== src/Tests/Verdicts.antt =====
-- A verdict on a plan that does nothing, with a solver that refutes the negation of a literal truth.
use understudy.Common.{
  Bool, true, false, ◌||◌, none, List, [], ◌∷◌, pos, ◌≡◌, refl, All, Bool-cases, inl, inr,
  if◌then◌else◌, arith, set_of, sorted,
}
use understudy.Contracts.Enums.{no_action, pass}
use understudy.Contracts.Plan.{RemediationPlan, irreversible, planner, params_for}
use understudy.Kernel.Term.{
  Formula, constant, negation, Model, holds, holds_all, unsat, unknown, Solver, IsSound,
}
use understudy.Kernel.Context.{Host, Outcome, ok, ◌>>=◌}
use understudy.Kernel.Context.Rules.{fact_model}
use understudy.Kernel.Invariants.{mutation_budget}
use understudy.Kernel.Invariants.Bounds.{WithinBudget, mutation_budget-Triple}
use understudy.Kernel.Verify.{
  Invariant, of_proof, KernelVerdict, verify, verify_from, on_build, on_check, all_missing,
  timed_out,
}
use understudy.Kernel.Verify.Passing.{verify-passes}

abbrev is_refuted : Formula → Bool
is_refuted (negation (constant b)) = b
is_refuted _ = false

abbrev any_refuted : List Formula → Bool
any_refuted [] = false
any_refuted (f ∷ fs) = is_refuted f || any_refuted fs

abbrev refuter : Solver
refuter t fs = if any_refuted fs then unsat else unknown

is_refuted-fails : (m : Model) (f : Formula) → is_refuted f ≡ true → holds m f ≡ false
is_refuted-fails m (negation (constant true)) e = refl
is_refuted-fails m (negation (constant false)) e = cc
is_refuted-fails m f e = cc

any_refuted-fails : (m : Model) (fs : List Formula) → any_refuted fs ≡ true → holds_all m fs ≡ false
any_refuted-fails m [] e = cc
any_refuted-fails m (f ∷ fs) e = elim (Bool-cases (is_refuted f)) [
  | inl q ↦ rw (is_refuted-fails m f q) refl
  | inr q ↦ let rest = any_refuted-fails m fs (rw q at e) in ground arith
]

refuter-IsSound : IsSound refuter
refuter-IsSound = record {
  unsat_sound = λ t fs m e. elim (Bool-cases (any_refuted fs)) [
    | inl q ↦ any_refuted-fails m fs q
    | inr q ↦ let e' = rw q at e in absurd cc
  ];
  sat_sound = λ t fs m e. elim (Bool-cases (any_refuted fs)) [
    | inl q ↦ let e' = rw q at e in absurd cc
    | inr q ↦ let e' = rw q at e in absurd cc
  ];
}

abbrev host : Host
host = record { show = λ _. ""; fromisoformat = λ _. none }

abbrev idle : RemediationPlan
idle = irreversible (record {
  plan_id = "p0";
  candidate_index = pos 0;
  action = no_action;
  params = params_for "checkout";
  target_resources = [];
  declared_blast_set = [];
  rationale = "";
  origin = planner;
  playbook_id = none;
})

abbrev budget_only : List Invariant
budget_only = of_proof "K7" mutation_budget ∷ []

abbrev verdict_of : Outcome KernelVerdict → KernelVerdict
verdict_of (ok v) = v
verdict_of _ = record {
  incident_id = "";
  plan_id = "";
  verdict = pass;
  results = [];
  missing_facts = [];
  human_reason = timed_out;
  evaluated_at = none;
}

abbrev run_verdict : Outcome KernelVerdict
run_verdict = verify refuter (λ _. 0) 5000 "inc_1" 9 host budget_only idle []

verify-passes_example : All (λ _. WithinBudget idle []) budget_only
unfolding verify verify_from on_build on_check all_missing set_of sorted mutation_budget ◌>>=◌
verify-passes_example =
    verify-passes refuter refuter-IsSound (λ _. 0) 5000 "inc_1" 9 host idle []
      (λ _. WithinBudget idle []) budget_only
      (mutation_budget-Triple host [] idle (fact_model host []), tt) (verdict_of run_verdict) refl
      refl
