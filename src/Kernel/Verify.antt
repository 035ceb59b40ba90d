-- ===== src/Kernel/Verify.antt =====
-- src/understudy/kernel/verify.py: `verify`. Wall-clock readings enter as `elapsed`, one for each
-- round of the loop, in microseconds. The texts of the reasons are data; `solver_ms` is a measured
-- time and is left out.
pub mod Passing
pub mod Catalogue
pub mod Meaning
use understudy.Common.{
  ◌<>◌, ℕ, zero, suc, ◌+◌, ◌-◌, ◌*◌, ◌/◌, String, Bool, true, false, ◌||◌, Option, none, some, List,
  [], ◌∷◌, ◌++◌, map, is_empty, length, if◌then◌else◌, ◌==◌, set_of, sorted, of_ℤ,
}
use understudy.Contracts.Enums.{
  KernelVerdictType, pass, veto, uncertain, InvariantTier, proof, runtime,
}
use understudy.Contracts.Plan.{RemediationPlan, header}
use understudy.Kernel.Facts.{FactName, plain, sub, name_eq, Fact}
use understudy.Kernel.Term.{Formula, negation, Model, CheckResult, unsat, sat, unknown, Solver}
use understudy.Kernel.Context.{
  Host, Context, new_context, Outcome, ok, missing, type_error, value_error, not_implemented,
  Action,
}
use understudy.Kernel.Invariants.{
  replica_floor, migration_boundary, mutation_budget, evidence_sufficiency,
  default_max_evidence_age, default_min_probe_samples, default_mirror_drop_ceiling,
}
use understudy.Kernel.Targets.{namespace_scope, single_writer, reversibility}
use understudy.Kernel.Blast.{blast_containment}

pub record Invariant : Type 0 where
  pub id : String
  pub tier : InvariantTier
  pub build : Action Formula

abbrev pub of_proof : String → Action Formula → Invariant
of_proof n b = record { id = n; tier = proof; build = b }

-- K6 and K10 are not proved in SMT: their `build` raises NotImplementedError.
abbrev pub runtime_only : String → Invariant
runtime_only n = record { id = n; tier = runtime; build = λ c. (not_implemented, c) }

-- PROOF_INVARIANTS
unfoldable pub proof_invariants : List Invariant
proof_invariants =
    of_proof "K1" replica_floor
    ∷ of_proof "K2" namespace_scope
    ∷ of_proof "K3" migration_boundary
    ∷ of_proof "K4" blast_containment
    ∷ of_proof "K5" single_writer
    ∷ of_proof "K7" mutation_budget
    ∷ of_proof "K8" (
        evidence_sufficiency default_max_evidence_age default_min_probe_samples
          default_mirror_drop_ceiling)
    ∷ of_proof "K9" reversibility
    ∷ []

pub data Reason : Type 0 where
  timed_out : Reason
  missing_facts_for : List String → Reason
  solver_unknown : Reason
  counterexample : String → Model → Reason
  discharged : String → Reason
  all_safe : ℕ → Reason

pub record InvariantResult : Type 0 where
  pub invariant_id : String
  pub tier : InvariantTier
  pub satisfied : Option Bool
  pub reason : Reason

pub record KernelVerdict : Type 0 where
  pub incident_id : String
  pub plan_id : String
  pub verdict : KernelVerdictType
  pub results : List InvariantResult
  pub missing_facts : List String
  pub human_reason : Reason
  pub evaluated_at : Option ℕ

-- The text of a fact's name.
abbrev pub name_text : FactName → String
name_text (plain s) = s
name_text (sub b k) = b <> "[" <> k <> "]"

-- `sorted(dict.fromkeys(missing_facts + ctx.missing_facts))`
unfoldable pub all_missing : List FactName → Context → List String
all_missing miss c = sorted (set_of (map name_text (miss ++ c.missing_accessed)))

-- `if m not in missing_facts: missing_facts.append(m)`
abbrev pub noted : FactName → List FactName → Bool
noted n [] = false
noted n (k ∷ ks) = name_eq n k || noted n ks

abbrev pub note_missing : FactName → List FactName → List FactName
note_missing n miss = if noted n miss then miss else miss ++ n ∷ []

abbrev pub result_of : Invariant → Option Bool → Reason → InvariantResult
result_of inv s r = record { invariant_id = inv.id; tier = inv.tier; satisfied = s; reason = r }

module _ (check : Solver) (elapsed : ℕ → ℕ) (timeout_ms : ℕ) (incident : String) (now : ℕ) where
  abbrev pub conclude :
      KernelVerdictType
      → Reason
      → List InvariantResult
      → List FactName
      → Context
      → Outcome KernelVerdict
  conclude v r results miss c = ok (record {
    incident_id = incident;
    plan_id = (header c.plan).plan_id;
    verdict = v;
    results = results;
    missing_facts = all_missing miss c;
    human_reason = r;
    evaluated_at = some now;
  })

  -- `int(timeout_ms - elapsed_sec * 1000)`, which is 0 here where it is not positive.
  abbrev pub remaining_ms : ℕ → ℕ
  remaining_ms k = (timeout_ms * 1000 - elapsed k) / 1000

  abbrev pub Rest : Type 0
  Rest = Context → List InvariantResult → List FactName → Outcome KernelVerdict

  -- What an answer of the solver leads to; `rest` goes on with the next invariant.
  unfoldable pub on_check :
      Invariant
      → CheckResult
      → Rest
      → Context
      → List InvariantResult
      → List FactName
      → Outcome KernelVerdict
  on_check inv unsat rest c results miss =
      rest c (results ++ result_of inv (some true) (discharged inv.id) ∷ []) miss
  on_check inv (sat m) rest c results miss =
      let refuted = results ++ result_of inv (some false) (counterexample inv.id m) ∷ [] in
      if is_empty (all_missing miss c)
      then conclude veto (counterexample inv.id m) refuted miss c
      else rest c refuted miss
  on_check inv unknown rest c results miss =
      let undecided = results ++ result_of inv none solver_unknown ∷ [] in
      conclude uncertain
        (if is_empty (all_missing miss c)
          then solver_unknown
          else missing_facts_for (all_missing miss c))
        undecided miss c

  -- MissingFact is caught; TypeError, ValueError and NotImplementedError leave `verify`.
  unfoldable pub on_build :
      Invariant
      → ℕ
      → Outcome Formula
      → Rest
      → Context
      → List InvariantResult
      → List FactName
      → Outcome KernelVerdict
  unfolding on_check
  on_build inv t (ok f) rest c results miss =
      on_check inv (check t (c.assertions ++ negation f ∷ [])) rest c results miss
  on_build inv t (missing n) rest c results miss =
      rest c (results ++ result_of inv none (missing_facts_for (name_text n ∷ [])) ∷ [])
        (note_missing n miss)
  on_build inv t type_error rest c results miss = type_error
  on_build inv t value_error rest c results miss = value_error
  on_build inv t not_implemented rest c results miss = not_implemented

  unfoldable pub verify_from :
      ℕ → List Invariant → Context → List InvariantResult → List FactName → Outcome KernelVerdict
  unfolding on_build
  verify_from k [] c results miss =
      if is_empty (all_missing miss c)
      then conclude pass (all_safe (length results)) results miss c
      else conclude uncertain (missing_facts_for (all_missing miss c)) results miss c
  verify_from k (inv ∷ rest) c results miss =
      if remaining_ms k == 0
      then conclude uncertain timed_out results miss c
      else on_build inv (remaining_ms k) (inv.build c).0 (verify_from (suc k) rest) (inv.build c).1
          results miss

  unfoldable pub verify :
      Host → List Invariant → RemediationPlan → List Fact → Outcome KernelVerdict
  unfolding verify_from
  verify h invs p facts = verify_from 0 invs (new_context h p facts) [] []
