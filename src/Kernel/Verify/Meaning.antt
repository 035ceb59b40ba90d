-- ===== src/Kernel/Verify/Meaning.antt =====
-- The formulas of src/understudy/kernel/invariants as statements about the facts.
use understudy.Common.{true, List, ◌≡◌, refl}
use understudy.Contracts.Plan.{RemediationPlan}
use understudy.Kernel.Facts.{Fact}
use understudy.Kernel.Term.{Formula, holds}
use understudy.Kernel.Context.{Host, new_context, ok, Action}
use understudy.Kernel.Context.Rules.{fact_model, Triple, Inv}
use understudy.Kernel.Invariants.{
  replica_floor, migration_boundary, mutation_budget, evidence_sufficiency,
  default_max_evidence_age, default_min_probe_samples, default_mirror_drop_ceiling,
}
use understudy.Kernel.Targets.{namespace_scope, single_writer, reversibility}
use understudy.Kernel.Blast.{blast_containment}
use understudy.Kernel.Invariants.Bounds.{
  ReplicaFloor, WithinBudget, mutation_budget-Triple, evidence_sufficiency-Triple,
}
use understudy.Kernel.Invariants.Floor.{replica_floor-Triple}
use understudy.Kernel.Invariants.Migration.{MigrationBoundary, migration_boundary-Triple}
use understudy.Kernel.Targets.Scope.{NamespaceScope, namespace_scope-Triple}
use understudy.Kernel.Targets.Overlap.{SingleWriter, single_writer-Triple}
use understudy.Kernel.Targets.Inverse.{Reversible, reversibility-Triple}
use understudy.Kernel.Blast.Contained.{BlastContained, blast_containment-Triple}
use understudy.Kernel.Verify.Catalogue.{DefaultEvidence}

-- The formula that an invariant builds in a new context.
abbrev pub Builds : Host → RemediationPlan → List Fact → Action Formula → Formula → Type 0
Builds h p fs act f = (act (new_context h p fs)).0 ≡ ok f

means :
    (h : Host) (p : RemediationPlan) (fs : List Fact) (P : Type 0) (act : Action Formula)
    → Triple h fs p (fact_model h fs) (λ f. holds (fact_model h fs) f ≡ true → P) act
    → (f : Formula) → Builds h p fs act f
    → holds (fact_model h fs) f ≡ true
    → P
means h p fs P act t f b e =
    let good : Inv h fs p (fact_model h fs) (new_context h p fs) = record {
      facts = refl;
      host = refl;
      plan = refl;
      satisfiable = refl;
      bound = λ _. tt;
    } in
    let made = t.result (new_context h p fs) good (t.keeps (new_context h p fs) good).satisfiable in
    (rw b at made) e

-- If the formula that an invariant builds holds of the facts, then by K1: every service that the plan mutates keeps its minimum of replicas, desired and healthy, after
-- the plan's effect on them.
pub replica_floor-means :
    (h : Host) (p : RemediationPlan) (fs : List Fact) (f : Formula)
    → Builds h p fs replica_floor f
    → holds (fact_model h fs) f ≡ true
    → ReplicaFloor p fs
replica_floor-means h p fs =
    means h p fs (ReplicaFloor p fs) replica_floor (replica_floor-Triple h fs p (fact_model h fs))

-- If the formula that an invariant builds holds of the facts, then by K2: every namespace that the plan touches is the authorized one.
pub namespace_scope-means :
    (h : Host) (p : RemediationPlan) (fs : List Fact) (f : Formula)
    → Builds h p fs namespace_scope f
    → holds (fact_model h fs) f ≡ true
    → NamespaceScope h p fs
namespace_scope-means h p fs =
    means h p fs (NamespaceScope h p fs) namespace_scope
      (namespace_scope-Triple h fs p (fact_model h fs))

-- If the formula that an invariant builds holds of the facts, then by K3: the plan is no rollback,
-- or it goes to a commit no older than the last migration, and which holds none.
pub migration_boundary-means :
    (h : Host) (p : RemediationPlan) (fs : List Fact) (f : Formula)
    → Builds h p fs migration_boundary f
    → holds (fact_model h fs) f ≡ true
    → MigrationBoundary h p fs
migration_boundary-means h p fs =
    means h p fs (MigrationBoundary h p fs) migration_boundary
      (migration_boundary-Triple h fs p (fact_model h fs))

-- If the formula that an invariant builds holds of the facts, then by K4: the plan does nothing and
-- declares nothing, or what the rehearsal saw affected was declared, and what was declared is
-- affected through the dependency graph.
pub blast_containment-means :
    (h : Host) (p : RemediationPlan) (fs : List Fact) (f : Formula)
    → Builds h p fs blast_containment f
    → holds (fact_model h fs) f ≡ true
    → BlastContained h p fs
blast_containment-means h p fs =
    means h p fs (BlastContained h p fs) blast_containment
      (blast_containment-Triple h fs p (fact_model h fs))

-- If the formula that an invariant builds holds of the facts, then by K5: the plan does nothing to
-- nothing, or no target of the plan is a target of a mutation in flight.
pub single_writer-means :
    (h : Host) (p : RemediationPlan) (fs : List Fact) (f : Formula)
    → Builds h p fs single_writer f
    → holds (fact_model h fs) f ≡ true
    → SingleWriter h p fs
single_writer-means h p fs =
    means h p fs (SingleWriter h p fs) single_writer (single_writer-Triple h fs p (fact_model h fs))

-- If the formula that an invariant builds holds of the facts, then by K7: the plan does nothing, or one mutation more is within the budget.
pub mutation_budget-means :
    (h : Host) (p : RemediationPlan) (fs : List Fact) (f : Formula)
    → Builds h p fs mutation_budget f
    → holds (fact_model h fs) f ≡ true
    → WithinBudget p fs
mutation_budget-means h p fs =
    means h p fs (WithinBudget p fs) mutation_budget
      (mutation_budget-Triple h fs p (fact_model h fs))

-- If the formula that an invariant builds holds of the facts, then by K8: the evidence is fresh, dense and faithful enough.
pub evidence_sufficiency-means :
    (h : Host) (p : RemediationPlan) (fs : List Fact) (f : Formula)
    → Builds h p fs
        (evidence_sufficiency default_max_evidence_age default_min_probe_samples
          default_mirror_drop_ceiling)
        f
    → holds (fact_model h fs) f ≡ true
    → DefaultEvidence fs
evidence_sufficiency-means h p fs =
    means h p fs (DefaultEvidence fs)
      (evidence_sufficiency default_max_evidence_age default_min_probe_samples
        default_mirror_drop_ceiling)
      (evidence_sufficiency-Triple h fs p (fact_model h fs) default_max_evidence_age
        default_min_probe_samples default_mirror_drop_ceiling)

-- If the formula that an invariant builds holds of the facts, then by K9: the plan does nothing, or it has an inverse on exactly its own targets.
pub reversibility-means :
    (h : Host) (p : RemediationPlan) (fs : List Fact) (f : Formula)
    → Builds h p fs reversibility f
    → holds (fact_model h fs) f ≡ true
    → Reversible h p fs
reversibility-means h p fs =
    means h p fs (Reversible h p fs) reversibility (reversibility-Triple h fs p (fact_model h fs))
