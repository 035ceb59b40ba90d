-- ===== src/Kernel/Verify/Catalogue.antt =====
-- The guarantees of the eight PROOF invariants, and what a PASS verdict on all of them means.
use understudy.Common.{ℕ, String, true, List, str_eq, if◌then◌else◌, ◌≡◌}
use understudy.Contracts.Enums.{is_pass}
use understudy.Contracts.Plan.{RemediationPlan}
use understudy.Kernel.Facts.{Fact}
use understudy.Kernel.Term.{Solver, IsSound}
use understudy.Kernel.Context.{Host, ok}
use understudy.Kernel.Context.Rules.{fact_model}
use understudy.Kernel.Invariants.{
  default_max_evidence_age, default_min_probe_samples, default_mirror_drop_ceiling,
}
use understudy.Kernel.Invariants.Bounds.{
  ReplicaFloor, WithinBudget, EvidenceSuffices, mutation_budget-Triple, evidence_sufficiency-Triple,
}
use understudy.Kernel.Invariants.Floor.{replica_floor-Triple}
use understudy.Kernel.Invariants.Migration.{MigrationBoundary, migration_boundary-Triple}
use understudy.Kernel.Targets.Scope.{NamespaceScope, namespace_scope-Triple}
use understudy.Kernel.Targets.Overlap.{SingleWriter, single_writer-Triple}
use understudy.Kernel.Targets.Inverse.{Reversible, reversibility-Triple}
use understudy.Kernel.Blast.Contained.{BlastContained, blast_containment-Triple}
use understudy.Kernel.Verify.{KernelVerdict, proof_invariants, verify}
use understudy.Kernel.Verify.Passing.{verify-passes}

abbrev pub DefaultEvidence : List Fact → Type 0
DefaultEvidence =
    EvidenceSuffices default_max_evidence_age default_min_probe_samples default_mirror_drop_ceiling

abbrev Guarantee : Host → RemediationPlan → List Fact → String → Type 0
Guarantee h p fs k =
    if str_eq k "K1"
    then ReplicaFloor p fs
    else if str_eq k "K2"
    then NamespaceScope h p fs
    else if str_eq k "K3"
    then MigrationBoundary h p fs
    else if str_eq k "K4"
    then BlastContained h p fs
    else if str_eq k "K5"
    then SingleWriter h p fs
    else if str_eq k "K7"
    then WithinBudget p fs
    else if str_eq k "K8"
    then DefaultEvidence fs
    else Reversible h p fs

-- The eight properties together.
abbrev pub IsSafe : Host → RemediationPlan → List Fact → Type 0
IsSafe h p fs =
    ReplicaFloor p fs
    × NamespaceScope h p fs
    × MigrationBoundary h p fs
    × BlastContained h p fs
    × SingleWriter h p fs
    × WithinBudget p fs
    × DefaultEvidence fs
    × Reversible h p fs

-- With a solver whose answers are sound, whatever the clock readings and the timeout: if `verify`
-- with the eight PROOF invariants returns PASS, the facts keep every replica floor that the plan
-- touches (K1), all its namespaces are the authorized one (K2), a rollback stays after the last
-- migration (K3), what was observed was declared and what was declared is affected (K4), no target
-- is in flight (K5), one more mutation is in the budget (K7), the evidence is fresh, dense and
-- faithful (K8), and the inverse touches exactly the plan's targets (K9).
pub verify-pass-IsSafe :
    (check : Solver) (sound : IsSound check) (elapsed : ℕ → ℕ) (timeout_ms : ℕ) (incident : String)
    (now : ℕ) (h : Host) (p : RemediationPlan) (fs : List Fact) (v : KernelVerdict)
    → verify check elapsed timeout_ms incident now h proof_invariants p fs ≡ ok v
    → is_pass v.verdict ≡ true
    → IsSafe h p fs
unfolding proof_invariants
verify-pass-IsSafe check sound elapsed timeout_ms incident now h p fs v e passed =
    let m = fact_model h fs in
    let all =
      verify-passes check sound elapsed timeout_ms incident now h p fs
        (λ inv. Guarantee h p fs inv.id) proof_invariants
        (
          replica_floor-Triple h fs p m,
          (
            namespace_scope-Triple h fs p m,
            (
              migration_boundary-Triple h fs p m,
              (
                blast_containment-Triple h fs p m,
                (
                  single_writer-Triple h fs p m,
                  (
                    mutation_budget-Triple h fs p m,
                    (
                      evidence_sufficiency-Triple h fs p m default_max_evidence_age
                          default_min_probe_samples default_mirror_drop_ceiling,
                      (reversibility-Triple h fs p m, tt),
                    ),
                  ),
                ),
              ),
            ),
          ),
        )
        v e passed in
    (
      all.0, all.1.0, all.1.1.0, all.1.1.1.0, all.1.1.1.1.0, all.1.1.1.1.1.0, all.1.1.1.1.1.1.0,
      all.1.1.1.1.1.1.1.0,
    )
