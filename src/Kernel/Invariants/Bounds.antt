-- ===== src/Kernel/Invariants/Bounds.antt =====
-- What the formulas of the numeric invariants mean: where one holds in a model of the assertions,
-- the facts satisfy the bounds that the invariant's docstring states.
use understudy.Common.{
  String, true, false, ◌&&◌, List, [], ◌∷◌, ℤ, pos, neg, ◌+ℤ◌, ◌≤ℤ◌, leb_ℤ, leb→le, none, Ratio,
  ◌≤ʳ◌, leb_ratio, ratio-le_of_eq, ◌≡◌, refl, ◌⊎◌, inl, inr, member, ap, &&-left, &&-right,
}
use understudy.Contracts.Enums.{is_no_action}
use understudy.Contracts.Plan.{RemediationPlan, header}
use understudy.Kernel.Facts.{FactName, plain, sub, Fact, int, real}
use understudy.Kernel.Term.{Term, lit, plus, ge, le, Model, holds, z3_and}
use understudy.Kernel.Context.{
  Host, has_fact, lookup_fact, is_some, as_int, as_float, int_const, real_const,
}
use understudy.Kernel.Context.Rules.{
  int_kind, float_kind, ReadsAs, Agrees, Triple, Triple-pure, Triple-bind, Triple-int_const,
  Triple-real_const, Triple-if, Known, Known-bind, Known-gets,
}
use understudy.Kernel.Invariants.{
  get_plan, asks_fact, mutated_services, delta_or_zero, scales, restarts, mutation_budget,
  evidence_sufficiency,
}

-- The fact `n` is the integer `v`.
abbrev pub HasInt : List Fact → FactName → ℤ → Type 0
HasInt = ReadsAs as_int

-- The change of the desired and of the healthy replicas of `svc`: the scale delta, or a rolling
-- restart's maxUnavailable (1 where the facts give none), or nothing.
pub record Deltas (p : RemediationPlan) (fs : List Fact) (svc : String) (d : ℤ × ℤ) : Type 0 where
  pub scaling :
      scales p svc ≡ true
      → d ≡ (
        delta_or_zero (header p).params.replica_delta,
        delta_or_zero (header p).params.replica_delta,
      )
  pub restarting :
      scales p svc ≡ false
      → restarts p svc ≡ true
      → (u : ℤ) × (d ≡ (pos 0, neg u))
        × (HasInt fs (sub "max_unavailable" svc) u
            ⊎ ((lookup_fact (sub "max_unavailable" svc) fs ≡ none) × (u ≡ pos 1)))
  pub idle : scales p svc ≡ false → restarts p svc ≡ false → d ≡ (pos 0, pos 0)

-- The replicas of `svc` that are desired and healthy stay at least its minimum under the plan.
pub record FloorAt (p : RemediationPlan) (fs : List Fact) (svc : String) : Type 0 where
  pub min_reps : ℤ
  pub reps : ℤ
  pub healthy_reps : ℤ
  pub deltas : ℤ × ℤ
  pub is_min : HasInt fs (sub "min_replicas" svc) min_reps
  pub is_reps : HasInt fs (sub "replicas" svc) reps
  pub is_healthy : HasInt fs (sub "healthy_replicas" svc) healthy_reps
  pub is_deltas : Deltas p fs svc deltas
  pub desired_above : min_reps ≤ℤ reps +ℤ deltas.0
  pub healthy_above : min_reps ≤ℤ healthy_reps +ℤ deltas.1

abbrev pub ReplicaFloor : RemediationPlan → List Fact → Type 0
ReplicaFloor p fs = (svc : String) → member svc (mutated_services p) ≡ true → FloorAt p fs svc

-- Either the plan does nothing, or one more mutation stays within the budget.
abbrev pub WithinBudget : RemediationPlan → List Fact → Type 0
WithinBudget p fs =
    (is_no_action (header p).action ≡ true)
    ⊎ ((done : ℤ) × (budget : ℤ) × HasInt fs (plain "prod_mutations_in_window") done
        × HasInt fs (plain "mutation_budget") budget
        × (done +ℤ pos 1 ≤ℤ budget))

-- The evidence is fresh, dense and of high fidelity.
abbrev pub EvidenceSuffices : Ratio → ℤ → Ratio → List Fact → Type 0
EvidenceSuffices max_age min_samples ceiling fs =
    (age : Ratio) × (samples : ℤ) × (drop : Ratio) × ReadsAs as_float fs
      (plain "evidence_age_seconds") age
    × HasInt fs (plain "probe_sample_count") samples
    × ReadsAs as_float fs (plain "max_drop_ratio") drop
    × (age ≤ʳ max_age)
    × (min_samples ≤ℤ samples)
    × (drop ≤ʳ ceiling)

module _ (h : Host) (fs : List Fact) (pl : RemediationPlan) (m : Model) where
  pub Known-get_plan : Known h fs pl m (λ p. p ≡ pl) get_plan
  Known-get_plan = Known-gets h fs pl m (λ p. p ≡ pl) (λ c. c.plan) (λ c i. i.plan)

  pub Known-asks_fact :
      (n : FactName) → Known h fs pl m (λ b. b ≡ is_some (lookup_fact n fs)) (asks_fact n)
  unfolding has_fact
  Known-asks_fact n =
      Known-gets h fs pl m (λ b. b ≡ is_some (lookup_fact n fs)) (λ c. has_fact c n)
        (λ c i. ap (λ g. is_some (lookup_fact n g)) i.facts)

  within-budget :
      (t u : Term) (p : RemediationPlan)
      → Agrees h fs pl m int_kind (plain "mutation_budget") u
      → Agrees h fs pl m int_kind (plain "prod_mutations_in_window") t
      → holds m (le (plus t (lit (int (pos 1)))) u) ≡ true
      → WithinBudget p fs
  within-budget t u p (w, rw', ew) (v, rv, ev) e =
      inr (v, w, rv, rw', leb→le _ _ (rw (ev, ew) at e))

  pub mutation_budget-Triple :
      Triple h fs pl m (λ f. holds m f ≡ true → WithinBudget pl fs) mutation_budget
  unfolding mutation_budget
  mutation_budget-Triple = Known-bind h fs pl m _ _ get_plan _ Known-get_plan λ p same.
      Triple-if h fs pl m _ (is_no_action (header p).action) _ _
        (λ e. Triple-pure h fs pl m _ _ (λ _. inl (rw (← same) e)))
        λ _.
          Triple-bind h fs pl m _ _ (int_const (plain "prod_mutations_in_window")) _
            (Triple-int_const h fs pl m (plain "prod_mutations_in_window") refl)
            λ t.
              Triple-bind h fs pl m _ _ (int_const (plain "mutation_budget")) _
                (Triple-int_const h fs pl m (plain "mutation_budget") refl)
                λ u. Triple-pure h fs pl m _ _ (within-budget t u pl)

  evidence-suffices :
      (a s d : Term) (max_age : Ratio) (min_samples : ℤ) (ceiling : Ratio)
      → Agrees h fs pl m float_kind (plain "max_drop_ratio") d
      → Agrees h fs pl m int_kind (plain "probe_sample_count") s
      → Agrees h fs pl m float_kind (plain "evidence_age_seconds") a
      → holds m (
          z3_and (
            le a (lit (real max_age))
            ∷ ge s (lit (int min_samples))
            ∷ le d (lit (real ceiling))
            ∷ []))
        ≡ true
      → EvidenceSuffices max_age min_samples ceiling fs
  evidence-suffices a s d max_age min_samples ceiling (vd, qd, rd, ed, sd) (vs, rs, es)
        (va, qa, ra, ea, sa) e =
      let e' : (leb_ratio qa max_age && (leb_ℤ min_samples vs && (leb_ratio qd ceiling && true)))
          ≡ true =
        rw (ea, es, ed) at e in
      let tail = &&-right (leb_ratio qa max_age) _ e' in
      (
        va,
        vs,
        vd,
        ra,
        rs,
        rd,
        leb→le _ _ (ratio-le_of_eq qa va max_age sa (&&-left _ _ e')),
        leb→le _ _ (&&-left _ _ tail),
        leb→le _ _ (
            ratio-le_of_eq qd vd ceiling sd (&&-left _ _ (&&-right (leb_ℤ min_samples vs) _ tail))),
      )

  pub evidence_sufficiency-Triple :
      (max_age : Ratio) (min_samples : ℤ) (ceiling : Ratio)
      → Triple h fs pl m
          (λ f. holds m f ≡ true → EvidenceSuffices max_age min_samples ceiling fs)
          (evidence_sufficiency max_age min_samples ceiling)
  unfolding evidence_sufficiency
  evidence_sufficiency-Triple max_age min_samples ceiling =
      Triple-bind h fs pl m _ _ (real_const (plain "evidence_age_seconds")) _
        (Triple-real_const h fs pl m (plain "evidence_age_seconds") refl)
        λ a.
          Triple-bind h fs pl m _ _ (int_const (plain "probe_sample_count")) _
            (Triple-int_const h fs pl m (plain "probe_sample_count") refl)
            λ s.
              Triple-bind h fs pl m _ _ (real_const (plain "max_drop_ratio")) _
                (Triple-real_const h fs pl m (plain "max_drop_ratio") refl)
                λ d. Triple-pure h fs pl m _ _ (evidence-suffices a s d max_age min_samples ceiling)
