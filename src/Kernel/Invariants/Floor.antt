-- ===== src/Kernel/Invariants/Floor.antt =====
-- What the formula of K1 means: every Deployment that the plan names keeps its replica floor.
use understudy.Common.{
  String, true, false, ◌&&◌, List, [], ◌∷◌, ℤ, pos, ◌+ℤ◌, leb_ℤ, leb→le, none, is_empty, ◌≡◌, refl,
  ◌⊎◌, inl, inr, arith, All, All-member, sorted, member-sorted, empty-member, ◌∙◌, &&-left,
  &&-right,
}
use understudy.Contracts.Plan.{RemediationPlan}
use understudy.Kernel.Facts.{FactName, sub, Fact, int}
use understudy.Kernel.Term.{Term, lit, plus, Formula, ge, Model, holds, z3_and}
use understudy.Kernel.Context.{Host, lookup_fact, is_some, int_const}
use understudy.Kernel.Context.Rules.{
  int_kind, Agrees, Triple, Triple-pure, Triple-bind, Triple-int_const, Triple-if, Known-bind,
  Known-get_int, Triple-weaken, Known-Triple,
}
use understudy.Kernel.Invariants.{
  get_plan, asks_fact, mutated_services, scales, restarts, max_unavailable, replica_deltas,
  floor_condition, floor_conditions, conjunction, replica_floor,
}
use understudy.Kernel.Invariants.Bounds.{
  HasInt, Deltas, FloorAt, ReplicaFloor, Known-get_plan, Known-asks_fact,
}

pub holds-conjunction :
    (m : Model) (fs : List Formula) → holds m (conjunction fs) ≡ true → holds m (z3_and fs) ≡ true
holds-conjunction m [] e = refl
holds-conjunction m (f ∷ []) e = rw e
holds-conjunction m (f ∷ g ∷ fs) e = e

-- What the facts say of maxUnavailable, with its default.
abbrev Unavailable : List Fact → String → ℤ → Type 0
Unavailable fs svc u =
    HasInt fs (sub "max_unavailable" svc) u
    ⊎ ((lookup_fact (sub "max_unavailable" svc) fs ≡ none) × (u ≡ pos 1))

module _ (h : Host) (fs : List Fact) (pl : RemediationPlan) (m : Model) where
  absent : (n : FactName) → false ≡ is_some (lookup_fact n fs) → lookup_fact n fs ≡ none
  absent n e = ground arith

  Triple-max_unavailable :
      (svc : String) → Triple h fs pl m (Unavailable fs svc) (max_unavailable svc)
  unfolding max_unavailable
  Triple-max_unavailable svc =
      Known-bind h fs pl m _ _ (asks_fact (sub "max_unavailable" svc)) _
        (Known-asks_fact h fs pl m (sub "max_unavailable" svc))
        λ b e.
          Triple-if h fs pl m (Unavailable fs svc) b _ _
            (λ _.
              Triple-weaken h fs pl m (HasInt fs (sub "max_unavailable" svc)) _ _ (λ u r. inl r)
                (Known-Triple h fs pl m _ _ (Known-get_int h fs pl m (sub "max_unavailable" svc))))
            (λ is_false. Triple-pure h fs pl m _ _ (inr (absent _ (rw (← is_false) e), refl)))

  Triple-replica_deltas :
      (p : RemediationPlan) (svc : String)
      → Triple h fs pl m (Deltas p fs svc) (replica_deltas p svc)
  unfolding replica_deltas
  Triple-replica_deltas p svc =
      Triple-if h fs pl m _ (scales p svc) _ _
        (λ s.
          Triple-pure h fs pl m _ _
            (record { scaling = λ _. refl; restarting = λ e. cc; idle = λ e. cc }))
        λ s.
          Triple-if h fs pl m _ (restarts p svc) _ _
            (λ r.
              Triple-bind h fs pl m _ _ (max_unavailable svc) _ (Triple-max_unavailable svc) λ u.
                Triple-pure h fs pl m _ _ λ a. record {
                  scaling = λ e. cc;
                  restarting = λ _ _. (u, refl, a);
                  idle = λ _ e. cc;
                })
            λ r.
              Triple-pure h fs pl m _ _
                (record { scaling = λ e. cc; restarting = λ _ e. cc; idle = λ _ _. refl })

  floor-at :
      (p : RemediationPlan) (svc : String) (a b c : Term) (d : ℤ × ℤ)
      → Deltas p fs svc d
      → Agrees h fs pl m int_kind (sub "healthy_replicas" svc) c
      → Agrees h fs pl m int_kind (sub "replicas" svc) b
      → Agrees h fs pl m int_kind (sub "min_replicas" svc) a
      → holds m (z3_and (ge (plus b (lit (int d.0))) a ∷ ge (plus c (lit (int d.1))) a ∷ [])) ≡ true
      → FloorAt p fs svc
  floor-at p svc a b c d deltas (vc, rc, ec) (vb, rb, eb) (va, ra, ea) e =
      let e' : (leb_ℤ va (vb +ℤ d.0) && (leb_ℤ va (vc +ℤ d.1) && true)) ≡ true =
        rw (ea, eb, ec) at e in
      record {
        min_reps = va;
        reps = vb;
        healthy_reps = vc;
        deltas = d;
        is_min = ra;
        is_reps = rb;
        is_healthy = rc;
        is_deltas = deltas;
        desired_above = leb→le _ _ (&&-left _ _ e');
        healthy_above = leb→le _ _ (&&-left _ _ (&&-right (leb_ℤ va (vb +ℤ d.0)) _ e'));
      }

  Triple-floor_condition :
      (p : RemediationPlan) (svc : String)
      → Triple h fs pl m (λ f. holds m f ≡ true → FloorAt p fs svc) (floor_condition p svc)
  unfolding floor_condition
  Triple-floor_condition p svc =
      Triple-bind h fs pl m _ _ (int_const (sub "min_replicas" svc)) _
        (Triple-int_const h fs pl m (sub "min_replicas" svc) refl)
        λ a.
          Triple-bind h fs pl m _ _ (int_const (sub "replicas" svc)) _
            (Triple-int_const h fs pl m (sub "replicas" svc) refl)
            λ b.
              Triple-bind h fs pl m _ _ (int_const (sub "healthy_replicas" svc)) _
                (Triple-int_const h fs pl m (sub "healthy_replicas" svc) refl)
                λ c.
                  Triple-bind h fs pl m _ _ (replica_deltas p svc) _ (Triple-replica_deltas p svc)
                    λ d. Triple-pure h fs pl m _ _ (floor-at p svc a b c d)

  Triple-floor_conditions :
      (p : RemediationPlan) (services : List String)
      → Triple h fs pl m
          (λ gs. holds m (z3_and gs) ≡ true → All (FloorAt p fs) services)
          (floor_conditions p services)
  unfolding floor_conditions
  Triple-floor_conditions p [] = Triple-pure h fs pl m _ _ (λ _. tt)
  Triple-floor_conditions p (svc ∷ rest) =
      Triple-bind h fs pl m _ _ (floor_condition p svc) _ (Triple-floor_condition p svc) λ f.
        Triple-bind h fs pl m _ _ (floor_conditions p rest) _ (Triple-floor_conditions p rest) λ gs.
          Triple-pure h fs pl m _ _
            (λ all one e. (one (&&-left _ _ e), all (&&-right (holds m f) _ e)))

  pub replica_floor-Triple :
      Triple h fs pl m (λ f. holds m f ≡ true → ReplicaFloor pl fs) replica_floor
  unfolding replica_floor
  replica_floor-Triple = Known-bind h fs pl m _ _ get_plan _ (Known-get_plan h fs pl m) λ p same.
      Triple-if h fs pl m _ (is_empty (mutated_services p)) _ _
        (λ e.
          Triple-pure h fs pl m _ _
            (λ _ svc k. absurd (empty-member svc (mutated_services p) e (rw same k))))
        λ _.
          Triple-bind h fs pl m _ _ (floor_conditions p (sorted (mutated_services p))) _
            (Triple-floor_conditions p (sorted (mutated_services p)))
            λ gs. Triple-pure h fs pl m _ _ λ all e svc k. rw (← same) (
              All-member (FloorAt p fs) svc (sorted (mutated_services p))
                (all (holds-conjunction m gs e))
                (member-sorted svc (mutated_services p) ∙ rw same k))
