-- ===== src/Kernel/Blast/Contained.antt =====
-- What the formula of K4 means: what was observed was declared, and what was declared is a target
-- or depends on one.
use mathlib.Core.Path.{subst}
use understudy.Common.{
  ℕ, zero, suc, String, Bool, true, false, not, ◌&&◌, ◌||◌, List, [], ◌∷◌, ◌++◌, map, is_empty,
  keep, str_eq, eq_iff, none, ◌≡◌, refl, ◌⊎◌, inl, inr, arith, Bool-cases, add, member, sorted,
  set_of, union, member-add, member-set_of, member-union, member-sorted, sym, ◌∙◌, ap, &&-left,
  &&-right, strip,
}
use understudy.Contracts.Enums.{is_no_action}
use understudy.Contracts.Plan.{RemediationPlan, header}
use understudy.Kernel.Facts.{FactName, plain, sub, Fact, Scalar, FactValue}
use understudy.Kernel.Term.{Formula, Model, holds, z3_and}
use understudy.Kernel.Context.{Host, ◌>>=◌, lookup_fact, is_some, as_set, get_set, get_raw}
use understudy.Kernel.Context.Rules.{
  ReadsAs, Triple, Triple-pure, Triple-if, Known, Known-bind, Known-seq, Known-pure, Known-if,
  Known-gets, Known-get_set, Known-get_raw,
}
use understudy.Kernel.Invariants.{get_plan, asks_fact, conjunction}
use understudy.Kernel.Invariants.Bounds.{Known-get_plan, Known-asks_fact}
use understudy.Kernel.Invariants.Floor.{holds-conjunction}
use understudy.Kernel.Targets.{get_host, contained}
use understudy.Kernel.Targets.Scope.{Known-get_host}
use understudy.Kernel.Targets.Overlap.{holds-append, Holds}
use understudy.Kernel.Targets.Inverse.{contained-member}
use understudy.Kernel.Blast.{
  stripped, plan_services, add_fact_targets, target_services, direct_callers, all_callers, get_fuel,
  blast_containment,
}

-- The services that the plan mutates, as the plan and the fact `plan_targets` name them.
abbrev pub TargetServices : Host → RemediationPlan → List Fact → List String → Type 0
TargetServices h p fs targets =
    ((lookup_fact (plain "plan_targets") fs ≡ none) × (targets ≡ plan_services p))
    ⊎ ((raw : FactValue) × Holds fs (plain "plan_targets") raw
        × (targets ≡ add_fact_targets h raw (plan_services p)))

-- A target, or a service that the facts list among the dependents of an affected one.
pub data IsAffected (h : Host) (fs : List Fact) (targets : List String) : String → Type 0 where
  target : {t : String} → member t targets ≡ true → IsAffected h fs targets t
  caller :
      (s : String) (deps : List Scalar) {t : String}
      → IsAffected h fs targets s
      → ReadsAs as_set fs (sub "dependents" s) deps
      → member t (stripped h deps) ≡ true
      → IsAffected h fs targets t

abbrev is_vacuous : RemediationPlan → List Fact → Bool
is_vacuous p fs =
    is_no_action (header p).action
    && not (is_some (lookup_fact (plain "declared_blast_set") fs))
    && not (is_some (lookup_fact (plain "observed_blast_set") fs))
    && is_empty (header p).declared_blast_set

-- The service is declared by the fact or by the plan.
abbrev pub is_declared : Host → RemediationPlan → List Scalar → String → Bool
is_declared h p raw t =
    member t (stripped h raw) || member t (map strip (header p).declared_blast_set)

abbrev pub BlastContained : Host → RemediationPlan → List Fact → Type 0
BlastContained h p fs =
    (is_vacuous p fs ≡ true)
    ⊎ ((declared : List Scalar) × (observed : List Scalar) × (targets : List String) × ReadsAs
          as_set fs (plain "declared_blast_set") declared
        × ReadsAs as_set fs (plain "observed_blast_set") observed
        × TargetServices h p fs targets
        × ((t : String) → member t (stripped h observed) ≡ true → is_declared h p declared t ≡ true)
        × ((t : String) → is_declared h p declared t ≡ true → IsAffected h fs targets t))

module _ (h : Host) (fs : List Fact) (pl : RemediationPlan) (m : Model)
    (targets : List String) where
  -- Every member of the list is affected.
  abbrev Sound : List String → Type 0
  Sound xs = (t : String) → member t xs ≡ true → IsAffected h fs targets t

  Sound-add :
      (x : String) (xs : List String) → IsAffected h fs targets x → Sound xs → Sound (add x xs)
  Sound-add x xs a s t k = elim (Bool-cases (str_eq t x)) [
    | inl q ↦ rw ((eq_iff t x).0 q) a
    | inr q ↦ s t (ground (arith, member-add t x xs))
  ]

  Sound-union : (xs ys : List String) → Sound xs → Sound ys → Sound (union xs ys)
  Sound-union xs ys s r t k = elim (Bool-cases (member t xs)) [
    | inl q ↦ s t q
    | inr q ↦ r t (ground (arith, member-union t xs ys))
  ]

  member-append :
      (t : String) (xs ys : List String) → member t (xs ++ ys) ≡ (member t xs || member t ys)
  member-append t [] ys = refl
  member-append t (x ∷ xs) ys = ground (arith, member-append t xs ys)

  Sound-append : (xs ys : List String) → Sound xs → Sound ys → Sound (xs ++ ys)
  Sound-append xs ys s r t k = elim (Bool-cases (member t xs)) [
    | inl q ↦ s t q
    | inr q ↦ r t (ground (arith, member-append t xs ys))
  ]

  member-keep :
      (p : String → Bool) (t : String) (xs : List String)
      → member t (keep p xs) ≡ true
      → member t xs ≡ true
  member-keep p t [] k = k
  member-keep p t (x ∷ xs) k = elim (Bool-cases (p x)) [
    | inl q ↦ elim (Bool-cases (str_eq t x)) [
      | inl e ↦ rw e
      | inr e ↦ rw e (member-keep p t xs (rw (q, e) at k))
    ]
    | inr q ↦ let rest = member-keep p t xs (rw q at k) in ground arith
  ]

  Sound-deps :
      (s : String) (deps : List Scalar)
      → IsAffected h fs targets s
      → ReadsAs as_set fs (sub "dependents" s) deps
      → (g : Host) → g ≡ h
      → Sound (stripped g deps)
  Sound-deps s deps a r g e t k =
      caller s deps a r (subst (λ x. member t (stripped x deps) ≡ true) e k)

  Known-direct_callers :
      (services reachable queue : List String)
      → Sound services
      → Sound reachable
      → Sound queue
      → Known h fs pl m (λ d. Sound d.0 × Sound d.1) (direct_callers services reachable queue)
  unfolding direct_callers
  Known-direct_callers [] reachable queue s r q = Known-pure h fs pl m _ _ (r, q)
  Known-direct_callers (svc ∷ rest) reachable queue s r q =
      let here : IsAffected h fs targets svc = s svc (rw ((eq_iff svc svc).1 refl)) in
      Known-seq h fs pl m _ _ (get_set (sub "dependents" svc)) _
        (Known-get_set h fs pl m (sub "dependents" svc))
        λ deps rd. Known-seq h fs pl m _ _ get_host _ (Known-get_host h fs pl m) λ g e.
          Known-direct_callers rest (union (add svc reachable) (stripped g deps))
            (queue ++ stripped g deps) (λ t k. s t (ground arith))
            (Sound-union _ _ (Sound-add svc reachable here r) (Sound-deps svc deps here rd g e))
            (Sound-append queue _ q (Sound-deps svc deps here rd g e))

  Known-all_callers :
      (fuel : ℕ) (visited queue reachable : List String)
      → Sound queue
      → Sound reachable
      → Known h fs pl m Sound (all_callers fuel visited queue reachable)
  unfolding all_callers
  Known-all_callers zero visited queue reachable q r = Known-pure h fs pl m _ _ r
  Known-all_callers (suc fuel) visited [] reachable q r = Known-pure h fs pl m _ _ r
  Known-all_callers (suc fuel) visited (curr ∷ queue) reachable q r =
      let here : IsAffected h fs targets curr = q curr (rw ((eq_iff curr curr).1 refl)) in
      let rest : Sound queue = λ t k. q t (ground arith) in
      elim (Bool-cases (member curr visited)) [
        | inl seen ↦ rw (seen, all_callers) (Known-all_callers fuel visited queue reachable rest r)
        | inr new ↦
            rw (new, all_callers)
              (Known-seq h fs pl m _ _ (asks_fact (sub "dependents" curr)) _
                (Known-asks_fact h fs pl m (sub "dependents" curr))
                λ b _.
                  by_known b here rest
                    (Known-all_callers fuel (add curr visited) queue (add curr reachable) rest
                      (Sound-add curr reachable here r))
                    (λ more grown sm sg.
                      Known-all_callers fuel (add curr visited) more grown sm sg))
      ]
    where
      by_known :
          (b : Bool)
          → IsAffected h fs targets curr
          → Sound queue
          → Known h fs pl m Sound (all_callers fuel (add curr visited) queue (add curr reachable))
          → ((more grown : List String)
              → Sound more
              → Sound grown
              → Known h fs pl m Sound (all_callers fuel (add curr visited) more grown))
          → Known h fs pl m Sound (elim b [
            | true ↦
                (get_set (sub "dependents" curr) >>= λ deps. get_host >>= λ g.
                all_callers fuel
                  (add curr visited)
                  (queue ++ keep (λ d. not (member d (add curr visited))) (stripped g deps))
                  (union (add curr reachable) (stripped g deps)))
            | false ↦ all_callers fuel (add curr visited) queue (add curr reachable)
          ])
      by_known true here rest alone next =
          Known-seq h fs pl m _ _ (get_set (sub "dependents" curr)) _
            (Known-get_set h fs pl m (sub "dependents" curr))
            λ deps rd. Known-seq h fs pl m _ _ get_host _ (Known-get_host h fs pl m) λ g e.
              next (queue ++ keep (λ d. not (member d (add curr visited))) (stripped g deps))
                (union (add curr reachable) (stripped g deps))
                (Sound-append queue _ rest
                  (λ t k. Sound-deps curr deps here rd g e t (member-keep _ t (stripped g deps) k)))
                (Sound-union _ _ (Sound-add curr reachable here r)
                  (Sound-deps curr deps here rd g e))
      by_known false here rest alone next = alone

module _ (h : Host) (fs : List Fact) (pl : RemediationPlan) (m : Model) where
  absent : (n : FactName) → false ≡ is_some (lookup_fact n fs) → lookup_fact n fs ≡ none
  absent n e = ground arith

  Known-target_services : Known h fs pl m (TargetServices h pl fs) (target_services pl)
  unfolding target_services
  Known-target_services =
      Known-seq h fs pl m _ _ (asks_fact (plain "plan_targets")) _
        (Known-asks_fact h fs pl m (plain "plan_targets"))
        λ b e.
          Known-if h fs pl m _ b _ _
            (λ _.
              Known-seq h fs pl m _ _ (get_raw (plain "plan_targets")) _
                (Known-get_raw h fs pl m (plain "plan_targets"))
                λ raw r. Known-seq h fs pl m _ _ get_host _ (Known-get_host h fs pl m) λ g same.
                  Known-pure h fs pl m _ _
                    (inr (raw, r, ap (λ x. add_fact_targets x raw (plan_services pl)) same)))
            (λ is_false. Known-pure h fs pl m _ _ (inl (absent _ (rw (← is_false) e), refl)))

  abbrev declared_of : Host → List Scalar → List String
  declared_of g raw = union (set_of (stripped g raw)) (map strip (header pl).declared_blast_set)

  member-declared :
      (t : String) (raw : List Scalar) → member t (declared_of h raw) ≡ is_declared h pl raw t
  member-declared t raw =
      member-union t (set_of (stripped h raw)) (map strip (header pl).declared_blast_set)
      ∙ rw (member-set_of t (stripped h raw))

  abbrev conditions : Host → List Scalar → List Scalar → List String → List Formula
  conditions g raw obs reachable =
      contained (sorted (set_of (stripped g obs))) (declared_of g raw)
      ++ contained (sorted (declared_of g raw)) reachable

  blast-contained :
      (raw obs : List Scalar) (targets reachable : List String)
      → ReadsAs as_set fs (plain "declared_blast_set") raw
      → ReadsAs as_set fs (plain "observed_blast_set") obs
      → ((t : String) → member t reachable ≡ true → IsAffected h fs targets t)
      → TargetServices h pl fs targets
      → holds m (conjunction (conditions h raw obs reachable)) ≡ true
      → BlastContained h pl fs
  blast-contained raw obs targets reachable rr ro sound is_targets e =
      let first = contained (sorted (set_of (stripped h obs))) (declared_of h raw) in
      let second = contained (sorted (declared_of h raw)) reachable in
      let both =
        sym (holds-append m first second)
        ∙ holds-conjunction m (conditions h raw obs reachable) e in
      inr (
        raw,
        obs,
        targets,
        rr,
        ro,
        is_targets,
        λ t k.
            sym (member-declared t raw)
            ∙ contained-member m (sorted (set_of (stripped h obs))) (declared_of h raw)
                (&&-left _ _ both) t
                (member-sorted t (set_of (stripped h obs)) ∙ member-set_of t (stripped h obs) ∙ k),
        λ t k. sound t (
            contained-member m (sorted (declared_of h raw)) reachable
              (&&-right (holds m (z3_and first)) _ both) t
              (member-sorted t (declared_of h raw) ∙ member-declared t raw ∙ k)),
      )

  none_yet : (targets : List String) (t : String) → member t [] ≡ true → IsAffected h fs targets t
  none_yet targets t k = cc

  members_targets :
      (targets : List String) (t : String)
      → member t (sorted targets) ≡ true
      → IsAffected h fs targets t
  members_targets targets t k = target (sym (member-sorted t targets) ∙ k)

  pub blast_containment-Triple :
      Triple h fs pl m (λ f. holds m f ≡ true → BlastContained h pl fs) blast_containment
  unfolding blast_containment
  blast_containment-Triple =
      Known-bind h fs pl m _ _ get_plan _ (Known-get_plan h fs pl m) λ p same. rw same (
        Known-bind h fs pl m _ _ (asks_fact (plain "declared_blast_set")) _
          (Known-asks_fact h fs pl m (plain "declared_blast_set"))
          λ a ea.
            Known-bind h fs pl m _ _ (asks_fact (plain "observed_blast_set")) _
              (Known-asks_fact h fs pl m (plain "observed_blast_set"))
              λ b eb.
                Triple-if h fs pl m _ _ _ _
                  (λ e. Triple-pure h fs pl m _ _ (λ _. inl (rw (← ea, ← eb) e)))
                  λ _.
                    Known-bind h fs pl m _ _ (get_set (plain "declared_blast_set")) _
                      (Known-get_set h fs pl m (plain "declared_blast_set"))
                      λ raw rr.
                        Known-bind h fs pl m _ _ (get_set (plain "observed_blast_set")) _
                          (Known-get_set h fs pl m (plain "observed_blast_set"))
                          λ obs ro.
                            Known-bind h fs pl m _ _ get_host _ (Known-get_host h fs pl m) λ g host.
                              Known-bind h fs pl m _ _ (target_services pl) _ Known-target_services
                                λ targets is_targets.
                                  Known-bind h fs pl m _ _ (direct_callers (sorted targets) [] []) _
                                    (Known-direct_callers h fs pl m targets (sorted targets) [] []
                                      (members_targets targets) (none_yet targets)
                                      (none_yet targets))
                                    λ direct sound.
                                      Known-bind h fs pl m (λ _. Unit {0}) _ (get_fuel direct.1) _
                                        (Known-gets h fs pl m (λ _. Unit {0}) _ (λ c i. tt))
                                        λ fuel _.
                                          Known-bind h fs pl m _ _
                                            (all_callers fuel [] direct.1 direct.0) _
                                            (Known-all_callers h fs pl m targets fuel [] direct.1
                                              direct.0 sound.1 sound.0)
                                            λ reachable all. Triple-pure h fs pl m _ _ λ e.
                                              blast-contained raw obs targets reachable rr ro all
                                                is_targets
                                                (subst
                                                  (λ x.
                                                    holds m
                                                      (conjunction (conditions x raw obs reachable))
                                                    ≡ true)
                                                  host e))
