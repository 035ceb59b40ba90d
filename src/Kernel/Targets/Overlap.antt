-- ===== src/Kernel/Targets/Overlap.antt =====
-- What the formula of K5 means: no target of the plan is a target of a plan in flight.
use mathlib.Core.Path.{subst₂}
use understudy.Common.{
  String, Bool, true, false, not, ◌&&◌, ◌||◌, List, [], ◌∷◌, ◌++◌, is_empty, str_eq, eq_iff,
  if◌then◌else◌, some, ◌≡◌, refl, ◌⊎◌, inl, inr, arith, Bool-cases, member, sorted, set_of, union,
  member-set_of, member-union, member-sorted, empty-member, sym, ◌∙◌, &&-left, &&-right,
}
use understudy.Contracts.Enums.{is_no_action}
use understudy.Contracts.Plan.{RemediationPlan, header}
use understudy.Kernel.Facts.{plain, Fact, FactValue, FactName}
use understudy.Kernel.Term.{Formula, constant, Model, holds, z3_and}
use understudy.Kernel.Context.{Host, pure, lookup_fact, is_some, get_raw}
use understudy.Kernel.Context.Rules.{Triple, Triple-pure, Triple-if, Known-bind, Known-get_raw}
use understudy.Kernel.Invariants.{get_plan, asks_fact, conjunction}
use understudy.Kernel.Invariants.Bounds.{Known-get_plan, Known-asks_fact}
use understudy.Kernel.Invariants.Floor.{holds-conjunction}
use understudy.Kernel.Targets.{
  get_host, canonical_items, refs_of, all_differ, all_pairs_differ, single_writer,
}
use understudy.Kernel.Targets.Scope.{Known-get_host}

-- The fact `n` has the value `v`.
abbrev pub Holds : List Fact → FactName → FactValue → Type 0
Holds fs n v = (f : Fact) × (lookup_fact n fs ≡ some f) × (f.value ≡ v)

abbrev is_vacuous : RemediationPlan → List Fact → Bool
is_vacuous p fs =
    is_no_action (header p).action
    && not (is_some (lookup_fact (plain "plan_targets") fs))
    && not (is_some (lookup_fact (plain "in_flight_plan_targets") fs))
    && is_empty (header p).target_resources

-- The targets that the facts and the plan name, and the targets in flight, have nothing in common;
-- a plan that does nothing, names nothing and has no such facts is let through.
abbrev pub SingleWriter : Host → RemediationPlan → List Fact → Type 0
SingleWriter h p fs =
    (is_vacuous p fs ≡ true)
    ⊎ ((mine : FactValue) × (others : FactValue) × Holds fs (plain "plan_targets") mine
        × Holds fs (plain "in_flight_plan_targets") others
        × ((t : String)
            → (member t (canonical_items h mine) || member t (refs_of (header p).target_resources))
              ≡ true
            → member t (canonical_items h others) ≡ false))

pub holds-append :
    (m : Model) (fs gs : List Formula)
    → holds m (z3_and (fs ++ gs)) ≡ (holds m (z3_and fs) && holds m (z3_and gs))
holds-append m [] gs = refl
holds-append m (f ∷ fs) gs = ground (arith, holds-append m fs gs)

differs :
    (m : Model) (p t : String) (fs : List String)
    → holds m (z3_and (all_differ p fs)) ≡ true
    → member t fs ≡ true
    → str_eq t p ≡ false
differs m p t [] e k = cc
differs m p t (f ∷ fs) e k = ground (arith, eq_iff p f, eq_iff t f, eq_iff t p, differs m p t fs)

pairs-differ :
    (m : Model) (t : String) (ps fs : List String)
    → holds m (z3_and (all_pairs_differ ps fs)) ≡ true
    → member t ps ≡ true
    → member t fs ≡ true
    → ⊥
pairs-differ m t [] fs e k l = cc
pairs-differ m t (p ∷ ps) fs e k l =
    let both = sym (holds-append m (all_differ p fs) (all_pairs_differ ps fs)) ∙ e in
    elim (Bool-cases (str_eq t p)) [
      | inl q ↦ let no = differs m p t fs (&&-left _ _ both) l in cc
      | inr q ↦
          pairs-differ m t ps fs (&&-right (holds m (z3_and (all_differ p fs))) _ both) (rw q at k)
            l
    ]

not-true : (b : Bool) → (b ≡ true → ⊥) → b ≡ false
not-true true f = absurd (f refl)
not-true false f = refl

module _ (h : Host) (fs : List Fact) (pl : RemediationPlan) (m : Model) where
  abbrev mine_of : FactValue → List String
  mine_of v = union (set_of (canonical_items h v)) (refs_of (header pl).target_resources)

  member-mine :
      (t : String) (v : FactValue)
      → member t (mine_of v)
        ≡ (member t (canonical_items h v) || member t (refs_of (header pl).target_resources))
  member-mine t v =
      member-union t (set_of (canonical_items h v)) (refs_of (header pl).target_resources)
      ∙ rw (member-set_of t (canonical_items h v))

  disjoint :
      (v w : FactValue)
      → Holds fs (plain "plan_targets") v
      → Holds fs (plain "in_flight_plan_targets") w
      → ((t : String)
          → member t (mine_of v) ≡ true
          → member t (set_of (canonical_items h w)) ≡ true
          → ⊥)
      → SingleWriter h pl fs
  disjoint v w rv r f = inr (
    v,
    w,
    rv,
    r,
    λ t k.
        not-true (member t (canonical_items h w))
          (λ l. f t (member-mine t v ∙ k) (member-set_of t (canonical_items h w) ∙ l)),
  )

  tail :
      (v w : FactValue)
      → Holds fs (plain "plan_targets") v
      → Holds fs (plain "in_flight_plan_targets") w
      → Triple h fs pl m
          (λ f. holds m f ≡ true → SingleWriter h pl fs)
          (if is_empty (mine_of v) || is_empty (set_of (canonical_items h w))
            then pure (constant true)
            else pure (
                conjunction
                  (all_pairs_differ (sorted (mine_of v)) (sorted (set_of (canonical_items h w))))))
  tail v w rv r =
      Triple-if h fs pl m _ (is_empty (mine_of v) || is_empty (set_of (canonical_items h w))) _ _
        (λ e. Triple-pure h fs pl m _ _ λ _. disjoint v w rv r λ t k l.
          elim (Bool-cases (is_empty (mine_of v))) [
            | inl q ↦ empty-member t (mine_of v) q k
            | inr q ↦ empty-member t (set_of (canonical_items h w)) (rw q at e) l
          ])
        λ _. Triple-pure h fs pl m _ _ λ e. disjoint v w rv r λ t k l.
          pairs-differ m t (sorted (mine_of v)) (sorted (set_of (canonical_items h w)))
            (holds-conjunction m
              (all_pairs_differ (sorted (mine_of v)) (sorted (set_of (canonical_items h w)))) e)
            (member-sorted t (mine_of v) ∙ k) (member-sorted t (set_of (canonical_items h w)) ∙ l)

  pub single_writer-Triple :
      Triple h fs pl m (λ f. holds m f ≡ true → SingleWriter h pl fs) single_writer
  unfolding single_writer
  single_writer-Triple = Known-bind h fs pl m _ _ get_plan _ (Known-get_plan h fs pl m) λ p same.
      Known-bind h fs pl m _ _ (asks_fact (plain "plan_targets")) _
        (Known-asks_fact h fs pl m (plain "plan_targets"))
        λ a ea.
          Known-bind h fs pl m _ _ (asks_fact (plain "in_flight_plan_targets")) _
            (Known-asks_fact h fs pl m (plain "in_flight_plan_targets"))
            λ b eb.
              Triple-if h fs pl m _ _ _ _
                (λ e. Triple-pure h fs pl m _ _ (λ _. inl (vacuous p a b same ea eb e)))
                λ _.
                  Known-bind h fs pl m _ _ (get_raw (plain "plan_targets")) _
                    (Known-get_raw h fs pl m (plain "plan_targets"))
                    λ v rv.
                      Known-bind h fs pl m _ _ (get_raw (plain "in_flight_plan_targets")) _
                        (Known-get_raw h fs pl m (plain "in_flight_plan_targets"))
                        λ w r.
                          Known-bind h fs pl m _ _ get_host _ (Known-get_host h fs pl m)
                            λ g same_host.
                              subst₂
                                (λ q x.
                                  Triple h fs pl m (λ f. holds m f ≡ true → SingleWriter h pl fs)
                                    (let mine =
                                        union (set_of (canonical_items x v))
                                          (refs_of (header q).target_resources) in
                                      let others = set_of (canonical_items x w) in
                                      if is_empty mine || is_empty others
                                      then pure (constant true)
                                      else pure (
                                          conjunction
                                            (all_pairs_differ (sorted mine) (sorted others)))))
                                (sym same) (sym same_host) (tail v w rv r)
    where
      vacuous :
          (p : RemediationPlan) (a b : Bool)
          → p ≡ pl
          → a ≡ is_some (lookup_fact (plain "plan_targets") fs)
          → b ≡ is_some (lookup_fact (plain "in_flight_plan_targets") fs)
          → (is_no_action (header p).action
              && not a
              && not b
              && is_empty (header p).target_resources)
            ≡ true
          → is_vacuous pl fs ≡ true
      vacuous p a b same ea eb e = rw (← same, ← ea, ← eb) e
