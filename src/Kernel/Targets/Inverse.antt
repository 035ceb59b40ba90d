-- ===== src/Kernel/Targets/Inverse.antt =====
-- What the formula of K9 means: the plan has an inverse, and both touch the same targets.
use mathlib.Core.Path.{subst₂}
use understudy.Common.{
  String, Bool, true, false, ◌&&◌, ◌||◌, List, [], ◌∷◌, ◌++◌, map, is_empty, str_eq, eq_iff,
  if◌then◌else◌, ◌≡◌, refl, ◌⊎◌, inl, inr, arith, Bool-cases, member, sorted, set_of, union,
  member-set_of, member-union, member-sorted, sym, ◌∙◌, &&-left, &&-right, pos, length,
}
use understudy.Contracts.Enums.{is_no_action}
use understudy.Contracts.Plan.{RemediationPlan, header}
use understudy.Kernel.Facts.{plain, Fact, Scalar, int}
use understudy.Kernel.Term.{Term, lit, eq, truth, Formula, constant, Model, holds, z3_and, z3_or}
use understudy.Kernel.Context.{Host, as_bool, as_set, bool_const, get_set}
use understudy.Kernel.Context.Rules.{
  bool_kind, ReadsAs, Agrees, Triple, Triple-pure, Triple-bind, Triple-bool_const, Triple-if,
  Known-bind, Known-get_set,
}
use understudy.Kernel.Invariants.{get_plan}
use understudy.Kernel.Invariants.Bounds.{Known-get_plan}
use understudy.Kernel.Targets.{
  get_host, canonical_target, refs_of, inverse_refs, equals_each, contained, reversibility,
}
use understudy.Kernel.Targets.Scope.{Known-get_host}
use understudy.Kernel.Targets.Overlap.{holds-append}

-- The targets of the plan: those that the facts give, and those that it names itself.
abbrev pub has_target : Host → RemediationPlan → List Scalar → String → Bool
has_target h p raw t =
    member t (map (canonical_target h) raw) || member t (refs_of (header p).target_resources)

abbrev pub has_inverse_target : Host → RemediationPlan → List Scalar → String → Bool
has_inverse_target h p raw t = member t (map (canonical_target h) raw) || member t (inverse_refs p)

-- The plan does nothing, or it has an inverse that touches exactly its own targets.
abbrev pub Reversible : Host → RemediationPlan → List Fact → Type 0
Reversible h p fs =
    (is_no_action (header p).action ≡ true)
    ⊎ ((targets : List Scalar) × (inverse_targets : List Scalar) × ReadsAs as_bool fs
          (plain "plan_has_inverse") true
        × ReadsAs as_set fs (plain "plan_targets") targets
        × ReadsAs as_set fs (plain "inverse_targets") inverse_targets
        × ((t : String) → has_target h p targets t ≡ has_inverse_target h p inverse_targets t))

holds-equals_each :
    (m : Model) (p : String) (is : List String) → holds m (z3_or (equals_each p is)) ≡ member p is
holds-equals_each m p [] = refl
holds-equals_each m p (i ∷ is) = ground (arith, holds-equals_each m p is)

member-of-condition :
    (m : Model) (p : String) (inside : List String)
    → holds m (if is_empty inside then constant false else z3_or (equals_each p (sorted inside)))
      ≡ true
    → member p inside ≡ true
member-of-condition m p [] e = cc
member-of-condition m p (i ∷ is) e =
    sym (member-sorted p (i ∷ is)) ∙ sym (holds-equals_each m p (sorted (i ∷ is))) ∙ e

pub contained-member :
    (m : Model) (ps inside : List String)
    → holds m (z3_and (contained ps inside)) ≡ true
    → (t : String) → member t ps ≡ true
    → member t inside ≡ true
contained-member m [] inside e t k = cc
contained-member m (p ∷ ps) inside e t k = elim (Bool-cases (str_eq t p)) [
  | inl q ↦ rw ((eq_iff t p).0 q) (member-of-condition m p inside (&&-left _ _ e))
  | inr q ↦ contained-member m ps inside (&&-right (holds m (first p inside)) _ e) t (rw q at k)
]
  where
    first : String → List String → Formula
    first p inside =
        if is_empty inside then constant false else z3_or (equals_each p (sorted inside))

same-truth : (a b : Bool) → (a ≡ true → b ≡ true) → (b ≡ true → a ≡ true) → a ≡ b
same-truth true b f g = sym (f refl)
same-truth false true f g = g refl
same-truth false false f g = refl

-- The formula over two sets says that they have the same members.
abbrev equality : Term → List String → List String → Formula
equality has_inverse mine inv = z3_and (
    (truth has_inverse
      ∷ eq (lit (int (pos (length inv)))) (lit (int (pos (length mine))))
      ∷ contained (sorted mine) inv)
    ++ contained (sorted inv) mine)

module _ (m : Model) (t : Term) (mine inv : List String)
    (e : holds m (equality t mine inv) ≡ true) where
  both :
      (holds m (
          z3_and (
            truth t
            ∷ eq (lit (int (pos (length inv)))) (lit (int (pos (length mine))))
            ∷ contained (sorted mine) inv))
        && holds m (z3_and (contained (sorted inv) mine)))
      ≡ true
  both =
      sym (
        holds-append m
          (truth t
            ∷ eq (lit (int (pos (length inv)))) (lit (int (pos (length mine))))
            ∷ contained (sorted mine) inv)
          (contained (sorted inv) mine))
      ∙ e

  forward : holds m (z3_and (contained (sorted mine) inv)) ≡ true
  forward = ground (arith, both)

  backward : holds m (z3_and (contained (sorted inv) mine)) ≡ true
  backward = ground (arith, both)

  inverse-there : holds m (truth t) ≡ true
  inverse-there = ground (arith, both)

  same-members : (x : String) → member x mine ≡ member x inv
  same-members x =
      same-truth (member x mine) (member x inv)
        (λ k. contained-member m (sorted mine) inv forward x (member-sorted x mine ∙ k))
        (λ k. contained-member m (sorted inv) mine backward x (member-sorted x inv ∙ k))

module _ (h : Host) (fs : List Fact) (pl : RemediationPlan) (m : Model) where
  abbrev mine_of : RemediationPlan → Host → List Scalar → List String
  mine_of p g raw =
      union (set_of (map (canonical_target g) raw)) (refs_of (header p).target_resources)

  abbrev inverse_of : RemediationPlan → Host → List Scalar → List String
  inverse_of p g raw = union (set_of (map (canonical_target g) raw)) (inverse_refs p)

  reversible :
      (t : Term) (raw inv : List Scalar)
      → ReadsAs as_set fs (plain "plan_targets") raw
      → ReadsAs as_set fs (plain "inverse_targets") inv
      → Agrees h fs pl m bool_kind (plain "plan_has_inverse") t
      → holds m (equality t (mine_of pl h raw) (inverse_of pl h inv)) ≡ true
      → Reversible h pl fs
  reversible t raw inv rr ri (v, rv, ev) e =
      let there = inverse-there m t (mine_of pl h raw) (inverse_of pl h inv) e in
      let v_true : v ≡ true = rw ev at there in
      inr (
        raw,
        inv,
        rw v_true at rv,
        rr,
        ri,
        λ x.
            sym (
              member-union x (set_of (map (canonical_target h) raw))
                (refs_of (header pl).target_resources)
              ∙ rw (member-set_of x (map (canonical_target h) raw)))
            ∙ same-members m t (mine_of pl h raw) (inverse_of pl h inv) e x
            ∙ member-union x (set_of (map (canonical_target h) inv)) (inverse_refs pl)
            ∙ rw (member-set_of x (map (canonical_target h) inv)),
      )

  pub reversibility-Triple :
      Triple h fs pl m (λ f. holds m f ≡ true → Reversible h pl fs) reversibility
  unfolding reversibility
  reversibility-Triple = Known-bind h fs pl m _ _ get_plan _ (Known-get_plan h fs pl m) λ p same.
      Triple-if h fs pl m _ (is_no_action (header p).action) _ _
        (λ e. Triple-pure h fs pl m _ _ (λ _. inl (rw (← same) e)))
        λ _.
          Triple-bind h fs pl m _ _ (bool_const (plain "plan_has_inverse")) _
            (Triple-bool_const h fs pl m (plain "plan_has_inverse") refl)
            λ t.
              Known-bind h fs pl m _ _ (get_set (plain "plan_targets")) _
                (Known-get_set h fs pl m (plain "plan_targets"))
                λ raw rr.
                  Known-bind h fs pl m _ _ (get_set (plain "inverse_targets")) _
                    (Known-get_set h fs pl m (plain "inverse_targets"))
                    λ inv ri.
                      Known-bind h fs pl m _ _ get_host _ (Known-get_host h fs pl m) λ g same_host.
                        Triple-pure h fs pl m _ _ (λ a e. reversible t raw inv rr ri a (
                          subst₂
                            (λ q x.
                              holds m (equality t (mine_of q x raw) (inverse_of q x inv)) ≡ true)
                            same same_host e))
