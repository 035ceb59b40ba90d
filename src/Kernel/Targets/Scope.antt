-- ===== src/Kernel/Targets/Scope.antt =====
-- What the formula of K2 means: the namespaces that a plan touches are all the authorized one.
use mathlib.Core.Path.{subst₂}
use understudy.Common.{
  String, true, List, [], ◌∷◌, map, is_empty, str_eq, eq_iff, ◌≡◌, refl, ◌⊎◌, inl, inr, arith,
  Bool-cases, All, member, sorted, member-add, member-set_of, member-sorted, empty-member, sym, ◌∙◌,
  &&-left, &&-right,
}
use understudy.Contracts.Plan.{RemediationPlan, header, ResourceRef}
use understudy.Kernel.Facts.{plain, Fact, Scalar, str, scalar}
use understudy.Kernel.Term.{Term, eq, lit, eval, Model, holds, z3_and}
use understudy.Kernel.Context.{Host, as_str, as_set, get_set, string_const}
use understudy.Kernel.Context.Rules.{
  ReadsAs, Triple, Triple-pure, Triple-bind, Triple-string_const, Triple-if, Known, Known-bind,
  Known-gets, Known-get_set,
}
use understudy.Kernel.Invariants.{get_plan}
use understudy.Kernel.Invariants.Bounds.{Known-get_plan}
use understudy.Kernel.Invariants.Floor.{holds-conjunction}
use understudy.Kernel.Targets.{
  str_of, texts, get_host, add_namespaces, all_in_namespace, namespace_scope,
}

-- Every namespace of the facts, and every namespace that a target resource names, is `auth`.
abbrev pub NamespaceScope : Host → RemediationPlan → List Fact → Type 0
NamespaceScope h p fs =
    (auth : String) × (raw : List Scalar) × ReadsAs as_str fs (plain "authorized_namespace") auth
    × ReadsAs as_set fs (plain "plan_target_namespaces") raw
    × All (λ x. str_of h (scalar x) ≡ auth) raw
    × All (λ r. (r.namespace ≡ "") ⊎ (r.namespace ≡ auth)) (header p).target_resources

module _ (m : Model) (t : Term) where
  in-namespace :
      (auth : String)
      → eval m t ≡ str auth
      → (nss : List String) → holds m (z3_and (all_in_namespace t nss)) ≡ true
      → (ns : String) → member ns nss ≡ true
      → ns ≡ auth
  in-namespace auth e [] all ns k = cc
  in-namespace auth e (x ∷ xs) all ns k =
      let first : holds m (eq (lit (str x)) t) ≡ true = &&-left _ _ all in
      let here : x ≡ auth = (eq_iff x auth).0 (rw e at first) in
      elim (Bool-cases (str_eq ns x)) [
        | inl q ↦ (eq_iff ns x).0 q ∙ here
        | inr q ↦
            in-namespace auth e xs (&&-right (holds m (eq (lit (str x)) t)) _ all) ns (rw q at k)
      ]

member-add_namespaces_acc :
    (ns : String) (rs : List ResourceRef) (acc : List String)
    → member ns acc ≡ true
    → member ns (add_namespaces rs acc) ≡ true
unfolding add_namespaces
member-add_namespaces_acc ns [] acc k = k
member-add_namespaces_acc ns (r ∷ rs) acc k =
    member-add_namespaces_acc ns rs _ (ground (arith, member-add ns r.namespace acc))

-- Where every member of the set is `auth`, every resource names `auth` or nothing.
resources-in :
    (auth : String) (rs : List ResourceRef) (acc : List String)
    → ((ns : String) → member ns (add_namespaces rs acc) ≡ true → ns ≡ auth)
    → All (λ r. (r.namespace ≡ "") ⊎ (r.namespace ≡ auth)) rs
unfolding add_namespaces
resources-in auth [] acc f = tt
resources-in auth (r ∷ rs) acc f = (
  elim (Bool-cases (str_eq r.namespace "")) [
    | inl q ↦ inl ((eq_iff r.namespace "").0 q)
    | inr q ↦ inr (
        f r.namespace (
          member-add_namespaces_acc r.namespace rs _ (
            rw q (
              member-add r.namespace r.namespace acc
              ∙ rw ((eq_iff r.namespace r.namespace).1 refl)))))
  ],
  resources-in auth rs _ f,
)

texts-in :
    (h : Host) (auth : String) (raw : List Scalar)
    → ((ns : String) → member ns (map (λ x. str_of h (scalar x)) raw) ≡ true → ns ≡ auth)
    → All (λ x. str_of h (scalar x) ≡ auth) raw
texts-in h auth [] f = tt
texts-in h auth (x ∷ xs) f = (
  f (str_of h (scalar x)) (rw ((eq_iff (str_of h (scalar x)) (str_of h (scalar x))).1 refl)),
  texts-in h auth xs (λ ns k. f ns (ground arith)),
)

module _ (h : Host) (fs : List Fact) (pl : RemediationPlan) (m : Model) where
  pub Known-get_host : Known h fs pl m (λ g. g ≡ h) get_host
  Known-get_host = Known-gets h fs pl m (λ g. g ≡ h) (λ c. c.host) (λ c i. i.host)

  scope-of-members :
      (auth : String) (raw : List Scalar)
      → ReadsAs as_str fs (plain "authorized_namespace") auth
      → ReadsAs as_set fs (plain "plan_target_namespaces") raw
      → ((ns : String)
          → member ns (add_namespaces (header pl).target_resources (texts h raw)) ≡ true
          → ns ≡ auth)
      → NamespaceScope h pl fs
  scope-of-members auth raw ra rr f = (
    auth,
    raw,
    ra,
    rr,
    texts-in h auth raw (λ ns k. f ns (
        member-add_namespaces_acc ns (header pl).target_resources (texts h raw)
          (member-set_of ns (map (λ x. str_of h (scalar x)) raw) ∙ k))),
    resources-in auth (header pl).target_resources (texts h raw) f,
  )

  moved :
      (p : RemediationPlan) (g : Host) (raw : List Scalar) (ns : String)
      → p ≡ pl
      → g ≡ h
      → member ns (add_namespaces (header pl).target_resources (texts h raw)) ≡ true
      → member ns (add_namespaces (header p).target_resources (texts g raw)) ≡ true
  moved p g raw ns e k =
      subst₂ (λ q x. member ns (add_namespaces (header q).target_resources (texts x raw)) ≡ true)
        (sym e) (sym k)

  pub namespace_scope-Triple :
      Triple h fs pl m (λ f. holds m f ≡ true → NamespaceScope h pl fs) namespace_scope
  unfolding namespace_scope
  namespace_scope-Triple =
      Triple-bind h fs pl m _ _ (string_const (plain "authorized_namespace")) _
        (Triple-string_const h fs pl m (plain "authorized_namespace") refl)
        λ t.
          Known-bind h fs pl m _ _ (get_set (plain "plan_target_namespaces")) _
            (Known-get_set h fs pl m (plain "plan_target_namespaces"))
            λ raw rr. Known-bind h fs pl m _ _ get_host _ Known-get_host λ g same_host.
              Known-bind h fs pl m _ _ get_plan _ (Known-get_plan h fs pl m) λ p same.
                let nss = add_namespaces (header p).target_resources (texts g raw) in
                Triple-if h fs pl m _ (is_empty nss) _ _
                  (λ e. Triple-pure h fs pl m _ _ (λ a _.
                    scope-of-members a.0 raw a.1 rr
                      (λ ns k. absurd (empty-member ns nss e (moved p g raw ns same same_host k)))))
                  λ _. Triple-pure h fs pl m _ _ (λ a e. scope-of-members a.0 raw a.1 rr (λ ns k.
                    in-namespace m t a.0 a.2 (sorted nss)
                      (holds-conjunction m (all_in_namespace t (sorted nss)) e) ns
                      (member-sorted ns nss ∙ moved p g raw ns same same_host k)))
