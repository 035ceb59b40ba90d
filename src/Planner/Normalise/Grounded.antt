-- ===== src/Planner/Normalise/Grounded.antt =====
-- What src/understudy/planner/validate.py leaves of a candidate plan.
use understudy.Common.{
  String, Bool, true, false, ◌||◌, Option, none, some, >>=-some, List, [], ◌∷◌, str_eq, lookup_in,
  ◌≡◌, refl, sym, ◌∙◌, inl, inr, Bool-cases, Option-cases, arith, All, Memᴰ, head, tail, member,
  strip, find_first,
}
use understudy.Contracts.Enums.{is_no_action, is_rollback}
use understudy.Contracts.Plan.{RemediationPlan, header, inverse, Header, ResourceRef}
use understudy.Contracts.Incident.{IncidentContext, DeployRef}
use understudy.Planner.Inverse.{
  Hints, Result, ok, planner_error, synthesize_inverse, is_blank, or_text,
}
use understudy.Planner.Inverse.Laws.{synthesize_inverse-mirrors, synthesize_inverse-none_iff}
use understudy.Planner.Normalise.{
  is_commit, has_digest, resolve_commit_ref, resolve_workload_name, valid_workloads_of, with_commit,
  with_workload, with_params, plan_with, require, all_named, resolved_commit, checked_inverse,
  no_error, hints_of, normalise_plan, of_snapshot, compute_blast_set_validity,
}
use understudy.Planner.Normalise.Blast.{IsAffected, snapshot-valid_iff}

-- The commit is that of a recent deploy that has an image for the workload.
abbrev pub IsDeployed : List DeployRef → String → Option String → Type 0
IsDeployed deploys workload commit =
    (d : DeployRef) × Memᴰ d deploys
    × (commit ≡ some d.commit_sha)
    × (digest : String) × (lookup_in workload d.image_digests ≡ some digest)
    × (str_eq digest "" ≡ false)

has_digest-lookup_in :
    (w : String) (d : DeployRef)
    → has_digest (some w) d ≡ true
    → (digest : String) × (lookup_in w d.image_digests ≡ some digest) × (str_eq digest "" ≡ false)
has_digest-lookup_in w d h = elim (Option-cases (lookup_in w d.image_digests)) [
  | inl e ↦ let h' = rw e at h in absurd cc
  | inr (x, e) ↦ let h' = rw e at h in (x, e, ground arith)
]

-- The inverse has the plan's action, workload, resources and blast set.
abbrev pub Mirrors : RemediationPlan → RemediationPlan → Type 0
Mirrors plan inv =
    ((header inv).action ≡ (header plan).action)
    × ((header inv).params.workload ≡ (header plan).params.workload)
    × ((header inv).target_resources ≡ (header plan).target_resources)
    × ((header inv).declared_blast_set ≡ (header plan).declared_blast_set)

-- What a plan that changes something and survives refers to: workloads that exist, a commit that was
-- deployed, services that the action can affect, and an inverse of its own.
pub record IsGrounded (context : IncidentContext) (valid : List String) (q : RemediationPlan)
    : Type 0 where
  pub workload : member (header q).params.workload valid ≡ true
  pub resources : All (λ r. member r.name valid ≡ true) (header q).target_resources
  pub commit :
      is_rollback (header q).action ≡ true
      → IsDeployed context.recent_deploys (header q).params.workload (header q).params.target_commit
  pub known : member (header q).params.workload context.dependency_graph.nodes ≡ true
  pub blast :
      All
        (IsAffected context.dependency_graph (header q).params.workload)
        (header q).declared_blast_set
  pub inverts : (inv : RemediationPlan) × (inverse q ≡ some inv) × Mirrors q inv

find_first-Memᴰ :
    (p : DeployRef → Bool) (ds : List DeployRef) (d : DeployRef)
    → find_first p ds ≡ some d
    → Memᴰ d ds
find_first-Memᴰ p [] d e = absurd cc
find_first-Memᴰ p (x ∷ xs) d e = elim (Bool-cases (p x)) [
  | inl q ↦ let e' = rw q at e in head cc
  | inr q ↦ tail (find_first-Memᴰ p xs d (rw q at e))
]

resolve_commit_ref-IsDeployed :
    (commit : Option String) (deploys : List DeployRef) (workload c : String)
    → resolve_commit_ref commit deploys (some workload) ≡ some c
    → IsDeployed deploys workload (some c)
unfolding resolve_commit_ref
resolve_commit_ref-IsDeployed commit deploys workload c e =
    elim (Bool-cases (is_blank commit || str_eq (strip (or_text commit)) "")) [
      | inl b ↦ let e' = rw b at e in absurd cc
      | inr b ↦ elim (Option-cases (find_first (is_commit (strip (or_text commit))) deploys)) [
        | inl f ↦ let e' = rw (b, f) at e in absurd cc
        | inr (d, f) ↦ elim (Bool-cases (has_digest (some workload) d)) [
          | inr g ↦ let e' = rw (b, f, g) at e in absurd cc
          | inl g ↦
              let e' = rw (b, f, g) at e in
              let (x, l, n) = has_digest-lookup_in workload d g in
              (d, find_first-Memᴰ (is_commit (strip (or_text commit))) deploys d f, cc, x, l, n)
        ]
      ]
    ]

resolve_workload_name-member :
    (workload : String) (valid : List String) (w : String)
    → resolve_workload_name workload valid ≡ some w
    → (member w valid ≡ true) × (w ≡ strip workload)
unfolding resolve_workload_name
resolve_workload_name-member workload valid w e = elim (Bool-cases (str_eq workload "")) [
  | inl b ↦ let e' = rw b at e in absurd cc
  | inr b ↦ elim (Bool-cases (member (strip workload) valid)) [
    | inl m ↦
        let e' = rw (b, m) at e in let same : strip workload ≡ w = cc in (rw (← same) m, sym same)
    | inr m ↦ let e' = rw (b, m) at e in absurd cc
  ]
]

require-true : (b x : Bool) → require b ≡ some x → b ≡ true
require-true true x e = refl
require-true false x e = absurd cc

all_named-All :
    (rs : List ResourceRef) (valid : List String)
    → all_named rs valid ≡ true
    → All (λ r. member r.name valid ≡ true) rs
all_named-All [] valid e = tt
all_named-All (r ∷ rs) valid e = (ground arith, all_named-All rs valid (ground arith))

resolved_commit-IsDeployed :
    (p : Header) (workload : String) (deploys : List DeployRef) (c : Option String)
    → resolved_commit p workload deploys ≡ some c
    → is_rollback p.action ≡ true
    → IsDeployed deploys workload c
unfolding resolved_commit
resolved_commit-IsDeployed p workload deploys c e b =
    let e' = rw b at e in
    elim (Option-cases (resolve_commit_ref p.params.target_commit deploys (some workload))) [
      | inl f ↦ let e2 = rw f at e' in absurd cc
      | inr (sha, f) ↦
          let e2 = rw f at e' in
          let same : some sha ≡ c = cc in
          rw (← same) (resolve_commit_ref-IsDeployed p.params.target_commit deploys workload sha f)
    ]

no_error-ok {ℓ} : {A : Type ℓ} (r : Result A) (a : A) → no_error r ≡ some a → r ≡ ok a
no_error-ok (ok b) a e = cc
no_error-ok (planner_error f) a e = absurd cc

-- The steps of a plan that changes something and survives.
pub steps :
    (plan : RemediationPlan) (context : IncidentContext) (cluster : Option (List String))
    (q : RemediationPlan)
    → is_no_action (header plan).action ≡ false
    → normalise_plan plan context cluster ≡ some q
    → (w : String) × (c : Option String) × (given : Option RemediationPlan) × (inv : Option
        RemediationPlan)
      × (resolve_workload_name (header plan).params.workload (valid_workloads_of context cluster)
          ≡ some w)
      × (all_named (header plan).target_resources (valid_workloads_of context cluster) ≡ true)
      × (resolved_commit (header plan) w context.recent_deploys ≡ some c)
      × (compute_blast_set_validity
            (header plan).declared_blast_set
            w
            (of_snapshot context.dependency_graph)
          ≡ true)
      × (synthesize_inverse
            (plan_with
              (with_params (with_commit c (with_workload w (header plan).params)) (header plan))
              given)
            (hints_of context (valid_workloads_of context cluster))
          ≡ ok inv)
      × (plan_with
            (with_params (with_commit c (with_workload w (header plan).params)) (header plan))
            inv
          ≡ q)
unfolding normalise_plan
steps plan context cluster q a e =
    let valid = valid_workloads_of context cluster in
    let p = header plan in
    let e0 = rw a at e in
    let (w, e1, r1) = >>=-some (resolve_workload_name p.params.workload valid) _ q e0 in
    let (b, e2, r2) = >>=-some (require (all_named p.target_resources valid)) _ q r1 in
    let (c, e3, r3) = >>=-some (resolved_commit p w context.recent_deploys) _ q r2 in
    let (b', e4, r4) =
      >>=-some
        (require (
          compute_blast_set_validity p.declared_blast_set w (of_snapshot context.dependency_graph)))
        _ q r3 in
    let (given, e5, r5) =
      >>=-some (checked_inverse (inverse plan) valid context.recent_deploys) _ q r4 in
    let updated = with_params (with_commit c (with_workload w p.params)) p in
    let made = synthesize_inverse (plan_with updated given) (hints_of context valid) in
    let (inv, e6, r6) = >>=-some (no_error made) _ q r5 in
    (
      w,
      c,
      given,
      inv,
      e1,
      require-true (all_named p.target_resources valid) b e2,
      e3,
      require-true
          (compute_blast_set_validity p.declared_blast_set w (of_snapshot context.dependency_graph))
          b' e4,
      no_error-ok made inv e6,
      cc,
    )

pub header-plan_with : (p : Header) (o : Option RemediationPlan) → header (plan_with p o) ≡ p
header-plan_with p none = refl
header-plan_with p (some q) = refl

inverse-plan_with : (p : Header) (o : Option RemediationPlan) → inverse (plan_with p o) ≡ o
inverse-plan_with p none = refl
inverse-plan_with p (some q) = refl

-- An inverse that can be made belongs to a plan with a workload.
synthesized-named :
    (plan : RemediationPlan) (h : Hints) (inv : Option RemediationPlan)
    → is_no_action (header plan).action ≡ false
    → synthesize_inverse plan h ≡ ok inv
    → str_eq (header plan).params.workload "" ≡ false
unfolding synthesize_inverse
synthesized-named plan h inv a e = elim (Bool-cases (str_eq (header plan).params.workload "")) [
  | inr w ↦ w
  | inl w ↦ let e' = rw (a, w) at e in absurd cc
]

pub synthesized-some :
    (plan : RemediationPlan) (h : Hints) (inv : Option RemediationPlan)
    → is_no_action (header plan).action ≡ false
    → synthesize_inverse plan h ≡ ok inv
    → (i : RemediationPlan) × (inv ≡ some i) × Mirrors plan i
synthesized-some plan h none a e = let n = (synthesize_inverse-none_iff plan h).0 e in absurd cc
synthesized-some plan h (some i) a e =
    let m = synthesize_inverse-mirrors plan i h e in (i, refl, (m.0, m.1, m.2, m.3))

-- A plan that changes something and survives keeps its action, its resources and its blast set; its
-- workload is that of the candidate without surrounding blanks, and exists; its resources exist; the
-- commit of a rollback was deployed with an image for the workload; its declared blast set holds
-- only services that are its workload or call it; and it has an inverse that mirrors it.
pub normalise_plan-IsGrounded :
    (plan q : RemediationPlan) (context : IncidentContext) (cluster : Option (List String))
    → is_no_action (header plan).action ≡ false
    → normalise_plan plan context cluster ≡ some q
    → ((header q).action ≡ (header plan).action)
      × ((header q).target_resources ≡ (header plan).target_resources)
      × ((header q).declared_blast_set ≡ (header plan).declared_blast_set)
      × ((header q).params.workload ≡ strip (header plan).params.workload)
      × IsGrounded context (valid_workloads_of context cluster) q
normalise_plan-IsGrounded plan q context cluster a e =
    let valid = valid_workloads_of context cluster in
    let p = header plan in
    let (w, c, given, inv, named, resources, commit, blast, made, same) =
      steps plan context cluster q a e in
    let updated = with_params (with_commit c (with_workload w p.params)) p in
    let tried = plan_with updated given in
    let (exists, stripped) = resolve_workload_name-member p.params.workload valid w named in
    let changes : is_no_action (header tried).action ≡ false =
      rw (header-plan_with updated given) a in
    let full =
      rw (header-plan_with updated given) at
        (synthesized-named tried (hints_of context valid) inv changes made) in
    let (known, affected) =
      (snapshot-valid_iff context.dependency_graph p.declared_blast_set w full).0 blast in
    let (i, some_i, mirrors) = synthesized-some tried (hints_of context valid) inv changes made in
    let mirrors' = rw (header-plan_with updated given) at mirrors in
    rw (← same) (
      rw (header-plan_with updated inv) (
        refl,
        refl,
        refl,
        stripped,
        record {
          workload = rw (header-plan_with updated inv) exists;
          resources =
              rw (header-plan_with updated inv) (all_named-All p.target_resources valid resources);
          commit =
              rw (header-plan_with updated inv)
                (resolved_commit-IsDeployed p w context.recent_deploys c commit);
          known = rw (header-plan_with updated inv) known;
          blast = rw (header-plan_with updated inv) affected;
          inverts = (
            i,
            (inverse-plan_with updated inv ∙ some_i),
            rw (header-plan_with updated inv) mirrors',
          );
        },
      ))
