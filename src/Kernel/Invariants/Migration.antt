-- ===== src/Kernel/Invariants/Migration.antt =====
-- What the formula of K3 means: a rollback goes to a commit at least as recent as the last
-- migration, and to one that contains none.
use understudy.Common.{
  ℕ, String, Bool, true, false, not, ◌&&◌, List, [], ◌∷◌, leb→le, Option, none, some, ◌≤ʳ◌,
  leb_ratio, ratio-le_of_eq, ratio-ge_of_eq, str_eq, if◌then◌else◌, ◌≡◌, refl, ◌⊎◌, inl, inr, arith,
  Bool-cases, ap, ◌∙◌, &&-left, &&-right,
}
use understudy.Contracts.Enums.{is_rollback}
use understudy.Contracts.Plan.{RemediationPlan, header}
use understudy.Kernel.Facts.{FactName, plain, sub, Fact, bool}
use understudy.Kernel.Term.{Term, truth, ge, negation, Model, eval, holds, z3_and}
use understudy.Kernel.Context.{
  Host, lookup_fact, is_some, as_bool, as_datetime, has_fact, datetime_const, bool_const, timestamp,
  ◌>>=◌,
}
use understudy.Kernel.Context.Rules.{
  datetime_kind, bool_kind, kind_of, ReadsAs, Agrees, Triple, Triple-pure, Triple-bind,
  Triple-datetime_const, Triple-bool_const, Triple-if, Known, Known-bind, Known-gets,
}
use understudy.Kernel.Invariants.{get_plan, commit_name, migration_boundary}
use understudy.Kernel.Invariants.Bounds.{Known-get_plan}

-- The fact that is read for a rollback: the one keyed by the target commit, where it is there.
abbrev pub chosen_name : String → Option String → List Fact → FactName
chosen_name base none fs = plain base
chosen_name base (some commit) fs =
    if not (str_eq commit "") && is_some (lookup_fact (sub base commit) fs)
    then sub base commit
    else plain base

abbrev pub MigrationBoundary : Host → RemediationPlan → List Fact → Type 0
MigrationBoundary h p fs =
    (is_rollback (header p).action ≡ false)
    ⊎ ((last : ℕ) × (target : ℕ) × ReadsAs (as_datetime h) fs (plain "last_migration_commit_time")
          last
        × ReadsAs (as_datetime h) fs
            (chosen_name "rollback_target_commit_time" (header p).params.target_commit fs) target
        × ReadsAs as_bool fs
            (chosen_name "target_contains_migration" (header p).params.target_commit fs) false
        × (timestamp last ≤ʳ timestamp target))

chosen_name-kind :
    (base : String) (commit : Option String) (fs : List Fact)
    → kind_of (chosen_name base commit fs) ≡ kind_of (plain base)
chosen_name-kind base none fs = refl
chosen_name-kind base (some commit) fs =
    elim (Bool-cases (not (str_eq commit "") && is_some (lookup_fact (sub base commit) fs))) [
      | inl e ↦ rw e
      | inr e ↦ rw e
    ]

module _ (h : Host) (fs : List Fact) (pl : RemediationPlan) (m : Model) where
  Known-commit_name :
      (base : String) (commit : Option String)
      → Known h fs pl m (λ n. n ≡ chosen_name base commit fs) (commit_name base commit)
  unfolding commit_name ◌>>=◌ has_fact
  Known-commit_name base none = Known-gets h fs pl m _ (λ c. plain base) (λ c i. refl)
  Known-commit_name base (some commit) =
      Known-gets h fs pl m (λ n. n ≡ chosen_name base (some commit) fs)
        (λ c.
          if not (str_eq commit "") && has_fact c (sub base commit)
          then sub base commit
          else plain base)
        (λ c i. ap (λ g. chosen_name base (some commit) g) i.facts)

  no-migration :
      (t : Term) → holds m (negation (truth t)) ≡ true → (v : Bool) → eval m t ≡ bool v → v ≡ false
  no-migration t e v is_v = let e' : not v ≡ true = rw is_v at e in ground arith

  boundary-kept :
      (p : RemediationPlan) (last target flag : Term) (time_name flag_name : FactName)
      → time_name ≡ chosen_name "rollback_target_commit_time" (header p).params.target_commit fs
      → flag_name ≡ chosen_name "target_contains_migration" (header p).params.target_commit fs
      → Agrees h fs pl m bool_kind flag_name flag
      → Agrees h fs pl m datetime_kind time_name target
      → Agrees h fs pl m datetime_kind (plain "last_migration_commit_time") last
      → holds m (z3_and (ge target last ∷ negation (truth flag) ∷ [])) ≡ true
      → MigrationBoundary h p fs
  boundary-kept p last target flag time_name flag_name is_time is_flag (vf, rf, ef)
        (vt, qt, rt, et, st) (vl, ql, rl, el, sl) e =
      let parts = &&-left (holds m (ge target last)) _ e in
      let order : leb_ratio ql qt ≡ true = rw (et, el) at parts in
      let none_there : vf ≡ false =
        no-migration flag (&&-left _ _ (&&-right (holds m (ge target last)) _ e)) vf ef in
      inr (
        vl,
        vt,
        rl,
        rw (← is_time) rt,
        rw (← is_flag, ← none_there) rf,
        leb→le _ _ (
            ratio-ge_of_eq qt (timestamp vt) (timestamp vl) st
              (ratio-le_of_eq ql (timestamp vl) qt sl order)),
      )

  pub migration_boundary-Triple :
      Triple h fs pl m (λ f. holds m f ≡ true → MigrationBoundary h pl fs) migration_boundary
  unfolding migration_boundary
  migration_boundary-Triple =
      Known-bind h fs pl m _ _ get_plan _ (Known-get_plan h fs pl m) λ p same.
        Triple-if h fs pl m _ (not (is_rollback (header p).action)) _ _
          (λ e. Triple-pure h fs pl m _ _ (λ _. inl (rw (← same) (ground arith))))
          λ _.
            Triple-bind h fs pl m _ _ (datetime_const (plain "last_migration_commit_time")) _
              (Triple-datetime_const h fs pl m (plain "last_migration_commit_time") refl)
              λ last.
                Known-bind h fs pl m _ _
                  (commit_name "rollback_target_commit_time" (header p).params.target_commit) _
                  (Known-commit_name _ _)
                  λ time_name is_time.
                    Triple-bind h fs pl m _ _ (datetime_const time_name) _
                      (Triple-datetime_const h fs pl m time_name (
                        ap kind_of is_time
                        ∙ chosen_name-kind "rollback_target_commit_time"
                            (header p).params.target_commit fs))
                      λ target.
                        Known-bind h fs pl m _ _
                          (commit_name "target_contains_migration" (header p).params.target_commit)
                          _ (Known-commit_name _ _)
                          λ flag_name is_flag.
                            Triple-bind h fs pl m _ _ (bool_const flag_name) _
                              (Triple-bool_const h fs pl m flag_name (
                                ap kind_of is_flag
                                ∙ chosen_name-kind "target_contains_migration"
                                    (header p).params.target_commit fs))
                              λ flag. Triple-pure h fs pl m _ _ (λ af at al e. rw (← same) (
                                boundary-kept p last target flag time_name flag_name is_time is_flag
                                  af at al e))
