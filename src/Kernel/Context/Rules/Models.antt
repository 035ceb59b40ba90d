-- ===== src/Kernel/Context/Rules/Models.antt =====
-- The facts of KernelContext as a model, and lists of assertions.
use understudy.Common.{
  String, true, false, ◌&&◌, Option, none, some, List, [], ◌∷◌, ◌++◌, pos, Ratio, of_ℤ, str_eq,
  if◌then◌else◌, ◌≡◌, ◌∙◌, sym, ap, arith, &&-left, &&-right,
}
use understudy.Kernel.Facts.{FactName, plain, sub, Fact, FactValue}
use understudy.Kernel.Term.{Formula, Model, holds, holds_all}
use understudy.Kernel.Context.{
  Host, Outcome, ok, type_error, lookup_fact, as_int, as_bool, as_float, as_str, as_datetime,
  timestamp,
}

-- Each fact name of the catalogue is read at one type.
pub data Kind : Type 0 where
  int_kind bool_kind float_kind string_kind datetime_kind : Kind

abbrev pub kind_of_base : String → Kind
kind_of_base s =
    if str_eq s "authorized_namespace"
    then string_kind
    else if str_eq s "last_migration_commit_time"
    then datetime_kind
    else if str_eq s "rollback_target_commit_time"
    then datetime_kind
    else if str_eq s "target_contains_migration"
    then bool_kind
    else if str_eq s "plan_has_inverse"
    then bool_kind
    else if str_eq s "evidence_age_seconds"
    then float_kind
    else if str_eq s "max_drop_ratio"
    then float_kind
    else int_kind

abbrev pub kind_of : FactName → Kind
kind_of (plain s) = kind_of_base s
kind_of (sub b k) = kind_of_base b

-- The fact `n` is there and reads as `v`.
abbrev pub ReadsAs {ℓ} : {V : Type ℓ} → (FactValue → Outcome V) → List Fact → FactName → V → Type ℓ
ReadsAs as_v fs n v = (f : Fact) × (lookup_fact n fs ≡ some f) × (as_v f.value ≡ ok v)

abbrev pub ok_or {ℓ} : {V : Type ℓ} → V → Outcome V → V
ok_or d (ok v) = v
ok_or d _ = d

abbrev pub value_or {ℓ} : {V : Type ℓ} → V → (FactValue → Outcome V) → Option Fact → V
value_or d as_v none = d
value_or d as_v (some f) = ok_or d (as_v f.value)

abbrev pub real_value : Host → FactValue → Outcome Ratio
real_value h v = elim (as_float v) [
  | ok r ↦ ok r
  | _ ↦ elim (as_datetime h v) [ ok t ↦ ok (timestamp t) | _ ↦ type_error ]
]

-- The facts as a model.
abbrev pub fact_model : Host → List Fact → Model
fact_model h fs = record {
  ints = λ n. value_or (pos 0) as_int (lookup_fact n fs);
  bools = λ n. value_or false as_bool (lookup_fact n fs);
  reals = λ n. value_or (of_ℤ (pos 0)) (real_value h) (lookup_fact n fs);
  strings = λ n. value_or "" as_str (lookup_fact n fs);
}

pub holds_all-append :
    (m : Model) (fs : List Formula) (f : Formula)
    → holds_all m (fs ++ f ∷ []) ≡ (holds_all m fs && holds m f)
holds_all-append m [] f = ground arith
holds_all-append m (g ∷ fs) f = ground (arith, holds_all-append m fs f)

pub holds_all-append_left :
    (m : Model) (fs : List Formula) (f : Formula)
    → holds_all m (fs ++ f ∷ []) ≡ true
    → holds_all m fs ≡ true
holds_all-append_left m fs f e = &&-left _ (holds m f) (sym (holds_all-append m fs f) ∙ e)

pub holds_all-append_right :
    (m : Model) (fs : List Formula) (f : Formula)
    → holds_all m (fs ++ f ∷ []) ≡ true
    → holds m f ≡ true
holds_all-append_right m fs f e = &&-right (holds_all m fs) _ (sym (holds_all-append m fs f) ∙ e)

pub holds_all-append_true :
    (m : Model) (fs : List Formula) (f : Formula)
    → holds_all m fs ≡ true
    → holds m f ≡ true
    → holds_all m (fs ++ f ∷ []) ≡ true
holds_all-append_true m fs f p q = holds_all-append m fs f ∙ rw (p, q)

-- A fact reads as one value.
pub reads_unique :
    {V : Type 0} (as_v : FactValue → Outcome V) (fs : List Fact) (n : FactName) (v w : V)
    → ReadsAs as_v fs n v
    → ReadsAs as_v fs n w
    → v ≡ w
reads_unique as_v fs n v w (f, found, is_v) (g, found', is_w) =
    let same : f ≡ g = cc in
    let both : ok v ≡ ok w = sym is_v ∙ ap (λ x. as_v x.value) same ∙ is_w in cc
