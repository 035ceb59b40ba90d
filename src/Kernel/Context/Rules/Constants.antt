-- ===== src/Kernel/Context/Rules/Constants.antt =====
-- The accessors of KernelContext that make constants: each is tied to its fact.
use mathlib.Core.Path.{subst}
use understudy.Common.{
  ℕ, Bool, true, false, some, List, [], ◌∷◌, ℤ, pos, Ratio, of_ℤ, eqb_ℤ, eqb_ℤ_refl, eqb_ratio_refl,
  All, eq_iff, ◌≡◌, refl, sym, ap, arith, Option-cases, Bool-cases, inl, inr,
}
use understudy.Contracts.Plan.{RemediationPlan}
use understudy.Kernel.Facts.{
  FactName, name_eq, name_eq_iff, Scalar, int, bool, real, str, Fact, FactValue,
}
use understudy.Kernel.Term.{
  Sort, int_sort, bool_sort, real_sort, string_sort, Term, const, lit, eq, Model, holds, scalar_eq,
}
use understudy.Kernel.Context.{
  Host, Outcome, ok, Action, ◌>>=◌, lookup_fact, as_int, as_bool, as_float, as_str, as_datetime,
  get_int, get_bool, get_float, get_str, get_datetime, find_const, register, int_const, bool_const,
  real_const, string_const, datetime_const, timestamp,
}
use understudy.Kernel.Context.Rules.Models.{
  Kind, int_kind, bool_kind, float_kind, string_kind, datetime_kind, kind_of, ReadsAs, value_or,
  real_value, fact_model, holds_all-append_left, holds_all-append_right, holds_all-append_true,
}
use understudy.Kernel.Context.Rules.Triples.{Agrees, Triple}
use understudy.Kernel.Context.Rules.Reads.{
  Known, Known-bind, Known-get_int, Known-get_bool, Known-get_float, Known-get_str,
  Known-get_datetime,
}

module _ (h : Host) (fs : List Fact) (pl : RemediationPlan) (m : Model) where
  find_const-All :
      (P : FactName → Term → Type 0) (n : FactName) (cs : List (FactName × Term)) (t : Term)
      → All (λ p. P p.0 p.1) cs
      → find_const n cs ≡ some t
      → P n t
  unfolding find_const
  find_const-All P n [] t h e = cc
  find_const-All P n ((k, u) ∷ cs) t h e = elim (Bool-cases (name_eq n k)) [
    | inl q ↦ hit ((name_eq_iff n k).0 q) (rw q at e) h.0
    | inr q ↦ find_const-All P n cs t h.1 (rw q at e)
  ]
    where
      hit : {k : FactName} {u : Term} → n ≡ k → some u ≡ some t → P k u → P n t
      hit {k} {u} a b x = let b' : u ≡ t = cc in rw (a, ← b') x

  -- A new constant: its assertion holds of the facts, and ties it to its fact in every model.
  Triple-register :
      (s : Sort) (v : Scalar) (n : FactName)
      → holds (fact_model h fs) (eq (const s n) (lit v)) ≡ true
      → (holds m (eq (const s n) (lit v)) ≡ true → Agrees h fs pl m (kind_of n) n (const s n))
      → Triple h fs pl m (Agrees h fs pl m (kind_of n) n) (register s v n)
  unfolding register
  Triple-register s v n true_of_facts agrees = record {
    keeps = λ c i. elim (Option-cases (find_const n c.constants)) [
      | inl o ↦ rw o (record {
        facts = i.facts;
        host = i.host;
        plan = i.plan;
        satisfiable =
            holds_all-append_true (fact_model h fs) c.assertions _ i.satisfiable true_of_facts;
        bound = λ e. (
          agrees (holds_all-append_right m c.assertions _ e),
          i.bound (holds_all-append_left m c.assertions _ e),
        );
      })
      | inr (t, o) ↦ rw o i
    ];
    accessed = λ c i e. elim (Option-cases (find_const n c.constants)) [
      | inl o ↦ rw o at e
      | inr (t, o) ↦ rw o at e
    ];
    grows = λ c i e. elim (Option-cases (find_const n c.constants)) [
      | inl o ↦ holds_all-append_left m c.assertions _ (rw o at e)
      | inr (t, o) ↦ rw o at e
    ];
    result = λ c i e. elim (Option-cases (find_const n c.constants)) [
      | inl o ↦ rw o (agrees (holds_all-append_right m c.assertions _ (rw o at e)))
      | inr (t, o) ↦ rw o (
          find_const-All (λ n t. Agrees h fs pl m (kind_of n) n t) n c.constants t
            (i.bound (rw o at e)) o)
    ];
  }

  fact-value :
      {V : Type 0} (d : V) (as_v : FactValue → Outcome V) (n : FactName) (v : V)
      → ReadsAs as_v fs n v
      → value_or d as_v (lookup_fact n fs) ≡ v
  fact-value d as_v n v (f, found, is_v) = rw (found, is_v)

  eqb_ℤ-eq : (a b : ℤ) → eqb_ℤ a b ≡ true → a ≡ b
  eqb_ℤ-eq a b e = ground arith

  bool-eq : (a b : Bool) → scalar_eq (bool a) (bool b) ≡ true → a ≡ b
  bool-eq a b e = ground arith

  bool-eq_refl : (a : Bool) → scalar_eq (bool a) (bool a) ≡ true
  bool-eq_refl a = ground arith

  -- The accessor of each kind, from its read and its constant.
  Triple-const :
      {V : Type 0} (k : Kind) (s : Sort) (as_v : FactValue → Outcome V) (to : V → Scalar)
      (n : FactName) (get : Action V)
      → kind_of n ≡ k
      → Known h fs pl m (ReadsAs as_v fs n) get
      → ((v : V)
          → ReadsAs as_v fs n v
          → holds (fact_model h fs) (eq (const s n) (lit (to v))) ≡ true)
      → ((v : V)
          → ReadsAs as_v fs n v
          → holds m (eq (const s n) (lit (to v))) ≡ true
          → Agrees h fs pl m k n (const s n))
      → Triple h fs pl m (Agrees h fs pl m k n) (get >>= λ v. register s (to v) n)
  Triple-const k s as_v to n get is_k known of_facts agrees =
      Known-bind h fs pl m (ReadsAs as_v fs n) (Agrees h fs pl m k n) get (λ v. register s (to v) n)
        known
        λ v r.
          subst (λ d. Triple h fs pl m (Agrees h fs pl m d n) (register s (to v) n)) is_k
            (Triple-register s (to v) n (of_facts v r)
              (λ e. subst (λ d. Agrees h fs pl m d n (const s n)) (sym is_k) (agrees v r e)))

  pub Triple-int_const :
      (n : FactName)
      → kind_of n ≡ int_kind
      → Triple h fs pl m (Agrees h fs pl m int_kind n) (int_const n)
  unfolding int_const
  Triple-int_const n k =
      Triple-const int_kind int_sort as_int int n (get_int n) k (Known-get_int h fs pl m n)
        (λ v r. rw (fact-value (pos 0) as_int n v r) (eqb_ℤ_refl v))
        (λ v r e. (v, r, ap int (eqb_ℤ-eq _ _ e)))

  pub Triple-bool_const :
      (n : FactName)
      → kind_of n ≡ bool_kind
      → Triple h fs pl m (Agrees h fs pl m bool_kind n) (bool_const n)
  unfolding bool_const
  Triple-bool_const n k =
      Triple-const bool_kind bool_sort as_bool bool n (get_bool n) k (Known-get_bool h fs pl m n)
        (λ v r. rw (fact-value false as_bool n v r) (bool-eq_refl v))
        (λ v r e. (v, r, ap bool (bool-eq _ _ e)))

  pub Triple-string_const :
      (n : FactName)
      → kind_of n ≡ string_kind
      → Triple h fs pl m (Agrees h fs pl m string_kind n) (string_const n)
  unfolding string_const
  Triple-string_const n k =
      Triple-const string_kind string_sort as_str str n (get_str n) k (Known-get_str h fs pl m n)
        (λ v r. rw (fact-value "" as_str n v r) ((eq_iff v v).1 refl))
        (λ v r e. (v, r, ap str ((eq_iff _ v).0 e)))

  is-float : (x : FactValue) (r : Ratio) → as_float x ≡ ok r → real_value h x ≡ ok r
  is-float x r e = ground arith

  float-value :
      (n : FactName) (v : Ratio)
      → ReadsAs as_float fs n v
      → value_or (of_ℤ (pos 0)) (real_value h) (lookup_fact n fs) ≡ v
  float-value n v (f, found, is_v) = rw (found, is-float f.value v is_v)

  not-float : (x : FactValue) (t : ℕ) → as_datetime h x ≡ ok t → real_value h x ≡ ok (timestamp t)
  not-float x t e = ground arith

  datetime-value :
      (n : FactName) (v : ℕ)
      → ReadsAs (as_datetime h) fs n v
      → value_or (of_ℤ (pos 0)) (real_value h) (lookup_fact n fs) ≡ timestamp v
  datetime-value n v (f, found, is_v) = rw (found, not-float f.value v is_v)

  pub Triple-real_const :
      (n : FactName)
      → kind_of n ≡ float_kind
      → Triple h fs pl m (Agrees h fs pl m float_kind n) (real_const n)
  unfolding real_const
  Triple-real_const n k =
      Triple-const float_kind real_sort as_float real n (get_float n) k
        (Known-get_float h fs pl m n) (λ v r. rw (float-value n v r) (eqb_ratio_refl v))
        (λ v r e. (v, m.reals n, r, refl, e))

  pub Triple-datetime_const :
      (n : FactName)
      → kind_of n ≡ datetime_kind
      → Triple h fs pl m (Agrees h fs pl m datetime_kind n) (datetime_const n)
  unfolding datetime_const
  Triple-datetime_const n k =
      Triple-const datetime_kind real_sort (as_datetime h) (λ t. real (timestamp t)) n
        (get_datetime n) k (Known-get_datetime h fs pl m n)
        (λ v r. rw (datetime-value n v r) (eqb_ratio_refl (timestamp v)))
        (λ v r e. (v, m.reals n, r, refl, e))
