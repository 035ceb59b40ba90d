-- ===== src/Kernel/Context/Rules/Reads.antt =====
-- Actions of KernelContext that read facts: what holds of their results whatever the model.
use understudy.Common.{
  Bool, true, false, some, List, [], ◌∷◌, ◌++◌, is_empty, if◌then◌else◌, ◌≡◌, refl, ◌∙◌, sym, ap,
  Option-cases, inl, inr,
}
use understudy.Contracts.Plan.{RemediationPlan}
use understudy.Kernel.Facts.{FactName, Fact, FactValue}
use understudy.Kernel.Term.{Model, holds_all}
use understudy.Kernel.Context.{
  Host, Context, Outcome, ok, missing, type_error, value_error, not_implemented, Action, pure,
  continue, ◌>>=◌, lookup_fact, get_raw, as_int, as_bool, as_float, as_str, as_datetime, as_set,
  get_int, get_bool, get_float, get_str, get_datetime, get_set,
}
use understudy.Kernel.Context.Rules.Models.{ReadsAs}
use understudy.Kernel.Context.Rules.Triples.{Inv, Post, Triple, Triple-continue}

module _ (h : Host) (fs : List Fact) (pl : RemediationPlan) (m : Model) where
  -- What holds of the result whatever the model: the reads of facts.
  pub record Known {A : Type 0} (R : A → Type 0) (act : Action A) : Type 0 where
    pub keeps : (c : Context) → Inv h fs pl m c → Inv h fs pl m (act c).1
    pub accessed :
        (c : Context)
        → Inv h fs pl m c
        → is_empty (act c).1.missing_accessed ≡ true
        → is_empty c.missing_accessed ≡ true
    pub grows :
        (c : Context)
        → Inv h fs pl m c
        → holds_all m (act c).1.assertions ≡ true
        → holds_all m c.assertions ≡ true
    pub known : (c : Context) → Inv h fs pl m c → Post h fs pl m R (act c).0

  post-at :
      {A : Type 0} (R : A → Type 0) (r : Outcome A) (a : A) → Post h fs pl m R r → r ≡ ok a → R a
  post-at R r a p e = rw e at p

  pub Known-bind :
      {A B : Type 0} (R : A → Type 0) (Q : B → Type 0) (act : Action A) (f : A → Action B)
      → Known R act
      → ((a : A) → R a → Triple h fs pl m Q (f a))
      → Triple h fs pl m Q (act >>= f)
  unfolding ◌>>=◌
  Known-bind R Q act f t k = record {
    keeps = λ c i. (rest c i).keeps (act c).1 (t.keeps c i);
    accessed = λ c i e. t.accessed c i ((rest c i).accessed (act c).1 (t.keeps c i) e);
    grows = λ c i e. t.grows c i ((rest c i).grows (act c).1 (t.keeps c i) e);
    result = λ c i. (rest c i).result (act c).1 (t.keeps c i);
  }
    where
      rest : (c : Context) → Inv h fs pl m c → Triple h fs pl m Q (continue (act c).0 f)
      rest c i =
          Triple-continue h fs pl m Q (act c).0 f
            (λ a e. k a (post-at R (act c).0 a (t.known c i) e))

  not-empty : (n : FactName) (ns : List FactName) → is_empty (ns ++ n ∷ []) ≡ true → ⊥
  not-empty n [] e = cc
  not-empty n (k ∷ ns) e = cc

  -- Reading the raw value of a fact.
  pub Known-get_raw :
      (n : FactName)
      → Known (λ v. (f : Fact) × (lookup_fact n fs ≡ some f) × (f.value ≡ v)) (get_raw n)
  unfolding get_raw
  Known-get_raw n = record {
    keeps = λ c i. elim (Option-cases (lookup_fact n c.facts)) [
      | inl e ↦ rw e (record {
        facts = i.facts;
        host = i.host;
        plan = i.plan;
        satisfiable = i.satisfiable;
        bound = i.bound;
      })
      | inr (f, e) ↦ rw e i
    ];
    accessed = λ c i e. elim (Option-cases (lookup_fact n c.facts)) [
      | inl o ↦ absurd (not-empty n c.missing_accessed (rw o at e))
      | inr (f, o) ↦ rw o at e
    ];
    grows = λ c i e. elim (Option-cases (lookup_fact n c.facts)) [
      | inl o ↦ rw o at e
      | inr (f, o) ↦ rw o at e
    ];
    known = λ c i. elim (Option-cases (lookup_fact n c.facts)) [
      | inl o ↦ rw o tt
      | inr (f, o) ↦ rw o (f, ap (lookup_fact n) (sym i.facts) ∙ o, refl)
    ];
  }

  -- A read at a type, which may depend on the host: the value is the fact's.
  Known-read :
      {V : Type 0} (as_v : Host → FactValue → Outcome V) (n : FactName)
      → Known (ReadsAs (as_v h) fs n) (get_raw n >>= λ v c. (as_v c.host v, c))
  unfolding ◌>>=◌
  Known-read as_v n = record {
    keeps = λ c i. kept (get_raw n c).0 (get_raw n c).1 ((Known-get_raw n).keeps c i);
    accessed = λ c i e. (Known-get_raw n).accessed c i (still (get_raw n c).0 (get_raw n c).1 e);
    grows = λ c i e. (Known-get_raw n).grows c i (same (get_raw n c).0 (get_raw n c).1 e);
    known = λ c i.
        found (get_raw n c).0 (get_raw n c).1 ((Known-get_raw n).keeps c i)
          ((Known-get_raw n).known c i);
  }
    where
      kept :
          (r : Outcome FactValue) (c : Context)
          → Inv h fs pl m c
          → Inv h fs pl m (continue r (λ v c. (as_v c.host v, c)) c).1
      kept (ok v) c i = i
      kept (missing n) c i = i
      kept _ c i = i

      same :
          (r : Outcome FactValue) (c : Context)
          → holds_all m (continue r (λ v c. (as_v c.host v, c)) c).1.assertions ≡ true
          → holds_all m c.assertions ≡ true
      same (ok v) c i = i
      same (missing n) c i = i
      same _ c i = i

      still :
          (r : Outcome FactValue) (c : Context)
          → is_empty (continue r (λ v c. (as_v c.host v, c)) c).1.missing_accessed ≡ true
          → is_empty c.missing_accessed ≡ true
      still (ok v) c i = i
      still (missing n) c i = i
      still _ c i = i

      at_host :
          {V : Type 0} (as_v : Host → FactValue → Outcome V) (v : FactValue) (c : Context)
          → Inv h fs pl m c
          → ((f : Fact) × (lookup_fact n fs ≡ some f) × (f.value ≡ v))
          → (r : Outcome V) → as_v c.host v ≡ r
          → Post h fs pl m (ReadsAs (as_v h) fs n) r
      at_host as_v v c i x (ok a) e =
          (x.0, x.1, ap (as_v h) x.2 ∙ ap (λ g. as_v g v) (sym i.host) ∙ e)
      at_host as_v v c i x (missing k) e = tt
      at_host as_v v c i x _ e = tt

      found :
          (r : Outcome FactValue) (c : Context)
          → Inv h fs pl m c
          → Post h fs pl m (λ v. (f : Fact) × (lookup_fact n fs ≡ some f) × (f.value ≡ v)) r
          → Post h fs pl m (ReadsAs (as_v h) fs n) (continue r (λ v c. (as_v c.host v, c)) c).0
      found (ok v) c i x = at_host as_v v c i x (as_v c.host v) refl
      found (missing k) c i x = tt
      found type_error c i x = tt
      found value_error c i x = tt
      found not_implemented c i x = tt

  pub Known-get_int : (n : FactName) → Known (ReadsAs as_int fs n) (get_int n)
  unfolding get_int
  Known-get_int = Known-read (λ _. as_int)

  pub Known-get_bool : (n : FactName) → Known (ReadsAs as_bool fs n) (get_bool n)
  unfolding get_bool
  Known-get_bool = Known-read (λ _. as_bool)

  pub Known-get_float : (n : FactName) → Known (ReadsAs as_float fs n) (get_float n)
  unfolding get_float
  Known-get_float = Known-read (λ _. as_float)

  pub Known-get_str : (n : FactName) → Known (ReadsAs as_str fs n) (get_str n)
  unfolding get_str
  Known-get_str = Known-read (λ _. as_str)

  pub Known-get_set : (n : FactName) → Known (ReadsAs as_set fs n) (get_set n)
  unfolding get_set
  Known-get_set = Known-read (λ _. as_set)

  pub Known-get_datetime : (n : FactName) → Known (ReadsAs (as_datetime h) fs n) (get_datetime n)
  unfolding get_datetime
  Known-get_datetime = Known-read as_datetime

  pub Known-pure : {A : Type 0} (R : A → Type 0) (a : A) → R a → Known R (pure a)
  Known-pure R a r = record {
    keeps = λ c i. i;
    accessed = λ c i e. e;
    grows = λ c i e. e;
    known = λ c i. r;
  }

  Known-continue :
      {A B : Type 0} (Q : B → Type 0) (r : Outcome A) (f : A → Action B)
      → ((a : A) → r ≡ ok a → Known Q (f a))
      → Known Q (continue r f)
  Known-continue Q (ok a) f k = k a refl
  Known-continue Q (missing n) f k = record {
    keeps = λ c i. i;
    accessed = λ c i e. e;
    grows = λ c i e. e;
    known = λ c i. tt;
  }
  Known-continue Q type_error f k = record {
    keeps = λ c i. i;
    accessed = λ c i e. e;
    grows = λ c i e. e;
    known = λ c i. tt;
  }
  Known-continue Q value_error f k = record {
    keeps = λ c i. i;
    accessed = λ c i e. e;
    grows = λ c i e. e;
    known = λ c i. tt;
  }
  Known-continue Q not_implemented f k = record {
    keeps = λ c i. i;
    accessed = λ c i e. e;
    grows = λ c i e. e;
    known = λ c i. tt;
  }

  -- Reads in sequence are a read.
  pub Known-seq :
      {A B : Type 0} (R : A → Type 0) (Q : B → Type 0) (act : Action A) (f : A → Action B)
      → Known R act
      → ((a : A) → R a → Known Q (f a))
      → Known Q (act >>= f)
  unfolding ◌>>=◌
  Known-seq R Q act f t k = record {
    keeps = λ c i. (rest c i).keeps (act c).1 (t.keeps c i);
    accessed = λ c i e. t.accessed c i ((rest c i).accessed (act c).1 (t.keeps c i) e);
    grows = λ c i e. t.grows c i ((rest c i).grows (act c).1 (t.keeps c i) e);
    known = λ c i. (rest c i).known (act c).1 (t.keeps c i);
  }
    where
      rest : (c : Context) → Inv h fs pl m c → Known Q (continue (act c).0 f)
      rest c i = Known-continue Q (act c).0 f (λ a e. k a (post-at R (act c).0 a (t.known c i) e))

  pub Known-if :
      {A : Type 0} (R : A → Type 0) (b : Bool) (act other : Action A)
      → (b ≡ true → Known R act)
      → (b ≡ false → Known R other)
      → Known R (if b then act else other)
  Known-if R true act other t f = t refl
  Known-if R false act other t f = f refl

  pub Known-Triple :
      {A : Type 0} (R : A → Type 0) (act : Action A) → Known R act → Triple h fs pl m R act
  Known-Triple R act k = record {
    keeps = k.keeps;
    accessed = k.accessed;
    grows = k.grows;
    result = λ c i e. k.known c i;
  }

  -- An action that changes nothing.
  pub Known-gets :
      {A : Type 0} (R : A → Type 0) (f : Context → A)
      → ((c : Context) → Inv h fs pl m c → R (f c))
      → Known R (λ c. (ok (f c), c))
  Known-gets R f k = record {
    keeps = λ c i. i;
    accessed = λ c i e. e;
    grows = λ c i e. e;
    known = k;
  }
