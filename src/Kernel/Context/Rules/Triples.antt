-- ===== src/Kernel/Context/Rules/Triples.antt =====
-- What an action of KernelContext keeps: good contexts, and what its assertions say.
use understudy.Common.{
  ℕ, String, Bool, true, false, List, ℤ, Ratio, eqb_ratio, All, is_empty, if◌then◌else◌, ◌≡◌, refl,
}
use understudy.Contracts.Plan.{RemediationPlan}
use understudy.Kernel.Facts.{FactName, int, bool, real, str, Fact}
use understudy.Kernel.Term.{Term, Model, eval, holds_all}
use understudy.Kernel.Context.{
  Host, Context, Outcome, ok, missing, type_error, value_error, not_implemented, Action, pure, lift,
  continue, ◌>>=◌, as_int, as_bool, as_float, as_str, as_datetime, timestamp,
}
use understudy.Kernel.Context.Rules.Models.{
  Kind, int_kind, bool_kind, float_kind, string_kind, datetime_kind, kind_of, ReadsAs, fact_model,
}

module _ (h : Host) (fs : List Fact) (pl : RemediationPlan) (m : Model) where
  -- A model and a term agree with the fact `n`.
  abbrev pub Agrees : Kind → FactName → Term → Type 0
  Agrees int_kind n t = (v : ℤ) × ReadsAs as_int fs n v × (eval m t ≡ int v)
  Agrees bool_kind n t = (v : Bool) × ReadsAs as_bool fs n v × (eval m t ≡ bool v)
  Agrees string_kind n t = (v : String) × ReadsAs as_str fs n v × (eval m t ≡ str v)
  Agrees float_kind n t =
      (v q : Ratio) × ReadsAs as_float fs n v × (eval m t ≡ real q) × (eqb_ratio q v ≡ true)
  Agrees datetime_kind n t =
      (v : ℕ) × (q : Ratio) × ReadsAs (as_datetime h) fs n v
      × (eval m t ≡ real q)
      × (eqb_ratio q (timestamp v) ≡ true)

  pub record Inv (c : Context) : Type 0 where
    pub facts : c.facts ≡ fs
    pub host : c.host ≡ h
    pub plan : c.plan ≡ pl
    pub satisfiable : holds_all (fact_model h fs) c.assertions ≡ true
    pub bound :
        holds_all m c.assertions ≡ true → All (λ p. Agrees (kind_of p.0) p.0 p.1) c.constants

  abbrev pub Post : {A : Type 0} → (A → Type 0) → Outcome A → Type 0
  Post P (ok a) = P a
  Post P _ = Unit

  -- From a good context the action ends in a good one, and in every model of the assertions that
  -- it leaves its result satisfies `P`.
  pub record Triple {A : Type 0} (P : A → Type 0) (act : Action A) : Type 0 where
    pub keeps : (c : Context) → Inv c → Inv (act c).1
    pub accessed :
        (c : Context)
        → Inv c
        → is_empty (act c).1.missing_accessed ≡ true
        → is_empty c.missing_accessed ≡ true
    pub grows :
        (c : Context)
        → Inv c
        → holds_all m (act c).1.assertions ≡ true
        → holds_all m c.assertions ≡ true
    pub result : (c : Context) → Inv c → holds_all m (act c).1.assertions ≡ true → Post P (act c).0

  pub Triple-pure : {A : Type 0} (P : A → Type 0) (a : A) → P a → Triple P (pure a)
  Triple-pure P a p = record {
    keeps = λ c i. i;
    accessed = λ c i e. e;
    grows = λ c i e. e;
    result = λ c i e. p;
  }

  pub Triple-lift :
      {A : Type 0} (P : A → Type 0) (r : Outcome A) → ((a : A) → r ≡ ok a → P a) → Triple P (lift r)
  Triple-lift P r f = record {
    keeps = λ c i. i;
    accessed = λ c i e. e;
    grows = λ c i e. e;
    result = λ c i e. post r f;
  }
    where
      post : {A : Type 0} {P : A → Type 0} (r : Outcome A) → ((a : A) → r ≡ ok a → P a) → Post P r
      post (ok a) f = f a refl
      post (missing n) f = tt
      post _ f = tt

  pub Triple-continue :
      {A B : Type 0} (Q : B → Type 0) (r : Outcome A) (f : A → Action B)
      → ((a : A) → r ≡ ok a → Triple Q (f a))
      → Triple Q (continue r f)
  Triple-continue Q (ok a) f k = k a refl
  Triple-continue Q (missing n) f k = Triple-lift Q (missing n) (λ a e. cc)
  Triple-continue Q type_error f k = Triple-lift Q type_error (λ a e. cc)
  Triple-continue Q value_error f k = Triple-lift Q value_error (λ a e. cc)
  Triple-continue Q not_implemented f k = Triple-lift Q not_implemented (λ a e. cc)

  weaken-Post :
      {A : Type 0} (P Q : A → Type 0)
      → ((a : A) → P a → Q a)
      → (r : Outcome A) → Post P r
      → Post Q r
  weaken-Post P Q f (ok a) p = f a p
  weaken-Post P Q f (missing n) p = tt
  weaken-Post P Q f type_error p = tt
  weaken-Post P Q f value_error p = tt
  weaken-Post P Q f not_implemented p = tt

  pub Triple-weaken :
      {A : Type 0} (P Q : A → Type 0) (act : Action A)
      → ((a : A) → P a → Q a)
      → Triple P act
      → Triple Q act
  Triple-weaken P Q act f t = record {
    keeps = t.keeps;
    accessed = t.accessed;
    grows = t.grows;
    result = λ c i e. weaken-Post P Q f (act c).0 (t.result c i e);
  }

  use-Post :
      {A B : Type 0} (P : A → Type 0) (Q : B → Type 0) (a : A) (s : Outcome B)
      → P a
      → Post (λ b. P a → Q b) s
      → Post Q s
  use-Post P Q a (ok b) p k = k p
  use-Post P Q a (missing n) p k = tt
  use-Post P Q a type_error p k = tt
  use-Post P Q a value_error p k = tt
  use-Post P Q a not_implemented p k = tt

  continue-result :
      {A B : Type 0} (P : A → Type 0) (Q : B → Type 0) (r : Outcome A) (f : A → Action B)
      → ((a : A) → Triple (λ b. P a → Q b) (f a))
      → (c : Context) → Inv c
      → (holds_all m c.assertions ≡ true → Post P r)
      → holds_all m (continue r f c).1.assertions ≡ true
      → Post Q (continue r f c).0
  continue-result P Q (ok a) f k c i p e =
      use-Post P Q a (f a c).0 (p ((k a).grows c i e)) ((k a).result c i e)
  continue-result P Q (missing n) f k c i p e = tt
  continue-result P Q type_error f k c i p e = tt
  continue-result P Q value_error f k c i p e = tt
  continue-result P Q not_implemented f k c i p e = tt

  -- The rest of a block may use the post-condition of its first step.
  pub Triple-bind :
      {A B : Type 0} (P : A → Type 0) (Q : B → Type 0) (act : Action A) (f : A → Action B)
      → Triple P act
      → ((a : A) → Triple (λ b. P a → Q b) (f a))
      → Triple Q (act >>= f)
  unfolding ◌>>=◌
  Triple-bind P Q act f t k = record {
    keeps = λ c i. (rest c).keeps (act c).1 (t.keeps c i);
    accessed = λ c i e. t.accessed c i ((rest c).accessed (act c).1 (t.keeps c i) e);
    grows = λ c i e. t.grows c i ((rest c).grows (act c).1 (t.keeps c i) e);
    result = λ c i e. continue-result P Q (act c).0 f k (act c).1 (t.keeps c i) (t.result c i) e;
  }
    where
      rest : (c : Context) → Triple (λ b. Unit {0}) (continue (act c).0 f)
      rest c =
          Triple-continue (λ b. Unit) (act c).0 f
            (λ a _. Triple-weaken (λ b. P a → Q b) (λ b. Unit) (f a) (λ b _. tt) (k a))

  pub Triple-if :
      {A : Type 0} (P : A → Type 0) (b : Bool) (act other : Action A)
      → (b ≡ true → Triple P act)
      → (b ≡ false → Triple P other)
      → Triple P (if b then act else other)
  Triple-if P true act other t f = t refl
  Triple-if P false act other t f = f refl
