-- ===== src/Kernel/Term.antt =====
-- The part of Z3's term language that the kernel builds, with its documented meaning in a model.
-- Z3 is not code of the repository: the solver is a parameter of `verify`, and what is assumed of
-- it is `IsSound`.
use understudy.Common.{
  ℕ, String, Bool, true, false, not, ◌&&◌, ◌||◌, List, [], ◌∷◌, ℤ, ◌+ℤ◌, leb_ℤ, eqb_ℤ, Ratio, of_ℤ,
  leb_ratio, eqb_ratio, str_eq, ◌≡◌,
}
use understudy.Kernel.Facts.{FactName, Scalar, int, bool, real, str}

pub data Sort : Type 0 where
  int_sort bool_sort real_sort string_sort : Sort

-- `lit` is IntVal, BoolVal, RealVal and StringVal.
pub data Term : Type 0 where
  const : Sort → FactName → Term
  lit : Scalar → Term
  plus : Term → Term → Term

pub data Formula : Type 0 where
  constant : Bool → Formula
  truth : Term → Formula
  eq : Term → Term → Formula
  ge : Term → Term → Formula
  le : Term → Term → Formula
  negation : Formula → Formula
  conj : Formula → Formula → Formula
  disj : Formula → Formula → Formula

-- `z3.And(*fs)` and `z3.Or(fs)`
abbrev pub z3_and : List Formula → Formula
z3_and [] = constant true
z3_and (f ∷ fs) = conj f (z3_and fs)

abbrev pub z3_or : List Formula → Formula
z3_or [] = constant false
z3_or (f ∷ fs) = disj f (z3_or fs)

pub record Model : Type 0 where
  pub ints : FactName → ℤ
  pub bools : FactName → Bool
  pub reals : FactName → Ratio
  pub strings : FactName → String

-- An integer is coerced to a real where a real stands beside it.
abbrev pub scalar_le : Scalar → Scalar → Bool
scalar_le (int a) (int b) = leb_ℤ a b
scalar_le (int a) (real b) = leb_ratio (of_ℤ a) b
scalar_le (real a) (int b) = leb_ratio a (of_ℤ b)
scalar_le (real a) (real b) = leb_ratio a b
scalar_le _ _ = false

abbrev pub scalar_eq : Scalar → Scalar → Bool
scalar_eq (int a) (int b) = eqb_ℤ a b
scalar_eq (int a) (real b) = eqb_ratio (of_ℤ a) b
scalar_eq (real a) (int b) = eqb_ratio a (of_ℤ b)
scalar_eq (real a) (real b) = eqb_ratio a b
scalar_eq (bool true) (bool b) = b
scalar_eq (bool false) (bool b) = not b
scalar_eq (str s) (str t) = str_eq s t
scalar_eq _ _ = false

-- The kernel adds integers only.
abbrev pub scalar_plus : Scalar → Scalar → Scalar
scalar_plus (int a) (int b) = int (a +ℤ b)
scalar_plus a _ = a

abbrev pub scalar_truth : Scalar → Bool
scalar_truth (bool b) = b
scalar_truth _ = false

abbrev pub eval : Model → Term → Scalar
eval m (const int_sort n) = int (m.ints n)
eval m (const bool_sort n) = bool (m.bools n)
eval m (const real_sort n) = real (m.reals n)
eval m (const string_sort n) = str (m.strings n)
eval m (lit v) = v
eval m (plus a b) = scalar_plus (eval m a) (eval m b)

abbrev pub holds : Model → Formula → Bool
holds m (constant b) = b
holds m (truth t) = scalar_truth (eval m t)
holds m (eq a b) = scalar_eq (eval m a) (eval m b)
holds m (ge a b) = scalar_le (eval m b) (eval m a)
holds m (le a b) = scalar_le (eval m a) (eval m b)
holds m (negation f) = not (holds m f)
holds m (conj f g) = holds m f && holds m g
holds m (disj f g) = holds m f || holds m g

abbrev pub holds_all : Model → List Formula → Bool
holds_all m [] = true
holds_all m (f ∷ fs) = holds m f && holds_all m fs

pub data CheckResult : Type 0 where
  unsat : CheckResult
  sat : Model → CheckResult
  unknown : CheckResult

-- `Solver.check()` under a timeout in milliseconds, over the formulas asserted in its frame.
abbrev pub Solver : Type 0
Solver = ℕ → List Formula → CheckResult

-- What Z3 documents of its answers.
pub record IsSound (check : Solver) : Type 0 where
  pub unsat_sound :
      (t : ℕ) (fs : List Formula) (m : Model) → check t fs ≡ unsat → holds_all m fs ≡ false
  pub sat_sound :
      (t : ℕ) (fs : List Formula) (m : Model) → check t fs ≡ sat m → holds_all m fs ≡ true
