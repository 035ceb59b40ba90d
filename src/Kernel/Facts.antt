-- ===== src/Kernel/Facts.antt =====
-- src/understudy/contracts/kernel.py: facts, and the names by which the kernel reads them.
use understudy.Common.{
  ℕ, String, Bool, true, false, Option, none, some, List, [], ◌∷◌, ℤ, Ratio, str_eq, eq_iff, ◌&&◌,
  if◌then◌else◌, ◌≡◌, ◌↔◌, arith,
}
use understudy.Contracts.Plan.{ResourceRef}

-- The text `base[key]` is `sub base key`; any other text is `plain`.
pub data FactName : Type 0 where
  plain : String → FactName
  sub : String → String → FactName

abbrev pub name_eq : FactName → FactName → Bool
name_eq (plain s) (plain t) = str_eq s t
name_eq (sub b k) (sub c j) = str_eq b c && str_eq k j
name_eq _ _ = false

pub name_eq_iff : (a b : FactName) → (name_eq a b ≡ true) ↔ (a ≡ b)
name_eq_iff (plain s) (plain t) = ground (arith, eq_iff s t)
name_eq_iff (plain s) (sub c j) = ground arith
name_eq_iff (sub b k) (plain t) = ground arith
name_eq_iff (sub b k) (sub c j) = ground (arith, eq_iff b c, eq_iff k j)

-- The Python values that facts hold. A float is the fraction that it stands for. `mapping` is a dict
-- among the items of a collection; its keys and values are texts.
pub data Scalar : Type 0 where
  int : ℤ → Scalar
  bool : Bool → Scalar
  real : Ratio → Scalar
  str : String → Scalar
  time : ℕ → Scalar
  ref : ResourceRef → Scalar
  mapping : List (String × String) → Scalar

-- `coll` is a set, frozenset, list or tuple.
pub data Value : Type 0 where
  scalar : Scalar → Value
  coll : List Scalar → Value

-- `table` is a Mapping from texts.
pub data FactValue : Type 0 where
  simple : Value → FactValue
  table : List (String × Value) → FactValue

pub data Source : Type 0 where
  k8s github tournament config graph store plan : Source

pub record Fact : Type 0 where
  pub name : FactName
  pub value : FactValue
  pub source : Source
  pub observed_at : ℕ

-- `{f.name: f for f in facts}[name]`: of facts with one name the last counts.
unfoldable pub find_fact : FactName → List Fact → Option Fact
find_fact n [] = none
find_fact n (f ∷ fs) =
    let later = find_fact n fs in
    elim later [ some g ↦ some g | none ↦ if name_eq n f.name then some f else none ]

-- `container[key]`
unfoldable pub find_key : String → List (String × Value) → Option Value
find_key k [] = none
find_key k ((j, v) ∷ rest) = if str_eq k j then some v else find_key k rest
