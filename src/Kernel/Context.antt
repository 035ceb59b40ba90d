-- ===== src/Kernel/Context.antt =====
-- src/understudy/kernel/dsl.py: `KernelContext`, whose methods change its constants, assertions and
-- list of missing facts, and may raise. Each is an action that returns the context beside its
-- outcome. The proofs are in the child `Rules`.
pub mod Rules
use understudy.Common.{
  ℕ, String, Bool, true, false, ◌&&◌, ◌||◌, not, Option, none, some, List, [], ◌∷◌, ◌++◌, ℤ, pos,
  Ratio, of_ℤ, ratio, codes, leb, ◌==◌, is_empty, if◌then◌else◌,
}
use understudy.Contracts.Plan.{RemediationPlan}
use understudy.Kernel.Facts.{
  mapping, FactName, plain, sub, name_eq, Scalar, int, bool, real, str, time, ref, Value, scalar,
  coll, FactValue, simple, table, Fact, find_fact, find_key,
}
use understudy.Kernel.Term.{
  Sort, int_sort, bool_sort, real_sort, string_sort, Term, const, lit, Formula, eq,
}

-- What the code calls of Python and pydantic: `str(value)` of a value that is not a text, and
-- `datetime.fromisoformat`, which raises ValueError (`none`).
pub record Host : Type 0 where
  pub show : Value → String
  pub fromisoformat : String → Option ℕ

pub record Context : Type 0 where
  pub plan : RemediationPlan
  pub host : Host
  pub facts : List Fact
  pub constants : List (FactName × Term)
  pub assertions : List Formula
  pub missing_accessed : List FactName

-- `KernelContext(plan, facts)`
abbrev pub new_context : Host → RemediationPlan → List Fact → Context
new_context h p fs = record {
  plan = p;
  host = h;
  facts = fs;
  constants = [];
  assertions = [];
  missing_accessed = [];
}

pub data Outcome {ℓ} (A : Type ℓ) : Type ℓ where
  ok : A → Outcome A
  missing : FactName → Outcome A
  type_error : Outcome A
  value_error : Outcome A
  not_implemented : Outcome A

abbrev pub Action : Type 0 → Type 0
Action A = Context → Outcome A × Context

module _ {A : Type 0} where
  abbrev pub pure : A → Action A
  pure a c = (ok a, c)

  abbrev pub lift : Outcome A → Action A
  lift r c = (r, c)

module _ {A B : Type 0} where
  abbrev pub continue : Outcome A → (A → Action B) → Action B
  continue (ok a) f c = f a c
  continue (missing n) f c = (missing n, c)
  continue type_error f c = (type_error, c)
  continue value_error f c = (value_error, c)
  continue not_implemented f c = (not_implemented, c)

  infixl 10 ◌>>=◌ ◌>>◌
  unfoldable pub ◌>>=◌ : Action A → (A → Action B) → Action B
  ◌>>=◌ m f c = let (r, c') = m c in continue r f c'

  abbrev pub ◌>>◌ : Action A → Action B → Action B
  m >> n = m >>= λ _. n

-- The characters of _SUBSCRIPT_PATTERN: `[a-zA-Z0-9_]`, and `-` too in the key.
abbrev is_word : ℕ → Bool
is_word c = (leb 97 c && leb c 122) || (leb 65 c && leb c 90) || (leb 48 c && leb c 57) || c == 95

abbrev all_codes : (ℕ → Bool) → List ℕ → Bool
all_codes p [] = true
all_codes p (c ∷ cs) = p c && all_codes p cs

unfoldable pub matches_subscript : String → String → Bool
matches_subscript base key =
    not (is_empty (codes base))
    && all_codes is_word (codes base)
    && not (is_empty (codes key))
    && all_codes (λ c. is_word c || c == 45) (codes key)

-- The entry of a container fact, as a fact of its own.
abbrev pub entry_of : FactName → String → FactValue → Fact → Option Fact
entry_of n k (simple v) f = none
entry_of n k (table kvs) f = elim (find_key k kvs) [
  | none ↦ none
  | some v ↦ some (record f { name = n; value = simple v })
]

abbrev pub entry : FactName → String → Option Fact → Option Fact
entry n k none = none
entry n k (some f) = entry_of n k f.value f

abbrev pub subscript : FactName → List Fact → Option Fact
subscript (plain s) fs = none
subscript (sub b k) fs =
    if matches_subscript b k then entry (sub b k) k (find_fact (plain b) fs) else none

-- The two attempts that `has_fact` and `get_fact` share.
unfoldable pub lookup_fact : FactName → List Fact → Option Fact
lookup_fact n fs = elim (find_fact n fs) [ some f ↦ some f | none ↦ subscript n fs ]

abbrev pub is_some {ℓ} : {A : Type ℓ} → Option A → Bool
is_some none = false
is_some (some a) = true

unfoldable pub has_fact : Context → FactName → Bool
has_fact c n = is_some (lookup_fact n c.facts)

-- An absent name is noted in `_missing_accessed` before MissingFact is raised.
abbrev found_or_missing : FactName → Option Fact → Action Fact
found_or_missing n none c =
    (missing n, record c { missing_accessed = c.missing_accessed ++ n ∷ [] })
found_or_missing n (some f) c = (ok f, c)

unfoldable pub get_fact : FactName → Action Fact
get_fact n c = found_or_missing n (lookup_fact n c.facts) c

unfoldable pub get_raw : FactName → Action FactValue
unfolding get_fact ◌>>=◌
get_raw n = do f ← get_fact n; pure f.value

-- The typed reads of a raw value; a Python bool is not accepted as an int or a float.
abbrev pub as_int : FactValue → Outcome ℤ
as_int (simple (scalar (int n))) = ok n
as_int _ = type_error

abbrev pub as_bool : FactValue → Outcome Bool
as_bool (simple (scalar (bool b))) = ok b
as_bool _ = type_error

abbrev pub as_float : FactValue → Outcome Ratio
as_float (simple (scalar (int n))) = ok (of_ℤ n)
as_float (simple (scalar (real r))) = ok r
as_float _ = type_error

abbrev pub as_str : FactValue → Outcome String
as_str (simple (scalar (str s))) = ok s
as_str _ = type_error

abbrev pub parsed : Option ℕ → Outcome ℕ
parsed none = value_error
parsed (some t) = ok t

abbrev pub as_datetime : Host → FactValue → Outcome ℕ
as_datetime h (simple (scalar (time t))) = ok t
as_datetime h (simple (scalar (str s))) = parsed (h.fromisoformat s)
as_datetime h _ = type_error

-- Whether `set(xs)` meets a dict, which has no hash.
abbrev is_unhashable : List Scalar → Bool
is_unhashable [] = false
is_unhashable (mapping kvs ∷ xs) = true
is_unhashable (_ ∷ xs) = is_unhashable xs

abbrev pub as_set : FactValue → Outcome (List Scalar)
as_set (simple (coll xs)) = if is_unhashable xs then type_error else ok xs
as_set _ = type_error

unfoldable pub get_int : FactName → Action ℤ
unfolding get_raw
get_int n = do v ← get_raw n; lift (as_int v)

unfoldable pub get_bool : FactName → Action Bool
unfolding get_raw
get_bool n = do v ← get_raw n; lift (as_bool v)

unfoldable pub get_float : FactName → Action Ratio
unfolding get_raw
get_float n = do v ← get_raw n; lift (as_float v)

unfoldable pub get_str : FactName → Action String
unfolding get_raw
get_str n = do v ← get_raw n; lift (as_str v)

unfoldable pub get_datetime : FactName → Action ℕ
unfolding get_raw
get_datetime n = do v ← get_raw n; λ c. (as_datetime c.host v, c)

unfoldable pub get_set : FactName → Action (List Scalar)
unfolding get_raw
get_set n = do v ← get_raw n; lift (as_set v)

unfoldable pub find_const : FactName → List (FactName × Term) → Option Term
find_const n [] = none
find_const n ((m, t) ∷ rest) = if name_eq n m then some t else find_const n rest

-- The first use of a name makes its constant and asserts its value; later uses return the constant.
abbrev bind_const : Option Term → Sort → Scalar → FactName → Action Term
bind_const (some t) s v n c = (ok t, c)
bind_const none s v n c = (
  ok (const s n),
  record c {
    constants = (n, const s n) ∷ c.constants;
    assertions = c.assertions ++ eq (const s n) (lit v) ∷ [];
  },
)

unfoldable pub register : Sort → Scalar → FactName → Action Term
register s v n c = bind_const (find_const n c.constants) s v n c

unfoldable pub int_const : FactName → Action Term
unfolding get_int register
int_const n = do v ← get_int n; register int_sort (int v) n

unfoldable pub bool_const : FactName → Action Term
unfolding get_bool register
bool_const n = do v ← get_bool n; register bool_sort (bool v) n

unfoldable pub real_const : FactName → Action Term
unfolding get_float register
real_const n = do v ← get_float n; register real_sort (real v) n

unfoldable pub string_const : FactName → Action Term
unfolding get_str register
string_const n = do v ← get_str n; register string_sort (str v) n

-- `dt.timestamp()`, in seconds.
abbrev pub timestamp : ℕ → Ratio
timestamp t = ratio (pos t) 1000000

unfoldable pub datetime_const : FactName → Action Term
unfolding get_datetime register
datetime_const n = do v ← get_datetime n; register real_sort (real (timestamp v)) n
