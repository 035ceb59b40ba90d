-- ===== src/Common/Text.antt =====
-- Texts as the source uses them: code points, the order of `sorted`, and `str.strip`.
use Prim.Native.Nat.{ℕ, zero, suc, ◌+◌, ◌-◌, ◌*◌, ◌/◌, Ordering}
use Prim.Native.Char.{code}
use Prim.Native.String
use Prim.Native.String.{String, compare}
use mathlib.Core.Bool.{Bool, true, false, ◌&&◌, ◌||◌}
use mathlib.Core.List.{List, [], ◌∷◌}
use text.Mathlib.Text.{◌==◌ as str_eq}
use understudy.Common.Tests.{leb, ltb, ◌==◌, if◌then◌else◌}

abbrev pub codes : String → List ℕ
codes String.[] = []
codes (String.◌∷◌ c s) = code c ∷ codes s

-- Python compares texts by code points, which the order of their UTF-8 bytes agrees with.
unfoldable pub str_leb : String → String → Bool
str_leb s t = elim (compare s t) [ Ordering.gt ↦ false | _ ↦ true ]

-- `str.isspace` of one code point.
unfoldable pub is_space : ℕ → Bool
is_space c =
    (leb 9 c && leb c 13)
    || (leb 28 c && leb c 32)
    || c == 0x85
    || c == 0xa0
    || c == 0x1680
    || (leb 0x2000 c && leb c 0x200a)
    || c == 0x2028
    || c == 0x2029
    || c == 0x202f
    || c == 0x205f
    || c == 0x3000

unfoldable pub lstrip : String → String
unfolding is_space
lstrip String.[] = String.[]
lstrip (String.◌∷◌ c s) = let rest = lstrip s in if is_space (code c) then rest else String.◌∷◌ c s

unfoldable pub rstrip : String → String
unfolding is_space
rstrip String.[] = String.[]
rstrip (String.◌∷◌ c s) =
    let rest = rstrip s in
    if is_space (code c) && str_eq rest "" then String.[] else String.◌∷◌ c rest

-- `s.strip()`
unfoldable pub strip : String → String
unfolding lstrip rstrip
strip s = rstrip (lstrip s)

-- Python writes `s + t`.
infixr 65 ◌<>◌
abbrev pub ◌<>◌ : String → String → String
s <> t = String.◌++◌ s t

unfoldable pub starts_with : String → String → Bool
starts_with s String.[] = true
starts_with String.[] (String.◌∷◌ c t) = false
starts_with (String.◌∷◌ d s) (String.◌∷◌ c t) = code d == code c && starts_with s t

-- `t in s`
unfoldable pub contains : String → String → Bool
unfolding starts_with
contains String.[] t = starts_with String.[] t
contains (String.◌∷◌ c s) t = starts_with (String.◌∷◌ c s) t || contains s t

-- `s[:n]`
unfoldable pub take_text : ℕ → String → String
take_text zero s = String.[]
take_text (suc n) String.[] = String.[]
take_text (suc n) (String.◌∷◌ c s) = String.◌∷◌ c (take_text n s)

-- `c` lowered, where it is a letter of ASCII.
abbrev pub lower_code : ℕ → ℕ
lower_code c = if leb 65 c && leb c 90 then c + 32 else c

-- `s.lower().startswith(t)` for a `t` of ASCII letters other than `i` and `k`, which are no other
-- letter's lower case.
unfoldable pub lower_starts_with : String → String → Bool
lower_starts_with s String.[] = true
lower_starts_with String.[] (String.◌∷◌ c t) = false
lower_starts_with (String.◌∷◌ d s) (String.◌∷◌ c t) =
    lower_code (code d) == code c && lower_starts_with s t

abbrev pub digit : ℕ → String
digit n =
    if n == 0
    then "0"
    else if n == 1
    then "1"
    else if n == 2
    then "2"
    else if n == 3
    then "3"
    else if n == 4
    then "4"
    else if n == 5
    then "5"
    else if n == 6
    then "6"
    else if n == 7
    then "7"
    else if n == 8
    then "8"
    else "9"

-- A number has at most as many digits as it counts, and one more.
unfoldable pub decimal_of : ℕ → ℕ → String
decimal_of zero n = digit n
decimal_of (suc k) n =
    let rest = decimal_of k (n / 10) in
    if ltb n 10 then digit n else rest <> digit (n - (n / 10) * 10)

-- `str(n)`
unfoldable pub decimal : ℕ → String
unfolding decimal_of
decimal n = decimal_of n n
