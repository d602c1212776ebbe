-- ===== src/CString.antt =====
-- The functions of the C library on strings that src/shared/secondary uses: strtol, strtoul, strtok_r,
-- strstr and the comparisons. A string is the list of its bytes before the terminating 0.
-- A `long` and an `int` are their two's complement, of 64 and 32 bits.
pub mod Decimal
pub mod Tokens
use Prim.Native.Char.{code}
use Prim.Native.String.{String}
use spp_tmp.Base.{
  ℕ, zero, suc, ◌+◌, ◌-◌, ◌*◌, ◌%◌, ◌^◌, Bool, true, false, ◌&&◌, ◌||◌, not, Option, none, some,
  List, [], ◌∷◌, ◌==◌, if◌then◌else◌, ltb, leb, drop,
}

-- The bytes of an ASCII literal. `String` has its own `[]` and `∷`.
abbrev pub codes : String → List ℕ
codes String.[] = []
codes (String.◌∷◌ c s) = code c ∷ codes s

abbrev pub between : ℕ → ℕ → ℕ → Bool
between lo hi c = leb lo c && leb c hi

abbrev pub is_space : ℕ → Bool
is_space c = between 9 13 c || c == b' '

-- The value of a digit or a letter; 99 is no digit in any base.
abbrev pub digit_val : ℕ → ℕ
digit_val c =
    if between b'0' b'9' c
    then c - b'0'
    else if between b'a' b'z' c
    then c - b'a' + 10
    else if between b'A' b'Z' c
    then c - b'A' + 10
    else 99

-- The longest run of digits, behind those with the value `acc`, and what is left.
unfoldable pub digits : ℕ → ℕ → List ℕ → ℕ × List ℕ
digits base acc [] = (acc, [])
digits base acc (c ∷ cs) =
    let rest = digits base (acc * base + digit_val c) cs in
    if ltb (digit_val c) base then rest else (acc, c ∷ cs)

unfoldable pub number : ℕ → List ℕ → Option (ℕ × List ℕ)
unfolding digits
number base [] = none
number base (c ∷ cs) = if ltb (digit_val c) base then some (digits base 0 (c ∷ cs)) else none

-- `0x` and a digit behind it
unfoldable pub is_hex : List ℕ → Bool
is_hex (z ∷ x ∷ h ∷ cs) = (z == b'0') && (x == b'x' || x == b'X') && ltb (digit_val h) 16
is_hex _ = false

unfoldable pub starts_zero : List ℕ → Bool
starts_zero (c ∷ cs) = c == b'0'
starts_zero [] = false

-- The number behind the sign. In base 0 the text says which base it is in.
unfoldable pub based : ℕ → List ℕ → Option (ℕ × List ℕ)
unfolding number is_hex starts_zero
based base s =
    if (base == 0 || base == 16) && is_hex s
    then number 16 (drop 2 s)
    else number (if not (base == 0) then base else if starts_zero s then 8 else 10) s

unfoldable pub skip_space : List ℕ → List ℕ
skip_space [] = []
skip_space (c ∷ cs) = if is_space c then skip_space cs else c ∷ cs

unfoldable pub sign : List ℕ → Bool × List ℕ
sign [] = (false, [])
sign (c ∷ cs) = if c == b'-' then (true, cs) else if c == b'+' then (false, cs) else (false, c ∷ cs)

abbrev pub to_long : Bool → ℕ → ℕ
to_long neg m =
    if neg
    then (if leb m (2 ^ 63) then (2 ^ 64 - m) % 2 ^ 64 else 2 ^ 63)
    else (if leb m (2 ^ 63 - 1) then m else 2 ^ 63 - 1)

abbrev pub to_ulong : Bool → ℕ → ℕ
to_ulong neg m =
    if not (leb m (2 ^ 64 - 1)) then 2 ^ 64 - 1 else if neg then (2 ^ 64 - m) % 2 ^ 64 else m

unfoldable pub valued : (Bool → ℕ → ℕ) → ℕ → Bool × List ℕ → Option (ℕ × List ℕ)
unfolding based
valued value base (neg, t) = elim (based base t) [
  | none ↦ none
  | some (m, rest) ↦ some (value neg m, rest)
]

-- The value and what `endptr` points to; `none` if there is no number, where `endptr` is the string.
unfoldable pub convert : (Bool → ℕ → ℕ) → ℕ → List ℕ → Option (ℕ × List ℕ)
unfolding skip_space sign valued
convert value base s = valued value base (sign (skip_space s))

abbrev pub strtol : ℕ → List ℕ → Option (ℕ × List ℕ)
strtol = convert to_long

abbrev pub strtoul : ℕ → List ℕ → Option (ℕ × List ℕ)
strtoul = convert to_ulong

-- `endptr != str && *endptr == '\0'`
abbrev pub whole : Option (ℕ × List ℕ) → Option ℕ
whole (some (v, [])) = some v
whole _ = none

-- The conversion to a 32-bit type, and the sign and the order of an `int`.
abbrev pub to_int : ℕ → ℕ
to_int v = v % 4_294_967_296

abbrev pub is_neg : ℕ → Bool
is_neg v = leb 2_147_483_648 v

abbrev pub int_lt : ℕ → ℕ → Bool
int_lt a b = ltb ((a + 2_147_483_648) % 4_294_967_296) ((b + 2_147_483_648) % 4_294_967_296)

unfoldable pub skip : ℕ → List ℕ → List ℕ
skip d [] = []
skip d (c ∷ cs) = if c == d then skip d cs else c ∷ cs

-- The bytes before the first delimiter, and those behind it.
unfoldable pub span : ℕ → List ℕ → List ℕ × List ℕ
span d [] = ([], [])
span d (c ∷ cs) = let (t, r) = span d cs in if c == d then ([], cs) else (c ∷ t, r)

-- One delimiter. The token, and what `saveptr` points to.
unfoldable pub strtok_r : ℕ → List ℕ → Option (List ℕ × List ℕ)
unfolding skip span
strtok_r d s = elim (skip d s) [ [] ↦ none | c ∷ cs ↦ some (span d (c ∷ cs)) ]

-- `strncmp(s, p, strlen(p)) == 0`, with the bytes behind the prefix.
unfoldable pub strip : List ℕ → List ℕ → Option (List ℕ)
strip [] s = some s
strip (p ∷ ps) [] = none
strip (p ∷ ps) (c ∷ cs) = if c == p then strip ps cs else none

unfoldable pub is_prefix : List ℕ → List ℕ → Bool
unfolding strip
is_prefix p s = elim (strip p s) [ none ↦ false | some r ↦ true ]

-- What the pointer points to; `none` is NULL.
unfoldable pub strstr : List ℕ → List ℕ → Option (List ℕ)
unfolding is_prefix
strstr p [] = if is_prefix p [] then some [] else none
strstr p (c ∷ cs) = if is_prefix p (c ∷ cs) then some (c ∷ cs) else strstr p cs
