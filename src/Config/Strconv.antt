-- ===== src/Config/Strconv.antt =====
-- What config.go uses of package strconv: ParseInt in base 10 with 64 bits, Atoi and ParseBool. An
-- `int` has 64 bits.
pub mod Decimal
use Prim.Native.Char.{code}
use scaffold_go.Base.{
  ℕ, zero, suc, ◌+◌, ◌-◌, ◌*◌, String, Bool, true, false, not, ◌&&◌, ◌||◌, Option, none, some, List,
  [], ◌∷◌, ltb, ◌==◌, str_eq, if◌then◌else◌,
}
use scaffold_go.Go.{ℤ, pos, negsuc, Error, message, sprintf, str}
use scaffold_go.Platform.{Result, ok, err}

-- The code points of a text. A digit or a sign is one byte.
abbrev pub codes : String → List ℕ
codes String.[] = []
codes (String.◌∷◌ c s) = code c ∷ codes s

-- How reading a number ends: with a number, `ErrSyntax` or `ErrRange`.
pub data Scan {ℓ} (A : Type ℓ) : Type ℓ where
  number : A → Scan A
  bad_syntax out_of_range : Scan A

abbrev pub is_digit : ℕ → Bool
is_digit c = not (ltb c b'0') && not (ltb b'9' c)

abbrev pub uint64_mod : ℕ
uint64_mod = 18446744073709551616

abbrev pub int64_cutoff : ℕ
int64_cutoff = 9223372036854775808

-- The loop of ParseUint, with the number so far. It stops at the first character that is no digit,
-- or at which the number does not fit into a uint64.
unfoldable pub scan_digits : List ℕ → ℕ → Scan ℕ
scan_digits [] n = number n
scan_digits (c ∷ cs) n =
    let rest = scan_digits cs (n * 10 + (c - b'0')) in
    if is_digit c
    then if ltb (n * 10 + (c - b'0')) uint64_mod then rest else out_of_range
    else bad_syntax

unfoldable pub parse_uint : List ℕ → Scan ℕ
unfolding scan_digits
parse_uint [] = bad_syntax
parse_uint (c ∷ cs) = scan_digits (c ∷ cs) 0

abbrev pub negate : ℕ → ℤ
negate zero = pos zero
negate (suc n) = negsuc n

-- What ParseInt makes of the sign and the number behind it.
abbrev pub signed : Bool → Scan ℕ → Scan ℤ
signed neg bad_syntax = bad_syntax
signed neg out_of_range = out_of_range
signed false (number n) = if ltb n int64_cutoff then number (pos n) else out_of_range
signed true (number n) = if ltb int64_cutoff n then out_of_range else number (negate n)

unfoldable pub scan_int : List ℕ → Scan ℤ
unfolding parse_uint
scan_int [] = bad_syntax
scan_int (c ∷ cs) =
    if c == b'+'
    then signed false (parse_uint cs)
    else if c == b'-'
    then signed true (parse_uint cs)
    else signed false (parse_uint (c ∷ cs))

-- The text of a `*strconv.NumError`.
abbrev pub num_error : String → String → String → Error
num_error fn s reason =
    message (sprintf "strconv.%s: parsing %q: %s" (str fn ∷ str s ∷ str reason ∷ []))

abbrev pub int_result : String → String → Scan ℤ → Result ℤ
int_result fn s (number n) = ok n
int_result fn s bad_syntax = err (num_error fn s "invalid syntax")
int_result fn s out_of_range = err (num_error fn s "value out of range")

-- `strconv.ParseInt(s, 10, 64)`
unfoldable pub parse_int_10_64 : String → Result ℤ
unfolding scan_int
parse_int_10_64 s = int_result "ParseInt" s (scan_int (codes s))

-- `strconv.Atoi(s)`
unfoldable pub atoi : String → Result ℤ
unfolding scan_int
atoi s = int_result "Atoi" s (scan_int (codes s))

abbrev is_true : String → Bool
is_true s =
    str_eq s "1"
    || str_eq s "t"
    || str_eq s "T"
    || str_eq s "true"
    || str_eq s "TRUE"
    || str_eq s "True"

abbrev is_false : String → Bool
is_false s =
    str_eq s "0"
    || str_eq s "f"
    || str_eq s "F"
    || str_eq s "false"
    || str_eq s "FALSE"
    || str_eq s "False"

-- `strconv.ParseBool(s)`
unfoldable pub strconv_parse_bool : String → Result Bool
strconv_parse_bool s =
    if is_true s
    then ok true
    else if is_false s
    then ok false
    else err (num_error "ParseBool" s "invalid syntax")
