-- ===== src/Config/Strconv/Decimal.antt =====
-- Decimal numerals, as `fmt` prints them, are read back; and what is read fits into 64 bits.
use Prim.Native.Char.{code}
use Prim.Native.Nat.{◌/◌, ◌%◌}
use Prim.Native.String.{◌++◌ as append}
use text.Mathlib.TextLemmas.{nil-append, cons-append}
use scaffold_go.Base.{
  ℕ, zero, suc, ◌+◌, ◌*◌, ◌≤◌, ◌<◌, String, ◌≡◌, ◌≢◌, refl, sym, ap, subst, ◌∙◌, Bool, true, false,
  Bool-cases, inl, inr, List, [], ◌∷◌, ◌++◌, append_assoc, append-nil, ltb, ltb→lt, ◌==◌, arith,
}
use scaffold_go.Go.{ℤ, pos, negsuc}
use scaffold_go.Platform.{Result, ok}
use scaffold_go.Bindings.{digit, decimal, format_int}
use scaffold_go.Config.Strconv.{
  codes, Scan, number, bad_syntax, out_of_range, uint64_mod, int64_cutoff, scan_digits, parse_uint,
  negate, signed, scan_int, int_result, parse_int_10_64, atoi,
}

abbrev pub InInt64 : ℤ → Type 0
InInt64 (pos n) = n < int64_cutoff
InInt64 (negsuc n) = n < int64_cutoff

number_inj {ℓ} : {A : Type ℓ} {a b : A} → number a ≡ number b → a ≡ b
number_inj e = cc

ok_inj {ℓ} : {A : Type ℓ} {a b : A} → ◌≡◌ {A = Result A} (ok a) (ok b) → a ≡ b
ok_inj e = cc

out_of_range≢number {ℓ} : {A : Type ℓ} {a : A} → out_of_range ≢ number a
out_of_range≢number e = cc

negate-InInt64 : (n : ℕ) → n ≤ int64_cutoff → InInt64 (negate n)
negate-InInt64 zero h = omega arith
negate-InInt64 (suc n) h = omega arith

-- Whatever is read fits into an int64.
signed-InInt64 : (neg : Bool) (s : Scan ℕ) (z : ℤ) → signed neg s ≡ number z → InInt64 z
signed-InInt64 neg bad_syntax z e = cc
signed-InInt64 neg out_of_range z e = cc
signed-InInt64 false (number n) z e = elim (Bool-cases (ltb n int64_cutoff)) [
  | inl small ↦ subst InInt64 (number_inj (rw small at e)) (ltb→lt n int64_cutoff small)
  | inr large ↦ absurd (out_of_range≢number (rw large at e))
]
signed-InInt64 true (number n) z e = elim (Bool-cases (ltb int64_cutoff n)) [
  | inl large ↦ absurd (out_of_range≢number (rw large at e))
  | inr small ↦ subst InInt64 (number_inj (rw small at e)) (negate-InInt64 n (ground arith))
]

pub scan_int-InInt64 : (cs : List ℕ) (z : ℤ) → scan_int cs ≡ number z → InInt64 z
unfolding scan_int
scan_int-InInt64 [] z e = cc
scan_int-InInt64 (c ∷ cs) z e = elim (Bool-cases (c == b'+')) [
  | inl plus ↦ signed-InInt64 false (parse_uint cs) z (rw (plus, scan_int) at e)
  | inr no_plus ↦ elim (Bool-cases (c == b'-')) [
    | inl minus ↦ signed-InInt64 true (parse_uint cs) z (rw (no_plus, minus, scan_int) at e)
    | inr digit_first ↦
        signed-InInt64 false (parse_uint (c ∷ cs)) z (rw (no_plus, digit_first, scan_int) at e)
  ]
]

pub int_result-InInt64 :
    (fn s : String) (r : Scan ℤ) (z : ℤ)
    → ((y : ℤ) → r ≡ number y → InInt64 y)
    → int_result fn s r ≡ ok z
    → InInt64 z
int_result-InInt64 fn s (number n) z h e = subst InInt64 (ok_inj e) (h n refl)
int_result-InInt64 fn s bad_syntax z h e = cc
int_result-InInt64 fn s out_of_range z h e = cc

codes-append : (s t : String) → codes (append s t) ≡ codes s ++ codes t
codes-append String.[] t = ap codes (nil-append t)
codes-append (String.◌∷◌ c s) t =
    ap codes (cons-append c s t) ∙ ap (◌∷◌ (code c)) (codes-append s t)

codes-digit : (d : ℕ) → d < 10 → codes (digit d) ≡ (b'0' + d) ∷ []
unfolding digit
codes-digit zero h = refl
codes-digit (suc zero) h = refl
codes-digit (suc (suc zero)) h = refl
codes-digit (suc (suc (suc zero))) h = refl
codes-digit (suc (suc (suc (suc zero)))) h = refl
codes-digit (suc (suc (suc (suc (suc zero))))) h = refl
codes-digit (suc (suc (suc (suc (suc (suc zero)))))) h = refl
codes-digit (suc (suc (suc (suc (suc (suc (suc zero))))))) h = refl
codes-digit (suc (suc (suc (suc (suc (suc (suc (suc zero)))))))) h = refl
codes-digit (suc (suc (suc (suc (suc (suc (suc (suc (suc zero))))))))) h = refl
codes-digit (suc (suc (suc (suc (suc (suc (suc (suc (suc (suc n)))))))))) h = absurd (omega arith)

-- 10 to the power of the fuel.
abbrev bound : ℕ → ℕ
bound zero = 1
bound (suc fuel) = 10 * bound fuel

scan_digits-digit :
    (d n : ℕ) (rest : List ℕ)
    → d < 10
    → n * 10 + d < uint64_mod
    → scan_digits ((b'0' + d) ∷ rest) n ≡ scan_digits rest (n * 10 + d)
unfolding scan_digits
scan_digits-digit d n rest h k = ground arith

abbrev StartsWithDigit : List ℕ → Type 0
StartsWithDigit cs = (d : ℕ) × (rest : List ℕ) × (d < 10) × (cs ≡ (b'0' + d) ∷ rest)

-- The last digit of a longer numeral.
decimal-step :
    (fuel n : ℕ)
    → ltb n 10 ≡ false
    → codes (decimal (suc fuel) n) ≡ codes (decimal fuel (n / 10)) ++ (b'0' + n % 10) ∷ []
unfolding decimal
decimal-step fuel n long =
    ap codes (rw (long, decimal))
    ∙ codes-append (decimal fuel (n / 10)) (digit (n % 10))
    ∙ ap (λ l. codes (decimal fuel (n / 10)) ++ l) (codes-digit (n % 10) (omega arith))

scan-decimal :
    (fuel n : ℕ) (rest : List ℕ)
    → n < bound fuel
    → n < uint64_mod
    → scan_digits (codes (decimal fuel n) ++ rest) 0 ≡ scan_digits rest n
unfolding decimal
scan-decimal zero n rest h k = ap (scan_digits rest) (omega arith)
scan-decimal (suc fuel) n rest h k = elim (Bool-cases (ltb n 10)) [
  | inl short ↦
      ap (λ s. scan_digits (codes s ++ rest) 0) (rw (short, decimal))
      ∙ ap (λ l. scan_digits (l ++ rest) 0) (codes-digit n (ltb→lt n 10 short))
      ∙ scan_digits-digit n 0 rest (ltb→lt n 10 short) (omega arith)
      ∙ ap (scan_digits rest) (omega arith)
  | inr long ↦
      ap (λ l. scan_digits (l ++ rest) 0) (decimal-step fuel n long)
      ∙ ap (λ l. scan_digits l 0)
          (append_assoc (codes (decimal fuel (n / 10))) ((b'0' + n % 10) ∷ []) rest)
      ∙ scan-decimal fuel (n / 10) ((b'0' + n % 10) ∷ rest) (omega arith) (omega arith)
      ∙ scan_digits-digit (n % 10) (n / 10) rest (omega arith) (omega arith)
      ∙ ap (scan_digits rest) (omega arith)
]

decimal-short : (fuel n : ℕ) → ltb n 10 ≡ true → codes (decimal (suc fuel) n) ≡ (b'0' + n) ∷ []
unfolding decimal
decimal-short fuel n short = ap codes (rw (short, decimal)) ∙ codes-digit n (ltb→lt n 10 short)

-- A numeral begins with a digit.
decimal-first : (fuel n : ℕ) → StartsWithDigit (codes (decimal (suc fuel) n))
unfolding decimal
decimal-first zero n = elim (Bool-cases (ltb n 10)) [
  | inl short ↦ (n, [], ltb→lt n 10 short, decimal-short zero n short)
  | inr long ↦ (n % 10, [], omega arith, decimal-step zero n long)
]
decimal-first (suc fuel) n = elim (Bool-cases (ltb n 10)) [
  | inl short ↦ (n, [], ltb→lt n 10 short, decimal-short (suc fuel) n short)
  | inr long ↦
      let (d, rest, small, e) = decimal-first fuel (n / 10) in
      (
        d,
        rest ++ (b'0' + n % 10) ∷ [],
        small,
        decimal-step (suc fuel) n long ∙ ap (λ l. l ++ (b'0' + n % 10) ∷ []) e,
      )
]

-- A numeral without a sign, and one behind a minus.
parse_uint-decimal : (n : ℕ) → n < uint64_mod → parse_uint (codes (decimal 20 n)) ≡ number n
unfolding parse_uint
parse_uint-decimal n h =
    let (d, rest, small, e) = decimal-first 19 n in
    ap parse_uint e
    ∙ ap (λ l. scan_digits l 0) (sym e ∙ sym (append-nil (codes (decimal 20 n))))
    ∙ scan-decimal 20 n [] (omega arith) h

no_sign :
    (d : ℕ) (rest : List ℕ)
    → d < 10
    → scan_int ((b'0' + d) ∷ rest) ≡ signed false (parse_uint ((b'0' + d) ∷ rest))
unfolding scan_int
no_sign d rest h =
    let no_plus : ((b'0' + d) == b'+') ≡ false = ground arith in
    let no_minus : ((b'0' + d) == b'-') ≡ false = ground arith in rw (no_plus, no_minus)

scan_int-format_int : (z : ℤ) → InInt64 z → scan_int (codes (format_int z)) ≡ number z
unfolding format_int scan_int
scan_int-format_int (pos n) h =
    let (d, rest, small, e) = decimal-first 19 n in
    let fits : ltb n int64_cutoff ≡ true = ground arith in
    ap scan_int e
    ∙ no_sign d rest small
    ∙ ap (signed false) (ap parse_uint (sym e) ∙ parse_uint-decimal n (omega arith))
    ∙ rw fits
scan_int-format_int (negsuc n) h =
    let fits : ltb int64_cutoff (n + 1) ≡ false = ground arith in
    let next : n + 1 ≡ suc n = omega arith in
    ap scan_int (codes-append "-" (decimal 20 (n + 1)))
    ∙ ap (signed true) (parse_uint-decimal (n + 1) (omega arith))
    ∙ rw fits (ap (λ m. number (negate m)) next)

-- What `%d` prints of an int64, Atoi and ParseInt read back.
pub atoi-format_int : (z : ℤ) → InInt64 z → atoi (format_int z) ≡ ok z
unfolding atoi
atoi-format_int z h = ap (int_result "Atoi" (format_int z)) (scan_int-format_int z h)

pub parse_int_10_64-format_int : (z : ℤ) → InInt64 z → parse_int_10_64 (format_int z) ≡ ok z
unfolding parse_int_10_64
parse_int_10_64-format_int z h = ap (int_result "ParseInt" (format_int z)) (scan_int-format_int z h)
