-- ===== src/Decimal/RoundTrip.antt =====
-- Reading a decimal print gives the number back.
use Prim.Native.Char.{code}
use native.Mathlib.Nat.{pow-suc}
use text.Mathlib.TextLemmas.{nil-append, cons-append}
use coriolis_logger.Common.{
  ℕ, zero, suc, ◌+◌, ◌*◌, ◌/◌, ◌%◌, ◌^◌, ◌<◌, String, ◌≡◌, refl, ap, ◌∙◌, subst, inl, inr, arith,
  none, true, false, ltb, Bool-cases, ℤ, pos, negsuc, IsInt64, neg, word_mod, ◌⧺◌,
}
use coriolis_logger.Decimal.{
  digit, emit, format_uint, itoa, scanned, is_digit, scan, parse_uint, with_sign, parse_int,
}

code-digit : (d : ℕ) → d < 10 → code (digit d) ≡ 48 + d
unfolding digit
code-digit zero h = refl
code-digit (suc zero) h = refl
code-digit (suc (suc zero)) h = refl
code-digit (suc (suc (suc zero))) h = refl
code-digit (suc (suc (suc (suc zero)))) h = refl
code-digit (suc (suc (suc (suc (suc zero))))) h = refl
code-digit (suc (suc (suc (suc (suc (suc zero)))))) h = refl
code-digit (suc (suc (suc (suc (suc (suc (suc zero))))))) h = refl
code-digit (suc (suc (suc (suc (suc (suc (suc (suc zero)))))))) h = refl
code-digit (suc (suc (suc (suc (suc (suc (suc (suc (suc zero))))))))) h = refl
code-digit (suc (suc (suc (suc (suc (suc (suc (suc (suc (suc n)))))))))) h = absurd (omega arith)

-- One digit read moves the accumulator on.
scan-digit :
    (d n : ℕ) (out : String)
    → d < 10
    → n * 10 + d < word_mod
    → scan (String.◌∷◌ (digit d) out) n ≡ scan out (n * 10 + d)
unfolding scan is_digit
scan-digit d n out h fits = ground (arith, code-digit d h)

scan-emit :
    (fuel n : ℕ) (out : String)
    → n < 10 ^ fuel
    → n < word_mod
    → scan (emit fuel n out) 0 ≡ scan out n
unfolding emit
scan-emit zero n out h fits = let none_left : n ≡ 0 = omega arith in rw none_left
scan-emit (suc fuel) n out h fits = elim (Bool-cases (ltb n 10)) [
  | inl small ↦
      rw small (scan-digit n 0 out (ground arith) (omega arith) ∙ ap (scan out) (omega arith))
  | inr large ↦ rw large (
      scan-emit fuel (n / 10) (String.◌∷◌ (digit (n % 10)) out) (omega (arith, pow-suc 10 fuel))
        (omega arith)
      ∙ scan-digit (n % 10) (n / 10) out (omega arith) (omega arith)
      ∙ ap (scan out) (omega arith))
]

-- A text that begins with a decimal digit.
abbrev StartsWithDigit : String → Type 0
StartsWithDigit s = (d : ℕ) × (rest : String) × (s ≡ String.◌∷◌ (digit d) rest) × (d < 10)

emit-StartsWithDigit :
    (fuel n : ℕ) (s : String) → StartsWithDigit s → StartsWithDigit (emit fuel n s)
unfolding emit
emit-StartsWithDigit zero n s h = h
emit-StartsWithDigit (suc fuel) n s h = elim (Bool-cases (ltb n 10)) [
  | inl small ↦ rw small (n, s, refl, ground arith)
  | inr large ↦ rw large (
      emit-StartsWithDigit fuel (n / 10) (String.◌∷◌ (digit (n % 10)) s)
        (n % 10, s, refl, omega arith))
]

emit_once : (fuel n : ℕ) → StartsWithDigit (emit (suc fuel) n "")
unfolding emit
emit_once fuel n = elim (Bool-cases (ltb n 10)) [
  | inl small ↦ rw small (n, "", refl, ground arith)
  | inr large ↦ rw large (
      emit-StartsWithDigit fuel (n / 10) (String.◌∷◌ (digit (n % 10)) "")
        (n % 10, "", refl, omega arith))
]

format_uint-StartsWithDigit : (n : ℕ) → StartsWithDigit (format_uint n)
unfolding format_uint
format_uint-StartsWithDigit n = emit_once 19 n

scan-format : (n : ℕ) → n < word_mod → scan (format_uint n) 0 ≡ scanned n
unfolding format_uint scan
scan-format n h = scan-emit 20 n "" (omega arith) h

-- On a text that begins with a digit the sign is not looked for.
parse_int_unsigned :
    (d : ℕ) (rest : String)
    → d < 10
    → parse_int (String.◌∷◌ (digit d) rest) ≡ with_sign false (scan (String.◌∷◌ (digit d) rest) 0)
unfolding parse_int parse_uint
parse_int_unsigned d rest h = ground (arith, code-digit d h)

parse_uint-format : (n : ℕ) → n < word_mod → parse_uint (format_uint n) ≡ scanned n
unfolding parse_uint
parse_uint-format n h =
    let (d, rest, e, small) = format_uint-StartsWithDigit n in
    rw e (subst (λ s. scan s 0 ≡ scanned n) e (scan-format n h))

parse_int_minus : (s : String) → parse_int ("-" ⧺ s) ≡ with_sign true (parse_uint s)
unfolding parse_int
parse_int_minus s = rw (cons-append, nil-append)

-- Every int64 is read back from its decimal print, with no error.
pub parse_int-itoa : (a : ℤ) → IsInt64 a → parse_int (itoa a) ≡ (a, none)
unfolding itoa with_sign neg
parse_int-itoa (pos n) h =
    let (d, rest, e, small) = format_uint-StartsWithDigit n in
    rw e (
      parse_int_unsigned d rest small
      ∙ ap (with_sign false) (subst (λ s. scan s 0 ≡ scanned n) e (scan-format n (omega arith)))
      ∙ (ground arith))
parse_int-itoa (negsuc n) h =
    parse_int_minus (format_uint (suc n))
    ∙ ap (with_sign true) (parse_uint-format (suc n) (omega arith))
    ∙ (ground arith)
