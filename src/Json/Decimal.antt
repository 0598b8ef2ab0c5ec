-- ===== src/Json/Decimal.antt =====
-- The decimal numbers of `write_canonical`, and what `parse_number` of src/core/json.cpp reads back.
use runtime_code_skeptic.Base.{
  ℕ, zero, suc, ◌+◌, ◌-◌, ◌*◌, ◌/◌, ◌%◌, ltb, ◌≤◌, ◌<◌, Bool, true, false, ◌||◌, [], ◌∷◌, ◌++◌, All,
  All-append, ◌==◌, if-intro, ◌≡◌, refl, ◌∙◌, Bytes, arith,
}
use runtime_code_skeptic.Range.{uint64_max}
use runtime_code_skeptic.Json.{Value, Signed}
use runtime_code_skeptic.Json.Lexer.{Parsed, is_digit}
use runtime_code_skeptic.Json.Lexer.Number.{
  span_digits, from_digits, fraction, exponent, whole_digits, integer, parse_unsigned, parse_number,
}
use runtime_code_skeptic.Json.Writer.{digits_of, decimal, signed_decimal}

abbrev pub IsDigit : ℕ → Type 0
IsDigit c = is_digit c ≡ true

-- What may follow a number: no digit, no point and no exponent mark.
abbrev pub EndsNumber : Bytes → Type 0
EndsNumber [] = Unit
EndsNumber (c ∷ rest) =
    (is_digit c ≡ false) × (((c == 46) ≡ false) × ((c == 101 || c == 69) ≡ false))

span_digits-append :
    (ds rest : Bytes) → All IsDigit ds → EndsNumber rest → span_digits (ds ++ rest) ≡ (ds, rest)
unfolding span_digits
span_digits-append [] [] h e = refl
span_digits-append [] (c ∷ rest) h e = rw (e.0) refl
span_digits-append (d ∷ ds) rest h e =
    let ih = span_digits-append ds rest h.1 e in rw (h.0, ih) refl

from_digits-append :
    (v : ℕ) (ds : Bytes) (c : ℕ) → from_digits v (ds ++ (c ∷ [])) ≡ from_digits v ds * 10 + (c - 48)
unfolding from_digits
from_digits-append v [] c = refl
from_digits-append v (d ∷ ds) c = from_digits-append (v * 10 + (d - 48)) ds c

digits_of-All : (f n : ℕ) → All IsDigit (digits_of f n)
unfolding digits_of
digits_of-All zero n = tt
digits_of-All (suc f) n =
    if-intro (All IsDigit) (ltb n 10) (λ e. (ground arith, tt))
      (λ e.
        All-append IsDigit (digits_of f (n / 10)) _ (digits_of-All f (n / 10)) (ground arith, tt))

-- The digits of a number are read back as the number.
from_digits-digits_of : (f n : ℕ) → n < f → from_digits 0 (digits_of f n) ≡ n
unfolding digits_of from_digits
from_digits-digits_of zero n h = absurd (omega arith)
from_digits-digits_of (suc f) n h =
    if-intro (λ ds. from_digits 0 ds ≡ n) (ltb n 10) (λ e. omega arith)
      (λ e.
        let ih = from_digits-digits_of f (n / 10) (ground arith) in
        let step = from_digits-append 0 (digits_of f (n / 10)) (48 + n % 10) in
        rw (step, ih) (omega arith))

-- A list that does not start with a zero.
abbrev StartsNonzero : Bytes → Type 0
StartsNonzero [] = ⊥
StartsNonzero (c ∷ ds) = (is_digit c ≡ true) × ((c == 48) ≡ false)

StartsNonzero-append : (ds es : Bytes) → StartsNonzero ds → StartsNonzero (ds ++ es)
StartsNonzero-append [] es h = absurd h
StartsNonzero-append (d ∷ ds) es h = h

digits_of-StartsNonzero : (f n : ℕ) → n < f → 0 < n → StartsNonzero (digits_of f n)
unfolding digits_of
digits_of-StartsNonzero zero n h k = absurd (omega arith)
digits_of-StartsNonzero (suc f) n h k =
    if-intro StartsNonzero (ltb n 10) (λ e. (ground arith, ground arith))
      (λ e.
        StartsNonzero-append (digits_of f (n / 10)) _
          (digits_of-StartsNonzero f (n / 10) (ground arith) (ground arith)))

whole_digits-nonzero :
    (ds rest : Bytes)
    → StartsNonzero ds
    → All IsDigit ds
    → EndsNumber rest
    → whole_digits (ds ++ rest) ≡ Parsed.ok ds rest
unfolding whole_digits
whole_digits-nonzero [] rest s a e = absurd s
whole_digits-nonzero (c ∷ ds) rest s a e =
    let span = span_digits-append ds rest (a.1) e in rw (s.0, s.1, span) refl

-- The whole part of the text of a number.
whole_digits-decimal :
    (n : ℕ) (rest : Bytes)
    → EndsNumber rest
    → whole_digits (decimal n ++ rest) ≡ Parsed.ok (decimal n) rest
unfolding whole_digits digits_of
whole_digits-decimal zero rest e = refl
whole_digits-decimal (suc n) rest e =
    whole_digits-nonzero (decimal (suc n)) rest
      (digits_of-StartsNonzero (suc (suc n)) (suc n) (omega arith) (omega arith))
      (digits_of-All (suc (suc n)) (suc n)) e

no_fraction : (rest : Bytes) → EndsNumber rest → fraction rest ≡ Parsed.ok [] rest
unfolding fraction
no_fraction [] e = refl
no_fraction (c ∷ rest) e = rw (e.1.0) refl

no_exponent : (rest : Bytes) → EndsNumber rest → exponent rest ≡ Parsed.ok [] rest
unfolding exponent
no_exponent [] e = refl
no_exponent (c ∷ rest) e = rw (e.1.1) refl

parse_unsigned-decimal :
    (negative : Bool) (n : ℕ) (rest : Bytes)
    → EndsNumber rest
    → parse_unsigned negative (decimal n ++ rest) ≡ integer negative (decimal n) rest
unfolding parse_unsigned
parse_unsigned-decimal negative n rest e =
    let h1 = whole_digits-decimal n rest e in
    let h2 = no_fraction rest e in let h3 = no_exponent rest e in rw (h1, h2, h3) refl

parse_number-unsigned :
    (ds rest : Bytes)
    → StartsNonzero ds
    → parse_number (ds ++ rest) ≡ parse_unsigned false (ds ++ rest)
unfolding parse_number
parse_number-unsigned [] rest s = absurd s
parse_number-unsigned (c ∷ ds) rest s = let q : (c == 45) ≡ false = ground arith in rw q refl

parse_number-decimal :
    (n : ℕ) (rest : Bytes)
    → parse_number (decimal n ++ rest) ≡ parse_unsigned false (decimal n ++ rest)
unfolding parse_number digits_of
parse_number-decimal zero rest = refl
parse_number-decimal (suc n) rest =
    parse_number-unsigned (decimal (suc n)) rest
      (digits_of-StartsNonzero (suc (suc n)) (suc n) (omega arith) (omega arith))

integer-uint :
    (n : ℕ) (ds rest : Bytes)
    → n ≤ uint64_max
    → from_digits 0 ds ≡ n
    → integer false ds rest ≡ Parsed.ok (Value.uint n) rest
unfolding integer
integer-uint n ds rest h e = let q : ltb uint64_max n ≡ false = ground arith in rw (e, q) refl

integer-below :
    (n : ℕ) (ds rest : Bytes)
    → n ≤ 0x7FFFFFFFFFFFFFFF
    → from_digits 0 ds ≡ n + 1
    → integer true ds rest ≡ Parsed.ok (Value.int (Signed.below n)) rest
unfolding integer
integer-below n ds rest h e =
    let q : ltb 0x8000000000000000 (n + 1) ≡ false = ground arith in
    let z : (n + 1 == 0) ≡ false = ground arith in
    let m : n + 1 - 1 ≡ n = omega arith in rw (e, q, z, m) refl

-- A list that starts with a digit.
abbrev pub StartsDigit : Bytes → Type 0
StartsDigit [] = ⊥
StartsDigit (c ∷ ds) = is_digit c ≡ true

StartsNonzero-StartsDigit : (ds : Bytes) → StartsNonzero ds → StartsDigit ds
StartsNonzero-StartsDigit [] h = h
StartsNonzero-StartsDigit (d ∷ ds) h = h.0

pub decimal-StartsDigit : (n : ℕ) → StartsDigit (decimal n)
unfolding digits_of
decimal-StartsDigit zero = refl
decimal-StartsDigit (suc n) =
    StartsNonzero-StartsDigit (decimal (suc n))
      (digits_of-StartsNonzero (suc (suc n)) (suc n) (omega arith) (omega arith))

pub parse_number-uint :
    (n : ℕ) (rest : Bytes)
    → n ≤ uint64_max
    → EndsNumber rest
    → parse_number (decimal n ++ rest) ≡ Parsed.ok (Value.uint n) rest
parse_number-uint n rest h e =
    let value = from_digits-digits_of (suc n) n (omega arith) in
    parse_number-decimal n rest
    ∙ parse_unsigned-decimal false n rest e
    ∙ integer-uint n (decimal n) rest h value

pub parse_number-below :
    (n : ℕ) (rest : Bytes)
    → n ≤ 0x7FFFFFFFFFFFFFFF
    → EndsNumber rest
    → parse_number (signed_decimal (Signed.below n) ++ rest)
      ≡ Parsed.ok (Value.int (Signed.below n)) rest
unfolding parse_number
parse_number-below n rest h e =
    let value = from_digits-digits_of (suc (n + 1)) (n + 1) (omega arith) in
    parse_unsigned-decimal true (n + 1) rest e ∙ integer-below n (decimal (n + 1)) rest h value
