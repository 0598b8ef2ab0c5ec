-- ===== src/Json/Numbers.antt =====
-- The numbers that `parse_number` of src/core/json.cpp reads, and the characters it takes for them.
use runtime_code_skeptic.Base.{
  ℕ, suc, ◌-◌, ltb, ◌≤◌, Bool, true, false, not, ◌&&◌, ◌||◌, [], ◌∷◌, length, ◌==◌, if-intro, ◌≡◌,
  Bytes, arith,
}
use runtime_code_skeptic.Range.{uint64_max}
use runtime_code_skeptic.Json.Lexer.{Message, is_digit}
use runtime_code_skeptic.Json.Lexer.Number.{
  span_digits, from_digits, starts_with_digit, required_digits, fraction, sign, exponent,
  whole_digits, integer, parse_unsigned, parse_number, is_empty,
}
use runtime_code_skeptic.Json.Parser.{max_depth}
use runtime_code_skeptic.Json.Reads.{Reads, reads, stops, Anything, bind-Reads, weaken}
use runtime_code_skeptic.Json.Shape.{IsValue}

pub span_digits-length : (ts : Bytes) → length ((span_digits ts).1) ≤ length ts
unfolding span_digits
span_digits-length [] = omega arith
span_digits-length (c ∷ ts) =
    let ih = span_digits-length ts in
    if-intro {A = Bytes × Bytes} (λ p. length (p.1) ≤ suc (length ts)) (is_digit c)
      (λ e. omega arith) (λ e. omega arith)

span_digits-some :
    (c : ℕ) (ts : Bytes) → is_digit c ≡ true → length ((span_digits (c ∷ ts)).1) ≤ length ts
unfolding span_digits
span_digits-some c ts e = let h = span_digits-length ts in rw e h

required_digits-Reads :
    (m : Message) (ts : Bytes) → Reads Anything (length ts) (required_digits m ts)
unfolding required_digits
required_digits-Reads m ts =
    if-intro (Reads Anything (length ts)) (starts_with_digit ts)
      (λ e. reads tt (span_digits-length ts)) (λ e. stops)

fraction-Reads : (ts : Bytes) → Reads Anything (length ts) (fraction ts)
unfolding fraction
fraction-Reads [] = reads tt (omega arith)
fraction-Reads (c ∷ ts) =
    if-intro (Reads Anything (suc (length ts))) (c == 46)
      (λ e. bind-Reads _ (required_digits-Reads _ ts) (λ ds rest a l. reads tt (omega arith)))
      (λ e. reads tt (omega arith))

sign-length : (ts : Bytes) → length ((sign ts).1) ≤ length ts
sign-length [] = omega arith
sign-length (c ∷ ts) =
    if-intro {A = Bytes × Bytes} (λ p. length (p.1) ≤ suc (length ts)) (c == 43 || c == 45)
      (λ e. omega arith) (λ e. omega arith)

exponent-Reads : (ts : Bytes) → Reads Anything (length ts) (exponent ts)
unfolding exponent
exponent-Reads [] = reads tt (omega arith)
exponent-Reads (c ∷ ts) =
    if-intro (Reads Anything (suc (length ts))) (c == 101 || c == 69)
      (λ e.
        bind-Reads _ (required_digits-Reads _ ((sign ts).1))
          (λ ds rest a l. reads tt (let h = sign-length ts in omega arith)))
      (λ e. reads tt (omega arith))

whole_digits-Reads : (ts : Bytes) → Reads Anything (length ts - 1) (whole_digits ts)
unfolding whole_digits
whole_digits-Reads [] = stops
whole_digits-Reads (c ∷ ts) =
    let P = Reads Anything (suc (length ts) - 1) in
    if-intro P (not (is_digit c)) (λ e. stops)
      (λ e.
        if-intro P (c == 48) (λ e'. reads tt (omega arith))
          (λ e'. let h = span_digits-some c ts (ground arith) in reads tt (omega arith)))

integer-Reads :
    (d : ℕ) (negative : Bool) (ds rest : Bytes)
    → d ≤ max_depth
    → Reads (IsValue d) (length rest) (integer negative ds rest)
unfolding integer
integer-Reads d negative ds rest h =
    let n = from_digits 0 ds in
    let P = Reads (IsValue d) (length rest) in
    if-intro P negative
      (λ e.
        if-intro P (ltb 0x8000000000000000 n) (λ e1. stops)
          (λ e1.
            if-intro P (n == 0) (λ e2. reads (h, omega arith) (omega arith))
              (λ e2. reads (h, ground arith) (omega arith))))
      (λ e.
        if-intro P (ltb uint64_max n) (λ e1. stops) (λ e1. reads (h, ground arith) (omega arith)))

parse_unsigned-Reads :
    (d : ℕ) (negative : Bool) (ts : Bytes)
    → d ≤ max_depth
    → Reads (IsValue d) (length ts - 1) (parse_unsigned negative ts)
unfolding parse_unsigned
parse_unsigned-Reads d negative ts h = bind-Reads _ (whole_digits-Reads ts) (λ ds r1 a1 l1.
    bind-Reads _ (fraction-Reads r1) (λ point r2 a2 l2.
      bind-Reads _ (exponent-Reads r2) (λ power r3 a3 l3.
        if-intro (Reads (IsValue d) (length ts - 1)) (is_empty point && is_empty power)
          (λ e. weaken (omega arith) (integer-Reads d negative ds r3 h))
          (λ e. reads h (omega arith)))))

pub parse_number-Reads :
    (d : ℕ) (ts : Bytes) → d ≤ max_depth → Reads (IsValue d) (length ts - 1) (parse_number ts)
unfolding parse_number
parse_number-Reads d [] h = parse_unsigned-Reads d false [] h
parse_number-Reads d (c ∷ ts) h =
    if-intro (Reads (IsValue d) (suc (length ts) - 1)) (c == 45)
      (λ e. weaken (omega arith) (parse_unsigned-Reads d true ts h))
      (λ e. parse_unsigned-Reads d false (c ∷ ts) h)
