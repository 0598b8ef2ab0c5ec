-- ===== src/Json/Written/Scalars.antt =====
-- The texts of the values without parts.
use runtime_code_skeptic.Base.{
  ℕ, zero, suc, ◌+◌, ltb, ◌≤◌, ◌<◌, Bool, true, false, [], ◌∷◌, ◌++◌, ◌==◌, if◌then◌else◌, ◌≡◌,
  refl, sym, ap, ◌∙◌, Bytes, codes, arith,
}
use runtime_code_skeptic.Json.{Value, Signed}
use runtime_code_skeptic.Json.Lexer.{Parsed, literal, after_prefix}
use runtime_code_skeptic.Json.Lexer.Number.{parse_number}
use runtime_code_skeptic.Json.Parser.{parse_scalar, parse_value, max_depth}
use runtime_code_skeptic.Json.Writer.{quoted, decimal, signed_decimal}
use runtime_code_skeptic.Json.Shape.{IsValue}
use runtime_code_skeptic.Json.Decimal.{
  parse_number-uint, parse_number-below, decimal-StartsDigit, StartsDigit,
}
use runtime_code_skeptic.Json.Quoted.{parse_string-quoted}
use runtime_code_skeptic.Json.Written.{StartsValue, Written, read_back}

-- A value that starts with neither a brace nor a bracket is read by `parse_scalar`.
parse_value-scalar :
    (f d c : ℕ) (ts : Bytes)
    → 0 < f
    → d ≤ max_depth
    → (c == 123) ≡ false
    → (c == 91) ≡ false
    → parse_value f d (c ∷ ts) ≡ parse_scalar (c ∷ ts)
unfolding parse_value
parse_value-scalar zero d c ts l h e1 e2 = absurd (omega arith)
parse_value-scalar (suc f) d c ts l h e1 e2 =
    let q : ltb max_depth d ≡ false = ground arith in rw (q, e1, e2) refl

-- So is a number.
parse_value-digits :
    (f d : ℕ) (t rest : Bytes)
    → d ≤ max_depth
    → StartsDigit t
    → 0 < f
    → parse_value f d (t ++ rest) ≡ parse_number (t ++ rest)
unfolding parse_scalar
parse_value-digits f d [] rest h s l = absurd s
parse_value-digits f d (c ∷ t) rest h s l =
    let e1 : (c == 123) ≡ false = ground arith in
    let e2 : (c == 91) ≡ false = ground arith in
    let e3 : (c == 34) ≡ false = ground arith in
    let e4 : (c == 116) ≡ false = ground arith in
    let e5 : (c == 102) ≡ false = ground arith in
    let e6 : (c == 110) ≡ false = ground arith in
    parse_value-scalar f d c (t ++ rest) l h e1 e2 ∙ rw (e3, e4, e5, e6) refl

StartsDigit-StartsValue : (t : Bytes) → StartsDigit t → StartsValue t
StartsDigit-StartsValue [] h = absurd h
StartsDigit-StartsValue (c ∷ t) h = (ground arith, ground arith)

pub uint-Written :
    (n : ℕ) (v : Value)
    → read_back v ≡ Value.uint n
    → ((d : ℕ) → IsValue d v → (d ≤ max_depth) × (n ≤ 0xFFFFFFFFFFFFFFFF))
    → Written v (decimal n)
uint-Written n v e k = (
  StartsDigit-StartsValue (decimal n) (decimal-StartsDigit n),
  λ f d rest h ends l.
      parse_value-digits f d (decimal n) rest (k d h).0 (decimal-StartsDigit n) (omega arith)
      ∙ (parse_number-uint n rest (k d h).1 ends ∙ ap (λ w. Parsed.ok w rest) (sym e)),
)

parse_value-minus :
    (f d : ℕ) (ts : Bytes)
    → d ≤ max_depth
    → 0 < f
    → parse_value f d (45 ∷ ts) ≡ parse_number (45 ∷ ts)
unfolding parse_scalar
parse_value-minus f d ts h l = parse_value-scalar f d 45 ts l h refl refl

pub below-Written : (n : ℕ) → Written (Value.int (Signed.below n)) (signed_decimal (Signed.below n))
below-Written n = (
  (refl, refl),
  λ f d rest h ends l.
      parse_value-minus f d (decimal (n + 1) ++ rest) (h.0) (omega arith)
      ∙ parse_number-below n rest (h.1) ends,
)

pub str-Written : (s : Bytes) → Written (Value.str s) (quoted s)
unfolding parse_scalar quoted
str-Written s = (
  (refl, refl),
  λ f d rest h ends l.
      parse_value-scalar f d 34 _ (omega arith) h refl refl
      ∙ (let e = parse_string-quoted s rest in rw e refl),
)

pub null-Written : Written Value.null (codes "null")
unfolding parse_scalar literal after_prefix
null-Written =
    ((refl, refl), λ f d rest h ends l. parse_value-scalar f d 110 _ (omega arith) h refl refl)

pub bool-Written : (b : Bool) → Written (Value.bool b) (if b then codes "true" else codes "false")
unfolding parse_scalar literal after_prefix
bool-Written true =
    ((refl, refl), λ f d rest h ends l. parse_value-scalar f d 116 _ (omega arith) h refl refl)
bool-Written false =
    ((refl, refl), λ f d rest h ends l. parse_value-scalar f d 102 _ (omega arith) h refl refl)
