-- ===== src/Json/Lexer/Number.antt =====
-- `parse_number` of src/core/json.cpp.
use runtime_code_skeptic.Base.{
  ℕ, ◌+◌, ◌-◌, ◌*◌, ltb, Bool, true, false, not, ◌&&◌, ◌||◌, [], ◌∷◌, ◌++◌, ◌==◌, if◌then◌else◌,
  Bytes,
}
use runtime_code_skeptic.Range.{uint64_max}
use runtime_code_skeptic.Json.{Value, Signed}
use runtime_code_skeptic.Json.Lexer.{Message, Parsed, bind, is_digit}

-- The digits at the front, and what follows them.
unfoldable pub span_digits : Bytes → Bytes × Bytes
span_digits [] = ([], [])
span_digits (c ∷ ts) =
    let (ds, rest) = span_digits ts in if is_digit c then (c ∷ ds, rest) else ([], c ∷ ts)

-- `strtoull` and `strtoll` of a token of digits.
unfoldable pub from_digits : ℕ → Bytes → ℕ
from_digits v [] = v
from_digits v (c ∷ ds) = from_digits (v * 10 + (c - 48)) ds

abbrev pub starts_with_digit : Bytes → Bool
starts_with_digit [] = false
starts_with_digit (d ∷ ts) = is_digit d

-- The digits that must follow a point or an exponent mark.
unfoldable pub required_digits : Message → Bytes → Parsed Bytes
unfolding span_digits
required_digits m ts =
    let (ds, rest) = span_digits ts in
    if starts_with_digit ts then Parsed.ok ds rest else Parsed.failed m ts

-- `.` with its digits, if there is one: the text of it.
unfoldable pub fraction : Bytes → Parsed Bytes
unfolding required_digits
fraction [] = Parsed.ok [] []
fraction (c ∷ ts) =
    if c == 46
    then bind (required_digits Message.expected_fraction_digit ts)
        (λ ds rest. Parsed.ok (c ∷ ds) rest)
    else Parsed.ok [] (c ∷ ts)

abbrev pub sign : Bytes → Bytes × Bytes
sign [] = ([], [])
sign (c ∷ ts) = if c == 43 || c == 45 then (c ∷ [], ts) else ([], c ∷ ts)

unfoldable pub exponent : Bytes → Parsed Bytes
unfolding required_digits
exponent [] = Parsed.ok [] []
exponent (c ∷ ts) =
    let (s, after) = sign ts in
    if c == 101 || c == 69
    then bind (required_digits Message.expected_exponent_digit after)
        (λ ds rest. Parsed.ok (c ∷ (s ++ ds)) rest)
    else Parsed.ok [] (c ∷ ts)

-- The digits before the point: one zero, or all digits.
unfoldable pub whole_digits : Bytes → Parsed Bytes
unfolding span_digits
whole_digits ts =
    let (ds, rest) = span_digits ts in
    elim ts [
      | [] ↦ Parsed.failed Message.invalid_number []
      | c ∷ after ↦
          if not (is_digit c)
          then Parsed.failed Message.invalid_number (c ∷ after)
          else if c == 48
          then Parsed.ok (c ∷ []) after
          else Parsed.ok ds rest
    ]

-- `strtoll` of a minus sign and digits, and `strtoull` of digits, with their range errors.
unfoldable pub integer : Bool → Bytes → Bytes → Parsed Value
unfolding from_digits
integer negative ds rest =
    let n = from_digits 0 ds in
    if negative
    then (if ltb 0x8000000000000000 n
        then Parsed.failed Message.integer_out_of_range rest
        else if n == 0
        then Parsed.ok (Value.int (Signed.from_zero 0)) rest
        else Parsed.ok (Value.int (Signed.below (n - 1))) rest)
    else if ltb uint64_max n
    then Parsed.failed Message.integer_out_of_range rest
    else Parsed.ok (Value.uint n) rest

abbrev pub is_empty : Bytes → Bool
is_empty [] = true
is_empty _ = false

unfoldable pub parse_unsigned : Bool → Bytes → Parsed Value
unfolding whole_digits fraction exponent integer
parse_unsigned negative ts = bind (whole_digits ts) (λ ds r1. bind (fraction r1) (λ point r2.
    bind (exponent r2) (λ power r3.
      if is_empty point && is_empty power
      then integer negative ds r3
      else Parsed.ok (Value.double ((if negative then 45 ∷ [] else []) ++ (ds ++ (point ++ power))))
          r3)))

unfoldable pub parse_number : Bytes → Parsed Value
unfolding parse_unsigned
parse_number [] = parse_unsigned false []
parse_number (c ∷ ts) = if c == 45 then parse_unsigned true ts else parse_unsigned false (c ∷ ts)
