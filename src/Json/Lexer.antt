-- ===== src/Json/Lexer.antt =====
-- The class `Parser` of src/core/json.cpp: its errors, and white space and literals. A position is what is
-- left of the text.
pub mod Text
pub mod Number
use runtime_code_skeptic.Base.{
  ℕ, zero, suc, ◌+◌, ◌-◌, ◌*◌, ◌/◌, ltb, leb, Bool, true, false, not, ◌&&◌, ◌||◌, List, [], ◌∷◌,
  ◌++◌, Option, none, some, length, ◌==◌, if◌then◌else◌, Bytes, codes,
}
use runtime_code_skeptic.Range.{uint64_max}
use runtime_code_skeptic.Json.{Value, Signed}

-- The messages of `set_error`.
pub data Message : Type 0 where
  trailing_content expected_character invalid_literal maximum_depth unexpected_end duplicate_key
        unterminated_object expected_comma_or_brace unterminated_array expected_comma_or_bracket
        truncated_escape invalid_hex_digit unterminated_string unescaped_control unterminated_escape
        invalid_low_surrogate unpaired_high_surrogate unpaired_low_surrogate invalid_escape
        invalid_number expected_fraction_digit expected_exponent_digit integer_out_of_range :
      Message

-- A value with what is left, or the first error and where it was set. `out_of_fuel` has no
-- counterpart in the program.
pub data Parsed (A : Type 0) : Type 0 where
  ok : A → Bytes → Parsed A
  failed : Message → Bytes → Parsed A
  out_of_fuel : Parsed A

abbrev pub bind : {A B : Type 0} → Parsed A → (A → Bytes → Parsed B) → Parsed B
bind (Parsed.ok a rest) f = f a rest
bind (Parsed.failed m rest) f = Parsed.failed m rest
bind Parsed.out_of_fuel f = Parsed.out_of_fuel

abbrev pub is_ws : ℕ → Bool
is_ws c = c == 32 || c == 9 || c == 10 || c == 13

unfoldable pub skip_ws : Bytes → Bytes
skip_ws [] = []
skip_ws (c ∷ ts) = if is_ws c then skip_ws ts else c ∷ ts

unfoldable pub expect : ℕ → Bytes → Parsed (Unit {0})
expect c [] = Parsed.failed Message.expected_character []
expect c (d ∷ ts) =
    if d == c then Parsed.ok tt ts else Parsed.failed Message.expected_character (d ∷ ts)

-- What follows a prefix.
unfoldable pub after_prefix : Bytes → Bytes → Option Bytes
after_prefix [] ts = some ts
after_prefix (c ∷ cs) [] = none
after_prefix (c ∷ cs) (d ∷ ts) = if d == c then after_prefix cs ts else none

unfoldable pub literal : Bytes → Bytes → Parsed (Unit {0})
unfolding after_prefix
literal text ts = elim (after_prefix text ts) [
  | some rest ↦ Parsed.ok tt rest
  | none ↦ Parsed.failed Message.invalid_literal ts
]

abbrev pub is_digit : ℕ → Bool
is_digit c = leb 48 c && leb c 57

abbrev pub starts_with : ℕ → Bytes → Bool
starts_with c [] = false
starts_with c (d ∷ ts) = d == c
