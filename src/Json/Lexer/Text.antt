-- ===== src/Json/Lexer/Text.antt =====
-- `parse_string`, `parse_hex4` and `append_utf8` of src/core/json.cpp.
use Prim.Native.Nat.{bit_and, bit_or}
use runtime_code_skeptic.Base.{
  ℕ, zero, suc, ◌+◌, ◌-◌, ◌*◌, ◌/◌, ltb, leb, ◌&&◌, ◌||◌, [], ◌∷◌, ◌++◌, Option, none, some, length,
  ◌==◌, if◌then◌else◌, Bytes,
}
use runtime_code_skeptic.Json.Lexer.{Message, Parsed, bind, is_digit, expect}

-- The value of a hexadecimal digit of either case.
unfoldable pub hex_value : ℕ → Option ℕ
hex_value c =
    if is_digit c
    then some (c - 48)
    else if leb 97 c && leb c 102
    then some (c - 97 + 10)
    else if leb 65 c && leb c 70
    then some (c - 65 + 10)
    else none

-- The loop of `parse_hex4`, from the number so far.
unfoldable pub hex_digits : ℕ → ℕ → Bytes → Parsed ℕ
unfolding hex_value
hex_digits zero v ts = Parsed.ok v ts
hex_digits (suc n) v [] = Parsed.failed Message.truncated_escape []
hex_digits (suc n) v (c ∷ ts) = elim (hex_value c) [
  | some d ↦ hex_digits n (v * 16 + d) ts
  | none ↦ Parsed.failed Message.invalid_hex_digit ts
]

unfoldable pub parse_hex4 : Bytes → Parsed ℕ
unfolding hex_digits
parse_hex4 ts =
    if ltb (length ts) 4 then Parsed.failed Message.truncated_escape ts else hex_digits 4 0 ts

unfoldable pub encode_utf8 : ℕ → Bytes
encode_utf8 cp =
    if leb cp 0x7F
    then cp ∷ []
    else if leb cp 0x7FF
    then bit_or 0xC0 (cp / 64) ∷ bit_or 0x80 (bit_and cp 0x3F) ∷ []
    else if leb cp 0xFFFF
    then bit_or 0xE0 (cp / 4096)
      ∷ bit_or 0x80 (bit_and (cp / 64) 0x3F)
      ∷ bit_or 0x80 (bit_and cp 0x3F)
      ∷ []
    else bit_or 0xF0 (cp / 262144)
      ∷ bit_or 0x80 (bit_and (cp / 4096) 0x3F)
      ∷ bit_or 0x80 (bit_and (cp / 64) 0x3F)
      ∷ bit_or 0x80 (bit_and cp 0x3F)
      ∷ []

-- The second half of a surrogate pair.
unfoldable pub low_surrogate : ℕ → Bytes → Parsed Bytes
unfolding parse_hex4 encode_utf8
low_surrogate high (b ∷ u ∷ ts) =
    if b == 92 && u == 117
    then bind (parse_hex4 ts) (λ low rest.
      if ltb low 0xDC00 || ltb 0xDFFF low
      then Parsed.failed Message.invalid_low_surrogate rest
      else Parsed.ok (encode_utf8 (0x10000 + (high - 0xD800) * 1024 + (low - 0xDC00))) rest)
    else Parsed.failed Message.unpaired_high_surrogate (b ∷ u ∷ ts)
low_surrogate high ts = Parsed.failed Message.unpaired_high_surrogate ts

unfoldable pub unicode_escape : Bytes → Parsed Bytes
unfolding parse_hex4 low_surrogate encode_utf8
unicode_escape ts = bind (parse_hex4 ts) (λ cp rest.
    if leb 0xD800 cp && leb cp 0xDBFF
    then low_surrogate cp rest
    else if leb 0xDC00 cp && leb cp 0xDFFF
    then Parsed.failed Message.unpaired_low_surrogate rest
    else Parsed.ok (encode_utf8 cp) rest)

-- The character of a one-letter escape: quote, backslash, slash, b, f, n, r and t.
unfoldable pub simple_escape : ℕ → Option ℕ
simple_escape e =
    if e == 34 || e == 92 || e == 47
    then some e
    else if e == 98
    then some 8
    else if e == 102
    then some 12
    else if e == 110
    then some 10
    else if e == 114
    then some 13
    else if e == 116
    then some 9
    else none

-- What stands after a backslash.
unfoldable pub read_escape : Bytes → Parsed Bytes
unfolding simple_escape unicode_escape
read_escape [] = Parsed.failed Message.unterminated_escape []
read_escape (e ∷ ts) = if e == 117 then unicode_escape ts else elim (simple_escape e) [
  | some c ↦ Parsed.ok (c ∷ []) ts
  | none ↦ Parsed.failed Message.invalid_escape ts
]

abbrev pub prepend : Bytes → Parsed Bytes → Parsed Bytes
prepend bs p = bind p (λ s rest. Parsed.ok (bs ++ s) rest)

-- The loop of `parse_string`, on fuel: each round reads a character at least.
unfoldable pub parse_chars : ℕ → Bytes → Parsed Bytes
unfolding read_escape
parse_chars zero ts = Parsed.out_of_fuel
parse_chars (suc f) [] = Parsed.failed Message.unterminated_string []
parse_chars (suc f) (c ∷ ts) =
    let plain = prepend (c ∷ []) (parse_chars f ts) in
    let escaped = bind (read_escape ts) (λ bs rest. prepend bs (parse_chars f rest)) in
    if c == 34
    then Parsed.ok [] ts
    else if c == 92
    then escaped
    else if ltb c 32
    then Parsed.failed Message.unescaped_control ts
    else plain

unfoldable pub parse_string : Bytes → Parsed Bytes
unfolding expect parse_chars
parse_string ts = bind (expect 34 ts) (λ _ rest. parse_chars (suc (length rest)) rest)
