-- ===== src/Json/Writer.antt =====
-- The writers of src/core/json.cpp.
use runtime_code_skeptic.Base.{
  ℕ, zero, suc, ◌+◌, ◌/◌, ◌%◌, ltb, Bool, true, false, [], ◌∷◌, ◌++◌, Option, none, some, ◌==◌,
  if◌then◌else◌, Bytes, codes,
}
use runtime_code_skeptic.Json.{Value, Signed, Items, Members, no_items, item, no_members, member}

-- `%llu`: one digit, or those of the tenth part and one more.
unfoldable pub digits_of : ℕ → ℕ → Bytes
digits_of zero n = []
digits_of (suc f) n =
    let more = digits_of f (n / 10) ++ ((48 + n % 10) ∷ []) in
    if ltb n 10 then (48 + n) ∷ [] else more

abbrev pub decimal : ℕ → Bytes
decimal n = digits_of (suc n) n

-- `%lld`
abbrev pub signed_decimal : Signed → Bytes
signed_decimal (Signed.from_zero n) = decimal n
signed_decimal (Signed.below n) = 45 ∷ decimal (n + 1)

abbrev pub hex_digit : ℕ → ℕ
hex_digit d = if ltb d 10 then 48 + d else 87 + d

-- One byte of a string: `\u%04x` for the control characters without a short form.
unfoldable pub escape : ℕ → Bytes
escape c =
    if c == 34
    then 92 ∷ 34 ∷ []
    else if c == 92
    then 92 ∷ 92 ∷ []
    else if c == 8
    then 92 ∷ 98 ∷ []
    else if c == 12
    then 92 ∷ 102 ∷ []
    else if c == 10
    then 92 ∷ 110 ∷ []
    else if c == 13
    then 92 ∷ 114 ∷ []
    else if c == 9
    then 92 ∷ 116 ∷ []
    else if ltb c 32
    then 92 ∷ 117 ∷ 48 ∷ 48 ∷ hex_digit (c / 16) ∷ hex_digit (c % 16) ∷ []
    else c ∷ []

unfoldable pub escape_all : Bytes → Bytes
unfolding escape
escape_all [] = []
escape_all (c ∷ s) = escape c ++ escape_all s

-- `append_escaped`
unfoldable pub quoted : Bytes → Bytes
unfolding escape_all
quoted s = 34 ∷ (escape_all s ++ (34 ∷ []))

-- Two outputs in a row, unless one failed.
abbrev pub then_write : Option Bytes → Option Bytes → Option Bytes
then_write (some s) (some t) = some (s ++ t)
then_write _ _ = none

abbrev pub separator : Bool → Bytes
separator first = if first then [] else 44 ∷ []

unfoldable mutual
  unfolding quoted digits_of

  pub write_canonical : Value → Option Bytes
  write_canonical Value.null = some (codes "null")
  write_canonical (Value.bool b) = some (if b then codes "true" else codes "false")
  write_canonical (Value.int z) = some (signed_decimal z)
  write_canonical (Value.uint n) = some (decimal n)
  write_canonical (Value.double token) = none
  write_canonical (Value.str s) = some (quoted s)
  write_canonical (Value.array xs) =
      then_write (some (91 ∷ [])) (then_write (write_items true xs) (some (93 ∷ [])))
  write_canonical (Value.object ms) =
      then_write (some (123 ∷ [])) (then_write (write_members true ms) (some (125 ∷ [])))

  pub write_items : Bool → Items → Option Bytes
  write_items first no_items = some []
  write_items first (item v xs) =
      then_write (some (separator first)) (then_write (write_canonical v) (write_items false xs))

  pub write_members : Bool → Members → Option Bytes
  write_members first no_members = some []
  write_members first (member k v ms) =
      then_write (some (separator first ++ (quoted k ++ (58 ∷ []))))
        (then_write (write_canonical v) (write_members false ms))

abbrev pub serialize_canonical : Value → Option Bytes
serialize_canonical = write_canonical

-- `%llx`
unfoldable pub hex_digits_of : ℕ → ℕ → Bytes
hex_digits_of zero n = []
hex_digits_of (suc f) n =
    let more = hex_digits_of f (n / 16) ++ (hex_digit (n % 16) ∷ []) in
    if ltb n 16 then hex_digit n ∷ [] else more

unfoldable pub to_hex : ℕ → Bytes
unfolding hex_digits_of
to_hex n = 48 ∷ 120 ∷ hex_digits_of (suc n) n
