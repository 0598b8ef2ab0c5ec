-- ===== src/Json/Parser.antt =====
-- The grammar of src/core/json.cpp: `parse_value`, `parse_object`, `parse_array` and `parse`. Each call
-- costs a unit of fuel.
use runtime_code_skeptic.Base.{
  ℕ, zero, suc, ◌+◌, ◌-◌, ◌*◌, ltb, Bool, true, false, [], ◌∷◌, none, some, length, ◌==◌,
  if◌then◌else◌, Bytes, codes,
}
use runtime_code_skeptic.Json.{
  Value, Items, Members, no_items, item, no_members, find_member, insert_member,
}
use runtime_code_skeptic.Json.Lexer.{Message, Parsed, bind, skip_ws, expect, literal, starts_with}
use runtime_code_skeptic.Json.Lexer.Text.{parse_string}
use runtime_code_skeptic.Json.Lexer.Number.{parse_number}

abbrev pub max_depth : ℕ
max_depth = 128

abbrev pub rest_of : Bytes → Bytes
rest_of [] = []
rest_of (c ∷ ts) = ts

abbrev pub has_member : Bytes → Members → Bool
has_member key ms = elim (find_member key ms) [ some v ↦ true | none ↦ false ]

-- One of the three literals, and the value it stands for.
abbrev pub literal_value : Bytes → Value → Bytes → Parsed Value
literal_value text v ts = bind (literal text ts) (λ _ rest. Parsed.ok v rest)

-- A value that is neither an object nor an array.
unfoldable pub parse_scalar : Bytes → Parsed Value
unfolding parse_string literal parse_number
parse_scalar ts =
    if starts_with 34 ts
    then bind (parse_string ts) (λ s rest. Parsed.ok (Value.str s) rest)
    else if starts_with 116 ts
    then literal_value (codes "true") (Value.bool true) ts
    else if starts_with 102 ts
    then literal_value (codes "false") (Value.bool false) ts
    else if starts_with 110 ts
    then literal_value (codes "null") Value.null ts
    else parse_number ts

-- The key of a member with its colon.
unfoldable pub parse_key : Bytes → Parsed Bytes
unfolding skip_ws parse_string expect
parse_key ts =
    bind (parse_string (skip_ws ts))
      (λ key r. bind (expect 58 (skip_ws r)) (λ _ rest. Parsed.ok key (skip_ws rest)))

-- What follows an element: more of them, the closing bracket, or an error.
pub data Next : Type 0 where
  again done : Bytes → Next
  stop : Message → Bytes → Next

unfoldable pub next_element : ℕ → Message → Message → Bytes → Next
unfolding skip_ws
next_element close unterminated unexpected ts = elim (skip_ws ts) [
  | [] ↦ Next.stop unterminated []
  | c ∷ rest ↦
      if c == 44
      then Next.again rest
      else if c == close
      then Next.done rest
      else Next.stop unexpected (c ∷ rest)
]

unfoldable mutual
  unfolding skip_ws

  pub parse_value : ℕ → ℕ → Bytes → Parsed Value
  parse_value zero depth ts = Parsed.out_of_fuel
  parse_value (suc f) depth [] =
      Parsed.failed (if ltb max_depth depth then Message.maximum_depth else Message.unexpected_end)
        []
  parse_value (suc f) depth (c ∷ ts) =
      let inner = skip_ws ts in
      let members =
        bind (parse_members f depth no_members inner)
          (λ ms rest. Parsed.ok (Value.object ms) rest) in
      let items = bind (parse_items f depth inner) (λ xs rest. Parsed.ok (Value.array xs) rest) in
      if ltb max_depth depth
      then Parsed.failed Message.maximum_depth (c ∷ ts)
      else if c == 123
      then (if starts_with 125 inner
          then Parsed.ok (Value.object no_members) (rest_of inner)
          else members)
      else if c == 91
      then (if starts_with 93 inner
          then Parsed.ok (Value.array no_items) (rest_of inner)
          else items)
      else parse_scalar (c ∷ ts)

  -- The loop of `parse_array` from one element on.
  pub parse_items : ℕ → ℕ → Bytes → Parsed Items
  parse_items zero depth ts = Parsed.out_of_fuel
  parse_items (suc f) depth ts = bind (parse_value f (depth + 1) (skip_ws ts)) (λ v r.
      elim (next_element 93 Message.unterminated_array Message.expected_comma_or_bracket r) [
        | Next.again rest ↦ bind (parse_items f depth rest) (λ xs end. Parsed.ok (item v xs) end)
        | Next.done rest ↦ Parsed.ok (item v no_items) rest
        | Next.stop m rest ↦ Parsed.failed m rest
      ])

  -- The loop of `parse_object` from one member on, with the members so far.
  pub parse_members : ℕ → ℕ → Members → Bytes → Parsed Members
  parse_members zero depth ms ts = Parsed.out_of_fuel
  parse_members (suc f) depth ms ts = bind (parse_key ts) (λ key r1.
      bind (parse_value f (depth + 1) r1) (λ v r2. elim (has_member key ms) [
        | true ↦ Parsed.failed Message.duplicate_key r2
        | false ↦
            elim (next_element 125 Message.unterminated_object Message.expected_comma_or_brace r2) [
              | Next.again rest ↦ parse_members f depth (insert_member key v ms) rest
              | Next.done rest ↦ Parsed.ok (insert_member key v ms) rest
              | Next.stop m rest ↦ Parsed.failed m rest
            ]
      ]))

-- Line and column of an offset, by the loop of `set_error`.
unfoldable pub position : ℕ → ℕ → ℕ → Bytes → ℕ × ℕ
position zero line column ts = (line, column)
position (suc n) line column [] = (line, column)
position (suc n) line column (c ∷ ts) =
    position n (if c == 10 then line + 1 else line) (if c == 10 then 1 else column + 1) ts

pub record ParseError : Type 0 where
  pub offset : ℕ
  pub line : ℕ
  pub column : ℕ
  pub message : Message

pub data ParseResult : Type 0 where
  value : Value → ParseResult
  error : ParseError → ParseResult
  out_of_fuel : ParseResult

unfoldable pub error_at : Message → Bytes → Bytes → ParseResult
unfolding position
error_at m text rest =
    let offset = length text - length rest in
    let (line, column) = position offset 1 1 text in
    ParseResult.error (record { offset = offset; line = line; column = column; message = m })

unfoldable pub finish : Bytes → Value → Bytes → ParseResult
unfolding skip_ws error_at
finish text v rest = elim (skip_ws rest) [
  | [] ↦ ParseResult.value v
  | c ∷ more ↦ error_at Message.trailing_content text (c ∷ more)
]

abbrev pub enough_fuel : Bytes → ℕ
enough_fuel text = 2 * length text + 2

unfoldable pub parse : Bytes → ParseResult
unfolding parse_value finish error_at skip_ws
parse text = elim (parse_value (enough_fuel text) 0 (skip_ws text)) [
  | Parsed.ok v rest ↦ finish text v rest
  | Parsed.failed m rest ↦ error_at m text rest
  | Parsed.out_of_fuel ↦ ParseResult.out_of_fuel
]
