-- ===== src/Json/Total.antt =====
-- The reader of src/core/json.cpp comes to an end, and its values have the shape `IsValue`.
use runtime_code_skeptic.Base.{
  ℕ, zero, suc, ◌+◌, ◌-◌, ◌*◌, ltb, ◌≤◌, ◌<◌, Bool, true, false, [], ◌∷◌, length, ◌==◌,
  if◌then◌else◌, if-intro, ◌≡◌, ◌⊎◌, refl, Bytes, codes, arith, inl, inr,
}
use runtime_code_skeptic.Json.{Value, Members, no_members, insert_member}
use runtime_code_skeptic.Json.Lexer.{Message, Parsed, skip_ws, starts_with}
use runtime_code_skeptic.Json.Parser.{
  ParseError, parse_scalar, parse_key, Next, next_element, parse_value, parse_items, parse_members,
  finish, enough_fuel, parse, ParseResult, max_depth, rest_of, has_member, error_at, literal_value,
}
use runtime_code_skeptic.Json.Reads.{
  Reads, reads, stops, Anything, bind-Reads, weaken, skip_ws-length, expect-Reads, literal-Reads,
  parse_string-Reads,
}
use runtime_code_skeptic.Json.Numbers.{parse_number-Reads}
use runtime_code_skeptic.Json.Order.{KeysSorted, insert_member-KeysSorted}
use runtime_code_skeptic.Json.Shape.{IsValue, AllItems, AllMembers, insert_member-AllMembers}

literal_value-Reads :
    (d c : ℕ) (cs : Bytes) (v : Value) (ts : Bytes)
    → IsValue d v
    → Reads (IsValue d) (length ts - 1) (literal_value (c ∷ cs) v ts)
literal_value-Reads d c cs v ts h = bind-Reads _ (literal-Reads c cs ts) (λ u rest a l. reads h l)

parse_scalar-Reads :
    (d : ℕ) (ts : Bytes) → d ≤ max_depth → Reads (IsValue d) (length ts - 1) (parse_scalar ts)
unfolding parse_scalar
parse_scalar-Reads d ts h =
    let P = Reads (IsValue d) (length ts - 1) in
    if-intro P (starts_with 34 ts)
      (λ e. bind-Reads _ (parse_string-Reads ts) (λ s rest a l. reads h l))
      (λ e.
        if-intro P (starts_with 116 ts)
          (λ e. literal_value-Reads d 116 (codes "rue") (Value.bool true) ts h)
          (λ e.
            if-intro P (starts_with 102 ts)
              (λ e. literal_value-Reads d 102 (codes "alse") (Value.bool false) ts h)
              (λ e.
                if-intro P (starts_with 110 ts)
                  (λ e. literal_value-Reads d 110 (codes "ull") Value.null ts h)
                  (λ e. parse_number-Reads d ts h))))

parse_key-Reads : (ts : Bytes) → Reads Anything (length ts - 2) (parse_key ts)
unfolding parse_key
parse_key-Reads ts =
    let h1 = skip_ws-length ts in
    bind-Reads _ (parse_string-Reads (skip_ws ts)) (λ key r a l.
      let h2 = skip_ws-length r in
      bind-Reads _ (expect-Reads 58 (skip_ws r))
        (λ u rest a' l'. reads tt (let h3 = skip_ws-length rest in omega arith)))

-- The case distinction on a test.
bool-intro :
    {A : Type 0} (P : A → Type 0) (b : Bool) (x y : A)
    → P x
    → P y
    → P (elim b [ true ↦ x | false ↦ y ])
bool-intro P true x y h k = h
bool-intro P false x y h k = k

-- What is left after a comma or a closing bracket.
abbrev NextLength : ℕ → Next → Type 0
NextLength n (Next.again rest) = length rest < n
NextLength n (Next.done rest) = length rest < n
NextLength n (Next.stop m rest) = Unit

next_length :
    (close : ℕ) (m m' : Message) (n : ℕ) (us : Bytes)
    → length us ≤ n
    → NextLength n (elim us [
      | [] ↦ Next.stop m []
      | c ∷ rest ↦
          if c == 44
          then Next.again rest
          else if c == close
          then Next.done rest
          else Next.stop m' (c ∷ rest)
    ])
next_length close m m' n [] h = tt
next_length close m m' n (c ∷ rest) h =
    if-intro (NextLength n) (c == 44) (λ e. omega arith)
      (λ e. if-intro (NextLength n) (c == close) (λ e. omega arith) (λ e. tt))

next_element-length :
    (close : ℕ) (m m' : Message) (ts : Bytes) → NextLength (length ts) (next_element close m m' ts)
unfolding next_element
next_element-length close m m' ts =
    next_length close m m' (length ts) (skip_ws ts) (skip_ws-length ts)

-- The case distinction on what follows an element.
next-Reads :
    {A : Type 0} {P : A → Type 0} {n : ℕ} (k : ℕ) (next : Next) (f g : Bytes → Parsed A)
    → NextLength k next
    → ((rest : Bytes) → length rest < k → Reads P n (f rest))
    → ((rest : Bytes) → length rest < k → Reads P n (g rest))
    → Reads P n (elim next [
      | Next.again rest ↦ f rest
      | Next.done rest ↦ g rest
      | Next.stop m rest ↦ Parsed.failed m rest
    ])
next-Reads k (Next.again rest) f g h a d = a rest h
next-Reads k (Next.done rest) f g h a d = d rest h
next-Reads k (Next.stop m rest) f g h a d = stops

rest_of-length : (c : ℕ) (ts : Bytes) → starts_with c ts ≡ true → length (rest_of ts) < length ts
rest_of-length c [] h = cc
rest_of-length c (d ∷ ts) h = omega arith

abbrev GoodMembers : ℕ → Members → Type 0
GoodMembers d ms = KeysSorted ms × AllMembers d ms

mutual
  unfolding parse_value parse_items parse_members

  parse_value-Reads :
      (f d : ℕ) (ts : Bytes)
      → 2 * length ts + 1 ≤ f
      → Reads (IsValue d) (length ts - 1) (parse_value f d ts)
  parse_value-Reads zero d ts h = absurd (omega arith)
  parse_value-Reads (suc f) d [] h = stops
  parse_value-Reads (suc f) d (c ∷ ts) h =
      let inner = skip_ws ts in
      let l = skip_ws-length ts in
      let P = Reads (IsValue d) (suc (length ts) - 1) in
      if-intro P (ltb max_depth d) (λ e. stops)
        (λ e.
          let deep : d ≤ max_depth = ground arith in
          if-intro P (c == 123)
            (λ e1.
              if-intro P (starts_with 125 inner)
                (λ e2. reads (deep, (tt, tt)) (let q = rest_of-length 125 inner e2 in omega arith))
                (λ e2.
                  bind-Reads _ (parse_members-Reads f d no_members inner (tt, tt) (omega arith))
                    (λ ms rest g m. reads (deep, g) (omega arith))))
            (λ e1.
              if-intro P (c == 91)
                (λ e2.
                  if-intro P (starts_with 93 inner)
                    (λ e3. reads (deep, tt) (let q = rest_of-length 93 inner e3 in omega arith))
                    (λ e3.
                      bind-Reads _ (parse_items-Reads f d inner (omega arith))
                        (λ xs rest g m. reads (deep, g) (omega arith))))
                (λ e2. parse_scalar-Reads d (c ∷ ts) deep)))

  parse_items-Reads :
      (f d : ℕ) (ts : Bytes)
      → 2 * length ts + 2 ≤ f
      → Reads (AllItems (d + 1)) (length ts) (parse_items f d ts)
  parse_items-Reads zero d ts h = absurd (omega arith)
  parse_items-Reads (suc f) d ts h =
      let l = skip_ws-length ts in
      bind-Reads _ (parse_value-Reads f (d + 1) (skip_ws ts) (omega arith)) (λ v r g m.
        next-Reads (length r) (next_element 93 _ _ r) _ _ (next_element-length 93 _ _ r)
          (λ rest q.
            bind-Reads _ (parse_items-Reads f d rest (omega arith))
              (λ xs end gs k. reads (g, gs) (omega arith)))
          (λ rest q. reads (g, tt) (omega arith)))

  parse_members-Reads :
      (f d : ℕ) (ms : Members) (ts : Bytes)
      → GoodMembers (d + 1) ms
      → 2 * length ts + 2 ≤ f
      → Reads (GoodMembers (d + 1)) (length ts) (parse_members f d ms ts)
  parse_members-Reads zero d ms ts good h = absurd (omega arith)
  parse_members-Reads (suc f) d ms ts good h = bind-Reads _ (parse_key-Reads ts) (λ key r1 a l1.
      bind-Reads _ (parse_value-Reads f (d + 1) r1 (omega arith)) (λ v r2 g l2.
        let grown : GoodMembers (d + 1) (insert_member key v ms) = (
          insert_member-KeysSorted key v ms good.0,
          insert_member-AllMembers (d + 1) key v ms g good.1,
        ) in
        bool-intro (Reads (GoodMembers (d + 1)) (length ts)) (has_member key ms) _ _ stops (
          next-Reads (length r2) (next_element 125 _ _ r2) _ _ (next_element-length 125 _ _ r2)
            (λ rest q.
              weaken (omega arith)
                (parse_members-Reads f d (insert_member key v ms) rest grown (omega arith)))
            (λ rest q. reads grown (omega arith)))))

-- A document is read: its value has the shape, or the error lies inside the text.
abbrev IsAnswer : Bytes → ParseResult → Type 0
IsAnswer text r =
    ((v : Value) × ((r ≡ ParseResult.value v) × IsValue 0 v))
    ⊎ ((e : ParseError) × ((r ≡ ParseResult.error e) × (e.offset ≤ length text)))

error_at-IsAnswer : (m : Message) (text rest : Bytes) → IsAnswer text (error_at m text rest)
unfolding error_at
error_at-IsAnswer m text rest = inr (_, (refl, omega arith))

finish-IsAnswer :
    (text : Bytes) (v : Value) (rest : Bytes) → IsValue 0 v → IsAnswer text (finish text v rest)
unfolding finish
finish-IsAnswer text v rest h =
    elim (skip_ws rest)
      as (λ us. IsAnswer text (elim us [
        | [] ↦ ParseResult.value v
        | c ∷ more ↦ error_at Message.trailing_content text (c ∷ more)
      ])) [
        | [] ↦ inl (v, (refl, h))
        | c ∷ more ↦ error_at-IsAnswer Message.trailing_content text (c ∷ more)
      ]

parsed-IsAnswer :
    (text : Bytes) (n : ℕ) (p : Parsed Value)
    → Reads (IsValue 0) n p
    → IsAnswer text (elim p [
      | Parsed.ok v rest ↦ finish text v rest
      | Parsed.failed m rest ↦ error_at m text rest
      | Parsed.out_of_fuel ↦ ParseResult.out_of_fuel
    ])
parsed-IsAnswer text n _ (reads {a = v} {rest = rest} h l) = finish-IsAnswer text v rest h
parsed-IsAnswer text n _ (stops {m = m} {rest = rest}) = error_at-IsAnswer m text rest

-- Reading any text comes to an end. It gives a value whose integers fit in 64 bits, whose objects have
-- strictly sorted keys, and which is nested 128 deep at most, or an error with an offset
-- inside the text.
pub parse-IsValue :
    (text : Bytes)
    → ((v : Value) × ((parse text ≡ ParseResult.value v) × IsValue 0 v))
      ⊎ ((e : ParseError) × ((parse text ≡ ParseResult.error e) × (e.offset ≤ length text)))
unfolding parse
parse-IsValue text =
    let l = skip_ws-length text in
    parsed-IsAnswer text _ _ (parse_value-Reads (enough_fuel text) 0 (skip_ws text) (omega arith))
