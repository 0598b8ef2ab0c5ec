-- ===== src/Json/RoundTrip.antt =====
-- `parse` of src/core/json.cpp reads back what `serialize_canonical` wrote.
use mathlib.Core.Path.{subst}
use runtime_code_skeptic.Base.{
  ℕ, zero, suc, ◌≤◌, ltb, true, false, [], ◌∷◌, ◌++◌, Option, none, some, Returns, length, ◌≡◌,
  refl, sym, ap, Bytes, codes, arith,
}
use runtime_code_skeptic.Json.{Value, Signed, Items, Members, no_items, item, no_members, member}
use runtime_code_skeptic.Json.Lexer.{Parsed, skip_ws, starts_with}
use runtime_code_skeptic.Json.Parser.{
  parse_value, parse_items, parse_members, parse, ParseResult, finish, enough_fuel, max_depth,
}
use runtime_code_skeptic.Json.Writer.{
  write_canonical, write_items, write_members, then_write, quoted, serialize_canonical,
}
use runtime_code_skeptic.Json.Shape.{IsValue}
use runtime_code_skeptic.Json.Quoted.{append_assoc, append-nil}
use runtime_code_skeptic.Json.Written.{
  StartsValue, StartsValue-append, IsRead, skip_ws-StartsValue, starts_with-StartsValue, Written,
  read_back, then_write-Returns,
}
use runtime_code_skeptic.Json.Written.Scalars.{
  uint-Written, below-Written, str-Written, null-Written, bool-Written,
}
use runtime_code_skeptic.Json.Written.Elements.{ItemsRead, ItemsTail, item-ItemsRead}
use runtime_code_skeptic.Json.Written.Pairs.{MembersRead, MembersTail, member-MembersRead, key_text}

parse_value-array :
    (f d : ℕ) (ts rest : Bytes) (xs : Items)
    → d ≤ max_depth
    → skip_ws ts ≡ ts
    → starts_with 93 ts ≡ false
    → parse_items f d ts ≡ Parsed.ok xs rest
    → parse_value (suc f) d (91 ∷ ts) ≡ Parsed.ok (Value.array xs) rest
unfolding parse_value
parse_value-array f d ts rest xs h ws s r =
    let q : ltb max_depth d ≡ false = ground arith in rw (q, ws, s, r) refl

parse_value-object :
    (f d : ℕ) (ts rest : Bytes) (ms : Members)
    → d ≤ max_depth
    → skip_ws ts ≡ ts
    → starts_with 125 ts ≡ false
    → parse_members f d no_members ts ≡ Parsed.ok ms rest
    → parse_value (suc f) d (123 ∷ ts) ≡ Parsed.ok (Value.object ms) rest
unfolding parse_value
parse_value-object f d ts rest ms h ws s r =
    let q : ltb max_depth d ≡ false = ground arith in rw (q, ws, s, r) refl

array-IsRead :
    (v : Value) (xs : Items) (t : Bytes)
    → StartsValue t
    → ItemsRead (item v xs) t
    → IsRead (Value.array (item v xs)) (91 ∷ (t ++ (93 ∷ [])))
array-IsRead v xs t s r zero d rest h ends l = absurd (omega arith)
array-IsRead v xs t s r (suc f) d rest h ends l =
    let assoc = append_assoc t (93 ∷ []) rest in
    let n = ap length assoc in
    rw assoc (
      parse_value-array f d (t ++ (93 ∷ rest)) rest _ h.0 (skip_ws-StartsValue t (93 ∷ rest) s)
        (starts_with-StartsValue t (93 ∷ rest) s) (r f d rest h.1 (omega arith)))

no_array-IsRead : IsRead (Value.array no_items) (codes "[]")
unfolding parse_value skip_ws
no_array-IsRead zero d rest h ends l = absurd (omega arith)
no_array-IsRead (suc f) d rest h ends l =
    let q : ltb max_depth d ≡ false = ground arith in rw q refl

object-IsRead :
    (k : Bytes) (v : Value) (ms : Members) (t : Bytes)
    → MembersRead (member k v ms) (key_text k ++ t)
    → IsRead (Value.object (member k v ms)) (123 ∷ ((key_text k ++ t) ++ (125 ∷ [])))
unfolding quoted skip_ws
object-IsRead k v ms t r zero d rest h ends l = absurd (omega arith)
object-IsRead k v ms t r (suc f) d rest h ends l =
    let text = key_text k ++ t in
    let assoc = append_assoc text (125 ∷ []) rest in
    let n = ap length assoc in
    subst
      (λ ts.
        parse_value (suc f) d (123 ∷ ts)
        ≡ Parsed.ok (read_back (Value.object (member k v ms))) rest)
      (sym assoc)
      (parse_value-object f d (text ++ (125 ∷ rest)) rest _ h.0 refl refl
        (r f d no_members rest h.1.1 h.1.0 tt (omega arith)))

no_object-IsRead : IsRead (Value.object no_members) (codes "{}")
unfolding parse_value skip_ws
no_object-IsRead zero d rest h ends l = absurd (omega arith)
no_object-IsRead (suc f) d rest h ends l =
    let q : ltb max_depth d ≡ false = ground arith in rw q refl

-- A text between brackets, and a text behind another one, unless it is missing.
bracketed :
    {P : Bytes → Type 0} (R : Bytes → Type 0) (left right : ℕ) (o : Option Bytes)
    → Returns P Unit o
    → ((t : Bytes) → P t → R (left ∷ (t ++ (right ∷ []))))
    → Returns R Unit (then_write (some (left ∷ [])) (then_write o (some (right ∷ []))))
bracketed R left right (some t) h f = f t h
bracketed R left right none h f = tt

prefixed :
    {P : Bytes → Type 0} (R : Bytes → Type 0) (s : Bytes) (o : Option Bytes)
    → Returns P Unit o
    → ((t : Bytes) → P t → R (s ++ t))
    → Returns R Unit (then_write (some s) o)
prefixed R s (some t) h f = f t h
prefixed R s none h f = tt

abbrev ItemsText : Value → Items → Bytes → Type 0
ItemsText v xs t = StartsValue t × ItemsRead (item v xs) t

-- The text of the first value, behind the text of its key, and the texts of the other members.
abbrev MembersText : Bytes → Value → Members → Bytes → Type 0
MembersText k v ms t = MembersRead (member k v ms) (key_text k ++ t)

abbrev FirstMember : Bytes → Value → Members → Bytes → Type 0
FirstMember k v ms t = (u : Bytes) × ((t ≡ key_text k ++ u) × MembersText k v ms u)

object-Written :
    (k : Bytes) (v : Value) (ms : Members) (t : Bytes)
    → FirstMember k v ms t
    → Written (Value.object (member k v ms)) (123 ∷ (t ++ (125 ∷ [])))
object-Written k v ms t h =
    subst (λ t. Written (Value.object (member k v ms)) (123 ∷ (t ++ (125 ∷ [])))) (sym (h.1.0))
      ((refl, refl), object-IsRead k v ms (h.0) (h.1.1))

elements-Written :
    (v : Value) (xs : Items)
    → Returns (Written v) Unit (write_canonical v)
    → Returns (ItemsTail xs) Unit (write_items false xs)
    → Returns (ItemsText v xs) Unit (then_write (write_canonical v) (write_items false xs))
elements-Written v xs hv ht =
    then_write-Returns (ItemsText v xs) (write_canonical v) (write_items false xs) hv ht
      (λ s t w tail. (StartsValue-append s t w.0, item-ItemsRead v xs s t w tail))

members-Written :
    (k : Bytes) (v : Value) (ms : Members)
    → Returns (Written v) Unit (write_canonical v)
    → Returns (MembersTail ms) Unit (write_members false ms)
    → Returns (MembersText k v ms) Unit (then_write (write_canonical v) (write_members false ms))
members-Written k v ms hv ht =
    then_write-Returns (MembersText k v ms) (write_canonical v) (write_members false ms) hv ht
      (λ s t w tail. member-MembersRead k v ms s t w tail)

mutual
  unfolding write_canonical write_items write_members

  write_canonical-Written : (v : Value) → Returns (Written v) Unit (write_canonical v)
  write_canonical-Written Value.null = null-Written
  write_canonical-Written (Value.bool b) = bool-Written b
  write_canonical-Written (Value.int (Signed.from_zero n)) =
      uint-Written n (Value.int (Signed.from_zero n)) refl (λ d h. (h.0, omega arith))
  write_canonical-Written (Value.int (Signed.below n)) = below-Written n
  write_canonical-Written (Value.uint n) = uint-Written n (Value.uint n) refl (λ d h. h)
  write_canonical-Written (Value.double t) = tt
  write_canonical-Written (Value.str s) = str-Written s
  write_canonical-Written (Value.array no_items) = ((refl, refl), no_array-IsRead)
  write_canonical-Written (Value.array (item v xs)) =
      bracketed (Written (Value.array (item v xs))) 91 93 (write_items true (item v xs))
        (prefixed (ItemsText v xs) [] _
          (elements-Written v xs (write_canonical-Written v) (write_items-Tail xs)) (λ t h. h))
        (λ t h. ((refl, refl), array-IsRead v xs t h.0 h.1))
  write_canonical-Written (Value.object no_members) = ((refl, refl), no_object-IsRead)
  write_canonical-Written (Value.object (member k v ms)) =
      bracketed (Written (Value.object (member k v ms))) 123 125
        (write_members true (member k v ms))
        (prefixed (FirstMember k v ms) (key_text k) _
          (members-Written k v ms (write_canonical-Written v) (write_members-Tail ms))
          (λ t h. (t, (refl, h))))
        (object-Written k v ms)

  write_items-Tail : (xs : Items) → Returns (ItemsTail xs) Unit (write_items false xs)
  write_items-Tail no_items = refl
  write_items-Tail (item v xs) =
      prefixed (ItemsTail (item v xs)) (44 ∷ []) _
        (elements-Written v xs (write_canonical-Written v) (write_items-Tail xs))
        (λ t h. (t, (refl, (h.0, h.1))))

  write_members-Tail : (ms : Members) → Returns (MembersTail ms) Unit (write_members false ms)
  write_members-Tail no_members = refl
  write_members-Tail (member k v ms) =
      prefixed (MembersTail (member k v ms)) (44 ∷ key_text k) _
        (members-Written k v ms (write_canonical-Written v) (write_members-Tail ms))
        (λ t h. (key_text k ++ t, (refl, h)))

parse-Written :
    (v : Value) (t : Bytes) → IsValue 0 v → Written v t → parse t ≡ ParseResult.value (read_back v)
unfolding parse finish skip_ws
parse-Written v t h w =
    let e = append-nil t in
    let n = ap length e in
    let ws = subst (λ x. skip_ws x ≡ x) e (skip_ws-StartsValue t [] w.0) in
    let r =
      subst (λ x. parse_value (enough_fuel t) 0 x ≡ Parsed.ok (read_back v) []) e
        (w.1 (enough_fuel t) 0 [] h tt (omega arith)) in
    rw (parse, ws, r) refl

Returns-at :
    (P : Bytes → Type 0) (o : Option Bytes) (t : Bytes) → o ≡ some t → Returns P Unit o → P t
Returns-at P o t e r = subst (Returns P Unit) e r

-- Reading the canonical text of a value gives the value, with each integer that is not negative as an
-- unsigned one. The value's integers fit in 64 bits, its objects have strictly sorted keys, and it
-- is nested 128 deep at most.
pub parse-serialize_canonical :
    (v : Value) (t : Bytes)
    → IsValue 0 v
    → serialize_canonical v ≡ some t
    → parse t ≡ ParseResult.value (read_back v)
parse-serialize_canonical v t h e =
    parse-Written v t h (Returns-at (Written v) (write_canonical v) t e (write_canonical-Written v))
