-- ===== src/Json/Written/Elements.antt =====
-- The texts of the elements of an array.
use mathlib.Core.Path.{subst}
use runtime_code_skeptic.Base.{
  ℕ, zero, suc, ◌+◌, ◌*◌, ◌≤◌, [], ◌∷◌, ◌++◌, length, ◌≡◌, refl, sym, ap, Bytes, arith,
}
use runtime_code_skeptic.Json.{Value, Items, no_items, item}
use runtime_code_skeptic.Json.Lexer.{Parsed, skip_ws}
use runtime_code_skeptic.Json.Parser.{parse_value, parse_items, next_element}
use runtime_code_skeptic.Json.Shape.{IsValue, AllItems}
use runtime_code_skeptic.Json.Decimal.{EndsNumber}
use runtime_code_skeptic.Json.Quoted.{append_assoc, length-append}
use runtime_code_skeptic.Json.Written.{
  StartsValue, skip_ws-StartsValue, Written, read_back, read_items,
}

-- The text of the elements, up to the closing bracket, is read as them.
abbrev pub ItemsRead : Items → Bytes → Type 0
ItemsRead xs t =
    (f d : ℕ) (rest : Bytes)
    → AllItems (d + 1) xs
    → 2 * length (t ++ (93 ∷ rest)) + 2 ≤ f
    → parse_items f d (t ++ (93 ∷ rest)) ≡ Parsed.ok (read_items xs) rest

-- The text of the elements that follow the first one: nothing, or a comma and more.
abbrev pub ItemsTail : Items → Bytes → Type 0
ItemsTail no_items t = t ≡ []
ItemsTail (item v xs) t = (u : Bytes) × ((t ≡ 44 ∷ u) × (StartsValue u × ItemsRead (item v xs) u))

pub ItemsTail-ends : (xs : Items) (t rest : Bytes) → ItemsTail xs t → EndsNumber (t ++ (93 ∷ rest))
ItemsTail-ends no_items t rest h = rw h (refl, (refl, refl))
ItemsTail-ends (item v xs) t rest h = let e = h.1.0 in rw e (refl, (refl, refl))

-- The last element, and an element before others.
parse_items-last :
    (f d : ℕ) (ts rest : Bytes) (v : Value)
    → parse_value f (d + 1) (skip_ws ts) ≡ Parsed.ok v (93 ∷ rest)
    → parse_items (suc f) d ts ≡ Parsed.ok (item v no_items) rest
unfolding parse_items next_element skip_ws
parse_items-last f d ts rest v h = rw h refl

parse_items-more :
    (f d : ℕ) (ts us rest : Bytes) (v : Value) (xs : Items)
    → parse_value f (d + 1) (skip_ws ts) ≡ Parsed.ok v (44 ∷ us)
    → parse_items f d us ≡ Parsed.ok xs rest
    → parse_items (suc f) d ts ≡ Parsed.ok (item v xs) rest
unfolding parse_items next_element skip_ws
parse_items-more f d ts us rest v xs h k = rw (h, k) refl

-- A written value is read before whatever may follow a number.
pub Written-read :
    (v : Value) (s ts : Bytes) (f d : ℕ)
    → Written v s
    → IsValue d v
    → EndsNumber ts
    → 2 * length (s ++ ts) + 1 ≤ f
    → parse_value f d (skip_ws (s ++ ts)) ≡ Parsed.ok (read_back v) ts
Written-read v s ts f d w a e l = let ws = skip_ws-StartsValue s ts w.0 in rw ws (w.1 f d ts a e l)

last-ItemsRead : (v : Value) (s : Bytes) → Written v s → ItemsRead (item v no_items) (s ++ [])
last-ItemsRead v s w zero d rest a l = absurd (omega arith)
last-ItemsRead v s w (suc f) d rest a l =
    let assoc = append_assoc s [] (93 ∷ rest) in
    let n = ap length assoc in
    rw assoc (
      parse_items-last f d (s ++ (93 ∷ rest)) rest (read_back v)
        (Written-read v s (93 ∷ rest) f (d + 1) w a.0 (refl, (refl, refl)) (omega arith)))

more-ItemsRead :
    (v : Value) (xs : Items) (s u : Bytes)
    → Written v s
    → ItemsRead xs u
    → ItemsRead (item v xs) (s ++ (44 ∷ u))
more-ItemsRead v xs s u w r zero d rest a l = absurd (omega arith)
more-ItemsRead v xs s u w r (suc f) d rest a l =
    let us = u ++ (93 ∷ rest) in
    let assoc = append_assoc s (44 ∷ u) (93 ∷ rest) in
    let n = ap length assoc in
    let m = length-append s (44 ∷ us) in
    rw assoc (
      parse_items-more f d (s ++ (44 ∷ us)) us rest (read_back v) (read_items xs)
        (Written-read v s (44 ∷ us) f (d + 1) w a.0 (refl, (refl, refl)) (omega arith))
        (r f d rest a.1 (omega arith)))

pub item-ItemsRead :
    (v : Value) (xs : Items) (s t : Bytes)
    → Written v s
    → ItemsTail xs t
    → ItemsRead (item v xs) (s ++ t)
item-ItemsRead v no_items s t w tail =
    subst (λ t. ItemsRead (item v no_items) (s ++ t)) (sym tail) (last-ItemsRead v s w)
item-ItemsRead v (item v' xs) s t w tail =
    subst (λ t. ItemsRead (item v (item v' xs)) (s ++ t)) (sym (tail.1.0))
      (more-ItemsRead v (item v' xs) s (tail.0) w (tail.1.1.1))
