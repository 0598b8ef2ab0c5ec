-- ===== src/Json/Written.antt =====
-- What a text written by `write_canonical` of src/core/json.cpp is to the reader.
pub mod Scalars
pub mod Elements
pub mod Pairs
use runtime_code_skeptic.Base.{
  ℕ, ◌+◌, ◌*◌, ◌≤◌, Bool, true, false, List, [], ◌∷◌, ◌++◌, Option, none, some, Returns, length,
  ◌==◌, ◌≡◌, refl, Bytes,
}
use runtime_code_skeptic.Json.{Value, Signed, Items, Members, no_items, item, no_members, member}
use runtime_code_skeptic.Json.Lexer.{Parsed, skip_ws, is_ws, starts_with}
use runtime_code_skeptic.Json.Parser.{parse_value}
use runtime_code_skeptic.Json.Writer.{then_write}
use runtime_code_skeptic.Json.Shape.{IsValue}
use runtime_code_skeptic.Json.Decimal.{EndsNumber}

-- The value as it is read back: an integer that is not negative comes back unsigned.
abbrev mutual
  pub read_back : Value → Value
  read_back Value.null = Value.null
  read_back (Value.bool b) = Value.bool b
  read_back (Value.int (Signed.from_zero n)) = Value.uint n
  read_back (Value.int (Signed.below n)) = Value.int (Signed.below n)
  read_back (Value.uint n) = Value.uint n
  read_back (Value.double t) = Value.double t
  read_back (Value.str s) = Value.str s
  read_back (Value.array xs) = Value.array (read_items xs)
  read_back (Value.object ms) = Value.object (read_members ms)

  pub read_items : Items → Items
  read_items no_items = no_items
  read_items (item v xs) = item (read_back v) (read_items xs)

  pub read_members : Members → Members
  read_members no_members = no_members
  read_members (member k v ms) = member k (read_back v) (read_members ms)

-- The text starts with a character that is neither white space nor a closing bracket.
abbrev pub StartsValue : Bytes → Type 0
StartsValue [] = ⊥
StartsValue (c ∷ t) = (is_ws c ≡ false) × ((c == 93) ≡ false)

pub StartsValue-append : (s t : Bytes) → StartsValue s → StartsValue (s ++ t)
StartsValue-append [] t h = absurd h
StartsValue-append (c ∷ s) t h = h

pub skip_ws-StartsValue : (t rest : Bytes) → StartsValue t → skip_ws (t ++ rest) ≡ t ++ rest
unfolding skip_ws
skip_ws-StartsValue [] rest h = absurd h
skip_ws-StartsValue (c ∷ t) rest h = rw (h.0) refl

pub starts_with-StartsValue : (t rest : Bytes) → StartsValue t → starts_with 93 (t ++ rest) ≡ false
starts_with-StartsValue [] rest h = absurd h
starts_with-StartsValue (c ∷ t) rest h = h.1

-- The text is read as the value, whatever follows it, on enough fuel.
abbrev pub IsRead : Value → Bytes → Type 0
IsRead v t =
    (f d : ℕ) (rest : Bytes)
    → IsValue d v
    → EndsNumber rest
    → 2 * length (t ++ rest) + 1 ≤ f
    → parse_value f d (t ++ rest) ≡ Parsed.ok (read_back v) rest

abbrev pub Written : Value → Bytes → Type 0
Written v t = StartsValue t × IsRead v t

pub then_write-Returns :
    {P Q : Bytes → Type 0} (R : Bytes → Type 0) (o p : Option Bytes)
    → Returns P Unit o
    → Returns Q Unit p
    → ((s t : Bytes) → P s → Q t → R (s ++ t))
    → Returns R Unit (then_write o p)
then_write-Returns R (some s) (some t) h k f = f s t h k
then_write-Returns R (some s) none h k f = tt
then_write-Returns R none p h k f = tt
