-- ===== src/Json.antt =====
-- include/runtimeskeptic/core/json.hpp and the class `Value` of src/core/json.cpp. A text is the list
-- of its bytes. A double is the text of its token: `strtod` turns it into a number, and only
-- the comparison and the conversions of doubles would look at that number.
pub mod Lexer
pub mod Parser
pub mod Reads
pub mod Order
pub mod Shape
pub mod Numbers
pub mod Total
pub mod Decimal
pub mod Quoted
pub mod Written
pub mod RoundTrip
pub mod Canonical
pub mod Hex
pub mod Writer
use runtime_code_skeptic.Base.{
  ℕ, ◌+◌, ltb, leb, Bool, true, false, not, ◌&&◌, ◌||◌, Option, none, some, ◌==◌, if◌then◌else◌,
  Bytes, same_bytes, bytes_before,
}

-- A signed 64-bit integer: `below n` is `- n - 1`.
pub data Signed : Type 0 where
  from_zero below : ℕ → Signed

-- The array and the object of a value are lists; the keys of an object are sorted (`std::map`).
mutual
  pub data Value : Type 0 where
    null : Value
    bool : Bool → Value
    int : Signed → Value
    uint : ℕ → Value
    double : Bytes → Value
    str : Bytes → Value
    array : Items → Value
    object : Members → Value

  pub data Items : Type 0 where
    no_items : Items
    item : Value → Items → Items

  pub data Members : Type 0 where
    no_members : Members
    member : Bytes → Value → Members → Members

-- `std::map::find`
unfoldable pub find_member : Bytes → Members → Option Value
find_member key no_members = none
find_member key (member k v rest) = if same_bytes k key then some v else find_member key rest

-- `Value::find`
unfoldable pub find : Value → Bytes → Option Value
unfolding find_member
find (object members) key = find_member key members
find _ key = none

-- `std::map::emplace`: the entry of a key that is there stays.
unfoldable pub insert_member : Bytes → Value → Members → Members
insert_member key v no_members = member key v no_members
insert_member key v (member k w rest) =
    let after = insert_member key v rest in
    if bytes_before key k
    then member key v (member k w rest)
    else if same_bytes key k
    then member k w rest
    else member k w after
