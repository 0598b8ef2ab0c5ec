-- ===== src/Json/Shape.antt =====
-- The shape of the values that the reader makes.
use runtime_code_skeptic.Base.{ℕ, ◌+◌, ◌≤◌, if-intro, Bytes, bytes_before, same_bytes}
use runtime_code_skeptic.Range.{uint64_max}
use runtime_code_skeptic.Json.{
  Value, Signed, Items, Members, no_items, item, no_members, member, insert_member,
}
use runtime_code_skeptic.Json.Parser.{max_depth}
use runtime_code_skeptic.Json.Order.{KeysSorted}

-- A signed 64-bit integer.
abbrev pub InInt64 : Signed → Type 0
InInt64 (Signed.from_zero n) = n ≤ 0x7FFFFFFFFFFFFFFF
InInt64 (Signed.below n) = n ≤ 0x7FFFFFFFFFFFFFFF

-- A value that stands at a depth of `d`: its integers fit in 64 bits, the keys of its objects are
-- strictly sorted, and no part of it is deeper than `max_depth`.
abbrev mutual
  pub IsValue : ℕ → Value → Type 0
  IsValue d Value.null = d ≤ max_depth
  IsValue d (Value.bool b) = d ≤ max_depth
  IsValue d (Value.int z) = (d ≤ max_depth) × InInt64 z
  IsValue d (Value.uint n) = (d ≤ max_depth) × (n ≤ uint64_max)
  IsValue d (Value.double t) = d ≤ max_depth
  IsValue d (Value.str s) = d ≤ max_depth
  IsValue d (Value.array xs) = (d ≤ max_depth) × AllItems (d + 1) xs
  IsValue d (Value.object ms) = (d ≤ max_depth) × (KeysSorted ms × AllMembers (d + 1) ms)

  pub AllItems : ℕ → Items → Type 0
  AllItems d no_items = Unit
  AllItems d (item v xs) = IsValue d v × AllItems d xs

  pub AllMembers : ℕ → Members → Type 0
  AllMembers d no_members = Unit
  AllMembers d (member k v ms) = IsValue d v × AllMembers d ms

pub insert_member-AllMembers :
    (d : ℕ) (key : Bytes) (v : Value) (ms : Members)
    → IsValue d v
    → AllMembers d ms
    → AllMembers d (insert_member key v ms)
unfolding insert_member
insert_member-AllMembers d key v no_members h a = (h, tt)
insert_member-AllMembers d key v (member k w rest) h a =
    if-intro (AllMembers d) (bytes_before key k) (λ e. (h, a))
      (λ e.
        if-intro (AllMembers d) (same_bytes key k) (λ e'. a)
          (λ e'. (a.0, insert_member-AllMembers d key v rest h a.1)))
