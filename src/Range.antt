-- ===== src/Range.antt =====
-- include/runtimeskeptic/vm/address_range.hpp and src/vm/address_range.cpp: half-open ranges of
-- 64-bit addresses, and the alignment helpers. An address is a number below `2 ^ 64`.
pub mod Bits
pub mod Align
pub mod Sets
pub mod Collapse
use Prim.Native.Nat.{bit_and}
use runtime_code_skeptic.Base.{
  ℕ, ◌+◌, ◌-◌, ◌^◌, Bool, false, true, not, ◌&&◌, ◌||◌, List, [], ◌∷◌, ◌++◌, Option, none, some,
  ltb, leb, ◌==◌, if◌then◌else◌, any,
}
use runtime_code_skeptic.Base.Sort.{sort_by}
use runtime_code_skeptic.Evidence.{EvidenceClass}

-- `std::numeric_limits<std::uint64_t>::max()`
abbrev pub uint64_max : ℕ
uint64_max = 2 ^ 64 - 1

pub record AddressRange : Type 0 where
  pub start : ℕ
  pub stop : ℕ

unfoldable pub from_base_size : ℕ → ℕ → Option AddressRange
from_base_size base size =
    if size == 0
    then none
    else if ltb (uint64_max - size) base
    then none
    else some (record { start = base; stop = base + size })

unfoldable pub empty : AddressRange → Bool
empty r = leb r.stop r.start

unfoldable pub length : AddressRange → ℕ
unfolding empty
length r = if empty r then 0 else r.stop - r.start

unfoldable pub contains_address : AddressRange → ℕ → Bool
contains_address r addr = leb r.start addr && ltb addr r.stop

unfoldable pub contains : AddressRange → AddressRange → Bool
unfolding empty
contains r other = not (empty other) && leb r.start other.start && leb other.stop r.stop

unfoldable pub intersects : AddressRange → AddressRange → Bool
unfolding empty
intersects r other =
    if empty r || empty other then false else ltb r.start other.stop && ltb other.start r.stop

unfoldable pub intersection : AddressRange → AddressRange → Option AddressRange
unfolding intersects
intersection r other =
    if not (intersects r other)
    then none
    else some (record {
      start = if ltb other.start r.start then r.start else other.start;
      stop = if ltb r.stop other.stop then r.stop else other.stop;
    })

-- `operator==` of ranges.
unfoldable pub same_range : AddressRange → AddressRange → Bool
same_range a b = a.start == b.start && a.stop == b.stop

-- The note and the source of a classified range are prose and are left out.
pub record ClassifiedRange : Type 0 where
  pub range : AddressRange
  pub evidence : EvidenceClass

-- The comparison of `collapse_contained_ranges`: by start, then the widest first.
unfoldable pub widest_first : ClassifiedRange → ClassifiedRange → Bool
widest_first a b =
    if not (a.range.start == b.range.start)
    then ltb a.range.start b.range.start
    else ltb b.range.stop a.range.stop

-- `std::sort` promises a sorted permutation; insertion is one such sort.
unfoldable pub sort_ranges : List ClassifiedRange → List ClassifiedRange
unfolding widest_first
sort_ranges = sort_by widest_first

unfoldable pub is_covered : List ClassifiedRange → ClassifiedRange → Bool
unfolding same_range contains
is_covered kept candidate =
    any (λ k. same_range k.range candidate.range || contains k.range candidate.range) kept

-- The loop over the sorted candidates, from the ranges kept so far.
unfoldable pub keep_uncovered : List ClassifiedRange → List ClassifiedRange → List ClassifiedRange
unfolding is_covered
keep_uncovered kept [] = kept
keep_uncovered kept (c ∷ rest) =
    keep_uncovered (if is_covered kept c then kept else kept ++ (c ∷ [])) rest

unfoldable pub collapse_contained_ranges : List ClassifiedRange → List ClassifiedRange
unfolding sort_ranges keep_uncovered
collapse_contained_ranges ranges = keep_uncovered [] (sort_ranges ranges)

unfoldable pub is_power_of_two : ℕ → Bool
is_power_of_two v = not (v == 0) && bit_and v (v - 1) == 0

unfoldable pub is_aligned : ℕ → ℕ → Bool
unfolding is_power_of_two
is_aligned value alignment =
    if not (is_power_of_two alignment) then false else bit_and value (alignment - 1) == 0

-- `~mask` on 64 bits.
abbrev pub complement64 : ℕ → ℕ
complement64 mask = uint64_max - mask

unfoldable pub align_up : ℕ → ℕ → Option ℕ
unfolding is_power_of_two
align_up value alignment =
    let mask = alignment - 1 in
    if not (is_power_of_two alignment)
    then none
    else if ltb (uint64_max - mask) value
    then none
    else some (bit_and (value + mask) (complement64 mask))

unfoldable pub align_down : ℕ → ℕ → Option ℕ
unfolding is_power_of_two
align_down value alignment =
    if not (is_power_of_two alignment)
    then none
    else some (bit_and value (complement64 (alignment - 1)))

unfoldable pub round_up_to : ℕ → ℕ → Option ℕ
unfolding align_up
round_up_to size granularity = align_up size granularity
