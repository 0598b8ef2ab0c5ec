-- ===== src/Range/Sets.antt =====
-- Ranges as sets of addresses: what `contains`, `intersects` and `intersection` mean.
use runtime_code_skeptic.Base.{
  Returns, Returns-intro, ℕ, ◌+◌, ◌-◌, ◌≤◌, ◌<◌, ◌≡◌, ◌↔◌, ◌⊎◌, true, false, arith, max,
}
use runtime_code_skeptic.Range.{
  AddressRange, uint64_max, from_base_size, empty, length, contains_address, contains, intersects,
  intersection,
}

-- The address lies in the half-open range.
abbrev pub InRange : ℕ → AddressRange → Type 0
InRange a r = (r.start ≤ a) × (a < r.stop)

-- `from_base_size` returns a range that starts at the base and has the size for its length, where
-- the size is not zero and the end fits in 64 bits; else it returns nothing.
pub from_base_size_lem :
    (base size : ℕ)
    → size ≤ uint64_max
    → Returns
        (λ r.
          (r.start ≡ base)
          × (length r ≡ size)
          × (empty r ≡ false)
          × (base + size ≤ uint64_max)
          × (r.stop ≤ uint64_max))
        ((size ≡ 0) ⊎ (uint64_max < base + size))
        (from_base_size base size)
unfolding from_base_size length empty
from_base_size_lem base size fits =
    Returns-intro (from_base_size base size) (λ r h. ground arith) (λ h. ground arith)

pub empty_iff : (r : AddressRange) → (empty r ≡ true) ↔ ((a : ℕ) → ¬ InRange a r)
unfolding empty
empty_iff r = (λ h a i. ground arith, λ h. ground (arith, h r.start))

pub contains_address_iff : (r : AddressRange) (a : ℕ) → (contains_address r a ≡ true) ↔ InRange a r
unfolding contains_address
contains_address_iff r a = ground arith

-- A range contains another exactly when the other is not empty and each address of the other
-- lies in it.
pub contains_iff :
    (r s : AddressRange)
    → (contains r s ≡ true) ↔ ((empty s ≡ false) × ((a : ℕ) → InRange a s → InRange a r))
unfolding contains
contains_iff r s =
    (λ h. (ground arith, λ a i. ground arith), λ h. ground (arith, h.1 s.start, h.1 (s.stop - 1)))

-- Two ranges intersect exactly when some address lies in both.
pub intersects_iff :
    (r s : AddressRange) → (intersects r s ≡ true) ↔ ((a : ℕ) × InRange a r × InRange a s)
unfolding intersects
intersects_iff r s =
    (λ h. (max r.start s.start, ground arith, ground arith), λ (a, i, j). ground arith)

-- `intersection` returns the range whose addresses are exactly those that lie in both ranges, and
-- there is such an address; or it returns nothing, and no address lies in both.
pub intersection_lem :
    (r s : AddressRange)
    → Returns
        (λ t. (empty t ≡ false) × ((a : ℕ) → InRange a t ↔ (InRange a r × InRange a s)))
        ((a : ℕ) → ¬ (InRange a r × InRange a s))
        (intersection r s)
unfolding intersection empty
intersection_lem r s =
    Returns-intro (intersection r s) (λ t h. (ground arith, λ a. ground arith))
      (λ h a i. ground arith)
