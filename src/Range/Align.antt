-- ===== src/Range/Align.antt =====
-- The alignment helpers of src/vm/address_range.cpp as arithmetic.
use native.Mathlib.Nat.{one-le-pow, pow-le-pow_right, mod-lt, div-add-mod, mul_comm, mul-mod_left}
use Prim.Native.Nat.{bit_and}
use native.Mathlib.Decide.{dec_lt}
use runtime_code_skeptic.Base.{
  Returns, Returns-intro, ℕ, ◌+◌, ◌-◌, ◌*◌, ◌/◌, ◌%◌, ◌^◌, ◌≤◌, ◌<◌, ◌≡◌, ◌↔◌, ◌⊎◌, ap, ◌∙◌, true,
  Bool-cases, inl, inr, some, arith,
}
use runtime_code_skeptic.Range.{
  uint64_max, is_power_of_two, is_aligned, align_up, align_down, complement64,
}
use runtime_code_skeptic.Range.Bits.{bit_and_low, bit_and_high, bit_and_pow, pow_of_bit_and}

-- The number is one of 1, 2, 4, 8 and so on.
abbrev pub IsPower : ℕ → Type 0
IsPower v = (k : ℕ) × (v ≡ 2 ^ k)

-- The test accepts exactly the powers of two.
pub is_power_of_two_iff : (v : ℕ) → (is_power_of_two v ≡ true) ↔ IsPower v
unfolding is_power_of_two
is_power_of_two_iff v = (
  λ h. pow_of_bit_and v (ground arith) (ground arith),
  λ (k, e). ground (arith, bit_and_pow k, one-le-pow k 2),
)

-- A value is aligned exactly when the alignment is a power of two that divides it.
pub is_aligned_iff :
    (value alignment : ℕ)
    → (is_aligned value alignment ≡ true) ↔ (IsPower alignment × (value % alignment ≡ 0))
unfolding is_aligned
is_aligned_iff value alignment = (
  λ h.
      let (k, e) : IsPower alignment = (is_power_of_two_iff alignment).0 (ground arith) in
      ((k, e), ground (arith, bit_and_low k value)),
  λ ((k, e), divides).
      ground (arith, (is_power_of_two_iff alignment).1 (k, e), bit_and_low k value),
)

exponent_lt : (k : ℕ) → 2 ^ k ≤ uint64_max → k < 64
exponent_lt k h = elim (dec_lt k 64) [
  | yes p ↦ p
  | no p ↦
      let large : 2 ^ 64 ≤ 2 ^ k =
        pow-le-pow_right {n = 2} (omega arith) {i = 64} {j = k} (omega arith) in
      absurd (omega arith)
]

-- Clearing the low bits of a 64-bit value rounds it down to a multiple.
clear_low :
    (k v : ℕ)
    → 2 ^ k ≤ uint64_max
    → v ≤ uint64_max
    → bit_and v (complement64 (2 ^ k - 1)) ≡ v / 2 ^ k * 2 ^ k
clear_low k v fits v_fits =
    let m : ℕ = 64 - k in
    let sum : k + m ≡ 64 = omega (arith, exponent_lt k fits) in
    let width : 2 ^ (k + m) ≡ 2 ^ 64 = ap (λ (t : ℕ). 2 ^ t) sum in
    ap (bit_and v) (omega (arith, width, one-le-pow k 2))
    ∙ bit_and_high k m v (omega (arith, width))

-- `r` is a multiple of the alignment.
abbrev pub IsMultiple : ℕ → ℕ → Type 0
IsMultiple r alignment = r % alignment ≡ 0

rounds_down : (v p : ℕ) → 0 < p → (v / p * p ≤ v) × (v < v / p * p + p) × IsMultiple (v / p * p) p
rounds_down v p h = (
  omega (arith, div-add-mod v p, mul_comm p (v / p)),
  omega (arith, div-add-mod v p, mul_comm p (v / p), mod-lt v h),
  mul-mod_left (v / p) p,
)

align_up-some :
    (k v r : ℕ)
    → 2 ^ k ≤ uint64_max
    → align_up v (2 ^ k) ≡ some r
    → (v + (2 ^ k - 1) ≤ uint64_max) × (r ≡ (v + (2 ^ k - 1)) / 2 ^ k * 2 ^ k)
unfolding align_up
align_up-some k v r fits h =
    let room : v + (2 ^ k - 1) ≤ uint64_max = ground arith in
    (room, ground (arith, clear_low k (v + (2 ^ k - 1)) fits room))

align_up-IsPower : (v a r : ℕ) → align_up v a ≡ some r → IsPower a
unfolding align_up
align_up-IsPower v a r h = (is_power_of_two_iff a).0 (ground arith)

align_up-some_bounds :
    (k v r : ℕ)
    → 2 ^ k ≤ uint64_max
    → align_up v (2 ^ k) ≡ some r
    → (v ≤ r) × (r < v + 2 ^ k) × IsMultiple r (2 ^ k) × (r ≤ uint64_max)
align_up-some_bounds k v r fits h =
    let (room, e) = align_up-some k v r fits h in
    let (below, above, multiple) =
      rounds_down (v + (2 ^ k - 1)) (2 ^ k) (one-le-pow k 2 (omega arith)) in
    (omega arith, omega arith, rw e multiple, omega arith)

-- A 64-bit value is rounded up to the least multiple of the alignment that is not below it, where
-- the alignment is a power of two and the value plus the mask fits in 64 bits; else there is no
-- result.
pub align_up_lem :
    (value alignment : ℕ)
    → alignment ≤ uint64_max
    → Returns
        (λ r.
          IsPower alignment
          × (value + (alignment - 1) ≤ uint64_max)
          × (value ≤ r)
          × (r < value + alignment)
          × IsMultiple r alignment)
        (¬ IsPower alignment ⊎ (uint64_max < value + (alignment - 1)))
        (align_up value alignment)
unfolding align_up
align_up_lem value alignment fits =
    Returns-intro (align_up value alignment)
      (λ r h.
        let (k, e) = align_up-IsPower value alignment r h in
        let fits' : 2 ^ k ≤ uint64_max = rw e at fits in
        let h' : align_up value (2 ^ k) ≡ some r = rw e at h in
        let (a, b, c, d) = align_up-some_bounds k value r fits' h' in
        let (room, same) = align_up-some k value r fits' h' in
        ((k, e), rw e room, a, rw e b, rw e c))
      (λ h. elim (Bool-cases (is_power_of_two alignment)) [
        | inl power ↦ inr (ground arith)
        | inr other ↦ inl (λ p. ground (arith, (is_power_of_two_iff alignment).1 p))
      ])

-- A 64-bit value is rounded down to the greatest multiple of the alignment that is not above it,
-- where the alignment is a power of two; else there is no result.
pub align_down_lem :
    (value alignment : ℕ)
    → value ≤ uint64_max
    → alignment ≤ uint64_max
    → Returns
        (λ r. IsPower alignment × (r ≤ value) × (value < r + alignment) × IsMultiple r alignment)
        (¬ IsPower alignment)
        (align_down value alignment)
unfolding align_down
align_down_lem value alignment v_fits fits =
    Returns-intro (align_down value alignment)
      (λ r h.
        let (k, e) : IsPower alignment = (is_power_of_two_iff alignment).0 (ground arith) in
        let fits' : 2 ^ k ≤ uint64_max = rw e at fits in
        let result : r ≡ value / 2 ^ k * 2 ^ k = ground (arith, clear_low k value fits' v_fits) in
        let (below, above, multiple) = rounds_down value (2 ^ k) (one-le-pow k 2 (omega arith)) in
        ((k, e), omega arith, rw e (omega arith), rw (e, result) multiple))
      (λ h p. ground (arith, (is_power_of_two_iff alignment).1 p))
