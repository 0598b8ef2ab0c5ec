-- ===== src/Range/Bits.antt =====
-- The masks of src/vm/address_range.cpp as arithmetic: `v & (v - 1)`, `v & (2^k - 1)` and
-- `v & ~(2^k - 1)`.
use Prim.Native.Nat.{bit_and, digits, bit_and-bitwise}
use native.Mathlib.Nat.{
  two-pow-succ, one-le-pow, zero-add, suc-add, mod-eq_of_lt, div-div-eq-div-mul, div-add-mod,
}
use runtime_code_skeptic.Base.{
  Bool-cases, leb, ℕ, zero, suc, ◌+◌, ◌-◌, ◌*◌, ◌/◌, ◌%◌, ◌^◌, ◌≤◌, ◌<◌, min, ◌≡◌, refl, ◌⊎◌, inl,
  inr, sym, ap, ◌∙◌, arith,
}

-- The native operation stands for a recursion on digits with fuel, and more of it than is needed
-- changes nothing.
one_more : (n a b : ℕ) → a ≤ n → digits (λ y. zero) min (suc n) a b ≡ digits (λ y. zero) min n a b
one_more zero zero b enough = refl
one_more zero (suc a) b enough = absurd (omega arith)
one_more (suc n) zero b enough = refl
one_more (suc n) (suc a) b enough = omega (arith, one_more n (suc a / 2) (b / 2) (omega arith))

more : (n m a b : ℕ) → a ≤ m → m ≤ n → digits (λ y. zero) min n a b ≡ digits (λ y. zero) min m a b
more zero m a b needed larger = let none_left : m ≡ 0 = omega arith in rw none_left refl
more (suc n) m a b needed larger = elim (Bool-cases (leb m n)) [
  | inl below ↦
      let below' : m ≤ n = ground arith in one_more n a b (omega arith) ∙ more n m a b needed below'
  | inr last ↦ let whole : m ≡ suc n = ground arith in rw whole refl
]

halves_of_suc :
    (a b : ℕ) → bit_and (suc a) b ≡ bit_and (suc a / 2) (b / 2) * 2 + min (suc a % 2) (b % 2)
halves_of_suc a b =
    let half = suc a / 2 in
    let unused = more a half half (b / 2) (omega arith) (omega arith) in
    omega (arith, unused, bit_and-bitwise half (b / 2), bit_and-bitwise (suc a) b)

pub bit_and_halves : (a b : ℕ) → bit_and a b ≡ bit_and (a / 2) (b / 2) * 2 + min (a % 2) (b % 2)
bit_and_halves zero b = omega (bit_and-bitwise 0 (b / 2), bit_and-bitwise 0 b, arith)
bit_and_halves (suc a) b = halves_of_suc a b

below_pow : (a : ℕ) → a < 2 ^ a
below_pow zero = omega arith
below_pow (suc a) = omega (arith, two-pow-succ a, below_pow a)

no_common_bits : (n a : ℕ) → a < 2 ^ n → bit_and a 0 ≡ 0
no_common_bits zero a h = let e : a ≡ 0 = omega arith in rw e refl
no_common_bits (suc n) a h =
    let ih = no_common_bits n (a / 2) (omega (arith, two-pow-succ n)) in
    omega (ih, bit_and_halves a 0, arith)

bit_and-zero : (a : ℕ) → bit_and a 0 ≡ 0
bit_and-zero a = no_common_bits a a (below_pow a)

parity : (v : ℕ) → (v % 2 ≡ 0) ⊎ (v % 2 ≡ 1)
parity v = ground arith

div-twice : (a p : ℕ) → a / (p + p) ≡ a / 2 / p
div-twice a p = ap (λ (t : ℕ). a / t) (omega arith) ∙ sym (div-div-eq-div-mul a 2 p)

mod-twice : (a p : ℕ) → 0 < p → a % (p + p) ≡ a / 2 % p * 2 + a % 2
mod-twice a p h =
    omega
      (arith, div-add-mod a (p + p), div-add-mod (a / 2) p, ap (λ (t : ℕ). p * t) (div-twice a p))

-- `a & (2^k - 1)` is the remainder by `2^k`.
pub bit_and_low : (k a : ℕ) → bit_and a (2 ^ k - 1) ≡ a % 2 ^ k
bit_and_low zero a = omega (arith, bit_and-zero a)
bit_and_low (suc k) a = ground (
  arith,
  bit_and_halves a (2 ^ suc k - 1),
  two-pow-succ k,
  bit_and_low k (a / 2),
  one-le-pow k 2,
  mod-twice a (2 ^ k),
)

-- Clearing the low `k` bits of `a` by a mask whose other bits, `m` of them, are ones.
pub bit_and_high :
    (k m a : ℕ) → a < 2 ^ (k + m) → bit_and a (2 ^ (k + m) - 2 ^ k) ≡ a / 2 ^ k * 2 ^ k
bit_and_high zero m a h =
    let h' : a < 2 ^ m = rw zero-add at h in
    rw zero-add (omega (arith, bit_and_low m a, mod-eq_of_lt h'))
bit_and_high (suc k) m a h =
    let e : 2 ^ (suc k + m) ≡ 2 ^ (k + m) + 2 ^ (k + m) = rw suc-add (two-pow-succ (k + m)) in
    ground (
      arith,
      e,
      bit_and_halves a (2 ^ (suc k + m) - 2 ^ suc k),
      two-pow-succ k,
      bit_and_high k m (a / 2) (omega (arith, e)),
      div-twice a (2 ^ k),
    )

bit_and_self_fuel : (n a : ℕ) → a ≤ n → bit_and a a ≡ a
bit_and_self_fuel n zero h = refl
bit_and_self_fuel zero (suc a) h = absurd (omega arith)
bit_and_self_fuel (suc n) (suc a) h =
    omega (arith, bit_and_halves (suc a) (suc a), bit_and_self_fuel n (suc a / 2) (omega arith))

-- `v & (v - 1)` is zero for a power of two and for no other positive number.
pub bit_and_pow : (k : ℕ) → bit_and (2 ^ k) (2 ^ k - 1) ≡ 0
bit_and_pow zero = refl
bit_and_pow (suc k) = ground (
  arith,
  bit_and_halves (2 ^ suc k) (2 ^ suc k - 1),
  two-pow-succ k,
  one-le-pow k 2,
  bit_and_pow k,
)

pow_of_bit_and_fuel : (n v : ℕ) → v ≤ n → 0 < v → bit_and v (v - 1) ≡ 0 → (k : ℕ) × (v ≡ 2 ^ k)
pow_of_bit_and_fuel zero v h p e = absurd (omega arith)
pow_of_bit_and_fuel (suc n) v h p e = elim (parity v) [
  | inl even ↦
      let (k, ih) =
        pow_of_bit_and_fuel n (v / 2) (omega arith) (omega arith)
          (ground (arith, bit_and_halves v (v - 1))) in
      (suc k, omega (arith, two-pow-succ k))
  | inr odd ↦ (0, ground (arith, bit_and_halves v (v - 1), bit_and_self_fuel (v / 2) (v / 2)))
]

pub pow_of_bit_and : (v : ℕ) → 0 < v → bit_and v (v - 1) ≡ 0 → (k : ℕ) × (v ≡ 2 ^ k)
pow_of_bit_and v = pow_of_bit_and_fuel v v (omega arith)
