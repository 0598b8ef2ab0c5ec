-- ===== src/Arena/Bounds.antt =====
-- The bounds of an arena.
use native.Mathlib.Nat.{lt-div-mul-add, div-mul-le_self, mul-mod_left}
use runtime_code_skeptic.Base.{
  ℕ, ◌+◌, ◌-◌, ◌*◌, ◌/◌, ◌%◌, ◌≤◌, ◌<◌, ◌≡◌, ◌==◌, ltb, false, min, arith, refl,
}
use runtime_code_skeptic.Range.{uint64_max}
use runtime_code_skeptic.Arena.{arena_ceiling_for, arena_floor_for}

-- The ceiling is the least multiple of the granularity that is not below the smaller of the two
-- bounds, where rounding up fits in 64 bits.
pub arena_ceiling_for_lem :
    (max_user_address granularity default_map_window : ℕ)
    → 0 < granularity
    → granularity ≤ uint64_max
    → min max_user_address default_map_window ≤ uint64_max - granularity
    → let r = arena_ceiling_for max_user_address granularity default_map_window in
      let cap = min max_user_address default_map_window in
      (cap ≤ r) × (r < cap + granularity) × (r % granularity ≡ 0)
unfolding arena_ceiling_for
arena_ceiling_for_lem m g w some_g g_fits fits =
    let cap = min m w in
    let rounded : arena_ceiling_for m g w ≡ (cap + g - 1) / g * g = ground arith in
    let above = lt-div-mul-add {a = cap + g - 1} some_g in
    let below = div-mul-le_self (cap + g - 1) g in
    (
      omega (arith, rounded, above),
      omega (arith, rounded, below),
      rw rounded (mul-mod_left ((cap + g - 1) / g) g),
    )

-- On a host with room for two spans the floor is a multiple of the span, at least one span, and
-- the arena from the floor to the top is not empty and no wider than the span.
pub arena_floor_for_lem :
    (max_user_address span : ℕ)
    → 0 < span
    → 2 * span ≤ uint64_max
    → 2 * span ≤ max_user_address
    → max_user_address ≤ uint64_max
    → let r = arena_floor_for max_user_address span in
      (r % span ≡ 0) × (span ≤ r) × (r < max_user_address) × (max_user_address ≤ r + span)
unfolding arena_floor_for
arena_floor_for_lem m s some_s s_fits room fits =
    let word : (m + uint64_max) % (uint64_max + 1) ≡ m - 1 = omega arith in
    let no_wrap : 2 * s % (uint64_max + 1) ≡ 2 * s = omega arith in
    let rounded : arena_floor_for m s ≡ (m - 1) / s * s =
      let some_span : (s == 0) ≡ false = ground arith in
      let no_room : ltb m (2 * s % (uint64_max + 1)) ≡ false = ground arith in
      rw (some_span, no_room, word) refl in
    let above = lt-div-mul-add {a = m - 1} some_s in
    let below = div-mul-le_self (m - 1) s in
    (
      rw rounded (mul-mod_left ((m - 1) / s) s),
      omega (arith, rounded, above),
      omega (arith, rounded, below),
      omega (arith, rounded, above),
    )
