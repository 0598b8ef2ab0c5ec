-- ===== src/Regions.antt =====
-- include/runtimeskeptic/probe/windows_regions.hpp and src/probe/windows_regions.cpp: which region of the
-- process lies in the way of a refused window. The query is a parameter, and its answers may depend on
-- the number of the call. The text of an entry is left out.
pub mod Blame
use runtime_code_skeptic.Base.{
  ℕ, zero, suc, ◌+◌, ◌-◌, ◌%◌, ◌^◌, ltb, leb, ◌==◌, Bool, true, false, not, ◌||◌, Option, none,
  some, if◌then◌else◌,
}

pub record MemRegion : Type 0 where
  pub base : ℕ
  pub size : ℕ
  pub free : Bool

abbrev pub RegionQuery : Type 0
RegionQuery = ℕ → ℕ → Option MemRegion

-- `covers` with `start` and `size`, or nothing.
pub record Covering : Type 0 where
  pub start : ℕ
  pub size : ℕ

abbrev pub max_regions_per_window : ℕ
max_regions_per_window = 4096

-- Sums and differences of 64-bit words.
abbrev pub add64 : ℕ → ℕ → ℕ
add64 a b = (a + b) % 2 ^ 64

abbrev pub sub64 : ℕ → ℕ → ℕ
sub64 a b = (a + (2 ^ 64 - b)) % 2 ^ 64

unfoldable pub region_at_is_occupied : ℕ → RegionQuery → Bool
region_at_is_occupied address query = elim (query 0 address) [
  | none ↦ false
  | some region ↦ not region.free
]

-- The inner loop: the end of the occupied regions that follow on, by at most `fuel` more calls.
unfoldable pub grow : ℕ → RegionQuery → ℕ → ℕ → ℕ
grow zero query calls stop = stop
grow (suc fuel) query calls stop = elim (query calls stop) [
  | none ↦ stop
  | some next ↦
      let next_end = add64 next.base next.size in
      let further = grow fuel query (calls + 1) next_end in
      if next.free then stop else if next.size == 0 || leb next_end stop then stop else further
]

-- The outer loop, from an address on.
unfoldable pub search : ℕ → RegionQuery → ℕ → ℕ → ℕ → Option Covering
unfolding grow
search zero query calls at window_end = none
search (suc fuel) query calls at window_end =
    let found = elim (query calls at) as (λ o. Option Covering) [
      | none ↦ none
      | some region ↦
          let region_end = add64 region.base region.size in
          let rest = search fuel query (calls + 1) region_end window_end in
          let end = grow max_regions_per_window query (calls + 1) region_end in
          if region.size == 0 || leb region_end at
          then none
          else if not region.free
          then some (record { start = region.base; size = sub64 end region.base })
          else rest
    ] in
    if ltb at window_end then found else none

unfoldable pub classify_window : ℕ → ℕ → RegionQuery → Option Covering
unfolding search
classify_window base window query =
    let window_end = add64 base window in
    if window == 0
    then none
    else if ltb window_end base
    then none
    else search max_regions_per_window query 0 base window_end
