-- ===== src/Arena.antt =====
-- include/runtimeskeptic/probe/arena_walk.hpp and src/probe/arena_walk.cpp: the bounds of an arena
-- of addresses, and the adaptive walk that asks the host about each of its pages.
pub mod Bounds
pub mod Leaves
pub mod Blocks
pub mod Coverage
pub mod Budget
use Prim.Native.String.{String}
use text.Mathlib.Text.{◌==◌ as str_eq}
use runtime_code_skeptic.Base.{
  ℕ, zero, suc, ◌+◌, ◌-◌, ◌*◌, ◌/◌, ◌%◌, ltb, leb, Bool, true, false, not, ◌&&◌, ◌||◌, List, [],
  ◌∷◌, ◌==◌, min, if◌then◌else◌,
}
use runtime_code_skeptic.Range.{AddressRange, uint64_max}

-- All three are 64-bit words.
unfoldable pub arena_ceiling_for : ℕ → ℕ → ℕ → ℕ
arena_ceiling_for max_user_address granularity default_map_window =
    if granularity == 0
    then max_user_address
    else if ltb (uint64_max - granularity) (min max_user_address default_map_window)
    then min max_user_address default_map_window
    else (min max_user_address default_map_window + granularity - 1) / granularity * granularity

-- `2 * span` and `max_user_address - 1` keep the wrap-around of the word.
unfoldable pub arena_floor_for : ℕ → ℕ → ℕ
arena_floor_for max_user_address span =
    if span == 0 || ltb max_user_address (2 * span % (uint64_max + 1))
    then 0
    else (max_user_address + uint64_max) % (uint64_max + 1) / span * span

unfoldable pub high_arena_floor : ℕ → ℕ → ℕ → ℕ
high_arena_floor max_user_address span must_stay_above =
    if max_user_address == 0 || span == 0
    then 0
    else if leb max_user_address span
    then 0
    else if leb (max_user_address - span) must_stay_above
    then 0
    else max_user_address - span

pub data ArenaPlacement : Type 0 where
  placed held_by_probe refused : ArenaPlacement

abbrev pub is_placed : ArenaPlacement → Bool
is_placed ArenaPlacement.placed = true
is_placed _ = false

-- The extent of an entry is read by `walk_arena` only.
pub record ArenaEntry : Type 0 where
  pub covers : Bool
  pub text : String

-- The callbacks into the operating system. The answers may depend on how many attempts went
-- before.
pub record ArenaProbe : Type 0 where
  pub place : ℕ → ℕ → ℕ → ArenaPlacement
  pub describe : ℕ → ℕ → ArenaEntry

-- A range with the part of its note that differs between two ranges of one list.
pub record NotedRange : Type 0 where
  pub range : AddressRange
  pub note : String

pub record ArenaWalk : Type 0 where
  pub available : List NotedRange
  pub unavailable : List NotedRange
  pub attempts : ℕ
  pub budget_exhausted : Bool
  pub placed : ℕ
  pub held_by_probe : ℕ
  pub refused : ℕ
  pub held_no_access : ℕ

abbrev pub empty_walk : ArenaWalk
empty_walk = record {
  available = [];
  unavailable = [];
  attempts = 0;
  budget_exhausted = false;
  placed = 0;
  held_by_probe = 0;
  refused = 0;
  held_no_access = 0;
}

abbrev pub noted : ℕ → ℕ → String → NotedRange
noted start stop note = record { range = record { start = start; stop = stop }; note = note }

-- The end of `append`: the last range grows, or a new one follows it.
unfoldable pub push_range : List NotedRange → ℕ → ℕ → String → List NotedRange
push_range [] start stop note = noted start stop note ∷ []
push_range (r ∷ []) start stop note =
    if r.range.stop == start && str_eq r.note note
    then noted r.range.start stop r.note ∷ []
    else r ∷ noted start stop note ∷ []
push_range (r ∷ s ∷ rest) start stop note = r ∷ push_range (s ∷ rest) start stop note

unfoldable pub append : List NotedRange → ℕ → ℕ → String → List NotedRange
unfolding push_range
append ranges start stop note = if leb stop start then ranges else push_range ranges start stop note

abbrev available_note : String
available_note = "established by exact placements"

abbrev pub unavailable_note : ArenaEntry → String
unavailable_note entry =
    if str_eq entry.text "" then "the platform reported a structural refusal" else entry.text

unfoldable pub grant : ℕ → ℕ → ArenaWalk → ArenaWalk
unfolding append
grant start stop out = record out { available = append out.available start stop available_note }

module _ (probe : ArenaProbe) (page_size max_attempts : ℕ) where
  -- One page that is refused, or held.
  unfoldable pub settle_page : ℕ → ArenaPlacement → ArenaWalk → ArenaWalk
  unfolding grant append
  settle_page base ArenaPlacement.placed out = out
  settle_page base ArenaPlacement.held_by_probe out =
      grant base (base + page_size) (record out { held_by_probe = suc out.held_by_probe })
  settle_page base ArenaPlacement.refused out =
      let entry = probe.describe out.attempts base in
      if entry.covers
      then grant base (base + page_size) (record out { held_no_access = suc out.held_no_access })
      else record out {
        refused = suc out.refused;
        unavailable = append out.unavailable base (base + page_size) (unavailable_note entry);
      }

  abbrev pub left_half : ℕ → ℕ
  left_half size = size / page_size / 2 * page_size

  -- The lambda `visit`, on fuel: a block of n pages needs n.
  unfoldable pub visit : ℕ → ℕ → ℕ → ArenaWalk → ArenaWalk
  unfolding settle_page grant
  visit zero base size out = out
  visit (suc fuel) base size out =
      let out' = record out { attempts = suc out.attempts } in
      let left = visit fuel base (left_half size) out' in
      let both = visit fuel (base + left_half size) (size - left_half size) left in
      if leb max_attempts out.attempts
      then record out { budget_exhausted = true }
      else if is_placed (probe.place out'.attempts base size)
      then grant base (base + size) (record out' { placed = suc out.placed })
      else if ltb page_size size
      then (if left.budget_exhausted then left else both)
      else settle_page base (probe.place out'.attempts base size) out'

  -- The loop over the tiles, on fuel: there are at most as many tiles as pages.
  unfoldable pub walk_tiles : ℕ → ℕ → ℕ → ℕ → ArenaWalk → ArenaWalk
  unfolding visit
  walk_tiles zero top max_window_size base out = out
  walk_tiles (suc fuel) top max_window_size base out =
      let size = min (top - base) max_window_size in
      let rest =
        walk_tiles fuel top max_window_size (base + size)
          (visit (size / page_size) base size out) in
      if leb top base then out else if out.budget_exhausted then out else rest

-- A partial prefix would depend on the layout of the process.
unfoldable pub discard_partial : ArenaWalk → ArenaWalk
discard_partial out =
    if out.budget_exhausted then record out { available = []; unavailable = [] } else out

-- The callbacks are taken to be there: a missing one fails closed like a misaligned bound.
unfoldable pub walk_arena_adaptive : ℕ → ℕ → ℕ → ℕ → ℕ → ArenaProbe → ArenaWalk
unfolding walk_tiles discard_partial
walk_arena_adaptive bottom top page_size max_window_size max_attempts probe =
    if page_size == 0 || max_window_size == 0 || leb top bottom
    then empty_walk
    else if not (bottom % page_size == 0)
        || not (top % page_size == 0)
        || not (max_window_size % page_size == 0)
    then empty_walk
    else if max_attempts == 0
    then record empty_walk { budget_exhausted = true }
    else discard_partial (
        walk_tiles probe page_size max_attempts ((top - bottom) / page_size) top max_window_size
          bottom empty_walk)
