-- ===== src/Arena/Coverage.antt =====
-- What the adaptive walk records of an arena.
use native.Mathlib.Nat.{div-add-mod', le-div_iff_mul-le, mul-div_cancel, add-mul}
use mathlib.Core.Path.{subst}
use runtime_code_skeptic.Base.{
  ℕ, ◌+◌, ◌-◌, ◌*◌, ◌/◌, ◌%◌, ◌≤◌, ◌<◌, ◌≡◌, inl, inr, refl, sym, ap, ◌∙◌, false, [], arith,
  Bool-cases, leb, ◌==◌,
}
use runtime_code_skeptic.Arena.{
  ArenaProbe, ArenaWalk, empty_walk, walk_tiles, discard_partial, walk_arena_adaptive,
}
use runtime_code_skeptic.Arena.Blocks.{Walked, Finishes, some_pages, tiles-Reaches}

pub aligned_pages : (x page_size : ℕ) → x % page_size ≡ 0 → x ≡ x / page_size * page_size
aligned_pages x page_size h = omega (arith, div-add-mod' x page_size)

-- Two aligned bounds are a whole number of pages apart.
pub pages_between :
    (bottom top page_size : ℕ)
    → 0 < page_size
    → bottom < top
    → bottom % page_size ≡ 0
    → top % page_size ≡ 0
    → top ≡ bottom + (top - bottom) / page_size * page_size
pages_between bottom top p some_page lt aligned_bottom aligned_top =
    let b = bottom / p in
    let t = top / p in
    let is_bottom : bottom ≡ b * p = aligned_pages bottom p aligned_bottom in
    let is_top : top ≡ t * p = aligned_pages top p aligned_top in
    let ordered : b ≤ t = (le-div_iff_mul-le some_page).1 (omega (arith, is_bottom)) in
    let whole : t ≡ t - b + b = omega arith in
    let sum : t * p ≡ (t - b) * p + b * p = ap (λ x. x * p) whole ∙ add-mul (t - b) b p in
    let gap : top - bottom ≡ (t - b) * p = omega (arith, is_bottom, is_top, sum) in
    let count : (top - bottom) / p ≡ t - b =
      ap (λ x. x / p) gap ∙ mul-div_cancel (t - b) some_page in
    omega (arith, is_bottom, is_top, sum, ap (λ x. x * p) count)

nothing-Walked : (bottom : ℕ) → Walked bottom bottom [] []
nothing-Walked bottom = record {
  known = λ a. ground arith;
  apart = λ a both. ground arith;
  proper = (tt, tt);
}

pub discard_partial-fine :
    (w : ArenaWalk)
    → (discard_partial w).budget_exhausted ≡ false
    → (w.budget_exhausted ≡ false) × (discard_partial w ≡ w)
unfolding discard_partial
discard_partial-fine w h = elim (Bool-cases w.budget_exhausted) [
  | inl ran_out ↦ absurd (ground arith)
  | inr fine ↦ (fine, rw fine refl)
]

no_attempt :
    (bottom top page_size max_window_size max_attempts : ℕ) (probe : ArenaProbe)
    → 0 < page_size
    → 0 < max_window_size
    → bottom < top
    → bottom % page_size ≡ 0
    → top % page_size ≡ 0
    → max_window_size % page_size ≡ 0
    → (walk_arena_adaptive bottom top page_size max_window_size max_attempts probe).budget_exhausted
      ≡ false
    → 0 < max_attempts
unfolding walk_arena_adaptive
no_attempt bottom top p window budget probe some_page some_window lt b t w fine =
    elim (Bool-cases (budget == 0)) [
      | inl none_left ↦ absurd (ground arith)
      | inr some_left ↦ ground arith
    ]

module _ (bottom top page_size max_window_size max_attempts : ℕ) (probe : ArenaProbe)
    (some_page : 0 < page_size) (some_window : 0 < max_window_size) (lt : bottom < top)
    (aligned_bottom : bottom % page_size ≡ 0) (aligned_top : top % page_size ≡ 0)
    (aligned_window : max_window_size % page_size ≡ 0) where
  -- The result of the loop over the tiles.
  abbrev pub tiles : ArenaWalk
  tiles =
      walk_tiles probe page_size max_attempts ((top - bottom) / page_size) top max_window_size
        bottom empty_walk

  pub walks_tiles :
      0 < max_attempts
      → walk_arena_adaptive bottom top page_size max_window_size max_attempts probe
        ≡ discard_partial tiles
  unfolding walk_arena_adaptive
  walks_tiles some_budget =
      let p : (page_size == 0) ≡ false = ground arith in
      let w : (max_window_size == 0) ≡ false = ground arith in
      let o : leb top bottom ≡ false = ground arith in
      let m : (max_attempts == 0) ≡ false = ground arith in
      rw (p, w, o, aligned_bottom, aligned_top, aligned_window, m) refl

  tiles-Walked :
      tiles.budget_exhausted ≡ false → Walked bottom top tiles.available tiles.unavailable
  tiles-Walked fine =
      let n = (top - bottom) / page_size in
      let k = max_window_size / page_size in
      let is_window : max_window_size ≡ k * page_size =
        aligned_pages max_window_size page_size aligned_window in
      let some_k =
        some_pages bottom page_size max_attempts probe some_page k (omega (arith, is_window)) in
      subst
        (λ x.
          Finishes bottom page_size max_attempts probe some_page top
            (walk_tiles probe page_size max_attempts n top x bottom empty_walk))
        (sym is_window)
        (tiles-Reaches bottom page_size max_attempts probe some_page n n k bottom top empty_walk
          (omega arith) some_k
          (pages_between bottom top page_size some_page lt aligned_bottom aligned_top) (omega arith)
          (nothing-Walked bottom))
        fine

-- A walk of page-aligned bounds whose budget lasts knows every address of the arena and no other:
-- each lies in a range that is recorded as available or in one that is recorded as unavailable, and
-- none lies in both.
pub walk_arena_adaptive-Walked :
    (bottom top page_size max_window_size max_attempts : ℕ) (probe : ArenaProbe)
    → 0 < page_size
    → 0 < max_window_size
    → bottom < top
    → bottom % page_size ≡ 0
    → top % page_size ≡ 0
    → max_window_size % page_size ≡ 0
    → (walk_arena_adaptive bottom top page_size max_window_size max_attempts probe).budget_exhausted
      ≡ false
    → Walked bottom top
        (walk_arena_adaptive bottom top page_size max_window_size max_attempts probe).available
        (walk_arena_adaptive bottom top page_size max_window_size max_attempts probe).unavailable
walk_arena_adaptive-Walked bottom top p window budget probe some_page some_window lt b t w fine =
    let some_budget =
      no_attempt bottom top p window budget probe some_page some_window lt b t w fine in
    let opened =
      walks_tiles bottom top p window budget probe some_page some_window lt b t w some_budget in
    let (fine', same) =
      discard_partial-fine (tiles bottom top p window budget probe some_page some_window lt b t w)
        (rw opened at fine) in
    subst (λ (r : ArenaWalk). Walked bottom top r.available r.unavailable) (sym (opened ∙ same))
      (tiles-Walked bottom top p window budget probe some_page some_window lt b t w fine')
