-- ===== src/Arena/Budget.antt =====
-- How many attempts an adaptive walk needs.
use native.Mathlib.Nat.{mul-div_cancel, add-mul}
use mathlib.Core.Path.{subst}
use runtime_code_skeptic.Base.{
  ℕ, zero, suc, ◌+◌, ◌-◌, ◌*◌, ◌/◌, ◌%◌, ◌≤◌, ◌<◌, ◌≡◌, refl, sym, ap, ◌∙◌, false, arith, leb, ltb,
  min, if-intro,
}
use runtime_code_skeptic.Arena.{
  ArenaPlacement, ArenaProbe, ArenaWalk, empty_walk, grant, settle_page, left_half, visit,
  walk_tiles, discard_partial, walk_arena_adaptive, is_placed,
}
use runtime_code_skeptic.Arena.Blocks.{half_pages, rest_pages, many_pages, min_pages, some_pages}
use runtime_code_skeptic.Arena.Coverage.{aligned_pages, pages_between, walks_tiles}

module _ (page_size max_attempts : ℕ) (probe : ArenaProbe) (some_page : 0 < page_size) where
  -- The budget lasts, and so many attempts were made at most.
  abbrev pub Lasts : ℕ → ArenaWalk → Type 0
  Lasts most out = (out.budget_exhausted ≡ false) × (out.attempts ≤ most)

  settle_page-Lasts :
      (base most : ℕ) (placement : ArenaPlacement) (out : ArenaWalk)
      → Lasts most out
      → Lasts most (settle_page probe page_size max_attempts base placement out)
  unfolding settle_page grant
  settle_page-Lasts base most ArenaPlacement.placed out h = h
  settle_page-Lasts base most ArenaPlacement.held_by_probe out h = h
  settle_page-Lasts base most ArenaPlacement.refused out h =
      if-intro (Lasts most) (probe.describe out.attempts base).covers (λ e. h) (λ e. h)

  visit-Lasts :
      (fuel n base size : ℕ) (out : ArenaWalk)
      → 0 < n
      → n ≤ fuel
      → size ≡ n * page_size
      → out.budget_exhausted ≡ false
      → out.attempts + 2 * n ≤ max_attempts + 1
      → Lasts (out.attempts + 2 * n - 1) (visit probe page_size max_attempts fuel base size out)
  unfolding visit
  visit-Lasts zero n base size out some_n enough is_size fine room = absurd (omega arith)
  visit-Lasts (suc fuel) n base size out some_n enough is_size fine room =
      let most = out.attempts + 2 * n - 1 in
      let half = left_half probe page_size max_attempts size in
      let is_half : half ≡ n / 2 * page_size =
        ap (left_half probe page_size max_attempts) is_size
        ∙ half_pages 0 page_size max_attempts probe some_page n in
      let is_rest : size - half ≡ (n - n / 2) * page_size =
        cc (rest_pages 0 page_size max_attempts probe some_page n, is_size, is_half) in
      let out' : ArenaWalk = record out { attempts = suc out.attempts } in
      let left = visit probe page_size max_attempts fuel base half out' in
      if-intro (Lasts most) (leb max_attempts out.attempts) (λ stopped. absurd (ground arith))
        (λ going.
          if-intro (Lasts most) (is_placed (probe.place (suc out.attempts) base size))
            (λ placed. (fine, omega arith))
            (λ other.
              if-intro (Lasts most) (ltb page_size size)
                (λ large.
                  let large' : page_size < n * page_size = ground arith in
                  let two = many_pages 0 page_size max_attempts probe some_page n large' in
                  let (fine_left, most_left) =
                    visit-Lasts fuel (n / 2) base half out' (omega arith) (omega arith) is_half fine
                      (omega arith) in
                  if-intro (Lasts most) left.budget_exhausted (λ ran_out. absurd (cc))
                    (λ on.
                      let (fine_both, most_both) =
                        visit-Lasts fuel (n - n / 2) (base + half) (size - half) left (omega arith)
                          (omega arith) is_rest fine_left (omega arith) in
                      (fine_both, omega (arith, most_both, most_left))))
                (λ one.
                  settle_page-Lasts base most (probe.place (suc out.attempts) base size) out'
                    (fine, omega arith))))

  tiles-Lasts :
      (fuel n k base top : ℕ) (out : ArenaWalk)
      → n ≤ fuel
      → 0 < k
      → top ≡ base + n * page_size
      → out.budget_exhausted ≡ false
      → out.attempts + 2 * n ≤ max_attempts
      → (walk_tiles probe page_size max_attempts fuel top (k * page_size) base out).budget_exhausted
        ≡ false
  unfolding walk_tiles
  tiles-Lasts zero n k base top out enough some_k is_top fine room = fine
  tiles-Lasts (suc fuel) n k base top out enough some_k is_top fine room =
      let size = min (top - base) (k * page_size) in
      let is_size : size ≡ min n k * page_size =
        ap (λ t. min t (k * page_size)) (omega (arith, is_top))
        ∙ min_pages 0 page_size max_attempts probe some_page n k in
      let whole : n ≡ n - min n k + min n k = omega arith in
      let rest_top : n * page_size ≡ (n - min n k) * page_size + min n k * page_size =
        ap (λ t. t * page_size) whole ∙ add-mul (n - min n k) (min n k) page_size in
      let pages : size / page_size ≡ min n k =
        ap (λ t. t / page_size) is_size ∙ mul-div_cancel (min n k) some_page in
      if-intro (λ (w : ArenaWalk). w.budget_exhausted ≡ false) (leb top base) (λ done. fine)
        (λ more.
          let some_n =
            some_pages 0 page_size max_attempts probe some_page n (ground (arith, is_top)) in
          let (fine_next, most_next) =
            visit-Lasts (size / page_size) (min n k) base size out (omega arith)
              (omega (arith, pages)) is_size fine (omega arith) in
          if-intro (λ (w : ArenaWalk). w.budget_exhausted ≡ false) out.budget_exhausted
            (λ ran_out. absurd (cc))
            (λ on.
              tiles-Lasts fuel (n - min n k) k (base + size) top
                (visit probe page_size max_attempts (size / page_size) base size out) (omega arith)
                some_k (omega (arith, is_top, rest_top, is_size)) fine_next
                (omega (arith, most_next))))

-- A budget of two attempts for each page of the arena is enough: the walk does not run out of it.
pub walk_arena_adaptive-budget :
    (bottom top page_size max_window_size max_attempts : ℕ) (probe : ArenaProbe)
    → 0 < page_size
    → 0 < max_window_size
    → bottom < top
    → bottom % page_size ≡ 0
    → top % page_size ≡ 0
    → max_window_size % page_size ≡ 0
    → 2 * ((top - bottom) / page_size) ≤ max_attempts
    → (walk_arena_adaptive bottom top page_size max_window_size max_attempts probe).budget_exhausted
      ≡ false
unfolding discard_partial
walk_arena_adaptive-budget bottom top p window budget probe some_page some_window lt b t w room =
    let n = (top - bottom) / p in
    let k = window / p in
    let is_top = pages_between bottom top p some_page lt b t in
    let some_n = some_pages 0 p budget probe some_page n (omega (arith, is_top)) in
    let is_window : window ≡ k * p = aligned_pages window p w in
    let some_k = some_pages 0 p budget probe some_page k (omega (arith, is_window)) in
    let lasts : (walk_tiles probe p budget n top window bottom empty_walk).budget_exhausted
        ≡ false =
      subst (λ x. (walk_tiles probe p budget n top x bottom empty_walk).budget_exhausted ≡ false)
        (sym is_window)
        (tiles-Lasts p budget probe some_page n n k bottom top empty_walk (omega arith) some_k
          is_top refl (omega arith)) in
    let opened =
      walks_tiles bottom top p window budget probe some_page some_window lt b t w (omega arith) in
    rw opened (ground (arith, lasts))
