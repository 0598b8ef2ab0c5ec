-- ===== src/Arena/Blocks.antt =====
-- The blocks and the tiles of an adaptive walk: each adds exactly its addresses to the lists.
use native.Mathlib.Nat.{mul-div_cancel, add-mul, zero-mul, one-mul}
use runtime_code_skeptic.Base.{
  ℕ, zero, suc, ◌+◌, ◌-◌, ◌*◌, ◌/◌, ◌≤◌, ◌<◌, ◌≡◌, ◌↔◌, ◌⊎◌, inl, inr, refl, ap, ◌∙◌, true, false,
  List, arith, Bool-cases, leb, ltb, min, if-intro,
}
use runtime_code_skeptic.Arena.{
  ArenaPlacement, ArenaProbe, NotedRange, ArenaWalk, append, grant, settle_page, left_half, visit,
  walk_tiles, is_placed,
}
use runtime_code_skeptic.Arena.Leaves.{InSome, IsProper, append-InSome, append-IsProper}

-- The lists know the addresses from the bottom up to a point, and no other; none is in both.
pub record Walked (bottom point : ℕ) (available unavailable : List NotedRange) : Type 0 where
  pub known : (a : ℕ) → (InSome a available ⊎ InSome a unavailable) ↔ ((bottom ≤ a) × (a < point))
  pub apart : (a : ℕ) → ¬ (InSome a available × InSome a unavailable)
  pub proper : IsProper available × IsProper unavailable

module _ (bottom m e : ℕ) (xs ys : List NotedRange) (above : bottom ≤ m) (lt : m < e)
    (h : Walked bottom m xs ys) where
  append_available-Walked : (note : _) → Walked bottom e (append xs m e note) ys
  append_available-Walked note = record {
    known = λ a. ground (arith, h.known a, append-InSome xs m e note h.proper.0 lt a);
    apart =
        λ a both. ground (arith, h.known a, h.apart a, append-InSome xs m e note h.proper.0 lt a);
    proper = (append-IsProper xs m e note h.proper.0 lt, h.proper.1);
  }

  append_unavailable-Walked : (note : _) → Walked bottom e xs (append ys m e note)
  append_unavailable-Walked note = record {
    known = λ a. ground (arith, h.known a, append-InSome ys m e note h.proper.1 lt a);
    apart =
        λ a both. ground (arith, h.known a, h.apart a, append-InSome ys m e note h.proper.1 lt a);
    proper = (h.proper.0, append-IsProper ys m e note h.proper.1 lt);
  }

module _ (bottom page_size max_attempts : ℕ) (probe : ArenaProbe) (some_page : 0 < page_size) where
  -- A walk has got to a point.
  abbrev pub Reaches : ℕ → ArenaWalk → Type 0
  Reaches point out = Walked bottom point out.available out.unavailable

  grant-Reaches :
      (m e : ℕ) (out : ArenaWalk) → bottom ≤ m → m < e → Reaches m out → Reaches e (grant m e out)
  unfolding grant
  grant-Reaches m e out above lt h =
      append_available-Walked bottom m e out.available out.unavailable above lt h _

  settle_page-Reaches :
      (base : ℕ) (placement : ArenaPlacement) (out : ArenaWalk)
      → bottom ≤ base
      → is_placed placement ≡ false
      → Reaches base out
      → Reaches (base + page_size) (settle_page probe page_size max_attempts base placement out)
  unfolding settle_page
  settle_page-Reaches base ArenaPlacement.placed out above other h = absurd (cc)
  settle_page-Reaches base ArenaPlacement.held_by_probe out above other h =
      grant-Reaches base (base + page_size) (record out { held_by_probe = suc out.held_by_probe })
        above (omega arith) h
  settle_page-Reaches base ArenaPlacement.refused out above other h =
      if-intro (Reaches (base + page_size)) (probe.describe out.attempts base).covers
        (λ covered.
          grant-Reaches base (base + page_size)
            (record out { held_no_access = suc out.held_no_access }) above (omega arith) h)
        (λ structural.
          append_unavailable-Walked bottom base (base + page_size) out.available out.unavailable
            above (omega arith) h _)

  pub half_pages :
      (n : ℕ) → left_half probe page_size max_attempts (n * page_size) ≡ n / 2 * page_size
  half_pages n = ap (λ t. t / 2 * page_size) (mul-div_cancel n some_page)

  pub rest_pages : (n : ℕ) → n * page_size - n / 2 * page_size ≡ (n - n / 2) * page_size
  rest_pages n =
      let whole : n ≡ n - n / 2 + n / 2 = omega arith in
      omega (arith, ap (λ t. t * page_size) whole, add-mul (n - n / 2) (n / 2) page_size)

  pub some_bytes : (n : ℕ) → 0 < n → page_size ≤ n * page_size
  some_bytes n h =
      let whole : n ≡ 1 + (n - 1) = omega arith in
      omega (arith, ap (λ t. t * page_size) whole, add-mul 1 (n - 1) page_size)

  pub many_pages : (n : ℕ) → page_size < n * page_size → 1 < n
  many_pages zero h = omega (arith, zero-mul page_size)
  many_pages (suc zero) h = omega (arith, one-mul page_size)
  many_pages (suc (suc n)) h = omega arith

  half_fits : (n : ℕ) → n / 2 * page_size ≤ n * page_size
  half_fits n =
      let whole : n ≡ n - n / 2 + n / 2 = omega arith in
      omega (arith, ap (λ t. t * page_size) whole, add-mul (n - n / 2) (n / 2) page_size)

  -- What is claimed of a walk that got to the end of a block, unless the budget ran out.
  abbrev pub Finishes : ℕ → ArenaWalk → Type 0
  Finishes e out = out.budget_exhausted ≡ false → Reaches e out

  visit-Reaches :
      (fuel n base size e : ℕ) (out : ArenaWalk)
      → 0 < n
      → n ≤ fuel
      → size ≡ n * page_size
      → e ≡ base + size
      → bottom ≤ base
      → Reaches base out
      → Finishes e (visit probe page_size max_attempts fuel base size out)
  unfolding visit
  visit-Reaches zero n base size e out some_n enough is_size is_end above h = absurd (omega arith)
  visit-Reaches (suc fuel) n base size e out some_n enough is_size is_end above h =
      let half = left_half probe page_size max_attempts size in
      let is_half : half ≡ n / 2 * page_size =
        ap (left_half probe page_size max_attempts) is_size ∙ half_pages n in
      let is_rest : size - half ≡ (n - n / 2) * page_size = cc (rest_pages n, is_size, is_half) in
      let out' : ArenaWalk = record out { attempts = suc out.attempts } in
      let left = visit probe page_size max_attempts fuel base half out' in
      let room = some_bytes n some_n in
      if-intro (Finishes e) (leb max_attempts out.attempts) (λ stopped fine. absurd (cc))
        (λ going.
          if-intro (Finishes e) (is_placed (probe.place (suc out.attempts) base size))
            (λ placed fine. rw is_end (
              grant-Reaches base (base + size) (record out' { placed = suc out.placed }) above
                (omega arith) h))
            (λ other.
              if-intro (Finishes e) (ltb page_size size)
                (λ large.
                  let large' : page_size < n * page_size = ground arith in
                  let two = many_pages n large' in
                  if-intro (Finishes e) left.budget_exhausted (λ ran_out fine. absurd (cc))
                    (λ on.
                      visit-Reaches fuel (n - n / 2) (base + half) (size - half) e left
                        (omega arith) (omega arith) is_rest
                        (omega (arith, half_fits n, is_half, is_size, is_end)) (omega arith)
                        (visit-Reaches fuel (n / 2) base half (base + half) out' (omega arith)
                          (omega arith) is_half refl above h on)))
                (λ one fine.
                  let exact : e ≡ base + page_size = ground arith in
                  rw exact (
                    settle_page-Reaches base (probe.place (suc out.attempts) base size) out' above
                      other h))))

  le_pages : (n k : ℕ) → n ≤ k → n * page_size ≤ k * page_size
  le_pages n k h =
      let whole : k ≡ k - n + n = omega arith in
      omega (arith, ap (λ t. t * page_size) whole, add-mul (k - n) n page_size)

  pub min_pages : (n k : ℕ) → min (n * page_size) (k * page_size) ≡ min n k * page_size
  min_pages n k = elim (Bool-cases (leb n k)) [
    | inl small ↦
        let le : n ≤ k = ground arith in
        let e : min n k ≡ n = omega arith in
        omega (arith, le_pages n k le, ap (λ t. t * page_size) e)
    | inr large ↦
        let le : k ≤ n = ground arith in
        let e : min n k ≡ k = omega arith in
        omega (arith, le_pages k n le, ap (λ t. t * page_size) e)
  ]

  pub some_pages : (n : ℕ) → 0 < n * page_size → 0 < n
  some_pages zero h = omega (arith, zero-mul page_size)
  some_pages (suc n) h = omega arith

  pub tiles-exhausted :
      (fuel top max_window base : ℕ) (out : ArenaWalk)
      → out.budget_exhausted ≡ true
      → walk_tiles probe page_size max_attempts fuel top max_window base out ≡ out
  unfolding walk_tiles
  tiles-exhausted zero top max_window base out h = refl
  tiles-exhausted (suc fuel) top max_window base out h = elim (Bool-cases (leb top base)) [
    | inl done ↦ rw done refl
    | inr more ↦ rw (more, h) refl
  ]

  pub tiles-Reaches :
      (fuel n k base top : ℕ) (out : ArenaWalk)
      → n ≤ fuel
      → 0 < k
      → top ≡ base + n * page_size
      → bottom ≤ base
      → Reaches base out
      → Finishes top (walk_tiles probe page_size max_attempts fuel top (k * page_size) base out)
  unfolding walk_tiles
  tiles-Reaches zero n k base top out enough some_k is_top above h = λ fine.
      let none_left : n ≡ 0 = omega arith in
      let same : top ≡ base =
        omega (arith, is_top, ap (λ t. t * page_size) none_left, zero-mul page_size) in
      rw same h
  tiles-Reaches (suc fuel) n k base top out enough some_k is_top above h =
      let size = min (top - base) (k * page_size) in
      let is_size : size ≡ min n k * page_size =
        ap (λ t. min t (k * page_size)) (omega (arith, is_top)) ∙ min_pages n k in
      let whole : n ≡ n - min n k + min n k = omega arith in
      let rest_top : n * page_size ≡ (n - min n k) * page_size + min n k * page_size =
        ap (λ t. t * page_size) whole ∙ add-mul (n - min n k) (min n k) page_size in
      let pages : size / page_size ≡ min n k =
        ap (λ t. t / page_size) is_size ∙ mul-div_cancel (min n k) some_page in
      let next = visit probe page_size max_attempts (size / page_size) base size out in
      if-intro (Finishes top) (leb top base)
        (λ done fine. let same : top ≡ base = ground (arith, is_top) in rw same h)
        (λ more.
          let some_bytes_left : 0 < n * page_size = ground (arith, is_top) in
          let some_n = some_pages n some_bytes_left in
          if-intro (Finishes top) out.budget_exhausted (λ ran_out fine. absurd (cc))
            (λ on fine. elim (Bool-cases next.budget_exhausted) [
              | inl ran_out ↦
                  let stays = tiles-exhausted fuel top (k * page_size) (base + size) next ran_out in
                  absurd (cc (fine, ran_out, ap (λ (w : ArenaWalk). w.budget_exhausted) stays))
              | inr fine_next ↦
                  tiles-Reaches fuel (n - min n k) k (base + size) top next (omega arith) some_k
                    (omega (arith, is_top, rest_top, is_size)) (omega arith)
                    (visit-Reaches (size / page_size) (min n k) base size (base + size) out
                      (omega arith) (omega (arith, pages)) is_size refl above h fine_next)
                    fine
            ]))
