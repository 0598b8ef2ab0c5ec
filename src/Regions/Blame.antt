-- ===== src/Regions/Blame.antt =====
-- Whom `classify_window` of src/probe/windows_regions.cpp blames for a refusal.
use runtime_code_skeptic.Base.{
  ℕ, zero, suc, ◌+◌, ◌≤◌, ◌<◌, ltb, leb, ◌==◌, false, not, ◌||◌, some, ◌≡◌, refl, if-intro,
  option-intro, Returns, Returns-imp, arith,
}
use runtime_code_skeptic.Regions.{
  MemRegion, RegionQuery, Covering, max_regions_per_window, add64, search, classify_window,
}

-- A call of the query at an address of the window found an occupied region, whose base the entry has.
pub record IsBlamed (query : RegionQuery) (low high : ℕ) (c : Covering) : Type 0 where
  pub call : ℕ
  pub at : ℕ
  pub region : MemRegion
  pub answer : query call at ≡ some region
  pub occupied : region.free ≡ false
  pub inside : (low ≤ at) × (at < high)
  pub reaches : at < add64 region.base region.size
  pub base : c.start ≡ region.base

search-IsBlamed :
    (fuel : ℕ) (query : RegionQuery) (calls low at window_end : ℕ)
    → low ≤ at
    → Returns (IsBlamed query low window_end) Unit (search fuel query calls at window_end)
unfolding search
search-IsBlamed zero query calls low at window_end h = tt
search-IsBlamed (suc fuel) query calls low at window_end h =
    let P = Returns (IsBlamed query low window_end) Unit in
    if-intro P (ltb at window_end)
      (λ e.
        option-intro P (query calls at) _ _
          (λ region answer.
            let region_end = add64 region.base region.size in
            if-intro P (region.size == 0 || leb region_end at) (λ e1. tt)
              (λ e1.
                if-intro P (not region.free)
                  (λ e2. record {
                    call = calls;
                    at = at;
                    region = region;
                    answer = answer;
                    occupied = ground arith;
                    inside = (h, ground arith);
                    reaches = ground arith;
                    base = refl;
                  })
                  (λ e2.
                    search-IsBlamed fuel query (calls + 1) low region_end window_end
                      (ground arith))))
          (λ answer. tt))
      (λ e. tt)

wider :
    (query : RegionQuery) (low high top : ℕ) (c : Covering)
    → high ≤ top
    → IsBlamed query low high c
    → IsBlamed query low top c
wider query low high top c h b = record {
  call = b.call;
  at = b.at;
  region = b.region;
  answer = b.answer;
  occupied = b.occupied;
  inside = (b.inside.0, let l = b.inside.1 in omega arith);
  reaches = b.reaches;
  base = b.base;
}

-- Whatever the query answers, this process is blamed for a refused window only if a call at an address of
-- the window found an occupied region that reaches past that address, and the region that is named
-- starts where that one starts.
pub classify_window-IsBlamed :
    (base window : ℕ) (query : RegionQuery)
    → Returns (IsBlamed query base (base + window)) Unit (classify_window base window query)
unfolding classify_window
classify_window-IsBlamed base window query =
    let P = Returns (IsBlamed query base (base + window)) Unit in
    let window_end = add64 base window in
    if-intro P (window == 0) (λ e. tt)
      (λ e.
        if-intro P (ltb window_end base) (λ e1. tt)
          (λ e1.
            Returns-imp (IsBlamed query base window_end) (IsBlamed query base (base + window)) Unit
              (search max_regions_per_window query 0 base window_end)
              (λ c b. wider query base window_end (base + window) c (omega arith) b)
              (search-IsBlamed max_regions_per_window query 0 base base window_end (omega arith))))
