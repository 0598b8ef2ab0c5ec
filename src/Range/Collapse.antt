-- ===== src/Range/Collapse.antt =====
-- What `collapse_contained_ranges` keeps.
use runtime_code_skeptic.Base.{
  ℕ, ◌≤◌, ◌≡◌, ◌↔◌, inl, inr, Bool, true, false, ◌||◌, List, [], ◌∷◌, ◌++◌, arith, All, All-append,
  All-imp, All-both, All-any-false, All-of_At, All-At, At, At-any, At-append_left, At-append_right,
  first, later, Pairwise, Pairwise-imp, Pairwise-append_one, Bool-cases, if-intro, if◌then◌else◌,
}
use runtime_code_skeptic.Base.Sort.{Ordered, sort_by-IsSorted, All-sort_by, At-sort_by}
use runtime_code_skeptic.Range.Sets.{InRange}
use runtime_code_skeptic.Range.{
  ClassifiedRange, same_range, contains, widest_first, sort_ranges, is_covered, keep_uncovered,
  collapse_contained_ranges,
}

-- The test of the loop: the ranges are equal, or the first contains the second.
abbrev pub covers : ClassifiedRange → ClassifiedRange → Bool
covers k c = same_range k.range c.range || contains k.range c.range

-- Some range of the list covers `c`.
abbrev pub CoveredIn : List ClassifiedRange → ClassifiedRange → Type 0
CoveredIn kept c = (k : ClassifiedRange) × At k kept × (covers k c ≡ true)

abbrev After : ClassifiedRange → ClassifiedRange → Type 0
After = Ordered widest_first

After-trans : (x y z : ClassifiedRange) → After x y → After y z → After x z
unfolding widest_first
After-trans x y z h k = ground arith

After-start_le : (x y : ClassifiedRange) → After x y → x.range.start ≤ y.range.start
unfolding widest_first
After-start_le x y h = ground arith

widest_first-asym : (x y : ClassifiedRange) → widest_first x y ≡ true → widest_first y x ≡ false
unfolding widest_first
widest_first-asym x y h = ground arith

covers_addresses :
    (k c : ClassifiedRange) (a : ℕ) → covers k c ≡ true → InRange a c.range → InRange a k.range
unfolding same_range contains
covers_addresses k c a h i = ground arith

-- What comes later in the sorted order covers what came before only if it is equal to it.
covers_back : (x y : ClassifiedRange) → After x y → covers x y ≡ false → covers y x ≡ false
unfolding widest_first same_range contains
covers_back x y h k = ground arith

covers_self : (c : ClassifiedRange) → covers c c ≡ true
unfolding same_range
covers_self c = ground arith

-- An earlier range and a later one of the result: sorted, and neither covers the other.
abbrev Apart : ClassifiedRange → ClassifiedRange → Type 0
Apart x y = After x y × (covers x y ≡ false) × (covers y x ≡ false)

module _ (P : ClassifiedRange → Type 0) where
  keep_uncovered-All :
      (kept rest : List ClassifiedRange)
      → All P kept
      → All P rest
      → All P (keep_uncovered kept rest)
  unfolding keep_uncovered
  keep_uncovered-All kept [] h hs = h
  keep_uncovered-All kept (c ∷ rest) h hs =
      keep_uncovered-All (if is_covered kept c then kept else kept ++ (c ∷ [])) rest
        (if-intro (All P) (is_covered kept c) (λ e. h)
          (λ e. All-append P kept (c ∷ []) h (hs.0, tt)))
        hs.1

keep_uncovered-At :
    (kept rest : List ClassifiedRange) {k : ClassifiedRange}
    → At k kept
    → At k (keep_uncovered kept rest)
unfolding keep_uncovered
keep_uncovered-At kept [] m = m
keep_uncovered-At kept (c ∷ rest) {k} m =
    keep_uncovered-At (if is_covered kept c then kept else kept ++ (c ∷ [])) rest
      (if-intro (At k) (is_covered kept c) (λ e. m) (λ e. At-append_left (c ∷ []) m))

keep_uncovered-CoveredIn :
    (kept rest : List ClassifiedRange) {c : ClassifiedRange}
    → At c rest
    → CoveredIn (keep_uncovered kept rest) c
unfolding keep_uncovered
keep_uncovered-CoveredIn kept [] m = elim m [ ]
keep_uncovered-CoveredIn kept (c ∷ rest) first = elim (Bool-cases (is_covered kept c)) [
  | inl old ↦
      let (k, m, e) = At-any (λ k. covers k c) kept (unfold is_covered in old) in
      rw old (k, keep_uncovered-At kept rest m, e)
  | inr new ↦
      rw new
        (c, keep_uncovered-At (kept ++ (c ∷ [])) rest (At-append_right kept first), covers_self c)
]
keep_uncovered-CoveredIn kept (x ∷ rest) (later m) =
    keep_uncovered-CoveredIn (if is_covered kept x then kept else kept ++ (x ∷ [])) rest m

Apart-of_uncovered :
    (kept : List ClassifiedRange) (c : ClassifiedRange)
    → All (λ k. After k c) kept
    → is_covered kept c ≡ false
    → All (λ k. Apart k c) kept
unfolding is_covered
Apart-of_uncovered kept c h e =
    All-imp (λ k both. (both.0, both.1, covers_back k c both.0 both.1)) kept
      (All-both (λ k. After k c) (λ k. covers k c ≡ false) kept h
        (All-any-false (λ k. covers k c) kept e))

keep_uncovered-Apart :
    (kept rest : List ClassifiedRange)
    → Pairwise Apart kept
    → All (λ k. All (After k) rest) kept
    → Pairwise After rest
    → Pairwise Apart (keep_uncovered kept rest)
unfolding keep_uncovered
keep_uncovered-Apart kept [] h across sorted = h
keep_uncovered-Apart kept (c ∷ rest) h across sorted =
    keep_uncovered-Apart (if is_covered kept c then kept else kept ++ (c ∷ [])) rest
      (if-intro (Pairwise Apart) (is_covered kept c) (λ e. h)
        (λ e.
          Pairwise-append_one Apart kept c h
            (Apart-of_uncovered kept c (All-imp (λ k a. a.0) kept across) e)))
      (if-intro (All (λ k. All (After k) rest)) (is_covered kept c)
        (λ e. All-imp (λ k a. a.1) kept across)
        (λ e.
          All-append (λ k. All (After k) rest) kept (c ∷ []) (All-imp (λ k a. a.1) kept across)
            (sorted.0, tt)))
      sorted.1

sort_ranges-sorted : (ranges : List ClassifiedRange) → Pairwise After (sort_ranges ranges)
unfolding sort_ranges
sort_ranges-sorted = sort_by-IsSorted widest_first After-trans widest_first-asym

-- The collapsed list is sorted by start, none of its ranges equals or contains another of them,
-- each of them was in the input, and every range of the input is equal to or contained in one of
-- them.
pub collapse_lem :
    (ranges : List ClassifiedRange)
    → let kept = collapse_contained_ranges ranges in
      Pairwise
        (λ x y. (x.range.start ≤ y.range.start) × (covers x y ≡ false) × (covers y x ≡ false))
        kept
      × All (λ k. At k ranges) kept
      × All (CoveredIn kept) ranges
unfolding collapse_contained_ranges sort_ranges
collapse_lem ranges = (
  Pairwise-imp (λ x y h. (After-start_le x y h.0, h.1, h.2)) (keep_uncovered [] sorted)
      (keep_uncovered-Apart [] sorted tt tt (sort_ranges-sorted ranges)),
  keep_uncovered-All (λ k. At k ranges) [] sorted tt
      (All-sort_by widest_first (λ k. At k ranges) ranges
        (All-of_At (λ k. At k ranges) ranges (λ a m. m))),
  All-of_At (CoveredIn (keep_uncovered [] sorted)) ranges
      (λ c m. keep_uncovered-CoveredIn [] sorted (At-sort_by widest_first ranges m)),
)
  where
    sorted : List ClassifiedRange
    sorted = sort_ranges ranges

-- Collapsing loses and invents no address: an address lies in some range of the input exactly
-- when it lies in some range that is kept.
pub collapse_addresses :
    (ranges : List ClassifiedRange) (a : ℕ)
    → ((c : ClassifiedRange) × At c ranges × InRange a c.range)
      ↔ ((k : ClassifiedRange) × At k (collapse_contained_ranges ranges) × InRange a k.range)
collapse_addresses ranges a = (
  λ (c, m, i).
      let (k, n, e) =
        All-At (CoveredIn (collapse_contained_ranges ranges)) m (collapse_lem ranges).2 in
      (k, n, covers_addresses k c a e i),
  λ (k, m, i). (k, All-At (λ x. At x ranges) m (collapse_lem ranges).1, i),
)
