-- ===== src/Base/Sort.antt =====
-- `std::stable_sort` by a comparison: insertion, which keeps the order of equivalent elements.
use mathlib.Core.Path.{◌≡◌}
use mathlib.Core.Bool.{Bool, true, false}
use mathlib.Core.List.{List, [], ◌∷◌, Perm}
use mathlib.Core.List.Perm
use runtime_code_skeptic.Base.Tests.{if◌then◌else◌, if-intro}
use runtime_code_skeptic.Base.Lists.{All, Pairwise, All-imp, At, first, later}

module _ {A : Type 0} (before : A → A → Bool) where
  unfoldable pub insert_by : A → List A → List A
  insert_by c [] = c ∷ []
  insert_by c (x ∷ xs) = if before x c then x ∷ insert_by c xs else c ∷ x ∷ xs

  unfoldable pub sort_by : List A → List A
  unfolding insert_by
  sort_by [] = []
  sort_by (x ∷ xs) = insert_by x (sort_by xs)

  -- `y` need not come before `x`.
  abbrev pub Ordered : A → A → Type 0
  Ordered x y = before y x ≡ false

  abbrev pub IsSorted : List A → Type 0
  IsSorted = Pairwise Ordered

module _ {A : Type 0} (before : A → A → Bool) where
  insert_by-perm : (c : A) (xs : List A) → Perm (insert_by before c xs) (c ∷ xs)
  unfolding insert_by
  insert_by-perm c [] = Perm.refl _
  insert_by-perm c (x ∷ xs) =
      if-intro (λ l. Perm l (c ∷ x ∷ xs)) (before x c)
        (λ e. Perm.trans (Perm.cons x (insert_by-perm c xs)) (Perm.swap c x xs)) (λ e. Perm.refl _)

  -- Sorting permutes.
  pub sort_by-perm : (xs : List A) → Perm (sort_by before xs) xs
  unfolding sort_by
  sort_by-perm [] = Perm.refl _
  sort_by-perm (x ∷ xs) =
      Perm.trans (insert_by-perm x (sort_by before xs)) (Perm.cons x (sort_by-perm xs))

  module _ (P : A → Type 0) where
    All-insert_by : (c : A) (xs : List A) → P c → All P xs → All P (insert_by before c xs)
    unfolding insert_by
    All-insert_by c [] h hs = (h, tt)
    All-insert_by c (x ∷ xs) h hs =
        if-intro (All P) (before x c) (λ e. (hs.0, All-insert_by c xs h hs.1)) (λ e. (h, hs))

    pub All-sort_by : (xs : List A) → All P xs → All P (sort_by before xs)
    unfolding sort_by
    All-sort_by [] h = tt
    All-sort_by (x ∷ xs) h = All-insert_by x (sort_by before xs) h.0 (All-sort_by xs h.1)

  At-insert_by : (c : A) (xs : List A) → At c (insert_by before c xs)
  unfolding insert_by
  At-insert_by c [] = first
  At-insert_by c (x ∷ xs) =
      if-intro (At c) (before x c) (λ e. later (At-insert_by c xs)) (λ e. first)

  At-insert_by_old : (c : A) (xs : List A) {a : A} → At a xs → At a (insert_by before c xs)
  unfolding insert_by
  At-insert_by_old c [] m = elim m [ ]
  At-insert_by_old c (x ∷ xs) {a} first =
      if-intro (At a) (before a c) (λ e. first) (λ e. later first)
  At-insert_by_old c (x ∷ xs) {a} (later m) =
      if-intro (At a) (before x c) (λ e. later (At-insert_by_old c xs m)) (λ e. later (later m))

  pub At-sort_by : (xs : List A) {a : A} → At a xs → At a (sort_by before xs)
  unfolding sort_by
  At-sort_by [] m = elim m [ ]
  At-sort_by (x ∷ xs) first = At-insert_by x (sort_by before xs)
  At-sort_by (x ∷ xs) (later m) = At-insert_by_old x (sort_by before xs) (At-sort_by xs m)

-- A comparison whose failure is transitive and which is asymmetric sorts.
module _ {A : Type 0} (before : A → A → Bool)
    (trans : (x y z : A) → Ordered before x y → Ordered before y z → Ordered before x z)
    (asym : (x y : A) → before x y ≡ true → before y x ≡ false) where
  All-Ordered_trans :
      (c x : A) (xs : List A)
      → Ordered before c x
      → All (Ordered before x) xs
      → All (Ordered before c) xs
  All-Ordered_trans c x xs h = All-imp (λ y k. trans c x y h k) xs

  insert_by-IsSorted :
      (c : A) (xs : List A) → IsSorted before xs → IsSorted before (insert_by before c xs)
  unfolding insert_by
  insert_by-IsSorted c [] s = (tt, tt)
  insert_by-IsSorted c (x ∷ xs) s =
      if-intro (IsSorted before) (before x c)
        (λ e. (
          All-insert_by before (Ordered before x) c xs (asym x c e) s.0,
          insert_by-IsSorted c xs s.1,
        ))
        (λ e. ((e, All-Ordered_trans c x xs e s.0), s))

  -- The result is sorted: no element comes before one that stands to its left.
  pub sort_by-IsSorted : (xs : List A) → IsSorted before (sort_by before xs)
  unfolding sort_by
  sort_by-IsSorted [] = tt
  sort_by-IsSorted (x ∷ xs) = insert_by-IsSorted x (sort_by before xs) (sort_by-IsSorted xs)
