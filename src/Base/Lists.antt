-- ===== src/Base/Lists.antt =====
-- Boolean quantifiers over lists (`std::any_of`, `std::all_of`) and the predicate `All`.
use Prim.Native.Nat.{ℕ, suc}
use mathlib.Core.Path.{◌≡◌}
use mathlib.Core.Logic.{inl, inr}
use mathlib.Core.Bool.{Bool, true, false, ◌&&◌, ◌||◌}
use mathlib.Core.List.{List, [], ◌∷◌, ◌++◌}
use native.Mathlib.Omega.{arith}
use runtime_code_skeptic.Base.Tests.{Bool-cases}

module _ {ℓ} {A : Type ℓ} where
  abbrev pub length : List A → ℕ
  length [] = 0
  length (x ∷ xs) = suc (length xs)

  -- `std::any_of` and `std::all_of`
  abbrev pub any : (A → Bool) → List A → Bool
  any p [] = false
  any p (x ∷ xs) = p x || any p xs

  abbrev pub all : (A → Bool) → List A → Bool
  all p [] = true
  all p (x ∷ xs) = p x && all p xs

-- A predicate by recursion computes to tuples, which the tactics read and build.
abbrev pub All {ℓ κ} : {A : Type ℓ} → (A → Type κ) → List A → Type κ
All P [] = Unit
All P (x ∷ xs) = P x × All P xs

-- Where an element stands in a list; it can be matched, unlike a truncated membership.
pub data At {ℓ} {A : Type ℓ} (a : A) : List A → Type ℓ where
  first : {xs : List A} → At a (a ∷ xs)
  later : {x : A} {xs : List A} → At a xs → At a (x ∷ xs)

pub All-At {ℓ κ} : {A : Type ℓ} (P : A → Type κ) {a : A} {xs : List A} → At a xs → All P xs → P a
All-At P first h = h.0
All-At P (later m) h = All-At P m h.1

pub All-append {ℓ κ} :
    {A : Type ℓ} (P : A → Type κ) (xs ys : List A) → All P xs → All P ys → All P (xs ++ ys)
All-append P [] ys hx hy = hy
All-append P (x ∷ xs) ys hx hy = (hx.0, All-append P xs ys hx.1 hy)

pub All-imp {ℓ κ} :
    {A : Type ℓ} {P Q : A → Type κ} → ((a : A) → P a → Q a) → (xs : List A) → All P xs → All Q xs
All-imp f [] h = tt
All-imp f (x ∷ xs) h = (f x h.0, All-imp f xs h.1)

pub At-append_left {ℓ} :
    {A : Type ℓ} {a : A} {xs : List A} (ys : List A) → At a xs → At a (xs ++ ys)
At-append_left ys first = first
At-append_left ys (later m) = later (At-append_left ys m)

pub At-append_right {ℓ} :
    {A : Type ℓ} {a : A} (xs : List A) {ys : List A} → At a ys → At a (xs ++ ys)
At-append_right [] m = m
At-append_right (x ∷ xs) m = later (At-append_right xs m)

-- The relation holds between each element and every later one.
abbrev pub Pairwise {ℓ κ} : {A : Type ℓ} → (A → A → Type κ) → List A → Type κ
Pairwise R [] = Unit
Pairwise R (x ∷ xs) = All (R x) xs × Pairwise R xs

pub Pairwise-append_one {ℓ κ} :
    {A : Type ℓ} (R : A → A → Type κ) (xs : List A) (c : A)
    → Pairwise R xs
    → All (λ x. R x c) xs
    → Pairwise R (xs ++ (c ∷ []))
Pairwise-append_one R [] c h k = (tt, tt)
Pairwise-append_one R (x ∷ xs) c h k =
    (All-append (R x) xs (c ∷ []) h.0 (k.0, tt), Pairwise-append_one R xs c h.1 k.1)

pub Pairwise-imp {ℓ κ} :
    {A : Type ℓ} {R S : A → A → Type κ}
    → ((x y : A) → R x y → S x y)
    → (xs : List A) → Pairwise R xs
    → Pairwise S xs
Pairwise-imp f [] h = tt
Pairwise-imp f (x ∷ xs) h = (All-imp (f x) xs h.0, Pairwise-imp f xs h.1)

pub All-both {ℓ κ} :
    {A : Type ℓ} (P Q : A → Type κ) (xs : List A) → All P xs → All Q xs → All (λ a. P a × Q a) xs
All-both P Q [] h k = tt
All-both P Q (x ∷ xs) h k = ((h.0, k.0), All-both P Q xs h.1 k.1)

pub All-of_At {ℓ κ} :
    {A : Type ℓ} (P : A → Type κ) (xs : List A) → ((a : A) → At a xs → P a) → All P xs
All-of_At P [] f = tt
All-of_At P (x ∷ xs) f = (f x first, All-of_At P xs (λ a m. f a (later m)))

module _ {ℓ} {A : Type ℓ} (p : A → Bool) where
  pub At-any : (xs : List A) → any p xs ≡ true → (a : A) × At a xs × (p a ≡ true)
  At-any [] h = absurd (cc)
  At-any (x ∷ xs) h = elim (Bool-cases (p x)) [
    | inl yes_x ↦ (x, first, yes_x)
    | inr no_x ↦ let (a, m, e) = At-any xs (rw no_x at h) in (a, later m, e)
  ]

  pub any-At : {a : A} (xs : List A) → At a xs → p a ≡ true → any p xs ≡ true
  any-At [] m e = elim m [ ]
  any-At (x ∷ xs) first e = rw e
  any-At (x ∷ xs) (later m) e = ground (arith, any-At xs m e)

  pub All-any-false : (xs : List A) → any p xs ≡ false → All (λ a. p a ≡ false) xs
  All-any-false [] h = tt
  All-any-false (x ∷ xs) h = elim (Bool-cases (p x)) [
    | inl yes_x ↦ absurd (ground arith)
    | inr no_x ↦ (no_x, All-any-false xs (rw no_x at h))
  ]
