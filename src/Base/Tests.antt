-- ===== src/Base/Tests.antt =====
-- Boolean tests on the native numbers, and the conditional.
use Prim.Native.Nat.{ℕ, ◌≤◌, ◌<◌, compare, Ordering}
use mathlib.Core.Path.{◌≡◌, refl}
use mathlib.Core.Logic.{◌↔◌, ◌⊎◌, inl, inr}
use mathlib.Core.Bool.{Bool, true, false}
use mathlib.Core.Option.{Option, none, some}
use native.Mathlib.Omega.{arith}

abbrev pub ltb : ℕ → ℕ → Bool
ltb a b = elim (compare a b) [ Ordering.lt ↦ true | _ ↦ false ]

abbrev pub leb : ℕ → ℕ → Bool
leb a b = elim (compare a b) [ Ordering.gt ↦ false | _ ↦ true ]

infix 50 ◌==◌
abbrev pub ◌==◌ : ℕ → ℕ → Bool
a == b = elim (compare a b) [ Ordering.eq ↦ true | _ ↦ false ]

infix 1 if◌then◌else◌
abbrev pub if◌then◌else◌ {ℓ} : {A : Type ℓ} → Bool → A → A → A
if true then x else y = x
if false then x else y = y

pub ltb→lt : (a b : ℕ) → ltb a b ≡ true → a < b
ltb→lt a b h = ground arith

pub leb→le : (a b : ℕ) → leb a b ≡ true → a ≤ b
leb→le a b h = ground arith

pub le→leb : (a b : ℕ) → a ≤ b → leb a b ≡ true
le→leb a b h = ground arith

pub ==_iff : (a b : ℕ) → ((a == b) ≡ true) ↔ (a ≡ b)
==_iff a b = ground arith

-- To split on a computed value and keep the equation.
pub Bool-cases : (b : Bool) → (b ≡ true) ⊎ (b ≡ false)
Bool-cases true = inl refl
Bool-cases false = inr refl

pub Option-cases {ℓ} : {A : Type ℓ} (o : Option A) → (o ≡ none) ⊎ ((a : A) × (o ≡ some a))
Option-cases none = inl refl
Option-cases (some a) = inr (a, refl)

-- What holds of both branches, each under its test, holds of the conditional.
pub if-intro {ℓ κ} :
    {A : Type ℓ} (P : A → Type κ) (b : Bool) {x y : A}
    → (b ≡ true → P x)
    → (b ≡ false → P y)
    → P (if b then x else y)
if-intro P true h k = h refl
if-intro P false h k = k refl

-- What a function that may fail returns: a value with the property, or nothing for the reason.
abbrev pub Returns {ℓ κ} : {A : Type ℓ} → (A → Type κ) → Type κ → Option A → Type κ
Returns P Q (some a) = P a
Returns P Q none = Q

pub Returns-intro {ℓ κ} :
    {A : Type ℓ} {P : A → Type κ} {Q : Type κ} (o : Option A)
    → ((a : A) → o ≡ some a → P a)
    → (o ≡ none → Q)
    → Returns P Q o
Returns-intro (some a) h k = h a refl
Returns-intro none h k = k refl

pub Returns-imp {ℓ κ} :
    {A : Type ℓ} (P P' : A → Type κ) (Q : Type κ) (o : Option A)
    → ((a : A) → P a → P' a)
    → Returns P Q o
    → Returns P' Q o
Returns-imp P P' Q (some a) f h = f a h
Returns-imp P P' Q none f h = h

-- The same for the case distinction on an option.
pub option-intro {ℓ κ} :
    {A B : Type ℓ} (P : B → Type κ) (o : Option A) (f : A → B) (z : B)
    → ((a : A) → o ≡ some a → P (f a))
    → (o ≡ none → P z)
    → P (elim o [ some a ↦ f a | none ↦ z ])
option-intro P (some a) f z h k = h a refl
option-intro P none f z h k = k refl
