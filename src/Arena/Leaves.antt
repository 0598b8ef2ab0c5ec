-- ===== src/Arena/Leaves.antt =====
-- The addresses of the lists of an adaptive walk, as ranges are appended to them.
use text.Mathlib.Text.{◌==◌ as str_eq}
use Prim.Native.String.{String}
use runtime_code_skeptic.Base.{
  ℕ, ◌≤◌, ◌<◌, ◌≡◌, ◌↔◌, ◌⊎◌, inl, inr, ◌&&◌, ◌==◌, List, [], ◌∷◌, arith, Bool-cases, All, if-intro,
}
use runtime_code_skeptic.Range.Sets.{InRange}
use runtime_code_skeptic.Arena.{NotedRange, push_range, append}

-- Whether an address lies in some range of the list.
abbrev pub InSome : ℕ → List NotedRange → Type 0
InSome a [] = a < 0
InSome a (r ∷ rs) = InRange a r.range ⊎ InSome a rs

abbrev pub IsProper : List NotedRange → Type 0
IsProper = All (λ r. r.range.start < r.range.stop)

push_range-InSome :
    (a : ℕ) (ranges : List NotedRange) (start stop : ℕ) (note : String)
    → IsProper ranges
    → start < stop
    → InSome a (push_range ranges start stop note) ↔ (InSome a ranges ⊎ ((start ≤ a) × (a < stop)))
unfolding push_range
push_range-InSome a [] start stop note proper lt = (λ h. ground arith, λ h. ground arith)
push_range-InSome a (r ∷ []) start stop note proper lt =
    elim (Bool-cases (r.range.stop == start && str_eq r.note note)) [
      | inl grows ↦ rw grows (λ h. ground arith, λ h. ground arith)
      | inr new ↦ rw new (λ h. ground arith, λ h. ground arith)
    ]
push_range-InSome a (r ∷ s ∷ rest) start stop note proper lt =
    let ih = push_range-InSome a (s ∷ rest) start stop note proper.1 lt in
    (
      elim [ inl i ↦ inl (inl i) | inr i ↦ elim (ih.0 i) [ inl j ↦ inl (inr j) | inr j ↦ inr j ] ],
      elim [ inl (inl i) ↦ inl i | inl (inr i) ↦ inr (ih.1 (inl i)) | inr j ↦ inr (ih.1 (inr j)) ],
    )

push_range-IsProper :
    (ranges : List NotedRange) (start stop : ℕ) (note : String)
    → IsProper ranges
    → start < stop
    → IsProper (push_range ranges start stop note)
unfolding push_range
push_range-IsProper [] start stop note proper lt = (lt, tt)
push_range-IsProper (r ∷ []) start stop note proper lt =
    if-intro IsProper (r.range.stop == start && str_eq r.note note) (λ grows. ((ground arith), tt))
      (λ new. (proper.0, (lt, tt)))
push_range-IsProper (r ∷ s ∷ rest) start stop note proper lt =
    (proper.0, push_range-IsProper (s ∷ rest) start stop note proper.1 lt)

module _ (ranges : List NotedRange) (start stop : ℕ) (note : String) (proper : IsProper ranges)
    (lt : start < stop) where
  pushes : append ranges start stop note ≡ push_range ranges start stop note
  unfolding append
  pushes = ground arith

  -- Appending a range adds its addresses and no other.
  pub append-InSome :
      (a : ℕ)
      → InSome a (append ranges start stop note) ↔ (InSome a ranges ⊎ ((start ≤ a) × (a < stop)))
  append-InSome a = rw pushes (push_range-InSome a ranges start stop note proper lt)

  pub append-IsProper : IsProper (append ranges start stop note)
  append-IsProper = rw pushes (push_range-IsProper ranges start stop note proper lt)
