-- ===== src/Document/Kept.antt =====
-- The loop of `load_requirements` of src/vm/requirement.cpp over the entries of a bundle: what each entry contributes.
use mathlib.Core.List.{append_assoc}
use runtime_code_skeptic.Base.{ℕ, ◌+◌, Bool, ◌≡◌, refl, List, [], ◌∷◌, ◌++◌, suc, sym, arith}
use runtime_code_skeptic.Requirement.{Requirement}
use runtime_code_skeptic.Json.{Value, Items, no_items, item}
use runtime_code_skeptic.Document.{Failure, Outcome}
use runtime_code_skeptic.Document.Bundles.{
  accept, reject, requirement_from_json, RequirementBundle, read_entries,
}
use runtime_code_skeptic.Document.Entries.{count}

abbrev pub append_items : Items → Items → Items
append_items no_items ys = ys
append_items (item x xs) ys = item x (append_items xs ys)

-- The requirement that an entry contributes, if it is read.
abbrev pub accepted : Outcome Requirement → List Requirement
accepted (Outcome.ok r) = r ∷ []
accepted (Outcome.refused e) = []

-- What is recorded of an entry that is refused: its place in the bundle, and why.
abbrev pub refusal : ℕ → Outcome Requirement → List (ℕ × Failure)
refusal index (Outcome.ok r) = []
refusal index (Outcome.refused e) = (index, e) ∷ []

-- What an entry contributes stands between what the entries before and after it contribute.
abbrev pub IsBetween :
    RequirementBundle → ℕ → Outcome Requirement → RequirementBundle → RequirementBundle → Type 0
IsBetween before place entry after whole =
    (whole.requirements ≡ before.requirements ++ (accepted entry ++ after.requirements))
    × (whole.rejected ≡ before.rejected ++ (refusal place entry ++ after.rejected))

abbrev nothing : RequirementBundle
nothing = record { requirements = []; rejected = [] }

-- The body of the loop.
recorded_first :
    (index : ℕ) (o : Outcome Requirement) (rest : RequirementBundle)
    → IsBetween nothing index o rest
        (elim o [ Outcome.ok r ↦ accept r rest | Outcome.refused e ↦ reject index e rest ])
recorded_first index (Outcome.ok r) rest = (refl, refl)
recorded_first index (Outcome.refused e) rest = (refl, refl)

module _ (validate : Value → Bool) where
  abbrev read_entry : Value → Outcome Requirement
  read_entry v = requirement_from_json validate v

  read_entries-item :
      (index : ℕ) (v : Value) (xs : Items)
      → IsBetween nothing index
          (read_entry v)
          (read_entries validate (index + 1) xs)
          (read_entries validate index (item v xs))
  unfolding read_entries
  read_entries-item index v xs =
      recorded_first index (read_entry v) (read_entries validate (index + 1) xs)

  read_entries-append :
      (index : ℕ) (xs ys : Items)
      → ((read_entries validate index (append_items xs ys)).requirements
          ≡ (read_entries validate index xs).requirements
            ++ (read_entries validate (index + count xs) ys).requirements)
        × ((read_entries validate index (append_items xs ys)).rejected
            ≡ (read_entries validate index xs).rejected
              ++ (read_entries validate (index + count xs) ys).rejected)
  unfolding read_entries
  read_entries-append index no_items ys =
      let same : index + 0 ≡ index = omega arith in rw same (refl, refl)
  read_entries-append index (item v xs) ys =
      let ih = read_entries-append (index + 1) xs ys in
      let on = read_entries-item index v (append_items xs ys) in
      let at = read_entries-item index v xs in
      let same : index + suc (count xs) ≡ index + 1 + count xs = omega arith in
      rw (same, on.0, on.1, at.0, at.1, ih.0, ih.1)
        (
          sym (append_assoc (accepted (read_entry v)) _ _),
          sym (append_assoc (refusal index (read_entry v)) _ _),
        )

  -- The requirements do not depend on where the entries stand.
  requirements_anywhere :
      (i j : ℕ) (xs : Items)
      → (read_entries validate i xs).requirements ≡ (read_entries validate j xs).requirements
  unfolding read_entries
  requirements_anywhere i j no_items = refl
  requirements_anywhere i j (item v xs) = rw (
    (read_entries-item i v xs).0,
    (read_entries-item j v xs).0,
    requirements_anywhere (i + 1) (j + 1) xs,
  )

  -- An entry contributes what it reads as, its requirement or its place with the failure, between what
  -- the entries before and after it contribute, so that a refused entry costs no other entry: the
  -- requirements of the bundle without the entry are the same but for the one that it reads as.
  pub entries_are_kept :
      (index : ℕ) (xs ys : Items) (v : Value)
      → IsBetween
          (read_entries validate index xs)
          (index + count xs)
          (read_entry v)
          (read_entries validate (index + count xs + 1) ys)
          (read_entries validate index (append_items xs (item v ys)))
        × ((read_entries validate index (append_items xs ys)).requirements
            ≡ (read_entries validate index xs).requirements
              ++ (read_entries validate (index + count xs + 1) ys).requirements)
  entries_are_kept index xs ys v =
      let split = read_entries-append index xs (item v ys) in
      let on = read_entries-item (index + count xs) v ys in
      (
        (rw on.0 at split.0, rw on.1 at split.1),
        rw (requirements_anywhere (index + count xs + 1) (index + count xs) ys)
            (read_entries-append index xs ys).0,
      )
