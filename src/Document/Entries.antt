-- ===== src/Document/Entries.antt =====
-- What `load_requirements` of src/vm/requirement.cpp promises about the requirements that it lets through.
use runtime_code_skeptic.Base.{
  ℕ, suc, ◌+◌, Bool, not, length, All, ◌≡◌, refl, Option, none, some, if-intro, Bytes, codes,
  same_bytes, arith,
}
use runtime_code_skeptic.Json.{Value, Items, no_items, item, Members, find_member}
use runtime_code_skeptic.Json.Parser.{parse, ParseResult}
use runtime_code_skeptic.Json.Shape.{IsValue, AllItems, AllMembers}
use runtime_code_skeptic.Json.Canonical.{parsed-IsValue}
use runtime_code_skeptic.Document.{Failure, Outcome, refuse_if, required_string}
use runtime_code_skeptic.Document.Bundles.{
  requirement_schema, bundle_schema, RequirementBundle, read_entries, bundle_entries, load_single,
  load_bundle, load_requirements,
}
use runtime_code_skeptic.Document.Sound.{
  Gives, gives, refuses, Any-Gives, bind-Gives, Gives-at, IsNode, find_member-IsNode,
}
use runtime_code_skeptic.Document.Analyzable.{IsAnalyzable, requirement_from_json-Gives}

abbrev pub count : Items → ℕ
count no_items = 0
count (item v xs) = suc (count xs)

-- The case distinction on what a reader gives.
outcome-intro :
    {A B : Type 0} {Q : A → Type 0} (P : B → Type 0) {o : Outcome A} (f : A → B) (g : Failure → B)
    → Gives Q o
    → ((a : A) → Q a → P (f a))
    → ((e : Failure) → P (g e))
    → P (elim o [ Outcome.ok a ↦ f a | Outcome.refused e ↦ g e ])
outcome-intro P f g (gives {a = a} q) h k = h a q
outcome-intro P f g (refuses {e = e}) h k = k e

-- Every entry is a requirement that can be analyzed, or is among the refused ones.
abbrev pub IsComplete : Items → RequirementBundle → Type 0
IsComplete xs b =
    All IsAnalyzable b.requirements × (length b.requirements + length b.rejected ≡ count xs)

read_entries-IsComplete :
    (validate : Value → Bool) (d i : ℕ) (xs : Items)
    → AllItems d xs
    → IsComplete xs (read_entries validate i xs)
unfolding read_entries
read_entries-IsComplete validate d i no_items h = (tt, refl)
read_entries-IsComplete validate d i (item v xs) h =
    let ih = read_entries-IsComplete validate d (i + 1) xs h.1 in
    outcome-intro (IsComplete (item v xs)) _ _ (requirement_from_json-Gives validate d v h.0)
      (λ r k. ((k, ih.0), omega arith)) (λ e. (ih.0, omega arith))

bundle_entries-Gives :
    (d : ℕ) (o : Option Value) → IsNode d o → Gives (AllItems (d + 1)) (bundle_entries o)
unfolding bundle_entries
bundle_entries-Gives d none h = refuses
bundle_entries-Gives d (some (Value.array xs)) h = gives h.1
bundle_entries-Gives d (some Value.null) h = refuses
bundle_entries-Gives d (some (Value.bool b)) h = refuses
bundle_entries-Gives d (some (Value.int z)) h = refuses
bundle_entries-Gives d (some (Value.uint n)) h = refuses
bundle_entries-Gives d (some (Value.double t)) h = refuses
bundle_entries-Gives d (some (Value.str t)) h = refuses
bundle_entries-Gives d (some (Value.object t)) h = refuses

load_bundle-Gives :
    (validate : Value → Bool) (d : ℕ) (schema : Bytes) (ms : Members)
    → AllMembers d ms
    → Gives (λ b. All IsAnalyzable b.requirements) (load_bundle validate schema ms)
unfolding load_bundle
load_bundle-Gives validate d schema ms h =
    let node = find_member-IsNode d (codes "requirements") ms h in
    bind-Gives _
      (Any-Gives (refuse_if (not (same_bytes schema bundle_schema)) Failure.unsupported_schema))
      (λ u a.
        bind-Gives _ (bundle_entries-Gives d (find_member (codes "requirements") ms) node)
          (λ xs all. gives (read_entries-IsComplete validate (d + 1) 0 xs all).0))

load_single-Gives :
    (validate : Value → Bool) (d : ℕ) (v : Value)
    → IsValue d v
    → Gives (λ b. All IsAnalyzable b.requirements) (load_single validate v)
unfolding load_single
load_single-Gives validate d v h =
    bind-Gives _ (requirement_from_json-Gives validate d v h) (λ r k. gives (k, tt))

load_requirements-Gives :
    (validate : Value → Bool) (d : ℕ) (v : Value)
    → IsValue d v
    → Gives (λ b. All IsAnalyzable b.requirements) (load_requirements validate v)
unfolding load_requirements
load_requirements-Gives validate d Value.null h = refuses
load_requirements-Gives validate d (Value.bool b) h = refuses
load_requirements-Gives validate d (Value.int z) h = refuses
load_requirements-Gives validate d (Value.uint n) h = refuses
load_requirements-Gives validate d (Value.double t) h = refuses
load_requirements-Gives validate d (Value.str t) h = refuses
load_requirements-Gives validate d (Value.array t) h = refuses
load_requirements-Gives validate d (Value.object ms) h =
    bind-Gives _ (Any-Gives (required_string (find_member (codes "schema") ms))) (λ schema a.
      if-intro (Gives (λ b. All IsAnalyzable b.requirements)) (same_bytes schema requirement_schema)
        (λ e. load_single-Gives validate d (Value.object ms) h)
        (λ e. load_bundle-Gives validate (d + 1) schema ms h.1.1))

-- Every requirement that is loaded from a text, alone or in a bundle, can be analyzed: its operation is known,
-- its size is not zero, it gives an address where it demands an exact one, and every number of it (size,
-- addresses, alignment, page size, displacement, file length and offset, pointer width, retries) is
-- missing or fits in 64 bits. This holds whatever the validator of the schema lets through.
pub load_requirements-IsAnalyzable :
    (validate : Value → Bool) (text : Bytes) (v : Value) (b : RequirementBundle)
    → parse text ≡ ParseResult.value v
    → load_requirements validate v ≡ Outcome.ok b
    → All IsAnalyzable b.requirements
load_requirements-IsAnalyzable validate text v b h e =
    Gives-at b (load_requirements-Gives validate 0 v (parsed-IsValue text v h)) e
