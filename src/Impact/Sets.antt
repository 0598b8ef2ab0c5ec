-- ===== src/Impact/Sets.antt =====
-- The ids that appear and disappear between two analyses.
use runtime_code_skeptic.Base.{
  ℕ, ◌≡◌, refl, Bool, not, ◌&&◌, ◌||◌, List, [], ◌∷◌, arith, inl, inr, any, ◌==◌, Bool-cases,
}
use runtime_code_skeptic.Profile.{EnvironmentProfile}
use runtime_code_skeptic.Requirement.{Requirement}
use runtime_code_skeptic.Finding.{Finding}
use runtime_code_skeptic.Analyzer.Engine.{AnalysisOptions, AnalysisResult, already_emitted}
use runtime_code_skeptic.Analyzer.Run.{analyze}
use runtime_code_skeptic.Impact.{
  insert_id, insert_ids, finding_ids, set_difference, requirement_impact,
}

-- Whether a set has an id.
abbrev pub has_id : ℕ → List ℕ → Bool
has_id id = any (λ y. y == id)

has_id-insert_id :
    (id x : ℕ) (ids : List ℕ) → has_id id (insert_id x ids) ≡ (x == id) || has_id id ids
unfolding insert_id
has_id-insert_id id x [] = ground arith
has_id-insert_id id x (y ∷ ids) = ground (arith, has_id-insert_id id x ids)

has_id-insert_ids :
    (id : ℕ) (fs : List Finding) (ids : List ℕ)
    → has_id id (insert_ids ids fs) ≡ has_id id ids || any (λ f. f.id == id) fs
unfolding insert_ids
has_id-insert_ids id [] ids = ground arith
has_id-insert_ids id (f ∷ fs) ids =
    ground (arith, has_id-insert_ids id fs (insert_id f.id ids), has_id-insert_id id f.id ids)

has_id-finding_ids :
    (id : ℕ) (r : AnalysisResult) → has_id id (finding_ids r) ≡ already_emitted id r
unfolding finding_ids already_emitted
has_id-finding_ids id r = has_id-insert_ids id r.findings []

has_id-set_difference :
    (id : ℕ) (xs ys : List ℕ)
    → has_id id (set_difference xs ys) ≡ has_id id xs && not (has_id id ys)
unfolding set_difference
has_id-set_difference id [] ys = ground arith
has_id-set_difference id (x ∷ xs) ys = elim (Bool-cases (x == id)) [
  | inl same ↦
      let e : x ≡ id = ground arith in
      let test : any (λ y. y == x) ys ≡ has_id id ys = rw e refl in
      ground (arith, test, has_id-set_difference id xs ys)
  | inr other ↦ ground (arith, has_id-set_difference id xs ys)
]

-- The ids that appear are those of the findings on the second host that the first does not have,
-- and the ids that disappear are those of the first that the second does not have.
pub appeared_and_disappeared :
    (options : AnalysisOptions) (before after : EnvironmentProfile) (i id : ℕ) (r : Requirement)
    → let a = analyze (record { requirement = r; profile = before; options = options }) in
      let b = analyze (record { requirement = r; profile = after; options = options }) in
      let impact = requirement_impact options before after i r in
      (has_id id impact.ids_appeared ≡ already_emitted id b && not (already_emitted id a))
      × (has_id id impact.ids_disappeared ≡ already_emitted id a && not (already_emitted id b))
unfolding requirement_impact
appeared_and_disappeared options before after i id r =
    let a = analyze (record { requirement = r; profile = before; options = options }) in
    let b = analyze (record { requirement = r; profile = after; options = options }) in
    (
      cc (
        has_id-set_difference id (finding_ids b) (finding_ids a),
        has_id-finding_ids id a,
        has_id-finding_ids id b,
      ),
      cc (
        has_id-set_difference id (finding_ids a) (finding_ids b),
        has_id-finding_ids id a,
        has_id-finding_ids id b,
      ),
    )
