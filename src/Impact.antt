-- ===== src/Impact.antt =====
-- include/runtimeskeptic/vm/impact.hpp and src/vm/impact.cpp: what a change of the profile does to
-- the verdicts of a contract. Names, paths and the reading of files are left out.
pub mod Change
pub mod Sets
use runtime_code_skeptic.Base.{
  ℕ, suc, ltb, Bool, true, false, not, List, [], ◌∷◌, ◌++◌, any, ◌==◌, if◌then◌else◌,
}
use runtime_code_skeptic.Evidence.{SupportLevel, support_rank}
use runtime_code_skeptic.Profile.{EnvironmentProfile}
use runtime_code_skeptic.Requirement.{Requirement}
use runtime_code_skeptic.Finding.{Finding}
use runtime_code_skeptic.Analyzer.Engine.{AnalysisOptions, AnalysisResult}
use runtime_code_skeptic.Analyzer.Run.{analyze}

pub data VerdictChange : Type 0 where
  regressed improved unchanged never_answered : VerdictChange

-- How much a human is needed.
abbrev pub attention : VerdictChange → ℕ
attention VerdictChange.regressed = 3
attention VerdictChange.improved = 2
attention VerdictChange.never_answered = 1
attention VerdictChange.unchanged = 0

unfoldable pub classify : SupportLevel → SupportLevel → VerdictChange
classify SupportLevel.unknown SupportLevel.unknown = VerdictChange.never_answered
classify before after =
    if support_rank before == support_rank after
    then VerdictChange.unchanged
    else if ltb (support_rank before) (support_rank after)
    then VerdictChange.regressed
    else VerdictChange.improved

-- A set of ids is its sorted list, as `std::set` is iterated.
unfoldable pub insert_id : ℕ → List ℕ → List ℕ
insert_id id [] = id ∷ []
insert_id id (x ∷ xs) =
    let rest = insert_id id xs in
    if ltb id x then id ∷ x ∷ xs else if id == x then x ∷ xs else x ∷ rest

unfoldable pub insert_ids : List ℕ → List Finding → List ℕ
unfolding insert_id
insert_ids ids [] = ids
insert_ids ids (f ∷ fs) = insert_ids (insert_id f.id ids) fs

unfoldable pub finding_ids : AnalysisResult → List ℕ
unfolding insert_ids
finding_ids r = insert_ids [] r.findings

-- `std::set_difference` of two sorted sets keeps what the second does not have.
unfoldable pub set_difference : List ℕ → List ℕ → List ℕ
set_difference [] ys = []
set_difference (x ∷ xs) ys =
    let rest = set_difference xs ys in if any (λ y. y == x) ys then rest else x ∷ rest

pub record RequirementImpact : Type 0 where
  pub index : ℕ
  pub before : SupportLevel
  pub after : SupportLevel
  pub change : VerdictChange
  pub ids_appeared : List ℕ
  pub ids_disappeared : List ℕ

pub record ContractImpact : Type 0 where
  pub requirements : List RequirementImpact
  pub change : VerdictChange

unfoldable pub louder : VerdictChange → VerdictChange → VerdictChange
louder out change = if ltb (attention out) (attention change) then change else out

module _ (options : AnalysisOptions) (before after : EnvironmentProfile) where
  -- The body of the loop: one requirement against both profiles.
  unfoldable pub requirement_impact : ℕ → Requirement → RequirementImpact
  unfolding classify finding_ids set_difference
  requirement_impact i requirement =
      let a = analyze (record { requirement = requirement; profile = before; options = options }) in
      let b = analyze (record { requirement = requirement; profile = after; options = options }) in
      record {
        index = i;
        before = a.overall;
        after = b.overall;
        change = classify a.overall b.overall;
        ids_appeared = set_difference (finding_ids b) (finding_ids a);
        ids_disappeared = set_difference (finding_ids a) (finding_ids b);
      }

  unfoldable pub compare_from : ℕ → List Requirement → ContractImpact → ContractImpact
  unfolding requirement_impact louder
  compare_from i [] out = out
  compare_from i (requirement ∷ rest) out =
      let r = requirement_impact i requirement in
      compare_from (suc i) rest (record {
        requirements = out.requirements ++ (r ∷ []);
        change = louder out.change r.change;
      })

  -- An empty contract cannot be unchanged, because nothing was compared.
  unfoldable pub compare_contract : List Requirement → ContractImpact
  unfolding compare_from
  compare_contract [] = record { requirements = []; change = VerdictChange.never_answered }
  compare_contract (requirement ∷ rest) =
      compare_from 0 (requirement ∷ rest)
        (record { requirements = []; change = VerdictChange.unchanged })
