-- ===== src/Analyzer/WellFormed.antt =====
-- What every rule puts into its effects: each finding has a registered id, the application's claim
-- as the first step of its evidence, and a structural impossibility only if it is UNSUPPORTED; the
-- verdict is raised without a finding only to UNKNOWN, and only if unknowns are not reported.
use runtime_code_skeptic.Base.{
  ℕ, ◌≡◌, Bool, true, false, ◌&&◌, ◌||◌, not, List, [], ◌∷◌, some, none, arith, all, ◌==◌, All,
}
use runtime_code_skeptic.Evidence.{EvidenceClass, EvidenceChain, SupportLevel, class_rank}
use runtime_code_skeptic.Finding.{Finding, find_definition}
use runtime_code_skeptic.Analyzer.Engine.{Context, AnalysisResult, Effect, start, is_unsupported}
use runtime_code_skeptic.Analyzer.Run.{rules}
use runtime_code_skeptic.Analyzer.Rules.Size.{
  rule_internal_fallback_contradiction, rule_baseline_mapping_capability, rule_size_feasibility,
}
use runtime_code_skeptic.Analyzer.Rules.Bounds.{rule_address_bounds, rule_displacement_constraint}
use runtime_code_skeptic.Analyzer.Rules.Alignment.{
  rule_reservation_alignment, rule_page_size, rule_address_alignment, rule_size_granularity,
}
use runtime_code_skeptic.Analyzer.Rules.Placement.{
  rule_range_availability, rule_exact_mapping_capability, rule_non_destructive_exact_mapping,
  rule_hinted_relocation, rule_identity_without_translation,
}
use runtime_code_skeptic.Analyzer.Rules.Protection.{
  rule_write_execute, rule_executable_mapping, rule_jit_entitlement,
}
use runtime_code_skeptic.Analyzer.Rules.Memory.{
  rule_reserve_commit, rule_pointer_truncation, rule_file_mapping_beyond_eof,
  rule_retry_of_permanent_error,
}

abbrev pub is_registered : ℕ → Bool
is_registered id = elim (find_definition id) [ some d ↦ true | none ↦ false ]

abbrev pub starts_with_class : EvidenceClass → EvidenceChain → Bool
starts_with_class e [] = false
starts_with_class e (s ∷ rest) = class_rank s.evidence == class_rank e

abbrev pub is_well_formed : EvidenceClass → Finding → Bool
is_well_formed e f =
    is_registered f.id
    && starts_with_class e f.evidence
    && (not f.structural_impossibility || is_unsupported f.support_impact)

abbrev is_unknown : SupportLevel → Bool
is_unknown SupportLevel.unknown = true
is_unknown _ = false

abbrev pub is_well_formed_effect : Context → Effect → Bool
is_well_formed_effect c (Effect.emits f) = is_well_formed c.requirement.assumption_evidence f
is_well_formed_effect c (Effect.satisfies e) = true
is_well_formed_effect c (Effect.raises level) = is_unknown level && not c.options.report_unknowns
is_well_formed_effect c (Effect.limits l) = true

abbrev pub IsWellFormed : Context → List Effect → Type 0
IsWellFormed c es = all (is_well_formed_effect c) es ≡ true

module _ (c : Context) where
  internal_fallback_contradiction-IsWellFormed :
      IsWellFormed c (rule_internal_fallback_contradiction c)
  unfolding rule_internal_fallback_contradiction start find_definition
  internal_fallback_contradiction-IsWellFormed = ground arith

  baseline_mapping_capability-IsWellFormed : IsWellFormed c (rule_baseline_mapping_capability c)
  unfolding rule_baseline_mapping_capability start find_definition
  baseline_mapping_capability-IsWellFormed = ground arith

  size_feasibility-IsWellFormed : IsWellFormed c (rule_size_feasibility c)
  unfolding rule_size_feasibility start find_definition
  size_feasibility-IsWellFormed = ground arith

  address_bounds-IsWellFormed : IsWellFormed c (rule_address_bounds c)
  unfolding rule_address_bounds start find_definition
  address_bounds-IsWellFormed = ground arith

  displacement_constraint-IsWellFormed : IsWellFormed c (rule_displacement_constraint c)
  unfolding rule_displacement_constraint start find_definition
  displacement_constraint-IsWellFormed = ground arith

  reservation_alignment-IsWellFormed : IsWellFormed c (rule_reservation_alignment c)
  unfolding rule_reservation_alignment start find_definition
  reservation_alignment-IsWellFormed = ground arith

  page_size-IsWellFormed : IsWellFormed c (rule_page_size c)
  unfolding rule_page_size start find_definition
  page_size-IsWellFormed = ground arith

  address_alignment-IsWellFormed : IsWellFormed c (rule_address_alignment c)
  unfolding rule_address_alignment start find_definition
  address_alignment-IsWellFormed = ground arith

  size_granularity-IsWellFormed : IsWellFormed c (rule_size_granularity c)
  unfolding rule_size_granularity start find_definition
  size_granularity-IsWellFormed = ground arith

  range_availability-IsWellFormed : IsWellFormed c (rule_range_availability c)
  unfolding rule_range_availability start find_definition
  range_availability-IsWellFormed = ground arith

  exact_mapping_capability-IsWellFormed : IsWellFormed c (rule_exact_mapping_capability c)
  unfolding rule_exact_mapping_capability start find_definition
  exact_mapping_capability-IsWellFormed = ground arith

  non_destructive_exact_mapping-IsWellFormed : IsWellFormed c (rule_non_destructive_exact_mapping c)
  unfolding rule_non_destructive_exact_mapping start find_definition
  non_destructive_exact_mapping-IsWellFormed = ground arith

  hinted_relocation-IsWellFormed : IsWellFormed c (rule_hinted_relocation c)
  unfolding rule_hinted_relocation start find_definition
  hinted_relocation-IsWellFormed = ground arith

  identity_without_translation-IsWellFormed :
      (s : AnalysisResult) → IsWellFormed c (rule_identity_without_translation c s)
  unfolding rule_identity_without_translation start find_definition
  identity_without_translation-IsWellFormed s = ground arith

  write_execute-IsWellFormed : IsWellFormed c (rule_write_execute c)
  unfolding rule_write_execute start find_definition
  write_execute-IsWellFormed = ground arith

  executable_mapping-IsWellFormed : IsWellFormed c (rule_executable_mapping c)
  unfolding rule_executable_mapping start find_definition
  executable_mapping-IsWellFormed = ground arith

  jit_entitlement-IsWellFormed : IsWellFormed c (rule_jit_entitlement c)
  unfolding rule_jit_entitlement start find_definition
  jit_entitlement-IsWellFormed = ground arith

  reserve_commit-IsWellFormed : IsWellFormed c (rule_reserve_commit c)
  unfolding rule_reserve_commit start find_definition
  reserve_commit-IsWellFormed = ground arith

  pointer_truncation-IsWellFormed : IsWellFormed c (rule_pointer_truncation c)
  unfolding rule_pointer_truncation start find_definition
  pointer_truncation-IsWellFormed = ground arith

  file_mapping_beyond_eof-IsWellFormed : IsWellFormed c (rule_file_mapping_beyond_eof c)
  unfolding rule_file_mapping_beyond_eof start find_definition
  file_mapping_beyond_eof-IsWellFormed = ground arith

  retry_of_permanent_error-IsWellFormed :
      (s : AnalysisResult) → IsWellFormed c (rule_retry_of_permanent_error c s)
  unfolding rule_retry_of_permanent_error start find_definition
  retry_of_permanent_error-IsWellFormed s = ground arith

  -- Each rule's effects are well formed, in whatever state it runs.
  pub rules-IsWellFormed : All (λ rule. (s : AnalysisResult) → IsWellFormed c (rule c s)) rules
  rules-IsWellFormed = (
    (λ s. internal_fallback_contradiction-IsWellFormed),
    (
      (λ s. baseline_mapping_capability-IsWellFormed),
      (
        (λ s. size_feasibility-IsWellFormed),
        (
          (λ s. address_bounds-IsWellFormed),
          (
            (λ s. displacement_constraint-IsWellFormed),
            (
              (λ s. reservation_alignment-IsWellFormed),
              (
                (λ s. page_size-IsWellFormed),
                (
                  (λ s. address_alignment-IsWellFormed),
                  (
                    (λ s. size_granularity-IsWellFormed),
                    (
                      (λ s. range_availability-IsWellFormed),
                      (
                        (λ s. exact_mapping_capability-IsWellFormed),
                        (
                          (λ s. non_destructive_exact_mapping-IsWellFormed),
                          (
                            (λ s. hinted_relocation-IsWellFormed),
                            (
                              identity_without_translation-IsWellFormed,
                              (
                                (λ s. write_execute-IsWellFormed),
                                (
                                  (λ s. executable_mapping-IsWellFormed),
                                  (
                                    (λ s. jit_entitlement-IsWellFormed),
                                    (
                                      (λ s. reserve_commit-IsWellFormed),
                                      (
                                        (λ s. pointer_truncation-IsWellFormed),
                                        (
                                          (λ s. file_mapping_beyond_eof-IsWellFormed),
                                          (retry_of_permanent_error-IsWellFormed, tt),
                                        ),
                                      ),
                                    ),
                                  ),
                                ),
                              ),
                            ),
                          ),
                        ),
                      ),
                    ),
                  ),
                ),
              ),
            ),
          ),
        ),
      ),
    ),
  )
