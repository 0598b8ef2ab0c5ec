-- ===== src/Analyzer/Reporting.antt =====
-- The rules of src/vm/analyzer.cpp in a run that reports unknowns and in one that does not.
use runtime_code_skeptic.Base.{◌||◌, refl, true, none, some, if◌then◌else◌, arith, All}
use runtime_code_skeptic.Evidence.{SupportLevel, combine}
use runtime_code_skeptic.Fact.{is_known}
use runtime_code_skeptic.Requirement.{permits, range}
use runtime_code_skeptic.Finding.{find_definition}
use runtime_code_skeptic.Analyzer.Engine.{Context, AnalysisResult, start}
use runtime_code_skeptic.Analyzer.Rules.Size.{
  rule_internal_fallback_contradiction, rule_baseline_mapping_capability, rule_size_feasibility,
  unknown_fact, compare_with_space, reachable_grant, compare_with_grant, rule_reservation_grantable,
}
use runtime_code_skeptic.Analyzer.Rules.Bounds.{
  rule_address_bounds, rule_displacement_constraint, bound_unsatisfiable, lower_bound, upper_bound,
  is_outside_own_bound, ends_below_lower_bound, starts_above_upper_bound, observed_inside,
  bound_tightness,
}
use runtime_code_skeptic.Analyzer.Rules.Alignment.{
  rule_reservation_alignment, rule_page_size, rule_address_alignment, rule_size_granularity,
  host_address_alignment, rounding_finding,
}
use runtime_code_skeptic.Analyzer.Rules.Placement.{
  rule_range_availability, rule_exact_mapping_capability, rule_non_destructive_exact_mapping,
  rule_hinted_relocation, rule_identity_without_translation, hint_availability, wrapping_range,
  obstacle_id, unavailable_range, demanded_range, relocating_hint,
}
use runtime_code_skeptic.Analyzer.Rules.Protection.{
  rule_write_execute, rule_executable_mapping, rule_jit_entitlement, rejected_flip,
  refused_write_execute, wants_simultaneous, wants_execute,
}
use runtime_code_skeptic.Analyzer.Rules.Memory.{
  rule_reserve_commit, rule_pointer_truncation, rule_file_mapping_beyond_eof,
  rule_retry_of_permanent_error, highest_address, rejects_bad_addresses, truncation, mapping_end,
  reads_final_partial_page, access_past_end,
}
use runtime_code_skeptic.Analyzer.Run.{rules}
use runtime_code_skeptic.Analyzer.Summary.{Similar, SimilarFrom, AgreeFrom, Similar-SimilarFrom}

-- The same inputs with unknowns reported.
abbrev pub reporting : Context → Context
reporting c = record c { options = record { report_unknowns = true } }

-- What a run that does not report unknowns leaves out of its verdict: that the page size which the
-- program assumes is not known.
abbrev pub page_size_gap : Context → SupportLevel
page_size_gap c = elim c.requirement.request.required_page_size [
  | none ↦ SupportLevel.supported
  | some required ↦
      if is_known c.profile.vm.page_size || c.options.report_unknowns
      then SupportLevel.supported
      else SupportLevel.unknown
]

-- The rules that read the option.
module _ (c : Context) where
  unknown_fact-Similar : Similar (unknown_fact c) (unknown_fact (reporting c))
  unfolding unknown_fact start find_definition combine
  unknown_fact-Similar = ground arith

  baseline-Similar :
      Similar (rule_baseline_mapping_capability c) (rule_baseline_mapping_capability (reporting c))
  unfolding rule_baseline_mapping_capability
  baseline-Similar = ground (arith, unknown_fact-Similar)

  address_bounds-Similar : Similar (rule_address_bounds c) (rule_address_bounds (reporting c))
  unfolding rule_address_bounds bound_unsatisfiable lower_bound upper_bound is_outside_own_bound
      ends_below_lower_bound starts_above_upper_bound observed_inside bound_tightness
  address_bounds-Similar = ground (arith, unknown_fact-Similar)

  range_availability-Similar :
      Similar (rule_range_availability c) (rule_range_availability (reporting c))
  unfolding rule_range_availability hint_availability wrapping_range obstacle_id unavailable_range
      demanded_range
  range_availability-Similar = ground (arith, unknown_fact-Similar)

  file_mapping-Similar :
      Similar (rule_file_mapping_beyond_eof c) (rule_file_mapping_beyond_eof (reporting c))
  unfolding rule_file_mapping_beyond_eof mapping_end reads_final_partial_page access_past_end
  file_mapping-Similar = ground (arith, unknown_fact-Similar)

  page_size-SimilarFrom :
      SimilarFrom (page_size_gap c) (rule_page_size c) (rule_page_size (reporting c))
  unfolding rule_page_size combine is_known start find_definition
  page_size-SimilarFrom = ground arith

  module _ (u : SupportLevel) where
    identity-SimilarFrom :
        (r s : AnalysisResult)
        → AgreeFrom u r s
        → SimilarFrom u
            (rule_identity_without_translation c r)
            (rule_identity_without_translation (reporting c) s)
    unfolding rule_identity_without_translation start find_definition
    identity-SimilarFrom r s h = ground arith

    retry-SimilarFrom :
        (r s : AnalysisResult)
        → AgreeFrom u r s
        → SimilarFrom u
            (rule_retry_of_permanent_error c r)
            (rule_retry_of_permanent_error (reporting c) s)
    unfolding rule_retry_of_permanent_error start find_definition
    retry-SimilarFrom r s h = ground arith

  pub rules-SimilarFrom :
      All
        (λ rule.
          (r s : AnalysisResult)
          → AgreeFrom (page_size_gap c) r s
          → SimilarFrom (page_size_gap c) (rule c r) (rule (reporting c) s))
        rules
  unfolding rule_internal_fallback_contradiction rule_baseline_mapping_capability
      rule_size_feasibility rule_address_bounds rule_displacement_constraint
      rule_reservation_alignment rule_page_size rule_address_alignment rule_size_granularity
      rule_range_availability rule_exact_mapping_capability rule_non_destructive_exact_mapping
      rule_hinted_relocation rule_identity_without_translation rule_write_execute
      rule_executable_mapping rule_jit_entitlement rule_reserve_commit rule_pointer_truncation
      rule_file_mapping_beyond_eof rule_retry_of_permanent_error permits compare_with_space
      reachable_grant compare_with_grant rule_reservation_grantable unknown_fact bound_unsatisfiable
      lower_bound upper_bound is_outside_own_bound ends_below_lower_bound starts_above_upper_bound
      observed_inside bound_tightness host_address_alignment rounding_finding hint_availability
      wrapping_range obstacle_id unavailable_range demanded_range relocating_hint rejected_flip
      refused_write_execute wants_simultaneous wants_execute highest_address rejects_bad_addresses
      truncation mapping_end reads_final_partial_page access_past_end range
  rules-SimilarFrom = (
    (λ r s h. (refl, refl, refl)),
    (
      (λ r s h. Similar-SimilarFrom (page_size_gap c) _ _ baseline-Similar),
      (
        (λ r s h. (refl, refl, refl)),
        (
          (λ r s h. Similar-SimilarFrom (page_size_gap c) _ _ address_bounds-Similar),
          (
            (λ r s h. (refl, refl, refl)),
            (
              (λ r s h. (refl, refl, refl)),
              (
                (λ r s h. page_size-SimilarFrom),
                (
                  (λ r s h. (refl, refl, refl)),
                  (
                    (λ r s h. (refl, refl, refl)),
                    (
                      (λ r s h.
                          Similar-SimilarFrom (page_size_gap c) _ _ range_availability-Similar),
                      (
                        (λ r s h. (refl, refl, refl)),
                        (
                          (λ r s h. (refl, refl, refl)),
                          (
                            (λ r s h. (refl, refl, refl)),
                            (
                              (identity-SimilarFrom (page_size_gap c)),
                              (
                                (λ r s h. (refl, refl, refl)),
                                (
                                  (λ r s h. (refl, refl, refl)),
                                  (
                                    (λ r s h. (refl, refl, refl)),
                                    (
                                      (λ r s h. (refl, refl, refl)),
                                      (
                                        (λ r s h. (refl, refl, refl)),
                                        (
                                          (λ r s h.
                                              Similar-SimilarFrom (page_size_gap c) _ _
                                                file_mapping-Similar),
                                          ((retry-SimilarFrom (page_size_gap c)), tt),
                                        ),
                                      ),
                                    ),
                                  ),
                                ),
                              ),
                            ),
                          ),
                        ),
                      ),
                    ),
                  ),
                ),
              ),
            ),
          ),
        ),
      ),
    ),
  )
