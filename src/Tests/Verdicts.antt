-- ===== src/Tests/Verdicts.antt =====
-- Verdicts of the sample inputs.
use runtime_code_skeptic.Base.{◌≡◌, refl}
use runtime_code_skeptic.Fact
use runtime_code_skeptic.Evidence.{
  weakest, confidence_ceiling, clamp_confidence, combine, weakest_from, weakest_class, SupportLevel,
}
use runtime_code_skeptic.Range.{
  from_base_size, empty, contains, intersects, is_power_of_two, is_aligned, round_up_to,
}
use runtime_code_skeptic.Profile.{
  pointer_width_bits, process_pointer_width, find_range, is_below_minimum, is_above_user_space,
  query_available, query_unavailable, query_range,
}
use runtime_code_skeptic.Requirement.{write_and_execute, range, permits}
use runtime_code_skeptic.Finding.{finding_registry, find_in, find_definition}
use runtime_code_skeptic.Analyzer.Engine.{
  adjust_severity, start, settle, emit, perform, perform_all, established_impossibility,
  already_emitted,
}
use runtime_code_skeptic.Analyzer.Run.{
  apply_rules, initial_limitations, initial_result, finding_before, sort_findings, analyze,
}
use runtime_code_skeptic.Analyzer.Rules.Size.{
  rule_internal_fallback_contradiction, unknown_fact, rule_baseline_mapping_capability,
  reachable_grant, compare_with_grant, rule_reservation_grantable, compare_with_space,
  rule_size_feasibility,
}
use runtime_code_skeptic.Analyzer.Rules.Bounds.{
  lower_bound, upper_bound, bound_unsatisfiable, is_outside_own_bound, ends_below_lower_bound,
  starts_above_upper_bound, observed_inside, bound_tightness, rule_address_bounds,
  rule_displacement_constraint,
}
use runtime_code_skeptic.Analyzer.Rules.Alignment.{
  rule_reservation_alignment, satisfies_relation, rule_page_size, host_address_alignment,
  rule_address_alignment, rounding_finding, rule_size_granularity,
}
use runtime_code_skeptic.Analyzer.Rules.Placement.{
  hint_availability, wrapping_range, obstacle_id, unavailable_range, demanded_range,
  rule_range_availability, rule_exact_mapping_capability, rule_non_destructive_exact_mapping,
  relocating_hint, rule_hinted_relocation, rule_identity_without_translation,
}
use runtime_code_skeptic.Analyzer.Rules.Protection.{
  rejected_flip, flip_step, flip_available, refused_write_execute, wants_simultaneous,
  rule_write_execute, wants_execute, rule_executable_mapping, rule_jit_entitlement,
}
use runtime_code_skeptic.Analyzer.Rules.Memory.{
  rule_reserve_commit, highest_address, rejects_bad_addresses, truncation, rule_pointer_truncation,
  mapping_end, reads_final_partial_page, access_past_end, rule_file_mapping_beyond_eof,
  rule_retry_of_permanent_error,
}
use runtime_code_skeptic.Tests.Samples.{free, past_end}

pub free_is_supported : (analyze free).overall ≡ SupportLevel.supported
unfolding weakest confidence_ceiling clamp_confidence combine weakest_from weakest_class
    from_base_size empty contains intersects is_power_of_two is_aligned round_up_to Fact.is_known
    Fact.value_or Fact.evidence pointer_width_bits process_pointer_width find_range is_below_minimum
    is_above_user_space query_available query_unavailable query_range write_and_execute range
    permits finding_registry find_in find_definition adjust_severity start settle emit perform
    perform_all established_impossibility already_emitted apply_rules initial_limitations
    initial_result finding_before sort_findings analyze rule_internal_fallback_contradiction
    unknown_fact rule_baseline_mapping_capability reachable_grant compare_with_grant
    rule_reservation_grantable compare_with_space rule_size_feasibility lower_bound upper_bound
    bound_unsatisfiable is_outside_own_bound ends_below_lower_bound starts_above_upper_bound
    observed_inside bound_tightness rule_address_bounds rule_displacement_constraint
    rule_reservation_alignment satisfies_relation rule_page_size host_address_alignment
    rule_address_alignment rounding_finding rule_size_granularity hint_availability wrapping_range
    obstacle_id unavailable_range demanded_range rule_range_availability
    rule_exact_mapping_capability rule_non_destructive_exact_mapping relocating_hint
    rule_hinted_relocation rule_identity_without_translation rejected_flip flip_step flip_available
    refused_write_execute wants_simultaneous rule_write_execute wants_execute
    rule_executable_mapping rule_jit_entitlement rule_reserve_commit highest_address
    rejects_bad_addresses truncation rule_pointer_truncation mapping_end reads_final_partial_page
    access_past_end rule_file_mapping_beyond_eof rule_retry_of_permanent_error
free_is_supported = refl

pub past_end_is_supported : (analyze past_end).overall ≡ SupportLevel.supported
unfolding weakest confidence_ceiling clamp_confidence combine weakest_from weakest_class
    from_base_size empty contains intersects is_power_of_two is_aligned round_up_to Fact.is_known
    Fact.value_or Fact.evidence pointer_width_bits process_pointer_width find_range is_below_minimum
    is_above_user_space query_available query_unavailable query_range write_and_execute range
    permits finding_registry find_in find_definition adjust_severity start settle emit perform
    perform_all established_impossibility already_emitted apply_rules initial_limitations
    initial_result finding_before sort_findings analyze rule_internal_fallback_contradiction
    unknown_fact rule_baseline_mapping_capability reachable_grant compare_with_grant
    rule_reservation_grantable compare_with_space rule_size_feasibility lower_bound upper_bound
    bound_unsatisfiable is_outside_own_bound ends_below_lower_bound starts_above_upper_bound
    observed_inside bound_tightness rule_address_bounds rule_displacement_constraint
    rule_reservation_alignment satisfies_relation rule_page_size host_address_alignment
    rule_address_alignment rounding_finding rule_size_granularity hint_availability wrapping_range
    obstacle_id unavailable_range demanded_range rule_range_availability
    rule_exact_mapping_capability rule_non_destructive_exact_mapping relocating_hint
    rule_hinted_relocation rule_identity_without_translation rejected_flip flip_step flip_available
    refused_write_execute wants_simultaneous rule_write_execute wants_execute
    rule_executable_mapping rule_jit_entitlement rule_reserve_commit highest_address
    rejects_bad_addresses truncation rule_pointer_truncation mapping_end reads_final_partial_page
    access_past_end rule_file_mapping_beyond_eof rule_retry_of_permanent_error
past_end_is_supported = refl
