-- ===== src/Finding.antt =====
-- include/runtimeskeptic/vm/finding.hpp and the registry of src/vm/finding.cpp. A finding id
-- `RS-VM-00nn` is the number `nn`; titles, summaries and the other prose are left out.
pub mod Ids
use runtime_code_skeptic.Base.{ℕ, Bool, List, [], ◌∷◌, Option, none, some, ◌==◌, if◌then◌else◌}
use runtime_code_skeptic.Evidence.{EvidenceChain, Severity, Confidence, SupportLevel}

pub data RemediationClass : Type 0 where
  add_address_translation_layer relax_exact_address_requirement choose_different_base_address
        reserve_address_space_earlier match_host_page_size use_separate_write_and_execute_mappings
        request_platform_entitlement handle_relocation_in_caller treat_error_as_permanent
        widen_pointer_storage select_different_host_configuration
        no_known_remediation_on_this_host :
      RemediationClass

pub record Finding : Type 0 where
  pub id : ℕ
  pub severity : Severity
  pub confidence : Confidence
  pub support_impact : SupportLevel
  pub structural_impossibility : Bool
  pub evidence : EvidenceChain
  pub remediations : List RemediationClass

pub record FindingDefinition : Type 0 where
  pub id : ℕ
  pub default_severity : Severity

abbrev entry : ℕ → Severity → FindingDefinition
entry id severity = record { id = id; default_severity = severity }

unfoldable pub finding_registry : List FindingDefinition
finding_registry =
    entry Ids.exact_address_unavailable Severity.critical
    ∷ entry Ids.address_below_minimum Severity.critical
    ∷ entry Ids.address_above_user_space Severity.critical
    ∷ entry Ids.address_alignment_mismatch Severity.high
    ∷ entry Ids.size_granularity_mismatch Severity.medium
    ∷ entry Ids.page_size_mismatch Severity.critical
    ∷ entry Ids.hinted_mapping_may_relocate Severity.high
    ∷ entry Ids.identity_without_translation Severity.high
    ∷ entry Ids.write_execute_restricted Severity.critical
    ∷ entry Ids.executable_mapping_unsupported Severity.critical
    ∷ entry Ids.jit_entitlement_required Severity.high
    ∷ entry Ids.reserve_commit_semantic_mismatch Severity.medium
    ∷ entry Ids.pointer_truncation Severity.critical
    ∷ entry Ids.invalid_fallback_contract Severity.high
    ∷ entry Ids.permanent_error_retried Severity.high
    ∷ entry Ids.exact_mapping_non_destructive_unavailable Severity.high
    ∷ entry Ids.required_fact_unknown Severity.info
    ∷ entry Ids.file_mapping_beyond_eof Severity.high
    ∷ entry Ids.address_bound_unsatisfiable Severity.critical
    ∷ entry Ids.displacement_constraint_not_evaluable Severity.info
    ∷ entry Ids.address_bound_is_tight Severity.low
    ∷ entry Ids.anonymous_mapping_unavailable Severity.critical
    ∷ entry Ids.size_exceeds_address_space Severity.critical
    ∷ entry Ids.reservation_alignment_unguaranteed Severity.high
    ∷ entry Ids.size_exceeds_granted_reservation Severity.critical
    ∷ entry Ids.reservation_grantability_unknown Severity.medium
    ∷ entry Ids.address_hint_not_honourable Severity.low
    ∷ []

unfoldable pub find_in : List FindingDefinition → ℕ → Option FindingDefinition
find_in [] id = none
find_in (def ∷ rest) id = if id == def.id then some def else find_in rest id

unfoldable pub find_definition : ℕ → Option FindingDefinition
unfolding find_in finding_registry
find_definition id = find_in finding_registry id
