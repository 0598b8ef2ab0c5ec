-- ===== src/Finding/Ids.antt =====
-- The finding ids of include/runtimeskeptic/vm/finding.hpp, `RS-VM-0001` to `RS-VM-0027`.
use runtime_code_skeptic.Base.{ℕ}

abbrev pub exact_address_unavailable : ℕ
exact_address_unavailable = 1

abbrev pub address_below_minimum : ℕ
address_below_minimum = 2

abbrev pub address_above_user_space : ℕ
address_above_user_space = 3

abbrev pub address_alignment_mismatch : ℕ
address_alignment_mismatch = 4

abbrev pub size_granularity_mismatch : ℕ
size_granularity_mismatch = 5

abbrev pub page_size_mismatch : ℕ
page_size_mismatch = 6

abbrev pub hinted_mapping_may_relocate : ℕ
hinted_mapping_may_relocate = 7

abbrev pub identity_without_translation : ℕ
identity_without_translation = 8

abbrev pub write_execute_restricted : ℕ
write_execute_restricted = 9

abbrev pub executable_mapping_unsupported : ℕ
executable_mapping_unsupported = 10

abbrev pub jit_entitlement_required : ℕ
jit_entitlement_required = 11

abbrev pub reserve_commit_semantic_mismatch : ℕ
reserve_commit_semantic_mismatch = 12

abbrev pub pointer_truncation : ℕ
pointer_truncation = 13

abbrev pub invalid_fallback_contract : ℕ
invalid_fallback_contract = 14

abbrev pub permanent_error_retried : ℕ
permanent_error_retried = 15

abbrev pub exact_mapping_non_destructive_unavailable : ℕ
exact_mapping_non_destructive_unavailable = 16

abbrev pub required_fact_unknown : ℕ
required_fact_unknown = 17

abbrev pub file_mapping_beyond_eof : ℕ
file_mapping_beyond_eof = 18

abbrev pub anonymous_mapping_unavailable : ℕ
anonymous_mapping_unavailable = 19

abbrev pub address_hint_not_honourable : ℕ
address_hint_not_honourable = 20

abbrev pub size_exceeds_address_space : ℕ
size_exceeds_address_space = 21

abbrev pub reservation_alignment_unguaranteed : ℕ
reservation_alignment_unguaranteed = 22

abbrev pub address_bound_unsatisfiable : ℕ
address_bound_unsatisfiable = 23

abbrev pub displacement_constraint_not_evaluable : ℕ
displacement_constraint_not_evaluable = 24

abbrev pub address_bound_is_tight : ℕ
address_bound_is_tight = 25

abbrev pub size_exceeds_granted_reservation : ℕ
size_exceeds_granted_reservation = 26

abbrev pub reservation_grantability_unknown : ℕ
reservation_grantability_unknown = 27
