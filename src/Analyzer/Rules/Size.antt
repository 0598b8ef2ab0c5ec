-- ===== src/Analyzer/Rules/Size.antt =====
-- The rules about whether the host can map at all, and how much: RS-VM-0014, 0017, 0019, 0021,
-- 0026 and 0027.
use runtime_code_skeptic.Base.{
  ℕ, ◌-◌, ◌*◌, ◌/◌, ◌^◌, ltb, leb, true, false, not, ◌&&◌, ◌||◌, List, [], ◌∷◌, some, none, ◌==◌,
  if◌then◌else◌,
}
use runtime_code_skeptic.Evidence.{EvidenceClass, Confidence, SupportLevel, Layer}
use runtime_code_skeptic.Fact
use runtime_code_skeptic.Fact.{Fact}
use runtime_code_skeptic.Finding.{RemediationClass}
use runtime_code_skeptic.Finding.Ids
use runtime_code_skeptic.Analyzer.Engine.{Context, Effect, step, finding}
use runtime_code_skeptic.Range.{uint64_max}
use runtime_code_skeptic.Requirement.{FallbackKind, permits}

unfoldable pub rule_internal_fallback_contradiction : Context → List Effect
unfolding permits
rule_internal_fallback_contradiction c =
    if not (permits c.requirement FallbackKind.relocate)
    then []
    else if request.validates_returned_address
    then []
    else if not
        (request.exact_address_required || c.requirement.assumptions.guest_host_identity_required)
    then []
    else Effect.emits (
        finding c Ids.invalid_fallback_contract Confidence.proven SupportLevel.unsupported false
          (step Layer.application c.requirement.assumption_evidence
            ∷ step Layer.analyzer EvidenceClass.specified_guarantee
            ∷ [])
          (RemediationClass.relax_exact_address_requirement
            ∷ RemediationClass.handle_relocation_in_caller ∷ []))
      ∷ []
  where
    open c.requirement use {request}

-- "We never established this", which three rules report only if the options ask for it: else the
-- verdict alone is raised.
unfoldable pub unknown_fact : Context → List Effect
unknown_fact c =
    if not c.options.report_unknowns
    then Effect.raises SupportLevel.unknown ∷ []
    else Effect.emits (
        finding c Ids.required_fact_unknown Confidence.hypothesis SupportLevel.unknown false
          (step Layer.operating_system EvidenceClass.unknown ∷ []) [])
      ∷ []

unfoldable pub rule_baseline_mapping_capability : Context → List Effect
unfolding unknown_fact
rule_baseline_mapping_capability c =
    if c.requirement.request.file_backed
    then []
    else elim c.profile.vm.anonymous_mapping_supported [
      | Fact.unknown ↦ unknown_fact c
      | Fact.established works class ↦
          if works
          then []
          else Effect.emits (
              finding c Ids.anonymous_mapping_unavailable Confidence.proven SupportLevel.unsupported
                true (step Layer.operating_system class ∷ [])
                (RemediationClass.select_different_host_configuration ∷ []))
            ∷ []
    ]

-- The largest request that the project observed, `4ull << 30`.
abbrev pub largest_observed_request : ℕ
largest_observed_request = 4 * 2 ^ 30

-- The largest grant that the caller can reach, with its evidence: the hinted one only for a
-- request at an address above the other, and only if it is larger.
unfoldable pub reachable_grant : Context → ℕ → EvidenceClass → ℕ × EvidenceClass
reachable_grant c granted class = elim c.requirement.request.address [
  | none ↦ (granted, class)
  | some address ↦ elim c.profile.vm.max_single_reservation_hinted [
    | Fact.unknown ↦ (granted, class)
    | Fact.established hinted hinted_class ↦
        if ltb granted address && ltb granted hinted
        then (hinted, hinted_class)
        else (granted, class)
  ]
]

-- The size against a grant: satisfied, above a known failure, or between the two.
unfoldable pub compare_with_grant : Context → ℕ → EvidenceClass → List Effect
compare_with_grant c granted class =
    let size = c.requirement.request.size in
    let above_a_known_failure = leb granted (uint64_max / 2) && ltb (2 * granted) size in
    if leb size granted
    then Effect.satisfies class ∷ []
    else Effect.emits (
        finding c Ids.size_exceeds_granted_reservation
          (if above_a_known_failure then Confidence.proven else Confidence.hypothesis)
          (if above_a_known_failure
            then SupportLevel.unsupported
            else SupportLevel.conditionally_supported)
          false
          (step Layer.operating_system class
            ∷ step Layer.analyzer EvidenceClass.specified_guarantee
            ∷ [])
          (RemediationClass.reserve_address_space_earlier ∷ []))
      ∷ []

unfoldable pub rule_reservation_grantable : Context → List Effect
unfolding reachable_grant compare_with_grant
rule_reservation_grantable c = elim c.profile.vm.max_single_reservation [
  | Fact.unknown ↦
      if leb c.requirement.request.size largest_observed_request
      then []
      else Effect.emits (
          finding c Ids.reservation_grantability_unknown Confidence.hypothesis SupportLevel.unknown
            false (step Layer.operating_system EvidenceClass.unknown ∷ [])
            (RemediationClass.select_different_host_configuration ∷ []))
        ∷ []
  | Fact.established granted class ↦
      let (reach, reach_class) = reachable_grant c granted class in
      compare_with_grant c reach reach_class
]

-- The size against the width of the usable address space `[bottom, top)`.
unfoldable pub compare_with_space : Context → ℕ → EvidenceClass → ℕ → List Effect
unfolding rule_reservation_grantable
compare_with_space c top class bottom =
    if leb top bottom
    then []
    else if leb c.requirement.request.size (top - bottom)
    then Effect.satisfies class ∷ rule_reservation_grantable c
    else Effect.emits (
        finding c Ids.size_exceeds_address_space Confidence.proven SupportLevel.unsupported true
          (step Layer.operating_system class
            ∷ step Layer.analyzer EvidenceClass.specified_guarantee
            ∷ [])
          (RemediationClass.select_different_host_configuration ∷ []))
      ∷ []

unfoldable pub rule_size_feasibility : Context → List Effect
unfolding compare_with_space Fact.value_or
rule_size_feasibility c =
    if c.requirement.request.size == 0 then [] else elim c.profile.vm.max_user_address [
      | Fact.unknown ↦ []
      | Fact.established top class ↦
          compare_with_space c top class (Fact.value_or c.profile.vm.min_map_address 0)
    ]
