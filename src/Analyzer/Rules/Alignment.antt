-- ===== src/Analyzer/Rules/Alignment.antt =====
-- The rules about alignment, page size and granularity: RS-VM-0004, 0005, 0006, 0017 and 0022.
use runtime_code_skeptic.Base.{
  ℕ, leb, Bool, true, false, not, ◌||◌, List, [], ◌∷◌, some, none, ◌==◌, if◌then◌else◌,
}
use runtime_code_skeptic.Evidence.{EvidenceClass, Confidence, SupportLevel, Layer}
use runtime_code_skeptic.Fact.{Fact}
use runtime_code_skeptic.Finding.{RemediationClass}
use runtime_code_skeptic.Finding.Ids
use runtime_code_skeptic.Analyzer.Engine.{Context, Effect, Limitation, step, finding}
use runtime_code_skeptic.Evidence.{Severity}
use runtime_code_skeptic.Range.{is_power_of_two, is_aligned, round_up_to}
use runtime_code_skeptic.Requirement.{SizeRelation}

unfoldable pub rule_reservation_alignment : Context → List Effect
unfolding is_power_of_two
rule_reservation_alignment c = elim c.requirement.request.required_alignment [
  | none ↦ []
  | some alignment ↦ elim c.requirement.request.address [
    | some address ↦ []
    | none ↦
        if not (is_power_of_two alignment)
        then Effect.limits (Limitation.alignment_not_power_of_two alignment) ∷ []
        else elim c.profile.vm.allocation_granularity [
          | Fact.unknown ↦ []
          | Fact.established granularity class ↦
              if leb alignment granularity
              then []
              else Effect.emits (
                  finding c Ids.reservation_alignment_unguaranteed Confidence.proven
                    SupportLevel.conditionally_supported false
                    (step Layer.system_call_interface class
                      ∷ step Layer.analyzer EvidenceClass.specified_guarantee
                      ∷ [])
                    (RemediationClass.reserve_address_space_earlier ∷ []))
                ∷ []
        ]
  ]
]

unfoldable pub satisfies_relation : SizeRelation → ℕ → ℕ → Bool
satisfies_relation SizeRelation.equal actual required = actual == required
satisfies_relation SizeRelation.at_most actual required = leb actual required
satisfies_relation SizeRelation.at_least actual required = leb required actual

unfoldable pub rule_page_size : Context → List Effect
unfolding satisfies_relation
rule_page_size c = elim c.requirement.request.required_page_size [
  | none ↦ []
  | some required ↦ elim c.profile.vm.page_size [
    | Fact.unknown ↦
        if not c.options.report_unknowns
        then []
        else Effect.emits (
            finding c Ids.required_fact_unknown Confidence.hypothesis SupportLevel.unknown false
              (step Layer.operating_system EvidenceClass.unknown ∷ []) [])
          ∷ []
    | Fact.established actual class ↦
        if satisfies_relation c.requirement.request.required_page_size_relation actual required
        then Effect.satisfies class ∷ []
        else Effect.emits (
            finding c Ids.page_size_mismatch Confidence.proven SupportLevel.unsupported true
              (step Layer.operating_system class ∷ [])
              (RemediationClass.match_host_page_size
                ∷ RemediationClass.select_different_host_configuration ∷ []))
          ∷ []
  ]
]

-- The second half of `rule_address_alignment`: the address against the host's granularity.
unfoldable pub host_address_alignment : Context → ℕ → List Effect
unfolding is_aligned
host_address_alignment c address =
    if not c.requirement.request.exact_address_required
    then []
    else elim c.profile.vm.allocation_granularity [
      | Fact.unknown ↦ []
      | Fact.established granularity class ↦
          if is_aligned address granularity
          then []
          else Effect.emits (
              finding c Ids.address_alignment_mismatch Confidence.proven SupportLevel.unsupported
                true
                (step Layer.operating_system class
                  ∷ step Layer.analyzer EvidenceClass.specified_guarantee
                  ∷ [])
                (RemediationClass.choose_different_base_address ∷ []))
            ∷ []
    ]

unfoldable pub rule_address_alignment : Context → List Effect
unfolding is_power_of_two is_aligned host_address_alignment
rule_address_alignment c = elim c.requirement.request.address [
  | none ↦ []
  | some address ↦ elim c.requirement.request.required_alignment [
    | none ↦ host_address_alignment c address
    | some alignment ↦
        if not (is_power_of_two alignment)
        then Effect.limits (Limitation.alignment_not_power_of_two alignment)
          ∷ host_address_alignment c address
        else if not (is_aligned address alignment)
        then Effect.emits (
            finding c Ids.address_alignment_mismatch Confidence.proven SupportLevel.unsupported
              false (step Layer.analyzer EvidenceClass.specified_guarantee ∷ [])
              (RemediationClass.choose_different_base_address ∷ []))
          ∷ []
        else host_address_alignment c address
  ]
]

-- The rounding is a violated guarantee if the caller declared that it relies on the bytes past
-- the size, and information otherwise.
unfoldable pub rounding_finding : Context → EvidenceClass → List Effect
rounding_finding c class =
    if c.requirement.request.relies_on_unmapped_beyond_size
    then Effect.emits
        (record (finding c Ids.size_granularity_mismatch Confidence.proven SupportLevel.unsupported
          false (step Layer.operating_system class ∷ [])
          (RemediationClass.reserve_address_space_earlier ∷ [])) { severity = Severity.high })
      ∷ []
    else Effect.emits
        (record (finding c Ids.size_granularity_mismatch Confidence.proven SupportLevel.supported
          false (step Layer.operating_system class ∷ []) []) { severity = Severity.info })
      ∷ []

unfoldable pub rule_size_granularity : Context → List Effect
unfolding is_aligned round_up_to rounding_finding
rule_size_granularity c = elim c.profile.vm.allocation_granularity [
  | Fact.unknown ↦ []
  | Fact.established granularity class ↦
      if granularity == 0 || is_aligned c.requirement.request.size granularity
      then []
      else elim (round_up_to c.requirement.request.size granularity) [
        | none ↦ []
        | some rounded ↦ rounding_finding c class
      ]
]
