-- ===== src/Analyzer/Rules/Placement.antt =====
-- The rules about where the mapping lands: RS-VM-0001 to 0003, 0007, 0008, 0016, 0017 and 0020.
use runtime_code_skeptic.Base.{
  ℕ, true, false, not, ◌&&◌, List, [], ◌∷◌, ◌++◌, some, none, if◌then◌else◌,
}
use runtime_code_skeptic.Evidence.{EvidenceClass, Confidence, SupportLevel, Layer}
use runtime_code_skeptic.Fact.{Fact}
use runtime_code_skeptic.Finding.{RemediationClass}
use runtime_code_skeptic.Finding.Ids
use runtime_code_skeptic.Analyzer.Engine.{Context, Effect, step, finding}
use runtime_code_skeptic.Evidence.{EvidenceChain}
use runtime_code_skeptic.Range.{AddressRange}
use runtime_code_skeptic.Profile.{RangeVerdict, is_below_minimum, is_above_user_space, query_range}
use runtime_code_skeptic.Requirement.{range}
use runtime_code_skeptic.Analyzer.Engine.{
  AnalysisResult, established_impossibility, already_emitted,
}
use runtime_code_skeptic.Analyzer.Rules.Size.{unknown_fact}

-- The address is a hint: one quiet line if the host cannot honour it.
unfoldable pub hint_availability : Context → AddressRange → List Effect
unfolding query_range
hint_availability c hint =
    let hint_verdict = query_range c.profile hint in
    elim hint_verdict.level [
      | SupportLevel.unsupported ↦
          Effect.emits (
            finding c Ids.address_hint_not_honourable Confidence.proven SupportLevel.supported false
              (step Layer.operating_system hint_verdict.evidence ∷ [])
              (RemediationClass.choose_different_base_address ∷ []))
          ∷ []
      | _ ↦ []
    ]

-- The range wraps past the end of the 64-bit address space.
unfoldable pub wrapping_range : Context → List Effect
wrapping_range c =
    Effect.emits (
      finding c Ids.address_above_user_space Confidence.proven SupportLevel.unsupported true
        (step Layer.operating_system EvidenceClass.specified_guarantee ∷ [])
        (RemediationClass.choose_different_base_address
          ∷ RemediationClass.relax_exact_address_requirement ∷ []))
    ∷ []

-- The id that names the obstacle of an unsupported range.
unfoldable pub obstacle_id : Context → AddressRange → ℕ
unfolding is_below_minimum is_above_user_space
obstacle_id c r =
    if is_below_minimum c.profile.vm r.start
    then Ids.address_below_minimum
    else if is_above_user_space c.profile.vm r.stop
    then Ids.address_above_user_space
    else Ids.exact_address_unavailable

unfoldable pub unavailable_range : Context → AddressRange → RangeVerdict → List Effect
unfolding obstacle_id
unavailable_range c r verdict =
    let identity =
      if assumptions.guest_host_identity_required
      then step Layer.compatibility_layer c.requirement.assumption_evidence ∷ []
      else [] in
    let conflict : EvidenceChain = elim verdict.conflicting_range [
      | some conflicting ↦ step Layer.kernel verdict.evidence ∷ []
      | none ↦ []
    ] in
    let translation =
      if not assumptions.translation_layer_available
      then RemediationClass.add_address_translation_layer ∷ []
      else [] in
    Effect.emits (
      finding c (obstacle_id c r) Confidence.proven SupportLevel.unsupported true
        (identity ++ (step Layer.operating_system verdict.evidence ∷ conflict))
        (translation
          ++ (RemediationClass.choose_different_base_address
              ∷ RemediationClass.relax_exact_address_requirement
              ∷ RemediationClass.reserve_address_space_earlier
              ∷ RemediationClass.select_different_host_configuration ∷ [])))
    ∷ []
  where
    open c.requirement use {assumptions}

-- What the profile says of a range that is demanded exactly.
unfoldable pub demanded_range : Context → AddressRange → RangeVerdict → List Effect
unfolding unavailable_range unknown_fact
demanded_range c r verdict = elim verdict.level [
  | SupportLevel.supported ↦ Effect.satisfies verdict.evidence ∷ []
  | SupportLevel.unknown ↦ unknown_fact c
  | _ ↦ unavailable_range c r verdict
]

unfoldable pub rule_range_availability : Context → List Effect
unfolding range hint_availability wrapping_range query_range demanded_range
rule_range_availability c = elim request.address [
  | none ↦ []
  | some address ↦
      if not request.exact_address_required && not assumptions.guest_host_identity_required
      then elim (range request) [ none ↦ [] | some hint ↦ hint_availability c hint ]
      else elim (range request) [
        | none ↦ wrapping_range c
        | some r ↦ demanded_range c r (query_range c.profile r)
      ]
]
  where
    open c.requirement use {request, assumptions}

unfoldable pub rule_exact_mapping_capability : Context → List Effect
rule_exact_mapping_capability c =
    if not c.requirement.request.exact_address_required
    then []
    else elim c.profile.vm.exact_mapping [
      | Fact.unknown ↦ []
      | Fact.established SupportLevel.unsupported class ↦
          Effect.emits (
            finding c Ids.exact_address_unavailable Confidence.proven SupportLevel.unsupported true
              (step Layer.operating_system class ∷ [])
              (RemediationClass.add_address_translation_layer
                ∷ RemediationClass.relax_exact_address_requirement ∷ []))
          ∷ []
      | Fact.established level class ↦ []
    ]

unfoldable pub rule_non_destructive_exact_mapping : Context → List Effect
rule_non_destructive_exact_mapping c =
    if not c.requirement.request.exact_address_required
    then []
    else elim c.profile.vm.fixed_noreplace_available [
      | Fact.unknown ↦ []
      | Fact.established available class ↦
          if available
          then []
          else Effect.emits (
              finding c Ids.exact_mapping_non_destructive_unavailable Confidence.proven
                SupportLevel.conditionally_supported false
                (step Layer.system_call_interface class ∷ [])
                (RemediationClass.reserve_address_space_earlier ∷ []))
            ∷ []
    ]

-- A hint that may relocate, for a caller that assumes identity.
unfoldable pub relocating_hint : Context → EvidenceClass → List Effect
relocating_hint c class =
    Effect.emits (
      finding c Ids.hinted_mapping_may_relocate Confidence.counterexample SupportLevel.unsupported
        false
        (step Layer.operating_system class
          ∷ step Layer.analyzer EvidenceClass.bounded_counterexample
          ∷ [])
        (RemediationClass.handle_relocation_in_caller
          ∷ RemediationClass.add_address_translation_layer ∷ []))
    ∷ []

unfoldable pub rule_hinted_relocation : Context → List Effect
unfolding relocating_hint
rule_hinted_relocation c =
    if c.requirement.request.exact_address_required
    then []
    else elim c.requirement.request.address [
      | none ↦ []
      | some address ↦
          if not c.requirement.assumptions.guest_host_identity_required
          then []
          else elim c.profile.vm.hinted_mapping_may_relocate [
            | Fact.unknown ↦ []
            | Fact.established may class ↦ if not may then [] else relocating_hint c class
          ]
    ]

-- It reads the findings that stand so far, so that a problem is not stated twice.
unfoldable pub rule_identity_without_translation : Context → AnalysisResult → List Effect
unfolding already_emitted established_impossibility
rule_identity_without_translation c result =
    if not c.requirement.assumptions.guest_host_identity_required
    then []
    else if c.requirement.assumptions.translation_layer_available
    then []
    else if c.requirement.request.exact_address_required
    then []
    else if already_emitted Ids.hinted_mapping_may_relocate result
    then []
    else if established_impossibility result
    then []
    else Effect.emits (
        finding c Ids.identity_without_translation Confidence.hypothesis
          SupportLevel.conditionally_supported false
          (step Layer.compatibility_layer c.requirement.assumption_evidence
            ∷ step Layer.analyzer EvidenceClass.heuristic_risk
            ∷ [])
          (RemediationClass.add_address_translation_layer ∷ []))
      ∷ []
