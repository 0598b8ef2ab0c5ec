-- ===== src/Analyzer/Rules/Protection.antt =====
-- The rules about protections: RS-VM-0009, 0010 and 0011.
use runtime_code_skeptic.Base.{Bool, true, false, not, ◌||◌, List, [], ◌∷◌, if◌then◌else◌}
use runtime_code_skeptic.Evidence.{EvidenceClass, Confidence, SupportLevel, Layer}
use runtime_code_skeptic.Fact.{Fact}
use runtime_code_skeptic.Finding.{RemediationClass}
use runtime_code_skeptic.Finding.Ids
use runtime_code_skeptic.Analyzer.Engine.{Context, Effect, step, finding}
use runtime_code_skeptic.Evidence.{EvidenceChain}
use runtime_code_skeptic.Requirement.{write_and_execute}

abbrev pub remediation_if : Bool → RemediationClass → List RemediationClass
remediation_if test r = if test then r ∷ [] else []

-- The well-behaved flip from writable to executable, which the host rejects.
unfoldable pub rejected_flip : Context → EvidenceClass → List Effect
rejected_flip c class =
    Effect.emits (
      finding c Ids.write_execute_restricted Confidence.proven SupportLevel.unsupported false
        (step Layer.operating_system class ∷ [])
        (RemediationClass.request_platform_entitlement
          ∷ RemediationClass.use_separate_write_and_execute_mappings ∷ []))
    ∷ []

-- The step of evidence and the remediation for a flip that the host is known to permit.
unfoldable pub flip_step : Fact Bool → EvidenceChain
flip_step (Fact.established true class) = step Layer.operating_system class ∷ []
flip_step _ = []

unfoldable pub flip_available : Fact Bool → Bool
flip_available (Fact.established true class) = true
flip_available _ = false

-- Simultaneous write and execute, which the host refuses.
unfoldable pub refused_write_execute : Context → EvidenceClass → List Effect
unfolding flip_step flip_available
refused_write_execute c class =
    let flip = c.profile.vm.protection.write_then_execute_transition in
    Effect.emits (
      finding c Ids.write_execute_restricted Confidence.proven SupportLevel.unsupported true
        (step Layer.operating_system class ∷ flip_step flip)
        (RemediationClass.use_separate_write_and_execute_mappings
          ∷ remediation_if (flip_available flip)
              RemediationClass.use_separate_write_and_execute_mappings))
    ∷ []

unfoldable pub wants_simultaneous : Context → Bool
unfolding write_and_execute
wants_simultaneous c =
    c.requirement.request.simultaneous_write_execute
    || write_and_execute c.requirement.request.protection

unfoldable pub rule_write_execute : Context → List Effect
unfolding wants_simultaneous rejected_flip refused_write_execute
rule_write_execute c =
    if not (wants_simultaneous c)
    then (if not c.requirement.request.write_then_execute
        then []
        else elim c.profile.vm.protection.write_then_execute_transition [
          | Fact.unknown ↦ []
          | Fact.established permitted class ↦ if permitted then [] else rejected_flip c class
        ])
    else elim c.profile.vm.protection.write_execute_simultaneous [
      | Fact.unknown ↦ []
      | Fact.established permitted class ↦
          if permitted then Effect.satisfies class ∷ [] else refused_write_execute c class
    ]

unfoldable pub wants_execute : Context → Bool
wants_execute c =
    c.requirement.request.protection.execute || c.requirement.request.write_then_execute

unfoldable pub rule_executable_mapping : Context → List Effect
unfolding wants_execute
rule_executable_mapping c =
    if not (wants_execute c)
    then []
    else if c.requirement.request.file_backed
    then []
    else elim c.profile.vm.protection.anonymous_executable_mapping [
      | Fact.unknown ↦ []
      | Fact.established permitted class ↦
          if permitted
          then Effect.satisfies class ∷ []
          else Effect.emits (
              finding c Ids.executable_mapping_unsupported Confidence.proven
                SupportLevel.unsupported true (step Layer.operating_system class ∷ [])
                (RemediationClass.request_platform_entitlement
                  ∷ RemediationClass.select_different_host_configuration ∷ []))
            ∷ []
    ]

unfoldable pub rule_jit_entitlement : Context → List Effect
unfolding wants_execute
rule_jit_entitlement c =
    if not (wants_execute c) then [] else elim c.profile.vm.protection.jit_entitlement_required [
      | Fact.unknown ↦ []
      | Fact.established gated class ↦
          if not gated
          then Effect.satisfies class ∷ []
          else Effect.emits (
              finding c Ids.jit_entitlement_required Confidence.proven
                SupportLevel.conditionally_supported false (step Layer.operating_system class ∷ [])
                (RemediationClass.request_platform_entitlement ∷ []))
            ∷ []
    ]
