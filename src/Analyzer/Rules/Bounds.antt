-- ===== src/Analyzer/Rules/Bounds.antt =====
-- The rules about the window and the displacement that the program demands: RS-VM-0017, 0023,
-- 0024 and 0025.
use runtime_code_skeptic.Base.{
  ℕ, ◌/◌, ltb, leb, Bool, true, false, not, ◌&&◌, ◌||◌, List, [], ◌∷◌, Option, some, none, ◌==◌,
  if◌then◌else◌, any,
}
use runtime_code_skeptic.Evidence.{EvidenceClass, Confidence, SupportLevel, Layer}
use runtime_code_skeptic.Fact
use runtime_code_skeptic.Fact.{Fact}
use runtime_code_skeptic.Finding.{RemediationClass}
use runtime_code_skeptic.Finding.Ids
use runtime_code_skeptic.Analyzer.Engine.{Context, Effect, step, finding}
use runtime_code_skeptic.Range.{uint64_max, intersects}
use runtime_code_skeptic.Analyzer.Rules.Size.{unknown_fact}

-- `address_min.value_or(0)` and `address_max.value_or(UINT64_MAX)`
unfoldable pub lower_bound : Context → ℕ
lower_bound c = elim c.requirement.request.address_min [ some low ↦ low | none ↦ 0 ]

unfoldable pub upper_bound : Context → ℕ
upper_bound c = elim c.requirement.request.address_max [ some high ↦ high | none ↦ uint64_max ]

-- The finding RS-VM-0023, with the step of evidence and the remediations of the case.
unfoldable pub bound_unsatisfiable :
    Context → Layer → EvidenceClass → List RemediationClass → List Effect
bound_unsatisfiable c layer class remediations =
    Effect.emits (
      finding c Ids.address_bound_unsatisfiable Confidence.proven SupportLevel.unsupported true
        (step layer class ∷ []) remediations)
    ∷ []

-- Whether the requested address lies outside the bound that the request declares.
unfoldable pub is_outside_own_bound : Context → Bool
unfolding lower_bound upper_bound
is_outside_own_bound c = elim c.requirement.request.address [
  | some address ↦ ltb address (lower_bound c) || leb (upper_bound c) address
  | none ↦ false
]

-- Whether the usable space ends at or below the lower bound.
unfoldable pub ends_below_lower_bound : Context → Bool
unfolding lower_bound
ends_below_lower_bound c = elim c.requirement.request.address_min [
  | some low ↦ elim c.profile.vm.max_user_address [
    | Fact.established top class ↦ leb top (lower_bound c)
    | Fact.unknown ↦ false
  ]
  | none ↦ false
]

-- Whether the usable space starts at or above the upper bound.
unfoldable pub starts_above_upper_bound : Context → Bool
unfolding upper_bound
starts_above_upper_bound c = elim c.requirement.request.address_max [
  | some high ↦ elim c.profile.vm.min_map_address [
    | Fact.established floor class ↦ leb (upper_bound c) floor
    | Fact.unknown ↦ false
  ]
  | none ↦ false
]

unfoldable pub observed_inside : Context → Bool
unfolding lower_bound upper_bound intersects
observed_inside c =
    any (λ r. intersects r.range (record { start = lower_bound c; stop = upper_bound c }))
      c.profile.vm.available_ranges

-- The bound is satisfiable; is it a small part of the space?
unfoldable pub bound_tightness : Context → List Effect
unfolding upper_bound
bound_tightness c = elim c.requirement.request.address_max [
  | none ↦ []
  | some high ↦ elim c.profile.vm.max_user_address [
    | Fact.unknown ↦ []
    | Fact.established top class ↦
        if top == 0 || ltb (top / 4) (upper_bound c)
        then []
        else Effect.emits (
            finding c Ids.address_bound_is_tight Confidence.predictive
              SupportLevel.conditionally_supported false
              (step Layer.operating_system class
                ∷ step Layer.analyzer EvidenceClass.heuristic_risk
                ∷ [])
              (RemediationClass.reserve_address_space_earlier
                ∷ RemediationClass.widen_pointer_storage ∷ []))
          ∷ []
  ]
]

abbrev is_given : Option ℕ → Bool
is_given (some n) = true
is_given none = false

unfoldable pub rule_address_bounds : Context → List Effect
unfolding is_outside_own_bound ends_below_lower_bound starts_above_upper_bound observed_inside
    bound_tightness bound_unsatisfiable unknown_fact Fact.evidence
rule_address_bounds c =
    if not (is_given request.address_min) && not (is_given request.address_max)
    then []
    else if is_outside_own_bound c
    then bound_unsatisfiable c Layer.analyzer EvidenceClass.specified_guarantee []
    else if ends_below_lower_bound c
    then bound_unsatisfiable c Layer.operating_system (Fact.evidence vm.max_user_address)
        (RemediationClass.select_different_host_configuration ∷ [])
    else if starts_above_upper_bound c
    then bound_unsatisfiable c Layer.operating_system (Fact.evidence vm.min_map_address) []
    else if observed_inside c
    then bound_tightness c
    else unknown_fact c
  where
    open c.requirement use {request}
    open c.profile use {vm}

unfoldable pub rule_displacement_constraint : Context → List Effect
rule_displacement_constraint c = elim c.requirement.request.max_displacement_bytes [
  | none ↦ []
  | some bytes ↦
      Effect.emits (
        finding c Ids.displacement_constraint_not_evaluable Confidence.hypothesis
          SupportLevel.unknown false (step Layer.analyzer EvidenceClass.unknown ∷ [])
          (RemediationClass.reserve_address_space_earlier ∷ []))
      ∷ []
]
