-- ===== src/Evidence.antt =====
-- include/runtimeskeptic/core/evidence.hpp and src/core/evidence.cpp: the ladders of evidence,
-- confidence, support and severity, and the chain of evidence of a finding.
pub mod Order
pub mod Names
use runtime_code_skeptic.Base.{ℕ, List, [], ◌∷◌, ◌++◌, leb, ltb, if◌then◌else◌}

pub data EvidenceClass : Type 0 where
  specified_guarantee measured_capability statically_inferred bounded_counterexample
        observed_invariant heuristic_risk unknown :
      EvidenceClass

pub data Confidence : Type 0 where
  proven counterexample observed_invariant predictive hypothesis : Confidence

pub data SupportLevel : Type 0 where
  supported conditionally_supported unknown unsupported : SupportLevel

pub data Severity : Type 0 where
  critical high medium low info : Severity

pub data Layer : Type 0 where
  application library language_runtime compatibility_layer system_call_interface operating_system
        kernel hardware analyzer :
      Layer

-- `static_cast<int>` of the enumerators.
abbrev pub class_rank : EvidenceClass → ℕ
class_rank EvidenceClass.specified_guarantee = 0
class_rank EvidenceClass.measured_capability = 1
class_rank EvidenceClass.statically_inferred = 2
class_rank EvidenceClass.bounded_counterexample = 3
class_rank EvidenceClass.observed_invariant = 4
class_rank EvidenceClass.heuristic_risk = 5
class_rank EvidenceClass.unknown = 6

abbrev pub confidence_rank : Confidence → ℕ
confidence_rank Confidence.proven = 0
confidence_rank Confidence.counterexample = 1
confidence_rank Confidence.observed_invariant = 2
confidence_rank Confidence.predictive = 3
confidence_rank Confidence.hypothesis = 4

abbrev pub support_rank : SupportLevel → ℕ
support_rank SupportLevel.supported = 0
support_rank SupportLevel.conditionally_supported = 1
support_rank SupportLevel.unknown = 2
support_rank SupportLevel.unsupported = 3

abbrev pub severity_rank : Severity → ℕ
severity_rank Severity.critical = 0
severity_rank Severity.high = 1
severity_rank Severity.medium = 2
severity_rank Severity.low = 3
severity_rank Severity.info = 4

-- The weaker (numerically larger) of the two.
unfoldable pub weakest : EvidenceClass → EvidenceClass → EvidenceClass
weakest a b = if leb (class_rank b) (class_rank a) then a else b

unfoldable pub confidence_ceiling : EvidenceClass → Confidence
confidence_ceiling EvidenceClass.specified_guarantee = Confidence.proven
confidence_ceiling EvidenceClass.measured_capability = Confidence.proven
confidence_ceiling EvidenceClass.observed_invariant = Confidence.observed_invariant
confidence_ceiling EvidenceClass.statically_inferred = Confidence.counterexample
confidence_ceiling EvidenceClass.bounded_counterexample = Confidence.counterexample
confidence_ceiling EvidenceClass.heuristic_risk = Confidence.predictive
confidence_ceiling EvidenceClass.unknown = Confidence.hypothesis

unfoldable pub clamp_confidence : Confidence → EvidenceClass → Confidence
clamp_confidence desired weakest_fact =
    let ceiling = confidence_ceiling weakest_fact in
    if ltb (confidence_rank ceiling) (confidence_rank desired) then desired else ceiling

unfoldable pub combine : SupportLevel → SupportLevel → SupportLevel
combine a b = if leb (support_rank b) (support_rank a) then a else b

-- The claim, the source and the detail of a step are prose and are left out.
pub record EvidenceStep : Type 0 where
  pub layer : Layer
  pub evidence : EvidenceClass

abbrev pub EvidenceChain : Type 0
EvidenceChain = List EvidenceStep

unfoldable pub add : EvidenceChain → Layer → EvidenceClass → EvidenceChain
add steps layer evidence = steps ++ (record { layer = layer; evidence = evidence } ∷ [])

-- The loop of `weakest_class` from the class seen so far.
unfoldable pub weakest_from : EvidenceClass → EvidenceChain → EvidenceClass
weakest_from w [] = w
weakest_from w (s ∷ steps) = weakest_from (weakest w s.evidence) steps

unfoldable pub weakest_class : EvidenceChain → EvidenceClass
unfolding weakest_from
weakest_class [] = EvidenceClass.unknown
weakest_class (s ∷ steps) = weakest_from EvidenceClass.specified_guarantee (s ∷ steps)
