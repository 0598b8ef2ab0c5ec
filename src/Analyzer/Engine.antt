-- ===== src/Analyzer/Engine.antt =====
-- The class `Analysis` of src/vm/analyzer.cpp without its rules. A rule returns the list of its
-- effects on the result, in order, and `perform` carries them out.
use runtime_code_skeptic.Base.{
  Bytes, ℕ, ltb, Bool, true, false, List, [], ◌∷◌, ◌++◌, some, none, any, ◌==◌, if◌then◌else◌,
}
use runtime_code_skeptic.Evidence.{
  EvidenceClass, Confidence, SupportLevel, Severity, Layer, EvidenceStep, EvidenceChain,
  severity_rank, weakest, weakest_class, clamp_confidence, combine,
}
use runtime_code_skeptic.Profile.{EnvironmentProfile, ProfileOrigin}
use runtime_code_skeptic.Requirement.{Requirement, FailureSinkKind}
use runtime_code_skeptic.Finding.{Finding, RemediationClass, find_definition}

pub record AnalysisOptions : Type 0 where
  pub report_unknowns : Bool

-- The three references that the analysis holds.
pub record Context : Type 0 where
  pub requirement : Requirement
  pub profile : EnvironmentProfile
  pub options : AnalysisOptions

-- The sentences of `analyzer_limitations`, by what they say.
pub data Limitation : Type 0 where
  origin_not_measured : ProfileOrigin → Limitation
  extraction : Bytes → Limitation
  unrecognized_field : Bytes → Limitation
  alignment_not_power_of_two : ℕ → Limitation
  operation_outside_domain : Limitation

-- Of a satisfied check the class of its evidence is kept, the two sentences are left out.
pub record AnalysisResult : Type 0 where
  pub overall : SupportLevel
  pub findings : List Finding
  pub satisfied : List EvidenceClass
  pub limitations : List Limitation

unfoldable pub adjust_severity : Severity → FailureSinkKind → Severity
adjust_severity Severity.info FailureSinkKind.fatal_assert = Severity.info
adjust_severity base FailureSinkKind.fatal_assert = Severity.critical
adjust_severity Severity.info FailureSinkKind.process_exit = Severity.info
adjust_severity base FailureSinkKind.process_exit = Severity.critical
adjust_severity Severity.info FailureSinkKind.unchecked = Severity.info
adjust_severity base FailureSinkKind.unchecked = Severity.critical
adjust_severity Severity.info FailureSinkKind.retry_loop = Severity.info
adjust_severity base FailureSinkKind.retry_loop = Severity.high
adjust_severity Severity.critical FailureSinkKind.error_return = Severity.high
adjust_severity base FailureSinkKind.error_return = base
adjust_severity base FailureSinkKind.none =
    if ltb (severity_rank base) (severity_rank Severity.medium) then Severity.medium else base
adjust_severity base FailureSinkKind.unknown = base

-- A finding that is filled from the registry; the text fields are left out.
unfoldable pub start : ℕ → Confidence → SupportLevel → Finding
unfolding find_definition
start id desired impact = record {
  id = id;
  severity = elim (find_definition id) [ some def ↦ def.default_severity | none ↦ Severity.medium ];
  confidence = desired;
  support_impact = impact;
  structural_impossibility = false;
  evidence = [];
  remediations = [];
}

abbrev pub is_supported : SupportLevel → Bool
is_supported SupportLevel.supported = true
is_supported _ = false

abbrev pub is_unsupported : SupportLevel → Bool
is_unsupported SupportLevel.unsupported = true
is_unsupported _ = false

-- What `emit` does to the finding: the sink's adjustment, unless the finding supports, and the
-- clamp by the evidence.
unfoldable pub settle : FailureSinkKind → Finding → Finding
unfolding adjust_severity clamp_confidence weakest_class
settle sink f = record f {
  severity = if is_supported f.support_impact then f.severity else adjust_severity f.severity sink;
  confidence = clamp_confidence f.confidence (weakest_class f.evidence);
}

unfoldable pub emit : FailureSinkKind → Finding → AnalysisResult → AnalysisResult
unfolding combine
emit sink f r = record r {
  overall = combine r.overall f.support_impact;
  findings = r.findings ++ (settle sink f ∷ []);
}

pub data Effect : Type 0 where
  emits : Finding → Effect
  satisfies : EvidenceClass → Effect
  raises : SupportLevel → Effect
  limits : Limitation → Effect

unfoldable pub perform : FailureSinkKind → Effect → AnalysisResult → AnalysisResult
unfolding emit
perform sink (Effect.emits f) r = emit sink f r
perform sink (Effect.satisfies e) r = record r { satisfied = r.satisfied ++ (e ∷ []) }
perform sink (Effect.raises level) r = record r { overall = combine r.overall level }
perform sink (Effect.limits l) r = record r { limitations = r.limitations ++ (l ∷ []) }

unfoldable pub perform_all : FailureSinkKind → List Effect → AnalysisResult → AnalysisResult
unfolding perform
perform_all sink [] r = r
perform_all sink (e ∷ es) r = perform_all sink es (perform sink e r)

-- `add_application_claim`: the first step of the evidence of every finding.
abbrev pub application_claim : Context → EvidenceStep
application_claim c = record {
  layer = Layer.application;
  evidence = c.requirement.assumption_evidence;
}

abbrev pub step : Layer → EvidenceClass → EvidenceStep
step layer class = record { layer = layer; evidence = class }

-- A finding from `start` with the fields that a rule sets. The evidence begins with the
-- application's claim.
abbrev pub finding :
    Context → ℕ → Confidence → SupportLevel → Bool → EvidenceChain → List RemediationClass → Finding
finding c id desired impact structural chain remediations = record (start id desired impact) {
  structural_impossibility = structural;
  evidence = application_claim c ∷ chain;
  remediations = remediations;
}

unfoldable pub established_impossibility : AnalysisResult → Bool
established_impossibility r = any (λ f. f.structural_impossibility) r.findings

unfoldable pub already_emitted : ℕ → AnalysisResult → Bool
already_emitted id r = any (λ f. f.id == id) r.findings

-- The loop of `proven_unsupported_evidence`: the class so far and whether one was found.
unfoldable pub impossibility_from : EvidenceClass → Bool → List Finding → EvidenceClass
unfolding weakest weakest_class
impossibility_from w found [] = if found then w else EvidenceClass.unknown
impossibility_from w found (f ∷ fs) =
    let here = f.structural_impossibility in
    impossibility_from (if here then weakest w (weakest_class f.evidence) else w)
      (if here then true else found) fs

unfoldable pub proven_unsupported_evidence : AnalysisResult → EvidenceClass
unfolding impossibility_from
proven_unsupported_evidence r =
    impossibility_from EvidenceClass.specified_guarantee false r.findings
