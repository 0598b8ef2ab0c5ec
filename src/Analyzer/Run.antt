-- ===== src/Analyzer/Run.antt =====
-- `Analysis::run` and `analyze` of src/vm/analyzer.cpp: the rules in their order, the verdict, and
-- the order of the findings.
use runtime_code_skeptic.Base.{
  ltb, Bool, true, false, not, List, [], ◌∷◌, ◌++◌, map, ◌==◌, if◌then◌else◌, any,
}
use runtime_code_skeptic.Base.Sort.{sort_by}
use runtime_code_skeptic.Evidence.{Confidence, SupportLevel, severity_rank, confidence_rank}
use runtime_code_skeptic.Profile.{ProfileOrigin}
use runtime_code_skeptic.Requirement.{OperationKind}
use runtime_code_skeptic.Finding.{Finding}
use runtime_code_skeptic.Analyzer.Engine.{Context, AnalysisResult, Limitation, Effect, perform_all}
use runtime_code_skeptic.Analyzer.Rules.Size.{
  rule_internal_fallback_contradiction, rule_baseline_mapping_capability, rule_size_feasibility,
}
use runtime_code_skeptic.Analyzer.Rules.Bounds.{rule_address_bounds, rule_displacement_constraint}
use runtime_code_skeptic.Analyzer.Rules.Alignment.{
  rule_reservation_alignment, rule_page_size, rule_address_alignment, rule_size_granularity,
}
use runtime_code_skeptic.Analyzer.Rules.Placement.{
  rule_range_availability, rule_exact_mapping_capability, rule_non_destructive_exact_mapping,
  rule_hinted_relocation, rule_identity_without_translation,
}
use runtime_code_skeptic.Analyzer.Rules.Protection.{
  rule_write_execute, rule_executable_mapping, rule_jit_entitlement,
}
use runtime_code_skeptic.Analyzer.Rules.Memory.{
  rule_reserve_commit, rule_pointer_truncation, rule_file_mapping_beyond_eof,
  rule_retry_of_permanent_error,
}

-- A rule sees the inputs and the result so far.
abbrev pub Rule : Type 0
Rule = Context → AnalysisResult → List Effect

-- A rule that reads no finding of another.
abbrev pub plain : (Context → List Effect) → Rule
plain rule c result = rule c

abbrev pub rules : List Rule
rules =
    plain rule_internal_fallback_contradiction
    ∷ plain rule_baseline_mapping_capability
    ∷ plain rule_size_feasibility
    ∷ plain rule_address_bounds
    ∷ plain rule_displacement_constraint
    ∷ plain rule_reservation_alignment
    ∷ plain rule_page_size
    ∷ plain rule_address_alignment
    ∷ plain rule_size_granularity
    ∷ plain rule_range_availability
    ∷ plain rule_exact_mapping_capability
    ∷ plain rule_non_destructive_exact_mapping
    ∷ plain rule_hinted_relocation
    ∷ rule_identity_without_translation
    ∷ plain rule_write_execute
    ∷ plain rule_executable_mapping
    ∷ plain rule_jit_entitlement
    ∷ plain rule_reserve_commit
    ∷ plain rule_pointer_truncation
    ∷ plain rule_file_mapping_beyond_eof
    ∷ rule_retry_of_permanent_error
    ∷ []

unfoldable pub apply_rules : Context → List Rule → AnalysisResult → AnalysisResult
unfolding perform_all
apply_rules c [] result = result
apply_rules c (rule ∷ rest) result =
    apply_rules c rest (perform_all c.requirement.failure_sink (rule c result) result)

abbrev is_measured : ProfileOrigin → Bool
is_measured ProfileOrigin.measured = true
is_measured _ = false

-- What the documents leave open, before any rule runs.
unfoldable pub initial_limitations : Context → List Limitation
initial_limitations c =
    (if not (is_measured c.profile.origin)
      then Limitation.origin_not_measured c.profile.origin ∷ []
      else [])
    ++ (map Limitation.extraction c.requirement.extraction_limitations
        ++ map Limitation.unrecognized_field c.requirement.unrecognized_fields)

unfoldable pub initial_result : Context → AnalysisResult
unfolding initial_limitations
initial_result c = record {
  overall = SupportLevel.supported;
  findings = [];
  satisfied = [];
  limitations = initial_limitations c;
}

abbrev pub is_in_domain : OperationKind → Bool
is_in_domain OperationKind.unknown = false
is_in_domain _ = true

-- Severity, then confidence, then id.
unfoldable pub finding_before : Finding → Finding → Bool
finding_before a b =
    if not (severity_rank a.severity == severity_rank b.severity)
    then ltb (severity_rank a.severity) (severity_rank b.severity)
    else if not (confidence_rank a.confidence == confidence_rank b.confidence)
    then ltb (confidence_rank a.confidence) (confidence_rank b.confidence)
    else ltb a.id b.id

unfoldable pub outside_domain : AnalysisResult → AnalysisResult
outside_domain r = record r {
  overall = SupportLevel.unknown;
  limitations = r.limitations ++ (Limitation.operation_outside_domain ∷ []);
}

unfoldable pub sort_findings : AnalysisResult → AnalysisResult
unfolding sort_by finding_before
sort_findings r = record r { findings = sort_by finding_before r.findings }

unfoldable pub analyze : Context → AnalysisResult
unfolding initial_result apply_rules outside_domain sort_findings
analyze c =
    if is_in_domain c.requirement.operation
    then sort_findings (apply_rules c rules (initial_result c))
    else outside_domain (initial_result c)

-- `AnalysisResult::has_confidence`
unfoldable pub has_confidence : AnalysisResult → Confidence → Bool
has_confidence r c = any (λ f. confidence_rank f.confidence == confidence_rank c) r.findings
