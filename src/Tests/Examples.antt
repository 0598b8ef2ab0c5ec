-- ===== src/Tests/Examples.antt =====
-- The theorems about the analysis at the sample inputs.
use mathlib.Core.List.{Perm}
use runtime_code_skeptic.Base.{
  ℕ, Pairwise, ◌≤◌, ◌≡◌, ◌≢◌, ◌⊎◌, inl, inr, refl, ◌↔◌, true, false, some, arith, All, At, first,
}
use runtime_code_skeptic.Evidence.{
  EvidenceClass, SupportLevel, Severity, confidence_rank, confidence_ceiling, combine,
}
use runtime_code_skeptic.Fact.{Fact}
use runtime_code_skeptic.Range.{AddressRange, from_base_size, empty, intersects}
use runtime_code_skeptic.Profile.{
  query_range, find_range, query_available, query_unavailable, is_below_minimum,
  is_above_user_space,
}
use runtime_code_skeptic.Range.{contains}
use runtime_code_skeptic.Profile.Query.{
  IsAvailable, HasObstacle, query_range-IsAvailable, query_range-unsupported_iff,
}
use runtime_code_skeptic.Requirement.{range, permits}
use runtime_code_skeptic.Finding.{FindingDefinition, find_definition}
use runtime_code_skeptic.Analyzer.Engine.{Context}
use runtime_code_skeptic.Analyzer.Rules.Memory.{
  mapping_end, reads_final_partial_page, highest_address, rejects_bad_addresses,
}
use runtime_code_skeptic.Analyzer.Run.{analyze, rules, apply_rules, initial_result}
use runtime_code_skeptic.Analyzer.Findings.{
  Allows, no_overclaim, capped_by_requirement, findings_well_formed, fatal_sink_severity,
  BeginsWith,
}
use runtime_code_skeptic.Analyzer.Sorted.{IsReportedBefore, findings-IsSorted}
use runtime_code_skeptic.Analyzer.Verdict.{IsExplained, verdict-IsExplained}
use runtime_code_skeptic.Analyzer.Supported.{
  supported-anonymous_mapping, supported-page_size, supported-IsAvailable, supported-beyond_eof,
}
use runtime_code_skeptic.Analyzer.Refused.{refused-obstacle, refused-fallback, refused-truncation}
use runtime_code_skeptic.Analyzer.Rules.Alignment.{satisfies_relation}
use runtime_code_skeptic.Analyzer.Reporting.{reporting, page_size_gap}
use runtime_code_skeptic.Analyzer.Silence.{reporting_verdict}
use runtime_code_skeptic.Base.{◌&&◌, not, List, [], ◌∷◌}
use runtime_code_skeptic.Profile.{EnvironmentProfile}
use runtime_code_skeptic.Requirement.{Requirement}
use runtime_code_skeptic.Analyzer.Engine.{AnalysisOptions, already_emitted}
use runtime_code_skeptic.Impact.{VerdictChange, compare_contract, requirement_impact}
use runtime_code_skeptic.Impact.Change.{
  Worsens, Stays, contract_regressed_iff, contract_unchanged_iff,
}
use runtime_code_skeptic.Impact.Sets.{has_id, appeared_and_disappeared}
use runtime_code_skeptic.Tests.Samples.{
  host, anywhere, program, on_host, at_address, free, past_end, relocating, narrow, silent,
}
use runtime_code_skeptic.Tests.Verdicts.{free_is_supported, past_end_is_supported}

-- A mapping at an address that the host uses, which only the failing program demands.
abbrev taken : Context
taken = on_host (program (at_address 4194304))

abbrev taken_range : AddressRange
taken_range = record { start = 4194304; stop = 4259840 }

abbrev free_range : AddressRange
free_range = record { start = 268435456; stop = 268500992 }

no_overclaim_example : All (λ f. All (Allows f) f.evidence) (analyze taken).findings
no_overclaim_example = no_overclaim taken

capped_by_requirement_example :
    All
      (λ f.
        confidence_rank (confidence_ceiling taken.requirement.assumption_evidence)
        ≤ confidence_rank f.confidence)
      (analyze taken).findings
capped_by_requirement_example = capped_by_requirement taken

verdict-IsExplained_example : IsExplained taken (analyze taken)
verdict-IsExplained_example = verdict-IsExplained taken refl

findings_well_formed_example :
    All
      (λ f.
        ((def : FindingDefinition) × (find_definition f.id ≡ some def))
        × BeginsWith taken.requirement.assumption_evidence f.evidence
        × ((f.structural_impossibility ≡ false) ⊎ (f.support_impact ≡ SupportLevel.unsupported)))
      (analyze taken).findings
findings_well_formed_example = findings_well_formed taken

fatal_sink_severity_example :
    All
      (λ f.
        (f.support_impact ≡ SupportLevel.supported)
        ⊎ (f.severity ≡ Severity.critical)
        ⊎ (f.severity ≡ Severity.info))
      (analyze taken).findings
fatal_sink_severity_example = fatal_sink_severity taken (inl refl)

findings-IsSorted_example :
    Pairwise IsReportedBefore (analyze taken).findings
    × Perm (analyze taken).findings (apply_rules taken rules (initial_result taken)).findings
findings-IsSorted_example = findings-IsSorted taken refl

supported-anonymous_mapping_example :
    (e : EvidenceClass) × (host.vm.anonymous_mapping_supported ≡ Fact.established true e)
supported-anonymous_mapping_example = supported-anonymous_mapping free refl free_is_supported refl

supported-IsAvailable_example :
    (r : AddressRange) × (range free.requirement.request ≡ some r)
    × IsAvailable host.vm r (query_range host r).evidence
supported-IsAvailable_example = supported-IsAvailable free refl free_is_supported refl refl

supported-beyond_eof_example :
    (past_end.requirement.request.accesses_beyond_eof ≡ false)
    ⊎ (reads_final_partial_page past_end 1000 ≡ true)
unfolding mapping_end
supported-beyond_eof_example =
    supported-beyond_eof past_end refl past_end_is_supported refl refl (omega arith)

refused-obstacle_example : (analyze taken).overall ≡ SupportLevel.unsupported
unfolding range from_base_size
refused-obstacle_example = refused-obstacle taken refl refl refl refl (
    inr (
      inr (
        inr (
          record {
            range = record { start = 4194304; stop = 8388608 };
            evidence = EvidenceClass.measured_capability;
          },
          first,
          (4194304, (omega arith, omega arith), (omega arith, omega arith)),
        ))))

refused-fallback_example : (analyze relocating).overall ≡ SupportLevel.unsupported
unfolding permits
refused-fallback_example = refused-fallback relocating refl refl refl refl

refused-truncation_example : (analyze narrow).overall ≡ SupportLevel.unsupported
unfolding highest_address range from_base_size rejects_bad_addresses permits
refused-truncation_example =
    refused-truncation narrow refl refl (omega arith) (omega arith) refl (omega arith) refl

reporting_verdict_example :
    (analyze (reporting silent)).overall ≡ combine (analyze silent).overall (page_size_gap silent)
reporting_verdict_example = reporting_verdict silent

supported-page_size_example :
    (actual : ℕ) × (e : EvidenceClass) × (free.profile.vm.page_size ≡ Fact.established actual e)
    × (satisfies_relation free.requirement.request.required_page_size_relation actual 4096 ≡ true)
supported-page_size_example = supported-page_size free refl free_is_supported refl refl

query_range-IsAvailable_example :
    IsAvailable host.vm free_range (query_range host free_range).evidence
unfolding query_range query_unavailable query_available find_range contains intersects empty
    is_below_minimum is_above_user_space
query_range-IsAvailable_example = query_range-IsAvailable host free_range refl

query_range-unsupported_iff_example :
    ((query_range host taken_range).level ≡ SupportLevel.unsupported)
    ↔ HasObstacle host.vm taken_range
query_range-unsupported_iff_example = query_range-unsupported_iff host taken_range

-- A host that lost the ability to map anonymous memory, against the sample host.
abbrev crippled : EnvironmentProfile
crippled = record host { vm = record host.vm { anonymous_mapping_supported = Fact.unknown } }

abbrev explained : AnalysisOptions
explained = record { report_unknowns = true }

abbrev contract : List Requirement
contract = program anywhere ∷ program (at_address 268435456) ∷ []

contract_regressed_iff_example :
    ((compare_contract explained host crippled contract).change ≡ VerdictChange.regressed)
    ↔ ((r : Requirement) × At r contract × Worsens explained host crippled r)
contract_regressed_iff_example = contract_regressed_iff explained host crippled contract

contract_unchanged_iff_example :
    ((compare_contract explained host host contract).change ≡ VerdictChange.unchanged)
    ↔ ((contract ≢ []) × All (Stays explained host host) contract)
contract_unchanged_iff_example = contract_unchanged_iff explained host host contract

appeared_and_disappeared_example :
    let r = program anywhere in
    let a = analyze (record { requirement = r; profile = host; options = explained }) in
    let b = analyze (record { requirement = r; profile = crippled; options = explained }) in
    let impact = requirement_impact explained host crippled 0 r in
    (has_id 17 impact.ids_appeared ≡ already_emitted 17 b && not (already_emitted 17 a))
    × (has_id 17 impact.ids_disappeared ≡ already_emitted 17 a && not (already_emitted 17 b))
appeared_and_disappeared_example =
    appeared_and_disappeared explained host crippled 0 17 (program anywhere)
