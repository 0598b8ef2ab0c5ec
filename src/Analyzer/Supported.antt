-- ===== src/Analyzer/Supported.antt =====
-- What a verdict SUPPORTED of `analyze` establishes about the host.
use runtime_code_skeptic.Base.{
  ℕ, ◌≤◌, ◌<◌, ◌-◌, ◌≡◌, ◌⊎◌, inl, inr, true, false, ◌||◌, List, some, arith, At, first, later,
  Option-cases,
}
use runtime_code_skeptic.Evidence.{EvidenceClass, SupportLevel}
use runtime_code_skeptic.Fact
use runtime_code_skeptic.Fact.{Fact}
use runtime_code_skeptic.Range.{AddressRange}
use runtime_code_skeptic.Requirement.{range}
use runtime_code_skeptic.Profile.{query_range}
use runtime_code_skeptic.Profile.Query.{IsAvailable, query_range-IsAvailable}
use runtime_code_skeptic.Finding.{find_definition}
use runtime_code_skeptic.Analyzer.Engine.{Context, Effect, start}
use runtime_code_skeptic.Analyzer.Rules.Size.{
  rule_baseline_mapping_capability, rule_size_feasibility, compare_with_space, unknown_fact,
}
use runtime_code_skeptic.Analyzer.Rules.Alignment.{rule_page_size, satisfies_relation}
use runtime_code_skeptic.Analyzer.Rules.Placement.{
  rule_range_availability, demanded_range, unavailable_range, wrapping_range,
}
use runtime_code_skeptic.Analyzer.Rules.Memory.{
  rule_file_mapping_beyond_eof, access_past_end, mapping_end, reads_final_partial_page,
}
use runtime_code_skeptic.Analyzer.Run.{plain, rules, is_in_domain, analyze}
use runtime_code_skeptic.Analyzer.Effects.{is_quiet}
use runtime_code_skeptic.Analyzer.Verdict.{analyze-is_quiet}

-- A rule that reads no finding is quiet, if the verdict is SUPPORTED.
quiet :
    (c : Context)
    → is_in_domain c.requirement.operation ≡ true
    → (analyze c).overall ≡ SupportLevel.supported
    → (rule : Context → List Effect) → At (plain rule) rules
    → is_quiet (rule c) ≡ true
quiet c domain h rule m = (analyze-is_quiet c domain h m).1

-- An operation without a file is SUPPORTED only on a host where anonymous mappings are known to
-- work.
pub supported-anonymous_mapping :
    (c : Context)
    → is_in_domain c.requirement.operation ≡ true
    → (analyze c).overall ≡ SupportLevel.supported
    → c.requirement.request.file_backed ≡ false
    → (e : EvidenceClass) × (c.profile.vm.anonymous_mapping_supported ≡ Fact.established true e)
unfolding rule_baseline_mapping_capability unknown_fact start find_definition
supported-anonymous_mapping c domain h anonymous =
    let q = quiet c domain h rule_baseline_mapping_capability (search (first, later) depth 25) in
    ground arith

-- An operation is SUPPORTED only if its size fits the usable address space, where both ends of
-- that space are known and the second is above the first.
pub supported-size :
    (c : Context) {top bottom : ℕ} {d e : EvidenceClass}
    → is_in_domain c.requirement.operation ≡ true
    → (analyze c).overall ≡ SupportLevel.supported
    → c.profile.vm.max_user_address ≡ Fact.established top d
    → c.profile.vm.min_map_address ≡ Fact.established bottom e
    → bottom < top
    → c.requirement.request.size ≤ top - bottom
unfolding rule_size_feasibility compare_with_space start find_definition Fact.value_or
supported-size c domain h known_top known_bottom apart =
    let q = quiet c domain h rule_size_feasibility (search (first, later) depth 25) in ground arith

-- Where unknowns are reported, an operation that assumes a page size is SUPPORTED only if the
-- host's page size is known and satisfies the relation that the request states.
pub supported-page_size :
    (c : Context) {required : ℕ}
    → is_in_domain c.requirement.operation ≡ true
    → (analyze c).overall ≡ SupportLevel.supported
    → c.options.report_unknowns ≡ true
    → c.requirement.request.required_page_size ≡ some required
    → (actual : ℕ) × (e : EvidenceClass) × (c.profile.vm.page_size ≡ Fact.established actual e)
      × (satisfies_relation c.requirement.request.required_page_size_relation actual required
          ≡ true)
unfolding rule_page_size start find_definition
supported-page_size c domain h reports asks =
    let q = quiet c domain h rule_page_size (search (first, later) depth 25) in ground arith

range_is_supported :
    (c : Context) {a : ℕ}
    → is_quiet (rule_range_availability c) ≡ true
    → c.requirement.request.address ≡ some a
    → (c.requirement.request.exact_address_required
        || c.requirement.assumptions.guest_host_identity_required)
      ≡ true
    → (r : AddressRange) × (range c.requirement.request ≡ some r)
      × ((query_range c.profile r).level ≡ SupportLevel.supported)
unfolding rule_range_availability demanded_range unavailable_range wrapping_range unknown_fact start
    find_definition
range_is_supported c q at_address demanded = elim (Option-cases (range c.requirement.request)) [
  | inl wraps ↦ absurd (ground arith)
  | inr (r, bounded) ↦ (r, bounded, ground arith)
]

-- An operation that demands its address, because it maps there exactly or because guest and host
-- addresses have to be the same, is SUPPORTED only if the address range does not wrap and the host
-- has it: it keeps the known bounds, meets no range that is recorded as unavailable, and lies in
-- one that is recorded as available.
pub supported-IsAvailable :
    (c : Context) {a : ℕ}
    → is_in_domain c.requirement.operation ≡ true
    → (analyze c).overall ≡ SupportLevel.supported
    → c.requirement.request.address ≡ some a
    → (c.requirement.request.exact_address_required
        || c.requirement.assumptions.guest_host_identity_required)
      ≡ true
    → (r : AddressRange) × (range c.requirement.request ≡ some r)
      × IsAvailable c.profile.vm r (query_range c.profile r).evidence
supported-IsAvailable c domain h at_address demanded =
    let q = quiet c domain h rule_range_availability (search (first, later) depth 25) in
    let (r, bounded, level) = range_is_supported c q at_address demanded in
    (r, bounded, query_range-IsAvailable c.profile r level)

-- A file mapping that passes the end of its file is SUPPORTED only if the program does not touch
-- what lies there, or reads the rest of the file's last page and no more.
pub supported-beyond_eof :
    (c : Context) {file_length : ℕ}
    → is_in_domain c.requirement.operation ≡ true
    → (analyze c).overall ≡ SupportLevel.supported
    → c.requirement.request.file_backed ≡ true
    → c.requirement.request.file_length ≡ some file_length
    → file_length < mapping_end c
    → (c.requirement.request.accesses_beyond_eof ≡ false)
      ⊎ (reads_final_partial_page c file_length ≡ true)
unfolding rule_file_mapping_beyond_eof access_past_end unknown_fact start find_definition
supported-beyond_eof c domain h file length passes =
    let q = quiet c domain h rule_file_mapping_beyond_eof (search (first, later) depth 25) in
    ground arith
