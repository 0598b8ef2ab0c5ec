-- ===== src/Analyzer/Refused.antt =====
-- What makes a verdict of `analyze` UNSUPPORTED.
use runtime_code_skeptic.Base.{
  ℕ, ◌<◌, ◌-◌, ◌^◌, ◌≡◌, true, false, ◌||◌, List, some, none, arith, any, At, first, later, At-any,
}
use runtime_code_skeptic.Evidence.{EvidenceClass, SupportLevel}
use runtime_code_skeptic.Fact
use runtime_code_skeptic.Fact.{Fact}
use runtime_code_skeptic.Range.{AddressRange}
use runtime_code_skeptic.Requirement.{FallbackKind, range, permits}
use runtime_code_skeptic.Profile.{query_range}
use runtime_code_skeptic.Profile.Query.{HasObstacle, query_range-unsupported_iff}
use runtime_code_skeptic.Finding.{find_definition}
use runtime_code_skeptic.Analyzer.Engine.{Context, Effect, start, is_unsupported}
use runtime_code_skeptic.Analyzer.Rules.Size.{
  rule_internal_fallback_contradiction, rule_size_feasibility, compare_with_space,
}
use runtime_code_skeptic.Analyzer.Rules.Alignment.{rule_page_size, satisfies_relation}
use runtime_code_skeptic.Analyzer.Rules.Placement.{
  rule_range_availability, demanded_range, unavailable_range, wrapping_range,
}
use runtime_code_skeptic.Analyzer.Rules.Memory.{
  rule_pointer_truncation, truncation, highest_address, rejects_bad_addresses,
}
use runtime_code_skeptic.Analyzer.Run.{plain, rules, is_in_domain, analyze}
use runtime_code_skeptic.Analyzer.Effects.{effect_level}
use runtime_code_skeptic.Analyzer.Verdict.{analyze-unsupported}

is_unsupported_lem : (l : SupportLevel) → is_unsupported l ≡ true → l ≡ SupportLevel.unsupported
is_unsupported_lem l h = ground arith

-- A rule that reads no finding refuses the operation if one of its effects is UNSUPPORTED.
refused :
    (c : Context)
    → is_in_domain c.requirement.operation ≡ true
    → (rule : Context → List Effect) → At (plain rule) rules
    → any (λ e. is_unsupported (effect_level e)) (rule c) ≡ true
    → (analyze c).overall ≡ SupportLevel.unsupported
refused c domain rule m h =
    let (e, n, bad) = At-any (λ e. is_unsupported (effect_level e)) (rule c) h in
    analyze-unsupported c domain m (λ s. n) (is_unsupported_lem (effect_level e) bad)

refuses_range :
    (c : Context) {a : ℕ} {r : AddressRange}
    → c.requirement.request.address ≡ some a
    → (c.requirement.request.exact_address_required
        || c.requirement.assumptions.guest_host_identity_required)
      ≡ true
    → range c.requirement.request ≡ some r
    → (query_range c.profile r).level ≡ SupportLevel.unsupported
    → any (λ e. is_unsupported (effect_level e)) (rule_range_availability c) ≡ true
unfolding rule_range_availability demanded_range unavailable_range start find_definition
refuses_range c at_address demanded bounded level = ground arith

-- An operation that demands its address is UNSUPPORTED if the host has an obstacle there: the
-- range is empty, passes a known bound, or meets a range that is recorded as unavailable.
pub refused-obstacle :
    (c : Context) {a : ℕ} {r : AddressRange}
    → is_in_domain c.requirement.operation ≡ true
    → c.requirement.request.address ≡ some a
    → (c.requirement.request.exact_address_required
        || c.requirement.assumptions.guest_host_identity_required)
      ≡ true
    → range c.requirement.request ≡ some r
    → HasObstacle c.profile.vm r
    → (analyze c).overall ≡ SupportLevel.unsupported
refused-obstacle c {r = r} domain at_address demanded bounded obstacle =
    refused c domain rule_range_availability (search (first, later) depth 25) (
      refuses_range c at_address demanded bounded
        ((query_range-unsupported_iff c.profile r).1 obstacle))

-- An operation that demands its address is UNSUPPORTED on every host if its range wraps past the
-- end of the 64-bit address space.
pub refused-wrap :
    (c : Context) {a : ℕ}
    → is_in_domain c.requirement.operation ≡ true
    → c.requirement.request.address ≡ some a
    → (c.requirement.request.exact_address_required
        || c.requirement.assumptions.guest_host_identity_required)
      ≡ true
    → range c.requirement.request ≡ none
    → (analyze c).overall ≡ SupportLevel.unsupported
unfolding rule_range_availability wrapping_range start find_definition
refused-wrap c domain at_address demanded wraps =
    refused c domain rule_range_availability (search (first, later) depth 25) (ground arith)

-- An operation is UNSUPPORTED if it is larger than the usable address space, where both ends of
-- that space are known and the second is above the first.
pub refused-size :
    (c : Context) {top bottom : ℕ} {d e : EvidenceClass}
    → is_in_domain c.requirement.operation ≡ true
    → c.profile.vm.max_user_address ≡ Fact.established top d
    → c.profile.vm.min_map_address ≡ Fact.established bottom e
    → bottom < top
    → top - bottom < c.requirement.request.size
    → (analyze c).overall ≡ SupportLevel.unsupported
unfolding rule_size_feasibility compare_with_space start find_definition Fact.value_or
refused-size c domain known_top known_bottom apart large =
    refused c domain rule_size_feasibility (search (first, later) depth 25) (ground arith)

-- An operation that permits relocation, does not check the address it got, and relies on that
-- address is UNSUPPORTED on every host.
pub refused-fallback :
    (c : Context)
    → is_in_domain c.requirement.operation ≡ true
    → permits c.requirement FallbackKind.relocate ≡ true
    → c.requirement.request.validates_returned_address ≡ false
    → (c.requirement.request.exact_address_required
        || c.requirement.assumptions.guest_host_identity_required)
      ≡ true
    → (analyze c).overall ≡ SupportLevel.unsupported
unfolding rule_internal_fallback_contradiction start find_definition
refused-fallback c domain relocates unchecked relies =
    refused c domain rule_internal_fallback_contradiction first (ground arith)

-- An operation is UNSUPPORTED if the program stores pointers in fewer than 64 bits, more than
-- none, and would not notice that an address does not fit, and the highest address that it can get
-- is past what the bits hold.
pub refused-truncation :
    (c : Context) {width highest : ℕ}
    → is_in_domain c.requirement.operation ≡ true
    → c.requirement.assumptions.pointer_storage_width_bits ≡ some width
    → 0 < width
    → width < 64
    → highest_address c ≡ some highest
    → 2 ^ width < highest
    → rejects_bad_addresses c ≡ false
    → (analyze c).overall ≡ SupportLevel.unsupported
unfolding rule_pointer_truncation truncation start find_definition
refused-truncation c domain stores some_bits narrow reaches too_high trusting =
    refused c domain rule_pointer_truncation (search (first, later) depth 25) (ground arith)

-- An operation that assumes a page size is UNSUPPORTED if the host's page size is known and does
-- not satisfy the relation that the request states.
pub refused-page_size :
    (c : Context) {required actual : ℕ} {e : EvidenceClass}
    → is_in_domain c.requirement.operation ≡ true
    → c.requirement.request.required_page_size ≡ some required
    → c.profile.vm.page_size ≡ Fact.established actual e
    → satisfies_relation c.requirement.request.required_page_size_relation actual required ≡ false
    → (analyze c).overall ≡ SupportLevel.unsupported
unfolding rule_page_size start find_definition
refused-page_size c domain asks known mismatch =
    refused c domain rule_page_size (search (first, later) depth 25) (ground arith)
