-- ===== src/Analyzer/Silence.antt =====
-- The option `report_unknowns` of src/vm/analyzer.cpp changes which findings explain a verdict of
-- UNKNOWN. This file compares the run that reports them with the run that does not.
use runtime_code_skeptic.Base.{
  ◌⊎◌, inl, inr, Bool-cases, Option-cases, ◌≡◌, ◌≤◌, ◌∙◌, sym, refl, true, false, none, some, [],
  ◌∷◌, At, first, later, ℕ, arith,
}
use runtime_code_skeptic.Evidence.{
  EvidenceClass, Confidence, SupportLevel, Layer, support_rank, combine,
}
use runtime_code_skeptic.Fact.{Fact, is_known}
use runtime_code_skeptic.Finding.Ids
use runtime_code_skeptic.Analyzer.Engine.{Context, Effect, finding, step, start}
use runtime_code_skeptic.Analyzer.Rules.Alignment.{rule_page_size}
use runtime_code_skeptic.Analyzer.Run.{
  rules, plain, initial_result, is_in_domain, analyze, outside_domain, sort_findings,
}
use runtime_code_skeptic.Analyzer.Summary.{combine_supported, apply_rules-AgreeFrom}
use runtime_code_skeptic.Analyzer.Verdict.{analyze-level}
use runtime_code_skeptic.Analyzer.Reporting.{reporting, page_size_gap, rules-SimilarFrom}

combine_absorbs : (a b : SupportLevel) → support_rank b ≤ support_rank a → combine a b ≡ a
unfolding combine
combine_absorbs a b h = ground arith

page_size_gap-rank : (c : Context) → support_rank (page_size_gap c) ≤ 2
page_size_gap-rank c = ground arith

known-cases : {A : Type 0} (f : Fact A) → (is_known f ≡ true) ⊎ (f ≡ Fact.unknown)
unfolding is_known
known-cases (Fact.established a class) = inl refl
known-cases Fact.unknown = inr refl

no_gap :
    (c : Context)
    → (c.requirement.request.required_page_size ≡ none) ⊎ (is_known c.profile.vm.page_size ≡ true)
    → page_size_gap c ≡ SupportLevel.supported
no_gap c read = ground arith

-- The finding of `rule_page_size` on a host whose page size is not known.
abbrev unknown_page_size : Context → Effect
unknown_page_size c = Effect.emits (
    finding c Ids.required_fact_unknown Confidence.hypothesis SupportLevel.unknown false
      (step Layer.operating_system EvidenceClass.unknown ∷ []) [])

reported :
    (c : Context) {required : ℕ}
    → c.requirement.request.required_page_size ≡ some required
    → c.profile.vm.page_size ≡ Fact.unknown
    → At (unknown_page_size (reporting c)) (rule_page_size (reporting c))
unfolding rule_page_size
reported c asks missing = rw (asks, missing) first

reported-level :
    (c : Context) {required : ℕ}
    → is_in_domain c.requirement.operation ≡ true
    → c.requirement.request.required_page_size ≡ some required
    → c.profile.vm.page_size ≡ Fact.unknown
    → 2 ≤ support_rank (analyze (reporting c)).overall
unfolding start
reported-level c domain asks missing =
    analyze-level (reporting c) domain {rule = plain rule_page_size}
      (search (first, later) depth 25) (λ s. reported c asks missing)

page_size_gap-level :
    (c : Context)
    → is_in_domain c.requirement.operation ≡ true
    → combine (analyze (reporting c)).overall (page_size_gap c) ≡ (analyze (reporting c)).overall
page_size_gap-level c domain = elim (Option-cases c.requirement.request.required_page_size) [
  | inl asks ↦ rw (no_gap c (inl asks)) (combine_supported (analyze (reporting c)).overall)
  | inr (required, asks) ↦ elim (known-cases c.profile.vm.page_size) [
    | inl read ↦ rw (no_gap c (inr read)) (combine_supported (analyze (reporting c)).overall)
    | inr missing ↦
        combine_absorbs (analyze (reporting c)).overall (page_size_gap c)
          (omega (arith, page_size_gap-rank c, reported-level c domain asks missing))
  ]
]

runs_join :
    (c : Context)
    → is_in_domain c.requirement.operation ≡ true
    → combine (analyze c).overall (page_size_gap c)
      ≡ combine (analyze (reporting c)).overall (page_size_gap c)
unfolding analyze initial_result sort_findings
runs_join c domain =
    rw domain
      (apply_rules-AgreeFrom (page_size_gap c) c (reporting c) rules (initial_result c)
        (initial_result (reporting c)) (rules-SimilarFrom c) (refl, refl, refl)).0

outside-verdict :
    (c : Context)
    → is_in_domain c.requirement.operation ≡ false
    → (analyze c).overall ≡ SupportLevel.unknown
unfolding analyze outside_domain
outside-verdict c outside = rw outside

-- The verdict of the same run with unknowns reported is the worse of two: the verdict of the run, and
-- UNKNOWN if the run does not report unknowns, the program assumes a page size, and the host's page
-- size is not known.
pub reporting_verdict :
    (c : Context) → (analyze (reporting c)).overall ≡ combine (analyze c).overall (page_size_gap c)
reporting_verdict c = elim (Bool-cases (is_in_domain c.requirement.operation)) [
  | inl domain ↦ sym (page_size_gap-level c domain) ∙ sym (runs_join c domain)
  | inr outside ↦
      rw (outside-verdict c outside, outside-verdict (reporting c) outside)
        (sym (combine_absorbs SupportLevel.unknown (page_size_gap c) (page_size_gap-rank c)))
]
