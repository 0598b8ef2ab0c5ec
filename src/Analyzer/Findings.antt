-- ===== src/Analyzer/Findings.antt =====
-- What holds of all findings of `analyze`: ids, evidence, confidence and severity.
use mathlib.Core.Path.{subst}
use runtime_code_skeptic.Base.{
  ℕ, ◌≤◌, ◌≡◌, ◌≢◌, ◌⊎◌, inl, inr, true, false, Option-cases, List, [], ◌∷◌, some, arith, All,
  All-imp, All-of_At, At, first, if-intro,
}
use runtime_code_skeptic.Base.Sort.{All-sort_by}
use runtime_code_skeptic.Evidence.{
  EvidenceClass, EvidenceStep, EvidenceChain, SupportLevel, Severity, confidence_rank,
  confidence_ceiling, weakest_class,
}
use runtime_code_skeptic.Evidence.Order.{
  confidence_ceiling_mono, confidence_rank-clamp, weakest_class-ge, class_rank-injective,
}
use runtime_code_skeptic.Requirement.{FailureSinkKind}
use runtime_code_skeptic.Finding.{Finding, FindingDefinition, find_definition}
use runtime_code_skeptic.Analyzer.Engine.{Context, AnalysisResult, Effect, settle}
use runtime_code_skeptic.Analyzer.Run.{
  rules, apply_rules, is_in_domain, initial_result, finding_before, analyze,
}
use runtime_code_skeptic.Analyzer.Effects.{Emitted, apply_rules-All}
use runtime_code_skeptic.Analyzer.WellFormed.{
  is_registered, starts_with_class, is_well_formed, IsWellFormed, rules-IsWellFormed,
}

module _ (P : Finding → Type 0) (c : Context)
    (holds : (f : Finding)
      → is_well_formed c.requirement.assumption_evidence f ≡ true
      → P (settle c.requirement.failure_sink f)) where
  Emitted-of_IsWellFormed : (es : List Effect) → IsWellFormed c es → All (Emitted P c) es
  Emitted-of_IsWellFormed [] h = tt
  Emitted-of_IsWellFormed (Effect.emits f ∷ es) h =
      (holds f (ground arith), Emitted-of_IsWellFormed es (ground arith))
  Emitted-of_IsWellFormed (Effect.satisfies e ∷ es) h = (tt, Emitted-of_IsWellFormed es h)
  Emitted-of_IsWellFormed (Effect.raises l ∷ es) h = (tt, Emitted-of_IsWellFormed es (ground arith))
  Emitted-of_IsWellFormed (Effect.limits l ∷ es) h = (tt, Emitted-of_IsWellFormed es h)

  applied-All : All P (apply_rules c rules (initial_result c)).findings
  unfolding initial_result
  applied-All = apply_rules-All P c rules (initial_result c) tt (
      All-imp {P = λ rule. (s : AnalysisResult) → IsWellFormed c (rule c s)}
        {Q = λ rule. (s : AnalysisResult) → All (Emitted P c) (rule c s)}
        (λ rule h s. Emitted-of_IsWellFormed (rule c s) (h s)) rules (rules-IsWellFormed c))

  -- What holds of every well-formed finding once it is settled holds of every finding.
  pub analyze-All : All P (analyze c).findings
  unfolding analyze initial_result
  analyze-All =
      if-intro (λ (r : AnalysisResult). All P r.findings) (is_in_domain c.requirement.operation)
        (λ e.
          All-sort_by finding_before P (apply_rules c rules (initial_result c)).findings
            applied-All)
        (λ e. tt)

-- The confidence claims no more than the step of evidence allows.
abbrev pub Allows : Finding → EvidenceStep → Type 0
Allows f s = confidence_rank (confidence_ceiling s.evidence) ≤ confidence_rank f.confidence

settle-Allows :
    (sink : FailureSinkKind) (f : Finding) (s : EvidenceStep)
    → At s f.evidence
    → Allows (settle sink f) s
unfolding settle
settle-Allows sink f s m = omega (
  arith,
  confidence_rank-clamp f.confidence (weakest_class f.evidence),
  confidence_ceiling_mono s.evidence (weakest_class f.evidence) (weakest_class-ge f.evidence m),
)

-- No finding claims more confidence than any single step of its own evidence chain allows.
pub no_overclaim : (c : Context) → All (λ f. All (Allows f) f.evidence) (analyze c).findings
unfolding settle
no_overclaim c =
    analyze-All (λ f. All (Allows f) f.evidence) c
      (λ f h.
        All-of_At (Allows (settle c.requirement.failure_sink f)) f.evidence
          (settle-Allows c.requirement.failure_sink f))

-- The first step of the chain is of the class.
abbrev pub BeginsWith : EvidenceClass → EvidenceChain → Type 0
BeginsWith e [] = ⊥
BeginsWith e (s ∷ chain) = s.evidence ≡ e

starts_with_class-BeginsWith :
    (e : EvidenceClass) (chain : EvidenceChain)
    → starts_with_class e chain ≡ true
    → BeginsWith e chain
starts_with_class-BeginsWith e [] h = absurd (cc)
starts_with_class-BeginsWith e (s ∷ chain) h = class_rank-injective s.evidence e (ground arith)

first_step :
    (e : EvidenceClass) (chain : EvidenceChain)
    → BeginsWith e chain
    → (s : EvidenceStep) × At s chain × (s.evidence ≡ e)
first_step e [] h = absurd h
first_step e (s ∷ chain) h = (s, first, h)

settle-claim :
    (e : EvidenceClass) (sink : FailureSinkKind) (f : Finding)
    → is_well_formed e f ≡ true
    → confidence_rank (confidence_ceiling e) ≤ confidence_rank (settle sink f).confidence
settle-claim e sink f h =
    let begins = starts_with_class-BeginsWith e f.evidence (ground arith) in
    let (s, m, same) = first_step e f.evidence begins in
    subst (λ x. confidence_rank (confidence_ceiling x) ≤ confidence_rank (settle sink f).confidence)
      same (settle-Allows sink f s m)

-- No finding claims more confidence than the evidence class of the requirement itself allows:
-- whatever the host profile proves, a statically extracted requirement never yields PROVEN.
pub capped_by_requirement :
    (c : Context)
    → All
        (λ f.
          confidence_rank (confidence_ceiling c.requirement.assumption_evidence)
          ≤ confidence_rank f.confidence)
        (analyze c).findings
capped_by_requirement c =
    analyze-All
      (λ f.
        confidence_rank (confidence_ceiling c.requirement.assumption_evidence)
        ≤ confidence_rank f.confidence)
      c (settle-claim c.requirement.assumption_evidence c.requirement.failure_sink)

registered :
    (id : ℕ) → is_registered id ≡ true → (def : FindingDefinition) × (find_definition id ≡ some def)
registered id h = elim (Option-cases (find_definition id)) [
  | inl missing ↦ absurd (ground arith)
  | inr found ↦ found
]

-- Every finding bears an id of the registry, and the first step of its evidence is of the
-- requirement's own evidence class; one that is a structural impossibility is UNSUPPORTED.
pub findings_well_formed :
    (c : Context)
    → All
        (λ f.
          ((def : FindingDefinition) × (find_definition f.id ≡ some def))
          × BeginsWith c.requirement.assumption_evidence f.evidence
          × ((f.structural_impossibility ≡ false) ⊎ (f.support_impact ≡ SupportLevel.unsupported)))
        (analyze c).findings
unfolding settle
findings_well_formed c =
    analyze-All
      (λ f.
        ((def : FindingDefinition) × (find_definition f.id ≡ some def))
        × BeginsWith c.requirement.assumption_evidence f.evidence
        × ((f.structural_impossibility ≡ false) ⊎ (f.support_impact ≡ SupportLevel.unsupported)))
      c
      (λ f h. (
        registered f.id (ground arith),
        starts_with_class-BeginsWith c.requirement.assumption_evidence f.evidence (ground arith),
        ground arith,
      ))

-- A sink that turns a failure into an abort, or that never looks.
abbrev pub IsFatal : FailureSinkKind → Type 0
IsFatal sink =
    (sink ≡ FailureSinkKind.fatal_assert)
    ⊎ (sink ≡ FailureSinkKind.process_exit)
    ⊎ (sink ≡ FailureSinkKind.unchecked)

-- Under a fatal or unchecked sink every finding supports the operation, or is critical, or is
-- informational.
pub fatal_sink_severity :
    (c : Context)
    → IsFatal c.requirement.failure_sink
    → All
        (λ f.
          (f.support_impact ≡ SupportLevel.supported)
          ⊎ (f.severity ≡ Severity.critical)
          ⊎ (f.severity ≡ Severity.info))
        (analyze c).findings
unfolding settle
fatal_sink_severity c fatal =
    analyze-All
      (λ f.
        (f.support_impact ≡ SupportLevel.supported)
        ⊎ (f.severity ≡ Severity.critical)
        ⊎ (f.severity ≡ Severity.info))
      c (λ f h. ground arith)

-- Under a sink that returns the error no finding that speaks against support is critical.
pub error_return_severity :
    (c : Context)
    → c.requirement.failure_sink ≡ FailureSinkKind.error_return
    → All
        (λ f. (f.support_impact ≡ SupportLevel.supported) ⊎ (f.severity ≢ Severity.critical))
        (analyze c).findings
unfolding settle
error_return_severity c returns =
    analyze-All
      (λ f. (f.support_impact ≡ SupportLevel.supported) ⊎ (f.severity ≢ Severity.critical)) c
      (λ f h. ground arith)
