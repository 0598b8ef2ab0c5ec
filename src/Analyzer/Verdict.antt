-- ===== src/Analyzer/Verdict.antt =====
-- The verdict of `analyze` against its findings and its rules.
use runtime_code_skeptic.Base.{
  ◌≤◌, ◌≡◌, refl, ap, ◌⊎◌, inl, inr, true, false, List, [], ◌∷◌, arith, All, All-append, All-imp,
  At, At-append_left, At-append_right, first,
}
use runtime_code_skeptic.Base.Sort.{All-sort_by, At-sort_by}
use runtime_code_skeptic.Evidence.{SupportLevel, support_rank, combine}
use runtime_code_skeptic.Finding.{Finding}
use runtime_code_skeptic.Analyzer.Engine.{
  Context, AnalysisResult, Effect, settle, emit, perform, perform_all,
}
use runtime_code_skeptic.Analyzer.Run.{
  Rule, rules, apply_rules, is_in_domain, initial_result, sort_findings, finding_before, analyze,
}
use runtime_code_skeptic.Analyzer.Effects.{
  effect_level, is_quiet, apply_rules-level, apply_rules-is_quiet,
}
use runtime_code_skeptic.Analyzer.WellFormed.{IsWellFormed, rules-IsWellFormed}

-- The verdict is as bad as every finding, and it is SUPPORTED, or the impact of some finding, or
-- UNKNOWN in a run that does not report unknowns.
pub record IsExplained (c : Context) (r : AnalysisResult) : Type 0 where
  pub worst : All (λ f. support_rank f.support_impact ≤ support_rank r.overall) r.findings
  pub attained :
      (r.overall ≡ SupportLevel.supported)
      ⊎ ((f : Finding) × At f r.findings × (f.support_impact ≡ r.overall))
      ⊎ ((r.overall ≡ SupportLevel.unknown) × (c.options.report_unknowns ≡ false))

combine-cases :
    (a b : SupportLevel)
    → ((combine a b ≡ a) × (support_rank b ≤ support_rank a))
      ⊎ ((combine a b ≡ b) × (support_rank a ≤ support_rank b))
unfolding combine
combine-cases a b = ground arith

worse :
    (a b : SupportLevel) (fs : List Finding)
    → support_rank a ≤ support_rank b
    → All (λ f. support_rank f.support_impact ≤ support_rank a) fs
    → All (λ f. support_rank f.support_impact ≤ support_rank b) fs
worse a b fs h = All-imp (λ f k. omega arith) fs

emit-IsExplained :
    (c : Context) (f : Finding) (r : AnalysisResult)
    → IsExplained c r
    → IsExplained c (emit c.requirement.failure_sink f r)
unfolding emit settle
emit-IsExplained c f r h = elim (combine-cases r.overall f.support_impact) [
  | inl (same, below) ↦ record {
    worst = rw same (All-append _ r.findings _ h.worst (below, tt));
    attained = rw same (elim h.attained [
      | inl s ↦ inl s
      | inr (inl (g, m, e)) ↦ inr (inl (g, At-append_left _ m, e))
      | inr (inr u) ↦ inr (inr u)
    ]);
  }
  | inr (new, above) ↦ record {
    worst = rw new (
        All-append _ r.findings _ (worse r.overall f.support_impact r.findings above h.worst)
          (omega arith, tt));
    attained =
        rw new
          (inr (inl (settle c.requirement.failure_sink f, At-append_right r.findings first, refl)));
  }
]

-- Raising the verdict to UNKNOWN without a finding, in a run that does not report unknowns.
raise-IsExplained :
    (c : Context) (r : AnalysisResult)
    → IsExplained c r
    → c.options.report_unknowns ≡ false
    → IsExplained c (record r { overall = combine r.overall SupportLevel.unknown })
raise-IsExplained c r h quiet = elim (combine-cases r.overall SupportLevel.unknown) [
  | inl (same, below) ↦ record { worst = rw same h.worst; attained = rw same h.attained }
  | inr (new, above) ↦ record {
    worst = rw new (worse r.overall SupportLevel.unknown r.findings above h.worst);
    attained = rw new (inr (inr (refl, quiet)));
  }
]

perform_all-IsExplained :
    (c : Context) (es : List Effect) (r : AnalysisResult)
    → IsExplained c r
    → IsWellFormed c es
    → IsExplained c (perform_all c.requirement.failure_sink es r)
unfolding perform_all perform
perform_all-IsExplained c [] r h w = h
perform_all-IsExplained c (Effect.emits f ∷ es) r h w =
    perform_all-IsExplained c es (emit c.requirement.failure_sink f r) (emit-IsExplained c f r h)
      (ground arith)
perform_all-IsExplained c (Effect.satisfies e ∷ es) r h w =
    perform_all-IsExplained c es (perform c.requirement.failure_sink (Effect.satisfies e) r)
      (record { worst = h.worst; attained = h.attained }) w
perform_all-IsExplained c (Effect.raises SupportLevel.unknown ∷ es) r h w =
    perform_all-IsExplained c es
      (perform c.requirement.failure_sink (Effect.raises SupportLevel.unknown) r)
      (raise-IsExplained c r h (ground arith)) (ground arith)
perform_all-IsExplained c (Effect.raises level ∷ es) r h w = absurd (cc)
perform_all-IsExplained c (Effect.limits l ∷ es) r h w =
    perform_all-IsExplained c es (perform c.requirement.failure_sink (Effect.limits l) r)
      (record { worst = h.worst; attained = h.attained }) w

apply_rules-IsExplained :
    (c : Context) (rs : List Rule) (r : AnalysisResult)
    → IsExplained c r
    → All (λ rule. (s : AnalysisResult) → IsWellFormed c (rule c s)) rs
    → IsExplained c (apply_rules c rs r)
unfolding apply_rules
apply_rules-IsExplained c [] r h ws = h
apply_rules-IsExplained c (rule ∷ rs) r h ws =
    apply_rules-IsExplained c rs (perform_all c.requirement.failure_sink (rule c r) r)
      (perform_all-IsExplained c (rule c r) r h (ws.0 r)) ws.1

initial-IsExplained : (c : Context) → IsExplained c (initial_result c)
unfolding initial_result
initial-IsExplained c = record { worst = tt; attained = inl refl }

sort_findings-IsExplained :
    (c : Context) (r : AnalysisResult) → IsExplained c r → IsExplained c (sort_findings r)
unfolding sort_findings
sort_findings-IsExplained c r h = record {
  worst = All-sort_by finding_before _ r.findings h.worst;
  attained = elim h.attained [
    | inl s ↦ inl s
    | inr (inl (f, m, e)) ↦ inr (inl (f, At-sort_by finding_before r.findings m, e))
    | inr (inr u) ↦ inr (inr u)
  ];
}

-- The verdict of an operation in the domain is the worst impact among the findings: no finding is
-- worse than it, and unless it is SUPPORTED some finding has exactly that impact, or the run does
-- not report unknowns and the verdict is UNKNOWN.
pub verdict-IsExplained :
    (c : Context) → is_in_domain c.requirement.operation ≡ true → IsExplained c (analyze c)
unfolding analyze
verdict-IsExplained c h = rw h (
    sort_findings-IsExplained c (apply_rules c rules (initial_result c)) (
      apply_rules-IsExplained c rules (initial_result c) (initial-IsExplained c)
        (rules-IsWellFormed c)))

-- Each rule is quiet where it ran, if the verdict is SUPPORTED.
pub analyze-is_quiet :
    (c : Context)
    → is_in_domain c.requirement.operation ≡ true
    → (analyze c).overall ≡ SupportLevel.supported
    → {rule : Rule} → At rule rules
    → (s : AnalysisResult) × (is_quiet (rule c s) ≡ true)
unfolding analyze
analyze-is_quiet c domain h m = apply_rules-is_quiet c rules (initial_result c) (rw domain at h) m

-- The verdict is at least as bad as every effect that a rule has in whatever state it runs.
pub analyze-level :
    (c : Context)
    → is_in_domain c.requirement.operation ≡ true
    → {rule : Rule} {e : Effect} → At rule rules
    → ((s : AnalysisResult) → At e (rule c s))
    → support_rank (effect_level e) ≤ support_rank (analyze c).overall
unfolding analyze
analyze-level c domain m n = rw domain (apply_rules-level c rules (initial_result c) m n)

unsupported_of_rank : (a : SupportLevel) → 3 ≤ support_rank a → a ≡ SupportLevel.unsupported
unsupported_of_rank a h = ground arith

pub analyze-unsupported :
    (c : Context)
    → is_in_domain c.requirement.operation ≡ true
    → {rule : Rule} {e : Effect} → At rule rules
    → ((s : AnalysisResult) → At e (rule c s))
    → effect_level e ≡ SupportLevel.unsupported
    → (analyze c).overall ≡ SupportLevel.unsupported
analyze-unsupported c domain m n h =
    unsupported_of_rank (analyze c).overall
      (omega (arith, analyze-level c domain m n, ap support_rank h))
