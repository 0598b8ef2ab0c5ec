-- ===== src/Analyzer/Effects.antt =====
-- What performing effects and applying rules does to the verdict and to the findings.
use runtime_code_skeptic.Base.{
  ◌≤◌, ◌≡◌, refl, sym, ap, ◌∙◌, Bool, true, false, List, [], ◌∷◌, arith, all, All, All-append, At,
  first, later,
}
use runtime_code_skeptic.Evidence.{SupportLevel, support_rank, combine}
use runtime_code_skeptic.Evidence.Order.{
  support_rank-combine, support_rank-injective, combine_eq_supported,
}
use runtime_code_skeptic.Requirement.{FailureSinkKind}
use runtime_code_skeptic.Finding.{Finding}
use runtime_code_skeptic.Analyzer.Engine.{
  Context, AnalysisResult, Effect, settle, emit, perform, perform_all, is_supported,
}
use runtime_code_skeptic.Analyzer.Run.{Rule, apply_rules}

-- The level that an effect brings to the verdict.
abbrev pub effect_level : Effect → SupportLevel
effect_level (Effect.emits f) = f.support_impact
effect_level (Effect.satisfies e) = SupportLevel.supported
effect_level (Effect.raises level) = level
effect_level (Effect.limits l) = SupportLevel.supported

-- Whether no effect of the list speaks against support.
abbrev pub is_quiet : List Effect → Bool
is_quiet = all (λ e. is_supported (effect_level e))

abbrev pub is_raise : Effect → Bool
is_raise (Effect.raises level) = true
is_raise e = false

pub perform-overall :
    (sink : FailureSinkKind) (e : Effect) (r : AnalysisResult)
    → (perform sink e r).overall ≡ combine r.overall (effect_level e)
unfolding perform combine
perform-overall sink (Effect.emits f) r = refl
perform-overall sink (Effect.satisfies e) r = ground arith
perform-overall sink (Effect.raises level) r = refl
perform-overall sink (Effect.limits l) r = ground arith

-- Effects only ever make the verdict worse.
pub perform_all-rank :
    (sink : FailureSinkKind) (es : List Effect) (r : AnalysisResult)
    → support_rank r.overall ≤ support_rank (perform_all sink es r).overall
unfolding perform_all
perform_all-rank sink [] r = omega arith
perform_all-rank sink (e ∷ es) r = omega (
  arith,
  perform_all-rank sink es (perform sink e r),
  ap support_rank (perform-overall sink e r),
  support_rank-combine r.overall (effect_level e),
)

pub perform_all-is_quiet :
    (sink : FailureSinkKind) (es : List Effect) (r : AnalysisResult)
    → (perform_all sink es r).overall ≡ SupportLevel.supported
    → (r.overall ≡ SupportLevel.supported) × (is_quiet es ≡ true)
unfolding perform_all
perform_all-is_quiet sink [] r h = (h, refl)
perform_all-is_quiet sink (e ∷ es) r h =
    let (before, rest) = perform_all-is_quiet sink es (perform sink e r) h in
    let both =
      combine_eq_supported r.overall (effect_level e) (sym (perform-overall sink e r) ∙ before) in
    (both.0, rw both.1 rest)

pub apply_rules-rank :
    (c : Context) (rs : List Rule) (r : AnalysisResult)
    → support_rank r.overall ≤ support_rank (apply_rules c rs r).overall
unfolding apply_rules
apply_rules-rank c [] r = omega arith
apply_rules-rank c (rule ∷ rs) r = omega (
  arith,
  perform_all-rank c.requirement.failure_sink (rule c r) r,
  apply_rules-rank c rs (perform_all c.requirement.failure_sink (rule c r) r),
)

-- If the verdict of a run is SUPPORTED, each rule was quiet where it ran, and every state was
-- SUPPORTED.
pub apply_rules-is_quiet :
    (c : Context) (rs : List Rule) (r : AnalysisResult)
    → (apply_rules c rs r).overall ≡ SupportLevel.supported
    → {rule : Rule} → At rule rs
    → (s : AnalysisResult) × (is_quiet (rule c s) ≡ true)
unfolding apply_rules
apply_rules-is_quiet c [] r h m = elim m [ ]
apply_rules-is_quiet c (rule ∷ rs) r h first =
    let after = perform_all c.requirement.failure_sink (rule c r) r in
    let reached : after.overall ≡ SupportLevel.supported =
      support_rank-injective after.overall SupportLevel.supported
        (omega (arith, apply_rules-rank c rs after, ap support_rank h)) in
    (r, (perform_all-is_quiet c.requirement.failure_sink (rule c r) r reached).1)
apply_rules-is_quiet c (rule ∷ rs) r h (later m) =
    apply_rules-is_quiet c rs (perform_all c.requirement.failure_sink (rule c r) r) h m

-- An effect of the list stays in the verdict.
pub perform_all-level :
    (sink : FailureSinkKind) (es : List Effect) (r : AnalysisResult) {e : Effect}
    → At e es
    → support_rank (effect_level e) ≤ support_rank (perform_all sink es r).overall
unfolding perform_all
perform_all-level sink [] r m = elim m [ ]
perform_all-level sink (e ∷ es) r first = omega (
  arith,
  perform_all-rank sink es (perform sink e r),
  ap support_rank (perform-overall sink e r),
  support_rank-combine r.overall (effect_level e),
)
perform_all-level sink (d ∷ es) r (later m) = perform_all-level sink es (perform sink d r) m

-- The verdict is at least as bad as every effect that a rule has in whatever state it runs.
pub apply_rules-level :
    (c : Context) (rs : List Rule) (r : AnalysisResult) {rule : Rule} {e : Effect}
    → At rule rs
    → ((s : AnalysisResult) → At e (rule c s))
    → support_rank (effect_level e) ≤ support_rank (apply_rules c rs r).overall
unfolding apply_rules
apply_rules-level c [] r m n = elim m [ ]
apply_rules-level c (rule ∷ rs) r first n = omega (
  arith,
  perform_all-level c.requirement.failure_sink (rule c r) r (n r),
  apply_rules-rank c rs (perform_all c.requirement.failure_sink (rule c r) r),
)
apply_rules-level c (rule ∷ rs) r (later m) n =
    apply_rules-level c rs (perform_all c.requirement.failure_sink (rule c r) r) m n

-- The findings of a run: what holds of every settled finding of every rule holds of them all.
module _ (P : Finding → Type 0) (c : Context) where
  -- What the property says of one effect.
  abbrev pub Emitted : Effect → Type 0
  Emitted (Effect.emits f) = P (settle c.requirement.failure_sink f)
  Emitted e = Unit

  pub perform_all-All :
      (es : List Effect) (r : AnalysisResult)
      → All P r.findings
      → All Emitted es
      → All P (perform_all c.requirement.failure_sink es r).findings
  unfolding perform_all perform emit
  perform_all-All [] r h hs = h
  perform_all-All (Effect.emits f ∷ es) r h hs =
      perform_all-All es (perform c.requirement.failure_sink (Effect.emits f) r)
        (All-append P r.findings (settle c.requirement.failure_sink f ∷ []) h (hs.0, tt)) hs.1
  perform_all-All (Effect.satisfies e ∷ es) r h hs =
      perform_all-All es (perform c.requirement.failure_sink (Effect.satisfies e) r) h hs.1
  perform_all-All (Effect.raises l ∷ es) r h hs =
      perform_all-All es (perform c.requirement.failure_sink (Effect.raises l) r) h hs.1
  perform_all-All (Effect.limits l ∷ es) r h hs =
      perform_all-All es (perform c.requirement.failure_sink (Effect.limits l) r) h hs.1

  pub apply_rules-All :
      (rs : List Rule) (r : AnalysisResult)
      → All P r.findings
      → All (λ rule. (s : AnalysisResult) → All Emitted (rule c s)) rs
      → All P (apply_rules c rs r).findings
  unfolding apply_rules
  apply_rules-All [] r h hs = h
  apply_rules-All (rule ∷ rs) r h hs =
      apply_rules-All rs (perform_all c.requirement.failure_sink (rule c r) r)
        (perform_all-All (rule c r) r h (hs.0 r)) hs.1
