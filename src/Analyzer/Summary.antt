-- ===== src/Analyzer/Summary.antt =====
-- Two runs whose rules differ in their explanations only reach the same verdict.
use runtime_code_skeptic.Base.{
  ◌≡◌, sym, ap, Bool, false, ◌||◌, List, [], ◌∷◌, ◌++◌, arith, any, All, ◌==◌,
}
use runtime_code_skeptic.Evidence.{SupportLevel, combine}
use runtime_code_skeptic.Requirement.{FailureSinkKind}
use runtime_code_skeptic.Finding.Ids
use runtime_code_skeptic.Analyzer.Engine.{
  Context, AnalysisResult, Effect, settle, emit, perform, perform_all, established_impossibility,
  already_emitted,
}
use runtime_code_skeptic.Analyzer.Run.{Rule, apply_rules}
use runtime_code_skeptic.Analyzer.Effects.{effect_level, perform-overall}

-- What a list of effects does to the verdict and to the two facts that later rules read.
abbrev pub level : List Effect → SupportLevel
level [] = SupportLevel.supported
level (e ∷ es) = combine (effect_level e) (level es)

abbrev pub is_structural : Effect → Bool
is_structural (Effect.emits f) = f.structural_impossibility
is_structural _ = false

abbrev pub is_relocation : Effect → Bool
is_relocation (Effect.emits f) = f.id == Ids.hinted_mapping_may_relocate
is_relocation _ = false

-- Two lists of effects that differ in their explanations only, and two results.
abbrev pub Similar : List Effect → List Effect → Type 0
Similar es fs =
    (level es ≡ level fs)
    × (any is_structural es ≡ any is_structural fs)
    × (any is_relocation es ≡ any is_relocation fs)

-- Two lists whose effects on the verdict are the same once it is at least as bad as `u`.
abbrev pub SimilarFrom : SupportLevel → List Effect → List Effect → Type 0
SimilarFrom u es fs =
    (combine (level es) u ≡ combine (level fs) u)
    × (any is_structural es ≡ any is_structural fs)
    × (any is_relocation es ≡ any is_relocation fs)

abbrev pub AgreeFrom : SupportLevel → AnalysisResult → AnalysisResult → Type 0
AgreeFrom u r s =
    (combine r.overall u ≡ combine s.overall u)
    × (established_impossibility r ≡ established_impossibility s)
    × (already_emitted Ids.hinted_mapping_may_relocate r
        ≡ already_emitted Ids.hinted_mapping_may_relocate s)

pub Similar-SimilarFrom :
    (u : SupportLevel) (es fs : List Effect) → Similar es fs → SimilarFrom u es fs
Similar-SimilarFrom u es fs h = (ap (λ l. combine l u) h.0, h.1, h.2)

combine_assoc : (a b c : SupportLevel) → combine (combine a b) c ≡ combine a (combine b c)
unfolding combine
combine_assoc a b c = ground arith

pub combine_supported : (a : SupportLevel) → combine a SupportLevel.supported ≡ a
unfolding combine
combine_supported a = ground arith

any-append_one {ℓ} :
    {A : Type ℓ} (p : A → Bool) (xs : List A) (a : A) → any p (xs ++ (a ∷ [])) ≡ any p xs || p a
any-append_one p [] a = ground arith
any-append_one p (x ∷ xs) a = ground (arith, any-append_one p xs a)

perform-established :
    (sink : FailureSinkKind) (e : Effect) (r : AnalysisResult)
    → established_impossibility (perform sink e r) ≡ established_impossibility r || is_structural e
unfolding perform emit settle established_impossibility
perform-established sink (Effect.emits f) r =
    any-append_one (λ f. f.structural_impossibility) r.findings (settle sink f)
perform-established sink (Effect.satisfies e) r = ground arith
perform-established sink (Effect.raises l) r = ground arith
perform-established sink (Effect.limits l) r = ground arith

perform-emitted :
    (sink : FailureSinkKind) (e : Effect) (r : AnalysisResult)
    → already_emitted Ids.hinted_mapping_may_relocate (perform sink e r)
      ≡ already_emitted Ids.hinted_mapping_may_relocate r || is_relocation e
unfolding perform emit settle already_emitted
perform-emitted sink (Effect.emits f) r =
    any-append_one (λ f. f.id == Ids.hinted_mapping_may_relocate) r.findings (settle sink f)
perform-emitted sink (Effect.satisfies e) r = ground arith
perform-emitted sink (Effect.raises l) r = ground arith
perform-emitted sink (Effect.limits l) r = ground arith

perform_all-summary :
    (sink : FailureSinkKind) (es : List Effect) (r : AnalysisResult)
    → ((perform_all sink es r).overall ≡ combine r.overall (level es))
      × (established_impossibility (perform_all sink es r)
          ≡ established_impossibility r || any is_structural es)
      × (already_emitted Ids.hinted_mapping_may_relocate (perform_all sink es r)
          ≡ already_emitted Ids.hinted_mapping_may_relocate r || any is_relocation es)
unfolding perform_all
perform_all-summary sink [] r = (sym (combine_supported r.overall), ground arith, ground arith)
perform_all-summary sink (e ∷ es) r =
    let (verdict, structural, relocation) = perform_all-summary sink es (perform sink e r) in
    (
      cc (verdict, perform-overall sink e r, combine_assoc r.overall (effect_level e) (level es)),
      ground (arith, structural, perform-established sink e r),
      ground (arith, relocation, perform-emitted sink e r),
    )

combine_joined :
    (u a b x y : SupportLevel)
    → combine a u ≡ combine b u
    → combine x u ≡ combine y u
    → combine (combine a x) u ≡ combine (combine b y) u
unfolding combine
combine_joined u a b x y h k = ground arith

perform_all-AgreeFrom :
    (u : SupportLevel) (sink other : FailureSinkKind) (es fs : List Effect) (r s : AnalysisResult)
    → SimilarFrom u es fs
    → AgreeFrom u r s
    → AgreeFrom u (perform_all sink es r) (perform_all other fs s)
perform_all-AgreeFrom u sink other es fs r s (v, p, q) (v', p', q') =
    let (verdict, structural, relocation) = perform_all-summary sink es r in
    let (verdict', structural', relocation') = perform_all-summary other fs s in
    (
      rw (verdict, verdict') (combine_joined u r.overall s.overall (level es) (level fs) v' v),
      ground arith,
      ground arith,
    )

pub apply_rules-AgreeFrom :
    (u : SupportLevel) (c d : Context) (rs : List Rule) (r s : AnalysisResult)
    → All
        (λ rule. (r s : AnalysisResult) → AgreeFrom u r s → SimilarFrom u (rule c r) (rule d s))
        rs
    → AgreeFrom u r s
    → AgreeFrom u (apply_rules c rs r) (apply_rules d rs s)
unfolding apply_rules
apply_rules-AgreeFrom u c d [] r s hs h = h
apply_rules-AgreeFrom u c d (rule ∷ rs) r s hs h =
    apply_rules-AgreeFrom u c d rs (perform_all c.requirement.failure_sink (rule c r) r)
      (perform_all d.requirement.failure_sink (rule d s) s) hs.1
      (perform_all-AgreeFrom u c.requirement.failure_sink d.requirement.failure_sink (rule c r)
        (rule d s) r s (hs.0 r s h) h)
