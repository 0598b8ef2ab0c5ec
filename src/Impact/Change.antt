-- ===== src/Impact/Change.antt =====
-- What the change of a contract says of its requirements.
use runtime_code_skeptic.Base.{
  ℕ, suc, ◌<◌, ◌≡◌, ◌≢◌, ◌↔◌, ◌⊎◌, inl, inr, refl, List, [], ◌∷◌, ◌++◌, arith, All, At, first,
  later,
}
use runtime_code_skeptic.Evidence.{SupportLevel, support_rank}
use runtime_code_skeptic.Profile.{EnvironmentProfile}
use runtime_code_skeptic.Requirement.{Requirement}
use runtime_code_skeptic.Analyzer.Engine.{AnalysisOptions}
use runtime_code_skeptic.Analyzer.Run.{analyze}
use runtime_code_skeptic.Impact.{
  VerdictChange, classify, louder, ContractImpact, requirement_impact, compare_from,
  compare_contract,
}

classify-regressed :
    (a b : SupportLevel)
    → (classify a b ≡ VerdictChange.regressed) ↔ (support_rank a < support_rank b)
unfolding classify
classify-regressed a b = ground arith

classify-unchanged :
    (a b : SupportLevel)
    → (classify a b ≡ VerdictChange.unchanged) ↔ ((a ≡ b) × (a ≢ SupportLevel.unknown))
unfolding classify
classify-unchanged a b = ground arith

louder-regressed :
    (c d : VerdictChange)
    → (louder c d ≡ VerdictChange.regressed)
      ↔ ((c ≡ VerdictChange.regressed) ⊎ (d ≡ VerdictChange.regressed))
unfolding louder
louder-regressed c d = ground arith

louder-unchanged :
    (c d : VerdictChange)
    → (louder c d ≡ VerdictChange.unchanged)
      ↔ ((c ≡ VerdictChange.unchanged) × (d ≡ VerdictChange.unchanged))
unfolding louder
louder-unchanged c d = ground arith

module _ (options : AnalysisOptions) (before after : EnvironmentProfile) where
  -- The verdict of a requirement on a host.
  abbrev pub overall_on : EnvironmentProfile → Requirement → SupportLevel
  overall_on profile requirement =
      (analyze (record { requirement = requirement; profile = profile; options = options })).overall

  abbrev pub Worsens : Requirement → Type 0
  Worsens r = support_rank (overall_on before r) < support_rank (overall_on after r)

  abbrev pub Stays : Requirement → Type 0
  Stays r =
      (overall_on before r ≡ overall_on after r) × (overall_on before r ≢ SupportLevel.unknown)

  compare_from-regressed :
      (i : ℕ) (rs : List Requirement) (out : ContractImpact)
      → ((compare_from options before after i rs out).change ≡ VerdictChange.regressed)
        ↔ ((out.change ≡ VerdictChange.regressed) ⊎ ((r : Requirement) × At r rs × Worsens r))
  unfolding compare_from requirement_impact
  compare_from-regressed i [] out = (λ h. inl h, elim [ inl h ↦ h | inr (r, m, w) ↦ elim m [ ] ])
  compare_from-regressed i (r ∷ rs) out =
      let out' : ContractImpact = record {
        requirements = out.requirements ++ (requirement_impact options before after i r ∷ []);
        change = louder out.change (classify (overall_on before r) (overall_on after r));
      } in
      let ih = compare_from-regressed (suc i) rs out' in
      let here = classify-regressed (overall_on before r) (overall_on after r) in
      let both =
        louder-regressed out.change (classify (overall_on before r) (overall_on after r)) in
      (
        λ h. elim (ih.0 h) [
          | inl e ↦ elim (both.0 e) [ inl o ↦ inl o | inr c ↦ inr (r, first, here.0 c) ]
          | inr (s, m, w) ↦ inr (s, later m, w)
        ],
        elim [
          | inl o ↦ ih.1 (inl (both.1 (inl o)))
          | inr (s, first, w) ↦ ih.1 (inl (both.1 (inr (here.1 w))))
          | inr (s, later m, w) ↦ ih.1 (inr (s, m, w))
        ],
      )

  compare_from-unchanged :
      (i : ℕ) (rs : List Requirement) (out : ContractImpact)
      → ((compare_from options before after i rs out).change ≡ VerdictChange.unchanged)
        ↔ ((out.change ≡ VerdictChange.unchanged) × All Stays rs)
  unfolding compare_from requirement_impact
  compare_from-unchanged i [] out = (λ h. (h, tt), λ h. h.0)
  compare_from-unchanged i (r ∷ rs) out =
      let out' : ContractImpact = record {
        requirements = out.requirements ++ (requirement_impact options before after i r ∷ []);
        change = louder out.change (classify (overall_on before r) (overall_on after r));
      } in
      let ih = compare_from-unchanged (suc i) rs out' in
      let here = classify-unchanged (overall_on before r) (overall_on after r) in
      let both =
        louder-unchanged out.change (classify (overall_on before r) (overall_on after r)) in
      (
        λ h. let (e, rest) = ih.0 h in let (o, c) = both.0 e in (o, (here.0 c, rest)),
        λ (o, (w, rest)). ih.1 (both.1 (o, here.1 w), rest),
      )

-- A contract has regressed exactly when the verdict of one of its requirements is worse on the
-- second host than on the first: no improvement of another requirement hides it.
pub contract_regressed_iff :
    (options : AnalysisOptions) (before after : EnvironmentProfile) (rs : List Requirement)
    → ((compare_contract options before after rs).change ≡ VerdictChange.regressed)
      ↔ ((r : Requirement) × At r rs × Worsens options before after r)
unfolding compare_contract
contract_regressed_iff options before after [] = (λ h. absurd (cc), λ (r, m, w). elim m [ ])
contract_regressed_iff options before after (r ∷ rs) =
    let all =
      compare_from-regressed options before after 0 (r ∷ rs)
        (record { requirements = []; change = VerdictChange.unchanged }) in
    (λ h. elim (all.0 h) [ inl e ↦ absurd (cc) | inr found ↦ found ], λ found. all.1 (inr found))

-- A contract is unchanged exactly when it has a requirement, and each of its requirements has the
-- same verdict on both hosts, which is not UNKNOWN.
pub contract_unchanged_iff :
    (options : AnalysisOptions) (before after : EnvironmentProfile) (rs : List Requirement)
    → ((compare_contract options before after rs).change ≡ VerdictChange.unchanged)
      ↔ ((rs ≢ []) × All (Stays options before after) rs)
unfolding compare_contract
contract_unchanged_iff options before after [] = (λ h. absurd (cc), λ h. absurd (h.0 refl))
contract_unchanged_iff options before after (r ∷ rs) =
    let all =
      compare_from-unchanged options before after 0 (r ∷ rs)
        (record { requirements = []; change = VerdictChange.unchanged }) in
    (λ h. (λ e. cc, (all.0 h).1), λ h. all.1 (refl, h.1))
