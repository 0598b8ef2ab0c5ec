-- ===== src/Analyzer/Sorted.antt =====
-- The order in which `Analysis::run` of src/vm/analyzer.cpp reports the findings.
use mathlib.Core.List.{Perm}
use mathlib.Core.Path.{subst}
use runtime_code_skeptic.Base.{
  ℕ, zero, suc, ◌≤◌, ◌<◌, ◌≡◌, ◌⊎◌, inl, inr, refl, sym, Bool, true, false, not, ltb, ◌==◌,
  if◌then◌else◌, List, [], ◌∷◌, arith, At, first, later, Pairwise, Pairwise-imp,
}
use runtime_code_skeptic.Base.Sort.{sort_by, sort_by-IsSorted, sort_by-perm, Ordered}
use runtime_code_skeptic.Evidence.{Confidence, Severity, confidence_rank, severity_rank}
use runtime_code_skeptic.Finding.{Finding}
use runtime_code_skeptic.Analyzer.Engine.{Context}
use runtime_code_skeptic.Analyzer.Run.{
  rules, apply_rules, is_in_domain, initial_result, finding_before, analyze,
}

-- `a` stands before `b` in the list.
pub data Precedes {A : Type 0} (a b : A) : List A → Type 0 where
  here : {xs : List A} → At b xs → Precedes a b (a ∷ xs)
  there : {x : A} {xs : List A} → Precedes a b xs → Precedes a b (x ∷ xs)

abbrev pub severities : List Severity
severities = Severity.critical ∷ Severity.high ∷ Severity.medium ∷ Severity.low ∷ Severity.info ∷ []

abbrev pub confidences : List Confidence
confidences =
    Confidence.proven ∷ Confidence.counterexample ∷ Confidence.observed_invariant
    ∷ Confidence.predictive ∷ Confidence.hypothesis ∷ []

-- The order of the report: the more severe finding first, of equally severe ones the one of the stronger
-- confidence, and of those the one with the smaller id.
abbrev pub IsReportedBefore : Finding → Finding → Type 0
IsReportedBefore f g =
    Precedes f.severity g.severity severities
    ⊎ ((f.severity ≡ g.severity)
        × (Precedes f.confidence g.confidence confidences
            ⊎ ((f.confidence ≡ g.confidence) × (f.id ≤ g.id))))

-- `a` stands at the place `i` of the list.
abbrev IsAt : {A : Type 0} → A → ℕ → List A → Type 0
IsAt a i [] = ⊥
IsAt a zero (x ∷ xs) = x ≡ a
IsAt a (suc i) (x ∷ xs) = IsAt a i xs

At-of_IsAt : {A : Type 0} (a : A) (i : ℕ) (xs : List A) → IsAt a i xs → At a xs
At-of_IsAt a i [] h = absurd h
At-of_IsAt a zero (x ∷ xs) h = subst (λ y. At a (y ∷ xs)) (sym h) first
At-of_IsAt a (suc i) (x ∷ xs) h = later (At-of_IsAt a i xs h)

IsAt-Precedes :
    {A : Type 0} (a b : A) (i j : ℕ) (xs : List A)
    → IsAt a i xs
    → IsAt b j xs
    → i < j
    → Precedes a b xs
IsAt-Precedes a b i j [] h k lt = absurd h
IsAt-Precedes a b i zero (x ∷ xs) h k lt = absurd (omega arith)
IsAt-Precedes a b zero (suc j) (x ∷ xs) h k lt =
    subst (λ y. Precedes a b (y ∷ xs)) (sym h) (here (At-of_IsAt b j xs k))
IsAt-Precedes a b (suc i) (suc j) (x ∷ xs) h k lt =
    there (IsAt-Precedes a b i j xs h k (omega arith))

severity_rank-IsAt : (a : Severity) → IsAt a (severity_rank a) severities
severity_rank-IsAt Severity.critical = refl
severity_rank-IsAt Severity.high = refl
severity_rank-IsAt Severity.medium = refl
severity_rank-IsAt Severity.low = refl
severity_rank-IsAt Severity.info = refl

confidence_rank-IsAt : (a : Confidence) → IsAt a (confidence_rank a) confidences
confidence_rank-IsAt Confidence.proven = refl
confidence_rank-IsAt Confidence.counterexample = refl
confidence_rank-IsAt Confidence.observed_invariant = refl
confidence_rank-IsAt Confidence.predictive = refl
confidence_rank-IsAt Confidence.hypothesis = refl

-- The order of the three numbers by which findings are compared.
abbrev lex_before : ℕ → ℕ → ℕ → ℕ → ℕ → ℕ → Bool
lex_before s t u s' t' u' =
    if not (s == s') then ltb s s' else if not (t == t') then ltb t t' else ltb u u'

lex_trans :
    (s t u s' t' u' s'' t'' u'' : ℕ)
    → lex_before s' t' u' s t u ≡ false
    → lex_before s'' t'' u'' s' t' u' ≡ false
    → lex_before s'' t'' u'' s t u ≡ false
lex_trans s t u s' t' u' s'' t'' u'' h k = ground arith

lex_asym :
    (s t u s' t' u' : ℕ) → lex_before s t u s' t' u' ≡ true → lex_before s' t' u' s t u ≡ false
lex_asym s t u s' t' u' h = ground arith

finding_before_trans :
    (x y z : Finding)
    → Ordered finding_before x y
    → Ordered finding_before y z
    → Ordered finding_before x z
unfolding finding_before
finding_before_trans x y z h k =
    lex_trans (severity_rank x.severity) (confidence_rank x.confidence) x.id
      (severity_rank y.severity) (confidence_rank y.confidence) y.id (severity_rank z.severity)
      (confidence_rank z.confidence) z.id h k

finding_before-asym : (x y : Finding) → finding_before x y ≡ true → finding_before y x ≡ false
unfolding finding_before
finding_before-asym x y h =
    lex_asym (severity_rank x.severity) (confidence_rank x.confidence) x.id
      (severity_rank y.severity) (confidence_rank y.confidence) y.id h

severity_rank-Precedes :
    (a b : Severity) → severity_rank a < severity_rank b → Precedes a b severities
severity_rank-Precedes a b h =
    IsAt-Precedes a b (severity_rank a) (severity_rank b) severities (severity_rank-IsAt a)
      (severity_rank-IsAt b) h

confidence_rank-Precedes :
    (a b : Confidence) → confidence_rank a < confidence_rank b → Precedes a b confidences
confidence_rank-Precedes a b h =
    IsAt-Precedes a b (confidence_rank a) (confidence_rank b) confidences (confidence_rank-IsAt a)
      (confidence_rank-IsAt b) h

severity_rank-injective : (a b : Severity) → severity_rank a ≡ severity_rank b → a ≡ b
severity_rank-injective a b h = ground arith

confidence_rank-injective : (a b : Confidence) → confidence_rank a ≡ confidence_rank b → a ≡ b
confidence_rank-injective a b h = ground arith

lex_ordered :
    (s t u s' t' u' : ℕ)
    → lex_before s' t' u' s t u ≡ false
    → (s < s') ⊎ ((s ≡ s') × ((t < t') ⊎ ((t ≡ t') × (u ≤ u'))))
lex_ordered s t u s' t' u' h = ground arith

Ordered-IsReportedBefore : (f g : Finding) → Ordered finding_before f g → IsReportedBefore f g
unfolding finding_before
Ordered-IsReportedBefore f g h =
    elim (lex_ordered (severity_rank f.severity) (confidence_rank f.confidence) f.id
      (severity_rank g.severity) (confidence_rank g.confidence) g.id h) [
        | inl severe ↦ inl (severity_rank-Precedes f.severity g.severity severe)
        | inr (same, inl strong) ↦ inr (
          severity_rank-injective f.severity g.severity same,
          inl (confidence_rank-Precedes f.confidence g.confidence strong),
        )
        | inr (same, inr (equal, id)) ↦ inr (
          severity_rank-injective f.severity g.severity same,
          inr (confidence_rank-injective f.confidence g.confidence equal, id),
        )
      ]

-- The findings about an operation in the domain are reported critical ones first, then high, medium, low and
-- informational ones, equally severe ones from PROVEN down, and those by id: this holds of any two findings of
-- the report, and the report is a permutation of the findings that the rules emitted.
pub findings-IsSorted :
    (c : Context)
    → is_in_domain c.requirement.operation ≡ true
    → Pairwise IsReportedBefore (analyze c).findings
      × Perm (analyze c).findings (apply_rules c rules (initial_result c)).findings
unfolding analyze
findings-IsSorted c h = rw h (
  Pairwise-imp Ordered-IsReportedBefore
      (sort_by finding_before (apply_rules c rules (initial_result c)).findings)
      (sort_by-IsSorted finding_before finding_before_trans finding_before-asym
        (apply_rules c rules (initial_result c)).findings),
  sort_by-perm finding_before (apply_rules c rules (initial_result c)).findings,
)
