-- ===== src/Evidence/Order.antt =====
-- The ladders of src/core/evidence.cpp as orders: what clamping, combining and the weakest class
-- of a chain do.
use runtime_code_skeptic.Base.{◌≤◌, max, ◌≡◌, refl, ◌⊎◌, [], ◌∷◌, ◌++◌, arith, At, first, later}
use runtime_code_skeptic.Evidence.{
  EvidenceClass, Confidence, SupportLevel, Layer, EvidenceStep, EvidenceChain, class_rank,
  confidence_rank, support_rank, weakest, confidence_ceiling, clamp_confidence, combine, add,
  weakest_from, weakest_class,
}

pub class_rank-injective : (a b : EvidenceClass) → class_rank a ≡ class_rank b → a ≡ b
class_rank-injective a b h = ground arith

pub support_rank-injective : (a b : SupportLevel) → support_rank a ≡ support_rank b → a ≡ b
support_rank-injective a b h = ground arith

pub class_rank-weakest :
    (a b : EvidenceClass) → class_rank (weakest a b) ≡ max (class_rank a) (class_rank b)
unfolding weakest
class_rank-weakest a b = ground arith

pub support_rank-combine :
    (a b : SupportLevel) → support_rank (combine a b) ≡ max (support_rank a) (support_rank b)
unfolding combine
support_rank-combine a b = ground arith

-- A weaker fact never has a stronger ceiling: the order of the evidence classes agrees with the
-- order of the ceilings.
pub confidence_ceiling_mono :
    (a b : EvidenceClass)
    → class_rank a ≤ class_rank b
    → confidence_rank (confidence_ceiling a) ≤ confidence_rank (confidence_ceiling b)
unfolding confidence_ceiling
confidence_ceiling_mono a b h = ground arith

pub confidence_rank-clamp :
    (d : Confidence) (w : EvidenceClass)
    → confidence_rank (clamp_confidence d w)
      ≡ max (confidence_rank d) (confidence_rank (confidence_ceiling w))
unfolding clamp_confidence
confidence_rank-clamp d w = ground arith

pub combine_eq_supported :
    (a b : SupportLevel)
    → combine a b ≡ SupportLevel.supported
    → (a ≡ SupportLevel.supported) × (b ≡ SupportLevel.supported)
unfolding combine
combine_eq_supported a b h = ground arith

pub combine_eq_unsupported :
    (a b : SupportLevel)
    → combine a b ≡ SupportLevel.unsupported
    → (a ≡ SupportLevel.unsupported) ⊎ (b ≡ SupportLevel.unsupported)
unfolding combine
combine_eq_unsupported a b h = ground arith

weakest_from-ge :
    (w : EvidenceClass) (c : EvidenceChain) → class_rank w ≤ class_rank (weakest_from w c)
unfolding weakest_from
weakest_from-ge w [] = omega arith
weakest_from-ge w (s ∷ c) =
    omega (arith, class_rank-weakest w s.evidence, weakest_from-ge (weakest w s.evidence) c)

weakest_from-ge-At :
    (w : EvidenceClass) (c : EvidenceChain) {s : EvidenceStep}
    → At s c
    → class_rank s.evidence ≤ class_rank (weakest_from w c)
unfolding weakest_from
weakest_from-ge-At w [] m = elim m [ ]
weakest_from-ge-At w (s ∷ c) first =
    omega (arith, class_rank-weakest w s.evidence, weakest_from-ge (weakest w s.evidence) c)
weakest_from-ge-At w (t ∷ c) (later m) = weakest_from-ge-At (weakest w t.evidence) c m

-- The weakest class of a chain is at least as weak as every step of the chain.
pub weakest_class-ge :
    (c : EvidenceChain) {s : EvidenceStep}
    → At s c
    → class_rank s.evidence ≤ class_rank (weakest_class c)
unfolding weakest_class
weakest_class-ge [] m = elim m [ ]
weakest_class-ge (t ∷ c) m = weakest_from-ge-At EvidenceClass.specified_guarantee (t ∷ c) m

weakest_from-append :
    (w : EvidenceClass) (c : EvidenceChain) (s : EvidenceStep)
    → weakest_from w (c ++ (s ∷ [])) ≡ weakest (weakest_from w c) s.evidence
unfolding weakest_from
weakest_from-append w [] s = refl
weakest_from-append w (t ∷ c) s = weakest_from-append (weakest w t.evidence) c s

-- Adding a step to a non-empty chain never makes its weakest class stronger, and the weakest
-- class is then exactly the weaker of the old one and the new step's.
pub weakest_class-add :
    (t : EvidenceStep) (c : EvidenceChain) (l : Layer) (e : EvidenceClass)
    → weakest_class (add (t ∷ c) l e) ≡ weakest (weakest_class (t ∷ c)) e
unfolding weakest_class add
weakest_class-add t c l e =
    weakest_from-append EvidenceClass.specified_guarantee (t ∷ c)
      (record { layer = l; evidence = e })
