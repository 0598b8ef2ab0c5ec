-- ===== src/Fact.antt =====
-- include/runtimeskeptic/core/fact.hpp: a value that knows how it came to be known. The source
-- and the note of a fact are prose and are left out. `value()` is only read after `is_known()`,
-- so the default that the class holds while it is unknown has no counterpart.
use runtime_code_skeptic.Base.{Bool, true, false}
use runtime_code_skeptic.Evidence.{EvidenceClass}

pub data Fact (A : Type 0) : Type 0 where
  established : A → EvidenceClass → Fact A
  unknown : Fact A

-- `Fact::known`: a value that is supplied with the class `Unknown` is refused.
unfoldable pub known : {A : Type 0} → A → EvidenceClass → Fact A
known value EvidenceClass.unknown = Fact.unknown
known value class = Fact.established value class

unfoldable pub is_known : {A : Type 0} → Fact A → Bool
is_known (Fact.established v e) = true
is_known Fact.unknown = false

unfoldable pub value_or : {A : Type 0} → Fact A → A → A
value_or (Fact.established v e) fallback = v
value_or Fact.unknown fallback = fallback

unfoldable pub evidence : {A : Type 0} → Fact A → EvidenceClass
evidence (Fact.established v e) = e
evidence Fact.unknown = EvidenceClass.unknown
