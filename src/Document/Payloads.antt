-- ===== src/Document/Payloads.antt =====
-- A fact that `Fact::to_json` wrote is read back by `fact_from_json` (include/runtimeskeptic/core/fact.hpp).
use runtime_code_skeptic.Base.{
  ℕ, ◌≤◌, Bool, false, [], ◌∷◌, ◌≡◌, ◌≢◌, refl, ap, ◌∙◌, some, Bytes, codes,
}
use runtime_code_skeptic.Evidence.{EvidenceClass, SupportLevel}
use runtime_code_skeptic.Evidence.Names.{evidence_table, evidence_name}
use runtime_code_skeptic.Fact
use runtime_code_skeptic.Fact.{Fact, known}
use runtime_code_skeptic.Range.{uint64_max}
use runtime_code_skeptic.Json.{Value}
use runtime_code_skeptic.Json.Hex.{from_hex-to_hex}
use runtime_code_skeptic.Document.{Failure, Outcome, ◌>>=◌, or_refuse, entry}
use runtime_code_skeptic.Document.Facts.{
  Statement, is_null, read_bool, read_uint, read_address, read_support_level, fact_from_value,
  fact_from_json, fact_to_json, encode_bool, encode_uint, encode_address, encode_support_level,
  value_of,
}

-- How the values of a fact are written and read, and that they are read back.
pub record Payload (A : Type 0) : Type 1 where
  pub encode : A → Value
  pub read : Value → Outcome A
  pub Fits : A → Type 0
  pub read_encode : (a : A) → Fits a → read (encode a) ≡ Outcome.ok a
  pub encode_null : (a : A) → is_null (encode a) ≡ false

unfoldable pub bool_payload : Payload Bool
unfolding read_bool encode_bool
bool_payload = record {
  encode = encode_bool;
  read = read_bool;
  Fits = λ b. Unit;
  read_encode = λ b h. refl;
  encode_null = λ b. refl;
}

unfoldable pub uint_payload : Payload ℕ
unfolding read_uint encode_uint
uint_payload = record {
  encode = encode_uint;
  read = read_uint;
  Fits = λ n. Unit;
  read_encode = λ n h. refl;
  encode_null = λ n. refl;
}

pub read_address-encode_address :
    (n : ℕ) → n ≤ uint64_max → read_address (encode_address n) ≡ Outcome.ok n
unfolding read_address encode_address
read_address-encode_address n h = ap (λ o. or_refuse o Failure.bad_address) (from_hex-to_hex n h)

unfoldable pub address_payload : Payload ℕ
unfolding encode_address
address_payload = record {
  encode = encode_address;
  read = read_address;
  Fits = λ n. n ≤ uint64_max;
  read_encode = read_address-encode_address;
  encode_null = λ n. refl;
}

pub read_encode_support_level :
    (s : SupportLevel) → read_support_level (encode_support_level s) ≡ Outcome.ok s
unfolding read_support_level encode_support_level
read_encode_support_level SupportLevel.supported = refl
read_encode_support_level SupportLevel.conditionally_supported = refl
read_encode_support_level SupportLevel.unknown = refl
read_encode_support_level SupportLevel.unsupported = refl

unfoldable pub support_payload : Payload SupportLevel
unfolding encode_support_level
support_payload = record {
  encode = encode_support_level;
  read = read_support_level;
  Fits = λ s. Unit;
  read_encode = λ s h. read_encode_support_level s;
  encode_null = λ s. refl;
}

-- A fact as the class keeps it: a known one has a class, and an unknown one has no source.
abbrev pub IsStatement : {A : Type 0} → Payload A → Statement A → Type 0
IsStatement p s = elim s.fact [
  | Fact.established v class ↦ (class ≢ EvidenceClass.unknown) × p.Fits v
  | Fact.unknown ↦ s.source ≡ []
]

fact_from_json-fields :
    {A : Type 0} (read : Value → Outcome A) (encode : A → Value) (fact : Fact A)
    (source note : Bytes)
    → fact_from_json read
        (some (fact_to_json encode (record { fact = fact; source = source; note = note })))
      ≡ (or_refuse
            (entry evidence_table (codes (evidence_name (Fact.evidence fact))))
            Failure.unrecognized_value
          >>= λ class. fact_from_value read class source note (value_of encode fact))
unfolding fact_from_json fact_to_json evidence_name
fact_from_json-fields read encode fact [] [] = refl
fact_from_json-fields read encode fact [] (c ∷ n) = refl
fact_from_json-fields read encode fact (c ∷ s) [] = refl
fact_from_json-fields read encode fact (c ∷ s) (d ∷ n) = refl

fact_from_value-known :
    {A : Type 0} (read : Value → Outcome A) (class : EvidenceClass) (source note : Bytes)
    (v : Value) (a : A)
    → class ≢ EvidenceClass.unknown
    → is_null v ≡ false
    → read v ≡ Outcome.ok a
    → fact_from_value read class source note v
      ≡ Outcome.ok (record { fact = Fact.established a class; source = source; note = note })
unfolding known
fact_from_value-known read EvidenceClass.unknown source note v a c n r = absurd (c refl)
fact_from_value-known read EvidenceClass.specified_guarantee source note v a c n r = rw (n, r) refl
fact_from_value-known read EvidenceClass.measured_capability source note v a c n r = rw (n, r) refl
fact_from_value-known read EvidenceClass.statically_inferred source note v a c n r = rw (n, r) refl
fact_from_value-known read EvidenceClass.bounded_counterexample source note v a c n r =
    rw (n, r) refl
fact_from_value-known read EvidenceClass.observed_invariant source note v a c n r = rw (n, r) refl
fact_from_value-known read EvidenceClass.heuristic_risk source note v a c n r = rw (n, r) refl

pub class_read :
    (class : EvidenceClass)
    → or_refuse (entry evidence_table (codes (evidence_name class))) Failure.unrecognized_value
      ≡ Outcome.ok class
unfolding entry evidence_name
class_read EvidenceClass.unknown = refl
class_read EvidenceClass.specified_guarantee = refl
class_read EvidenceClass.measured_capability = refl
class_read EvidenceClass.statically_inferred = refl
class_read EvidenceClass.bounded_counterexample = refl
class_read EvidenceClass.observed_invariant = refl
class_read EvidenceClass.heuristic_risk = refl

fact_read :
    {A : Type 0} (p : Payload A) (fact : Fact A) (source note : Bytes)
    → IsStatement p (record { fact = fact; source = source; note = note })
    → fact_from_value p.read (Fact.evidence fact) source note (value_of p.encode fact)
      ≡ Outcome.ok (record { fact = fact; source = source; note = note })
unfolding Fact.evidence
fact_read p (Fact.established v class) source note h =
    fact_from_value-known p.read class source note (p.encode v) v h.0 (p.encode_null v)
      (p.read_encode v h.1)
fact_read p Fact.unknown source note h = rw h refl

-- A fact is read back as it was written, with its source and its note, whatever its type is. A known fact
-- has a class of evidence and a value that fits, and an unknown one has no source.
pub fact_round_trip :
    {A : Type 0} (p : Payload A) (s : Statement A)
    → IsStatement p s
    → fact_from_json p.read (some (fact_to_json p.encode s)) ≡ Outcome.ok s
fact_round_trip p s h =
    let class = class_read (Fact.evidence s.fact) in
    fact_from_json-fields p.read p.encode s.fact s.source s.note
    ∙ rw class (fact_read p s.fact s.source s.note h)
