-- ===== src/Document/Facts.antt =====
-- `fact_from_json` with the readers of its values and `Fact::to_json` of
-- include/runtimeskeptic/core/fact.hpp.
use Prim.Native.String.{String}
use runtime_code_skeptic.Base.{
  ℕ, Bool, true, false, [], ◌∷◌, Option, none, some, ◌||◌, if◌then◌else◌, Bytes, codes,
}
use runtime_code_skeptic.Evidence.{EvidenceClass, SupportLevel}
use runtime_code_skeptic.Evidence.Names.{
  evidence_table, evidence_name, support_table, support_level_name,
}
use runtime_code_skeptic.Fact.{Fact, known, evidence}
use runtime_code_skeptic.Json.{Value, Signed, Members, no_members, find_member, insert_member}
use runtime_code_skeptic.Json.Hex.{from_hex}
use runtime_code_skeptic.Json.Writer.{to_hex}
use runtime_code_skeptic.Document.{
  Failure, Outcome, ◌>>=◌, ◌>>◌, or_refuse, check_keys, optional_string, required_string, named,
  entry,
}

-- A fact with the prose that a document keeps beside it.
pub record Statement (A : Type 0) : Type 0 where
  pub fact : Fact A
  pub source : Bytes
  pub note : Bytes

-- `Fact::unknown`
abbrev pub unknown_statement : {A : Type 0} → Bytes → Statement A
unknown_statement note = record { fact = Fact.unknown; source = []; note = note }

unfoldable pub read_bool : Value → Outcome Bool
read_bool (Value.bool b) = Outcome.ok b
read_bool v = Outcome.refused Failure.wrong_type

unfoldable pub read_uint : Value → Outcome ℕ
read_uint (Value.uint n) = Outcome.ok n
read_uint (Value.int (Signed.from_zero n)) = Outcome.ok n
read_uint (Value.int (Signed.below n)) = Outcome.refused Failure.negative
read_uint v = Outcome.refused Failure.wrong_type

unfoldable pub read_address : Value → Outcome ℕ
unfolding from_hex read_uint
read_address (Value.str s) = or_refuse (from_hex s) Failure.bad_address
read_address v = read_uint v

unfoldable pub read_support_level : Value → Outcome SupportLevel
unfolding named
read_support_level = named support_table

abbrev pub is_unknown : EvidenceClass → Bool
is_unknown EvidenceClass.unknown = true
is_unknown _ = false

-- `Value::is_null`
abbrev pub is_null : Value → Bool
is_null Value.null = true
is_null _ = false

-- The part after the keys, the class and the prose were read.
abbrev pub fact_from_value :
    {A : Type 0}
    → (Value → Outcome A)
    → EvidenceClass
    → Bytes
    → Bytes
    → Value
    → Outcome (Statement A)
fact_from_value read class source note v =
    if is_unknown class || is_null v then Outcome.ok (unknown_statement note) else do
      value ← read v
      Outcome.ok (record { fact = known value class; source = source; note = note })

abbrev pub required : Option Value → Outcome Value
required node = or_refuse node Failure.missing

unfoldable pub fact_from_json :
    {A : Type 0} → (Value → Outcome A) → Option Value → Outcome (Statement A)
unfolding check_keys find_member optional_string entry required_string
fact_from_json read none = Outcome.ok (unknown_statement [])
fact_from_json read (some Value.null) = Outcome.ok (unknown_statement [])
fact_from_json read (some (Value.object ms)) = do
  check_keys ("value" ∷ "evidence" ∷ "source" ∷ "note" ∷ []) ms
  evidence ← required_string (find_member (codes "evidence") ms)
  class ← or_refuse (entry evidence_table evidence) Failure.unrecognized_value
  source ← optional_string (find_member (codes "source") ms)
  note ← optional_string (find_member (codes "note") ms)
  value ← required (find_member (codes "value") ms)
  fact_from_value read class source note value
fact_from_json read (some v) = Outcome.refused Failure.wrong_type

-- `encode` of the values that facts have.
unfoldable pub encode_bool : Bool → Value
encode_bool b = Value.bool b

unfoldable pub encode_uint : ℕ → Value
encode_uint n = Value.uint n

unfoldable pub encode_address : ℕ → Value
unfolding to_hex
encode_address n = Value.str (to_hex n)

unfoldable pub encode_support_level : SupportLevel → Value
unfolding support_level_name
encode_support_level level = Value.str (codes (support_level_name level))

-- A key whose string is left out while it is empty.
abbrev pub unless_empty : String → Bytes → Members → Members
unless_empty key [] ms = ms
unless_empty key (c ∷ s) ms = insert_member (codes key) (Value.str (c ∷ s)) ms

abbrev pub value_of : {A : Type 0} → (A → Value) → Fact A → Value
value_of encode (Fact.established v class) = encode v
value_of encode Fact.unknown = Value.null

unfoldable pub fact_to_json : {A : Type 0} → (A → Value) → Statement A → Value
unfolding insert_member evidence_name evidence
fact_to_json encode s = Value.object (
    unless_empty "note" s.note (
      unless_empty "source" s.source (
        insert_member (codes "evidence") (Value.str (codes (evidence_name (evidence s.fact))))
          (insert_member (codes "value") (value_of encode s.fact) no_members))))
