-- ===== src/Evidence/Names.antt =====
-- The tables of names of src/core/evidence.cpp: `to_string` and the `..._from_string` readers.
use Prim.Native.String.{String}
use text.Mathlib.Text.{◌==◌ as str_eq}
use text.Mathlib.TextEquality.{eq_iff}
use mathlib.Core.Path.{subst}
use runtime_code_skeptic.Base.{
  ℕ, ◌≡◌, ◌↔◌, refl, sym, ap, ◌∙◌, Bool-cases, inl, inr, All, List, [], ◌∷◌, Option, none, some,
  ◌==◌, if◌then◌else◌,
}
use runtime_code_skeptic.Evidence.{
  EvidenceClass, Confidence, SupportLevel, Severity, Layer, class_rank, confidence_rank,
  support_rank, severity_rank,
}

-- The first entry with that name; `none` is the reader's `false`.
unfoldable pub lookup : {E : Type 0} → List (String × E) → String → Option E
lookup [] s = none
lookup ((name, value) ∷ table) s = if str_eq name s then some value else lookup table s

-- The first entry with that value, which `same` compares by the enumerator's number.
unfoldable pub name_of : {E : Type 0} → (E → ℕ) → List (String × E) → E → String
name_of rank [] value = "unknown"
name_of rank ((name, v) ∷ table) value =
    if rank v == rank value then name else name_of rank table value

abbrev layer_rank : Layer → ℕ
layer_rank Layer.application = 0
layer_rank Layer.library = 1
layer_rank Layer.language_runtime = 2
layer_rank Layer.compatibility_layer = 3
layer_rank Layer.system_call_interface = 4
layer_rank Layer.operating_system = 5
layer_rank Layer.kernel = 6
layer_rank Layer.hardware = 7
layer_rank Layer.analyzer = 8

abbrev pub evidence_table : List (String × EvidenceClass)
evidence_table =
    ("specified_guarantee", EvidenceClass.specified_guarantee)
    ∷ ("measured_capability", EvidenceClass.measured_capability)
    ∷ ("observed_invariant", EvidenceClass.observed_invariant)
    ∷ ("statically_inferred", EvidenceClass.statically_inferred)
    ∷ ("bounded_counterexample", EvidenceClass.bounded_counterexample)
    ∷ ("heuristic_risk", EvidenceClass.heuristic_risk)
    ∷ ("unknown", EvidenceClass.unknown)
    ∷ []

abbrev pub confidence_table : List (String × Confidence)
confidence_table =
    ("PROVEN", Confidence.proven)
    ∷ ("COUNTEREXAMPLE", Confidence.counterexample)
    ∷ ("OBSERVED_INVARIANT", Confidence.observed_invariant)
    ∷ ("PREDICTIVE", Confidence.predictive)
    ∷ ("HYPOTHESIS", Confidence.hypothesis)
    ∷ []

abbrev pub support_table : List (String × SupportLevel)
support_table =
    ("SUPPORTED", SupportLevel.supported)
    ∷ ("CONDITIONALLY_SUPPORTED", SupportLevel.conditionally_supported)
    ∷ ("UNKNOWN", SupportLevel.unknown)
    ∷ ("UNSUPPORTED", SupportLevel.unsupported)
    ∷ []

abbrev pub severity_table : List (String × Severity)
severity_table =
    ("critical", Severity.critical)
    ∷ ("high", Severity.high)
    ∷ ("medium", Severity.medium)
    ∷ ("low", Severity.low)
    ∷ ("info", Severity.info)
    ∷ []

abbrev pub layer_table : List (String × Layer)
layer_table =
    ("application", Layer.application)
    ∷ ("library", Layer.library)
    ∷ ("language_runtime", Layer.language_runtime)
    ∷ ("compatibility_layer", Layer.compatibility_layer)
    ∷ ("syscall_interface", Layer.system_call_interface)
    ∷ ("operating_system", Layer.operating_system)
    ∷ ("kernel", Layer.kernel)
    ∷ ("hardware", Layer.hardware)
    ∷ ("analyzer", Layer.analyzer)
    ∷ []

unfoldable pub evidence_name : EvidenceClass → String
unfolding name_of
evidence_name = name_of class_rank evidence_table

unfoldable pub evidence_class_from_string : String → Option EvidenceClass
unfolding lookup
evidence_class_from_string = lookup evidence_table

unfoldable pub confidence_name : Confidence → String
unfolding name_of
confidence_name = name_of confidence_rank confidence_table

unfoldable pub confidence_from_string : String → Option Confidence
unfolding lookup
confidence_from_string = lookup confidence_table

unfoldable pub support_level_name : SupportLevel → String
unfolding name_of
support_level_name = name_of support_rank support_table

unfoldable pub support_level_from_string : String → Option SupportLevel
unfolding lookup
support_level_from_string = lookup support_table

unfoldable pub severity_name : Severity → String
unfolding name_of
severity_name = name_of severity_rank severity_table

unfoldable pub severity_from_string : String → Option Severity
unfolding lookup
severity_from_string = lookup severity_table

unfoldable pub layer_name : Layer → String
unfolding name_of
layer_name = name_of layer_rank layer_table

unfoldable pub layer_from_string : String → Option Layer
unfolding lookup
layer_from_string = lookup layer_table

-- An entry that the reader finds bears the text, and each entry is written by its own name.
write_of_lookup :
    {E : Type 0} (write : E → String) (table : List (String × E)) (s : String) (c : E)
    → All (λ e. write e.1 ≡ e.0) table
    → lookup table s ≡ some c
    → write c ≡ s
unfolding lookup
write_of_lookup write [] s c own h = cc
write_of_lookup write ((name, v) ∷ table) s c own h = elim (Bool-cases (str_eq name s)) [
  | inl same ↦
      let found : some v ≡ some c = rw same at h in
      let value : v ≡ c = cc in ap write (sym value) ∙ own.0 ∙ (eq_iff name s).0 same
  | inr other ↦ write_of_lookup write table s c own.1 (rw other at h)
]

-- The reader returns a value just for the text that the writer gives that value.
abbrev pub ReadsBack : {E : Type 0} → (E → String) → (String → Option E) → Type 0
ReadsBack {E} write read = (c : E) (s : String) → (read s ≡ some c) ↔ (write c ≡ s)

ReadsBack-lookup :
    {E : Type 0} (write : E → String) (table : List (String × E))
    → All (λ e. write e.1 ≡ e.0) table
    → ((c : E) → lookup table (write c) ≡ some c)
    → ReadsBack write (lookup table)
ReadsBack-lookup write table own back c s =
    (write_of_lookup write table s c own, λ e. subst (λ t. lookup table t ≡ some c) e (back c))

evidence_name_back : (c : EvidenceClass) → lookup evidence_table (evidence_name c) ≡ some c
unfolding evidence_name lookup
evidence_name_back EvidenceClass.specified_guarantee = refl
evidence_name_back _ = refl

confidence_name_back : (c : Confidence) → lookup confidence_table (confidence_name c) ≡ some c
unfolding confidence_name lookup
confidence_name_back Confidence.proven = refl
confidence_name_back _ = refl

support_name_back : (c : SupportLevel) → lookup support_table (support_level_name c) ≡ some c
unfolding support_level_name lookup
support_name_back SupportLevel.supported = refl
support_name_back _ = refl

severity_name_back : (c : Severity) → lookup severity_table (severity_name c) ≡ some c
unfolding severity_name lookup
severity_name_back Severity.critical = refl
severity_name_back _ = refl

layer_name_back : (c : Layer) → lookup layer_table (layer_name c) ≡ some c
unfolding layer_name lookup
layer_name_back Layer.application = refl
layer_name_back _ = refl

-- For each of the five enumerations, the reader accepts exactly the texts that the writer
-- produces, and returns the value that the text was written for.
pub names_read_back :
    ReadsBack evidence_name evidence_class_from_string
    × ReadsBack confidence_name confidence_from_string
    × ReadsBack support_level_name support_level_from_string
    × ReadsBack severity_name severity_from_string
    × ReadsBack layer_name layer_from_string
unfolding evidence_name evidence_class_from_string confidence_name confidence_from_string
    support_level_name support_level_from_string severity_name severity_from_string layer_name
    layer_from_string
names_read_back = (
  ReadsBack-lookup evidence_name evidence_table
      (refl, (refl, (refl, (refl, (refl, (refl, (refl, tt))))))) evidence_name_back,
  ReadsBack-lookup confidence_name confidence_table (refl, (refl, (refl, (refl, (refl, tt)))))
      confidence_name_back,
  ReadsBack-lookup support_level_name support_table (refl, (refl, (refl, (refl, tt))))
      support_name_back,
  ReadsBack-lookup severity_name severity_table (refl, (refl, (refl, (refl, (refl, tt)))))
      severity_name_back,
  ReadsBack-lookup layer_name layer_table
      (refl, (refl, (refl, (refl, (refl, (refl, (refl, (refl, (refl, tt))))))))) layer_name_back,
)
