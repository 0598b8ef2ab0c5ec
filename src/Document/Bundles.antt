-- ===== src/Document/Bundles.antt =====
-- `Requirement::from_json` as a whole, and `load_requirements` with the bundles of src/vm/requirement.cpp.
use Prim.Native.String.{String}
use runtime_code_skeptic.Base.{
  ℕ, ◌+◌, Bool, true, false, not, ◌||◌, List, [], ◌∷◌, ◌++◌, Option, none, some, any, if◌then◌else◌,
  Bytes, codes, same_bytes,
}
use runtime_code_skeptic.Evidence.Names.{evidence_table}
use runtime_code_skeptic.Requirement.{OperationKind, Requirement}
use runtime_code_skeptic.Json.{
  Value, Items, no_items, item, Members, no_members, member, find_member,
}
use runtime_code_skeptic.Json.Lexer.{after_prefix}
use runtime_code_skeptic.Document.{
  Failure, Outcome, ◌>>=◌, ◌>>◌, or_refuse, refuse_if, optional_string, required_string, named,
}
use runtime_code_skeptic.Document.Requirements.{
  operation_table, read_request, read_assumptions, read_string_array, read_fallbacks, read_sink,
  check_locations,
}

abbrev pub known_top_level : List String
known_top_level =
    "schema" ∷ "name" ∷ "component" ∷ "operation" ∷ "request" ∷ "assumptions"
    ∷ "required_postconditions" ∷ "permitted_fallbacks" ∷ "failure_sink" ∷ "assumption_evidence"
    ∷ "source_locations" ∷ "extraction_limitations" ∷ "producer" ∷ "rule" ∷ []

abbrev pub known_request : List String
known_request =
    "address" ∷ "size" ∷ "exact_address_required" ∷ "protection" ∷ "file_backed" ∷ "file_length"
    ∷ "file_offset" ∷ "accesses_beyond_eof" ∷ "eof_access_extent" ∷ "relies_on_unmapped_beyond_size"
    ∷ "required_alignment" ∷ "required_page_size" ∷ "required_page_size_relation"
    ∷ "write_then_execute" ∷ "simultaneous_write_execute" ∷ "reserve_then_commit"
    ∷ "commit_is_checked_call" ∷ "validates_returned_address" ∷ "address_min" ∷ "address_max"
    ∷ "max_displacement_bytes" ∷ "displacement_reference" ∷ []

abbrev pub known_assumptions : List String
known_assumptions =
    "guest_host_identity_required" ∷ "translation_layer_available" ∷ "retries_on_failure"
    ∷ "max_retries" ∷ "pointer_storage_width_bits" ∷ []

-- An extension by convention: the key starts with `x_`.
unfoldable pub is_extension : Bytes → Bool
unfolding after_prefix
is_extension key = elim (after_prefix (codes "x_") key) [ some rest ↦ true | none ↦ false ]

unfoldable pub collect_members : List String → Bytes → Members → List Bytes
unfolding is_extension
collect_members names prefix no_members = []
collect_members names prefix (member key v ms) =
    let rest = collect_members names prefix ms in
    if any (λ name. same_bytes (codes name) key) names || is_extension key
    then rest
    else (prefix ++ key) ∷ rest

unfoldable pub collect_unrecognized : List String → Bytes → Option Value → List Bytes
unfolding collect_members
collect_unrecognized names prefix (some (Value.object ms)) = collect_members names prefix ms
collect_unrecognized names prefix _ = []

abbrev pub is_unknown_operation : OperationKind → Bool
is_unknown_operation OperationKind.unknown = true
is_unknown_operation _ = false

abbrev pub is_object : Value → Bool
is_object (Value.object ms) = true
is_object _ = false

abbrev pub requirement_schema : Bytes
requirement_schema = codes "runtime-skeptic.application-requirements.v1"

abbrev pub bundle_schema : Bytes
bundle_schema = codes "runtime-skeptic.application-requirements-bundle.v1"

-- `validate` is `schema::validate_requirement_input`.
unfoldable pub requirement_from_json : (Value → Bool) → Value → Outcome Requirement
unfolding find_member required_string optional_string named read_request read_assumptions
    read_string_array read_fallbacks read_sink check_locations collect_unrecognized
requirement_from_json validate (Value.object ms) = do
  refuse_if (not (validate (Value.object ms))) Failure.schema_violation
  schema ← required_string (find_member (codes "schema") ms)
  refuse_if (not (same_bytes schema requirement_schema)) Failure.unsupported_schema
  name ← optional_string (find_member (codes "name") ms)
  component ← optional_string (find_member (codes "component") ms)
  operation_node ← or_refuse (find_member (codes "operation") ms) Failure.missing
  operation ← named operation_table operation_node
  refuse_if (is_unknown_operation operation) Failure.unrecognized_value
  request_node ← or_refuse (find_member (codes "request") ms) Failure.missing
  refuse_if (not (is_object request_node)) Failure.missing
  request ← read_request request_node
  assumptions ← read_assumptions (find_member (codes "assumptions") ms)
  postconditions ← read_string_array (find_member (codes "required_postconditions") ms)
  fallbacks ← read_fallbacks (find_member (codes "permitted_fallbacks") ms)
  sink ← read_sink (find_member (codes "failure_sink") ms)
  check_locations (find_member (codes "source_locations") ms)
  evidence_node ← or_refuse (find_member (codes "assumption_evidence") ms) Failure.missing
  evidence ← named evidence_table evidence_node
  limitations ← read_string_array (find_member (codes "extraction_limitations") ms)
  Outcome.ok (record {
    operation = operation;
    request = request;
    assumptions = assumptions;
    permitted_fallbacks = fallbacks;
    failure_sink = sink;
    assumption_evidence = evidence;
    extraction_limitations = limitations;
    unrecognized_fields =
        collect_unrecognized known_top_level [] (some (Value.object ms))
        ++ (collect_unrecognized known_request (codes "request.") (some request_node)
            ++ collect_unrecognized known_assumptions (codes "assumptions.")
                (find_member (codes "assumptions") ms));
  })
requirement_from_json validate v = Outcome.refused Failure.wrong_type

-- The requirements of a bundle, and the entries that were refused, each with its index.
pub record RequirementBundle : Type 0 where
  pub requirements : List Requirement
  pub rejected : List (ℕ × Failure)

abbrev pub accept : Requirement → RequirementBundle → RequirementBundle
accept r b = record { requirements = r ∷ b.requirements; rejected = b.rejected }

abbrev pub reject : ℕ → Failure → RequirementBundle → RequirementBundle
reject index e b = record { requirements = b.requirements; rejected = (index, e) ∷ b.rejected }

-- The loop over the entries, from an index on.
unfoldable pub read_entries : (Value → Bool) → ℕ → Items → RequirementBundle
unfolding requirement_from_json
read_entries validate index no_items = record { requirements = []; rejected = [] }
read_entries validate index (item v xs) =
    let rest = read_entries validate (index + 1) xs in
    elim (requirement_from_json validate v) [
      | Outcome.ok r ↦ accept r rest
      | Outcome.refused e ↦ reject index e rest
    ]

unfoldable pub bundle_entries : Option Value → Outcome Items
bundle_entries (some (Value.array xs)) = Outcome.ok xs
bundle_entries _ = Outcome.refused Failure.missing

abbrev pub alone : Requirement → RequirementBundle
alone r = record { requirements = r ∷ []; rejected = [] }

-- A single requirement is a bundle of one.
unfoldable pub load_single : (Value → Bool) → Value → Outcome RequirementBundle
unfolding requirement_from_json
load_single validate v = do r ← requirement_from_json validate v; Outcome.ok (alone r)

unfoldable pub load_bundle : (Value → Bool) → Bytes → Members → Outcome RequirementBundle
unfolding read_entries bundle_entries find_member
load_bundle validate schema ms = do
  refuse_if (not (same_bytes schema bundle_schema)) Failure.unsupported_schema
  entries ← bundle_entries (find_member (codes "requirements") ms)
  Outcome.ok (read_entries validate 0 entries)

unfoldable pub load_requirements : (Value → Bool) → Value → Outcome RequirementBundle
unfolding load_single load_bundle required_string find_member
load_requirements validate (Value.object ms) = do
  schema ← required_string (find_member (codes "schema") ms)
  if same_bytes schema requirement_schema
      then load_single validate (Value.object ms)
      else load_bundle validate schema ms
load_requirements validate v = Outcome.refused Failure.wrong_type
