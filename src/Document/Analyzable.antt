-- ===== src/Document/Analyzable.antt =====
-- What `Requirement::from_json` and `load_requirements` of src/vm/requirement.cpp promise about the requirements
-- that they let through.
use Prim.Native.String.{String}
use runtime_code_skeptic.Base.{
  ℕ, ◌+◌, ◌<◌, ◌==◌, Bool, false, not, ◌&&◌, ◌≡◌, Option, none, some, if-intro, Bytes, codes,
  same_bytes, arith,
}
use runtime_code_skeptic.Evidence.Names.{evidence_table}
use runtime_code_skeptic.Requirement.{MappingRequest, Assumptions, Requirement}
use runtime_code_skeptic.Json.{Value, find, find_member}
use runtime_code_skeptic.Json.Shape.{IsValue}
use runtime_code_skeptic.Document.{
  Failure, Outcome, or_refuse, refuse_if, optional_string, required_string, named,
}
use runtime_code_skeptic.Document.Facts.{read_uint, read_address, is_null}
use runtime_code_skeptic.Document.Requirements.{
  or_default, operation_table, size_relation_table, extent_table, optional, read_optional_uint,
  read_optional_address, read_flag, read_protection_request, is_some, read_request,
  read_assumptions, read_string_array, read_fallbacks, read_sink, check_locations,
}
use runtime_code_skeptic.Document.Bundles.{
  is_unknown_operation, is_object, requirement_schema, requirement_from_json,
}
use runtime_code_skeptic.Document.Sound.{
  Gives, gives, refuses, Any-Gives, bind-Gives, inside-Gives, refuse_if-Gives, IsNode,
  find_member-IsNode, Reader, read_uint-Reader, read_address-Reader,
}
use runtime_code_skeptic.Document.Consistent.{Fits}

abbrev pub FitsIfGiven : Option ℕ → Type 0
FitsIfGiven (some n) = Fits n
FitsIfGiven none = Unit

-- The size is not zero, every number that is given fits in 64 bits, and an exact address is given where one
-- is demanded.
pub record IsPossible (r : MappingRequest) : Type 0 where
  pub size : (0 < r.size) × Fits r.size
  pub addresses : FitsIfGiven r.address × (FitsIfGiven r.address_min × FitsIfGiven r.address_max)
  pub page_sizes : FitsIfGiven r.required_alignment × FitsIfGiven r.required_page_size
  pub displacement : FitsIfGiven r.max_displacement_bytes
  pub file : FitsIfGiven r.file_length × Fits r.file_offset
  pub exact : (r.exact_address_required && not (is_some r.address)) ≡ false

abbrev pub AssumptionsFit : Assumptions → Type 0
AssumptionsFit a = FitsIfGiven a.pointer_storage_width_bits × FitsIfGiven a.max_retries

abbrev pub IsAnalyzable : Requirement → Type 0
IsAnalyzable r =
    (is_unknown_operation r.operation ≡ false) × IsPossible r.request × AssumptionsFit r.assumptions

find-IsNode : (d : ℕ) (v : Value) (key : Bytes) → IsValue d v → IsNode (d + 1) (find v key)
unfolding find
find-IsNode d (Value.object ms) key h = find_member-IsNode (d + 1) key ms h.1.1
find-IsNode d Value.null key h = tt
find-IsNode d (Value.bool b) key h = tt
find-IsNode d (Value.int z) key h = tt
find-IsNode d (Value.uint n) key h = tt
find-IsNode d (Value.double t) key h = tt
find-IsNode d (Value.str t) key h = tt
find-IsNode d (Value.array t) key h = tt

optional-Gives :
    (read : Value → Outcome ℕ) (d : ℕ) (o : Option Value)
    → Reader Fits read
    → IsNode d o
    → Gives FitsIfGiven (optional read o)
optional-Gives read d none r h = gives tt
optional-Gives read d (some v) r h =
    if-intro (Gives FitsIfGiven) (is_null v) (λ e. gives tt)
      (λ e. bind-Gives _ (r d v h) (λ a k. gives k))

read_optional_address-Gives :
    (d : ℕ) (v : Value) (key : String)
    → IsValue d v
    → Gives FitsIfGiven (read_optional_address v key)
unfolding read_optional_address
read_optional_address-Gives d v key h = inside-Gives (codes key) (
    optional-Gives read_address (d + 1) (find v (codes key)) read_address-Reader
      (find-IsNode d v (codes key) h))

read_optional_uint-Gives :
    (d : ℕ) (v : Value) (key : String) → IsValue d v → Gives FitsIfGiven (read_optional_uint v key)
unfolding read_optional_uint
read_optional_uint-Gives d v key h = inside-Gives (codes key) (
    optional-Gives read_uint (d + 1) (find v (codes key)) read_uint-Reader
      (find-IsNode d v (codes key) h))

or_default-Fits : (o : Option ℕ) → FitsIfGiven o → Fits (or_default 0 o)
or_default-Fits (some n) h = h
or_default-Fits none h = omega arith

read_assumptions-Gives :
    (d : ℕ) (o : Option Value) → IsNode d o → Gives AssumptionsFit (read_assumptions o)
unfolding read_assumptions
read_assumptions-Gives d none h = gives (tt, tt)
read_assumptions-Gives d (some a) h =
    let flag = λ (key : String). Any-Gives (read_flag a key) in
    let number = λ (key : String). read_optional_uint-Gives d a key h in
    bind-Gives _ (flag "guest_host_identity_required") (λ identity u.
      bind-Gives _ (flag "translation_layer_available") (λ layer u.
        bind-Gives _ (flag "retries_on_failure") (λ retries u.
          bind-Gives _ (number "pointer_storage_width_bits") (λ width width_fits.
            bind-Gives _ (number "max_retries")
              (λ max_retries retries_fit. gives (width_fits, retries_fit))))))

or_refuse-IsValue :
    (d : ℕ) (o : Option Value) (e : Failure) → IsNode d o → Gives (IsValue d) (or_refuse o e)
or_refuse-IsValue d (some v) e h = gives h
or_refuse-IsValue d none e h = refuses

read_request-Gives : (d : ℕ) (v : Value) → IsValue d v → Gives IsPossible (read_request v)
unfolding read_request
read_request-Gives d v h =
    let at = λ (key : String). find v (codes key) in
    let flag = λ (key : String). Any-Gives (read_flag v key) in
    let number = λ (key : String). read_optional_uint-Gives d v key h in
    let size_at =
      or_refuse-IsValue (d + 1) (at "size") Failure.missing (find-IsNode d v (codes "size") h) in
    bind-Gives _ (read_optional_address-Gives d v "address" h) (λ address fits.
      bind-Gives _ size_at (λ size_node is_node.
        bind-Gives _ (inside-Gives (codes "size") (read_uint-Reader (d + 1) size_node is_node))
          (λ size size_fits.
            bind-Gives _ (refuse_if-Gives (size == 0) Failure.impossible) (λ u positive.
              bind-Gives _ (flag "exact_address_required") (λ exact a.
                bind-Gives _ (refuse_if-Gives (exact && not (is_some address)) Failure.missing)
                  (λ u given.
                    bind-Gives _ (number "required_alignment") (λ alignment alignment_fits.
                      bind-Gives _ (read_optional_address-Gives d v "address_min" h)
                        (λ low low_fits.
                          bind-Gives _ (read_optional_address-Gives d v "address_max" h)
                            (λ top top_fits.
                              bind-Gives _ (number "max_displacement_bytes")
                                (λ displacement displacement_fits.
                                  bind-Gives _ (number "required_page_size")
                                    (λ page_size page_size_fits.
                                      bind-Gives _
                                        (Any-Gives (
                                          optional (named size_relation_table)
                                            (at "required_page_size_relation")))
                                        (λ relation a.
                                          bind-Gives _
                                            (Any-Gives (read_protection_request (at "protection")))
                                            (λ protection a.
                                              bind-Gives _ (flag "write_then_execute") (λ f1 a.
                                                bind-Gives _ (flag "simultaneous_write_execute")
                                                  (λ f2 a.
                                                    bind-Gives _ (flag "file_backed") (λ f3 a.
                                                      bind-Gives _ (flag "accesses_beyond_eof")
                                                        (λ f4 a.
                                                          bind-Gives _
                                                            (flag "relies_on_unmapped_beyond_size")
                                                            (λ f5 a.
                                                            bind-Gives _
                                                            (Any-Gives (
                                                            optional (named extent_table)
                                                            (at "eof_access_extent")))
                                                            (λ extent a.
                                                            bind-Gives _
                                                            (flag "validates_returned_address")
                                                            (λ f6 a.
                                                            bind-Gives _
                                                            (flag "commit_is_checked_call")
                                                            (λ f7 a.
                                                            bind-Gives _
                                                            (flag "reserve_then_commit")
                                                            (λ f8 a.
                                                            bind-Gives _ (number "file_length")
                                                            (λ file_length length_fits.
                                                            bind-Gives _ (number "file_offset")
                                                            (λ file_offset offset_fits.
                                                            gives (record {
                                                            size = (ground arith, size_fits);
                                                            addresses =
                                                            (fits, (low_fits, top_fits));
                                                            page_sizes =
                                                            (alignment_fits, page_size_fits);
                                                            displacement = displacement_fits;
                                                            file = (
                                                            length_fits,
                                                            or_default-Fits file_offset offset_fits,
                                                            );
                                                            exact = given;
                                                            })))))))))))))))))))))))))

pub requirement_from_json-Gives :
    (validate : Value → Bool) (d : ℕ) (v : Value)
    → IsValue d v
    → Gives IsAnalyzable (requirement_from_json validate v)
unfolding requirement_from_json
requirement_from_json-Gives validate d Value.null h = refuses
requirement_from_json-Gives validate d (Value.bool b) h = refuses
requirement_from_json-Gives validate d (Value.int z) h = refuses
requirement_from_json-Gives validate d (Value.uint n) h = refuses
requirement_from_json-Gives validate d (Value.double t) h = refuses
requirement_from_json-Gives validate d (Value.str t) h = refuses
requirement_from_json-Gives validate d (Value.array t) h = refuses
requirement_from_json-Gives validate d (Value.object ms) h =
    let at = λ (key : String). find_member (codes key) ms in
    let request_at =
      or_refuse-IsValue (d + 1) (at "request") Failure.missing
        (find_member-IsNode (d + 1) (codes "request") ms h.1.1) in
    let assumptions_at = find_member-IsNode (d + 1) (codes "assumptions") ms h.1.1 in
    bind-Gives _ (Any-Gives (refuse_if (not (validate (Value.object ms))) Failure.schema_violation))
      (λ u a. bind-Gives _ (Any-Gives (required_string (at "schema"))) (λ schema a.
        bind-Gives _
          (Any-Gives
            (refuse_if (not (same_bytes schema requirement_schema)) Failure.unsupported_schema))
          (λ u a. bind-Gives _ (Any-Gives (optional_string (at "name"))) (λ name a.
            bind-Gives _ (Any-Gives (optional_string (at "component"))) (λ component a.
              bind-Gives _ (Any-Gives (or_refuse (at "operation") Failure.missing))
                (λ operation_node a.
                  bind-Gives _ (Any-Gives (named operation_table operation_node)) (λ operation a.
                    bind-Gives _
                      (refuse_if-Gives (is_unknown_operation operation) Failure.unrecognized_value)
                      (λ u is_known. bind-Gives _ request_at (λ request_node is_node.
                        bind-Gives _
                          (Any-Gives (refuse_if (not (is_object request_node)) Failure.missing))
                          (λ u a.
                            bind-Gives _ (read_request-Gives (d + 1) request_node is_node)
                              (λ request possible.
                                bind-Gives _
                                  (read_assumptions-Gives (d + 1) (at "assumptions") assumptions_at)
                                  (λ assumptions fitting.
                                    bind-Gives _
                                      (Any-Gives (read_string_array (at "required_postconditions")))
                                      (λ postconditions a.
                                        bind-Gives _
                                          (Any-Gives (read_fallbacks (at "permitted_fallbacks")))
                                          (λ fallbacks a.
                                            bind-Gives _ (Any-Gives (read_sink (at "failure_sink")))
                                              (λ sink a.
                                                bind-Gives _
                                                  (Any-Gives
                                                    (check_locations (at "source_locations")))
                                                  (λ u a.
                                                    bind-Gives _
                                                      (Any-Gives (
                                                        or_refuse (at "assumption_evidence")
                                                          Failure.missing))
                                                      (λ evidence_node a.
                                                        bind-Gives _
                                                          (Any-Gives
                                                            (named evidence_table evidence_node))
                                                          (λ evidence a.
                                                            bind-Gives _
                                                            (Any-Gives (
                                                            read_string_array
                                                            (at "extraction_limitations")))
                                                            (λ limitations a. gives (
                                                            is_known, possible, fitting,
                                                            ))))))))))))))))))))
