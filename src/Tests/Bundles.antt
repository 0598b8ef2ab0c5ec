-- ===== src/Tests/Bundles.antt =====
-- The theorems about requirement documents, at a small bundle.
use runtime_code_skeptic.Base.{
  ◌++◌, ◌≡◌, refl, true, false, Bool, [], ◌∷◌, none, some, All, Bytes, codes,
}
use runtime_code_skeptic.Evidence.{EvidenceClass}
use runtime_code_skeptic.Requirement.{
  OperationKind, FailureSinkKind, SizeRelation, EofAccessExtent, Requirement,
}
use runtime_code_skeptic.Json.{
  Value, Items, no_items, item, no_members, member, find_member, insert_member,
}
use runtime_code_skeptic.Json.Parser.{parse, ParseResult, parse_key, parse_scalar, next_element}
use runtime_code_skeptic.Document.{Failure, Outcome}
use runtime_code_skeptic.Document.Requirements.{no_assumptions}
use runtime_code_skeptic.Document.Bundles.{
  RequirementBundle, requirement_from_json, load_requirements, read_entries,
}
use runtime_code_skeptic.Document.Analyzable.{IsAnalyzable}
use runtime_code_skeptic.Document.Entries.{load_requirements-IsAnalyzable}
use runtime_code_skeptic.Document.Kept.{IsBetween, entries_are_kept}

abbrev bundle_text : Bytes
bundle_text =
    codes
      "{\"requirements\":[{\"assumption_evidence\":\"specified_guarantee\",\"operation\":\"virtual_memory_map\",\"request\":{\"address\":\"0x10000\",\"size\":4096,\"sizee\":1},\"schema\":\"runtime-skeptic.application-requirements.v1\"},null],\"schema\":\"runtime-skeptic.application-requirements-bundle.v1\"}"

abbrev entry_value : Value
entry_value = Value.object (
    member (codes "assumption_evidence") (Value.str (codes "specified_guarantee")) (
      member (codes "operation") (Value.str (codes "virtual_memory_map")) (
        member (codes "request")
          (Value.object (
            member (codes "address") (Value.str (codes "0x10000")) (
              member (codes "size") (Value.uint 4096)
                (member (codes "sizee") (Value.uint 1) no_members))))
          (member (codes "schema") (Value.str (codes "runtime-skeptic.application-requirements.v1"))
            no_members))))

abbrev entries : Items
entries = item entry_value (item Value.null no_items)

abbrev bundle_value : Value
bundle_value = Value.object (
    member (codes "requirements") (Value.array entries) (
      member (codes "schema")
        (Value.str (codes "runtime-skeptic.application-requirements-bundle.v1")) no_members))

abbrev accept_all : Value → Bool
accept_all v = true

abbrev loaded : Requirement
loaded = record {
  operation = OperationKind.virtual_memory_map;
  request = record {
    address = some 0x10000;
    size = 4096;
    exact_address_required = false;
    relies_on_unmapped_beyond_size = false;
    required_alignment = none;
    address_min = none;
    address_max = none;
    max_displacement_bytes = none;
    commit_is_checked_call = false;
    required_page_size = none;
    required_page_size_relation = SizeRelation.equal;
    validates_returned_address = false;
    protection = record { read = false; write = false; execute = false };
    write_then_execute = false;
    simultaneous_write_execute = false;
    file_backed = false;
    file_length = none;
    file_offset = 0;
    accesses_beyond_eof = false;
    eof_access_extent = EofAccessExtent.whole_page_past_end;
    reserve_then_commit = false;
  };
  assumptions = no_assumptions;
  permitted_fallbacks = [];
  failure_sink = FailureSinkKind.unknown;
  assumption_evidence = EvidenceClass.specified_guarantee;
  extraction_limitations = [];
  unrecognized_fields = codes "request.sizee" ∷ [];
}

abbrev bundle : RequirementBundle
bundle = record { requirements = loaded ∷ []; rejected = (1, Failure.wrong_type) ∷ [] }

bundle_text_is_read : parse bundle_text ≡ ParseResult.value bundle_value
unfolding parse parse_key parse_scalar find_member next_element insert_member
bundle_text_is_read = refl

bundle_is_loaded : load_requirements accept_all bundle_value ≡ Outcome.ok bundle
unfolding load_requirements
bundle_is_loaded = refl

load_requirements-IsAnalyzable_example : All IsAnalyzable bundle.requirements
load_requirements-IsAnalyzable_example =
    load_requirements-IsAnalyzable accept_all bundle_text bundle_value bundle bundle_text_is_read
      bundle_is_loaded

entries_are_kept_example :
    IsBetween
      (read_entries accept_all 0 (item entry_value no_items))
      1
      (requirement_from_json accept_all Value.null)
      (read_entries accept_all 2 (item entry_value no_items))
      (read_entries accept_all 0 (item entry_value (item Value.null (item entry_value no_items))))
    × ((read_entries accept_all 0 (item entry_value (item entry_value no_items))).requirements
        ≡ (read_entries accept_all 0 (item entry_value no_items)).requirements
          ++ (read_entries accept_all 2 (item entry_value no_items)).requirements)
entries_are_kept_example =
    entries_are_kept accept_all 0 (item entry_value no_items) (item entry_value no_items) Value.null
