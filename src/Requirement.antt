-- ===== src/Requirement.antt =====
-- include/runtimeskeptic/vm/requirement.hpp: what a program asks of virtual memory. File names,
-- descriptions and postconditions are prose and are left out.
use runtime_code_skeptic.Base.{ℕ, Bool, true, false, ◌&&◌, List, Option, any, Bytes}
use runtime_code_skeptic.Evidence.{EvidenceClass}
use runtime_code_skeptic.Range.{AddressRange, from_base_size}

pub data OperationKind : Type 0 where
  virtual_memory_map virtual_memory_protect virtual_memory_reserve virtual_memory_commit unknown :
      OperationKind

pub data FailureSinkKind : Type 0 where
  fatal_assert process_exit error_return retry_loop unchecked none unknown : FailureSinkKind

pub data SizeRelation : Type 0 where
  equal at_most at_least : SizeRelation

pub data FallbackKind : Type 0 where
  relocate smaller_size weaker_protection non_executable none unknown : FallbackKind

pub data EofAccessExtent : Type 0 where
  whole_page_past_end within_final_partial_page : EofAccessExtent

pub record Protection : Type 0 where
  pub read : Bool
  pub write : Bool
  pub execute : Bool

unfoldable pub write_and_execute : Protection → Bool
write_and_execute p = p.write && p.execute

pub record MappingRequest : Type 0 where
  pub address : Option ℕ
  pub size : ℕ
  pub exact_address_required : Bool
  pub relies_on_unmapped_beyond_size : Bool
  pub required_alignment : Option ℕ
  pub address_min : Option ℕ
  pub address_max : Option ℕ
  pub max_displacement_bytes : Option ℕ
  pub commit_is_checked_call : Bool
  pub required_page_size : Option ℕ
  pub required_page_size_relation : SizeRelation
  pub validates_returned_address : Bool
  pub protection : Protection
  pub write_then_execute : Bool
  pub simultaneous_write_execute : Bool
  pub file_backed : Bool
  pub file_length : Option ℕ
  pub file_offset : ℕ
  pub accesses_beyond_eof : Bool
  pub eof_access_extent : EofAccessExtent
  pub reserve_then_commit : Bool

unfoldable pub range : MappingRequest → Option AddressRange
unfolding from_base_size
range request = elim request.address [
  | Option.some base ↦ from_base_size base request.size
  | Option.none ↦ Option.none
]

pub record Assumptions : Type 0 where
  pub guest_host_identity_required : Bool
  pub translation_layer_available : Bool
  pub pointer_storage_width_bits : Option ℕ
  pub retries_on_failure : Bool
  pub max_retries : Option ℕ

pub record Requirement : Type 0 where
  pub operation : OperationKind
  pub request : MappingRequest
  pub assumptions : Assumptions
  pub permitted_fallbacks : List FallbackKind
  pub failure_sink : FailureSinkKind
  pub assumption_evidence : EvidenceClass
  pub extraction_limitations : List Bytes
  pub unrecognized_fields : List Bytes

abbrev pub same_fallback : FallbackKind → FallbackKind → Bool
same_fallback FallbackKind.relocate FallbackKind.relocate = true
same_fallback FallbackKind.smaller_size FallbackKind.smaller_size = true
same_fallback FallbackKind.weaker_protection FallbackKind.weaker_protection = true
same_fallback FallbackKind.non_executable FallbackKind.non_executable = true
same_fallback FallbackKind.none FallbackKind.none = true
same_fallback FallbackKind.unknown FallbackKind.unknown = true
same_fallback _ _ = false

unfoldable pub permits : Requirement → FallbackKind → Bool
permits requirement kind = any (same_fallback kind) requirement.permitted_fallbacks
