-- ===== src/Document/Requirements.antt =====
-- `Requirement::from_json` and `load_requirements` of src/vm/requirement.cpp. The validator of the published
-- schema, called first, is a parameter. Names, descriptions, postconditions and locations are checked
-- and not kept.
use Prim.Native.String.{String}
use runtime_code_skeptic.Base.{
  ℕ, ◌==◌, Bool, true, false, not, ◌&&◌, List, [], ◌∷◌, Option, none, some, if◌then◌else◌, Bytes,
  codes,
}
use runtime_code_skeptic.Requirement.{
  OperationKind, FailureSinkKind, SizeRelation, FallbackKind, EofAccessExtent, Protection,
  MappingRequest, Assumptions,
}
use runtime_code_skeptic.Json.{Value, Items, no_items, item, find}
use runtime_code_skeptic.Document.{
  Failure, Outcome, ◌>>=◌, ◌>>◌, inside, or_refuse, refuse_if, optional_string, named,
}
use runtime_code_skeptic.Document.Facts.{read_uint, read_address, is_null}

abbrev pub operation_table : List (String × OperationKind)
operation_table =
    ("virtual_memory_map", OperationKind.virtual_memory_map)
    ∷ ("virtual_memory_protect", OperationKind.virtual_memory_protect)
    ∷ ("virtual_memory_reserve", OperationKind.virtual_memory_reserve)
    ∷ ("virtual_memory_commit", OperationKind.virtual_memory_commit)
    ∷ ("unknown", OperationKind.unknown)
    ∷ []

abbrev pub sink_table : List (String × FailureSinkKind)
sink_table =
    ("fatal_assert", FailureSinkKind.fatal_assert)
    ∷ ("process_exit", FailureSinkKind.process_exit)
    ∷ ("error_return", FailureSinkKind.error_return)
    ∷ ("retry_loop", FailureSinkKind.retry_loop)
    ∷ ("unchecked", FailureSinkKind.unchecked)
    ∷ ("none", FailureSinkKind.none)
    ∷ ("unknown", FailureSinkKind.unknown)
    ∷ []

abbrev pub size_relation_table : List (String × SizeRelation)
size_relation_table =
    ("equal", SizeRelation.equal)
    ∷ ("at_most", SizeRelation.at_most)
    ∷ ("at_least", SizeRelation.at_least)
    ∷ []

abbrev pub fallback_table : List (String × FallbackKind)
fallback_table =
    ("relocate", FallbackKind.relocate)
    ∷ ("smaller_size", FallbackKind.smaller_size)
    ∷ ("weaker_protection", FallbackKind.weaker_protection)
    ∷ ("non_executable", FallbackKind.non_executable)
    ∷ ("none", FallbackKind.none)
    ∷ ("unknown", FallbackKind.unknown)
    ∷ []

abbrev pub extent_table : List (String × EofAccessExtent)
extent_table =
    ("whole_page_past_end", EofAccessExtent.whole_page_past_end)
    ∷ ("within_final_partial_page", EofAccessExtent.within_final_partial_page)
    ∷ []

-- A value that may be missing or null.
abbrev pub optional : {A : Type 0} → (Value → Outcome A) → Option Value → Outcome (Option A)
optional read none = Outcome.ok none
optional read (some v) = if is_null v then Outcome.ok none else do a ← read v; Outcome.ok (some a)

abbrev pub or_default : {A : Type 0} → A → Option A → A
or_default a none = a
or_default a (some b) = b

unfoldable pub read_optional_uint : Value → String → Outcome (Option ℕ)
unfolding read_uint find
read_optional_uint parent key = inside (codes key) (optional read_uint (find parent (codes key)))

unfoldable pub read_optional_address : Value → String → Outcome (Option ℕ)
unfolding read_address find
read_optional_address parent key =
    inside (codes key) (optional read_address (find parent (codes key)))

-- A flag that is missing is false.
unfoldable pub read_flag : Value → String → Outcome Bool
unfolding find
read_flag parent key = elim (find parent (codes key)) [
  | none ↦ Outcome.ok false
  | some (Value.bool b) ↦ Outcome.ok b
  | some v ↦ inside (codes key) (Outcome.refused Failure.wrong_type)
]

unfoldable pub read_protection_request : Option Value → Outcome Protection
unfolding read_flag
read_protection_request none = Outcome.ok (record { read = false; write = false; execute = false })
read_protection_request (some Value.null) =
    Outcome.ok (record { read = false; write = false; execute = false })
read_protection_request (some (Value.object ms)) = do
  read ← read_flag (Value.object ms) "read"
  write ← read_flag (Value.object ms) "write"
  execute ← read_flag (Value.object ms) "execute"
  Outcome.ok (record { read = read; write = write; execute = execute })
read_protection_request (some v) = Outcome.refused Failure.wrong_type

abbrev pub is_some : Option ℕ → Bool
is_some (some n) = true
is_some none = false

unfoldable pub read_request : Value → Outcome MappingRequest
unfolding find named read_uint read_optional_uint read_optional_address read_flag
    read_protection_request
read_request v = do
  address ← read_optional_address v "address"
  size_node ← or_refuse (find v (codes "size")) Failure.missing
  size ← inside (codes "size") (read_uint size_node)
  refuse_if (size == 0) Failure.impossible
  exact ← read_flag v "exact_address_required"
  refuse_if (exact && not (is_some address)) Failure.missing
  alignment ← read_optional_uint v "required_alignment"
  address_min ← read_optional_address v "address_min"
  address_max ← read_optional_address v "address_max"
  displacement ← read_optional_uint v "max_displacement_bytes"
  page_size ← read_optional_uint v "required_page_size"
  relation ← optional (named size_relation_table) (find v (codes "required_page_size_relation"))
  protection ← read_protection_request (find v (codes "protection"))
  write_then_execute ← read_flag v "write_then_execute"
  simultaneous ← read_flag v "simultaneous_write_execute"
  file_backed ← read_flag v "file_backed"
  beyond_eof ← read_flag v "accesses_beyond_eof"
  unmapped ← read_flag v "relies_on_unmapped_beyond_size"
  extent ← optional (named extent_table) (find v (codes "eof_access_extent"))
  validates ← read_flag v "validates_returned_address"
  commit ← read_flag v "commit_is_checked_call"
  reserve ← read_flag v "reserve_then_commit"
  file_length ← read_optional_uint v "file_length"
  file_offset ← read_optional_uint v "file_offset"
  Outcome.ok (record {
    address = address;
    size = size;
    exact_address_required = exact;
    relies_on_unmapped_beyond_size = unmapped;
    required_alignment = alignment;
    address_min = address_min;
    address_max = address_max;
    max_displacement_bytes = displacement;
    commit_is_checked_call = commit;
    required_page_size = page_size;
    required_page_size_relation = or_default SizeRelation.equal relation;
    validates_returned_address = validates;
    protection = protection;
    write_then_execute = write_then_execute;
    simultaneous_write_execute = simultaneous;
    file_backed = file_backed;
    file_length = file_length;
    file_offset = or_default 0 file_offset;
    accesses_beyond_eof = beyond_eof;
    eof_access_extent = or_default EofAccessExtent.whole_page_past_end extent;
    reserve_then_commit = reserve;
  })

abbrev pub no_assumptions : Assumptions
no_assumptions = record {
  guest_host_identity_required = false;
  translation_layer_available = false;
  pointer_storage_width_bits = none;
  retries_on_failure = false;
  max_retries = none;
}

unfoldable pub read_assumptions : Option Value → Outcome Assumptions
unfolding read_flag read_optional_uint
read_assumptions none = Outcome.ok no_assumptions
read_assumptions (some a) = do
  identity ← read_flag a "guest_host_identity_required"
  layer ← read_flag a "translation_layer_available"
  retries ← read_flag a "retries_on_failure"
  width ← read_optional_uint a "pointer_storage_width_bits"
  max_retries ← read_optional_uint a "max_retries"
  Outcome.ok (record {
    guest_host_identity_required = identity;
    translation_layer_available = layer;
    pointer_storage_width_bits = width;
    retries_on_failure = retries;
    max_retries = max_retries;
  })

-- `read_string_array_field`
unfoldable pub string_items : Items → Outcome (List Bytes)
string_items no_items = Outcome.ok []
string_items (item (Value.str s) xs) = do rest ← string_items xs; Outcome.ok (s ∷ rest)
string_items (item v xs) = Outcome.refused Failure.wrong_type

unfoldable pub read_string_array : Option Value → Outcome (List Bytes)
unfolding string_items
read_string_array none = Outcome.ok []
read_string_array (some (Value.array xs)) = string_items xs
read_string_array (some v) = Outcome.refused Failure.wrong_type

unfoldable pub read_fallback_items : Items → Outcome (List FallbackKind)
unfolding named
read_fallback_items no_items = Outcome.ok []
read_fallback_items (item v xs) = do
  kind ← named fallback_table v
  rest ← read_fallback_items xs
  Outcome.ok (kind ∷ rest)

unfoldable pub read_fallbacks : Option Value → Outcome (List FallbackKind)
unfolding read_fallback_items
read_fallbacks none = Outcome.ok []
read_fallbacks (some (Value.array xs)) = read_fallback_items xs
read_fallbacks (some v) = Outcome.refused Failure.wrong_type

abbrev read_text : Value → Outcome Bytes
read_text v = optional_string (some v)

unfoldable pub check_location : Value → Outcome (Unit {0})
unfolding find read_uint optional_string
check_location (Value.object ms) = do
  file ← optional read_text (find (Value.object ms) (codes "file"))
  line ← optional read_uint (find (Value.object ms) (codes "line"))
  symbol ← optional read_text (find (Value.object ms) (codes "symbol"))
  Outcome.ok tt
check_location v = Outcome.refused Failure.wrong_type

unfoldable pub read_sink : Option Value → Outcome FailureSinkKind
unfolding find named optional_string check_location
read_sink none = Outcome.ok FailureSinkKind.unknown
read_sink (some sink) = do
  kind_node ← or_refuse (find sink (codes "kind")) Failure.missing
  kind ← named sink_table kind_node
  description ← optional_string (find sink (codes "description"))
  location ← optional check_location (find sink (codes "location"))
  Outcome.ok kind

unfoldable pub check_location_items : Items → Outcome (Unit {0})
unfolding check_location
check_location_items no_items = Outcome.ok tt
check_location_items (item v xs) = do check_location v; check_location_items xs

unfoldable pub check_locations : Option Value → Outcome (Unit {0})
unfolding check_location_items
check_locations none = Outcome.ok tt
check_locations (some (Value.array xs)) = check_location_items xs
check_locations (some v) = Outcome.refused Failure.wrong_type
