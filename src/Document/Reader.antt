-- ===== src/Document/Reader.antt =====
-- `EnvironmentProfile::from_json` of src/vm/profile.cpp. The validator of the published schema, called
-- first, is a parameter. Names, versions, failure codes, run data and notes are checked and not
-- kept.
use Prim.Native.String.{String}
use runtime_code_skeptic.Base.{
  ℕ, leb, ◌==◌, Bool, false, not, List, Option, none, some, Bytes, codes, same_bytes,
}
use runtime_code_skeptic.Fact.{Fact}
use runtime_code_skeptic.Document.Names.{
  OperatingSystem, TranslationMode, os_table, arch_table, translation_table, reserve_commit_table,
  beyond_eof_table, origin_table,
}
use runtime_code_skeptic.Profile.{
  Architecture, ProtectionModel, VirtualMemoryModel, EnvironmentProfile,
}
use runtime_code_skeptic.Json.{
  Value, Signed, Items, no_items, item, Members, no_members, find_member,
}
use runtime_code_skeptic.Document.{
  Failure, Outcome, ◌>>=◌, ◌>>◌, inside, refuse_if, optional_string, required_string, named, entry,
}
use runtime_code_skeptic.Document.Facts.{
  fact_from_json, read_bool, read_uint, read_address, read_support_level, required,
}
use runtime_code_skeptic.Document.Ranges.{read_ranges}

pub record PlatformInfo : Type 0 where
  pub os : OperatingSystem
  pub host_arch : Architecture
  pub process_arch : Architecture
  pub translation_mode : TranslationMode

-- A name from a closed set; a field that is missing stays unknown.
unfoldable pub read_enum : {E : Type 0} → List (String × E) → E → String → Members → Outcome E
unfolding find_member named
read_enum table absent key ms = elim (find_member (codes key) ms) [
  | none ↦ Outcome.ok absent
  | some v ↦ inside (codes key) (named table v)
]

-- A name from an open set: one that is not in the table is `other`.
unfoldable pub read_open_enum :
    {E : Type 0} → List (String × E) → E → E → String → Members → Outcome E
unfolding find_member entry
read_open_enum table absent fallback key ms = elim (find_member (codes key) ms) [
  | none ↦ Outcome.ok absent
  | some (Value.str s) ↦ Outcome.ok (elim (entry table s) [ some e ↦ e | none ↦ fallback ])
  | some v ↦ inside (codes key) (Outcome.refused Failure.wrong_type)
]

-- The width is derived from the architecture, and only its type is looked at.
unfoldable pub check_pointer_width : Option Value → Outcome (Unit {0})
check_pointer_width none = Outcome.ok tt
check_pointer_width (some Value.null) = Outcome.ok tt
check_pointer_width (some (Value.uint n)) = Outcome.ok tt
check_pointer_width (some (Value.int (Signed.from_zero n))) = Outcome.ok tt
check_pointer_width (some (Value.int (Signed.below n))) = Outcome.refused Failure.negative
check_pointer_width (some v) = Outcome.refused Failure.wrong_type

unfoldable pub read_platform : Option Value → Outcome PlatformInfo
unfolding read_enum read_open_enum optional_string check_pointer_width find_member
read_platform (some (Value.object ms)) = do
  os ← read_open_enum os_table OperatingSystem.unknown OperatingSystem.other "os" ms
  host_arch ← read_open_enum arch_table Architecture.unknown Architecture.other "host_arch" ms
  process_arch ← read_open_enum arch_table Architecture.unknown Architecture.other "process_arch" ms
  translation_mode ← read_enum translation_table TranslationMode.unknown "translation_mode" ms
  version ← optional_string (find_member (codes "os_version") ms)
  kernel ← optional_string (find_member (codes "kernel_version") ms)
  check_pointer_width (find_member (codes "pointer_width_bits") ms)
  Outcome.ok (record {
    os = os;
    host_arch = host_arch;
    process_arch = process_arch;
    translation_mode = translation_mode;
  })
read_platform v = Outcome.refused Failure.missing

-- A fact of the memory model.
abbrev pub read_fact : {A : Type 0} → (Value → Outcome A) → String → Members → Outcome (Fact A)
read_fact read key ms = do
  s ← inside (codes key) (fact_from_json read (find_member (codes key) ms))
  Outcome.ok s.fact

abbrev pub is_zero : Fact ℕ → Bool
is_zero (Fact.established n class) = n == 0
is_zero Fact.unknown = false

-- Both bounds are known, and there is no room between them.
abbrev pub contradict : Fact ℕ → Fact ℕ → Bool
contradict (Fact.established low class) (Fact.established top class') = leb top low
contradict low top = false

-- The entries of an array that all have to be strings.
unfoldable pub all_strings : Items → Outcome (Unit {0})
all_strings no_items = Outcome.ok tt
all_strings (item (Value.str s) xs) = all_strings xs
all_strings (item v xs) = Outcome.refused Failure.wrong_type

unfoldable pub check_strings : Option Value → Outcome (Unit {0})
unfolding all_strings
check_strings none = Outcome.ok tt
check_strings (some (Value.array xs)) = all_strings xs
check_strings (some v) = Outcome.refused Failure.wrong_type

abbrev pub no_protection : ProtectionModel
no_protection = record {
  write_execute_simultaneous = Fact.unknown;
  write_then_execute_transition = Fact.unknown;
  anonymous_executable_mapping = Fact.unknown;
  jit_entitlement_required = Fact.unknown;
}

unfoldable pub read_protection : Option Value → Outcome ProtectionModel
unfolding fact_from_json read_bool find_member
read_protection none = Outcome.ok no_protection
read_protection (some Value.null) = Outcome.ok no_protection
read_protection (some (Value.object ms)) = do
  simultaneous ← read_fact read_bool "write_execute_simultaneous" ms
  transition ← read_fact read_bool "write_then_execute_transition" ms
  executable ← read_fact read_bool "anonymous_executable_mapping" ms
  entitlement ← read_fact read_bool "jit_entitlement_required" ms
  Outcome.ok (record {
    write_execute_simultaneous = simultaneous;
    write_then_execute_transition = transition;
    anonymous_executable_mapping = executable;
    jit_entitlement_required = entitlement;
  })
read_protection (some v) = Outcome.refused Failure.wrong_type

unfoldable pub read_memory : Members → Outcome VirtualMemoryModel
unfolding fact_from_json read_bool read_uint read_address read_support_level named check_strings
    find_member read_protection read_ranges
read_memory ms = do
  page_size ← read_fact read_uint "page_size" ms
  allocation_granularity ← read_fact read_uint "allocation_granularity" ms
  refuse_if (is_zero page_size) Failure.impossible
  refuse_if (is_zero allocation_granularity) Failure.impossible
  min_map_address ← read_fact read_address "min_map_address" ms
  max_user_address ← read_fact read_address "max_user_address" ms
  refuse_if (contradict min_map_address max_user_address) Failure.contradictory_bounds
  max_single_reservation ← read_fact read_uint "max_single_reservation" ms
  max_single_reservation_hinted ← read_fact read_uint "max_single_reservation_hinted" ms
  anonymous_mapping_supported ← read_fact read_bool "anonymous_mapping_supported" ms
  exact_mapping ← read_fact read_support_level "exact_mapping" ms
  check_strings (find_member (codes "exact_mapping_failure_codes") ms)
  hinted_mapping_may_relocate ← read_fact read_bool "hinted_mapping_may_relocate" ms
  fixed_noreplace_available ← read_fact read_bool "fixed_noreplace_available" ms
  reserve_commit_model ← read_fact (named reserve_commit_table) "reserve_commit_model" ms
  file_map_beyond_eof ← read_fact (named beyond_eof_table) "file_map_beyond_eof" ms
  protection ← read_protection (find_member (codes "protection") ms)
  unavailable_ranges ←
      inside (codes "unavailable_ranges")
        (read_ranges (find_member (codes "unavailable_ranges") ms))
  available_ranges ←
      inside (codes "available_ranges") (read_ranges (find_member (codes "available_ranges") ms))
  Outcome.ok (record {
    page_size = page_size;
    allocation_granularity = allocation_granularity;
    min_map_address = min_map_address;
    max_user_address = max_user_address;
    max_single_reservation = max_single_reservation;
    max_single_reservation_hinted = max_single_reservation_hinted;
    anonymous_mapping_supported = anonymous_mapping_supported;
    exact_mapping = exact_mapping;
    hinted_mapping_may_relocate = hinted_mapping_may_relocate;
    fixed_noreplace_available = fixed_noreplace_available;
    reserve_commit_model = reserve_commit_model;
    file_map_beyond_eof = file_map_beyond_eof;
    protection = protection;
    unavailable_ranges = unavailable_ranges;
    available_ranges = available_ranges;
  })

-- The object of memory facts; one that is missing is empty.
unfoldable pub memory_object : Option Value → Outcome Members
memory_object none = Outcome.ok no_members
memory_object (some (Value.object ms)) = Outcome.ok ms
memory_object (some v) = Outcome.refused Failure.wrong_type

unfoldable pub check_run : Option Value → Outcome (Unit {0})
check_run none = Outcome.ok tt
check_run (some (Value.object ms)) = Outcome.ok tt
check_run (some v) = Outcome.refused Failure.wrong_type

abbrev pub profile_schema : Bytes
profile_schema = codes "runtime-skeptic.environment-profile.v1"

-- `validate` is `schema::validate_profile`.
unfoldable pub profile_from_json : (Value → Bool) → Value → Outcome EnvironmentProfile
unfolding required_string optional_string named read_platform memory_object read_memory check_run
    check_strings find_member
profile_from_json validate (Value.object ms) = do
  refuse_if (not (validate (Value.object ms))) Failure.schema_violation
  schema ← required_string (find_member (codes "schema") ms)
  refuse_if (not (same_bytes schema profile_schema)) Failure.unsupported_schema
  origin_node ← required (find_member (codes "origin") ms)
  origin ← named origin_table origin_node
  name ← optional_string (find_member (codes "profile_name") ms)
  platform ← read_platform (find_member (codes "platform") ms)
  memory ← memory_object (find_member (codes "virtual_memory") ms)
  vm ← read_memory memory
  check_run (find_member (codes "probe_run") ms)
  check_strings (find_member (codes "notes") ms)
  Outcome.ok (record { origin = origin; process_arch = platform.process_arch; vm = vm })
profile_from_json validate v = Outcome.refused Failure.wrong_type
