-- ===== src/Tests/Samples.antt =====
-- Sample requirements and hosts.
use runtime_code_skeptic.Base.{ℕ, true, false, [], ◌∷◌, some, none}
use runtime_code_skeptic.Evidence.{EvidenceClass, SupportLevel}
use runtime_code_skeptic.Fact.{Fact}
use runtime_code_skeptic.Profile.{
  EnvironmentProfile, Architecture, ReserveCommitModel, BeyondEofBehavior, ProfileOrigin,
}
use runtime_code_skeptic.Requirement.{
  Requirement, MappingRequest, OperationKind, FailureSinkKind, SizeRelation, FallbackKind,
  EofAccessExtent,
}
use runtime_code_skeptic.Analyzer.Engine.{Context}

abbrev pub measured : {A : Type 0} → A → Fact A
measured a = Fact.established a EvidenceClass.measured_capability

-- A host with 4 KiB pages and 64 KiB granularity, where one range is taken and one is free.
abbrev pub host : EnvironmentProfile
host = record {
  origin = ProfileOrigin.measured;
  process_arch = Architecture.x86_64;
  vm = record {
    page_size = measured 4096;
    allocation_granularity = measured 65536;
    min_map_address = measured 65536;
    max_user_address = measured 140737488355328;
    max_single_reservation = measured 1099511627776;
    max_single_reservation_hinted = Fact.unknown;
    anonymous_mapping_supported = measured true;
    exact_mapping = measured SupportLevel.supported;
    hinted_mapping_may_relocate = measured true;
    fixed_noreplace_available = measured true;
    reserve_commit_model = measured ReserveCommitModel.posix_lazy;
    file_map_beyond_eof = measured BeyondEofBehavior.sigbus;
    protection = record {
      write_execute_simultaneous = measured true;
      write_then_execute_transition = measured true;
      anonymous_executable_mapping = measured true;
      jit_entitlement_required = measured false;
    };
    unavailable_ranges =
        record {
          range = record { start = 4194304; stop = 8388608 };
          evidence = EvidenceClass.measured_capability;
        }
        ∷ [];
    available_ranges =
        record {
          range = record { start = 268435456; stop = 536870912 };
          evidence = EvidenceClass.measured_capability;
        }
        ∷ [];
  };
}

-- A mapping of 64 KiB of plain memory, wherever the host likes.
abbrev pub anywhere : MappingRequest
anywhere = record {
  address = none;
  size = 65536;
  exact_address_required = false;
  relies_on_unmapped_beyond_size = false;
  required_alignment = none;
  address_min = none;
  address_max = none;
  max_displacement_bytes = none;
  commit_is_checked_call = false;
  required_page_size = none;
  required_page_size_relation = SizeRelation.equal;
  validates_returned_address = false;
  protection = record { read = true; write = true; execute = false };
  write_then_execute = false;
  simultaneous_write_execute = false;
  file_backed = false;
  file_length = none;
  file_offset = 0;
  accesses_beyond_eof = false;
  eof_access_extent = EofAccessExtent.whole_page_past_end;
  reserve_then_commit = false;
}

abbrev pub program : MappingRequest → Requirement
program request = record {
  operation = OperationKind.virtual_memory_map;
  request = request;
  assumptions = record {
    guest_host_identity_required = false;
    translation_layer_available = false;
    pointer_storage_width_bits = none;
    retries_on_failure = false;
    max_retries = none;
  };
  permitted_fallbacks = [];
  failure_sink = FailureSinkKind.fatal_assert;
  assumption_evidence = EvidenceClass.specified_guarantee;
  extraction_limitations = [];
  unrecognized_fields = [];
}

abbrev pub on_host : Requirement → Context
on_host requirement = record {
  requirement = requirement;
  profile = host;
  options = record { report_unknowns = true };
}

-- The same mapping at a fixed address.
abbrev pub at_address : ℕ → MappingRequest
at_address base = record anywhere { address = some base; exact_address_required = true }

-- An exact mapping of a free range, for a program that assumes 4 KiB pages.
abbrev pub free : Context
free = on_host (program (record (at_address 268435456) { required_page_size = some 4096 }))

-- A mapping that passes the end of its file, where the program does not look.
abbrev pub past_end : Context
past_end = on_host (program (record anywhere { file_backed = true; file_length = some 1000 }))

abbrev pub assuming_identity : Requirement → Requirement
assuming_identity requirement = record requirement {
  assumptions = record requirement.assumptions { guest_host_identity_required = true };
}

-- A program that would take any address and relies on the one it asked for.
abbrev pub relocating : Context
relocating =
    on_host
      (record (program (at_address 268435456)) { permitted_fallbacks = FallbackKind.relocate ∷ [] })

-- A program that stores pointers in 32 bits and maps above them.
abbrev pub narrow : Context
narrow = on_host (record (program (at_address 17179869184)) {
  assumptions = record {
    guest_host_identity_required = false;
    translation_layer_available = false;
    pointer_storage_width_bits = some 32;
    retries_on_failure = false;
    max_retries = none;
  };
})

-- A run that does not report unknowns, on a host whose page size is not known.
abbrev pub silent : Context
silent = record {
  requirement = program (record anywhere { required_page_size = some 4096 });
  profile = record host { vm = record host.vm { page_size = Fact.unknown } };
  options = record { report_unknowns = false };
}
